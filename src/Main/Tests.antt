-- ===== src/Main/Tests.antt =====
-- Arguments of the command line.
use tryo.Prelude.{[], ◌∷◌, codes}
use tryo.Main.{InRange, config_of, config_of-InRange}

config_of-InRange_example :
    InRange (config_of (codes "9000" ∷ codes "0" ∷ [])).port
    × InRange (config_of (codes "9000" ∷ codes "0" ∷ [])).thread_count
config_of-InRange_example = config_of-InRange (codes "9000" ∷ codes "0" ∷ [])
