-- ===== src/Server/Ends.antt =====
-- A signal ends `server_run` of src/server.c.
use tryo.Prelude.{◌≢◌, Bool, false, ◌||◌, none, List, [], ◌∷◌}
use tryo.ThreadPool.{ThreadPool}
use tryo.Server.Run.{Server, Round}

-- whether a signal comes in one of the rounds
abbrev pub signalled : List Round → Bool
signalled [] = false
signalled (r ∷ rounds) = r.signal_before || r.signal_during || signalled rounds

-- no `thread_pool_submit` in the rounds waits forever
abbrev pub AllSubmitted : List Round → Type 0
AllSubmitted [] = Unit
AllSubmitted (r ∷ rounds) = (r.submit ≢ none) × AllSubmitted rounds
