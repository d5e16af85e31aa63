-- ===== src/Db/Yields.antt =====
-- A step of src/db.c that gives a result with a property, or fails for a reason.
use Prim.Native.String.{String}
use tryo.Prelude.{◌≡◌, Option, none, some, refl}
use tryo.Sql.{Parsed, ok, fail, ◌>>=◌, ◌or_fail◌}

pub data Yields {ℓ} {A : Type ℓ} (F : Type 0) (P : A → Type 0) : Parsed A → Type ℓ where
  yields : (a : A) → P a → Yields F P (ok a)
  refused : F → (message : String) → Yields F P (fail message)

pub Yields-bind {ℓ κ} :
    {A : Type ℓ} {B : Type κ} {F : Type 0} {Q : A → Type 0} {P : B → Type 0} {m : Parsed A}
    (f : A → Parsed B)
    → Yields F Q m
    → ((a : A) → Q a → Yields F P (f a))
    → Yields F P (m >>= f)
Yields-bind f (yields a h) k = k a h
Yields-bind f (refused r message) k = refused r message

pub Yields-weaken {ℓ} :
    {A : Type ℓ} {F G : Type 0} {P : A → Type 0} {m : Parsed A}
    → (F → G)
    → Yields F P m
    → Yields G P m
Yields-weaken g (yields a h) = yields a h
Yields-weaken g (refused r message) = refused (g r) message

pub Yields-or_fail {ℓ} :
    {A : Type ℓ} {F : Type 0} (Q : A → Type 0) (o : Option A) (message : String)
    → ((a : A) → o ≡ some a → Q a)
    → (o ≡ none → F)
    → Yields F Q (o or_fail message)
Yields-or_fail Q none message h r = refused (r refl) message
Yields-or_fail Q (some a) message h r = yields a (h a refl)
