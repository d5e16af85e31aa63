-- ===== src/ThreadPool/Live/Workers.antt =====
-- The list of workers under the changes that a step makes to it.
use tryo.Prelude.{
  ℕ, zero, suc, ◌≡◌, ◌≢◌, refl, Bool, true, false, some, List, [], ◌∷◌, get_elem?, set, arith,
}
use tryo.ThreadPool.System.{
  Worker, ready, asleep, exited, serving, no_sleeper, all_exited, wake_all, Woken, first, later,
  Signalled, nobody, somebody,
}

-- some worker is about to take the mutex, or runs the handler and will
abbrev pub some_active : List Worker → Bool
some_active [] = false
some_active (ready ∷ ws) = true
some_active (serving fd ∷ ws) = true
some_active (w ∷ ws) = some_active ws

abbrev pub no_exited : List Worker → Bool
no_exited [] = true
no_exited (exited ∷ ws) = false
no_exited (w ∷ ws) = no_exited ws

abbrev pub is_active : Worker → Bool
is_active ready = true
is_active (serving fd) = true
is_active w = false

pub set-ne-nil : (ws : List Worker) (i : ℕ) (w : Worker) → ws ≢ [] → set ws i w ≢ []
set-ne-nil [] i w h = h
set-ne-nil (v ∷ ws) zero w h = λ e. cc
set-ne-nil (v ∷ ws) (suc i) w h = λ e. cc

pub some_active-set :
    (ws : List Worker) (i : ℕ) (v w : Worker)
    → get_elem? ws i ≡ some v
    → is_active w ≡ true
    → some_active (set ws i w) ≡ true
some_active-set [] i v w e h = cc
some_active-set (u ∷ ws) zero v w e h = ground arith
some_active-set (u ∷ ws) (suc i) v w e h = ground (arith, some_active-set ws i v w)

pub no_exited-set :
    (ws : List Worker) (i : ℕ) (v w : Worker)
    → get_elem? ws i ≡ some v
    → v ≢ exited
    → w ≢ exited
    → no_exited (set ws i w) ≡ no_exited ws
no_exited-set [] i v w e h k = cc
no_exited-set (u ∷ ws) zero v w e h k = ground arith
no_exited-set (u ∷ ws) (suc i) v w e h k = ground (arith, no_exited-set ws i v w e h k)

pub no_sleeper-set :
    (ws : List Worker) (i : ℕ) (w : Worker)
    → no_sleeper ws ≡ true
    → w ≢ asleep
    → no_sleeper (set ws i w) ≡ true
no_sleeper-set [] i w e h = refl
no_sleeper-set (u ∷ ws) zero w e h = ground arith
no_sleeper-set (u ∷ ws) (suc i) w e h = ground (arith, no_sleeper-set ws i w)

pub all_exited-get :
    (ws : List Worker) (i : ℕ) (v : Worker)
    → all_exited ws ≡ true
    → get_elem? ws i ≡ some v
    → v ≡ exited
all_exited-get [] i v h e = cc
all_exited-get (u ∷ ws) zero v h e = ground arith
all_exited-get (u ∷ ws) (suc i) v h e = ground (arith, all_exited-get ws i v)

pub no_sleeper-get :
    (ws : List Worker) (i : ℕ) → no_sleeper ws ≡ true → get_elem? ws i ≢ some asleep
no_sleeper-get [] i h = λ e. cc
no_sleeper-get (u ∷ ws) zero h = λ e. ground arith
no_sleeper-get (u ∷ ws) (suc i) h = λ e. ground (arith, no_sleeper-get ws i)

pub no_sleeper-wake_all : (ws : List Worker) → no_sleeper (wake_all ws) ≡ true
no_sleeper-wake_all [] = refl
no_sleeper-wake_all (w ∷ ws) = ground (arith, no_sleeper-wake_all ws)

pub no_exited-wake_all : (ws : List Worker) → no_exited (wake_all ws) ≡ no_exited ws
no_exited-wake_all [] = refl
no_exited-wake_all (w ∷ ws) = ground (arith, no_exited-wake_all ws)

pub wake_all-ne-nil : (ws : List Worker) → ws ≢ [] → wake_all ws ≢ []
wake_all-ne-nil [] h = h
wake_all-ne-nil (w ∷ ws) h = λ e. cc

Woken-active : {ws vs : List Worker} → Woken ws vs → some_active vs ≡ true
Woken-active (first ws) = refl
Woken-active (later w k) = ground (arith, Woken-active k)

Woken-exited : {ws vs : List Worker} → Woken ws vs → no_exited vs ≡ no_exited ws
Woken-exited (first ws) = refl
Woken-exited (later w k) = ground (arith, Woken-exited k)

Woken-ne-nil : {ws vs : List Worker} → Woken ws vs → vs ≢ []
Woken-ne-nil (first ws) = λ e. cc
Woken-ne-nil (later w k) = λ e. cc

active_workers :
    (ws : List Worker)
    → ws ≢ []
    → no_sleeper ws ≡ true
    → no_exited ws ≡ true
    → some_active ws ≡ true
active_workers [] h p q = absurd (h refl)
active_workers (w ∷ ws) h p q = ground arith

pub Signalled-active :
    (ws vs : List Worker) → Signalled ws vs → ws ≢ [] → no_exited ws ≡ true → some_active vs ≡ true
Signalled-active ws vs (nobody s e) h q = rw e (active_workers ws h s q)
Signalled-active ws vs (somebody k) h q = Woken-active k

pub Signalled-exited : (ws vs : List Worker) → Signalled ws vs → no_exited vs ≡ no_exited ws
Signalled-exited ws vs (nobody s e) = rw e refl
Signalled-exited ws vs (somebody k) = Woken-exited k

pub Signalled-ne-nil : (ws vs : List Worker) → Signalled ws vs → ws ≢ [] → vs ≢ []
Signalled-ne-nil ws vs (nobody s e) h = rw e h
Signalled-ne-nil ws vs (somebody k) h = Woken-ne-nil k
