-- ===== src/ThreadPool/Fifo.antt =====
-- Every accepted descriptor is taken once and in order, whatever the threads do.
use tryo.Prelude.{ℕ, ◌≡◌, refl, sym, ap, ◌∙◌, [], ◌∷◌, ◌++◌, append_assoc}
use tryo.ThreadPool.{ThreadPool, WorkerTurn, SubmitTurn, worker_turn, submit_turn, stop}
use tryo.ThreadPool.Ring.{
  IsValid, queue, WorkerSpec, SubmitSpec, worker_turn_refines, submit_turn_refines,
}
use tryo.ThreadPool.System.{
  System, Step, worker_waits, worker_leaves, worker_takes, handler_returns, worker_wakes,
  main_submits, main_waits, main_refused, main_stores, main_wakes, main_stops, main_joined, Reach,
  here, next,
}

-- the accepted descriptors are the taken ones, and then those in the queue
pub record IsFifo (s : System) : Type 0 where
  pub valid : IsValid s.pool
  pub order : s.accepted ≡ s.taken ++ queue s.pool

pub worker_lem :
    (pool : ThreadPool) (t : WorkerTurn) → worker_turn pool ≡ t → IsValid pool → WorkerSpec pool t
worker_lem pool t e v = rw e at (worker_turn_refines pool v)

pub submit_lem :
    (pool : ThreadPool) (fd : ℕ) (t : SubmitTurn)
    → submit_turn pool fd ≡ t
    → IsValid pool
    → SubmitSpec pool fd t
submit_lem pool fd t e v = rw e at (submit_turn_refines pool fd v)

stop-IsValid : (pool : ThreadPool) → IsValid pool → IsValid (stop pool)
unfolding stop
stop-IsValid pool v = record {
  slots = v.slots;
  head_in = v.head_in;
  tail_at = v.tail_at;
  bounded = v.bounded;
}

queue-stop : (pool : ThreadPool) → queue (stop pool) ≡ queue pool
unfolding stop
queue-stop pool = refl

pub Step-IsFifo : {s t : System} → Step s t → IsFifo s → IsFifo t
Step-IsFifo (worker_waits i a e) f = record { valid = f.valid; order = f.order }
Step-IsFifo (worker_leaves i a e) f = record { valid = f.valid; order = f.order }
Step-IsFifo {s} (worker_takes i fd pool a e) f =
    let (q, v, _, _) = worker_lem s.pool (WorkerTurn.take fd pool) e f.valid in
    record { valid = v; order = f.order ∙ rw q (sym (append_assoc s.taken (fd ∷ []) (queue pool))) }
Step-IsFifo (handler_returns i fd a) f = record { valid = f.valid; order = f.order }
Step-IsFifo (worker_wakes i a) f = record { valid = f.valid; order = f.order }
Step-IsFifo (main_submits fd m) f = record { valid = f.valid; order = f.order }
Step-IsFifo (main_waits fd m e) f = record { valid = f.valid; order = f.order }
Step-IsFifo (main_refused fd m e) f = record { valid = f.valid; order = f.order }
Step-IsFifo {s} (main_stores fd pool ws m e w) f =
    let (q, v, _, _, _) = submit_lem s.pool fd (SubmitTurn.store pool) e f.valid in
    record {
      valid = v;
      order = rw q (ap (λ l. l ++ fd ∷ []) f.order ∙ append_assoc s.taken (queue s.pool) (fd ∷ []));
    }
Step-IsFifo (main_wakes fd m) f = record { valid = f.valid; order = f.order }
Step-IsFifo {s} (main_stops m) f = record {
  valid = stop-IsValid s.pool f.valid;
  order = f.order ∙ rw (queue-stop s.pool) refl;
}
Step-IsFifo (main_joined m x) f = record { valid = f.valid; order = f.order }

pub Reach-IsFifo : {s t : System} → Reach s t → IsFifo s → IsFifo t
Reach-IsFifo here f = f
Reach-IsFifo (next r st) f = Step-IsFifo st (Reach-IsFifo r f)

-- a pool as `thread_pool_init` leaves it, before any descriptor
pub record IsFresh (s : System) : Type 0 where
  pub valid : IsValid s.pool
  pub empty : queue s.pool ≡ []
  pub no_accepted : s.accepted ≡ []
  pub no_taken : s.taken ≡ []

pub IsFresh-IsFifo : {s : System} → IsFresh s → IsFifo s
IsFresh-IsFifo f = record { valid = f.valid; order = f.no_accepted ∙ rw (f.no_taken, f.empty) refl }

-- However the threads of a fresh pool interleave, the descriptors that `thread_pool_submit` accepted
-- are, in order, those that workers took and then those still in the queue.
pub accepted_in_order :
    {s t : System} → Reach s t → IsFresh s → t.accepted ≡ t.taken ++ queue t.pool
accepted_in_order r f = (Reach-IsFifo r (IsFresh-IsFifo f)).order
