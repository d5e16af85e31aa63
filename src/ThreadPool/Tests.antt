-- ===== src/ThreadPool/Tests.antt =====
-- A pool of two slots: runs of its turns, an interleaving, and the theorems there.
use tryo.Prelude.{
  ℕ, zero, ◌≡◌, ◌≢◌, refl, true, false, none, some, List, [], ◌∷◌, ◌++◌, arith, length,
}
use tryo.ThreadPool.{ThreadPool, WorkerTurn, SubmitTurn, worker_turn, submit_turn, stop}
use tryo.ThreadPool.Ring.{
  IsValid, queue, WorkerSpec, SubmitSpec, worker_turn_refines, submit_turn_refines,
}
use tryo.ThreadPool.Init.{Calls, nothing, running_with, thread_pool_init}
use tryo.ThreadPool.System.{
  ready, exited, running, finished, System, first, somebody, no_sleeper, worker_waits,
  worker_leaves, worker_takes, handler_returns, main_submits, main_stores, main_stops, main_joined,
  Reach, here, next,
}
use tryo.ThreadPool.Fifo.{IsFresh, accepted_in_order}
use tryo.ThreadPool.Progress.{IsStart, no_stall, drained_at_shutdown, never_refused}
use tryo.ThreadPool.Live.{IsBlocked}
use tryo.ThreadPool.Live.Workers.{some_active}

abbrev pool : List ℕ → ℕ → ℕ → ℕ → ThreadPool
pool fds head tail count = record {
  fds = fds;
  capacity = 2;
  head = head;
  tail = tail;
  count = count;
  stopping = false;
}

abbrev wrapped : ThreadPool
wrapped = pool (9 ∷ 8 ∷ []) 1 1 2

wrapped-IsValid : IsValid wrapped
wrapped-IsValid = omega arith

queue-wrapped : queue wrapped ≡ 8 ∷ 9 ∷ []
queue-wrapped = refl

turns :
    (worker_turn wrapped ≡ WorkerTurn.take 8 (pool (9 ∷ 8 ∷ []) 0 1 1))
    × (submit_turn wrapped 5 ≡ SubmitTurn.wait)
    × (submit_turn (stop wrapped) 5 ≡ SubmitTurn.refuse)
unfolding worker_turn submit_turn stop
turns = (refl, refl, refl)

worker_turn_refines_example : WorkerSpec wrapped (worker_turn wrapped)
worker_turn_refines_example = worker_turn_refines wrapped wrapped-IsValid

submit_turn_refines_example : SubmitSpec wrapped 5 (submit_turn wrapped 5)
submit_turn_refines_example = submit_turn_refines wrapped 5 wrapped-IsValid

-- the second `pthread_create` fails
abbrev calls : Calls
calls = record {
  fds_ok = true;
  threads_ok = true;
  mutex_ok = true;
  not_empty_ok = true;
  not_full_ok = true;
  create_ok = λ i. elim i [ zero ↦ true | _ ↦ false ];
  ends = λ i. true;
  slots = 0 ∷ 0 ∷ [];
}

init_runs :
    (thread_pool_init calls 1 2 false ≡ some (running_with 1, some (pool (0 ∷ 0 ∷ []) 0 0 0)))
    × (thread_pool_init calls 3 2 false ≡ some (nothing, none))
unfolding thread_pool_init
init_runs = (refl, refl)

abbrev pub start : System
start = record {
  pool = pool (0 ∷ 0 ∷ []) 0 0 0;
  workers = ready ∷ [];
  main = running;
  accepted = [];
  taken = [];
}

start-IsFresh : IsFresh start
start-IsFresh = record { valid = omega arith; empty = refl; no_accepted = refl; no_taken = refl }

pub start-IsStart : IsStart start
start-IsStart = record {
  fresh = start-IsFresh;
  some_worker = λ e. cc;
  ready_workers = refl;
  main_runs = refl;
  going = refl;
}

-- the worker falls asleep, descriptor 7 is submitted and wakes it
stored : Reach start (record {
  pool = pool (7 ∷ 0 ∷ []) 0 1 1;
  workers = ready ∷ [];
  main = running;
  accepted = 7 ∷ [];
  taken = [];
})
unfolding worker_turn submit_turn
stored =
    next (next (next here (worker_waits 0 refl refl)) (main_submits 7 refl))
      (main_stores 7 (pool (7 ∷ 0 ∷ []) 0 1 1) (ready ∷ []) refl refl (somebody (first [])))

accepted_in_order_example : 7 ∷ [] ≡ [] ++ queue (pool (7 ∷ 0 ∷ []) 0 1 1)
accepted_in_order_example = accepted_in_order stored start-IsFresh

no_stall_example :
    (false ≡ false → queue (pool (7 ∷ 0 ∷ []) 0 1 1) ≢ [] → some_active (ready ∷ []) ≡ true)
    × (IsBlocked running → length (queue (pool (7 ∷ 0 ∷ []) 0 1 1)) ≡ 2)
    × (false ≡ true → no_sleeper (ready ∷ []) ≡ true)
no_stall_example = no_stall stored start-IsStart

abbrev pub stopped : ThreadPool
stopped = record (pool (7 ∷ 0 ∷ []) 1 1 0) { stopping = true }

-- the pool is stopped while the descriptor is queued; the worker serves it and then returns
pub joined : Reach start (record {
  pool = stopped;
  workers = exited ∷ [];
  main = finished;
  accepted = 7 ∷ [];
  taken = 7 ∷ [];
})
unfolding worker_turn stop
joined =
    next
      (next
        (next (next (next stored (main_stops refl)) (worker_takes 0 7 stopped refl refl))
          (handler_returns 0 7 refl))
        (worker_leaves 0 refl refl))
      (main_joined refl refl)

drained_at_shutdown_example : (queue stopped ≡ []) × (◌≡◌ {A = List ℕ} (7 ∷ []) (7 ∷ []))
drained_at_shutdown_example = drained_at_shutdown joined start-IsStart refl

never_refused_example : submit_turn (pool (0 ∷ 0 ∷ []) 0 0 0) 7 ≢ SubmitTurn.refuse
never_refused_example = never_refused (next here (main_submits 7 refl)) start-IsStart 7 refl
