-- ===== src/ThreadPool/System.antt =====
-- The threads of the pool: any number of workers that run `worker_loop`, and the main thread that
-- calls `thread_pool_submit` and then `thread_pool_shutdown`. A step is what one thread does while
-- it holds the mutex, or a wake-up; the steps come in any order.
use tryo.Prelude.{ℕ, ◌≡◌, Bool, true, false, some, List, [], ◌∷◌, ◌++◌, get_elem?, set}
use tryo.ThreadPool.{ThreadPool, WorkerTurn, SubmitTurn, worker_turn, submit_turn, stop}

-- A worker is about to take the mutex, is asleep in `pthread_cond_wait` on `not_empty`, runs the
-- handler on a descriptor, or has returned.
pub data Worker : Type 0 where
  ready asleep exited : Worker
  serving : ℕ → Worker

-- The main thread is outside the pool, is about to take the mutex for a submission, is asleep on
-- `not_full`, waits in `pthread_join`, or has joined all workers.
pub data Main : Type 0 where
  running joining finished : Main
  submitting blocked : ℕ → Main

-- `accepted` are the descriptors for which `thread_pool_submit` returned 1, `taken` those that
-- workers took, each in order of time.
pub record System : Type 0 where
  pub pool : ThreadPool
  pub workers : List Worker
  pub main : Main
  pub accepted : List ℕ
  pub taken : List ℕ

-- `pthread_cond_broadcast(&not_empty)`, and `pthread_cond_signal(&not_full)`, on which no thread but
-- the main one waits
abbrev pub wake : Worker → Worker
wake asleep = ready
wake w = w

abbrev pub wake_all : List Worker → List Worker
wake_all [] = []
wake_all (w ∷ ws) = wake w ∷ wake_all ws

abbrev pub wake_main : Main → Main
wake_main (blocked fd) = submitting fd
wake_main m = m

abbrev pub no_sleeper : List Worker → Bool
no_sleeper [] = true
no_sleeper (asleep ∷ ws) = false
no_sleeper (w ∷ ws) = no_sleeper ws

pub data Woken : List Worker → List Worker → Type 0 where
  first : (ws : List Worker) → Woken (asleep ∷ ws) (ready ∷ ws)
  later : (w : Worker) {ws vs : List Worker} → Woken ws vs → Woken (w ∷ ws) (w ∷ vs)

-- `pthread_cond_signal(&not_empty)` wakes a sleeping worker, if there is one
pub data Signalled (ws vs : List Worker) : Type 0 where
  nobody : no_sleeper ws ≡ true → vs ≡ ws → Signalled ws vs
  somebody : Woken ws vs → Signalled ws vs

abbrev pub all_exited : List Worker → Bool
all_exited [] = true
all_exited (exited ∷ ws) = all_exited ws
all_exited (w ∷ ws) = false

pub data Step (s : System) : System → Type 0 where
  worker_waits :
      (i : ℕ)
      → get_elem? s.workers i ≡ some ready
      → worker_turn s.pool ≡ WorkerTurn.wait
      → Step s (record s { workers = set s.workers i asleep })
  worker_leaves :
      (i : ℕ)
      → get_elem? s.workers i ≡ some ready
      → worker_turn s.pool ≡ WorkerTurn.leave
      → Step s (record s { workers = set s.workers i exited })
  worker_takes :
      (i fd : ℕ) (pool : ThreadPool)
      → get_elem? s.workers i ≡ some ready
      → worker_turn s.pool ≡ WorkerTurn.take fd pool
      → Step s (record s {
        pool = pool;
        workers = set s.workers i (serving fd);
        main = wake_main s.main;
        taken = s.taken ++ fd ∷ [];
      })
  handler_returns :
      (i fd : ℕ)
      → get_elem? s.workers i ≡ some (serving fd)
      → Step s (record s { workers = set s.workers i ready })
  worker_wakes :
      (i : ℕ)
      → get_elem? s.workers i ≡ some asleep
      → Step s (record s { workers = set s.workers i ready })
  main_submits : (fd : ℕ) → s.main ≡ running → Step s (record s { main = submitting fd })
  main_waits :
      (fd : ℕ)
      → s.main ≡ submitting fd
      → submit_turn s.pool fd ≡ SubmitTurn.wait
      → Step s (record s { main = blocked fd })
  main_refused :
      (fd : ℕ)
      → s.main ≡ submitting fd
      → submit_turn s.pool fd ≡ SubmitTurn.refuse
      → Step s (record s { main = running })
  main_stores :
      (fd : ℕ) (pool : ThreadPool) (workers : List Worker)
      → s.main ≡ submitting fd
      → submit_turn s.pool fd ≡ SubmitTurn.store pool
      → Signalled s.workers workers
      → Step s (record s {
        pool = pool;
        workers = workers;
        main = running;
        accepted = s.accepted ++ fd ∷ [];
      })
  main_wakes : (fd : ℕ) → s.main ≡ blocked fd → Step s (record s { main = submitting fd })
  main_stops :
      s.main ≡ running
      → Step s (record s { pool = stop s.pool; workers = wake_all s.workers; main = joining })
  main_joined :
      s.main ≡ joining → all_exited s.workers ≡ true → Step s (record s { main = finished })

pub data Reach (s : System) : System → Type 0 where
  here : Reach s s
  next : {t u : System} → Reach s t → Step t u → Reach s u

abbrev pub all_ready : List Worker → Bool
all_ready [] = true
all_ready (ready ∷ ws) = all_ready ws
all_ready (w ∷ ws) = false
