-- ===== src/ThreadPool.antt =====
-- src/thread_pool.c and include/thread_pool.h: the bounded queue of client descriptors. Here are the
-- parts of the functions that run under the mutex, each as one step; ThreadPool/System.antt lets the
-- threads take these steps in any order.
pub mod Ring
pub mod Init
pub mod System
pub mod Fifo
pub mod Live
pub mod Progress
pub mod Tests
use tryo.Prelude.{
  ℕ, suc, ◌+◌, ◌-◌, ◌%◌, Bool, true, false, not, ◌&&◌, List, get_or, set, ◌==◌, if◌then◌else◌,
}

-- Of the record, `handler` and `context` are not changed by the pool, and the mutex, the condition
-- variables and the threads are in ThreadPool/System.antt.
pub record ThreadPool : Type 0 where
  pub fds : List ℕ
  pub capacity : ℕ
  pub head : ℕ
  pub tail : ℕ
  pub count : ℕ
  pub stopping : Bool

-- What `worker_loop` does with the mutex held: it waits on `not_empty`, it leaves its loop, or it
-- takes a descriptor and signals `not_full`.
pub data WorkerTurn : Type 0 where
  wait leave : WorkerTurn
  take : ℕ → ThreadPool → WorkerTurn

unfoldable pub dequeue : ThreadPool → ThreadPool
dequeue pool = record pool { head = (pool.head + 1) % pool.capacity; count = pool.count - 1 }

unfoldable pub worker_turn : ThreadPool → WorkerTurn
unfolding dequeue
worker_turn pool =
    if not pool.stopping && pool.count == 0
    then wait
    else if pool.stopping && pool.count == 0
    then leave
    else take (get_or pool.fds pool.head 0) (dequeue pool)

-- What `thread_pool_submit` does with the mutex held: it waits on `not_full`, it returns 0, or it
-- stores the descriptor, signals `not_empty` and returns 1.
pub data SubmitTurn : Type 0 where
  wait refuse : SubmitTurn
  store : ThreadPool → SubmitTurn

unfoldable pub enqueue : ThreadPool → ℕ → ThreadPool
enqueue pool client_fd = record pool {
  fds = set pool.fds pool.tail client_fd;
  tail = (pool.tail + 1) % pool.capacity;
  count = suc pool.count;
}

unfoldable pub submit_turn : ThreadPool → ℕ → SubmitTurn
unfolding enqueue
submit_turn pool client_fd =
    if not pool.stopping && pool.count == pool.capacity
    then wait
    else if pool.stopping
    then refuse
    else store (enqueue pool client_fd)

-- what `thread_pool_shutdown` writes with the mutex held, before it wakes all threads
unfoldable pub stop : ThreadPool → ThreadPool
stop pool = record pool { stopping = true }
