-- ===== src/ThreadPool/Live.antt =====
-- The invariant of the pool of src/thread_pool.c with its threads: no wake-up is lost.
pub mod Workers
use Workers.{
  some_active, no_exited, set-ne-nil, some_active-set, no_exited-set, no_sleeper-set,
  all_exited-get, no_sleeper-get, no_sleeper-wake_all, no_exited-wake_all, wake_all-ne-nil,
  Signalled-active, Signalled-exited, Signalled-ne-nil,
}
use tryo.Prelude.{
  ℕ, zero, suc, ◌≡◌, ◌≢◌, refl, sym, ap, ◌∙◌, inl, inr, ◌⊎◌, Bool, true, false, Option, none, some,
  List, [], ◌∷◌, ◌++◌, append-nil, get_elem?, set, arith, length,
}
use tryo.ThreadPool.{ThreadPool, WorkerTurn, SubmitTurn, worker_turn, submit_turn, stop}
use tryo.ThreadPool.Ring.{IsValid, queue}
use tryo.ThreadPool.System.{
  Worker, ready, asleep, exited, serving, Main, running, joining, finished, submitting, blocked,
  System, no_sleeper, all_exited, all_ready, wake_all, wake_main, Woken, first, later, Signalled,
  nobody, somebody, Step, worker_waits, worker_leaves, worker_takes, handler_returns, worker_wakes,
  main_submits, main_waits, main_refused, main_stores, main_wakes, main_stops, main_joined, Reach,
  here, next,
}
use tryo.ThreadPool.Fifo.{IsFifo, Step-IsFifo, worker_lem, submit_lem, IsFresh, IsFresh-IsFifo}

abbrev pub IsBlocked : Main → Type 0
IsBlocked (blocked fd) = Unit
IsBlocked m = ⊥

-- whether the main thread has passed `stopping = 1`
abbrev pub past_stop : Main → Bool
past_stop joining = true
past_stop finished = true
past_stop m = false

pub record IsLive (s : System) : Type 0 where
  pub fifo : IsFifo s
  pub some_worker : s.workers ≢ []
  pub stops : s.pool.stopping ≡ past_stop s.main
  -- a queue that holds a descriptor has an active worker
  pub served : s.pool.stopping ≡ false → queue s.pool ≢ [] → some_active s.workers ≡ true
  -- workers return only from a pool that stops
  pub stay : s.pool.stopping ≡ false → no_exited s.workers ≡ true
  -- and nobody sleeps in one
  pub awake : s.pool.stopping ≡ true → no_sleeper s.workers ≡ true
  -- the main thread sleeps only on a full queue
  pub full : IsBlocked s.main → length (queue s.pool) ≡ s.pool.capacity
  -- once all have been joined, they have returned
  pub joined : s.main ≡ finished → all_exited s.workers ≡ true
  -- a worker returns only when the queue is empty
  pub drained : no_exited s.workers ≡ false → queue s.pool ≡ []

-- what a step that moves the i-th worker from `v` to `w` under an unchanged pool keeps
module _ {s : System} (l : IsLive s) (i : ℕ) (v w : Worker)
    (at_i : get_elem? s.workers i ≡ some v) where
  not_finished : v ≢ exited → s.main ≢ finished
  not_finished h m = h (all_exited-get s.workers i v (l.joined m) at_i)

module _ {s : System} (l : IsLive s) where
  waits-IsLive :
      (i : ℕ)
      → get_elem? s.workers i ≡ some ready
      → worker_turn s.pool ≡ WorkerTurn.wait
      → IsFifo (record s { workers = set s.workers i asleep })
      → IsLive (record s { workers = set s.workers i asleep })
  waits-IsLive i a e f =
      let (empty, going) = worker_lem s.pool WorkerTurn.wait e l.fifo.valid in
      record {
        fifo = f;
        some_worker = set-ne-nil s.workers i asleep l.some_worker;
        stops = l.stops;
        served = λ g q. absurd (q empty);
        stay = λ g. no_exited-set s.workers i ready asleep a (cc) (cc) ∙ l.stay g;
        awake = λ g. cc (g, going);
        full = l.full;
        joined = λ m. absurd (not_finished l i ready asleep a (cc) m);
        drained = λ x. empty;
      }

  leaves-IsLive :
      (i : ℕ)
      → get_elem? s.workers i ≡ some ready
      → worker_turn s.pool ≡ WorkerTurn.leave
      → IsFifo (record s { workers = set s.workers i exited })
      → IsLive (record s { workers = set s.workers i exited })
  leaves-IsLive i a e f =
      let (empty, stopped) = worker_lem s.pool WorkerTurn.leave e l.fifo.valid in
      record {
        fifo = f;
        some_worker = set-ne-nil s.workers i exited l.some_worker;
        stops = l.stops;
        served = λ g q. absurd (q empty);
        stay = λ g. cc (g, stopped);
        awake = λ g. no_sleeper-set s.workers i exited (l.awake g) (cc);
        full = l.full;
        joined = λ m. absurd (not_finished l i ready exited a (cc) m);
        drained = λ x. empty;
      }

  -- a worker that is not asleep and has not returned becomes active
  active-IsLive :
      (i : ℕ) (v : Worker)
      → get_elem? s.workers i ≡ some v
      → v ≢ exited
      → IsFifo (record s { workers = set s.workers i ready })
      → IsLive (record s { workers = set s.workers i ready })
  active-IsLive i v a h f = record {
    fifo = f;
    some_worker = set-ne-nil s.workers i ready l.some_worker;
    stops = l.stops;
    served = λ g q. some_active-set s.workers i v ready a refl;
    stay = λ g. no_exited-set s.workers i v ready a h (cc) ∙ l.stay g;
    awake = λ g. no_sleeper-set s.workers i ready (l.awake g) (cc);
    full = l.full;
    joined = λ m. absurd (not_finished l i v ready a h m);
    drained = λ x. l.drained (sym (no_exited-set s.workers i v ready a h (cc)) ∙ x);
  }

not-IsBlocked : (m : Main) → ¬ IsBlocked (wake_main m)
not-IsBlocked running h = h
not-IsBlocked joining h = h
not-IsBlocked finished h = h
not-IsBlocked (submitting fd) h = h
not-IsBlocked (blocked fd) h = h

past_stop-wake_main : (m : Main) → past_stop (wake_main m) ≡ past_stop m
past_stop-wake_main m = ground arith

finished-wake_main : (m : Main) → wake_main m ≡ finished → m ≡ finished
finished-wake_main m h = ground arith

pub IsBlocked-main : {m m' : Main} → m ≡ m' → IsBlocked m → IsBlocked m'
IsBlocked-main e h = rw e at h

cons-ne-nil : (fd : ℕ) (l : List ℕ) → fd ∷ l ≢ []
cons-ne-nil fd l = λ e. cc

module _ {s : System} (l : IsLive s) where
  takes-IsLive :
      (i fd : ℕ) (pool : ThreadPool)
      → get_elem? s.workers i ≡ some ready
      → worker_turn s.pool ≡ WorkerTurn.take fd pool
      → (t : System)
      → t ≡ record s {
        pool = pool;
        workers = set s.workers i (serving fd);
        main = wake_main s.main;
        taken = s.taken ++ fd ∷ [];
      }
      → IsFifo t
      → IsLive t
  takes-IsLive i fd pool a e t q f =
      let (full_queue, v, same, cap) = worker_lem s.pool (WorkerTurn.take fd pool) e l.fifo.valid in
      let exits = no_exited-set s.workers i ready (serving fd) a (cc) (cc) in
      rw q (record {
        fifo = rw q at f;
        some_worker = set-ne-nil s.workers i (serving fd) l.some_worker;
        stops = same ∙ l.stops ∙ sym (past_stop-wake_main s.main);
        served = λ g h. some_active-set s.workers i ready (serving fd) a refl;
        stay = λ g. exits ∙ l.stay (sym same ∙ g);
        awake = λ g. no_sleeper-set s.workers i (serving fd) (l.awake (sym same ∙ g)) (cc);
        full = λ h. absurd (not-IsBlocked s.main h);
        joined =
            λ m. absurd (not_finished l i ready (serving fd) a (cc) (finished-wake_main s.main m));
        drained =
            λ x. absurd (cons-ne-nil fd (queue pool) (sym full_queue ∙ l.drained (sym exits ∙ x)));
      })

  -- the main thread moves between two states in which it is not asleep, before it stops the pool
  main-IsLive :
      (m : Main)
      → past_stop s.main ≡ false
      → past_stop m ≡ false
      → (IsBlocked m → length (queue s.pool) ≡ s.pool.capacity)
      → IsFifo (record s { main = m })
      → IsLive (record s { main = m })
  main-IsLive m p q b f = record {
    fifo = f;
    some_worker = l.some_worker;
    stops = l.stops ∙ p ∙ sym q;
    served = l.served;
    stay = l.stay;
    awake = l.awake;
    full = b;
    joined = λ e. cc (ap past_stop e, q);
    drained = l.drained;
  }

  stores-IsLive :
      (fd : ℕ) (pool : ThreadPool) (ws : List Worker)
      → s.main ≡ submitting fd
      → submit_turn s.pool fd ≡ SubmitTurn.store pool
      → Signalled s.workers ws
      → (t : System)
      → t ≡ record s { pool = pool; workers = ws; main = running; accepted = s.accepted ++ fd ∷ [] }
      → IsFifo t
      → IsLive t
  stores-IsLive fd pool ws m e w t q f =
      let (grown, v, going, going', cap) =
        submit_lem s.pool fd (SubmitTurn.store pool) e l.fifo.valid in
      let stayed = l.stay going in
      let exits = Signalled-exited s.workers ws w in
      rw q (record {
        fifo = rw q at f;
        some_worker = Signalled-ne-nil s.workers ws w l.some_worker;
        stops = going';
        served = λ g h. Signalled-active s.workers ws w l.some_worker stayed;
        stay = λ g. exits ∙ stayed;
        awake = λ g. cc (g, going');
        full = λ h. absurd h;
        joined = λ x. cc x;
        drained = λ x. cc (x, exits, stayed);
      })

  stops-IsLive :
      (t : System)
      → t ≡ record s { pool = stop s.pool; workers = wake_all s.workers; main = joining }
      → IsFifo t
      → IsLive t
  unfolding stop
  stops-IsLive t q f = rw q (record {
    fifo = rw q at f;
    some_worker = wake_all-ne-nil s.workers l.some_worker;
    stops = refl;
    served = λ g h. cc g;
    stay = λ g. cc g;
    awake = λ g. no_sleeper-wake_all s.workers;
    full = λ h. absurd h;
    joined = λ x. cc x;
    drained = λ x. l.drained (sym (no_exited-wake_all s.workers) ∙ x);
  })

  joined-IsLive :
      s.main ≡ joining
      → all_exited s.workers ≡ true
      → IsFifo (record s { main = finished })
      → IsLive (record s { main = finished })
  joined-IsLive m x f = record {
    fifo = f;
    some_worker = l.some_worker;
    stops = l.stops ∙ ap past_stop m;
    served = l.served;
    stay = l.stay;
    awake = l.awake;
    full = λ h. absurd h;
    joined = λ e. x;
    drained = l.drained;
  }

not_past : {m m' : Main} → m ≡ m' → past_stop m' ≡ false → past_stop m ≡ false
not_past e h = ap past_stop e ∙ h

Step-IsLive : {s t : System} → Step s t → IsLive s → IsLive t
Step-IsLive (worker_waits i a e) l = waits-IsLive l i a e (Step-IsFifo (worker_waits i a e) l.fifo)
Step-IsLive (worker_leaves i a e) l =
    leaves-IsLive l i a e (Step-IsFifo (worker_leaves i a e) l.fifo)
Step-IsLive (worker_takes i fd pool a e) l =
    takes-IsLive l i fd pool a e _ refl (Step-IsFifo (worker_takes i fd pool a e) l.fifo)
Step-IsLive (handler_returns i fd a) l =
    active-IsLive l i (serving fd) a (cc) (Step-IsFifo (handler_returns i fd a) l.fifo)
Step-IsLive (worker_wakes i a) l =
    active-IsLive l i asleep a (cc) (Step-IsFifo (worker_wakes i a) l.fifo)
Step-IsLive (main_submits fd m) l =
    main-IsLive l (submitting fd) (not_past m refl) refl (λ h. absurd h)
      (Step-IsFifo (main_submits fd m) l.fifo)
Step-IsLive {s} (main_waits fd m e) l =
    let (full_queue, going) = submit_lem s.pool fd SubmitTurn.wait e l.fifo.valid in
    main-IsLive l (blocked fd) (not_past m refl) refl (λ h. full_queue)
      (Step-IsFifo (main_waits fd m e) l.fifo)
Step-IsLive (main_refused fd m e) l =
    main-IsLive l running (not_past m refl) refl (λ h. absurd h)
      (Step-IsFifo (main_refused fd m e) l.fifo)
Step-IsLive (main_stores fd pool ws m e w) l =
    stores-IsLive l fd pool ws m e w _ refl (Step-IsFifo (main_stores fd pool ws m e w) l.fifo)
Step-IsLive (main_wakes fd m) l =
    main-IsLive l (submitting fd) (not_past m refl) refl (λ h. absurd h)
      (Step-IsFifo (main_wakes fd m) l.fifo)
Step-IsLive (main_stops m) l = stops-IsLive l _ refl (Step-IsFifo (main_stops m) l.fifo)
Step-IsLive (main_joined m x) l = joined-IsLive l m x (Step-IsFifo (main_joined m x) l.fifo)

pub Reach-IsLive : {s t : System} → Reach s t → IsLive s → IsLive t
Reach-IsLive here l = l
Reach-IsLive (next r st) l = Step-IsLive st (Reach-IsLive r l)
