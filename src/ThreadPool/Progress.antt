-- ===== src/ThreadPool/Progress.antt =====
-- What holds on every run of the pool of src/thread_pool.c: a descriptor in the queue or a stopping
-- pool never finds all workers asleep.
use tryo.ThreadPool.Live.Workers.{some_active, no_exited}
use tryo.ThreadPool.Live.{IsBlocked, past_stop, IsLive, Reach-IsLive, IsBlocked-main}
use tryo.Prelude.{
  if◌then◌else◌, ◌==◌, ℕ, ◌≡◌, ◌≢◌, refl, sym, ap, ◌∙◌, Bool, true, false, List, [], ◌∷◌,
  append-nil, arith, length,
}
use tryo.ThreadPool.{ThreadPool, SubmitTurn, submit_turn}
use tryo.ThreadPool.Ring.{queue}
use tryo.ThreadPool.System.{
  Worker, running, finished, submitting, System, no_sleeper, all_exited, all_ready, Reach,
}
use tryo.ThreadPool.Fifo.{IsFresh, IsFresh-IsFifo}

-- the threads right after `thread_pool_init`
pub record IsStart (s : System) : Type 0 where
  pub fresh : IsFresh s
  pub some_worker : s.workers ≢ []
  pub ready_workers : all_ready s.workers ≡ true
  pub main_runs : s.main ≡ running
  pub going : s.pool.stopping ≡ false

all_ready-no_exited : (ws : List Worker) → all_ready ws ≡ true → no_exited ws ≡ true
all_ready-no_exited [] h = refl
all_ready-no_exited (w ∷ ws) h = ground (arith, all_ready-no_exited ws)

IsStart-IsLive : {s : System} → IsStart s → IsLive s
IsStart-IsLive {s} b =
    let stayed = all_ready-no_exited s.workers b.ready_workers in
    record {
      fifo = IsFresh-IsFifo b.fresh;
      some_worker = b.some_worker;
      stops = b.going ∙ sym (ap past_stop b.main_runs);
      served = λ g h. absurd (h b.fresh.empty);
      stay = λ g. stayed;
      awake = λ g. cc (g, b.going);
      full = λ h. absurd (IsBlocked-main b.main_runs h);
      joined = λ e. cc (e, b.main_runs);
      drained = λ x. b.fresh.empty;
    }

-- However the threads of a started pool interleave: while the pool does not stop and the queue holds
-- a descriptor, some worker is about to take the mutex or runs the handler; the main thread sleeps
-- only on a full queue; and once the pool stops, no worker is asleep.
pub no_stall :
    {s t : System}
    → Reach s t
    → IsStart s
    → (t.pool.stopping ≡ false → queue t.pool ≢ [] → some_active t.workers ≡ true)
      × (IsBlocked t.main → length (queue t.pool) ≡ t.pool.capacity)
      × (t.pool.stopping ≡ true → no_sleeper t.workers ≡ true)
no_stall r b = let l = Reach-IsLive r (IsStart-IsLive b) in (l.served, l.full, l.awake)

exited-not_none : (ws : List Worker) → ws ≢ [] → all_exited ws ≡ true → no_exited ws ≡ false
exited-not_none [] h e = absurd (h refl)
exited-not_none (w ∷ ws) h e = ground arith

-- Once `thread_pool_shutdown` of a started pool has joined the workers, the queue is empty, and the
-- workers have taken every accepted descriptor, in order.
pub drained_at_shutdown :
    {s t : System}
    → Reach s t
    → IsStart s
    → t.main ≡ finished
    → (queue t.pool ≡ []) × (t.taken ≡ t.accepted)
drained_at_shutdown {t = t} r b m =
    let l = Reach-IsLive r (IsStart-IsLive b) in
    let empty = l.drained (exited-not_none t.workers l.some_worker (l.joined m)) in
    (empty, sym (l.fifo.order ∙ rw (empty, append-nil) refl))

-- However the threads of a started pool interleave, `thread_pool_submit` never refuses a descriptor:
-- it stores it, or waits for room.
pub never_refused :
    {s t : System}
    → Reach s t
    → IsStart s
    → (fd : ℕ) → t.main ≡ submitting fd
    → submit_turn t.pool fd ≢ SubmitTurn.refuse
unfolding submit_turn
never_refused {t = t} r b fd m =
    let l = Reach-IsLive r (IsStart-IsLive b) in
    let going : t.pool.stopping ≡ false = l.stops ∙ ap past_stop m in
    rw going (stored_or_waits (t.pool.count == t.pool.capacity) _)
  where
    stored_or_waits :
        (full : Bool) (pool : ThreadPool)
        → (if full then SubmitTurn.wait else SubmitTurn.store pool) ≢ SubmitTurn.refuse
    stored_or_waits true pool = λ e. cc e
    stored_or_waits false pool = λ e. cc e
