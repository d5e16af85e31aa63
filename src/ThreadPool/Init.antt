-- ===== src/ThreadPool/Init.antt =====
-- `thread_pool_init`: the checks, the allocations in their order, and the clean-up of each failure;
-- and `thread_pool_shutdown`, with the waiting for the workers. What the waking of the threads
-- comes to is in ThreadPool/System.antt.
use native.Mathlib.Nat.{mod-eq_of_lt}
use tryo.Prelude.{
  Bool-cases, inl, inr, ◌⊎◌, ◌∙◌, ap, ◌-◌, ◌&&◌, ℕ, zero, suc, ◌+◌, ◌<◌, ◌≡◌, refl, Bool, true,
  false, not, ◌||◌, Option, none, some, List, [], length, arith, ◌==◌, if◌then◌else◌,
}
use tryo.ThreadPool.{ThreadPool}
use tryo.ThreadPool.Ring.{IsValid, queue}

-- Whether each call succeeds: `malloc` of `fds` and of `threads`, the three `pthread_…_init`, and
-- the i-th `pthread_create`. `ends` tells whether the i-th worker ends once the pool stops, so that
-- `pthread_join` returns. `slots` is what the fresh memory of `fds` holds.
pub record Calls : Type 0 where
  pub fds_ok : Bool
  pub threads_ok : Bool
  pub mutex_ok : Bool
  pub not_empty_ok : Bool
  pub not_full_ok : Bool
  pub create_ok : ℕ → Bool
  pub ends : ℕ → Bool
  pub slots : List ℕ

-- what is allocated, initialised or running when the function returns
pub record Live : Type 0 where
  pub fds : Bool
  pub threads : Bool
  pub mutex : Bool
  pub not_empty : Bool
  pub not_full : Bool
  pub workers : ℕ

abbrev pub nothing : Live
nothing = record {
  fds = false;
  threads = false;
  mutex = false;
  not_empty = false;
  not_full = false;
  workers = 0;
}

abbrev pub fresh : List ℕ → ℕ → ThreadPool
fresh slots capacity = record {
  fds = slots;
  capacity = capacity;
  head = 0;
  tail = 0;
  count = 0;
  stopping = false;
}

-- the loop over `pthread_join`; `none` waits forever
unfoldable pub join_workers : (ℕ → Bool) → ℕ → ℕ → Live → Option Live
join_workers ends i zero live = some live
join_workers ends i (suc left) live =
    let rest = join_workers ends (suc i) left (record live { workers = live.workers - 1 }) in
    if ends i then rest else none

-- what `thread_pool_shutdown` does behind the joins
abbrev pub released : Option Live → Option Live
released none = none
released (some live) = some (record live {
  not_empty = false;
  not_full = false;
  mutex = false;
  fds = false;
  threads = false;
})

unfoldable pub thread_pool_shutdown : (ℕ → Bool) → Live → Option Live
unfolding join_workers
thread_pool_shutdown ends live =
    if not live.fds && not live.threads
    then some live
    else released (join_workers ends 0 live.workers live)

abbrev pub gave_up : Option Live → Option (Live × Option ThreadPool)
gave_up none = none
gave_up (some live) = some (live, none)

-- the loop over `pthread_create`
unfoldable pub create_workers :
    Calls → ℕ → ℕ → ThreadPool → Live → Option (Live × Option ThreadPool)
unfolding thread_pool_shutdown
create_workers c i zero pool live = some (live, some pool)
create_workers c i (suc left) pool live =
    let rest = create_workers c (suc i) left pool (record live { workers = suc live.workers }) in
    if c.create_ok i then rest else gave_up (thread_pool_shutdown c.ends live)

-- `if (ready) pthread_…_destroy(…);`
abbrev destroy_if : Bool → Bool
destroy_if ready = if ready then false else ready

-- the label `fail`: what is ready is destroyed, and the memory is freed
unfoldable pub fail : Live → Option (Live × Option ThreadPool)
fail live = some (
  record live {
    not_full = destroy_if live.not_full;
    not_empty = destroy_if live.not_empty;
    mutex = destroy_if live.mutex;
    fds = false;
    threads = false;
  },
  none,
)

unfoldable pub init_locks : Calls → ℕ → ℕ → Live → Option (Live × Option ThreadPool)
unfolding fail create_workers
init_locks c thread_count queue_capacity live =
    if not c.mutex_ok
    then fail live
    else if not c.not_empty_ok
    then fail (record live { mutex = true })
    else if not c.not_full_ok
    then fail (record live { mutex = true; not_empty = true })
    else create_workers c 0 thread_count (fresh c.slots queue_capacity)
        (record live { mutex = true; not_empty = true; not_full = true })

-- `handler_null` is the test `handler == NULL`. The result is `none` if it waits forever.
unfoldable pub thread_pool_init : Calls → ℕ → ℕ → Bool → Option (Live × Option ThreadPool)
unfolding init_locks
thread_pool_init c thread_count queue_capacity handler_null =
    if thread_count == 0 || queue_capacity == 0 || handler_null
    then some (nothing, none)
    else if not c.fds_ok || not c.threads_ok
    then some (record nothing { fds = false; threads = false }, none)
    else init_locks c thread_count queue_capacity (record nothing { fds = true; threads = true })

-- everything is there, with that many workers
abbrev pub running_with : ℕ → Live
running_with n = record {
  fds = true;
  threads = true;
  mutex = true;
  not_empty = true;
  not_full = true;
  workers = n;
}

-- the arguments are good and every call succeeds
pub record AllSucceed (c : Calls) (thread_count capacity : ℕ) (handler_null : Bool) : Type 0 where
  pub some_worker : 0 < thread_count
  pub some_slot : 0 < capacity
  pub some_handler : handler_null ≡ false
  pub allocated : (c.fds_ok ≡ true) × (c.threads_ok ≡ true)
  pub locks : (c.mutex_ok ≡ true) × (c.not_empty_ok ≡ true) × (c.not_full_ok ≡ true)
  pub created : (i : ℕ) → i < thread_count → c.create_ok i ≡ true

-- A success leaves all that the pool needs, and an empty queue. A failure leaves nothing behind, and
-- something has failed. To wait forever takes a worker that does not end.
abbrev pub InitSpec :
    Calls → (thread_count capacity : ℕ) → Bool → Option (Live × Option ThreadPool) → Type 0
InitSpec c thread_count capacity handler_null none = (i : ℕ) × (c.ends i ≡ false)
InitSpec c thread_count capacity handler_null (some (live, none)) =
    (live ≡ nothing) × ¬ (AllSucceed c thread_count capacity handler_null)
InitSpec c thread_count capacity handler_null (some (live, some pool)) =
    AllSucceed c thread_count capacity handler_null
    × (live ≡ running_with thread_count)
    × IsValid pool
    × (pool.capacity ≡ capacity)
    × (queue pool ≡ [])
    × (pool.stopping ≡ false)

join_workers_lem :
    (ends : ℕ → Bool) (i left : ℕ) (live : Live)
    → ((j : ℕ) × (ends j ≡ false) × (join_workers ends i left live ≡ none))
      ⊎ (join_workers ends i left live ≡ some (record live { workers = live.workers - left }))
unfolding join_workers
join_workers_lem ends i zero live = inr (ap (λ n. some (record live { workers = n })) (omega arith))
join_workers_lem ends i (suc left) live = elim (Bool-cases (ends i)) [
  | inr stays ↦ inl (i, stays, rw stays refl)
  | inl leaves ↦
      (elim (join_workers_lem ends (suc i) left (record live { workers = live.workers - 1 })) [
        | inl (j, stays, e) ↦ inl (j, stays, rw leaves e)
        | inr e ↦ inr (rw leaves (e ∙ ap (λ n. some (record live { workers = n })) (omega arith)))
      ])
]

-- `thread_pool_shutdown` on a pool with n workers
pub thread_pool_shutdown_lem :
    (ends : ℕ → Bool) (n : ℕ) (live : Live)
    → live ≡ running_with n
    → ((j : ℕ) × (ends j ≡ false) × (thread_pool_shutdown ends live ≡ none))
      ⊎ (thread_pool_shutdown ends live ≡ some nothing)
unfolding thread_pool_shutdown
thread_pool_shutdown_lem ends n live e = rw e (elim (join_workers_lem ends 0 n (running_with n)) [
  | inl (j, stays, h) ↦ inl (j, stays, ap released h)
  | inr h ↦ inr (ap released h ∙ ap (λ k. some (record nothing { workers = k })) (omega arith))
])

gave_up_lem :
    (c : Calls) (n m capacity : ℕ) (live : Live)
    → live ≡ running_with m
    → ¬ (AllSucceed c n capacity false)
    → InitSpec c n capacity false (gave_up (thread_pool_shutdown c.ends live))
gave_up_lem c n m capacity live e h = elim (thread_pool_shutdown_lem c.ends m live e) [
  | inl (j, stays, k) ↦ rw k (j, stays)
  | inr k ↦ rw k (refl, h)
]

-- what the loop over `pthread_create` has when it comes to the i-th thread
record Made (c : Calls) (i n capacity : ℕ) (pool : ThreadPool) (live : Live) : Type 0 where
  some_worker : 0 < n
  some_slot : 0 < capacity
  allocated : (c.fds_ok ≡ true) × (c.threads_ok ≡ true)
  locks : (c.mutex_ok ≡ true) × (c.not_empty_ok ≡ true) × (c.not_full_ok ≡ true)
  live_so_far : live ≡ running_with i
  created : (j : ℕ) → j < i → c.create_ok j ≡ true
  valid : IsValid pool
  same_capacity : pool.capacity ≡ capacity
  empty : queue pool ≡ []
  going : pool.stopping ≡ false

next_created :
    (c : Calls) (i : ℕ)
    → ((j : ℕ) → j < i → c.create_ok j ≡ true)
    → c.create_ok i ≡ true
    → (j : ℕ) → j < suc i
    → c.create_ok j ≡ true
next_created c i h ok j less = elim (Bool-cases (j == i)) [
  | inl same ↦ (let e : j ≡ i = ground arith in rw e ok)
  | inr other ↦ h j (ground arith)
]

create_workers_lem :
    (c : Calls) (i left : ℕ) (pool : ThreadPool) (live : Live) (n capacity : ℕ)
    → Made c i n capacity pool live
    → i + left ≡ n
    → InitSpec c n capacity false (create_workers c i left pool live)
unfolding create_workers
create_workers_lem c i zero pool live n capacity m e = (
  record {
    some_worker = m.some_worker;
    some_slot = m.some_slot;
    some_handler = refl;
    allocated = m.allocated;
    locks = m.locks;
    created = λ j less. m.created j (omega (arith, less, e));
  },
  m.live_so_far ∙ ap running_with (omega (arith, e)),
  m.valid,
  m.same_capacity,
  m.empty,
  m.going,
)
create_workers_lem c i (suc left) pool live n capacity m e = elim (Bool-cases (c.create_ok i)) [
  | inl ok ↦ rw ok (
      create_workers_lem c (suc i) left pool (record live { workers = suc live.workers }) n capacity
        (record {
          some_worker = m.some_worker;
          some_slot = m.some_slot;
          allocated = m.allocated;
          locks = m.locks;
          live_so_far = ap (λ (l : Live). record l { workers = suc l.workers }) m.live_so_far;
          created = next_created c i m.created ok;
          valid = m.valid;
          same_capacity = m.same_capacity;
          empty = m.empty;
          going = m.going;
        })
        (omega (arith, e)))
  | inr refused ↦ rw refused (
      gave_up_lem c n i capacity live m.live_so_far
        (λ a. cc (a.created i (omega (arith, e)), refused)))
]

init_locks_cases :
    (c : Calls) (n capacity : ℕ)
    → ((c.mutex_ok ≡ true) × (c.not_empty_ok ≡ true) × (c.not_full_ok ≡ true)
        → InitSpec c n capacity false
            (create_workers c 0 n (fresh c.slots capacity) (running_with 0)))
    → InitSpec c n capacity false
        (init_locks c n capacity (record nothing { fds = true; threads = true }))
unfolding init_locks fail
init_locks_cases c n capacity made = elim (Bool-cases c.mutex_ok) [
  | inr m ↦ rw m (refl, λ a. cc (a.locks.0, m))
  | inl m ↦ (elim (Bool-cases c.not_empty_ok) [
    | inr e ↦ rw (m, e) (refl, λ a. cc (a.locks.1, e))
    | inl e ↦ (elim (Bool-cases c.not_full_ok) [
      | inr f ↦ rw (m, e, f) (refl, λ a. cc (a.locks.2, f))
      | inl f ↦ simp (m, e, f) (made (m, e, f))
    ])
  ])
]

fresh-IsValid :
    (slots : List ℕ) (capacity : ℕ)
    → length slots ≡ capacity
    → 0 < capacity
    → IsValid (fresh slots capacity)
fresh-IsValid slots capacity e h = record {
  slots = e;
  head_in = h;
  tail_at = omega (arith, mod-eq_of_lt h);
  bounded = omega arith;
}

pub thread_pool_init_lem :
    (c : Calls) (thread_count queue_capacity : ℕ) (handler_null : Bool)
    → length c.slots ≡ queue_capacity
    → InitSpec c thread_count queue_capacity handler_null
        (thread_pool_init c thread_count queue_capacity handler_null)
unfolding thread_pool_init
thread_pool_init_lem c n capacity true e = rw true_last (refl, λ a. cc a.some_handler)
  where
    true_last : (n == 0 || capacity == 0 || true) ≡ true
    true_last = ground arith
thread_pool_init_lem c n capacity false e = elim (Bool-cases (n == 0 || capacity == 0 || false)) [
  | inl bad ↦ rw bad (refl, λ a. ground (arith, a.some_worker, a.some_slot))
  | inr good ↦ rw good (opened (ground arith) (ground arith))
]
  where
    opened :
        0 < n
        → 0 < capacity
        → InitSpec c n capacity false (
            if not c.fds_ok || not c.threads_ok
            then some (record nothing { fds = false; threads = false }, none)
            else init_locks c n capacity (record nothing { fds = true; threads = true }))
    opened w s = elim (Bool-cases c.fds_ok) [
      | inr f ↦ rw f (refl, λ a. cc (a.allocated.0, f))
      | inl f ↦ (elim (Bool-cases c.threads_ok) [
        | inr t ↦ rw (f, t) (refl, λ a. cc (a.allocated.1, t))
        | inl t ↦
            simp (f, t)
              (init_locks_cases c n capacity λ locks.
                create_workers_lem c 0 n (fresh c.slots capacity) (running_with 0) n capacity
                  (record {
                    some_worker = w;
                    some_slot = s;
                    allocated = (f, t);
                    locks = locks;
                    live_so_far = refl;
                    created = λ j less. absurd (omega arith);
                    valid = fresh-IsValid c.slots capacity e s;
                    same_capacity = refl;
                    empty = refl;
                    going = refl;
                  })
                  (omega arith))
      ])
    ]
