-- ===== src/ThreadPool/Ring.antt =====
-- The circular array of descriptors holds a queue of at most `capacity` of them.
use native.Mathlib.Nat.{mod-eq_of_lt, mod-eq-sub-mod, mod-add-mod, add-zero}
use native.Mathlib.Decide.{dec_lt}
use tryo.Prelude.{
  ℕ, zero, suc, ◌+◌, ◌-◌, ◌%◌, ◌≤◌, ◌<◌, ◌≡◌, ◌≢◌, refl, ap, ap₂, ◌∙◌, true, false, List, [], ◌∷◌,
  ◌++◌, length, length-set, get_or, set, arith, ◌==◌, if◌then◌else◌,
}
use tryo.ThreadPool.{ThreadPool, WorkerTurn, SubmitTurn, dequeue, worker_turn, enqueue, submit_turn}

pub record IsValid (pool : ThreadPool) : Type 0 where
  pub slots : length pool.fds ≡ pool.capacity
  pub head_in : pool.head < pool.capacity
  pub tail_at : pool.tail ≡ (pool.head + pool.count) % pool.capacity
  pub bounded : pool.count ≤ pool.capacity

-- `n` descriptors, from slot `i` on and round the end of the array
abbrev pub queue_from : List ℕ → ℕ → ℕ → ℕ → List ℕ
queue_from fds capacity i zero = []
queue_from fds capacity i (suc n) = get_or fds i 0 ∷ queue_from fds capacity ((i + 1) % capacity) n

abbrev pub queue : ThreadPool → List ℕ
queue pool = queue_from pool.fds pool.capacity pool.head pool.count

pub length-queue_from : (fds : List ℕ) (capacity i n : ℕ) → length (queue_from fds capacity i n) ≡ n
length-queue_from fds capacity i zero = refl
length-queue_from fds capacity i (suc n) =
    ap suc (length-queue_from fds capacity ((i + 1) % capacity) n)

-- a write to a slot is read back there, and nowhere else
get_or-set :
    (xs : List ℕ) (i j v : ℕ)
    → i < length xs
    → get_or (set xs i v) j 0 ≡ (if i == j then v else get_or xs j 0)
get_or-set [] i j v h = absurd (omega arith)
get_or-set (x ∷ xs) zero zero v h = refl
get_or-set (x ∷ xs) zero (suc j) v h = ground arith
get_or-set (x ∷ xs) (suc i) zero v h = ground arith
get_or-set (x ∷ xs) (suc i) (suc j) v h = get_or-set xs i j v (omega arith) ∙ ground arith

-- fewer steps round the array than it has slots do not come back
no_return : (capacity i k : ℕ) → i < capacity → suc k < capacity → (i + suc k) % capacity ≢ i
no_return capacity i k hi hk = elim (dec_lt (i + suc k) capacity) [
  | yes inside ↦ omega (arith, mod-eq_of_lt inside)
  | no round ↦
      (let once = mod-eq-sub-mod {n = i + suc k} {m = capacity} (omega arith) in
        omega (arith, once, mod-eq_of_lt {n = i + suc k - capacity} {m = capacity} (omega arith)))
]

next_slot : (capacity i n : ℕ) → (i + suc n) % capacity ≡ ((i + 1) % capacity + n) % capacity
next_slot capacity i n = rw mod-add-mod (ap (λ k. k % capacity) (omega arith))

-- a write behind the last descriptor puts it at the queue's end
queue_from-set :
    (fds : List ℕ) (capacity v n i slot : ℕ)
    → length fds ≡ capacity
    → i < capacity
    → n < capacity
    → slot ≡ (i + n) % capacity
    → queue_from (set fds slot v) capacity i (suc n) ≡ queue_from fds capacity i n ++ v ∷ []
queue_from-set fds capacity v zero i slot e hi hn s =
    let here : slot ≡ i = s ∙ rw add-zero (mod-eq_of_lt hi) in
    ap (λ x. x ∷ []) (get_or-set fds slot i v (omega arith) ∙ ground arith)
queue_from-set fds capacity v (suc n) i slot e hi hn s =
    ap₂ ◌∷◌ (get_or-set fds slot i v (omega arith) ∙ ground (arith, no_return capacity i n hi hn)) (
      queue_from-set fds capacity v n ((i + 1) % capacity) slot e (omega arith) (omega arith)
        (s ∙ next_slot capacity i n))

-- what a worker's turn means for the queue
abbrev pub WorkerSpec : ThreadPool → WorkerTurn → Type 0
WorkerSpec pool WorkerTurn.wait = (queue pool ≡ []) × (pool.stopping ≡ false)
WorkerSpec pool WorkerTurn.leave = (queue pool ≡ []) × (pool.stopping ≡ true)
WorkerSpec pool (WorkerTurn.take fd pool') =
    (queue pool ≡ fd ∷ queue pool')
    × IsValid pool'
    × (pool'.stopping ≡ pool.stopping)
    × (pool'.capacity ≡ pool.capacity)

-- what a turn of `thread_pool_submit` means for the queue
abbrev pub SubmitSpec : ThreadPool → ℕ → SubmitTurn → Type 0
SubmitSpec pool fd SubmitTurn.wait = (length (queue pool) ≡ pool.capacity) × (pool.stopping ≡ false)
SubmitSpec pool fd SubmitTurn.refuse = pool.stopping ≡ true
SubmitSpec pool fd (SubmitTurn.store pool') =
    (queue pool' ≡ queue pool ++ fd ∷ [])
    × IsValid pool'
    × (pool.stopping ≡ false)
    × (pool'.stopping ≡ false)
    × (pool'.capacity ≡ pool.capacity)

queue_from_pos :
    (fds : List ℕ) (capacity i n : ℕ)
    → n ≢ 0
    → queue_from fds capacity i n
      ≡ get_or fds i 0 ∷ queue_from fds capacity ((i + 1) % capacity) (n - 1)
queue_from_pos fds capacity i zero h = absurd (h refl)
queue_from_pos fds capacity i (suc n) h = ap (λ k. queue_from fds capacity i (suc k)) (omega arith)

dequeue-IsValid : (pool : ThreadPool) → IsValid pool → pool.count ≢ 0 → IsValid (dequeue pool)
unfolding dequeue
dequeue-IsValid pool v h = record {
  slots = v.slots;
  head_in = omega (arith, v.head_in);
  tail_at = v.tail_at ∙ rw mod-add-mod (ap (λ k. k % pool.capacity) (omega arith));
  bounded = omega (arith, v.bounded);
}

enqueue-IsValid :
    (pool : ThreadPool) (fd : ℕ)
    → IsValid pool
    → pool.count ≢ pool.capacity
    → IsValid (enqueue pool fd)
unfolding enqueue
enqueue-IsValid pool fd v h = record {
  slots = length-set pool.fds pool.tail fd ∙ v.slots;
  head_in = v.head_in;
  tail_at = rw (v.tail_at, mod-add-mod) (ap (λ k. k % pool.capacity) (omega arith));
  bounded = omega (arith, v.bounded);
}

-- A worker's turn on a valid pool takes the first descriptor of the queue and leaves the rest, and
-- finds nothing to take exactly when the queue is empty: then it waits, or leaves if the pool stops.
pub worker_turn_refines : (pool : ThreadPool) → IsValid pool → WorkerSpec pool (worker_turn pool)
unfolding worker_turn
worker_turn_refines pool v =
    ground
      (arith, queue_from_pos pool.fds pool.capacity pool.head pool.count, dequeue-IsValid pool v)

-- A submission to a valid pool is refused if the pool stops, waits if the queue is full, and
-- otherwise puts the descriptor at the queue's end.
pub submit_turn_refines :
    (pool : ThreadPool) (fd : ℕ) → IsValid pool → SubmitSpec pool fd (submit_turn pool fd)
unfolding submit_turn
submit_turn_refines pool fd v = ground (
  arith,
  length-queue_from pool.fds pool.capacity pool.head pool.count,
  enqueue-IsValid pool fd v,
  queue_from-set pool.fds pool.capacity fd pool.count pool.head pool.tail,
)
