-- ===== src/Timers/Order.antt =====
-- The heap order of c-original/net/net-timers.c, while the timer `et` has no place yet.
use mtproxy.Prelude.{ℕ, ◌+◌, ◌*◌, ◌/◌, ◌<◌, ◌≤◌, ◌≡◌, ◌≢◌, ◌⊎◌, ltb, ◌&&◌, if◌then◌else◌, arith}
use mtproxy.Timers.{Timers, key, place, smaller_child}

-- No timer wakes up before its parent, but for those around the free place i; and what stands below
-- i does not wake up before what stands above it.
pub record IsOrderedBut (s : Timers) (i : ℕ) : Type 0 where
  pub edges : (k : ℕ) → 1 < k → k ≤ s.et_heap_size → k ≢ i → k / 2 ≢ i → key s (k / 2) ≤ key s k
  pub bridge : (k : ℕ) → 1 < i → k ≤ s.et_heap_size → k / 2 ≡ i → key s (i / 2) ≤ key s k

-- `et` may stand at i as far as its parent goes.
abbrev pub FitsBelow : Timers → ℕ → ℕ → Type 0
FitsBelow s et i = 1 < i → key s (i / 2) ≤ s.wakeup_time et

-- `et` may stand at i as far as its children go.
abbrev pub FitsAbove : Timers → ℕ → ℕ → Type 0
FitsAbove s et i = (k : ℕ) → 1 < k → k ≤ s.et_heap_size → k / 2 ≡ i → s.wakeup_time et ≤ key s k

-- The parent moves down into the free place.
pub IsOrderedBut-up :
    (s : Timers) (i : ℕ)
    → 1 < i
    → i ≤ s.et_heap_size
    → IsOrderedBut s i
    → IsOrderedBut (place s (s.et_heap (i / 2)) i) (i / 2)
IsOrderedBut-up s i p q h = record {
  edges = λ k kp kq kn km. ground (arith, h.edges k, h.bridge k);
  bridge = λ k ip kq e. ground (arith, h.edges k, h.edges (i / 2));
}

-- A child that wakes up no later than the other one moves up into the free place.
pub IsOrderedBut-down :
    (s : Timers) (i j : ℕ)
    → 0 < i
    → j / 2 ≡ i
    → j ≤ s.et_heap_size
    → ((k : ℕ) → 1 < k → k ≤ s.et_heap_size → k / 2 ≡ i → key s j ≤ key s k)
    → IsOrderedBut s i
    → IsOrderedBut (place s (s.et_heap j) i) j
IsOrderedBut-down s i j p e q least h = record {
  edges = λ k kp kq kn km. ground (arith, h.edges k, h.bridge j, least k);
  bridge = λ k ip kq d. ground (arith, h.edges k);
}

-- The loop's choice between the two children.
pub smaller_child_least :
    (s : Timers) (i : ℕ)
    → 0 < i
    → 2 * i ≤ s.et_heap_size
    → (smaller_child s i / 2 ≡ i)
      × (smaller_child s i ≤ s.et_heap_size)
      × ((k : ℕ) → 1 < k → k ≤ s.et_heap_size → k / 2 ≡ i → key s (smaller_child s i) ≤ key s k)
unfolding smaller_child
smaller_child_least s i p q =
    (ground arith, ground arith, λ k kp kq e. least k kp kq e (omega arith))
  where
    least :
        (k : ℕ)
        → 1 < k
        → k ≤ s.et_heap_size
        → k / 2 ≡ i
        → (k ≡ 2 * i) ⊎ (k ≡ 2 * i + 1)
        → key s (
            if ltb (2 * i) s.et_heap_size && ltb (key s (2 * i + 1)) (key s (2 * i))
            then 2 * i + 1
            else 2 * i)
          ≤ key s k
    least k kp kq e c = ground arith
