-- ===== src/Timers/Places.antt =====
-- Which timer stands where in the heap of c-original/net/net-timers.c, while one place is free.
use mtproxy.Prelude.{ℕ, ◌<◌, ◌≤◌, ◌≡◌, ◌≢◌, refl, ◌∙◌, ◌==◌, arith}
use mtproxy.Timers.{Timers, place}

-- Timer `et` is to be put at place `i`; every other place holds another timer that knows its place.
pub record Places (s : Timers) (et i : ℕ) : Type 0 where
  pub positive : 0 < i
  pub inside : i ≤ s.et_heap_size
  pub index :
      (k : ℕ)
      → 0 < k
      → k ≤ s.et_heap_size
      → k ≢ i
      → (s.h_idx (s.et_heap k) ≡ k) × (s.et_heap k ≢ et)
  pub member :
      (t : ℕ)
      → t ≢ et
      → s.h_idx t ≢ 0
      → (s.h_idx t ≤ s.et_heap_size) × (s.et_heap (s.h_idx t) ≡ t) × (s.h_idx t ≢ i)

-- The same timers are in the heap, but for `et`; nothing else has changed.
pub record SameTimers (et : ℕ) (s t : Timers) : Type 0 where
  pub size : t.et_heap_size ≡ s.et_heap_size
  pub times : t.wakeup_time ≡ s.wakeup_time
  pub inserted : t.event_timer_insert_ops ≡ s.event_timer_insert_ops
  pub removed : t.event_timer_remove_ops ≡ s.event_timer_remove_ops
  pub alarmed : t.event_timer_alarms ≡ s.event_timer_alarms
  pub total : t.total_timers ≡ s.total_timers
  pub members : (x : ℕ) → x ≢ et → (t.h_idx x == 0) ≡ (s.h_idx x == 0)

pub SameTimers-refl : (et : ℕ) (s : Timers) → SameTimers et s s
SameTimers-refl et s = record {
  size = refl;
  times = refl;
  inserted = refl;
  removed = refl;
  alarmed = refl;
  total = refl;
  members = λ x n. refl;
}

pub SameTimers-trans :
    {et : ℕ} {s t u : Timers} → SameTimers et s t → SameTimers et t u → SameTimers et s u
SameTimers-trans a b = record {
  size = b.size ∙ a.size;
  times = b.times ∙ a.times;
  inserted = b.inserted ∙ a.inserted;
  removed = b.removed ∙ a.removed;
  alarmed = b.alarmed ∙ a.alarmed;
  total = b.total ∙ a.total;
  members = λ x n. b.members x n ∙ a.members x n;
}

-- The timer at another place j is moved to the free place, and j is free then.
module _ (s : Timers) (et i j : ℕ) (h : Places s et i) (p : 0 < j) (q : j ≤ s.et_heap_size)
    (n : j ≢ i) where
  pub Places-place : Places (place s (s.et_heap j) i) et j
  Places-place =
      let positive = h.positive in
      record {
        positive = p;
        inside = q;
        index = λ k kp kq kn. ground (arith, h.index k, h.index j p q n);
        member = λ t tn tz. ground (arith, h.member t tn, h.index j p q n);
      }

  pub SameTimers-place : SameTimers et s (place s (s.et_heap j) i)
  SameTimers-place =
      let positive = h.positive in
      record {
        size = refl;
        times = refl;
        inserted = refl;
        removed = refl;
        alarmed = refl;
        total = refl;
        members = λ x xn. ground (arith, h.index j p q n);
      }
