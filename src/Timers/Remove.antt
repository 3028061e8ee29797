-- ===== src/Timers/Remove.antt =====
-- remove_event_timer of c-original/net/net-timers.c.
use mtproxy.Prelude.{ℕ, ◌+◌, ◌-◌, ◌<◌, ◌≤◌, ◌≡◌, ◌≢◌, refl, true, ltb, ◌==◌, if◌then◌else◌, arith}
use mtproxy.Prelude.Run.{Returns, returns, Returns-bind, Returns-if}
use mtproxy.Timers.{Timers, update, is_at, remove_event_timer}
use mtproxy.Timers.Places.{Places}
use mtproxy.Timers.Order.{IsOrderedBut}
use mtproxy.Timers.Adjust.{IsValid, Adjusted, basic_et_adjust_lem}

-- The heap then holds the timers that it held, but for `et`.
pub record Removed (s : Timers) (et : ℕ) (r : ℕ × Timers) : Type 0 where
  pub valid : IsValid r.1
  pub absent : r.1.h_idx et ≡ 0
  pub result : r.0 ≡ (if s.h_idx et == 0 then 0 else 1)
  pub members : (x : ℕ) → x ≢ et → (r.1.h_idx x == 0) ≡ (s.h_idx x == 0)
  pub times : r.1.wakeup_time ≡ s.wakeup_time
  pub size : s.et_heap_size ≡ r.1.et_heap_size + r.0
  pub removes : r.1.event_timer_remove_ops ≡ s.event_timer_remove_ops + r.0

module _ (s : Timers) (et : ℕ) (v : IsValid s) where
  abbrev shrunk : Timers
  shrunk = record s {
    total_timers = s.total_timers - 1;
    event_timer_remove_ops = s.event_timer_remove_ops + 1;
    h_idx = update s.h_idx et 0;
    et_heap_size = s.et_heap_size - 1;
  }

  abbrev last : ℕ
  last = s.et_heap s.et_heap_size

  Removed-absent : s.h_idx et ≡ 0 → Removed s et (0, s)
  Removed-absent z = record {
    valid = v;
    absent = z;
    result = ground arith;
    members = λ x n. refl;
    times = refl;
    size = omega arith;
    removes = omega arith;
  }

  Removed-last : s.h_idx et ≢ 0 → s.et_heap_size - 1 < s.h_idx et → Removed s et (1, shrunk)
  Removed-last z l =
      let m = v.member et z in
      let counted = v.counted in
      record {
        valid = record {
          index = λ k kp kq. ground (arith, v.index k);
          member = λ t tz. ground (arith, v.member t);
          order = λ k kp kq. ground (arith, v.order k);
          counted = omega arith;
        };
        absent = ground arith;
        result = ground arith;
        members = λ x n. ground arith;
        times = refl;
        size = omega (arith, m.0);
        removes = refl;
      }

  module _ (z : s.h_idx et ≢ 0) (l : s.h_idx et ≤ s.et_heap_size - 1) where
    Places-shrunk : Places shrunk last (s.h_idx et)
    Places-shrunk =
        let m = v.member et z in
        record {
          positive = omega arith;
          inside = l;
          index = λ k kp kq kn. ground (arith, m, v.index k, v.index s.et_heap_size);
          member = λ t tn tz. ground (arith, m, v.member t);
        }

    IsOrderedBut-shrunk : IsOrderedBut shrunk (s.h_idx et)
    IsOrderedBut-shrunk = record {
      edges = λ k kp kq kn km. v.order k kp (omega arith);
      bridge = λ k p kq e. ground (arith, v.order k, v.order (s.h_idx et));
    }

    Removed-inner : (r : ℕ × Timers) → Adjusted shrunk last r → Removed s et (1, r.1)
    Removed-inner r a =
        let m = v.member et z in
        let size = a.same.size in
        record {
          valid = a.valid;
          absent = ground (arith, m, a.same.members et, v.index s.et_heap_size);
          result = ground arith;
          members =
              λ x n. ground (arith, a.same.members x, a.placed, a.positive, v.index s.et_heap_size);
          times = a.same.times;
          size = omega arith;
          removes = a.same.removed;
        }

  -- Removing a timer ends with a valid heap without it, and does nothing for a timer that is not
  -- in the heap.
  pub remove_event_timer_lem : Returns (Removed s et) (remove_event_timer s et)
  unfolding remove_event_timer
  remove_event_timer_lem =
      Returns-if (s.h_idx et == 0) _ _ (λ e. returns (Removed-absent (ground arith)))
        λ e.
          let z : s.h_idx et ≢ 0 = ground arith in
          let at : is_at s et (s.h_idx et) ≡ true = ground (arith, v.member et) in
          rw at (
            Returns-if (ltb (s.et_heap_size - 1) (s.h_idx et)) _ _
              (λ c. returns (Removed-last z (ground arith)))
              λ c.
                let l : s.h_idx et ≤ s.et_heap_size - 1 = ground arith in
                let counted = v.counted in
                Returns-bind
                  (basic_et_adjust_lem shrunk last (s.h_idx et) (Places-shrunk z l)
                    (IsOrderedBut-shrunk z l) (omega arith))
                  λ r a. returns (Removed-inner z l r a))
