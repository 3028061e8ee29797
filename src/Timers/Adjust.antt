-- ===== src/Timers/Adjust.antt =====
-- basic_et_adjust of c-original/net/net-timers.c puts a timer where it belongs.
use mtproxy.Prelude.{
  ℕ, zero, suc, ◌+◌, ◌*◌, ◌/◌, ◌<◌, ◌≤◌, ◌≡◌, ◌≢◌, refl, ltb, leb, arith, ltb→lt, leb→le,
}
use mtproxy.Prelude.Run.{Returns, returns, Returns-bind, Returns-map, Returns-if}
use mtproxy.Timers.{Timers, key, place, smaller_child, up_loop, down_loop, basic_et_adjust}
use mtproxy.Timers.Places.{
  Places, SameTimers, SameTimers-refl, SameTimers-trans, Places-place, SameTimers-place,
}
use mtproxy.Timers.Order.{
  IsOrderedBut, FitsBelow, FitsAbove, IsOrderedBut-up, IsOrderedBut-down, smaller_child_least,
}

-- Where a loop stops: the state is the one before, but for moved timers, and i is free in it.
record Stopped (s : Timers) (et : ℕ) (r : ℕ × Timers) : Type 0 where
  places : Places r.1 et r.0
  ordered : IsOrderedBut r.1 r.0
  same : SameTimers et s r.1
  below : FitsBelow r.1 et r.0

up_loop_stops :
    (fuel : ℕ) (s : Timers) (et i : ℕ)
    → i < fuel
    → Places s et i
    → IsOrderedBut s i
    → Returns (Stopped s et) (up_loop fuel s et i)
unfolding up_loop
up_loop_stops zero s et i f h o = absurd (omega arith)
up_loop_stops (suc n) s et i f h o =
    let positive = h.positive in
    let inside = h.inside in
    Returns-if (ltb 1 i) _ _
      (λ e.
        Returns-if (leb (key s (i / 2)) (s.wakeup_time et)) _ _
          (λ c. returns (stop (λ _. ground arith)))
          (λ _.
            let p : 1 < i = ltb→lt 1 i e in
            let moved = Places-place s et i (i / 2) h (omega arith) (omega arith) (omega arith) in
            let kept =
              SameTimers-place s et i (i / 2) h (omega arith) (omega arith) (omega arith) in
            Returns-map
              (up_loop_stops n _ et (i / 2) (omega arith) moved (IsOrderedBut-up s i p h.inside o))
              (λ r d. record {
                places = d.places;
                ordered = d.ordered;
                same = SameTimers-trans kept d.same;
                below = d.below;
              })))
      (λ e. returns (stop (λ q. absurd (ground arith))))
  where
    stop : FitsBelow s et i → Stopped s et (i, s)
    stop b = record { places = h; ordered = o; same = SameTimers-refl et s; below = b }

down_loop_stops :
    (fuel : ℕ) (s : Timers) (et i : ℕ)
    → s.et_heap_size < i + fuel
    → Places s et i
    → IsOrderedBut s i
    → FitsBelow s et i
    → Returns (λ r. Stopped s et r × FitsAbove r.1 et r.0) (down_loop fuel s et i)
unfolding down_loop
down_loop_stops zero s et i f h o b = let inside = h.inside in absurd (omega arith)
down_loop_stops (suc n) s et i f h o b =
    let positive = h.positive in
    let inside = h.inside in
    let j = smaller_child s i in
    Returns-if (leb (2 * i) s.et_heap_size) _ _
      (λ e.
        let room : 2 * i ≤ s.et_heap_size = leb→le _ _ e in
        let (half, within, least) = smaller_child_least s i positive room in
        Returns-if (leb (s.wakeup_time et) (key s j)) _ _
          (λ c. returns (stop, λ k kp kq d. ground (arith, least k)))
          (λ c.
            let moved = Places-place s et i j h (omega arith) within (omega arith) in
            let kept = SameTimers-place s et i j h (omega arith) within (omega arith) in
            let fits : FitsBelow (place s (s.et_heap j) i) et j = λ q. ground arith in
            Returns-map
              (down_loop_stops n _ et j (omega arith) moved
                (IsOrderedBut-down s i j positive half within least o) fits)
              (λ r (d, a). (
                record {
                  places = d.places;
                  ordered = d.ordered;
                  same = SameTimers-trans kept d.same;
                  below = d.below;
                },
                a,
              ))))
      (λ e. returns (stop, λ k kp kq d. absurd (ground arith)))
  where
    stop : Stopped s et (i, s)
    stop = record { places = h; ordered = o; same = SameTimers-refl et s; below = b }

-- The heap between two calls: every place holds a timer that knows it, every timer that knows a
-- place is there, no timer wakes up before its parent, and the statistics count the timers.
pub record IsValid (s : Timers) : Type 0 where
  pub index : (k : ℕ) → 0 < k → k ≤ s.et_heap_size → s.h_idx (s.et_heap k) ≡ k
  pub member : (t : ℕ) → s.h_idx t ≢ 0 → (s.h_idx t ≤ s.et_heap_size) × (s.et_heap (s.h_idx t) ≡ t)
  pub order : (k : ℕ) → 1 < k → k ≤ s.et_heap_size → key s (k / 2) ≤ key s k
  pub counted : s.total_timers ≡ s.et_heap_size

-- What an adjustment of `et` leaves: a valid heap that holds it at the returned place.
pub record Adjusted (s : Timers) (et : ℕ) (r : ℕ × Timers) : Type 0 where
  pub valid : IsValid r.1
  pub placed : r.1.h_idx et ≡ r.0
  pub positive : 0 < r.0
  pub same : SameTimers et s r.1

Adjusted-place :
    (s t : Timers) (et i : ℕ)
    → s.total_timers ≡ s.et_heap_size
    → Stopped s et (i, t)
    → FitsAbove t et i
    → Adjusted s et (i, place t et i)
Adjusted-place s t et i c d a =
    let positive = d.places.positive in
    let inside = d.places.inside in
    let same = d.same in
    record {
      valid = record {
        index = λ k kp kq. ground (arith, d.places.index k);
        member = λ x xz. ground (arith, d.places.member x);
        order = λ k kp kq. ground (arith, d.ordered.edges k, d.below, a k);
        counted = omega (arith, same.total, same.size);
      };
      placed = ground arith;
      positive = positive;
      same = SameTimers-trans same (record {
        size = refl;
        times = refl;
        inserted = refl;
        removed = refl;
        alarmed = refl;
        total = refl;
        members = λ x n. ground arith;
      });
    }

-- An adjustment ends, and restores the heap, whatever its timer's time is.
pub basic_et_adjust_lem :
    (s : Timers) (et i : ℕ)
    → Places s et i
    → IsOrderedBut s i
    → s.total_timers ≡ s.et_heap_size
    → Returns (Adjusted s et) (basic_et_adjust s et i)
unfolding basic_et_adjust
basic_et_adjust_lem s et i h o c =
    Returns-bind (up_loop_stops (i + 1) s et i (omega arith) h o) λ (j, t) d.
      let positive = d.places.positive in
      let size = d.same.size in
      let total = d.same.total in
      Returns-bind
        (down_loop_stops (s.et_heap_size + 1) t et j (omega arith) d.places d.ordered d.below)
        λ (k, u) (e, a).
          let done = Adjusted-place t u et k (omega arith) e a in
          returns (record {
            valid = done.valid;
            placed = done.placed;
            positive = done.positive;
            same = SameTimers-trans d.same done.same;
          })
