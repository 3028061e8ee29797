-- ===== src/Timers/Insert.antt =====
-- insert_event_timer of c-original/net/net-timers.c.
use mtproxy.Prelude.{
  ℕ, ◌+◌, ◌/◌, ◌<◌, ◌≤◌, ◌≡◌, ◌≢◌, ◌⊎◌, inl, inr, ◌==◌, if◌then◌else◌, arith, Bool-cases,
}
use mtproxy.Prelude.Run.{abort, Returns, Returns-map}
use mtproxy.Timers.{Timers, update, max_event_timers, basic_et_adjust, insert_event_timer}
use mtproxy.Timers.Places.{Places}
use mtproxy.Timers.Order.{IsOrderedBut}
use mtproxy.Timers.Adjust.{IsValid, basic_et_adjust_lem}

-- A caller sets a timer's time before it inserts the timer, also if the timer is in the heap.
abbrev pub set_time : Timers → ℕ → ℕ → Timers
set_time s et w = record s { wakeup_time = update s.wakeup_time et w }

-- The heap then holds `et` at the place that is returned, and besides it the timers it held; it lies within its array.
pub record Inserted (s : Timers) (et w : ℕ) (r : ℕ × Timers) : Type 0 where
  pub valid : IsValid r.1
  pub placed : r.1.h_idx et ≡ r.0
  pub positive : 0 < r.0
  pub time : r.1.wakeup_time ≡ update s.wakeup_time et w
  pub members : (x : ℕ) → x ≢ et → (r.1.h_idx x == 0) ≡ (s.h_idx x == 0)
  pub size : r.1.et_heap_size ≡ (if s.h_idx et == 0 then s.et_heap_size + 1 else s.et_heap_size)
  pub fits : r.1.et_heap_size < max_event_timers
  pub inserts : r.1.event_timer_insert_ops ≡ s.event_timer_insert_ops + 1

module _ (s : Timers) (et w : ℕ) (v : IsValid s) where
  abbrev counting : Timers
  counting = record (set_time s et w) { event_timer_insert_ops = s.event_timer_insert_ops + 1 }

  abbrev grown : Timers
  grown = record counting { total_timers = s.total_timers + 1; et_heap_size = s.et_heap_size + 1 }

  Places-new : s.h_idx et ≡ 0 → Places grown et (s.et_heap_size + 1)
  Places-new z = record {
    positive = omega arith;
    inside = omega arith;
    index = λ k kp kq kn. ground (arith, v.index k);
    member = λ t tn tz. ground (arith, v.member t);
  }

  IsOrderedBut-new : s.h_idx et ≡ 0 → IsOrderedBut grown (s.et_heap_size + 1)
  IsOrderedBut-new z = record {
    edges = λ k kp kq kn km. ground (arith, v.order k, v.index k, v.index (k / 2));
    bridge = λ k p kq e. absurd (omega arith);
  }

  pub Places-held : s.h_idx et ≢ 0 → Places counting et (s.h_idx et)
  Places-held z = record {
    positive = omega arith;
    inside = (v.member et z).0;
    index = λ k kp kq kn. ground (arith, v.index k);
    member = λ t tn tz. ground (arith, v.member t, v.member et);
  }

  pub IsOrderedBut-held : s.h_idx et ≢ 0 → IsOrderedBut counting (s.h_idx et)
  IsOrderedBut-held z = record {
    edges = λ k kp kq kn km. ground (arith, v.order k, v.index k, v.index (k / 2));
    bridge = λ k p kq e.
        ground (
          arith,
          v.order k,
          v.order (s.h_idx et),
          v.member et,
          v.index k,
          v.index (s.h_idx et / 2),
        );
  }

  insert_new :
      s.h_idx et ≡ 0
      → s.et_heap_size + 1 < max_event_timers
      → insert_event_timer (set_time s et w) et ≡ basic_et_adjust grown et (s.et_heap_size + 1)
  unfolding insert_event_timer
  insert_new z room = ground arith

  insert_held :
      s.h_idx et ≢ 0
      → insert_event_timer (set_time s et w) et ≡ basic_et_adjust counting et (s.h_idx et)
  unfolding insert_event_timer
  insert_held z = ground (arith, v.member et)

  -- Inserting a timer into a valid heap that lies within its array, or moving one whose time was set anew, ends with a
  -- valid heap within its array that holds it at the returned place and besides it the timers it held, if it is held
  -- already or fewer than MAX_EVENT_TIMERS - 1 timers are.
  pub insert_event_timer_lem :
      s.et_heap_size < max_event_timers
      → (s.h_idx et ≢ 0) ⊎ (s.et_heap_size + 1 < max_event_timers)
      → Returns (Inserted s et w) (insert_event_timer (set_time s et w) et)
  insert_event_timer_lem inside room = elim (Bool-cases (s.h_idx et == 0)) [
    | inl new ↦
        let z : s.h_idx et ≡ 0 = ground arith in
        let counted = v.counted in
        rw (insert_new z (ground arith)) (
          Returns-map
            (basic_et_adjust_lem grown et (s.et_heap_size + 1) (Places-new z) (IsOrderedBut-new z)
              (omega arith))
            λ r a. record {
              valid = a.valid;
              placed = a.placed;
              positive = a.positive;
              time = a.same.times;
              members = a.same.members;
              size = ground (arith, a.same.size);
              fits = ground (arith, a.same.size);
              inserts = a.same.inserted;
            })
    | inr held ↦
        let z : s.h_idx et ≢ 0 = ground arith in
        rw (insert_held z) (
          Returns-map
            (basic_et_adjust_lem counting et (s.h_idx et) (Places-held z) (IsOrderedBut-held z)
              v.counted)
            λ r a. record {
              valid = a.valid;
              placed = a.placed;
              positive = a.positive;
              time = a.same.times;
              members = a.same.members;
              size = ground (arith, a.same.size);
              fits = ground (arith, a.same.size);
              inserts = a.same.inserted;
            })
  ]

  -- A heap of MAX_EVENT_TIMERS - 1 timers has no place left in the array for another one, although the source's
  -- assertion lets it pass.
  pub insert_event_timer_full :
      s.h_idx et ≡ 0
      → max_event_timers ≤ s.et_heap_size + 1
      → insert_event_timer (set_time s et w) et ≡ abort
  unfolding insert_event_timer
  insert_event_timer_full z full = ground arith
