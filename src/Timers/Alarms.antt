-- ===== src/Timers/Alarms.antt =====
-- The timers that are due are fired, earliest first (c-original/net/net-timers.c).
use mtproxy.Prelude.{
  ◌⊎◌, ◌*◌, ◌-◌, ◌^◌, ℕ, zero, suc, ◌+◌, ◌/◌, ◌<◌, ◌≤◌, ◌≡◌, ◌≢◌, inl, inr, true, false, ltb, leb,
  ◌==◌, ◌&&◌, arith, Bool-cases,
}
use mtproxy.Prelude.Run.{Returns, returns, Returns-bind, Returns-if}
use mtproxy.Timers.{Timers, key, run_due, wait_ms, thread_run_timers, timers_get_first}
use mtproxy.Timers.Adjust.{IsValid}
use mtproxy.Timers.Remove.{Removed, remove_event_timer_lem}

root_le :
    (s : Timers) (n k : ℕ) → IsValid s → k < n → 0 < k → k ≤ s.et_heap_size → key s 1 ≤ key s k
root_le s zero k v f p q = absurd (omega arith)
root_le s (suc n) k v f p q = elim (Bool-cases (k == 1)) [
  | inl root ↦ ground arith
  | inr deeper ↦
      let step = root_le s n (k / 2) v (ground arith) (ground arith) (omega arith) in
      ground (arith, step, v.order k)
]

-- No timer of the heap wakes up before the time that timers_get_first gives.
pub timers_get_first_least :
    (s : Timers) (t : ℕ) → IsValid s → s.h_idx t ≢ 0 → timers_get_first s ≤ s.wakeup_time t
unfolding timers_get_first
timers_get_first_least s t v z =
    let m = v.member t z in
    ground (arith, m, root_le s (s.h_idx t + 1) (s.h_idx t) v (omega arith) (omega arith) m.0)

root_least : (s : Timers) (t : ℕ) → IsValid s → s.h_idx t ≢ 0 → key s 1 ≤ s.wakeup_time t
root_least s t v z =
    let m = v.member t z in
    ground (arith, m, root_le s (s.h_idx t + 1) (s.h_idx t) v (omega arith) (omega arith) m.0)

-- The milliseconds to wait: no timer is left, or all are too far away, or a timer is due when they have passed, and none
-- is due a millisecond earlier.
abbrev pub IsWait : ℕ → Timers → ℕ → Type 0
IsWait now s ms =
    ((s.et_heap_size ≡ 0) × (ms ≡ 100000))
    ⊎ (((t : ℕ) → s.h_idx t ≢ 0 → now + (2 ^ 31 - 1) * 1000 ≤ s.wakeup_time t)
        ⊎ (((t : ℕ) × (s.h_idx t ≢ 0) × (s.wakeup_time t < now + ms * 1000))
            × ((t : ℕ) → s.h_idx t ≢ 0 → now + ms * 1000 ≤ s.wakeup_time t + 1000)))

-- What a callback may do: after the earliest timer, which was due, has left the heap, its callback
-- leaves a valid heap, and a bound on the alarms to come goes down.
pub record IsCallback (wakeup : Timers → ℕ → Timers) (precise_now : ℕ) (rounds : Timers → ℕ)
    : Type 0 where
  pub keeps :
      (s t : Timers)
      → IsValid s
      → s.wakeup_time (s.et_heap 1) ≤ precise_now
      → Removed s (s.et_heap 1) (1, t)
      → IsValid (wakeup t (s.et_heap 1))
  pub fewer :
      (s t : Timers)
      → IsValid s
      → s.wakeup_time (s.et_heap 1) ≤ precise_now
      → Removed s (s.et_heap 1) (1, t)
      → (n : ℕ) → rounds (record (wakeup t (s.et_heap 1)) { event_timer_alarms = n }) < rounds s

module _ (wakeup : Timers → ℕ → Timers) (precise_now : ℕ) (rounds : Timers → ℕ)
    (callback : IsCallback wakeup precise_now rounds) where
  -- No timer of the heap is due.
  abbrev Quiet : Timers → Type 0
  Quiet s = IsValid s × ((t : ℕ) → s.h_idx t ≢ 0 → precise_now < s.wakeup_time t)

  IsValid-alarm : (s : Timers) (n : ℕ) → IsValid s → IsValid (record s { event_timer_alarms = n })
  IsValid-alarm s n v = record {
    index = v.index;
    member = v.member;
    order = v.order;
    counted = v.counted;
  }

  later :
      (s : Timers) (t : ℕ)
      → IsValid s
      → s.h_idx t ≢ 0
      → (ltb 0 s.et_heap_size && leb (key s 1) precise_now) ≡ false
      → precise_now < s.wakeup_time t
  unfolding timers_get_first
  later s t v z e = ground (arith, timers_get_first_least s t v z, v.member t)

  wait_ms-IsWait :
      (undefined : ℕ → ℕ) (s : Timers)
      → Quiet s
      → 0 < s.et_heap_size
      → IsWait precise_now s (wait_ms wakeup precise_now undefined s)
  wait_ms-IsWait undefined s (v, quiet) p =
      let first = s.et_heap 1 in
      let root = (v.index 1 (omega arith) (omega arith)) in
      let held : s.h_idx first ≢ 0 = ground (arith, root) in
      let late = quiet first held in
      let least = λ (t : ℕ). λ (z : s.h_idx t ≢ 0). root_least s t v z in
      let n = (key s 1 - precise_now) / 1000 in
      elim (Bool-cases (ltb n (2 ^ 31 - 1))) [
        | inl soon ↦
            let fits : ltb n (2 ^ 31) ≡ true = ground (arith, soon) in
            let exact : wait_ms wakeup precise_now undefined s ≡ n + 1 =
              ground (arith, soon, fits) in
            rw exact (
              inr (inr ((first, held, omega (arith, late)), λ t z. omega (arith, late, least t z))))
        | inr far ↦ inr (inl (λ t z. ground (arith, far, least t z)))
      ]

  run_due-Quiet :
      (fuel : ℕ) (s : Timers)
      → IsValid s
      → rounds s < fuel
      → Returns Quiet (run_due wakeup precise_now fuel s)
  unfolding run_due
  run_due-Quiet zero s v f = absurd (omega arith)
  run_due-Quiet (suc k) s v f =
      let et = s.et_heap 1 in
      Returns-if (ltb 0 s.et_heap_size && leb (key s 1) precise_now) _ _
        (λ e.
          let at : (s.h_idx et == 1) ≡ true = ground (arith, v.index 1) in
          let due : s.wakeup_time et ≤ precise_now = ground arith in
          rw at (
            Returns-bind (remove_event_timer_lem s et v) λ (r, t) d.
              let one : r ≡ 1 = ground (arith, d.result) in
              let d' : Removed s et (1, t) = rw one at d in
              let less = callback.fewer s t v due d' ((wakeup t et).event_timer_alarms + 1) in
              run_due-Quiet k _ (IsValid-alarm _ _ (callback.keeps s t v due d')) (omega arith)))
        (λ e. returns (v, λ t z. later s t v z e))

  -- With enough fuel for the alarms to come, which go down with every callback, the run on a valid heap ends and no
  -- assertion fails. No timer that is left is due, and the result is the time to wait: 100000 milliseconds if no timer is
  -- left; otherwise a timer is due when it has passed, and none is due a millisecond earlier, unless all are 2 ^ 31 - 1
  -- milliseconds away or more.
  pub thread_run_timers_lem :
      (undefined : ℕ → ℕ) (fuel : ℕ) (s : Timers)
      → IsValid s
      → rounds s < fuel
      → Returns
          (λ (ms, t). Quiet t × IsWait precise_now t ms)
          (thread_run_timers wakeup precise_now undefined fuel s)
  unfolding thread_run_timers
  thread_run_timers_lem undefined fuel s v f =
      Returns-if (s.et_heap_size == 0) _ _
        (λ e.
          returns
            ((v, λ t z. later s t v z (ground (arith, e))), inl (ground (arith, e), ground arith)))
        λ e.
          Returns-if (ltb precise_now (key s 1)) _ _
            (λ c.
              let quiet : Quiet s = (v, λ t z. later s t v z (ground (arith, c))) in
              returns (quiet, wait_ms-IsWait undefined s quiet (ground (arith, e))))
            λ c. Returns-bind (run_due-Quiet fuel s v f) λ t q.
              Returns-if (t.et_heap_size == 0) _ _
                (λ d. returns (q, inl (ground (arith, d), ground arith)))
                λ d.
                  Returns-if (ltb precise_now (key t 1)) _ _
                    (λ g. returns (q, wait_ms-IsWait undefined t q (ground (arith, d))))
                    λ g. absurd (ground (arith, q.1 (t.et_heap 1), q.0.index 1))
