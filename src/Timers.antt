-- ===== src/Timers.antt =====
-- The event timers of c-original/net/net-timers.c: a binary heap of pointers, counted from 1, in
-- which each timer knows its own place.
--
-- A timer is a number that stands for its address. Its two fields that the heap reads are functions
-- of it. The times, doubles in the source, are only compared, subtracted and scaled: they are
-- numbers of microseconds here. A place of the array that was never written holds any number, and the code
-- reads none such. The array has the places 0 to MAX_EVENT_TIMERS - 1. The places that the code reads or writes are
-- those up to the size, which only insert_event_timer raises, so that it alone could leave the array: a run in which it
-- does stops, as at a failed assertion.

mod Places
mod Order
mod Adjust
mod Insert
mod Remove
mod Alarms
mod Tests
use mtproxy.Prelude.{
  ℕ, zero, suc, ◌+◌, ◌-◌, ◌*◌, ◌/◌, ◌^◌, ◌%◌, Bool, true, false, ltb, leb, ◌==◌, ◌&&◌, not,
  if◌then◌else◌,
}
use mtproxy.Prelude.Run.{Run, ok, abort, out_of_fuel, ◌>>=◌, ◌>>◌, assert}

-- The heap, its size, and the module's statistics.
pub record Timers : Type 0 where
  pub et_heap : ℕ → ℕ
  pub et_heap_size : ℕ
  pub h_idx : ℕ → ℕ
  pub wakeup_time : ℕ → ℕ
  pub event_timer_insert_ops : ℕ
  pub event_timer_remove_ops : ℕ
  pub event_timer_alarms : ℕ
  pub total_timers : ℕ

abbrev pub max_event_timers : ℕ
max_event_timers = 2 ^ 19

abbrev pub update : (ℕ → ℕ) → ℕ → ℕ → ℕ → ℕ
update f i v j = if i == j then v else f j

abbrev pub key : Timers → ℕ → ℕ
key s i = s.wakeup_time (s.et_heap i)

-- et_heap[i] = et; et->h_idx = i
abbrev pub place : Timers → ℕ → ℕ → Timers
place s et i = record s { et_heap = update s.et_heap i et; h_idx = update s.h_idx et i }

-- The loop that moves parents down, from place i.
unfoldable pub up_loop : ℕ → Timers → ℕ → ℕ → Run (ℕ × Timers)
up_loop zero s et i = out_of_fuel
up_loop (suc k) s et i =
    let j = i / 2 in
    let rise = up_loop k (place s (s.et_heap j) i) et j in
    if ltb 1 i then (if leb (key s j) (s.wakeup_time et) then ok (i, s) else rise) else ok (i, s)

-- The smaller of the children 2 i and 2 i + 1.
unfoldable pub smaller_child : Timers → ℕ → ℕ
smaller_child s i =
    let j = 2 * i in if ltb j s.et_heap_size && ltb (key s (j + 1)) (key s j) then j + 1 else j

-- The loop that moves children up, from place i.
unfoldable pub down_loop : ℕ → Timers → ℕ → ℕ → Run (ℕ × Timers)
down_loop zero s et i = out_of_fuel
down_loop (suc k) s et i =
    let j = smaller_child s i in
    let sink = down_loop k (place s (s.et_heap j) i) et j in
    if leb (2 * i) s.et_heap_size
    then (if leb (s.wakeup_time et) (key s j) then ok (i, s) else sink)
    else ok (i, s)

unfoldable pub basic_et_adjust : Timers → ℕ → ℕ → Run (ℕ × Timers)
basic_et_adjust s et i = do
  (j, t) ← up_loop (i + 1) s et i
  (k, u) ← down_loop (s.et_heap_size + 1) t et j
  ok (k, place u et k)

-- `i > 0 && i <= et_heap_size && et_heap[i] == et`
abbrev pub is_at : Timers → ℕ → ℕ → Bool
is_at s et i = ltb 0 i && leb i s.et_heap_size && s.et_heap i == et

unfoldable pub insert_event_timer : Timers → ℕ → Run (ℕ × Timers)
insert_event_timer s₀ et =
    let s = record s₀ { event_timer_insert_ops = s₀.event_timer_insert_ops + 1 } in
    let i = s.h_idx et in
    if not (i == 0) then (do assert (is_at s et i); basic_et_adjust s et i) else (do
      assert (ltb s.et_heap_size max_event_timers)
      let n = s.et_heap_size + 1
      assert (ltb n max_event_timers)
      basic_et_adjust (record s { total_timers = s.total_timers + 1; et_heap_size = n }) et n)

unfoldable pub remove_event_timer : Timers → ℕ → Run (ℕ × Timers)
remove_event_timer s et =
    let i = s.h_idx et in
    let last = s.et_heap s.et_heap_size in
    let t = record s {
      total_timers = s.total_timers - 1;
      event_timer_remove_ops = s.event_timer_remove_ops + 1;
      h_idx = update s.h_idx et 0;
      et_heap_size = s.et_heap_size - 1;
    } in
    if i == 0 then ok (0, s) else (do
      assert (is_at s et i)
      (if ltb (s.et_heap_size - 1) i
          then ok (1, t)
          else (do (_, u) ← basic_et_adjust t last i; ok (1, u))))

-- What the callbacks of the timers do is not known here: `wakeup t et` is the state after the call
-- of et->wakeup, and `precise_now` does not change during the loop.
module _ (wakeup : Timers → ℕ → Timers) (precise_now : ℕ) where
  -- The loop that fires the timers that are due.
  unfoldable pub run_due : ℕ → Timers → Run Timers
  run_due zero s = out_of_fuel
  run_due (suc k) s =
      let et = s.et_heap 1 in
      let round = (do
        assert (s.h_idx et == 1)
        (_, t) ← remove_event_timer s et
        let u = wakeup t et
        run_due k (record u { event_timer_alarms = u.event_timer_alarms + 1 })) in
      if ltb 0 s.et_heap_size && leb (key s 1) precise_now then round else ok s

  -- What the conversion of a number to an int gives that no int holds, which C leaves undefined.
  module _ (undefined : ℕ → ℕ) where
    -- The milliseconds until the first timer is due, in the source (int) (wait_time * 1000) + 1.
    abbrev pub wait_ms : Timers → ℕ
    wait_ms s =
        let n = (key s 1 - precise_now) / 1000 in
        ((if ltb n (2 ^ 31) then n else undefined n) + 1) % 2 ^ 32

    unfoldable pub thread_run_timers : ℕ → Timers → Run (ℕ × Timers)
    thread_run_timers fuel s =
        if s.et_heap_size == 0
        then ok (100000, s)
        else if ltb precise_now (key s 1)
        then ok (wait_ms s, s)
        else (do
          t ← run_due fuel s
          (if t.et_heap_size == 0
              then ok (100000, t)
              else if ltb precise_now (key t 1)
              then ok (wait_ms t, t)
              else abort))

unfoldable pub timers_get_first : Timers → ℕ
timers_get_first s = if s.et_heap_size == 0 then 0 else key s 1
