-- ===== src/Timers/Tests.antt =====
-- Concrete runs of the timer heap, and the theorems at inputs that meet their premises.
use mtproxy.Prelude.{◌-◌, leb, ℕ, ◌≤◌, ◌<◌, ◌≡◌, ◌≢◌, refl, inr, ◌==◌, if◌then◌else◌, arith}
use mtproxy.Prelude.Run.{Run, abort, ok, Returns}
use mtproxy.Timers.{
  Timers, up_loop, down_loop, smaller_child, basic_et_adjust, insert_event_timer,
  remove_event_timer, thread_run_timers, timers_get_first, max_event_timers,
}
use mtproxy.Timers.Adjust.{IsValid}
use mtproxy.Timers.Insert.{set_time, Inserted, insert_event_timer_full, insert_event_timer_lem}
use mtproxy.Timers.Remove.{Removed, remove_event_timer_lem}
use mtproxy.Timers.Alarms.{IsWait, IsCallback, timers_get_first_least, thread_run_timers_lem}

-- Timer 10 wakes up at 5, and timer 11 at 7.
abbrev two : Timers
two = record {
  et_heap = λ i. if i == 1 then 10 else 11;
  et_heap_size = 2;
  h_idx = λ t. if t == 10 then 1 else if t == 11 then 2 else 0;
  wakeup_time = λ t. if t == 10 then 5 else 7;
  event_timer_insert_ops = 2;
  event_timer_remove_ops = 0;
  event_timer_alarms = 0;
  total_timers = 2;
}

-- A heap whose array is full, as its place 0 is not used.
abbrev full : Timers
full = record {
  et_heap = λ i. i;
  et_heap_size = max_event_timers - 1;
  h_idx = λ t. if leb t (max_event_timers - 1) then t else 0;
  wakeup_time = λ t. 0;
  event_timer_insert_ops = 0;
  event_timer_remove_ops = 0;
  event_timer_alarms = 0;
  total_timers = max_event_timers - 1;
}

two-IsValid : IsValid two
two-IsValid = record {
  index = λ k kp kq. ground arith;
  member = λ t z. ground arith;
  order = λ k kp kq. ground arith;
  counted = refl;
}

full-IsValid : IsValid full
full-IsValid = record {
  index = λ k kp kq. ground arith;
  member = λ t z. ground arith;
  order = λ k kp kq. omega arith;
  counted = refl;
}

full_takes_none : insert_event_timer (set_time full max_event_timers 0) max_event_timers ≡ abort
full_takes_none =
    insert_event_timer_full full max_event_timers 0 full-IsValid (omega arith) (omega arith)

abbrev top : Run (ℕ × Timers) → ℕ × ℕ × ℕ
top (ok (i, s)) = (i, s.et_heap 1, s.h_idx 10)
top _ = (0, 0, 0)

-- A third timer that wakes up first rises to the root.
insert_first : top (insert_event_timer (set_time two 12 1) 12) ≡ (1, 12, 3)
unfolding insert_event_timer basic_et_adjust up_loop down_loop smaller_child
insert_first = refl

insert_event_timer_lem_example :
    Returns (Inserted two 12 1) (insert_event_timer (set_time two 12 1) 12)
insert_event_timer_lem_example =
    insert_event_timer_lem two 12 1 two-IsValid (omega arith) (inr (omega arith))

remove_event_timer_lem_example : Returns (Removed two 10) (remove_event_timer two 10)
remove_event_timer_lem_example = remove_event_timer_lem two 10 two-IsValid

timers_get_first_least_example : timers_get_first two ≤ two.wakeup_time 11
timers_get_first_least_example = timers_get_first_least two 11 two-IsValid (λ e. cc)

-- A callback that leaves the timers alone.
abbrev idle : Timers → ℕ → Timers
idle s et = s

idle-IsCallback : IsCallback idle 6 (λ s. s.et_heap_size)
idle-IsCallback = record {
  keeps = λ s t v d r. r.valid;
  fewer = λ s t v d r n. let size = r.size in omega arith;
}

thread_run_timers_lem_example :
    Returns
      (λ (ms, t). (IsValid t × ((x : ℕ) → t.h_idx x ≢ 0 → 6 < t.wakeup_time x)) × IsWait 6 t ms)
      (thread_run_timers idle 6 (λ n. 0) 3 two)
thread_run_timers_lem_example =
    thread_run_timers_lem idle 6 (λ s. s.et_heap_size) idle-IsCallback (λ n. 0) 3 two two-IsValid
      (omega arith)
