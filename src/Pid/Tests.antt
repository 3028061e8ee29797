-- ===== src/Pid/Tests.antt =====
-- Concrete process ids, and the theorems at inputs that meet their premises.
use mtproxy.Prelude.{ℕ, ◌<◌, ◌≡◌, ◌↔◌, refl, false, arith}
use mtproxy.Prelude.Run.{ok}
use mtproxy.Pid.{ProcessId, matches_pid, process_id_is_newer, init_server_pid}
use mtproxy.Pid.Laws.{IsCase, matches_pid_iff, process_id_is_newer_asymm, init_server_pid_twice}

abbrev process : ℕ → ℕ → ProcessId
process port pid = record { ip = 1; port = port; pid = pid; utime = 9 }

-- Any process at the address 1, and any process at all.
abbrev at_one : ProcessId
at_one = record { ip = 1; port = 0; pid = 0; utime = 0 }

abbrev anyone : ProcessId
anyone = record { ip = 0; port = 0; pid = 0; utime = 0 }

matches_pid_iff_example : (0 < matches_pid (process 80 7) at_one) ↔ IsCase (process 80 7) at_one
matches_pid_iff_example = matches_pid_iff (process 80 7) at_one

-- The pid 3 is newer than 32760: it comes behind the wrap-around.
process_id_is_newer_asymm_example : process_id_is_newer (process 80 32760) (process 80 3) ≡ ok false
unfolding process_id_is_newer
process_id_is_newer_asymm_example =
    process_id_is_newer_asymm (process 80 3) (process 80 32760) (omega arith) (omega arith) refl

init_server_pid_twice_example :
    (0 < (init_server_pid 70000 9 1 80 anyone).pid)
    × (init_server_pid 5 10 1 80 (init_server_pid 70000 9 1 80 anyone)
        ≡ init_server_pid 70000 9 1 80 anyone)
init_server_pid_twice_example =
    init_server_pid_twice 70000 9 1 80 5 10 anyone (omega arith) (omega arith)
