-- ===== src/Pid.antt =====
-- Process ids, of c-original/common/pid.h and pid.c. Each field is its bit pattern; getpid and time are
-- arguments.
mod Laws
mod Tests
use Prim.Native.Nat.{bit_xor}
use mtproxy.Prelude.{
  ℕ, ◌+◌, ◌-◌, ◌*◌, ◌/◌, ◌%◌, ◌^◌, Bool, true, false, ltb, leb, ◌==◌, ◌&&◌, ◌||◌, not,
  if◌then◌else◌,
}
use mtproxy.Prelude.Int.{int_lt}
use mtproxy.Prelude.Run.{Run, ok, abort, assert, ◌>>=◌, ◌>>◌}

-- struct process_id: unsigned, short, unsigned short, int
pub record ProcessId : Type 0 where
  pub ip : ℕ
  pub port : ℕ
  pub pid : ℕ
  pub utime : ℕ

-- The pid in 16 bits that init_common_PID folds the process's own pid into.
unfoldable pub fold_pid : ℕ → ℕ
fold_pid p =
    let pid16 = bit_xor (p % 2 ^ 16) (p / 2 ^ 16) % 2 ^ 16 in if pid16 == 0 then 1 else pid16

-- init_common_PID, with the results of getpid and time
unfoldable pub init_common_pid : ℕ → ℕ → ProcessId → ProcessId
init_common_pid getpid time p =
    let named = if p.pid == 0 then record p { pid = fold_pid getpid } else p in
    if named.utime == 0 then record named { utime = time % 2 ^ 32 } else named

-- ip && ip != 0x7f000001
abbrev pub is_own_ip : ℕ → Bool
is_own_ip ip = not (ip == 0) && not (ip == 0x7f000001)

unfoldable pub init_client_pid : ℕ → ℕ → ℕ → ProcessId → ProcessId
init_client_pid getpid time ip p =
    init_common_pid getpid time (if is_own_ip ip then record p { ip = ip } else p)

unfoldable pub init_server_pid : ℕ → ℕ → ℕ → ℕ → ProcessId → ProcessId
init_server_pid getpid time ip port p =
    let q = if is_own_ip ip then record p { ip = ip } else p in
    init_common_pid getpid time (if q.port == 0 then record q { port = port % 2 ^ 16 } else q)

-- memcmp over the whole struct is 0
abbrev pub same_id : ProcessId → ProcessId → Bool
same_id x y = x.ip == y.ip && (x.port == y.port && (x.pid == y.pid && x.utime == y.utime))

abbrev pub fits : ℕ → ℕ → Bool
fits x y = y == 0 || x == y

unfoldable pub matches_pid : ProcessId → ProcessId → ℕ
matches_pid x y =
    if same_id x y
    then 2
    else if fits x.ip y.ip && (fits x.port y.port && (fits x.pid y.pid && fits x.utime y.utime))
    then 1
    else 0

-- The six bytes that must agree are the ip and the port; (a->pid - b->pid) & 0x7fff is taken of an int.
unfoldable pub process_id_is_newer : ProcessId → ProcessId → Run Bool
process_id_is_newer a b =
    let x = (a.pid + 2 ^ 16 - b.pid) % 2 ^ 15 in
    do
      assert (a.ip == b.ip && a.port == b.port)
      ok (
          if int_lt a.utime b.utime
          then false
          else if int_lt b.utime a.utime
          then true
          else not (x == 0) && leb x 0x3fff)
