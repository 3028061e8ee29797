-- ===== src/Pid/Laws.antt =====
-- What the comparisons of process ids in c-original/common/pid.c mean.
use mtproxy.Prelude.{
  ℕ, ◌+◌, ◌-◌, ◌%◌, ◌^◌, ◌<◌, ◌≤◌, ◌≡◌, ◌↔◌, ◌⊎◌, inl, inr, true, false, ◌==◌, if◌then◌else◌, arith,
  Bool-cases,
}
use mtproxy.Prelude.Run.{ok}
use mtproxy.Pid.{
  ProcessId, fold_pid, init_common_pid, init_server_pid, matches_pid, same_id, fits,
  process_id_is_newer, is_own_ip,
}

-- The field of the pattern y is free, or it is that of x.
abbrev pub Agrees : ℕ → ℕ → Type 0
Agrees x y = (y ≡ 0) ⊎ (x ≡ y)

-- x is a case of the pattern y.
pub record IsCase (x y : ProcessId) : Type 0 where
  pub same_ip : Agrees x.ip y.ip
  pub same_port : Agrees x.port y.port
  pub same_pid : Agrees x.pid y.pid
  pub same_utime : Agrees x.utime y.utime

fits-Agrees : (x y : ℕ) → fits x y ≡ true → Agrees x y
fits-Agrees x y e = elim (Bool-cases (y == 0)) [
  | inl free ↦ inl (ground arith)
  | inr bound ↦ inr (ground (arith, e))
]

Agrees-fits : (x y : ℕ) → Agrees x y → fits x y ≡ true
Agrees-fits x y (inl e) = ground arith
Agrees-fits x y (inr e) = ground arith

-- matches_pid gives a positive result just where every field of the pattern that is not 0 has the
-- other's value.
pub matches_pid_iff : (x y : ProcessId) → (0 < matches_pid x y) ↔ IsCase x y
unfolding matches_pid
matches_pid_iff x y = (
  (λ p. elim (Bool-cases (same_id x y)) [
    | inl same ↦ record {
      same_ip = inr (ground (arith, same));
      same_port = inr (ground (arith, same));
      same_pid = inr (ground (arith, same));
      same_utime = inr (ground (arith, same));
    }
    | inr other ↦ record {
      same_ip = fits-Agrees x.ip y.ip (ground (arith, other, p));
      same_port = fits-Agrees x.port y.port (ground (arith, other, p));
      same_pid = fits-Agrees x.pid y.pid (ground (arith, other, p));
      same_utime = fits-Agrees x.utime y.utime (ground (arith, other, p));
    }
  ]),
  λ c. ground (
    arith,
    Agrees-fits x.ip y.ip c.same_ip,
    Agrees-fits x.port y.port c.same_port,
    Agrees-fits x.pid y.pid c.same_pid,
    Agrees-fits x.utime y.utime c.same_utime,
  ),
)

Agrees-trans : (x y z : ℕ) → Agrees x y → Agrees y z → Agrees x z
Agrees-trans x y z p (inl e) = inl e
Agrees-trans x y z (inr d) (inr e) = inr (ground (arith, d, e))
Agrees-trans x y z (inl d) (inr e) = inl (ground (arith, d, e))

-- A case of a case of a pattern is a case of the pattern.
matches_pid_trans :
    (x y z : ProcessId) → 0 < matches_pid x y → 0 < matches_pid y z → 0 < matches_pid x z
matches_pid_trans x y z p q =
    let a = (matches_pid_iff x y).0 p in
    let b = (matches_pid_iff y z).0 q in
    (matches_pid_iff x z).1 (record {
      same_ip = Agrees-trans x.ip y.ip z.ip a.same_ip b.same_ip;
      same_port = Agrees-trans x.port y.port z.port a.same_port b.same_port;
      same_pid = Agrees-trans x.pid y.pid z.pid a.same_pid b.same_pid;
      same_utime = Agrees-trans x.utime y.utime z.utime a.same_utime b.same_utime;
    })

-- The distance of two pids on a circle of 2 ^ 15 is short in one direction only.
short_one_way :
    (a b : ℕ)
    → a < 2 ^ 16
    → b < 2 ^ 16
    → 0 < (a + 2 ^ 16 - b) % 2 ^ 15
    → (a + 2 ^ 16 - b) % 2 ^ 15 ≤ 0x3fff
    → 0x3fff < (b + 2 ^ 16 - a) % 2 ^ 15
short_one_way a b p q l m = omega arith

-- Of two processes with the same address and port at most one is newer, also where the pid wraps
-- around.
pub process_id_is_newer_asymm :
    (a b : ProcessId)
    → a.pid < 2 ^ 16
    → b.pid < 2 ^ 16
    → process_id_is_newer a b ≡ ok true
    → process_id_is_newer b a ≡ ok false
unfolding process_id_is_newer
process_id_is_newer_asymm a b p q e = ground (arith, short_one_way a.pid b.pid p q)

fold_pid-pos : (p : ℕ) → 0 < fold_pid p
unfolding fold_pid
fold_pid-pos p = ground arith

init_common_pid-pos :
    (getpid time : ℕ) (p : ProcessId)
    → 0 < time % 2 ^ 32
    → (0 < (init_common_pid getpid time p).pid) × (0 < (init_common_pid getpid time p).utime)
unfolding init_common_pid
init_common_pid-pos getpid time p h = ground (arith, fold_pid-pos getpid)

init_common_pid-fixed :
    (getpid time : ℕ) (p : ProcessId) → 0 < p.pid → 0 < p.utime → init_common_pid getpid time p ≡ p
unfolding init_common_pid
init_common_pid-fixed getpid time p h k = ground arith

init_common_pid-address :
    (getpid time : ℕ) (p : ProcessId)
    → ((init_common_pid getpid time p).ip ≡ p.ip) × ((init_common_pid getpid time p).port ≡ p.port)
unfolding init_common_pid
init_common_pid-address getpid time p = ground arith

-- After init_server_PID, with a time and a port that are not 0, the process has a pid and a time, and a
-- second call with the same address changes nothing, whatever the pid and the time are by then.
pub init_server_pid_twice :
    (getpid time ip port getpid' time' : ℕ) (p : ProcessId)
    → 0 < time % 2 ^ 32
    → 0 < port % 2 ^ 16
    → (0 < (init_server_pid getpid time ip port p).pid)
      × (init_server_pid getpid' time' ip port (init_server_pid getpid time ip port p)
          ≡ init_server_pid getpid time ip port p)
unfolding init_server_pid
init_server_pid_twice getpid time ip port getpid' time' p h k =
    let q = if is_own_ip ip then record p { ip = ip } else p in
    let r = if q.port == 0 then record q { port = port % 2 ^ 16 } else q in
    let s = init_common_pid getpid time r in
    let (named, dated) = init_common_pid-pos getpid time r h in
    let (same_ip, same_port) = init_common_pid-address getpid time r in
    (
      named,
      elim (Bool-cases (is_own_ip ip)) [
        | inl own ↦ ground (arith, own, init_common_pid-fixed getpid' time' s named dated)
        | inr other ↦ ground (arith, other, init_common_pid-fixed getpid' time' s named dated)
      ],
    )
