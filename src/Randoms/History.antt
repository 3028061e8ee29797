-- ===== src/Randoms/History.antt =====
-- That a client hello that was accepted is not accepted again, by is_allowed_timestamp and the cache of
-- c-original/net/net-tcp-rpc-ext-server.c, however the cache has gone on in between.
use mtproxy.Prelude.{
  ℕ, ◌+◌, ◌-◌, ◌%◌, ◌^◌, ◌<◌, ◌≤◌, ◌≡◌, refl, true, false, List, [], ◌∷◌, ◌++◌, arith, inl, inr,
  ◌⊎◌, subst,
}
use mtproxy.Prelude.Int.{int_lt}
use mtproxy.Prelude.Bytes.{Bytes}
use mtproxy.Prelude.Run.{ok, ended, ok-eq}
use mtproxy.Randoms.{
  ClientRandom, Cache, have_client_random, add_client_random, delete_old_client_randoms,
  max_client_random_cache_time, is_allowed_timestamp, behind_first,
}
use mtproxy.Randoms.Chains.{Holds}
use mtproxy.Randoms.Replay.{
  IsCache, From, Sorted, delete_loop-Left, have_client_random-Holds, add-IsCache, Holds-append,
  Holds-kept,
}

-- The cache goes on from s at time t to u at time n: other randoms are added, and old ones deleted, while
-- the time does not go back.
pub data Later (t : ℕ) (s : Cache) : ℕ → Cache → Type 0 where
  at_once : Later t s t s
  added :
      (n m : ℕ) (u : Cache) (random : Bytes)
      → Later t s n u
      → n ≤ m
      → Later t s m (add_client_random m random u)
  deleted :
      (n m : ℕ) (u v : Cache)
      → Later t s n u
      → n ≤ m
      → delete_old_client_randoms m u ≡ ok v
      → Later t s m v

From-append :
    (a : ℕ) (es : List ClientRandom) (x : ClientRandom)
    → From a es
    → a ≤ x.time
    → From a (es ++ x ∷ [])
From-append a [] x p q = (q, tt)
From-append a (e ∷ es) x (p, ps) q = (p, From-append a es x ps q)

Sorted-append :
    (es : List ClientRandom) (x : ClientRandom) (t : ℕ)
    → Sorted es t
    → t ≤ x.time
    → Sorted (es ++ x ∷ []) x.time
Sorted-append [] x t p q = (tt, omega arith, tt)
Sorted-append (e ∷ es) x t (a, l, p) q =
    (From-append e.time es x a (omega arith), omega arith, Sorted-append es x t p q)

Sorted-le : (es : List ClientRandom) (t n : ℕ) → t ≤ n → Sorted es t → Sorted es n
Sorted-le [] t n q p = tt
Sorted-le (e ∷ es) t n q (a, l, p) = (a, omega arith, Sorted-le es t n q p)

-- The entry is still there, or it is two days old and all that are there came after it.
pub record Remembers (e : ClientRandom) (n : ℕ) (u : Cache) : Type 0 where
  pub cache : IsCache u
  pub sorted : Sorted u.by_time n
  pub kept :
      (Holds e u.by_time) ⊎ ((From e.time u.by_time) × (e.time + max_client_random_cache_time ≤ n))

pub Remembers-start :
    (t : ℕ) (random : Bytes) (s : Cache)
    → IsCache s
    → Sorted s.by_time t
    → Remembers
        (record { address = s.allocated; random = random; time = t })
        t
        (add_client_random t random s)
unfolding add_client_random
Remembers-start t random s c sorted =
    let entry : ClientRandom = record { address = s.allocated; random = random; time = t } in
    record {
      cache = add-IsCache t random s c;
      sorted = Sorted-append s.by_time entry t sorted (omega arith);
      kept = inl (Holds-append s.by_time entry);
    }

Remembers-add :
    (e : ClientRandom) (n m : ℕ) (u : Cache) (random : Bytes)
    → Remembers e n u
    → n ≤ m
    → Remembers e m (add_client_random m random u)
unfolding add_client_random
Remembers-add e n m u random r q =
    let entry : ClientRandom = record { address = u.allocated; random = random; time = m } in
    record {
      cache = add-IsCache m random u r.cache;
      sorted = Sorted-append u.by_time entry n r.sorted q;
      kept = elim r.kept [
        | inl here ↦ inl (Holds-kept u.by_time entry e here)
        | inr (after, old) ↦
            inr (From-append e.time u.by_time entry after (omega arith), omega arith)
      ];
    }

Remembers-delete :
    (e : ClientRandom) (n m : ℕ) (u v : Cache)
    → Remembers e n u
    → n ≤ m
    → delete_old_client_randoms m u ≡ ok v
    → Remembers e m v
unfolding delete_old_client_randoms
Remembers-delete e n m u v r q d =
    elim (delete_loop-Left m u.allocated u.by_time u.client_randoms r.cache.ordered
      r.cache.chains) [
        | ended (left, chains) f l ↦
            let w : Cache = record u { client_randoms = chains; by_time = left } in
            let same : w ≡ v = ok-eq (ground (arith, f, d)) in
            let ordered = Sorted-le u.by_time n m q r.sorted in
            subst (Remembers e m) same (record {
              cache = record { chains = l.kept_chains; ordered = l.kept_order };
              sorted = l.sorted m ordered;
              kept = elim r.kept [
                | inl here ↦ l.old e m here ordered
                | inr (after, old) ↦ inr (l.later e.time after, omega arith)
              ];
            })
      ]

pub Later-Remembers :
    (e : ClientRandom) (t : ℕ) (s : Cache) (n : ℕ) (u : Cache)
    → Remembers e t s
    → Later t s n u
    → Remembers e n u
Later-Remembers e t s n u r at_once = r
Later-Remembers e t s n u r (added m _ v random before q) =
    Remembers-add e m n v random (Later-Remembers e t s m v r before) q
Later-Remembers e t s n u r (deleted m _ v _ before q d) =
    Remembers-delete e m n v u (Later-Remembers e t s m v r before) q d

behind_first-forgotten :
    (es : List ClientRandom) (a n timestamp : ℕ)
    → n < 2 ^ 31 - 3
    → timestamp < 2 ^ 32
    → int_lt ((a + 3) % 2 ^ 32) timestamp ≡ false
    → From a es
    → Sorted es n
    → behind_first es timestamp ≡ false
behind_first-forgotten [] a n timestamp b w e p q = refl
behind_first-forgotten (x ∷ xs) a n timestamp b w e (p, ps) (q, l, qs) = ground arith

-- An entry that was forgotten does not let its timestamp pass any more.
pub forgotten-refused :
    (e : ClientRandom) (n timestamp : ℕ) (u : Cache)
    → n < 2 ^ 31 - 3
    → timestamp < 2 ^ 32
    → int_lt ((e.time + 3) % 2 ^ 32) timestamp ≡ false
    → From e.time u.by_time
    → Sorted u.by_time n
    → e.time + max_client_random_cache_time ≤ n
    → is_allowed_timestamp n timestamp u ≡ false
unfolding is_allowed_timestamp
forgotten-refused e n timestamp u bound w ok_then after sorted old =
    let behind = behind_first-forgotten u.by_time e.time n timestamp bound w ok_then after sorted in
    ground (arith, behind)

-- A client hello that came at time t, whose random was added, and whose timestamp was allowed then by
-- some cache v, is refused at any later time n before 2 ^ 31 - 3: either its random is still found, or
-- its timestamp is not allowed any more, whatever has been added and deleted in between.
pub is_allowed_timestamp-replay :
    (t : ℕ) (random : Bytes) (timestamp : ℕ) (s v : Cache) (n : ℕ) (u : Cache)
    → IsCache s
    → Sorted s.by_time t
    → timestamp < 2 ^ 32
    → is_allowed_timestamp t timestamp v ≡ true
    → Later t (add_client_random t random s) n u
    → n < 2 ^ 31 - 3
    → (have_client_random random u ≡ true) ⊎ (is_allowed_timestamp n timestamp u ≡ false)
unfolding is_allowed_timestamp
is_allowed_timestamp-replay t random timestamp s v n u c sorted w allowed history bound =
    let entry : ClientRandom = record { address = s.allocated; random = random; time = t } in
    let r =
      Later-Remembers entry t (add_client_random t random s) n u
        (Remembers-start t random s c sorted) history in
    let in_time : int_lt ((t + 3) % 2 ^ 32) timestamp ≡ false = ground (arith, allowed) in
    elim r.kept [
      | inl here ↦ inl (have_client_random-Holds u entry r.cache here)
      | inr (after, old) ↦
          inr (forgotten-refused entry n timestamp u bound w in_time after r.sorted old)
    ]

-- A cache that has only entries from time a on has no older ones after the next hello.
pub From-next :
    (a n : ℕ) (random : Bytes) (u v : Cache)
    → IsCache u
    → Sorted u.by_time n
    → From a u.by_time
    → a ≤ n
    → delete_old_client_randoms n (add_client_random n random u) ≡ ok v
    → (From a v.by_time) × (Sorted v.by_time n)
unfolding add_client_random delete_old_client_randoms
From-next a n random u v c sorted from p d =
    let w = add_client_random n random u in
    let k = add-IsCache n random u c in
    let entry : ClientRandom = record { address = u.allocated; random = random; time = n } in
    elim (delete_loop-Left n w.allocated w.by_time w.client_randoms k.ordered k.chains) [
      | ended (left, chains) f l ↦
          let x : Cache = record w { client_randoms = chains; by_time = left } in
          let same : x ≡ v = ok-eq (ground (arith, f, d)) in
          subst (λ (z : Cache). (From a z.by_time) × (Sorted z.by_time n)) same
            (
              l.later a (From-append a u.by_time entry from p),
              l.sorted n (Sorted-append u.by_time entry n sorted (omega arith)),
            )
    ]

-- What goes on from a later cache goes on from the first one.
pub Later-trans :
    {t m : ℕ} {s u : Cache} {n : ℕ} {v : Cache} → Later t s m u → Later m u n v → Later t s n v
Later-trans first at_once = first
Later-trans first (added a b u random before q) = added a b u random (Later-trans first before) q
Later-trans first (deleted a b u v before q d) = deleted a b u v (Later-trans first before) q d
