-- ===== src/Randoms/Replay.antt =====
-- That c-original/net/net-tcp-rpc-ext-server.c remembers the client randoms that it has to.
use mtproxy.Prelude.{
  ◌≤◌, ◌⊎◌, ◌||◌, subst, ℕ, ◌+◌, ◌<◌, ◌≡◌, refl, ◌∙◌, true, List, [], ◌∷◌, ◌++◌, ltb, ◌==◌,
  if◌then◌else◌, arith, Bool-cases, inl, inr, ap, sym,
}
use mtproxy.Prelude.Bytes.{Bytes, same_bytes, same_bytes_sound}
use mtproxy.Prelude.Run.{Returns, ended, returns}
use mtproxy.Randoms.{
  ClientRandom, Cache, no_client_randoms, get_client_random_bucket, has_random, have_client_random,
  add_client_random, delete_loop, delete_old_client_randoms, max_client_random_cache_time,
  next_by_hash, cut_chain,
}
use mtproxy.Randoms.Chains.{
  chain_of, Above, Above-append, Holds, chain_of-append, cut_chain-oldest, next_by_hash-oldest,
  has_random-Holds, chain_of-other,
}

-- The addresses go up along the list, below the next one.
abbrev pub Ordered : List ClientRandom → ℕ → Type 0
Ordered [] n = Unit {0}
Ordered (e ∷ es) n = (Above e.address es) × (e.address < n) × (Ordered es n)

-- Every bucket has the entries of the list that belong to it, the newest one first.
pub record IsCache (s : Cache) : Type 0 where
  pub chains : (h : ℕ) → s.client_randoms h ≡ chain_of h s.by_time
  pub ordered : Ordered s.by_time s.allocated

Ordered-append :
    (es : List ClientRandom) (x : ClientRandom)
    → Ordered es x.address
    → Ordered (es ++ x ∷ []) (x.address + 1)
Ordered-append [] x p = (tt, omega arith, tt)
Ordered-append (e ∷ es) x (a, l, p) =
    (Above-append e.address es x a l, omega arith, Ordered-append es x p)

pub no_client_randoms-IsCache : IsCache no_client_randoms
unfolding chain_of
no_client_randoms-IsCache = record { chains = λ h. refl; ordered = tt }

pub Holds-append : (es : List ClientRandom) (x : ClientRandom) → Holds x (es ++ x ∷ [])
Holds-append [] x = inl refl
Holds-append (e ∷ es) x = inr (Holds-append es x)

pub Holds-kept : (es : List ClientRandom) (x e : ClientRandom) → Holds e es → Holds e (es ++ x ∷ [])
Holds-kept [] x e h = absurd h
Holds-kept (y ∷ ys) x e (inl same) = inl same
Holds-kept (y ∷ ys) x e (inr later) = inr (Holds-kept ys x e later)

pub have_client_random-Holds :
    (s : Cache) (e : ClientRandom)
    → IsCache s
    → Holds e s.by_time
    → have_client_random e.random s ≡ true
unfolding have_client_random
have_client_random-Holds s e c h =
    subst (λ z. has_random z e.random ≡ true) (sym (c.chains (get_client_random_bucket e.random)))
      (has_random-Holds e s.by_time h)

pub add-IsCache :
    (now : ℕ) (random : Bytes) (s : Cache) → IsCache s → IsCache (add_client_random now random s)
unfolding add_client_random
add-IsCache now random s c =
    let entry : ClientRandom = record { address = s.allocated; random = random; time = now } in
    record {
      chains = λ i. ground (arith, chain_of-append i s.by_time entry, c.chains i);
      ordered = Ordered-append s.by_time entry c.ordered;
    }

-- After a random is added to a cache, an empty one included, the random is found, and any other is found exactly if it
-- was before; the cache stays well formed, and the new entry is the latest one.
pub add_client_random_lem :
    (now : ℕ) (random r : Bytes) (s : Cache)
    → IsCache s
    → (IsCache (add_client_random now random s))
      × (have_client_random r (add_client_random now random s)
          ≡ (same_bytes r random || have_client_random r s))
      × ((e : ClientRandom) × (e.random ≡ random)
          × (e.time ≡ now)
          × ((add_client_random now random s).by_time ≡ s.by_time ++ e ∷ []))
unfolding add_client_random have_client_random has_random
add_client_random_lem now random r s c =
    let entry : ClientRandom = record { address = s.allocated; random = random; time = now } in
    (
      add-IsCache now random s c,
      elim (Bool-cases (same_bytes r random)) [
        | inl same ↦
            let bucket = ap get_client_random_bucket (same_bytes_sound r random same) in
            ground (arith, same, bucket)
        | inr other ↦ ground (arith, other)
      ],
      (entry, refl, refl, refl),
    )

-- Every time in the list is a or later.
abbrev pub From : ℕ → List ClientRandom → Type 0
From a [] = Unit {0}
From a (e ∷ es) = (a ≤ e.time) × (From a es)

-- The times do not go down along the list, and none is later than t.
abbrev pub Sorted : List ClientRandom → ℕ → Type 0
Sorted [] t = Unit {0}
Sorted (e ∷ es) t = (From e.time es) × (e.time ≤ t) × (Sorted es t)

-- What the loop leaves of the entries es: all that are young.
pub record Left (now n : ℕ) (es : List ClientRandom)
    (r : List ClientRandom × (ℕ → List ClientRandom)) : Type 0 where
  pub kept_chains : (h : ℕ) → r.1 h ≡ chain_of h r.0
  pub kept_order : Ordered r.0 n
  pub young :
      (e : ClientRandom) → Holds e es → now < e.time + max_client_random_cache_time → Holds e r.0
  pub later : (a : ℕ) → From a es → From a r.0
  pub sorted : (t : ℕ) → Sorted es t → Sorted r.0 t
  pub old :
      (e : ClientRandom) (t : ℕ)
      → Holds e es
      → Sorted es t
      → (Holds e r.0) ⊎ ((From e.time r.0) × (e.time + max_client_random_cache_time ≤ now))

pub delete_loop-Left :
    (now n : ℕ) (es : List ClientRandom) (chains : ℕ → List ClientRandom)
    → Ordered es n
    → ((h : ℕ) → chains h ≡ chain_of h es)
    → Returns (Left now n es) (delete_loop now es chains)
unfolding delete_loop
delete_loop-Left now n [] chains o c = returns (record {
  kept_chains = c;
  kept_order = o;
  young = λ e h y. h;
  later = λ a p. p;
  sorted = λ t p. p;
  old = λ x t h p. inl h;
})
delete_loop-Left now n (e ∷ []) chains o c = returns (record {
  kept_chains = c;
  kept_order = o;
  young = λ x h y. h;
  later = λ a p. p;
  sorted = λ t p. p;
  old = λ x t h p. inl h;
})
delete_loop-Left now n (e ∷ f ∷ es) chains (a, l, o) c =
    let bucket = get_client_random_bucket e.random in
    let cut = chain_of bucket (f ∷ es) in
    let last = ap (λ z. next_by_hash z e.address) (c bucket) ∙ next_by_hash-oldest e (f ∷ es) a in
    let found = ap (λ z. cut_chain z e.address) (c bucket) ∙ cut_chain-oldest e (f ∷ es) a in
    elim (Bool-cases (ltb now (e.time + max_client_random_cache_time))) [
      | inl stop ↦
          ended (e ∷ f ∷ es, chains) (ground (arith, stop))
            (record {
              kept_chains = c;
              kept_order = (a, l, o);
              young = λ x h y. h;
              later = λ a p. p;
              sorted = λ t p. p;
              old = λ x t h p. inl h;
            })
      | inr go ↦
          elim (delete_loop-Left now n (f ∷ es) (λ h. if h == bucket then cut else chains h) o
            (λ h. elim (Bool-cases (h == bucket)) [
              | inl here ↦
                  let same : h ≡ bucket = ground arith in
                  rw here (ap (λ i. chain_of i (f ∷ es)) (sym same))
              | inr there ↦ rw there (c h ∙ chain_of-other h e (f ∷ es) there)
            ])) [
              | ended r d k ↦ ended r (ground (arith, go, last, found, d)) (record {
                kept_chains = k.kept_chains;
                kept_order = k.kept_order;
                young = λ x h y. elim h [
                  | inl same ↦ absurd (ground (arith, ap (λ (z : ClientRandom). z.time) same))
                  | inr after ↦ k.young x after y
                ];
                later = λ b (q, qs). k.later b qs;
                sorted = λ t (q, u, qs). k.sorted t qs;
                old = λ x t h (q, u, qs). elim h [
                  | inl same ↦
                      let time = ap (λ (z : ClientRandom). z.time) same in
                      inr (
                        subst (λ z. From z r.0) (sym time) (k.later e.time q),
                        ground (arith, time),
                      )
                  | inr after ↦ k.old x t after qs
                ];
              })
            ]
    ]

-- Deleting the old randoms ends, no assertion of it fails, and the cache stays well formed.
pub delete_old_client_randoms-IsCache :
    (now : ℕ) (s : Cache) → IsCache s → Returns IsCache (delete_old_client_randoms now s)
unfolding delete_old_client_randoms
delete_old_client_randoms-IsCache now s c =
    elim (delete_loop-Left now s.allocated s.by_time s.client_randoms c.ordered c.chains) [
      | ended (kept, chains) e l ↦
          ended (record s { client_randoms = chains; by_time = kept }) (ground (arith, e))
            (record { chains = l.kept_chains; ordered = l.kept_order })
    ]

-- A random that came less than two days ago is still found after the old ones are deleted.
pub delete_old_client_randoms_young :
    (now : ℕ) (s : Cache) (e : ClientRandom)
    → IsCache s
    → Holds e s.by_time
    → now < e.time + max_client_random_cache_time
    → Returns (λ u. have_client_random e.random u ≡ true) (delete_old_client_randoms now s)
unfolding delete_old_client_randoms
delete_old_client_randoms_young now s e c h y =
    elim (delete_loop-Left now s.allocated s.by_time s.client_randoms c.ordered c.chains) [
      | ended (kept, chains) d l ↦
          let u : Cache = record s { client_randoms = chains; by_time = kept } in
          ended u (ground (arith, d)) (
            have_client_random-Holds u e (record { chains = l.kept_chains; ordered = l.kept_order })
              (l.young e h y))
    ]
