-- ===== src/Randoms/Chains.antt =====
-- The chains of the cache in c-original/net/net-tcp-rpc-ext-server.c: each has the entries of its
-- bucket, the newest one first.
use mtproxy.Prelude.{
  ℕ, ◌<◌, ◌≡◌, refl, true, false, List, [], ◌∷◌, ◌++◌, ◌==◌, if◌then◌else◌, arith, Bool-cases, inl,
  inr, ◌⊎◌, subst,
}
use mtproxy.Prelude.Bytes.{Bytes, same_bytes_reflexive}
use mtproxy.Prelude.Run.{ok}
use mtproxy.Randoms.{ClientRandom, get_client_random_bucket, has_random, next_by_hash, cut_chain}

-- The chain of the bucket h, from the entries by time.
unfoldable pub chain_of : ℕ → List ClientRandom → List ClientRandom
chain_of h [] = []
chain_of h (e ∷ es) =
    let rest = chain_of h es in
    if get_client_random_bucket e.random == h then rest ++ e ∷ [] else rest

-- Every address in the list is larger.
abbrev pub Above : ℕ → List ClientRandom → Type 0
Above a [] = Unit {0}
Above a (e ∷ es) = (a < e.address) × (Above a es)

-- The entry is in the list.
abbrev pub Holds : ClientRandom → List ClientRandom → Type 0
Holds e [] = ⊥
Holds e (x ∷ xs) = (e ≡ x) ⊎ (Holds e xs)

pub Above-append :
    (a : ℕ) (xs : List ClientRandom) (e : ClientRandom)
    → Above a xs
    → a < e.address
    → Above a (xs ++ e ∷ [])
Above-append a [] e p q = (q, tt)
Above-append a (x ∷ xs) e (p, ps) q = (p, Above-append a xs e ps q)

Above-chain_of : (h a : ℕ) (es : List ClientRandom) → Above a es → Above a (chain_of h es)
unfolding chain_of
Above-chain_of h a [] p = tt
Above-chain_of h a (e ∷ es) (p, ps) = elim (Bool-cases (get_client_random_bucket e.random == h)) [
  | inl here ↦ rw here (Above-append a (chain_of h es) e (Above-chain_of h a es ps) p)
  | inr there ↦ rw there (Above-chain_of h a es ps)
]

-- The oldest entry stands at the end of its chain.
cut_chain-last :
    (xs : List ClientRandom) (e : ClientRandom)
    → Above e.address xs
    → cut_chain (xs ++ e ∷ []) e.address ≡ ok xs
unfolding cut_chain
cut_chain-last [] e p = ground arith
cut_chain-last (x ∷ xs) e (p, ps) = ground (arith, cut_chain-last xs e ps)

next_by_hash-last :
    (xs : List ClientRandom) (e : ClientRandom)
    → Above e.address xs
    → next_by_hash (xs ++ e ∷ []) e.address ≡ []
unfolding next_by_hash
next_by_hash-last [] e p = ground arith
next_by_hash-last (x ∷ xs) e (p, ps) = ground (arith, next_by_hash-last xs e ps)

pub chain_of-append :
    (h : ℕ) (es : List ClientRandom) (x : ClientRandom)
    → chain_of h (es ++ x ∷ [])
      ≡ (if get_client_random_bucket x.random == h then x ∷ chain_of h es else chain_of h es)
unfolding chain_of
chain_of-append h [] x = ground arith
chain_of-append h (e ∷ es) x = elim (Bool-cases (get_client_random_bucket x.random == h)) [
  | inl hit ↦ ground (arith, hit, chain_of-append h es x)
  | inr miss ↦ ground (arith, miss, chain_of-append h es x)
]

pub cut_chain-oldest :
    (e : ClientRandom) (es : List ClientRandom)
    → Above e.address es
    → cut_chain (chain_of (get_client_random_bucket e.random) (e ∷ es)) e.address
      ≡ ok (chain_of (get_client_random_bucket e.random) es)
unfolding chain_of
cut_chain-oldest e es p =
    let h = get_client_random_bucket e.random in
    ground (arith, cut_chain-last (chain_of h es) e (Above-chain_of h e.address es p))

pub next_by_hash-oldest :
    (e : ClientRandom) (es : List ClientRandom)
    → Above e.address es
    → next_by_hash (chain_of (get_client_random_bucket e.random) (e ∷ es)) e.address ≡ []
unfolding chain_of
next_by_hash-oldest e es p =
    let h = get_client_random_bucket e.random in
    ground (arith, next_by_hash-last (chain_of h es) e (Above-chain_of h e.address es p))

has_random-append :
    (xs ys : List ClientRandom) (r : Bytes)
    → has_random (xs ++ ys) r ≡ (if has_random xs r then true else has_random ys r)
unfolding has_random
has_random-append [] ys r = refl
has_random-append (x ∷ xs) ys r = ground (arith, has_random-append xs ys r)

-- An entry in the list is found in its chain.
pub has_random-Holds :
    (e : ClientRandom) (es : List ClientRandom)
    → Holds e es
    → has_random (chain_of (get_client_random_bucket e.random) es) e.random ≡ true
unfolding chain_of has_random
has_random-Holds e [] h = absurd h
has_random-Holds e (x ∷ xs) (inl same) =
    subst (λ y. has_random (chain_of (get_client_random_bucket e.random) (y ∷ xs)) e.random ≡ true)
      same
      (ground (
        arith,
        has_random-append (chain_of (get_client_random_bucket e.random) xs) (e ∷ []) e.random,
        same_bytes_reflexive e.random,
      ))
has_random-Holds e (x ∷ xs) (inr later) = ground (
  arith,
  has_random-append (chain_of (get_client_random_bucket e.random) xs) (x ∷ []) e.random,
  has_random-Holds e xs later,
)

-- The other chains do without the entry.
pub chain_of-other :
    (h : ℕ) (e : ClientRandom) (es : List ClientRandom)
    → (h == get_client_random_bucket e.random) ≡ false
    → chain_of h (e ∷ es) ≡ chain_of h es
unfolding chain_of
chain_of-other h e es d = ground (arith, d)
