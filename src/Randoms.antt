-- ===== src/Randoms.antt =====
-- The cache of client randoms, by which c-original/net/net-tcp-rpc-ext-server.c refuses a client hello
-- that it has seen.
--
-- The list by_time goes from first_client_random to last_client_random along next_by_time, and a chain
-- goes from the head of its bucket along next_by_hash. An entry has its address; malloc gives a new one
-- each time. Times are numbers of seconds.
mod Chains
pub mod Replay
pub mod History
mod Tests
use mtproxy.Prelude.{
  ℕ, zero, suc, ◌+◌, ◌-◌, ◌*◌, ◌^◌, ◌%◌, Bool, true, false, Option, none, some, List, [], ◌∷◌, ◌++◌,
  ltb, leb, ◌==◌, not, if◌then◌else◌, drop, get_or,
}
use mtproxy.Prelude.Bytes.{Bytes, same_bytes}
use mtproxy.Prelude.Int.{int_lt}
use mtproxy.Prelude.Run.{Run, ok, abort, assert, ◌>>=◌, ◌>>◌}

-- struct client_random
pub record ClientRandom : Type 0 where
  pub address : ℕ
  pub random : Bytes
  pub time : ℕ

-- client_randoms, the list from first_client_random to last_client_random, and the next address.
pub record Cache : Type 0 where
  pub client_randoms : ℕ → List ClientRandom
  pub by_time : List ClientRandom
  pub allocated : ℕ

-- The cache at the start
abbrev pub no_client_randoms : Cache
no_client_randoms = record { client_randoms = λ h. []; by_time = []; allocated = 0 }

abbrev pub random_hash_bits : ℕ
random_hash_bits = 14

abbrev pub max_client_random_cache_time : ℕ
max_client_random_cache_time = 2 * 86400

-- The loop of get_client_random_bucket; each round takes a byte, so that there are at most as many
-- rounds as bits.
unfoldable pub bucket_loop : ℕ → ℕ → Bytes → ℕ → ℕ
bucket_loop zero i random id = id
bucket_loop (suc k) i random id =
    let bits = if ltb i 8 then i else 8 in
    let rest =
      bucket_loop k (i - bits) (drop 1 random) (id * 2 ^ bits + get_or random 0 0 % 2 ^ bits) in
    if i == 0 then id else rest

unfoldable pub get_client_random_bucket : Bytes → ℕ
unfolding bucket_loop
get_client_random_bucket random = bucket_loop random_hash_bits random_hash_bits random 0

unfoldable pub has_random : List ClientRandom → Bytes → Bool
has_random [] random = false
has_random (e ∷ es) random =
    let rest = has_random es random in if same_bytes random e.random then true else rest

unfoldable pub have_client_random : Bytes → Cache → Bool
unfolding has_random
have_client_random random s = has_random (s.client_randoms (get_client_random_bucket random)) random

unfoldable pub add_client_random : ℕ → Bytes → Cache → Cache
add_client_random now random s =
    let entry : ClientRandom = record { address = s.allocated; random = random; time = now } in
    let bucket = get_client_random_bucket random in
    record {
      client_randoms = λ h. if h == bucket then entry ∷ s.client_randoms h else s.client_randoms h;
      by_time = s.by_time ++ entry ∷ [];
      allocated = s.allocated + 1;
    }

-- What hangs on the entry by next_by_hash.
unfoldable pub next_by_hash : List ClientRandom → ℕ → List ClientRandom
next_by_hash [] address = []
next_by_hash (e ∷ es) address =
    let rest = next_by_hash es address in if e.address == address then es else rest

abbrev pub is_empty : List ClientRandom → Bool
is_empty [] = true
is_empty (e ∷ es) = false

-- The search for the link to the entry, which is then NULL. At the end of a chain it would read
-- through NULL.
unfoldable pub cut_chain : List ClientRandom → ℕ → Run (List ClientRandom)
cut_chain [] address = abort
cut_chain (e ∷ es) address =
    let rest = cut_chain es address in
    if e.address == address then ok [] else (do cut ← rest; ok (e ∷ cut))

-- The loop of delete_old_client_randoms, which leaves the last entry.
unfoldable pub delete_loop :
    ℕ
    → List ClientRandom
    → (ℕ → List ClientRandom)
    → Run (List ClientRandom × (ℕ → List ClientRandom))
delete_loop now [] chains = ok ([], chains)
delete_loop now (e ∷ []) chains = ok (e ∷ [], chains)
delete_loop now (e ∷ f ∷ es) chains =
    let bucket = get_client_random_bucket e.random in
    let rest = λ (cut : List ClientRandom).
      delete_loop now (f ∷ es) (λ h. if h == bucket then cut else chains h) in
    if ltb now (e.time + max_client_random_cache_time) then ok (e ∷ f ∷ es, chains) else (do
      assert (is_empty (next_by_hash (chains bucket) e.address))
      cut ← cut_chain (chains bucket) e.address
      rest cut)

unfoldable pub delete_old_client_randoms : ℕ → Cache → Run Cache
unfolding delete_loop
delete_old_client_randoms now s = do
  (kept, chains) ← delete_loop now s.by_time s.client_randoms
  ok (record s { client_randoms = chains; by_time = kept })

-- first_client_random != NULL && timestamp > first_client_random->time + 3
abbrev pub behind_first : List ClientRandom → ℕ → Bool
behind_first [] timestamp = false
behind_first (e ∷ es) timestamp = int_lt ((e.time + 3) % 2 ^ 32) timestamp

-- The timestamp is the pattern of an int.
unfoldable pub is_allowed_timestamp : ℕ → ℕ → Cache → Bool
is_allowed_timestamp now timestamp s =
    if int_lt ((now + 3) % 2 ^ 32) timestamp
    then false
    else if behind_first s.by_time timestamp
    then true
    else int_lt ((now + 2 ^ 32 - 10 * 60) % 2 ^ 32) timestamp
