-- ===== src/Secrets.antt =====
-- How c-original/mtproto/mtproto-proxy.c counts, for each secret, the authorization keys and the
-- clients that are connected with it: the hash tables of struct secret_device_ref and struct
-- secret_client_ref, and mtfront_track_ and mtfront_untrack_ for both.
--
-- A chain of a hash table is a list of its entries, from the head on. An `int` or `long long` is its
-- bit pattern. The counters of an entry and of a secret do not reach 2 ^ 31: they count connections.
pub mod Chains
mod ChainEdits
pub mod Sums
mod Tables
pub mod Tracking
mod Clients
pub mod Pool
mod Tests
use Prim.Native.Nat.{bit_xor}
use mtproxy.Prelude.{
  ℕ, zero, suc, ◌+◌, ◌-◌, ◌*◌, ◌^◌, ◌%◌, Bool, true, false, Option, none, some, List, [], ◌∷◌, ◌++◌,
  ltb, leb, ◌==◌, ◌&&◌, ◌||◌, not, if◌then◌else◌,
}
use mtproxy.Prelude.Bytes.{Bytes, same_bytes}
use mtproxy.Prelude.Run.{Run, ok, abort, assert, ◌>>=◌, ◌>>◌}

abbrev pub max_mtfront_secrets : ℕ
max_mtfront_secrets = 128

abbrev pub secret_device_hash_size : ℕ
secret_device_hash_size = 2 ^ 14

-- secret_auth_key_hash
unfoldable pub secret_auth_key_hash : ℕ → ℕ → ℕ
secret_auth_key_hash secret_id auth_key_id =
    (secret_id * 11400714819323198485 + auth_key_id * 13043817825332782213)
    % 2 ^ 64
    % secret_device_hash_size

unfoldable pub hash_bytes : ℕ → Bytes → ℕ
hash_bytes h [] = h
hash_bytes h (b ∷ bs) = hash_bytes (bit_xor h b * 1099511628211 % 2 ^ 64) bs

-- secret_client_hash
unfoldable pub secret_client_hash : ℕ → Bytes → ℕ
unfolding hash_bytes
secret_client_hash secret_id client_ipv6 =
    hash_bytes (secret_id * 1469598103934665603 % 2 ^ 64) client_ipv6 % secret_device_hash_size

-- struct secret_device_ref (the key is auth_key_id) and struct secret_client_ref (client_ipv6)
pub record SecretRef (K : Type 0) : Type 0 where
  pub secret_id : ℕ
  pub key : K
  pub connections : ℕ

-- A hash table, and the counters of active keys per secret.
pub record Table (K : Type 0) : Type 0 where
  pub chains : ℕ → List (SecretRef K)
  pub active : ℕ → ℕ

-- What struct ext_connection keeps of the tracking.
pub record Ext : Type 0 where
  pub tracked_auth_key_id : ℕ
  pub tracked_auth_secret_id : ℕ
  pub tracked_client_secret_id : ℕ
  pub tracked_client_valid : Bool
  pub tracked_client_ipv6 : Bytes

-- secret_id < 0 || secret_id >= MAX_MTFRONT_SECRETS, for the pattern of an int
abbrev pub secret_out_of_range : ℕ → Bool
secret_out_of_range secret_id = leb (2 ^ 31) secret_id || leb max_mtfront_secrets secret_id

module _ {K : Type 0} (same : K → K → Bool) where
  abbrev pub is_ref : SecretRef K → ℕ → K → Bool
  is_ref r secret_id key = r.secret_id == secret_id && same r.key key

  -- The entry that the search stops at; `none` is the end of the chain.
  unfoldable pub find_ref : List (SecretRef K) → ℕ → K → Option (SecretRef K)
  find_ref [] secret_id key = none
  find_ref (r ∷ rs) secret_id key =
      let rest = find_ref rs secret_id key in if is_ref r secret_id key then some r else rest

  -- ref->connections = n, for the entry that the search stops at
  unfoldable pub set_connections : List (SecretRef K) → ℕ → K → ℕ → List (SecretRef K)
  set_connections [] secret_id key n = []
  set_connections (r ∷ rs) secret_id key n =
      let rest = set_connections rs secret_id key n in
      if is_ref r secret_id key then record r { connections = n } ∷ rs else r ∷ rest

  -- *ref_ptr = ref->next
  unfoldable pub unlink_ref : List (SecretRef K) → ℕ → K → List (SecretRef K)
  unlink_ref [] secret_id key = []
  unlink_ref (r ∷ rs) secret_id key =
      let rest = unlink_ref rs secret_id key in if is_ref r secret_id key then rs else r ∷ rest

-- The bucket h, and the counter of secret s, set anew.
abbrev pub set_chain : {K : Type 0} → Table K → ℕ → List (SecretRef K) → Table K
set_chain t h c = record t { chains = λ i. if i == h then c else t.chains i }

abbrev pub set_active : {K : Type 0} → Table K → ℕ → ℕ → Table K
set_active t s n = record t { active = λ i. if i == s then n else t.active i }

module _ {K : Type 0} (same : K → K → Bool) (hash : ℕ → K → ℕ) where
  -- The entry that get_secret_auth_key_ref_ptr and get_secret_client_ref_ptr lead to.
  unfoldable pub get_ref : Table K → ℕ → K → Option (SecretRef K)
  get_ref t secret_id key = find_ref same (t.chains (hash secret_id key)) secret_id key

  -- What both untrack functions do with the table.
  unfoldable pub release : Table K → ℕ → K → Run (Table K)
  release t secret_id key =
      let h = hash secret_id key in
      let c = t.chains h in
      elim (get_ref t secret_id key) [
        | none ↦ ok t
        | some r ↦ do
          assert (ltb 0 r.connections)
          (if r.connections - 1 == 0
              then (do
                let u = set_chain t h (unlink_ref same c secret_id key)
                assert (ltb 0 (u.active secret_id))
                ok (set_active u secret_id (u.active secret_id - 1)))
              else ok (set_chain t h (set_connections same c secret_id key (r.connections - 1))))
      ]

  -- What both track functions do with the table: a new entry goes to the end of its chain.
  unfoldable pub acquire : Table K → ℕ → K → Table K
  acquire t secret_id key =
      let h = hash secret_id key in
      let c = t.chains h in
      elim (get_ref t secret_id key) [
        | none ↦
            let fresh = c ++ record { secret_id = secret_id; key = key; connections = 0 } ∷ [] in
            set_active (set_chain t h (set_connections same fresh secret_id key 1)) secret_id
              (t.active secret_id + 1)
        | some r ↦ set_chain t h (set_connections same c secret_id key (r.connections + 1))
      ]

unfoldable pub mtfront_untrack_secret_auth_key : Ext → Table ℕ → Run (Ext × Table ℕ)
mtfront_untrack_secret_auth_key ex t =
    let secret_id = ex.tracked_auth_secret_id in
    let auth_key_id = ex.tracked_auth_key_id in
    let cleared = record ex { tracked_auth_secret_id = 0; tracked_auth_key_id = 0 } in
    if auth_key_id == 0
    then ok (ex, t)
    else if secret_out_of_range secret_id
    then ok (cleared, t)
    else (do u ← release ◌==◌ secret_auth_key_hash t secret_id auth_key_id; ok (cleared, u))

unfoldable pub mtfront_track_secret_auth_key : Ext → ℕ → ℕ → Table ℕ → Run (Ext × Table ℕ)
mtfront_track_secret_auth_key ex secret_id auth_key_id t =
    if ex.tracked_auth_key_id == auth_key_id && ex.tracked_auth_secret_id == secret_id
    then ok (ex, t)
    else (do
      (free, u) ← mtfront_untrack_secret_auth_key ex t
      (if secret_out_of_range secret_id || auth_key_id == 0
          then ok (free, u)
          else ok (
            record free { tracked_auth_secret_id = secret_id; tracked_auth_key_id = auth_key_id },
            acquire ◌==◌ secret_auth_key_hash u secret_id auth_key_id,
          )))

abbrev pub zero_ipv6 : Bytes
zero_ipv6 = 0 ∷ 0 ∷ 0 ∷ 0 ∷ 0 ∷ 0 ∷ 0 ∷ 0 ∷ 0 ∷ 0 ∷ 0 ∷ 0 ∷ 0 ∷ 0 ∷ 0 ∷ 0 ∷ []

unfoldable pub mtfront_untrack_secret_client : Ext → Table Bytes → Run (Ext × Table Bytes)
mtfront_untrack_secret_client ex t =
    let secret_id = ex.tracked_client_secret_id in
    let client_ipv6 = ex.tracked_client_ipv6 in
    let cleared = record ex {
      tracked_client_secret_id = 0;
      tracked_client_valid = false;
      tracked_client_ipv6 = zero_ipv6;
    } in
    if not ex.tracked_client_valid
    then ok (ex, t)
    else if secret_out_of_range secret_id
    then ok (cleared, t)
    else (do u ← release same_bytes secret_client_hash t secret_id client_ipv6; ok (cleared, u))

-- The address is what mtfront_extract_client_ipv6 gives for the connection.
unfoldable pub mtfront_track_secret_client : Bytes → Ext → ℕ → Table Bytes → Run (Ext × Table Bytes)
mtfront_track_secret_client client_ipv6 ex secret_id t =
    if secret_out_of_range secret_id
    then mtfront_untrack_secret_client ex t
    else if ex.tracked_client_valid
        && (ex.tracked_client_secret_id == secret_id
            && same_bytes ex.tracked_client_ipv6 client_ipv6)
    then ok (ex, t)
    else (do
      (free, u) ← mtfront_untrack_secret_client ex t
      ok (
        record free {
          tracked_client_secret_id = secret_id;
          tracked_client_valid = true;
          tracked_client_ipv6 = client_ipv6;
        },
        acquire same_bytes secret_client_hash u secret_id client_ipv6,
      ))
