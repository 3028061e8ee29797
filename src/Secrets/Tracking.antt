-- ===== src/Secrets/Tracking.antt =====
-- mtfront_track_ and mtfront_untrack_ of c-original/mtproto/mtproto-proxy.c: what they do to the number
-- of connections that a key has.
use mtproxy.Prelude.{
  ℕ, ◌+◌, ◌<◌, ◌≤◌, ◌≡◌, refl, Bool, true, ◌==◌, ◌&&◌, ◌||◌, not, if◌then◌else◌, arith, Bool-cases,
  inl, inr,
}
use mtproxy.Prelude.Bytes.{same_bytes, Bytes}
use mtproxy.Prelude.Run.{Returns, ended}
use mtproxy.Secrets.{
  Table, Ext, secret_out_of_range, secret_auth_key_hash, secret_client_hash, release, acquire,
  secret_device_hash_size, mtfront_track_secret_auth_key, mtfront_untrack_secret_auth_key,
}
use mtproxy.Secrets.Tables.{IsTable, connections_at, unit_at, release_lem, acquire_lem}

pub ==_sound : (a b : ℕ) → (a == b) ≡ true → a ≡ b
==_sound a b e = ground arith

pub ==_reflexive : (a : ℕ) → (a == a) ≡ true
==_reflexive a = ground arith

pub secret_auth_key_hash-lt : (s k : ℕ) → secret_auth_key_hash s k < secret_device_hash_size
unfolding secret_auth_key_hash
secret_auth_key_hash-lt s k = omega arith

pub secret_client_hash-lt : (s : ℕ) (k : Bytes) → secret_client_hash s k < secret_device_hash_size
unfolding secret_client_hash
secret_client_hash-lt s k = omega arith

module _ {K : Type 0} (same : K → K → Bool) (hash : ℕ → K → ℕ)
    (sound : (a b : K) → same a b ≡ true → a ≡ b) (reflexive : (a : K) → same a a ≡ true)
    (hash_lt : (s : ℕ) (k : K) → hash s k < secret_device_hash_size) where
  -- From t to u a key loses the connections that f gives and wins those that g gives.
  pub record IsBalanced (t u : Table K) (f g : ℕ → K → ℕ) : Type 0 where
    pub table : IsTable same hash u
    pub balance :
        (s : ℕ) (k : K)
        → connections_at same hash u s k + f s k ≡ connections_at same hash t s k + g s k

  pub release-IsBalanced :
      (t : Table K) (s : ℕ) (k : K)
      → IsTable same hash t
      → ((s' : ℕ) (k' : K) → unit_at same s k s' k' ≤ connections_at same hash t s' k')
      → Returns (λ u. IsBalanced t u (unit_at same s k) (λ s' k'. 0)) (release same hash t s k)
  release-IsBalanced t s k h counted =
      elim (release_lem same hash sound reflexive hash_lt t s k h
        (ground (arith, counted s k, reflexive k))) [
          | ended u e (table, moved) ↦
              ended u e (record { table = table; balance = λ s' k'. omega (arith, moved s' k') })
        ]

-- How often the connection is counted for a key: once or not at all.
abbrev pub tracks_auth_key : Ext → ℕ → ℕ → ℕ
tracks_auth_key ex s k =
    if ex.tracked_auth_key_id == 0
    then 0
    else if secret_out_of_range ex.tracked_auth_secret_id
    then 0
    else unit_at ◌==◌ ex.tracked_auth_secret_id ex.tracked_auth_key_id s k

abbrev pub tracks_client : Ext → ℕ → Bytes → ℕ
tracks_client ex s k =
    if not ex.tracked_client_valid
    then 0
    else if secret_out_of_range ex.tracked_client_secret_id
    then 0
    else unit_at same_bytes ex.tracked_client_secret_id ex.tracked_client_ipv6 s k

abbrev pub AuthTable : Table ℕ → Type 0
AuthTable = IsTable ◌==◌ secret_auth_key_hash

abbrev pub auth_connections : Table ℕ → ℕ → ℕ → ℕ
auth_connections = connections_at ◌==◌ secret_auth_key_hash

-- The table moves on with the connection from ex to ex'; the client it is counted for stays.
pub record IsAuthStep (ex : Ext) (t : Table ℕ) (r : Ext × Table ℕ) : Type 0 where
  pub table : AuthTable r.1
  pub balance :
      (s k : ℕ)
      → auth_connections r.1 s k + tracks_auth_key ex s k
        ≡ auth_connections t s k + tracks_auth_key r.0 s k
  pub client : (s : ℕ) (k : Bytes) → tracks_client r.0 s k ≡ tracks_client ex s k

-- What the connection is to be counted for.
abbrev pub asked_auth_key : ℕ → ℕ → ℕ → ℕ → ℕ
asked_auth_key secret_id auth_key_id s k =
    if secret_out_of_range secret_id || auth_key_id == 0
    then 0
    else unit_at ◌==◌ secret_id auth_key_id s k

module _ (ex : Ext) (t : Table ℕ) (h : AuthTable t)
    (counted : (s k : ℕ) → tracks_auth_key ex s k ≤ auth_connections t s k) where
  pub mtfront_untrack_secret_auth_key_lem :
      Returns
        (λ r. IsAuthStep ex t r × (r.0.tracked_auth_key_id ≡ 0))
        (mtfront_untrack_secret_auth_key ex t)
  unfolding mtfront_untrack_secret_auth_key
  mtfront_untrack_secret_auth_key_lem =
      let sid = ex.tracked_auth_secret_id in
      let key = ex.tracked_auth_key_id in
      elim (Bool-cases (key == 0)) [
        | inl idle ↦
            ended (ex, t) (ground (arith, idle))
              (
                record { table = h; balance = λ s k. refl; client = λ s k. refl },
                ground (arith, idle),
              )
        | inr busy ↦ elim (Bool-cases (secret_out_of_range sid)) [
          | inl wrong ↦
              ended (record ex { tracked_auth_secret_id = 0; tracked_auth_key_id = 0 }, t)
                (ground (arith, busy, wrong))
                (
                  record {
                    table = h;
                    balance = λ s k. ground (arith, busy, wrong);
                    client = λ s k. refl;
                  },
                  refl,
                )
          | inr right ↦
              elim (release-IsBalanced ◌==◌ secret_auth_key_hash ==_sound ==_reflexive
                secret_auth_key_hash-lt t sid key h
                (λ s k. ground (arith, busy, right, counted s k))) [
                  | ended u e b ↦
                      ended (record ex { tracked_auth_secret_id = 0; tracked_auth_key_id = 0 }, u)
                        (ground (arith, busy, right, e))
                        (
                          record {
                            table = b.table;
                            balance = λ s k. ground (arith, busy, right, b.balance s k);
                            client = λ s k. refl;
                          },
                          refl,
                        )
                ]
        ]
      ]

  pub mtfront_track_secret_auth_key_lem :
      (secret_id auth_key_id : ℕ)
      → Returns
          (λ r.
            IsAuthStep ex t r
            × ((s k : ℕ) → tracks_auth_key r.0 s k ≡ asked_auth_key secret_id auth_key_id s k))
          (mtfront_track_secret_auth_key ex secret_id auth_key_id t)
  unfolding mtfront_track_secret_auth_key
  mtfront_track_secret_auth_key_lem secret_id auth_key_id =
      elim (Bool-cases
        (ex.tracked_auth_key_id == auth_key_id && ex.tracked_auth_secret_id == secret_id)) [
          | inl already ↦
              ended (ex, t) (ground (arith, already))
                (
                  record { table = h; balance = λ s k. refl; client = λ s k. refl },
                  λ s k. ground (arith, already),
                )
          | inr changed ↦ elim mtfront_untrack_secret_auth_key_lem [
            | ended (free, u) e (step, idle) ↦
                elim (Bool-cases (secret_out_of_range secret_id || auth_key_id == 0)) [
                  | inl nothing ↦
                      ended (free, u) (ground (arith, changed, e, nothing))
                        (step, λ s k. ground (arith, idle, nothing))
                  | inr wanted ↦
                      let (table, moved) =
                        acquire_lem ◌==◌ secret_auth_key_hash ==_sound ==_reflexive
                          secret_auth_key_hash-lt u secret_id auth_key_id step.table in
                      ended
                        (
                          record free {
                            tracked_auth_secret_id = secret_id;
                            tracked_auth_key_id = auth_key_id;
                          },
                          acquire ◌==◌ secret_auth_key_hash u secret_id auth_key_id,
                        )
                        (ground (arith, changed, e, wanted))
                        (
                          record {
                            table = table;
                            balance =
                                λ s k. ground (arith, moved s k, step.balance s k, idle, wanted);
                            client = step.client;
                          },
                          λ s k. ground (arith, wanted),
                        )
                ]
          ]
        ]
