-- ===== src/Secrets/Clients.antt =====
-- mtfront_track_secret_client and mtfront_untrack_secret_client of c-original/mtproto/mtproto-proxy.c.
use mtproxy.Prelude.{
  ℕ, ◌+◌, ◌≤◌, ◌≡◌, refl, true, false, ◌==◌, ◌&&◌, if◌then◌else◌, arith, Bool-cases, inl, inr,
}
use mtproxy.Prelude.Bytes.{same_bytes, same_bytes_sound, same_bytes_reflexive, Bytes}
use mtproxy.Prelude.Run.{Returns, ended}
use mtproxy.Secrets.{
  Table, Ext, secret_out_of_range, secret_client_hash, acquire, zero_ipv6,
  mtfront_track_secret_client, mtfront_untrack_secret_client,
}
use mtproxy.Secrets.Tables.{IsTable, connections_at, unit_at, acquire_lem}
use mtproxy.Secrets.Tracking.{
  secret_client_hash-lt, release-IsBalanced, tracks_auth_key, tracks_client,
}

abbrev pub ClientTable : Table Bytes → Type 0
ClientTable = IsTable same_bytes secret_client_hash

abbrev pub client_connections : Table Bytes → ℕ → Bytes → ℕ
client_connections = connections_at same_bytes secret_client_hash

-- The table moves on with the connection from ex to ex'; the key it is counted for stays.
pub record IsClientStep (ex : Ext) (t : Table Bytes) (r : Ext × Table Bytes) : Type 0 where
  pub table : ClientTable r.1
  pub balance :
      (s : ℕ) (k : Bytes)
      → client_connections r.1 s k + tracks_client ex s k
        ≡ client_connections t s k + tracks_client r.0 s k
  pub auth_key : (s k : ℕ) → tracks_auth_key r.0 s k ≡ tracks_auth_key ex s k

-- What the connection is to be counted for.
abbrev pub asked_client : Bytes → ℕ → ℕ → Bytes → ℕ
asked_client client_ipv6 secret_id s k =
    if secret_out_of_range secret_id then 0 else unit_at same_bytes secret_id client_ipv6 s k

module _ (ex : Ext) (t : Table Bytes) (h : ClientTable t)
    (counted : (s : ℕ) (k : Bytes) → tracks_client ex s k ≤ client_connections t s k) where
  abbrev cleared : Ext
  cleared = record ex {
    tracked_client_secret_id = 0;
    tracked_client_valid = false;
    tracked_client_ipv6 = zero_ipv6;
  }

  pub mtfront_untrack_secret_client_lem :
      Returns
        (λ r. IsClientStep ex t r × (r.0.tracked_client_valid ≡ false))
        (mtfront_untrack_secret_client ex t)
  unfolding mtfront_untrack_secret_client
  mtfront_untrack_secret_client_lem =
      let sid = ex.tracked_client_secret_id in
      let ip = ex.tracked_client_ipv6 in
      elim (Bool-cases ex.tracked_client_valid) [
        | inr idle ↦
            ended (ex, t) (ground (arith, idle))
              (record { table = h; balance = λ s k. refl; auth_key = λ s k. refl }, idle)
        | inl busy ↦ elim (Bool-cases (secret_out_of_range sid)) [
          | inl wrong ↦
              ended (cleared, t) (ground (arith, busy, wrong))
                (
                  record {
                    table = h;
                    balance = λ s k. ground (arith, busy, wrong);
                    auth_key = λ s k. refl;
                  },
                  refl,
                )
          | inr right ↦
              elim (release-IsBalanced same_bytes secret_client_hash same_bytes_sound
                same_bytes_reflexive secret_client_hash-lt t sid ip h
                (λ s k. ground (arith, busy, right, counted s k))) [
                  | ended u e b ↦
                      ended (cleared, u) (ground (arith, busy, right, e))
                        (
                          record {
                            table = b.table;
                            balance = λ s k. ground (arith, busy, right, b.balance s k);
                            auth_key = λ s k. refl;
                          },
                          refl,
                        )
                ]
        ]
      ]

  pub mtfront_track_secret_client_lem :
      (client_ipv6 : Bytes) (secret_id : ℕ)
      → Returns
          (λ r.
            IsClientStep ex t r
            × ((s : ℕ) (k : Bytes)
                → tracks_client r.0 s k ≡ asked_client client_ipv6 secret_id s k))
          (mtfront_track_secret_client client_ipv6 ex secret_id t)
  unfolding mtfront_track_secret_client
  mtfront_track_secret_client_lem client_ipv6 secret_id =
      elim (Bool-cases (secret_out_of_range secret_id)) [
        | inl nothing ↦ elim mtfront_untrack_secret_client_lem [
          | ended r e (step, idle) ↦
              ended r (ground (arith, nothing, e)) (step, λ s k. ground (arith, idle, nothing))
        ]
        | inr wanted ↦
            elim (Bool-cases (
              ex.tracked_client_valid
              && (ex.tracked_client_secret_id == secret_id
                  && same_bytes ex.tracked_client_ipv6 client_ipv6))) [
                    | inl already ↦
                        let same : ex.tracked_client_ipv6 ≡ client_ipv6 =
                          same_bytes_sound _ _ (ground (arith, already)) in
                        ended (ex, t) (ground (arith, wanted, already))
                          (
                            record { table = h; balance = λ s k. refl; auth_key = λ s k. refl },
                            λ s k. ground (arith, already, same, wanted),
                          )
                    | inr changed ↦ elim mtfront_untrack_secret_client_lem [
                      | ended (free, u) e (step, idle) ↦
                          let (table, moved) =
                            acquire_lem same_bytes secret_client_hash same_bytes_sound
                              same_bytes_reflexive secret_client_hash-lt u secret_id client_ipv6
                              step.table in
                          ended
                            (
                              record free {
                                tracked_client_secret_id = secret_id;
                                tracked_client_valid = true;
                                tracked_client_ipv6 = client_ipv6;
                              },
                              acquire same_bytes secret_client_hash u secret_id client_ipv6,
                            )
                            (ground (arith, wanted, changed, e))
                            (
                              record {
                                table = table;
                                balance = λ s k.
                                    ground (arith, moved s k, step.balance s k, idle, wanted);
                                auth_key = step.auth_key;
                              },
                              λ s k. ground (arith, wanted),
                            )
                    ]
                  ]
      ]
