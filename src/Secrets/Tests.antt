-- ===== src/Secrets/Tests.antt =====
-- Concrete runs of the tracking, and the theorems at inputs that meet their premises.
use mtproxy.Prelude.{ℕ, ◌≡◌, refl, sym, false, [], ◌==◌, arith}
use mtproxy.Prelude.Bytes.{Bytes}
use mtproxy.Prelude.Run.{Run, ok, ◌>>=◌, Returns}
use mtproxy.Secrets.{
  Table, Ext, zero_ipv6, mtfront_track_secret_auth_key, mtfront_untrack_secret_auth_key,
  mtfront_track_secret_client, mtfront_untrack_secret_client, acquire, release, get_ref, find_ref,
  set_connections, unlink_ref, secret_auth_key_hash, secret_device_hash_size,
}
use mtproxy.Secrets.Chains.{refs_of}
use mtproxy.Secrets.Sums.{total, total_zero}
use mtproxy.Secrets.Tables.{acquire_lem}
use mtproxy.Secrets.Tracking.{
  tracks_auth_key, tracks_client, asked_auth_key, auth_connections, ==_sound, ==_reflexive,
  secret_auth_key_hash-lt,
}
use mtproxy.Secrets.Clients.{asked_client}
use mtproxy.Secrets.Pool.{
  Pool, IsCounted, IsCounted-devices, with_devices, with_clients,
  mtfront_track_secret_auth_key_counts, mtfront_track_secret_client_counts, Forgotten,
  mtfront_untrack_counts,
}

abbrev idle : Ext
idle = record {
  tracked_auth_key_id = 0;
  tracked_auth_secret_id = 0;
  tracked_client_secret_id = 0;
  tracked_client_valid = false;
  tracked_client_ipv6 = zero_ipv6;
}

abbrev no_entries : {K : Type 0} → Table K
no_entries = record { chains = λ h. []; active = λ s. 0 }

abbrev no_one : Pool
no_one = record { exts = λ i. idle; devices = no_entries; clients = no_entries }

no_one-IsCounted : IsCounted 3 no_one
unfolding find_ref refs_of total
no_one-IsCounted = record {
  devices_table = record {
    all_chains = λ h. tt;
    counted = λ s. sym (total_zero secret_device_hash_size);
  };
  clients_table = record {
    all_chains = λ h. tt;
    counted = λ s. sym (total_zero secret_device_hash_size);
  };
  devices_counted = λ s k. refl;
  clients_counted = λ s k. refl;
}

-- Two connections with the key 77 of secret 5, one of which goes on to the key 78.
abbrev twice : Run (ℕ × ℕ × ℕ)
twice = do
  (a, t) ← mtfront_track_secret_auth_key idle 5 77 no_entries
  (b, u) ← mtfront_track_secret_auth_key idle 5 77 t
  (c, v) ← mtfront_track_secret_auth_key b 5 78 u
  ok (auth_connections u 5 77, auth_connections v 5 77, v.active 5)

two_keys : twice ≡ ok (2, 1, 2)
unfolding mtfront_track_secret_auth_key mtfront_untrack_secret_auth_key acquire release get_ref
    find_ref set_connections unlink_ref secret_auth_key_hash
two_keys = refl

-- Connection 1 has the key 77 of secret 5.
abbrev moved_on : Ext × Table ℕ
moved_on = (
  record idle { tracked_auth_secret_id = 5; tracked_auth_key_id = 77 },
  acquire ◌==◌ secret_auth_key_hash no_entries 5 77,
)

abbrev one_key : Pool
one_key = with_devices no_one 1 moved_on

one_key-IsCounted : IsCounted 3 one_key
one_key-IsCounted =
    let (table, more) =
      acquire_lem ◌==◌ secret_auth_key_hash ==_sound ==_reflexive secret_auth_key_hash-lt no_entries
        5 77 no_one-IsCounted.devices_table in
    IsCounted-devices 3 no_one no_one-IsCounted 1 (omega arith) moved_on
      (record { table = table; balance = λ s k. ground (arith, more s k); client = λ s k. refl })

mtfront_track_secret_auth_key_counts_example :
    Returns
      (λ r.
        (IsCounted 3 (with_devices one_key 1 r))
        × ((s k : ℕ) → tracks_auth_key r.0 s k ≡ asked_auth_key 5 78 s k))
      (mtfront_track_secret_auth_key (one_key.exts 1) 5 78 one_key.devices)
mtfront_track_secret_auth_key_counts_example =
    mtfront_track_secret_auth_key_counts 3 one_key one_key-IsCounted 1 (omega arith) 5 78

mtfront_track_secret_client_counts_example :
    Returns
      (λ r.
        (IsCounted 3 (with_clients one_key 1 r))
        × ((s : ℕ) (k : Bytes) → tracks_client r.0 s k ≡ asked_client zero_ipv6 5 s k))
      (mtfront_track_secret_client zero_ipv6 (one_key.exts 1) 5 one_key.clients)
mtfront_track_secret_client_counts_example =
    mtfront_track_secret_client_counts 3 one_key one_key-IsCounted 1 (omega arith) zero_ipv6 5

mtfront_untrack_counts_example :
    Returns
      (λ r.
        Returns
          (Forgotten 3 one_key one_key-IsCounted 1 (omega arith) r)
          (mtfront_untrack_secret_client r.0 one_key.clients))
      (mtfront_untrack_secret_auth_key (one_key.exts 1) one_key.devices)
mtfront_untrack_counts_example = mtfront_untrack_counts 3 one_key one_key-IsCounted 1 (omega arith)
