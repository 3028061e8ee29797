-- ===== src/Secrets/Pool.antt =====
-- All connections together: the counters of secrets in c-original/mtproto/mtproto-proxy.c are those of
-- the connections that are tracked.
use mtproxy.Prelude.{
  ℕ, ◌<◌, ◌≤◌, ◌≡◌, ◌≢◌, refl, ◌∙◌, ◌==◌, if◌then◌else◌, arith, Bool-cases, inl, inr, ap, sym,
  subst,
}
use mtproxy.Prelude.Bytes.{Bytes}
use mtproxy.Prelude.Run.{Returns, Returns-map}
use mtproxy.Secrets.{
  Table, Ext, mtfront_track_secret_auth_key, mtfront_untrack_secret_auth_key,
  mtfront_track_secret_client, mtfront_untrack_secret_client,
}
use mtproxy.Secrets.Sums.{total, total_cong, total_update, total_ge}
use mtproxy.Secrets.Tracking.{
  tracks_auth_key, tracks_client, AuthTable, auth_connections, IsAuthStep,
  mtfront_untrack_secret_auth_key_lem, mtfront_track_secret_auth_key_lem, asked_auth_key,
}
use mtproxy.Secrets.Clients.{
  ClientTable, client_connections, IsClientStep, mtfront_untrack_secret_client_lem,
  mtfront_track_secret_client_lem, asked_client,
}

-- The n connections, and both tables.
pub record Pool : Type 0 where
  pub exts : ℕ → Ext
  pub devices : Table ℕ
  pub clients : Table Bytes

-- Both tables are well formed, and each key has as many connections as are tracked for it.
pub record IsCounted (n : ℕ) (p : Pool) : Type 0 where
  pub devices_table : AuthTable p.devices
  pub clients_table : ClientTable p.clients
  pub devices_counted :
      (s k : ℕ) → auth_connections p.devices s k ≡ total n (λ i. tracks_auth_key (p.exts i) s k)
  pub clients_counted :
      (s : ℕ) (k : Bytes)
      → client_connections p.clients s k ≡ total n (λ i. tracks_client (p.exts i) s k)

abbrev pub with_devices : Pool → ℕ → Ext × Table ℕ → Pool
with_devices p i (ex, t) = record p { exts = λ j. if j == i then ex else p.exts j; devices = t }

abbrev pub with_clients : Pool → ℕ → Ext × Table Bytes → Pool
with_clients p i (ex, t) = record p { exts = λ j. if j == i then ex else p.exts j; clients = t }

module _ (n : ℕ) (p : Pool) (h : IsCounted n p) (i : ℕ) (inside : i < n) where
  devices_here : (s k : ℕ) → tracks_auth_key (p.exts i) s k ≤ auth_connections p.devices s k
  devices_here s k =
      let one = total_ge n i (λ j. tracks_auth_key (p.exts j) s k) inside in
      let all = h.devices_counted s k in omega arith

  clients_here :
      (s : ℕ) (k : Bytes) → tracks_client (p.exts i) s k ≤ client_connections p.clients s k
  clients_here s k =
      let one = total_ge n i (λ j. tracks_client (p.exts j) s k) inside in
      let all = h.clients_counted s k in omega arith

  other_ext : (ex : Ext) (j : ℕ) → j ≢ i → (if j == i then ex else p.exts j) ≡ p.exts j
  other_ext ex j d = ground arith

  own_ext : (ex : Ext) → (if i == i then ex else p.exts i) ≡ ex
  own_ext ex = ground arith

  -- What does not change of the connection i does not change of any.
  kept :
      (f : Ext → ℕ) (ex : Ext)
      → f ex ≡ f (p.exts i)
      → (j : ℕ) → f (p.exts j) ≡ f (if j == i then ex else p.exts j)
  kept f ex e j = elim (Bool-cases (j == i)) [
    | inl same ↦ let here : j ≡ i = ground arith in rw same (ap (λ x. f (p.exts x)) here ∙ sym e)
    | inr other ↦ rw other refl
  ]

  pub IsCounted-devices :
      (r : Ext × Table ℕ) → IsAuthStep (p.exts i) p.devices r → IsCounted n (with_devices p i r)
  IsCounted-devices (ex, t) step = record {
    devices_table = step.table;
    clients_table = h.clients_table;
    devices_counted = λ s k.
        let moved =
          total_update n i (λ j. tracks_auth_key (p.exts j) s k)
            (λ j. tracks_auth_key (if j == i then ex else p.exts j) s k) inside
            (λ j q d. ap (λ e. tracks_auth_key e s k) (sym (other_ext ex j d))) in
        omega (
          arith,
          moved,
          ap (λ e. tracks_auth_key e s k) (own_ext ex),
          h.devices_counted s k,
          step.balance s k,
        );
    clients_counted = λ s k.
        h.clients_counted s k
        ∙ total_cong n (λ j. tracks_client (p.exts j) s k)
            (λ j. tracks_client (if j == i then ex else p.exts j) s k)
            (λ j q. kept (λ x. tracks_client x s k) ex (step.client s k) j);
  }

  IsCounted-clients :
      (r : Ext × Table Bytes)
      → IsClientStep (p.exts i) p.clients r
      → IsCounted n (with_clients p i r)
  IsCounted-clients (ex, t) step = record {
    devices_table = h.devices_table;
    clients_table = step.table;
    devices_counted = λ s k.
        h.devices_counted s k
        ∙ total_cong n (λ j. tracks_auth_key (p.exts j) s k)
            (λ j. tracks_auth_key (if j == i then ex else p.exts j) s k)
            (λ j q. kept (λ x. tracks_auth_key x s k) ex (step.auth_key s k) j);
    clients_counted = λ s k.
        let moved =
          total_update n i (λ j. tracks_client (p.exts j) s k)
            (λ j. tracks_client (if j == i then ex else p.exts j) s k) inside
            (λ j q d. ap (λ e. tracks_client e s k) (sym (other_ext ex j d))) in
        omega (
          arith,
          moved,
          ap (λ e. tracks_client e s k) (own_ext ex),
          h.clients_counted s k,
          step.balance s k,
        );
  }

  -- Tracking the authorization key of a connection fails no assertion and keeps the counters those of
  -- the tracked connections; the connection is then counted for this key and no other, or for none
  -- where the secret is out of range or the key is 0.
  pub mtfront_track_secret_auth_key_counts :
      (secret_id auth_key_id : ℕ)
      → Returns
          (λ r.
            (IsCounted n (with_devices p i r))
            × ((s k : ℕ) → tracks_auth_key r.0 s k ≡ asked_auth_key secret_id auth_key_id s k))
          (mtfront_track_secret_auth_key (p.exts i) secret_id auth_key_id p.devices)
  mtfront_track_secret_auth_key_counts secret_id auth_key_id =
      Returns-map
        (mtfront_track_secret_auth_key_lem (p.exts i) p.devices h.devices_table devices_here
          secret_id auth_key_id)
        (λ r (step, now). (IsCounted-devices r step, now))

  pub mtfront_track_secret_client_counts :
      (client_ipv6 : Bytes) (secret_id : ℕ)
      → Returns
          (λ r.
            (IsCounted n (with_clients p i r))
            × ((s : ℕ) (k : Bytes)
                → tracks_client r.0 s k ≡ asked_client client_ipv6 secret_id s k))
          (mtfront_track_secret_client client_ipv6 (p.exts i) secret_id p.clients)
  mtfront_track_secret_client_counts client_ipv6 secret_id =
      Returns-map
        (mtfront_track_secret_client_lem (p.exts i) p.clients h.clients_table clients_here
          client_ipv6 secret_id)
        (λ r (step, now). (IsCounted-clients r step, now))

module _ (n : ℕ) (p : Pool) (h : IsCounted n p) (i : ℕ) (inside : i < n) where
  -- A connection that is counted for nothing, and the counters of all the others.
  abbrev pub Forgotten : Ext × Table ℕ → Ext × Table Bytes → Type 0
  Forgotten r q =
      (IsCounted n (with_clients (with_devices p i r) i q))
      × ((s k : ℕ) → tracks_auth_key q.0 s k ≡ 0)
      × ((s : ℕ) (k : Bytes) → tracks_client q.0 s k ≡ 0)

  untrack-rest :
      (r : Ext × Table ℕ)
      → IsAuthStep (p.exts i) p.devices r
      → r.0.tracked_auth_key_id ≡ 0
      → Returns (Forgotten r) (mtfront_untrack_secret_client r.0 p.clients)
  untrack-rest r step idle =
      let pool = with_devices p i r in
      let counted = IsCounted-devices n p h i inside r step in
      let own = own_ext n p h i inside r.0 in
      subst (λ x. Returns (Forgotten r) (mtfront_untrack_secret_client x p.clients)) own
        (Returns-map
          (mtfront_untrack_secret_client_lem (pool.exts i) p.clients h.clients_table
            (clients_here n pool counted i inside))
          (λ q (next, free). (
            IsCounted-clients n pool counted i inside q next,
            (λ s k. next.auth_key s k ∙ ap (λ x. tracks_auth_key x s k) own ∙ ground (arith, idle)),
            λ s k. ground (arith, free),
          )))

  -- What the removal of a connection does to the counters: no assertion fails, they stay those of the
  -- tracked connections, and the connection is counted for nothing any more.
  pub mtfront_untrack_counts :
      Returns
        (λ r. Returns (Forgotten r) (mtfront_untrack_secret_client r.0 p.clients))
        (mtfront_untrack_secret_auth_key (p.exts i) p.devices)
  mtfront_untrack_counts =
      Returns-map
        (mtfront_untrack_secret_auth_key_lem (p.exts i) p.devices h.devices_table
          (devices_here n p h i inside))
        (λ r (step, idle). untrack-rest r step idle)
