-- ===== src/Queries/Keep.antt =====
-- The steps of forward_tcp_query of c-original/mtproto/mtproto-proxy.c that change an entry keep the table of
-- external connections well formed.
use mtproxy.Prelude.{
  ℕ, ◌<◌, ◌≡◌, ◌≢◌, refl, ◌∙◌, sym, ap, subst, Option, none, some, ◌==◌, ◌&&◌, not, arith,
  Bool-cases, inl, inr, by_cases,
}
use mtproxy.Prelude.Bytes.{Bytes}
use mtproxy.Prelude.Run.{Returns, returns, Returns-bind}
use mtproxy.Secrets.Pool.{
  Pool, IsCounted, with_devices, mtfront_track_secret_auth_key_counts,
  mtfront_track_secret_client_counts,
}
use mtproxy.Externals.Rings.{put_at}
use mtproxy.Externals.Entries.{Entries, ExtConnection}
use mtproxy.Externals.Shape.{Live, IsEntries}
use mtproxy.Externals.Open.{linked-IsEntries}
use mtproxy.Queries.{track, set_auth_key}

-- The counters stay those of what is tracked, and the other entries' as they were.
pub record IsTracked (n : ℕ) (p : Pool) (a : ℕ) (q : Pool) : Type 0 where
  pub counted : IsCounted n q
  pub others : (b : ℕ) → b ≢ a → q.exts b ≡ p.exts b

pub track-IsTracked :
    (n : ℕ) (p : Pool) (a : ℕ) (client_ipv6 : Bytes) (secret_id auth_key_id : ℕ)
    → IsCounted n p
    → a < n
    → Returns (IsTracked n p a) (track client_ipv6 p a secret_id auth_key_id)
unfolding track
track-IsTracked n p a client_ipv6 secret_id auth_key_id h inside =
    Returns-bind (mtfront_track_secret_auth_key_counts n p h a inside secret_id auth_key_id)
      (λ r (c, _).
        Returns-bind
          (mtfront_track_secret_client_counts n (with_devices p a r) c a inside client_ipv6
            secret_id)
          (λ s (d, _). returns (record { counted = d; others = λ b o. ground (arith, o) })))

pub tracked-IsEntries :
    (space : ℕ) (t : Entries) (ex : ℕ) (q : Pool)
    → IsEntries space t
    → Live t ex
    → IsTracked space t.pool ex q
    → IsEntries space (record t { pool = q })
tracked-IsEntries space t ex q h live k = record {
  heap = h.heap;
  indexed = record { chain = h.indexed.chain; member = h.indexed.member; found = h.indexed.found };
  slotted = record { slot = h.slotted.slot; owner = h.slotted.owner; count = h.slotted.count };
  ringed = record {
    in_ring = h.ringed.in_ring;
    out_ring = h.ringed.out_ring;
    lru = h.ringed.lru;
    in_linked = h.ringed.in_linked;
    in_outside = h.ringed.in_outside;
    in_owner = h.ringed.in_owner;
    out_linked = h.ringed.out_linked;
    loose = h.ringed.loose;
  };
  counted = k.counted;
  blank =
      λ a f. k.others a (λ e. live (subst (λ z. (t.conns z).out_conn_id ≡ 0) e f)) ∙ h.blank a f;
}

-- What a new key leaves of the entries.
pub record IsKeyed (space : ℕ) (t : Entries) (u : Entries) : Type 0 where
  pub entries : IsEntries space u
  pub same_id : (a : ℕ) → (u.conns a).out_conn_id ≡ (t.conns a).out_conn_id
  pub same_in_fd : (a : ℕ) → (u.conns a).in_fd ≡ (t.conns a).in_fd
  pub same_in_id : (a : ℕ) → (u.conns a).in_conn_id ≡ (t.conns a).in_conn_id
  pub same_out_fd : (a : ℕ) → (u.conns a).out_fd ≡ (t.conns a).out_fd
  pub same_refs : (s : ℕ) → u.out_refs s ≡ t.out_refs s
  pub same_ids : (s : ℕ) → u.out_ids s ≡ t.out_ids s
  pub same_count : u.ext_connections ≡ t.ext_connections
  pub same_out_ring : (a : ℕ) → u.out_ring.next a ≡ t.out_ring.next a
  pub same_in_ring : (a : ℕ) → u.in_ring.next a ≡ t.in_ring.next a

IsKeyed-refl : (space : ℕ) (t : Entries) → IsEntries space t → IsKeyed space t t
IsKeyed-refl space t h = record {
  entries = h;
  same_id = λ a. refl;
  same_in_fd = λ a. refl;
  same_in_id = λ a. refl;
  same_out_fd = λ a. refl;
  same_refs = λ s. refl;
  same_ids = λ s. refl;
  same_count = refl;
  same_out_ring = λ a. refl;
  same_in_ring = λ a. refl;
}

module _ (space : ℕ) (t : Entries) (h : IsEntries space t) (ex auth_key_id : ℕ) where
  abbrev keyed : Entries
  keyed = record t { conns = put_at t.conns ex (record (t.conns ex) { auth_key_id = auth_key_id }) }

  same_field :
      (f : ExtConnection → ℕ)
      → f (record (t.conns ex) { auth_key_id = auth_key_id }) ≡ f (t.conns ex)
      → (a : ℕ) → f (keyed.conns a) ≡ f (t.conns a)
  same_field f e a = elim (Bool-cases (a == ex)) [
    | inl s ↦ let here : a ≡ ex = ground (arith, s) in rw s (e ∙ ap (λ z. f (t.conns z)) (sym here))
    | inr n ↦ rw n refl
  ]

  keyed-IsKeyed : Live t ex → IsKeyed space t keyed
  keyed-IsKeyed live =
      let c = t.conns ex in
      let linked = h.ringed.out_linked ex live in
      record {
        entries =
            linked-IsEntries space t h ex live c.out_fd c.out_gen auth_key_id t.out_ring
              h.ringed.out_ring (ground (arith, linked)) (λ n. (linked n).1) (λ a n. n)
              (λ a o above e. e);
        same_id = same_field (λ c. c.out_conn_id) refl;
        same_in_fd = same_field (λ c. c.in_fd) refl;
        same_in_id = same_field (λ c. c.in_conn_id) refl;
        same_out_fd = same_field (λ c. c.out_fd) refl;
        same_refs = λ s. refl;
        same_ids = λ s. refl;
        same_count = refl;
        same_out_ring = λ a. refl;
        same_in_ring = λ a. refl;
      }

-- The entry that was found is live.
abbrev pub IsLiveIf : Entries → Option ℕ → Type 0
IsLiveIf t none = Unit {0}
IsLiveIf t (some ex) = Live t ex

pub set_auth_key-IsKeyed :
    (space : ℕ) (t : Entries) (found : Option ℕ) (auth_key_id : ℕ)
    → IsEntries space t
    → IsLiveIf t found
    → IsKeyed space t (set_auth_key t found auth_key_id)
unfolding set_auth_key
set_auth_key-IsKeyed space t none auth_key_id h live = IsKeyed-refl space t h
set_auth_key-IsKeyed space t (some ex) auth_key_id h live =
    by_cases (IsKeyed space t)
      (not (auth_key_id == 0) && not ((t.conns ex).auth_key_id == auth_key_id))
      (keyed-IsKeyed space t h ex auth_key_id live) (IsKeyed-refl space t h)
