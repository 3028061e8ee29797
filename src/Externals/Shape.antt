-- ===== src/Externals/Shape.antt =====
-- When the table of external connections in c-original/mtproto/mtproto-proxy.c is well formed.
use mtproxy.Prelude.{ℕ, ◌%◌, ◌<◌, ◌≡◌, ◌≢◌, some, ◌==◌, if◌then◌else◌}
use mtproxy.Secrets.Sums.{total}
use mtproxy.Secrets.Pool.{IsCounted}
use mtproxy.Externals.Rings.{max_connections, ext_connection_head, conn_lru}
use mtproxy.Externals.RingLaws.{IsRing}
use mtproxy.Externals.Entries.{
  ExtConnection, Entries, ext_conn_table_size, ext_conn_hash, find_connection, zero_ext,
}
use mtproxy.Externals.ChainLaws.{Member, IsChain}

-- An entry that has an id, and one that has none: memory that is free, or a head.
abbrev pub Live : Entries → ℕ → Type 0
Live t a = (t.conns a).out_conn_id ≢ 0

abbrev pub Free : Entries → ℕ → Type 0
Free t a = (t.conns a).out_conn_id ≡ 0

-- The bucket of an entry
abbrev pub bucket : ExtConnection → ℕ
bucket c = ext_conn_hash c.in_fd c.in_conn_id

-- 1 for a slot that is taken
abbrev pub taken : (ℕ → ℕ) → ℕ → ℕ
taken out_refs s = if out_refs s == 0 then 0 else 1

-- The chains hold the live entries, each in its bucket, and find them by their keys.
pub record IsIndexed (t : Entries) : Type 0 where
  pub chain : (h : ℕ) → IsChain t.conns (t.chains h)
  pub member : (h a : ℕ) → Member a (t.chains h) → Live t a × (bucket (t.conns a) ≡ h)
  pub found :
      (a : ℕ)
      → Live t a
      → find_connection t.conns
          (t.chains (bucket (t.conns a)))
          (t.conns a).in_fd
          (t.conns a).in_conn_id
        ≡ some a

-- Each live entry has a slot of its own, whose id is the entry's.
pub record IsSlotted (t : Entries) : Type 0 where
  pub slot : (a : ℕ) → Live t a → t.out_refs ((t.conns a).out_conn_id % ext_conn_table_size) ≡ a
  pub owner :
      (s : ℕ)
      → t.out_refs s ≢ 0
      → Live t (t.out_refs s)
        × ((t.conns (t.out_refs s)).out_conn_id ≡ t.out_ids s)
        × (t.out_ids s % ext_conn_table_size ≡ s)
  pub count : t.ext_connections ≡ total ext_conn_table_size (taken t.out_refs)

-- A client has one live entry at most, which stands in its ring; an entry with a server stands in a ring of servers.
pub record IsRinged (t : Entries) : Type 0 where
  pub in_ring : IsRing t.in_ring
  pub out_ring : IsRing t.out_ring
  pub lru : IsRing t.lru
  pub in_linked :
      (a : ℕ)
      → Live t a
      → (t.conns a).in_fd ≢ 0
      → ((t.conns a).in_fd < max_connections)
        × (t.in_ring.next a ≡ ext_connection_head (t.conns a).in_fd)
  pub in_outside : (a : ℕ) → Live t a → (t.conns a).in_fd ≡ 0 → t.in_ring.next a ≡ 0
  pub in_owner :
      (fd : ℕ)
      → fd < max_connections
      → t.in_ring.next (ext_connection_head fd) ≢ 0
      → t.in_ring.next (ext_connection_head fd) ≢ ext_connection_head fd
      → Live t (t.in_ring.next (ext_connection_head fd))
        × ((t.conns (t.in_ring.next (ext_connection_head fd))).in_fd ≡ fd)
  pub out_linked :
      (a : ℕ)
      → Live t a
      → (t.conns a).out_fd ≢ 0
      → ((t.conns a).out_fd < max_connections) × (t.out_ring.next a ≢ 0)
  pub loose :
      (a : ℕ)
      → conn_lru < a
      → Free t a
      → (t.in_ring.next a ≡ 0) × (t.out_ring.next a ≡ 0) × (t.lru.next a ≡ 0)

-- Memory of `space` addresses, of which the heads are the first ones.
pub record IsEntries (space : ℕ) (t : Entries) : Type 0 where
  pub heap : (a : ℕ) → Live t a → (conn_lru < a) × (a < space)
  pub indexed : IsIndexed t
  pub slotted : IsSlotted t
  pub ringed : IsRinged t
  pub counted : IsCounted space t.pool
  pub blank : (a : ℕ) → Free t a → t.pool.exts a ≡ zero_ext
