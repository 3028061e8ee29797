-- ===== src/Externals/Rings.antt =====
-- The doubly linked rings through struct ext_connection in c-original/mtproto/mtproto-proxy.c.
--
-- An address is a number, and 0 is the null pointer. ExtConnectionHead[fd] has the address fd + 1, ConnLRU
-- the one behind them, and the entries that calloc gives lie above.
use mtproxy.Prelude.{ℕ, ◌+◌, ◌==◌, if◌then◌else◌, not}
use mtproxy.Prelude.Run.{Run, ok, assert, ◌>>=◌, ◌>>◌}

-- i_next and i_prev, o_next and o_prev, or lru_next and lru_prev of every address
pub record Ring : Type 0 where
  pub next : ℕ → ℕ
  pub prev : ℕ → ℕ

-- f (a) = v
abbrev pub put_at : {A : Type 0} → (ℕ → A) → ℕ → A → ℕ → A
put_at f a v = λ i. if i == a then v else f i

abbrev pub max_connections : ℕ
max_connections = 65536

-- &ExtConnectionHead[fd]
abbrev pub ext_connection_head : ℕ → ℕ
ext_connection_head fd = fd + 1

-- &ConnLRU
abbrev pub conn_lru : ℕ
conn_lru = 65537

-- if (cur->i_next) { ... }, which takes an entry out of its ring
unfoldable pub unlink_node : Ring → ℕ → Run Ring
unlink_node r a = if r.next a == 0 then ok r else (do
  let prev = put_at r.prev (r.next a) (r.prev a)
  assert (not (prev a == 0))
  let next = put_at r.next (prev a) (r.next a)
  ok (record { next = put_at next a 0; prev = put_at prev a 0 }))

-- An entry is put_at in front of the head h, as the last one of the ring.
unfoldable pub append_node : Ring → ℕ → ℕ → Run Ring
append_node r h a = do
  let next = put_at r.next a h
  let prev = put_at r.prev a (r.prev h)
  assert (not (prev h == 0))
  ok (record { next = put_at next (prev h) a; prev = put_at prev h a })

unfoldable pub lru_delete_ext_conn : Ring → ℕ → Run Ring
unfolding unlink_node
lru_delete_ext_conn r a = do
  s ← unlink_node r a
  ok (record { next = put_at s.next a 0; prev = put_at s.prev a 0 })

unfoldable pub lru_insert_ext_conn : Ring → ℕ → Run Ring
unfolding lru_delete_ext_conn
lru_insert_ext_conn r a = do
  s ← lru_delete_ext_conn r a
  let prev = put_at s.prev a (s.prev conn_lru)
  let next = put_at s.next a conn_lru
  let back = put_at prev (next a) a
  assert (not (back a == 0))
  ok (record { next = put_at next (back a) a; prev = back })
