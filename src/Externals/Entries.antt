-- ===== src/Externals/Entries.antt =====
-- The table of external connections in c-original/mtproto/mtproto-proxy.c: what it looks up, creates and
-- removes. The draws of lrand48 and the address that calloc gives are arguments.
use mtproxy.Prelude.{
  ℕ, ◌+◌, ◌-◌, ◌*◌, ◌/◌, ◌%◌, ◌^◌, Bool, true, false, Option, none, some, List, [], ◌∷◌, ◌++◌, ltb,
  ◌==◌, ◌&&◌, ◌||◌, not, if◌then◌else◌,
}
use mtproxy.Prelude.Run.{Run, ok, abort, out_of_fuel, assert, ◌>>=◌, ◌>>◌}
use mtproxy.Secrets.{Ext, zero_ipv6, mtfront_untrack_secret_auth_key, mtfront_untrack_secret_client}
use mtproxy.Secrets.Pool.{Pool, with_devices, with_clients}
use mtproxy.Externals.Rings.{
  Ring, put_at, max_connections, ext_connection_head, unlink_node, append_node, lru_delete_ext_conn,
}

abbrev pub ext_conn_table_size : ℕ
ext_conn_table_size = 2 ^ 22

abbrev pub ext_conn_hash_shift : ℕ
ext_conn_hash_shift = 20

-- ext_conn_hash
unfoldable pub ext_conn_hash : ℕ → ℕ → ℕ
ext_conn_hash in_fd in_conn_id =
    (in_fd * 11400714819323198485 + in_conn_id * 13043817825332782213)
    % 2 ^ 64
    / 2 ^ (64 - ext_conn_hash_shift)

-- struct ext_connection, without its links and what is tracked for it
pub record ExtConnection : Type 0 where
  pub in_fd : ℕ
  pub in_gen : ℕ
  pub out_fd : ℕ
  pub out_gen : ℕ
  pub in_conn_id : ℕ
  pub out_conn_id : ℕ
  pub auth_key_id : ℕ

abbrev pub zero_connection : ExtConnection
zero_connection = record {
  in_fd = 0;
  in_gen = 0;
  out_fd = 0;
  out_gen = 0;
  in_conn_id = 0;
  out_conn_id = 0;
  auth_key_id = 0;
}

abbrev pub zero_ext : Ext
zero_ext = record {
  tracked_auth_key_id = 0;
  tracked_auth_secret_id = 0;
  tracked_client_secret_id = 0;
  tracked_client_valid = false;
  tracked_client_ipv6 = zero_ipv6;
}

-- The objects by their addresses, with what is tracked for them in `pool`; InExtConnectionHash; OutExtConnections,
-- by its refs and its ids; the rings; and the counters.
pub record Entries : Type 0 where
  pub conns : ℕ → ExtConnection
  pub pool : Pool
  pub chains : ℕ → List ℕ
  pub out_refs : ℕ → ℕ
  pub out_ids : ℕ → ℕ
  pub in_ring : Ring
  pub out_ring : Ring
  pub lru : Ring
  pub ext_connections : ℕ
  pub ext_connections_created : ℕ

-- The address of the only connection with the given in_fd
unfoldable pub get_ext_connection_by_in_fd : Entries → ℕ → Run (Option ℕ)
get_ext_connection_by_in_fd t in_fd = do
  assert (ltb in_fd max_connections)
  let head = ext_connection_head in_fd
  let ex = t.in_ring.next head
  assert (ex == t.in_ring.prev head)
  (if ex == 0 || ex == head
      then ok none
      else (do assert ((t.conns ex).in_fd == in_fd); ok (some ex)))

abbrev pub is_connection : ExtConnection → ℕ → ℕ → Bool
is_connection c in_fd in_conn_id = c.in_fd == in_fd && c.in_conn_id == in_conn_id

-- The entry of a chain that the search stops at
unfoldable pub find_connection : (ℕ → ExtConnection) → List ℕ → ℕ → ℕ → Option ℕ
find_connection conns [] in_fd in_conn_id = none
find_connection conns (a ∷ more) in_fd in_conn_id =
    let rest = find_connection conns more in_fd in_conn_id in
    if is_connection (conns a) in_fd in_conn_id then some a else rest

-- *prev = cur->h_next
unfoldable pub unlink_connection : (ℕ → ExtConnection) → List ℕ → ℕ → ℕ → List ℕ
unlink_connection conns [] in_fd in_conn_id = []
unlink_connection conns (a ∷ more) in_fd in_conn_id =
    let rest = unlink_connection conns more in_fd in_conn_id in
    if is_connection (conns a) in_fd in_conn_id then more else a ∷ rest

-- Both untrack functions on the entry at a
unfoldable pub untrack : Pool → ℕ → Run Pool
untrack p a = do
  r ← mtfront_untrack_secret_auth_key (p.exts a) p.devices
  q ← mtfront_untrack_secret_client r.0 p.clients
  ok (with_clients (with_devices p a r) a q)

-- What mode 1 does with the entry cur of the chain h.
unfoldable pub delete_connection : Entries → ℕ → ℕ → Run Entries
delete_connection t h cur = do
  pool ← untrack t.pool cur
  in_ring ← unlink_node t.in_ring cur
  out_ring ← unlink_node t.out_ring cur
  lru ← lru_delete_ext_conn t.lru cur
  let c = t.conns cur
  let slot = c.out_conn_id % ext_conn_table_size
  assert (t.out_refs slot == cur)
  assert (t.out_ids slot == c.out_conn_id)
  ok (record t {
    pool = record pool { exts = put_at pool.exts cur zero_ext };
    in_ring = in_ring;
    out_ring = out_ring;
    lru = lru;
    chains = put_at t.chains h (unlink_connection t.conns (t.chains h) c.in_fd c.in_conn_id);
    out_refs = put_at t.out_refs slot 0;
    conns = put_at t.conns cur zero_connection;
    ext_connections = t.ext_connections - 1;
  })

-- while (OutExtConnections[h &= (EXT_CONN_TABLE_SIZE - 1)].ref) { h = lrand48 (); }
unfoldable pub pick_slot : (ℕ → ℕ) → ℕ → List ℕ → Run ℕ
pick_slot out_refs h [] =
    let slot = h % ext_conn_table_size in if out_refs slot == 0 then ok slot else out_of_fuel
pick_slot out_refs h (draw ∷ draws) =
    let slot = h % ext_conn_table_size in
    let next = pick_slot out_refs draw draws in if out_refs slot == 0 then ok slot else next

-- (id | (EXT_CONN_TABLE_SIZE - 1)) + 1 + h
abbrev pub next_out_conn_id : ℕ → ℕ → ℕ
next_out_conn_id id h = ((id / ext_conn_table_size + 1) * ext_conn_table_size + h) % 2 ^ 64

-- The ring of in_fd, if there is one, with the entry at cur.
unfoldable pub join_in_ring : Ring → ℕ → ℕ → Run Ring
unfolding append_node
join_in_ring r in_fd cur =
    let head = ext_connection_head in_fd in
    let s =
      if r.next head == 0
      then record { next = put_at r.next head head; prev = put_at r.prev head head }
      else r in
    if in_fd == 0 then ok r else (do assert (s.next head == head); append_node s head cur)

-- What modes 2 and 3 do where there is no entry; calloc gives the address cur.
unfoldable pub new_connection : List ℕ → ℕ → Entries → ℕ → ℕ → ℕ → Run Entries
new_connection draws cur t in_fd in_gen in_conn_id = do
  assert (ltb t.ext_connections (ext_conn_table_size / 2))
  let h = ext_conn_hash in_fd in_conn_id
  assert (ltb in_fd max_connections)
  in_ring ← join_in_ring t.in_ring in_fd cur
  slot ←
      (if in_conn_id == 0
        then pick_slot t.out_refs in_fd draws
        else (elim draws [ [] ↦ out_of_fuel | draw ∷ more ↦ pick_slot t.out_refs draw more ]))
  let id = next_out_conn_id (t.out_ids slot) slot
  assert (not (id == 0))
  ok (record t {
    conns = put_at t.conns cur (record zero_connection {
      in_fd = in_fd;
      in_gen = in_gen;
      in_conn_id = in_conn_id;
      out_conn_id = id;
    });
    pool = record t.pool { exts = put_at t.pool.exts cur zero_ext };
    chains = put_at t.chains h (cur ∷ t.chains h);
    in_ring = in_ring;
    out_refs = put_at t.out_refs slot cur;
    out_ids = put_at t.out_ids slot id;
    ext_connections = t.ext_connections + 1;
    ext_connections_created = t.ext_connections_created + 1;
  })

-- What get_ext_connection_by_in_conn_id returns: 0, an entry, or -1.
pub data Found : Type 0 where
  not_there : Found
  entry : ℕ → Found
  deleted : Found

-- mode: 0 = find, 1 = delete, 2 = create if not found, 3 = find or create
unfoldable pub get_ext_connection_by_in_conn_id :
    List ℕ → ℕ → Entries → ℕ → ℕ → ℕ → ℕ → Run (Entries × Found)
get_ext_connection_by_in_conn_id draws fresh t in_fd in_gen in_conn_id mode =
    let h = ext_conn_hash in_fd in_conn_id in
    elim (find_connection t.conns (t.chains h) in_fd in_conn_id) [
      | some cur ↦ (do
        assert (not ((t.conns cur).out_conn_id == 0))
        (if mode == 0 || mode == 3
            then ok (t, entry cur)
            else if not (mode == 1)
            then ok (t, not_there)
            else (do u ← delete_connection t h cur; ok (u, deleted))))
      | none ↦
          if not (mode == 2) && not (mode == 3)
          then ok (t, not_there)
          else (do u ← new_connection draws fresh t in_fd in_gen in_conn_id; ok (u, entry fresh))
    ]

unfoldable pub find_ext_connection_by_out_conn_id : Entries → ℕ → Run (Option ℕ)
find_ext_connection_by_out_conn_id t out_conn_id =
    let h = out_conn_id % ext_conn_table_size in
    let cur = t.out_refs h in
    if cur == 0 || not (t.out_ids h == out_conn_id)
    then ok none
    else (do assert ((t.conns cur).out_conn_id == out_conn_id); ok (some cur))

-- struct connection_info of a connection, at the address `job`
pub record Connection : Type 0 where
  pub job : ℕ
  pub fd : ℕ
  pub generation : ℕ

-- What follows the assertions of create_ext_connection.
unfoldable pub link_out : Entries → ℕ → Option Connection → ℕ → Run Entries
unfolding append_node
link_out t ex none auth_key_id =
    ok (record t { conns = put_at t.conns ex (record (t.conns ex) { auth_key_id = auth_key_id }) })
link_out t ex (some co) auth_key_id = do
  let head = ext_connection_head co.fd
  assert (not (t.out_ring.next head == 0))
  out_ring ← append_node t.out_ring head ex
  ok (record t {
    conns = put_at t.conns ex (record (t.conns ex) {
      out_fd = co.fd;
      out_gen = co.generation;
      auth_key_id = auth_key_id;
    });
    out_ring = out_ring;
  })

-- assert (!CO || (unsigned) CONN_INFO(CO)->fd < MAX_CONNECTIONS), and CO != CI
abbrev pub is_peer : Connection → Option Connection → Bool
is_peer ci none = true
is_peer ci (some co) = ltb co.fd max_connections && not (co.job == ci.job)

unfoldable pub create_ext_connection :
    List ℕ → ℕ → Entries → Connection → ℕ → Option Connection → ℕ → Run (Entries × ℕ)
create_ext_connection draws fresh t ci in_conn_id co auth_key_id = do
  r ← get_ext_connection_by_in_conn_id draws fresh t ci.fd ci.generation in_conn_id 2
  (elim r.1 [
    | entry ex ↦ (do
      let u = r.0
      assert
          ((u.conns ex).out_fd == 0 && (u.out_ring.next ex == 0 && (u.conns ex).auth_key_id == 0))
      assert (is_peer ci co)
      v ← link_out u ex co auth_key_id
      ok (v, ex))
    | not_there ↦ abort
    | deleted ↦ abort
  ])

-- What remove_ext_connection tells a connection that is still there: _notify_remote_closed, or fail_connection.
pub data Notice : Type 0 where
  remote_closed : ℕ → ℕ → ℕ → Notice
  fail_connection : ℕ → ℕ → Notice

-- send_notifications & 1, and & 2
unfoldable pub notices : (ℕ → ℕ → Bool) → ExtConnection → ℕ → Run (List Notice)
notices is_open c send_notifications =
    let told =
      if not (c.out_fd == 0) && (send_notifications % 2 == 1 && is_open c.out_fd c.out_gen)
      then remote_closed c.out_fd c.out_gen c.out_conn_id ∷ []
      else [] in
    if not (c.in_fd == 0) && send_notifications / 2 % 2 == 1
    then (do
      assert (c.in_conn_id == 0)
      ok (if is_open c.in_fd c.in_gen then told ++ fail_connection c.in_fd c.in_gen ∷ [] else told))
    else ok told

unfoldable pub remove_ext_connection :
    (ℕ → ℕ → Bool) → Entries → ℕ → ℕ → Run (Entries × List Notice)
remove_ext_connection is_open t ex send_notifications = do
  let c = t.conns ex
  assert (not (ex == 0))
  assert (not (c.out_conn_id == 0))
  found ← find_ext_connection_by_out_conn_id t c.out_conn_id
  assert (elim found [ none ↦ false | some a ↦ a == ex ])
  assert (c.out_fd == 0 || ltb c.out_fd max_connections && not (t.out_ring.next ex == 0))
  assert (c.in_fd == 0 || ltb c.in_fd max_connections && not (t.in_ring.next ex == 0))
  sent ← notices is_open c send_notifications
  r ← get_ext_connection_by_in_conn_id [] 0 t c.in_fd c.in_gen c.in_conn_id 1
  assert (elim r.1 [ deleted ↦ true | not_there ↦ false | entry a ↦ false ])
  ok (r.0, sent)
