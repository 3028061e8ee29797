-- ===== src/Externals/Tests.antt =====
-- The table of external connections of c-original/mtproto/mtproto-proxy.c with one client.
use mtproxy.Prelude.{ℕ, ◌≡◌, ◌≢◌, refl, sym, subst, true, none, some, List, [], inl, inr, arith}
use mtproxy.Prelude.Run.{Run, ok, Returns, Returns-ok}
use mtproxy.Secrets.{
  find_ref, secret_device_hash_size, mtfront_untrack_secret_auth_key, mtfront_untrack_secret_client,
}
use mtproxy.Secrets.Chains.{refs_of}
use mtproxy.Secrets.Sums.{total_zero}
use mtproxy.Secrets.Pool.{IsCounted}
use mtproxy.Externals.Rings.{
  Ring, put_at, conn_lru, unlink_node, append_node, lru_delete_ext_conn, lru_insert_ext_conn,
}
use mtproxy.Externals.RingLaws.{IsRing, IsUnlinked, IsAppended, lru_insert_ext_conn-IsAppended}
use mtproxy.Externals.Entries.{
  Entries, zero_connection, zero_ext, ext_conn_table_size, ext_conn_hash, Connection,
  find_connection, untrack, delete_connection, pick_slot, join_in_ring, new_connection,
  get_ext_connection_by_in_conn_id, get_ext_connection_by_in_fd, find_ext_connection_by_out_conn_id,
  link_out, create_ext_connection, notices, remove_ext_connection, Notice,
}
use mtproxy.Externals.ChainLaws.{Member, IsChain}
use mtproxy.Externals.Shape.{IsEntries}
use mtproxy.Externals.Lookup.{
  IsOnly, get_ext_connection_by_in_fd_lem, find_ext_connection_by_out_conn_id_lem,
}
use mtproxy.Externals.Create.{HasRoom}
use mtproxy.Externals.Delete.{IsDeleted}
use mtproxy.Externals.Remove.{remove_ext_connection-IsDeleted}
use mtproxy.Externals.Open.{IsOpened, create_ext_connection-IsOpened}
use mtproxy.Externals.History.{stop, removed_id_lem}

abbrev pub space : ℕ
space = 100000

-- A ring of its head h alone
abbrev lone : ℕ → Ring
lone h = record { next = put_at (λ a. 0) h h; prev = put_at (λ a. 0) h h }

lone-IsRing : (h : ℕ) → h ≢ 0 → IsRing (lone h)
lone-IsRing h n = record {
  forth = λ a l. ground (arith, l);
  back = λ a l. ground (arith, l);
  both = λ a. ground arith;
  null = ground (arith, n);
}

-- No entry; the connection with the descriptor 5 is one to a server.
abbrev pub start : Entries
start = record {
  conns = λ a. zero_connection;
  pool = record {
    exts = λ a. zero_ext;
    devices = record { chains = λ h. []; active = λ s. 0 };
    clients = record { chains = λ h. []; active = λ s. 0 };
  };
  chains = λ h. [];
  out_refs = λ s. 0;
  out_ids = λ s. 0;
  in_ring = record { next = λ a. 0; prev = λ a. 0 };
  out_ring = lone 6;
  lru = lone conn_lru;
  ext_connections = 0;
  ext_connections_created = 0;
}

pool-IsCounted : IsCounted space start.pool
unfolding find_ref refs_of
pool-IsCounted = record {
  devices_table = record {
    all_chains = λ h. tt;
    counted = λ s. sym (total_zero secret_device_hash_size);
  };
  clients_table = record {
    all_chains = λ h. tt;
    counted = λ s. sym (total_zero secret_device_hash_size);
  };
  devices_counted = λ s k. sym (total_zero space);
  clients_counted = λ s k. sym (total_zero space);
}

pub start-IsEntries : IsEntries space start
unfolding IsChain Member
start-IsEntries = record {
  heap = λ a l. absurd (l refl);
  indexed = record { chain = λ h. tt; member = λ h a m. absurd m; found = λ a l. absurd (l refl) };
  slotted = record {
    slot = λ a l. absurd (l refl);
    owner = λ s n. absurd (n refl);
    count = sym (total_zero ext_conn_table_size);
  };
  ringed = record {
    in_ring = record {
      forth = λ a n. absurd (n refl);
      back = λ a n. absurd (n refl);
      both = λ a. ((λ e. refl), λ e. refl);
      null = refl;
    };
    out_ring = lone-IsRing 6 (omega arith);
    lru = lone-IsRing conn_lru (omega arith);
    in_linked = λ a l n. absurd (l refl);
    in_outside = λ a l z. refl;
    in_owner = λ fd inside n m. absurd (n refl);
    out_linked = λ a l n. absurd (l refl);
    loose = λ a high f. (refl, ground (arith, high), ground (arith, high));
  };
  counted = pool-IsCounted;
  blank = λ a f. refl;
}

abbrev pub client : Connection
client = record { job = 1; fd = 7; generation = 3 }

abbrev pub server : Connection
server = record { job = 2; fd = 5; generation = 4 }

room : HasRoom space start 70000 7 0 []
unfolding find_connection
room = record {
  heap = (omega arith, omega arith);
  free = refl;
  low = omega arith;
  room = omega arith;
  ids = λ s. omega arith;
  unknown = refl;
  alone = inl refl;
  hits = inl refl;
}

create_ext_connection-IsOpened_example :
    Returns
      (IsOpened space start client (some server) 0 99 70000)
      (create_ext_connection [] 70000 start client 0 (some server) 99)
create_ext_connection-IsOpened_example =
    create_ext_connection-IsOpened space start start-IsEntries 70000 [] client 0 (some server) 99
      room (λ e. ground (arith, e)) refl

-- The table with one entry, which is then removed.
abbrev result_of : Run (Entries × ℕ) → Entries
result_of (ok r) = r.0
result_of _ = start

abbrev pub one : Entries
one = result_of (create_ext_connection [] 70000 start client 0 (some server) 99)

one_created : create_ext_connection [] 70000 start client 0 (some server) 99 ≡ ok (one, 70000)
unfolding create_ext_connection get_ext_connection_by_in_conn_id find_connection new_connection
    join_in_ring append_node pick_slot link_out
one_created = refl

pub one-IsOpened : IsOpened space start client (some server) 0 99 70000 (one, 70000)
one-IsOpened =
    Returns-ok (one, 70000)
      (subst (Returns (IsOpened space start client (some server) 0 99 70000)) one_created
        create_ext_connection-IsOpened_example)

get_ext_connection_by_in_fd_lem_example :
    Returns (IsOnly one (λ a. (one.conns a).in_fd ≡ 7)) (get_ext_connection_by_in_fd one 7)
get_ext_connection_by_in_fd_lem_example =
    get_ext_connection_by_in_fd_lem space one one-IsOpened.entries 7 (omega arith) (omega arith)

find_ext_connection_by_out_conn_id_lem_example :
    Returns
      (IsOnly one (λ a. (one.conns a).out_conn_id ≡ 4194311))
      (find_ext_connection_by_out_conn_id one 4194311)
find_ext_connection_by_out_conn_id_lem_example =
    find_ext_connection_by_out_conn_id_lem space one one-IsOpened.entries 4194311

remove_ext_connection-IsDeleted_example :
    Returns
      (λ r. IsDeleted space one 70000 r.0)
      (remove_ext_connection (λ fd gen. true) one 70000 1)
remove_ext_connection-IsDeleted_example =
    remove_ext_connection-IsDeleted space one one-IsOpened.entries 70000 one-IsOpened.live
      (λ fd gen. true) 1 (inr refl)

abbrev removed : Run (Entries × List Notice)
removed = remove_ext_connection (λ fd gen. true) one 70000 1

abbrev left_of : Run (Entries × List Notice) → Entries × List Notice
left_of (ok r) = r
left_of _ = (start, [])

removed_ok : removed ≡ ok (left_of removed)
unfolding remove_ext_connection find_ext_connection_by_out_conn_id notices
    get_ext_connection_by_in_conn_id find_connection delete_connection untrack unlink_node
    lru_delete_ext_conn create_ext_connection new_connection join_in_ring pick_slot link_out
    ext_conn_hash mtfront_untrack_secret_auth_key mtfront_untrack_secret_client
removed_ok = refl

removed_id_lem_example :
    Returns
      (λ found. found ≡ none)
      (find_ext_connection_by_out_conn_id (left_of removed).0 (one.conns 70000).out_conn_id)
removed_id_lem_example =
    removed_id_lem space (λ fd gen. true) one 70000 1 (left_of removed).1 (left_of removed).0
      (left_of removed).0 one-IsOpened.entries one-IsOpened.live (inr refl) removed_ok stop

lru_insert_ext_conn-IsAppended_example :
    Returns
      (λ s. (q : Ring) × (IsUnlinked (lone conn_lru) 70000 q) × (IsAppended q conn_lru 70000 s))
      (lru_insert_ext_conn (lone conn_lru) 70000)
lru_insert_ext_conn-IsAppended_example =
    lru_insert_ext_conn-IsAppended (lone conn_lru) 70000 (lone-IsRing conn_lru (omega arith))
      (omega arith) (omega arith) (λ e. ground (arith, e))
