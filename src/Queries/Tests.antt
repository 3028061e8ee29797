-- ===== src/Queries/Tests.antt =====
-- forward_tcp_query of c-original/mtproto/mtproto-proxy.c for the first packet of a client.
use mtproxy.Prelude.{
  ◌≡◌, ◌≢◌, refl, Bool, true, false, Option, none, some, List, [], ◌∷◌, inl, arith, some-eq, subst,
}
use mtproxy.Prelude.Bytes.{le_bytes, codes}
use mtproxy.Prelude.Run.{Returns}
use mtproxy.Externals.Entries.{Connection, Notice, is_peer}
use mtproxy.Externals.Open.{IsOpen}
use mtproxy.Externals.Tests.{space, start, start-IsEntries, client, server}
use mtproxy.Queries.{
  ext_server, Client, ipv4, Settings, Forwarder, Fate, forward_flags, choose_server, query_bytes,
  address_bytes, extra_bytes, forward_tcp_query,
}
use mtproxy.Queries.Room.{CanCreate}
use mtproxy.Queries.Forward.{IsFitting, IsForwarded, forward_tcp_query-IsForwarded}

abbrev settings : Settings
settings = record {
  proxy_tag_set = false;
  proxy_tag = [];
  cur_http_origin = [];
  cur_http_referer = [];
  cur_http_user_agent = [];
}

abbrev user : Client
user = record {
  conn = client;
  conn_type = ext_server;
  dropped = false;
  extra_int2 = 1;
  remote = ipv4 (10 ∷ 0 ∷ 0 ∷ 1 ∷ []) 4000;
  our = ipv4 (10 ∷ 0 ∷ 0 ∷ 2 ∷ []) 443;
  pending_queries = 0;
}

abbrev idle : Forwarder
idle = record { entries = start; dropped_queries = 0; tot_forwarded_queries = 0 }

abbrev attempts : List (Option (Connection × Bool))
attempts = none ∷ some (server, true) ∷ []

user-CanCreate : CanCreate space start client [] 70000 attempts
unfolding choose_server
user-CanCreate = record {
  heap = (omega arith, omega arith);
  free = refl;
  room = omega arith;
  ids = λ s. omega arith;
  hits = inl refl;
  server = λ d e.
      subst (λ x. IsOpen start (some x) × (is_peer client (some x) ≡ true) × (x.fd ≢ 0)) (some-eq e)
        ((λ z. ground (arith, z)), refl, λ z. ground (arith, z));
}

user-IsFitting : IsFitting settings user (forward_flags user 2) none none (codes "query")
unfolding forward_flags query_bytes address_bytes extra_bytes le_bytes
user-IsFitting = omega arith

forward_tcp_query-IsForwarded_example :
    Returns
      (λ (r : Forwarder × Fate × List Notice).
        IsForwarded space
          (λ fd gen. none)
          (λ fd gen. true)
          settings
          user
          (codes "abcdefghijklmnop")
          []
          70000
          attempts
          (forward_flags user 2)
          none
          none
          (codes "query")
          r.0
          r.1)
      (forward_tcp_query
        (λ fd gen. none)
        (λ fd gen. true)
        settings
        user
        (codes "abcdefghijklmnop")
        false
        []
        70000
        attempts
        idle
        2
        99
        none
        none
        (codes "query"))
forward_tcp_query-IsForwarded_example =
    forward_tcp_query-IsForwarded space (λ fd gen. none) (λ fd gen. true) settings user
      (codes "abcdefghijklmnop") [] 70000 attempts idle 2 99 none none (codes "query") (λ e. cc)
      user-IsFitting (omega arith) (omega arith) start-IsEntries (λ a l. absurd (l refl))
      user-CanCreate
