-- ===== src/Answers/Tests.antt =====
-- process_client_packet of c-original/mtproto/mtproto-proxy.c on packets for the one client of a table.
use mtproxy.Prelude.{
  ◌≡◌, refl, ap, subst, true, false, [], ◌∷◌, ◌++◌, ◌==◌, inl, inr, arith, Bool-cases,
}
use mtproxy.Prelude.Bytes.{Bytes, le_bytes, le_value}
use mtproxy.Prelude.Run.{Returns}
use mtproxy.Externals.Tests.{space, one, one-IsOpened, server}
use mtproxy.Answers.{
  rpc_proxy_ans, rpc_close_ext, Proxy, packet_int, packet_long, process_client_packet,
}
use mtproxy.Answers.Routing.{
  AllSingle, IsAnswered, IsHandled, process_client_packet-IsAnswered,
  process_client_packet-IsHandled,
}

abbrev proxy : Proxy
proxy = record {
  entries = one;
  counters = record {
    tot_forwarded_responses = 0;
    dropped_responses = 0;
    tot_forwarded_simple_acks = 0;
    dropped_simple_acks = 0;
  };
}

abbrev answer_packet : Bytes
answer_packet =
    le_bytes 4 rpc_proxy_ans ++ (le_bytes 4 0 ++ (le_bytes 8 4194311 ++ 1 ∷ 2 ∷ 3 ∷ 4 ∷ []))

answer_op : packet_int 0 answer_packet ≡ rpc_proxy_ans
unfolding packet_int le_bytes le_value
answer_op = refl

process_client_packet-IsAnswered_example :
    Returns (IsAnswered space (λ fd gen. true) (λ fd gen. false) proxy server answer_packet) (
      process_client_packet
        (λ fd gen. true)
        (λ fd gen. false)
        proxy
        rpc_proxy_ans
        server
        answer_packet)
unfolding le_bytes
process_client_packet-IsAnswered_example =
    process_client_packet-IsAnswered space (λ fd gen. true) (λ fd gen. false) proxy server
      answer_packet one-IsOpened.entries answer_op (omega arith)

one-AllSingle : AllSingle one
one-AllSingle a l = elim (Bool-cases (a == 70000)) [
  | inl e ↦
      subst (λ z. (one.conns z).in_conn_id ≡ 0) {x = 70000} (ground (arith, e))
        one-IsOpened.in_conn_id_eq
  | inr n ↦ ap (λ c. c.in_conn_id) (one-IsOpened.others a (ground (arith, n)))
]

abbrev close_packet : Bytes
close_packet = le_bytes 4 rpc_close_ext ++ le_bytes 8 4194311

process_client_packet-IsHandled_example :
    Returns
      (IsHandled space
        (λ fd gen. true)
        (λ fd gen. false)
        proxy
        (packet_int 0 close_packet)
        (packet_long 4 close_packet))
      (process_client_packet
        (λ fd gen. true)
        (λ fd gen. false)
        proxy
        (packet_int 0 close_packet)
        server
        close_packet)
process_client_packet-IsHandled_example =
    process_client_packet-IsHandled space (λ fd gen. true) (λ fd gen. false) proxy close_packet
      one-IsOpened.entries one-AllSingle server
