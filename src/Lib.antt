-- ===== src/Lib.antt =====
-- A verification library for MTProxy, the C program under c-original/.
--
-- The proxy accepts clients' connections, and forwards their packets to the servers of a
-- configuration. A packet is read and written through the TL states of c-original/common; the
-- configuration says which cluster of targets a packet goes to, and choose_proxy_target draws one of
-- its targets; the connections of a client are counted for the secret that it used; and all waiting,
-- for a reconnection or a silent peer, goes through one heap of timers. The library models these
-- parts, each from the C source, as functions on explicit states.
--
-- * Tl is c-original/common/tl-parse.h and tl-parse.c. Tl/Fetch holds the readers (tlf_int is
--   fetch_int, and so on), Tl/Store the writers (tls_int is store_int), Tl/Header the query header
--   (tlf_query_header, tls_header) and the answer header (tlf_query_answer_header). A state is the
--   list of the bytes that are left, with the source's counters. The loops over header words run on
--   fuel; as much fuel as there are unread bytes is enough for the query header, and no fuel is for
--   the answer header on some inputs, which AnswerLoop shows.
-- * Timers is c-original/net/net-timers.c. The heap is an array used from index 1 on, a write behind its
--   MAX_EVENT_TIMERS places stops the run, a timer is a number
--   that stands for its address and knows its place, and a callback is a parameter. The loops over
--   the heap run on fuel that bounds their index; running the timers that are due takes the number
--   of alarms that the callbacks may still cause.
-- * Config is c-original/mtproto/mtproto-config.c over the lexer of c-original/common/parse-config.c
--   (Config/Lexer), with choose_proxy_target of c-original/mtproto/mtproto-proxy.c (Config/Reload).
--   Config/Clusters has the operations on clusters, Config/Parse parse_config with one function per
--   directive, Config/Reload do_reload_config. The resolver, the random draws and the readiness of
--   connections are parameters; each call of the resolver may have its own answer, and Config/Names says
--   what the two passes need of it. parse_config runs on fuel, of which one more than the bytes of the
--   file is enough (Config/Progress).
-- * Secrets is the tracking of authorization keys and clients per secret in
--   c-original/mtproto/mtproto-proxy.c: the hash tables SecretDeviceHash and SecretClientHash, the
--   counters active_auth_keys_per_secret and active_connections_per_secret, and the functions
--   mtfront_track_* and mtfront_untrack_*. Both tables are one type over their keys.
-- * Externals is the table of external connections in c-original/mtproto/mtproto-proxy.c. Rings has the
--   rings through struct ext_connection as functions from addresses to addresses, Entries the state and
--   get_ext_connection_by_*, find_ext_connection_by_out_conn_id, create_ext_connection and
--   remove_ext_connection. What calloc and lrand48 give are arguments: the search for a free slot takes
--   one draw after another, and ends if one of them falls on a free slot. IsEntries (Shape) is the
--   invariant; Insert, Joins, Slots and Create show that a new entry keeps it, Delete and Remove that a
--   removal does, and History follows an id through any sequence of both.
-- * Answers is process_client_packet of c-original/mtproto/mtproto-proxy.c, which looks up the entry that
--   a server's packet is for and sends the packet on; what it sends is a list of messages (Routing says
--   to whom).
-- * Queries is forward_tcp_query of c-original/mtproto/mtproto-proxy.c: it looks for the client's entry and
--   its server, opens an entry to a server that it draws where there is none, tracks the client for its
--   secret, and writes the query. Keep and Room carry the invariant of the table over the single steps; Layout reads
--   the query's bytes.
-- * Packets is the checks of forward_mtproto_packet and forward_mtproto_enc_packet of
--   c-original/mtproto/mtproto-proxy.c, which decide whether a client's packet is sent on.
-- * Randoms is the cache of client randoms in c-original/net/net-tcp-rpc-ext-server.c, which refuses a
--   client hello that comes a second time, with is_allowed_timestamp (Randoms/History follows the
--   cache through any sequence of additions and deletions). The loop over the bits of a bucket takes a byte in each
--   round, and has as much fuel as there are bits; the loop over old entries goes down their list.
-- * Http is the parser of request headers in c-original/net/net-http-server.c: Http/Request has the
--   switch of hts_parse_execute, one function for each case, and parse_block, the loop round it on one
--   block of a message. Rounds, Fields, Lines and Numbers follow each case; a round that takes no byte
--   comes nearer to the end by a rank below 46, and 40 rounds a byte are enough (Http/Progress).
--   Http/Dates is its gen_http_date and gen_http_time, the date between them as its eight fields; Http/Calendar
--   has the months and years, and Http/DateLaws that the time is read back. Http/Header
--   is get_http_header, whose outer loop takes at least a byte in each round and has as much fuel as there are
--   bytes; Http/HeaderLines has the headers as lines.
-- * Frames is the framing of the packets between the proxy and its clients: tcp_rpc_write_packet_compact and
--   tcp_rpc_write_packet of c-original/net/net-tcp-rpc-common.c, and the part of tcp_rpcs_compact_parse_execute of
--   c-original/net/net-tcp-rpc-ext-server.c that reads them. Frames/Prefixes and Frames/Stream follow one packet,
--   Frames/RoundTrip a stream of them, Frames/Safety any bytes. A round of the reader takes a byte at least, so
--   that one more than the bytes is fuel enough.
-- * Hello is the TLS-like client hello of c-original/net/net-tcp-rpc-ext-server.c: get_sni_domain_info and the
--   table of domains, and in Hello/Handshake the branch of tcp_rpcs_compact_parse_execute that checks a hello and
--   answers it, over the cache of Randoms. Hello/Sni shows that all reads are in bounds, Hello/Signed what the
--   two hmacs cover, Hello/Accept what an
--   accepted hello meets, and Hello/Replay that it is not accepted again. The loop over extensions goes four
--   bytes further in each round, and has as much fuel as there are bytes; grease takes two bytes a round, and its
--   loop has as many rounds as the list has bytes.
-- * Pid is c-original/common/pid.c: the ids by which the processes of the network know each other.
-- * Prelude has what they share: tests on native numbers, lists, bytes in little-endian order, and
--   the type Run of a call that returns, stops at a failed assertion, or is out of the model's fuel.
--
-- Integers of a fixed width are kept as their bit patterns, with the wrap-around written out where
-- the source computes with them. Assertions of the source are checks of the model, and the theorems
-- say that they hold. Messages to the log are left out.
--
-- Not modelled: cryptography (AES, DH, MD5, SHA, CRC), the job scheduler and its threads, the event
-- loop and sockets, the chains of message buffers, the handshake between servers, the loop over HTTP
-- requests, the obfuscated header of 64 bytes, the requests to the servers of the domains, statistics, and the port to Go under cmd/ and internal/.
pub mod Prelude
pub mod Tl
pub mod Timers
pub mod Config
pub mod Secrets
pub mod Randoms
pub mod Externals
pub mod Answers
pub mod Queries
pub mod Frames
pub mod Hello
pub mod Http
pub mod Pid
pub mod Packets
