-- ===== src/Tl/HeaderLaws.antt =====
-- A query header that tls_header writes is read back by tlf_query_header
-- (c-original/common/tl-parse.c).
use mathlib.Core.List.{append_assoc, append-nil}
use mtproxy.Prelude.{
  ℕ, suc, ◌+◌, ◌-◌, ◌^◌, ◌%◌, ◌<◌, ◌≤◌, ◌≡◌, sym, ◌∙◌, ap, some, [], ◌++◌, ◌==◌, length,
  length-append, arith, if◌then◌else◌, Bool-cases, inl, inr, ◌⊎◌,
}
use mtproxy.Prelude.Bytes.{Bytes, le_bytes, length-le_bytes, append_left_inj}
use mtproxy.Prelude.Run.{ok}
use mtproxy.Tl.{InState, OutState, advance}
use mtproxy.Tl.Store.{put, store_int, store_long}
use mtproxy.Tl.Header.{
  QueryHeader, zero_header, query_switch, query_loop, query_header, rpc_invoke_req, rpc_dest_actor,
  rpc_dest_actor_flags, rpc_dest_flags,
}
use mtproxy.Tl.StoreHeader.{store_header}
use mtproxy.Tl.Ready.{
  IsReady, advance-advance, IsReady-advance, fetch_int-le_bytes, fetch_long-le_bytes,
  lookup_int-le_bytes, input-advance-le_bytes,
}

-- What the header of a query with no flags looks like.
abbrev pub actor_code : ℕ → Bytes
actor_code actor = if actor == 0 then [] else le_bytes 4 rpc_dest_actor ++ le_bytes 8 actor

store_header-code :
    (s t : OutState) (h : QueryHeader)
    → h.op ≡ rpc_invoke_req
    → h.flags ≡ 0
    → store_header s h ≡ some t
    → t.output ≡ s.output ++ actor_code h.actor_id
unfolding store_header store_int store_long put
store_header-code s t h op flags e = ground (
  arith,
  append-nil s.output,
  append_assoc s.output (le_bytes 4 rpc_dest_actor) (le_bytes 8 h.actor_id),
)

-- The words that open another part of a header.
abbrev pub IsHeaderWord : ℕ → Type 0
IsHeaderWord x = (x ≡ rpc_dest_actor) ⊎ (x ≡ rpc_dest_actor_flags) ⊎ (x ≡ rpc_dest_flags)

-- At any other word the loop is done.
query_loop_done :
    (k start p m x : ℕ) (s : InState) (h : QueryHeader) (rest : Bytes)
    → IsReady s p m
    → 4 ≤ m
    → x < 2 ^ 32
    → ¬ (IsHeaderWord x)
    → s.input ≡ le_bytes 4 x ++ rest
    → query_loop (suc k) start s h ≡ ok (some (start - s.in_remaining), s, h)
unfolding query_loop query_switch
query_loop_done k start p m x s h rest r four l n e =
    let clean = r.clean in ground (arith, lookup_int-le_bytes s p m x rest r four l e)

-- A part that names the actor is taken.
query_loop_actor :
    (k start p m actor : ℕ) (s : InState) (h : QueryHeader) (rest : Bytes)
    → IsReady s p m
    → 12 ≤ m
    → actor < 2 ^ 64
    → s.input ≡ le_bytes 4 rpc_dest_actor ++ (le_bytes 8 actor ++ rest)
    → query_loop (suc k) start s h
      ≡ query_loop k start (advance s 12) (record h { actor_id = actor })
unfolding query_loop query_switch
query_loop_actor k start p m actor s h rest r room l e =
    let word : rpc_dest_actor < 2 ^ 32 = omega arith in
    let next = input-advance-le_bytes s p m rpc_dest_actor (le_bytes 8 actor ++ rest) r 4 word e in
    let later = IsReady-advance s p m 4 r (omega arith) in
    let clean = (IsReady-advance s p m 12 r (omega arith)).clean in
    ground (
      arith,
      lookup_int-le_bytes s p m rpc_dest_actor (le_bytes 8 actor ++ rest) r (omega arith) word e,
      fetch_int-le_bytes s p m rpc_dest_actor (le_bytes 8 actor ++ rest) r (omega arith) word e,
      fetch_long-le_bytes (advance s 4) ((p + 4) % 4) (m - 4) actor rest later (omega arith) l next,
      advance-advance s 4 8,
    )

-- The words in front of the header's parts: the kind and the query's number.
query_header_start :
    (fuel p m qid : ℕ) (s : InState) (rest : Bytes)
    → IsReady s p m
    → 12 ≤ m
    → qid < 2 ^ 64
    → s.input ≡ le_bytes 4 rpc_invoke_req ++ (le_bytes 8 qid ++ rest)
    → (query_header fuel s
        ≡ query_loop fuel s.in_remaining (advance s 12) (record zero_header {
          op = rpc_invoke_req;
          real_op = rpc_invoke_req;
          ref_cnt = 1;
          qid = qid;
        }))
      × ((advance s 12).input ≡ rest)
unfolding query_header
query_header_start fuel p m qid s rest r room l e =
    let word : rpc_invoke_req < 2 ^ 32 = omega arith in
    let next = input-advance-le_bytes s p m rpc_invoke_req (le_bytes 8 qid ++ rest) r 4 word e in
    let later = IsReady-advance s p m 4 r (omega arith) in
    let after =
      input-advance-le_bytes (advance s 4) ((p + 4) % 4) (m - 4) qid rest later 8 l next in
    ground (
      arith,
      fetch_int-le_bytes s p m rpc_invoke_req (le_bytes 8 qid ++ rest) r (omega arith) word e,
      fetch_long-le_bytes (advance s 4) ((p + 4) % 4) (m - 4) qid rest later (omega arith) l next,
      advance-advance s 4 8,
      after,
    )

abbrev read_query : ℕ → ℕ → QueryHeader
read_query qid actor = record {
  qid = qid;
  actor_id = actor;
  flags = 0;
  op = rpc_invoke_req;
  real_op = rpc_invoke_req;
  ref_cnt = 1;
}

module _ (k p m qid word : ℕ) (s : InState) (body : Bytes) (r : IsReady s p m) (ql : qid < 2 ^ 64)
    (wl : word < 2 ^ 32) (n : ¬ (IsHeaderWord word)) where
  query_header_plain :
      16 ≤ m
      → s.input ≡ le_bytes 4 rpc_invoke_req ++ (le_bytes 8 qid ++ (le_bytes 4 word ++ body))
      → query_header (suc (suc k)) s ≡ ok (some 12, advance s 12, read_query qid 0)
  query_header_plain room e =
      let (start, next) =
        query_header_start (suc (suc k)) p m qid s (le_bytes 4 word ++ body) r (omega arith) ql e in
      let later = IsReady-advance s p m 12 r (omega arith) in
      let done =
        query_loop_done (suc k) s.in_remaining ((p + 12) % 4) (m - 12) word (advance s 12)
          (read_query qid 0) body later (omega arith) wl n next in
      let holds = r.holds in
      let used : s.in_remaining - (advance s 12).in_remaining ≡ 12 =
        unfold advance in omega arith in
      start ∙ done ∙ rw used

  query_header_actor :
      (actor : ℕ)
      → 28 ≤ m
      → actor < 2 ^ 64
      → s.input
        ≡ le_bytes 4 rpc_invoke_req
          ++ (le_bytes 8 qid
              ++ (le_bytes 4 rpc_dest_actor ++ (le_bytes 8 actor ++ (le_bytes 4 word ++ body))))
      → query_header (suc (suc k)) s ≡ ok (some 24, advance s 24, read_query qid actor)
  query_header_actor actor room al e =
      let rest = le_bytes 4 word ++ body in
      let (start, next) = query_header_start (suc (suc k)) p m qid s _ r (omega arith) ql e in
      let t = advance s 12 in
      let later = IsReady-advance s p m 12 r (omega arith) in
      let round =
        query_loop_actor (suc k) s.in_remaining ((p + 12) % 4) (m - 12) actor t (read_query qid 0)
          rest later (omega arith) al next in
      let word_next =
        input-advance-le_bytes t ((p + 12) % 4) (m - 12) rpc_dest_actor (le_bytes 8 actor ++ rest)
          later 4 (omega arith) next in
      let last =
        input-advance-le_bytes (advance t 4) (((p + 12) % 4 + 4) % 4) (m - 12 - 4) actor rest
          (IsReady-advance t ((p + 12) % 4) (m - 12) 4 later (omega arith)) 8 al word_next in
      let last' : (advance t 12).input ≡ rest = rw (advance-advance t 4 8) at last in
      let done =
        query_loop_done k s.in_remaining (((p + 12) % 4 + 12) % 4) (m - 12 - 12) word (advance t 12)
          (read_query qid actor) body
          (IsReady-advance t ((p + 12) % 4) (m - 12) 12 later (omega arith)) (omega arith) wl n
          last' in
      let holds = r.holds in
      let used : s.in_remaining - (advance s 24).in_remaining ≡ 24 =
        unfold advance in omega arith in
      let joined = advance-advance s 12 12 in start ∙ round ∙ done ∙ rw (joined, used)

-- A query without flags, written as its kind, its number and the parts that tls_header stores, is
-- read back by tlf_query_header in at most two rounds, if the body that follows begins with a word
-- that opens no further part. The result is the number of header bytes, the reader stands at the
-- body, and the header has the same number and actor.
pub query_header-store_header :
    (out out' : OutState) (h : QueryHeader) (s : InState) (stored body : Bytes) (k p word : ℕ)
    → h.op ≡ rpc_invoke_req
    → h.flags ≡ 0
    → h.qid < 2 ^ 64
    → h.actor_id < 2 ^ 64
    → store_header out h ≡ some out'
    → out'.output ≡ out.output ++ stored
    → s.input
      ≡ le_bytes 4 rpc_invoke_req ++ (le_bytes 8 h.qid ++ (stored ++ (le_bytes 4 word ++ body)))
    → IsReady s p (length stored + 16)
    → word < 2 ^ 32
    → ¬ (IsHeaderWord word)
    → query_header (suc (suc k)) s
      ≡ ok (
        some (length stored + 12),
        advance s (length stored + 12),
        record {
          qid = h.qid;
          actor_id = h.actor_id;
          flags = 0;
          op = rpc_invoke_req;
          real_op = rpc_invoke_req;
          ref_cnt = 1;
        },
      )
query_header-store_header out out' h s stored body k p word op flags ql al e o i r wl n =
    let code : stored ≡ actor_code h.actor_id =
      append_left_inj out.output (sym o ∙ store_header-code out out' h op flags e) in
    elim (Bool-cases (h.actor_id == 0)) [
      | inl unnamed ↦
          let empty : stored ≡ [] = ground (arith, code) in
          let zero_actor : h.actor_id ≡ 0 = ground arith in
          let read =
            query_header_plain k p (length stored + 16) h.qid word s body r ql wl n (omega arith)
              (rw empty at i) in
          ground (arith, read, empty, zero_actor)
      | inr named ↦
          let full : stored ≡ le_bytes 4 rpc_dest_actor ++ le_bytes 8 h.actor_id =
            ground (arith, code) in
          let twelve : length stored ≡ 12 = omega (
            arith,
            ap length full,
            length-append (le_bytes 4 rpc_dest_actor) (le_bytes 8 h.actor_id),
            length-le_bytes 4 rpc_dest_actor,
            length-le_bytes 8 h.actor_id,
          ) in
          let flat =
            append_assoc (le_bytes 4 rpc_dest_actor) (le_bytes 8 h.actor_id)
              (le_bytes 4 word ++ body) in
          let read =
            query_header_actor k p (length stored + 16) h.qid word s body r ql wl n h.actor_id
              (omega arith) al (rw (full, flat) at i) in
          ground (arith, read, twelve)
    ]
