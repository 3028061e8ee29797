-- ===== src/Http/Request.antt =====
-- The switch on the parse state in hts_parse_execute of c-original/net/net-http-server.c, one function
-- for each case, on a block of bytes from ptr to ptr_e. A char is signed.
use mtproxy.Prelude.{
  ℕ, zero, suc, ◌+◌, ◌-◌, ◌*◌, Bool, true, false, [], ◌∷◌, ltb, leb, ◌==◌, ◌&&◌, ◌||◌, not,
  if◌then◌else◌, take, set, replicate,
}
use mtproxy.Prelude.Bytes.{Bytes, same_bytes, codes}
use mtproxy.Prelude.Int.{ℤ, pos, negsuc, sub_ℕ}
use mtproxy.Prelude.Run.{Run, ok, out_of_fuel, assert, ◌>>=◌, ◌>>◌}
use mtproxy.Http.{
  ParseState, start, readtospace, readtocolon, readint, skipspc, skiptoeoln, skipspctoeoln, eoln,
  wantlf, wantlastlf, linestart, fatal, done, QueryType, none_type, head, get, post, options,
  error_type, Hts, max_http_header_size, http_v09, http_v10, http_v11,
}

-- A byte is put into the word, if it is one of the first 15, and counted.
abbrev pub push_char : Hts → ℕ → Hts
push_char d b = record d {
  word = if ltb d.wlen 15 then set d.word d.wlen b else d.word;
  wlen = d.wlen + 1;
}

-- The loops that read a word, with what they go on at.
unfoldable pub read_word : (ℕ → Bool) → Hts → Bytes → Hts × Bytes
read_word goes_on d [] = (d, [])
read_word goes_on d (b ∷ bs) =
    let rest = read_word goes_on (push_char d b) bs in if goes_on b then rest else (d, b ∷ bs)

-- The loops that skip bytes of the header.
unfoldable pub skip_header : (ℕ → Bool) → Hts → Bytes → Hts × Bytes
skip_header goes_on d [] = (d, [])
skip_header goes_on d (b ∷ bs) =
    let rest = skip_header goes_on (record d { header_size = d.header_size + 1 }) bs in
    if ltb d.header_size max_http_header_size && goes_on b then rest else (d, b ∷ bs)

abbrev pub lower : ℕ → ℕ
lower c = if leb b'A' c && leb c b'Z' then c + 32 else c

-- strncasecmp (a, b, n) is 0, for a text b of n bytes in lower case
unfoldable pub same_text : Bytes → Bytes → Bool
same_text a [] = true
same_text [] (b ∷ bs) = false
same_text (a ∷ more) (b ∷ bs) = lower a == b && same_text more bs

abbrev pub word_is : Hts → Bytes → Bool
word_is d text = same_bytes (take d.wlen d.word) text

abbrev pub failed : Hts → Hts
failed d = record d { qf_error = true; parse_state = skiptoeoln }

-- The first word of the query
unfoldable pub method : Hts → Hts
unfolding same_bytes
method d =
    let named = λ (t : QueryType). record d { query_type = t; parse_state = skipspc } in
    if d.wlen == 3 && word_is d (codes "GET")
    then named get
    else if d.wlen == 4 && word_is d (codes "HEAD")
    then named head
    else if d.wlen == 4 && word_is d (codes "POST")
    then named post
    else if d.wlen == 7 && word_is d (codes "OPTIONS")
    then named options
    else failed (named error_type)

-- The second one
unfoldable pub uri : Hts → Hts
uri d =
    let found = record d { uri_offset = d.header_size; uri_size = d.wlen; parse_state = skipspc } in
    if d.wlen == 0 then failed found else found

-- The third one
unfoldable pub version : Hts → Hts
unfolding same_bytes
version d =
    let spoken = λ (v : ℕ). record d { http_ver = v; parse_state = skipspctoeoln } in
    if d.wlen == 0
    then spoken http_v09
    else if not (d.wlen == 8)
    then failed d
    else if word_is d (codes "HTTP/1.0")
    then spoken http_v10
    else if word_is d (codes "HTTP/1.1")
    then spoken http_v11
    else failed d

-- The value of a field
unfoldable pub value : Hts → Run Hts
unfolding same_text
value d =
    let read =
      if d.wlen == 0
      then d
      else if d.qf_host
      then record d { host_offset = d.header_size; host_size = d.wlen }
      else record d {
        qf_keepalive = (d.wlen == 10 && same_text d.word (codes "keep-alive")) || d.qf_keepalive;
      } in
    do
      assert (d.qf_host || d.qf_connection)
      ok (record read { qf_host = false; qf_connection = false; parse_state = skipspctoeoln })

-- The end of a word where the block goes on.
unfoldable pub word_read : Hts → Run Hts
unfolding method uri version value
word_read s =
    let d = record s { parse_state = skipspc; query_words = s.query_words + 1 } in
    let counted = λ (e : Hts). record e { header_size = e.header_size + e.wlen } in
    if d.query_words == 1
    then ok (counted (method d))
    else if d.query_words == 2
    then ok (counted (uri d))
    else if d.query_words == 3
    then ok (counted (version d))
    else (do e ← value d; ok (counted e))

-- (unsigned) *ptr > ' '
abbrev pub above_space : ℕ → Bool
above_space b = ltb 32 b

-- *ptr != ':' && *ptr > ' '
abbrev pub in_name : ℕ → Bool
in_name b = not (b == b':') && (ltb 32 b && ltb b 128)

-- What follows the loop of htqp_readtospace.
unfoldable pub word_end : Hts → Bytes → Run (Hts × Bytes)
word_end d [] = if ltb 4096 d.wlen then ok (record d { parse_state = fatal }, []) else ok (d, [])
word_end d (b ∷ bs) =
    if ltb 4096 d.wlen
    then ok (record d { parse_state = fatal }, b ∷ bs)
    else (do e ← word_read d; ok (e, b ∷ bs))

unfoldable pub read_to_space : Hts → Bytes → Run (Hts × Bytes)
unfolding word_end
read_to_space s bs = let (d, rest) = read_word above_space s bs in word_end d rest

-- case htqp_start
abbrev pub fresh : Hts → Hts
fresh d = record {
  query_type = none_type;
  qf_error = false;
  qf_host = false;
  qf_datasize = false;
  qf_connection = false;
  qf_keepalive = false;
  query_words = 0;
  header_size = 0;
  first_line_size = 0;
  data_size = negsuc 0;
  host_offset = 0;
  host_size = 0;
  uri_offset = 0;
  uri_size = 0;
  http_ver = 0;
  wlen = 0;
  word = replicate 16 0;
  parse_state = readtospace;
  query_seqno = d.query_seqno + 1;
}

-- What follows the blanks, with query_words of 3 and more.
unfoldable pub field_value : Hts → Run Hts
field_value d = do
  assert (leb 4 d.query_words)
  ok (
      if d.qf_datasize
      then (elim d.data_size [
        | pos n ↦ failed d
        | negsuc n ↦
            if n == 0 then record d { parse_state = readint; data_size = pos 0 } else failed d
      ])
      else if d.qf_host || d.qf_connection
      then record d { wlen = 0; parse_state = readtospace }
      else record d { parse_state = skiptoeoln })

abbrev pub is_blank : Hts → ℕ → Bool
is_blank d b = b == 32 || b == 9 && leb 8 d.query_words

-- What follows the loop of htqp_skipspc and htqp_skipspctoeoln.
unfoldable pub space_end : Bool → Hts → Bytes → Run (Hts × Bytes)
unfolding field_value
space_end to_eoln d [] =
    if leb max_http_header_size d.header_size
    then ok (record d { parse_state = fatal }, [])
    else ok (d, [])
space_end to_eoln d (b ∷ bs) =
    if leb max_http_header_size d.header_size
    then ok (record d { parse_state = fatal }, b ∷ bs)
    else if to_eoln
    then ok (record d { parse_state = eoln }, b ∷ bs)
    else if ltb d.query_words 3
    then ok (record d { wlen = 0; parse_state = readtospace }, b ∷ bs)
    else (do e ← field_value d; ok (e, b ∷ bs))

-- cases htqp_skipspc and htqp_skipspctoeoln
unfoldable pub skip_space : Bool → Hts → Bytes → Run (Hts × Bytes)
unfolding space_end
skip_space to_eoln s bs = let (d, rest) = skip_header (is_blank s) s bs in space_end to_eoln d rest

-- The name of a field, behind which the colon stands.
unfoldable pub field_name : Hts → Hts
unfolding same_text
field_name d =
    let named =
      if d.wlen == 4 && same_text d.word (codes "host")
      then record d { qf_host = true }
      else if d.wlen == 10 && same_text d.word (codes "connection")
      then record d { qf_connection = true }
      else if d.wlen == 14 && same_text d.word (codes "content-length")
      then record d { qf_datasize = true }
      else record d { qf_host = false; qf_datasize = false; qf_connection = false } in
    record named { header_size = d.header_size + (d.wlen + 1); parse_state = skipspc }

-- What follows the loop of htqp_readtocolon.
unfoldable pub name_end : Hts → Bytes → Hts × Bytes
unfolding field_name
name_end d [] = if ltb 4096 d.wlen then (record d { parse_state = fatal }, []) else (d, [])
name_end d (b ∷ bs) =
    if ltb 4096 d.wlen
    then (record d { parse_state = fatal }, b ∷ bs)
    else if b == b':'
    then (field_name d, bs)
    else (failed (record d { header_size = d.header_size + d.wlen }), b ∷ bs)

unfoldable pub read_to_colon : Hts → Bytes → Hts × Bytes
unfolding name_end
read_to_colon s bs = let (d, rest) = read_word in_name s bs in name_end d rest

-- tt >= 0x7fffffffL / 10
abbrev pub too_large : ℤ → Bool
too_large (pos n) = leb 214748364 n
too_large (negsuc n) = false

-- tt * 10 + digit
abbrev pub add_digit_size : ℤ → ℕ → ℤ
add_digit_size (pos n) digit = pos (n * 10 + digit)
add_digit_size (negsuc n) digit = sub_ℕ digit ((n + 1) * 10)

abbrev pub in_number : ℕ → Bool
in_number b = leb b'0' b && leb b b'9'

-- The loop of htqp_readint, on tt
unfoldable pub read_number : Hts → ℤ → Bytes → Hts × ℤ × Bytes
read_number d tt [] = (d, tt, [])
read_number d tt (b ∷ bs) =
    let rest =
      read_number (record d { header_size = d.header_size + 1; qf_datasize = false })
        (add_digit_size tt (b - b'0')) bs in
    if not (in_number b)
    then (d, tt, b ∷ bs)
    else if too_large tt
    then (failed d, tt, b ∷ bs)
    else rest

-- What follows the loop of htqp_readint.
abbrev pub int_end : Hts → Bytes → Hts × Bytes
int_end d [] = (d, [])
int_end d (b ∷ bs) =
    ((if d.qf_datasize then failed d else record d { parse_state = skipspctoeoln }), b ∷ bs)

unfoldable pub read_int : Hts → Bytes → Hts × Bytes
read_int s bs =
    let (e, size, rest) = read_number s s.data_size bs in
    int_end (record e { data_size = size }) rest

-- case htqp_linestart
unfoldable pub line_start : Hts → Bytes → Hts × Bytes
line_start s [] = (s, [])
line_start s (b ∷ bs) =
    let d = record s {
      first_line_size = if s.first_line_size == 0 then s.header_size else s.first_line_size;
    } in
    if b == 13
    then (record d { header_size = d.header_size + 1; parse_state = wantlastlf }, bs)
    else if b == 10
    then (record d { parse_state = wantlastlf }, b ∷ bs)
    else if d.qf_error
    then (record d { parse_state = skiptoeoln }, b ∷ bs)
    else (record d { wlen = 0; parse_state = readtocolon }, b ∷ bs)

-- case htqp_wantlf, which falls through to htqp_linestart
unfoldable pub want_lf : Hts → Bytes → Hts × Bytes
unfolding line_start
want_lf s [] = (s, [])
want_lf s (b ∷ bs) =
    let first = ltb (s.query_words + 1) 8 in
    let d = record s { query_words = if first then 8 else s.query_words + 1 } in
    if first && d.qf_error
    then (record d { parse_state = fatal }, b ∷ bs)
    else if leb d.http_ver http_v09
    then (record d { parse_state = wantlastlf }, b ∷ bs)
    else if not (b == 10)
    then (failed d, b ∷ bs)
    else line_start (record d { header_size = d.header_size + 1; parse_state = linestart }) bs

-- case htqp_eoln, which falls through to htqp_wantlf
unfoldable pub end_of_line : Hts → Bytes → Hts × Bytes
unfolding want_lf
end_of_line d [] = (d, [])
end_of_line d (b ∷ bs) =
    if b == 13
    then want_lf (record d { header_size = d.header_size + 1; parse_state = wantlf }) bs
    else want_lf (record d { parse_state = wantlf }) (b ∷ bs)

abbrev pub in_line : ℕ → Bool
in_line b = not (b == 13) && not (b == 10)

-- What follows the loop of htqp_skiptoeoln, which falls through to htqp_eoln.
unfoldable pub line_end : Hts → Bytes → Hts × Bytes
unfolding end_of_line
line_end d [] =
    if leb max_http_header_size d.header_size
    then (record d { parse_state = fatal }, [])
    else (d, [])
line_end d (b ∷ bs) =
    if leb max_http_header_size d.header_size
    then (record d { parse_state = fatal }, b ∷ bs)
    else end_of_line (record d { parse_state = eoln }) (b ∷ bs)

unfoldable pub skip_to_eoln : Hts → Bytes → Hts × Bytes
unfolding line_end
skip_to_eoln s bs = let (d, rest) = skip_header in_line s bs in line_end d rest

-- case htqp_wantlastlf
unfoldable pub want_last_lf : Hts → Bytes → Hts × Bytes
want_last_lf s [] = (s, [])
want_last_lf s (b ∷ bs) = if not (b == 10) then (record s { parse_state = fatal }, b ∷ bs) else (
  record s {
    header_size = s.header_size + 1;
    first_line_size = if s.first_line_size == 0 then s.header_size + 1 else s.first_line_size;
    parse_state = done;
  },
  bs,
)

-- The switch
unfoldable pub parse_case : ParseState → Hts → Bytes → Run (Hts × Bytes)
parse_case start d bs = read_to_space (fresh d) bs
parse_case readtospace d bs = read_to_space d bs
parse_case skipspc d bs = skip_space false d bs
parse_case skipspctoeoln d bs = skip_space true d bs
parse_case readtocolon d bs = ok (read_to_colon d bs)
parse_case readint d bs = ok (read_int d bs)
parse_case skiptoeoln d bs = ok (skip_to_eoln d bs)
parse_case eoln d bs = ok (end_of_line d bs)
parse_case wantlf d bs = ok (want_lf d bs)
parse_case linestart d bs = ok (line_start d bs)
parse_case wantlastlf d bs = ok (want_last_lf d bs)
parse_case fatal d bs = ok (record d { qf_error = true; parse_state = done }, bs)
parse_case done d bs = ok (d, bs)

abbrev pub is_done : ParseState → Bool
is_done done = true
is_done _ = false

abbrev pub at_end : Bytes → Bool
at_end [] = true
at_end (b ∷ bs) = false

-- while (ptr < ptr_e && D->parse_state != htqp_done)
unfoldable pub parse_block : ℕ → Hts → Bytes → Run (Hts × Bytes)
parse_block zero d bs = out_of_fuel
parse_block (suc k) d bs =
    let next = (do (e, rest) ← parse_case d.parse_state d bs; parse_block k e rest) in
    if at_end bs || is_done d.parse_state then ok (d, bs) else next
