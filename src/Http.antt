-- ===== src/Http.antt =====
-- The HTTP server of c-original/net/net-http-server.c: the parser of a request's header (Request) and
-- what is proved of it.
--
-- A block of the incoming message is a list of bytes. The bits of query_flags that the parser uses are
-- fields, and an `int` that may be -1 is an integer.
mod Request
mod Shape
mod Rounds
mod Fields
mod Lines
mod Numbers
mod Progress
mod Dates
mod Calendar
mod DateLaws
mod Header
mod HeaderLines
mod HeaderLaws
mod Tests
use mtproxy.Prelude.{ℕ, ◌^◌, Bool, false, List}
use mtproxy.Prelude.Bytes.{Bytes}
use mtproxy.Prelude.Int.{ℤ}

-- enum http_query_parse_state
pub data ParseState : Type 0 where
  start readtospace readtocolon readint skipspc skiptoeoln skipspctoeoln : ParseState
  eoln wantlf wantlastlf linestart fatal done : ParseState

-- enum hts_query_type
pub data QueryType : Type 0 where
  none_type head get post options error_type empty : QueryType

abbrev pub max_http_header_size : ℕ
max_http_header_size = 16384

abbrev pub http_v09 : ℕ
http_v09 = 9

abbrev pub http_v10 : ℕ
http_v10 = 0x100

abbrev pub http_v11 : ℕ
http_v11 = 0x101

-- struct hts_data, with QF_ERROR, QF_HOST, QF_DATASIZE, QF_CONNECTION and QF_KEEPALIVE of query_flags
pub record Hts : Type 0 where
  pub query_type : QueryType
  pub qf_error : Bool
  pub qf_host : Bool
  pub qf_datasize : Bool
  pub qf_connection : Bool
  pub qf_keepalive : Bool
  pub query_words : ℕ
  pub header_size : ℕ
  pub first_line_size : ℕ
  pub data_size : ℤ
  pub host_offset : ℕ
  pub host_size : ℕ
  pub uri_offset : ℕ
  pub uri_size : ℕ
  pub http_ver : ℕ
  pub wlen : ℕ
  pub word : Bytes
  pub parse_state : ParseState
  pub query_seqno : ℕ
