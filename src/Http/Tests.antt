-- ===== src/Http/Tests.antt =====
-- The parser of c-original/net/net-http-server.c on a request.
use mtproxy.Prelude.{ℕ, ◌≡◌, refl, [], ◌∷◌, false, ◌++◌, inl, replicate, arith, some}
use mtproxy.Prelude.Bytes.{Bytes, codes}
use mtproxy.Prelude.Int.{pos}
use mtproxy.Prelude.Run.{Run, ok, abort, Returns}
use mtproxy.Http.{start, none_type, Hts}
use mtproxy.Http.Request.{
  parse_block, parse_case, read_to_space, read_word, word_read, skip_space, skip_header,
  end_of_line, read_to_colon, want_last_lf,
}
use mtproxy.Http.Dates.{gen_http_date, find_month, gen_http_time, read_time}
use mtproxy.Http.DateLaws.{gen_http_date-IsRead}
use mtproxy.Http.Header.{get_http_header, skip_while, pass_while, same_name, cut_blanks}
use mtproxy.Http.HeaderLines.{field_of, lines}
use mtproxy.Http.HeaderLaws.{cut_to, get_http_header_lem}
use mtproxy.Http.Progress.{IsBlock, parse_block-IsBlock}

abbrev idle : Hts
idle = record {
  query_type = none_type;
  qf_error = false;
  qf_host = false;
  qf_datasize = false;
  qf_connection = false;
  qf_keepalive = false;
  query_words = 0;
  header_size = 0;
  first_line_size = 0;
  data_size = pos 0;
  host_offset = 0;
  host_size = 0;
  uri_offset = 0;
  uri_size = 0;
  http_ver = 0;
  wlen = 0;
  word = replicate 16 0;
  parse_state = start;
  query_seqno = 0;
}

abbrev crlf : Bytes
crlf = 13 ∷ 10 ∷ []

abbrev request : Bytes
request =
    codes "GET /a HTTP/1.1" ++ (crlf ++ (codes "Host: bc" ++ (crlf ++ (crlf ++ codes "next"))))

abbrev fields : Run (Hts × Bytes) → Run ((ℕ × ℕ × ℕ × ℕ) × Bytes)
fields (ok (d, rest)) = ok ((d.uri_offset, d.uri_size, d.host_offset, d.host_size), rest)
fields r = abort

request_read : fields (parse_block 60 idle request) ≡ ok ((4, 2, 23, 2), codes "next")
unfolding parse_block parse_case read_to_space read_word word_read skip_space skip_header
    end_of_line read_to_colon want_last_lf
request_read = refl

parse_block-IsBlock_example : Returns (IsBlock 0 request) (parse_block 2000 idle request)
parse_block-IsBlock_example =
    parse_block-IsBlock 0 2000 idle request (inl (refl, refl)) (omega arith)

gen_http_date-IsRead_example :
    Returns (λ f. gen_http_time f ≡ read_time (pos 951782400)) (gen_http_date (pos 951782400))
gen_http_date-IsRead_example = gen_http_date-IsRead (pos 951782400) (omega arith)

-- The leap day of the year 2000 is a Tuesday.
leap_day_test :
    gen_http_date (pos 951782400)
    ≡ ok (record {
      dow = codes "Tue";
      day = pos 29;
      month = codes "Feb";
      year = pos 2000;
      hour = pos 0;
      min = pos 0;
      sec = pos 0;
      tz = codes "GMT";
    })
unfolding gen_http_date find_month
leap_day_test = refl

abbrev headers : Bytes
headers =
    codes "Host: a"
    ++ crlf
    ++ codes "nothing"
    ++ crlf
    ++ codes "x-real-ip:  10.0.0.1 "
    ++ crlf
    ++ codes "X-Real-IP: 2"

get_http_header_lem_example :
    get_http_header 60 headers 8 (codes "X-Real-IP")
    ≡ ok (cut_to 8 (field_of (codes "X-Real-IP") (lines headers)))
get_http_header_lem_example = get_http_header_lem 60 headers 8 (codes "X-Real-IP") (omega arith)

real_ip_test : get_http_header 60 headers 20 (codes "X-Real-IP") ≡ ok (some (codes "10.0.0.1"))
unfolding get_http_header skip_while pass_while same_name cut_blanks
real_ip_test = refl

cut_test : get_http_header 60 headers 5 (codes "X-Real-IP") ≡ ok (some (codes "10.0"))
unfolding get_http_header skip_while pass_while same_name cut_blanks
cut_test = refl
