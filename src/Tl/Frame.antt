-- ===== src/Tl/Frame.antt =====
-- What the readers of c-original/common/tl-parse.h take from the input: a reader that leaves no
-- error has used the bytes of its result, and an error, once set, stays.
use mtproxy.Prelude.{ℕ, ◌+◌, ◌≤◌, ◌≡◌, ◌≢◌, true, false, arith}
use mtproxy.Tl.{TlError, InState, has_error, set_error, check, advance, minus_one}
use mtproxy.Tl.Fetch.{raw_bytes, lookup_int, fetch_int, fetch_long}
use mtproxy.Tl.Header.{QueryHeader, query_flags}

-- `t` has no error only if `s` has none, and then lies n bytes behind it.
abbrev pub Uses : ℕ → InState → InState → Type 0
Uses n s t =
    has_error t ≡ false
    → (has_error s ≡ false) × (n + t.in_remaining ≡ s.in_remaining) × (t.in_pos ≡ s.in_pos + n)

pub fetch_int-Uses : (s : InState) → Uses 4 s (fetch_int s).1
unfolding fetch_int check raw_bytes advance
fetch_int-Uses s = ground arith

pub fetch_long-Uses : (s : InState) → Uses 8 s (fetch_long s).1
unfolding fetch_long check raw_bytes advance
fetch_long-Uses s = ground arith

pub lookup_int-Uses : (s : InState) → Uses 0 s (lookup_int s).1
unfolding lookup_int check
lookup_int-Uses s = ground arith

pub query_flags-Uses : (s : InState) (h : QueryHeader) → Uses 4 s (query_flags s h).0
unfolding query_flags set_error
query_flags-Uses s h = ground (arith, fetch_int-Uses s)

-- What a look ahead sees, the reader then gets.
pub fetch_int-lookup_int :
    (s : InState) → (lookup_int s).0 ≢ minus_one → (fetch_int (lookup_int s).1).0 ≡ (lookup_int s).0
unfolding lookup_int fetch_int check raw_bytes
fetch_int-lookup_int s h = ground arith

pub fetch_int-le : (s : InState) → (fetch_int s).1.in_remaining ≤ s.in_remaining
unfolding fetch_int check raw_bytes advance
fetch_int-le s = ground arith

pub fetch_long-le : (s : InState) → (fetch_long s).1.in_remaining ≤ s.in_remaining
unfolding fetch_long check raw_bytes advance
fetch_long-le s = ground arith

pub set_error-has_error : (s : InState) (e : TlError) → has_error (set_error s e) ≡ true
unfolding set_error
set_error-has_error s e = ground arith
