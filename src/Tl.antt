-- ===== src/Tl.antt =====
-- The TL reader and writer states of c-original/common/tl-parse.h. The children hold the readers
-- (Fetch), the writers (Store), the query and answer headers (Header) and what is proved of them.
--
-- The bytes from the read pointer on are the list `input`; `in_remaining` is the reader's own
-- count, which its creator sets. Both the string and the raw message methods read this way. An
-- error keeps its number, by name, and not its text. Of the writer, `output` holds the bytes stored
-- and `out_limit` is the source's out_pos + out_remaining, which no writer changes: the source's
-- `out_remaining < n` is `out_limit < out_pos + n`.
pub mod Fetch
pub mod Store
pub mod StringCode
mod Header
mod StoreHeader
mod Frame
mod HeaderTotal
mod Ready
mod AnswerLoop
mod HeaderLaws
mod Bounds
mod Strings
mod Tests
use mtproxy.Prelude.{
  ℕ, ◌+◌, ◌-◌, ◌%◌, Bool, true, false, Option, none, some, List, ltb, if◌then◌else◌, drop,
}
use mtproxy.Prelude.Int.{ℤ, pos, negsuc}
use mtproxy.Prelude.Bytes.{Bytes}

pub data TlType : Type 0 where
  type_none type_str type_raw_msg type_tcp_raw_msg : TlType

-- The TL_ERROR_ numbers that the readers set.
pub data TlError : Type 0 where
  internal not_enough_data syntax too_long_string extra_data header value_not_in_range : TlError

pub record InState : Type 0 where
  pub in_type : TlType
  pub input : Bytes
  pub in_remaining : ℕ
  pub in_pos : ℕ
  pub in_flags : ℕ
  pub in_mark : Option Bytes
  pub in_mark_pos : ℕ
  pub error : Option TlError

pub record OutState : Type 0 where
  pub out_type : TlType
  pub output : Bytes
  pub out_pos : ℕ
  pub out_limit : ℕ
  pub out_qid : ℕ

abbrev pub is_none_type : TlType → Bool
is_none_type type_none = true
is_none_type _ = false

abbrev pub has_error : InState → Bool
has_error s = elim s.error [ none ↦ false | some _ ↦ true ]

-- The first error stays.
unfoldable pub set_error : InState → TlError → InState
set_error s e = elim s.error [ none ↦ record s { error = some e } | some _ ↦ s ]

abbrev pub out_of_range : InState → ℤ → Bool
out_of_range s (pos n) = ltb s.in_remaining n
out_of_range s (negsuc n) = ltb s.in_pos (n + 1)

-- `true` is the source's 0, and `false` its -1.
unfoldable pub check : InState → ℤ → Bool × InState
unfolding set_error
check s n =
    if is_none_type s.in_type
    then (false, set_error s internal)
    else if out_of_range s n
    then (false, set_error s not_enough_data)
    else if has_error s
    then (false, s)
    else (true, s)

-- What fetch_raw_data and fetch_move do to the state.
unfoldable pub advance : InState → ℕ → InState
advance s n = record s {
  input = drop n s.input;
  in_pos = s.in_pos + n;
  in_remaining = s.in_remaining - n;
}

-- (-pos) & 3
abbrev pub pad_of : ℕ → ℕ
pad_of p = (4 - p % 4) % 4

-- The int pattern of the result -1.
abbrev pub minus_one : ℕ
minus_one = 0xffffffff
