-- ===== src/Config/Names.antt =====
-- The names of servers in the two passes of parse_config: cfg_gethost and cfg_parse_server_port of
-- c-original/common/parse-config.c and c-original/mtproto/mtproto-config.c.
use mtproxy.Prelude.{
  take, drop, ltb, ℕ, ◌^◌, ◌%◌, ◌≡◌, ◌∙◌, true, Option, some, ◌==◌, ◌||◌, not, arith, Bool-cases,
  Option-cases, inl, inr, ap, some-eq,
}
use mtproxy.Prelude.Bytes.{Bytes}
use mtproxy.Prelude.Int.{int_lt}
use mtproxy.Config.{Host}
use mtproxy.Config.Lexer.{Lex, cfg_getword, cfg_getint}
use mtproxy.Config.Parse.{is_internet, cfg_gethost, expect, read_host_port}

-- Names are resolved anew in the second pass. What is resolved in the first pass still is, perhaps to another address.
abbrev pub StillResolves : (Bytes → Bytes → Option Host) → (Bytes → Bytes → Option Host) → Type 0
StillResolves resolve resolve_again =
    (name rest : Bytes) (h : Host)
    → resolve name rest ≡ some h
    → is_internet h ≡ true
    → (h' : Host) × (resolve_again name rest ≡ some h') × (is_internet h' ≡ true)

module _ (resolve resolve_again : Bytes → Bytes → Option Host)
    (still : StillResolves resolve resolve_again) where
  cfg_gethost-again :
      (l : Lex) (h : Host) (r : Lex)
      → cfg_gethost resolve l ≡ some (h, r)
      → is_internet h ≡ true
      → (h' : Host) × (cfg_gethost resolve_again l ≡ some (h', r)) × (is_internet h' ≡ true)
  unfolding cfg_gethost
  cfg_gethost-again s h r e i =
      let (n, l) = cfg_getword s in
      let name = take n l.cur in
      let rest = drop n l.cur in
      elim (Bool-cases (n == 0 || ltb 63 n)) [
        | inl bad ↦ absurd (ground (arith, bad, e))
        | inr good ↦ elim (Option-cases (resolve name rest)) [
          | inl none_there ↦ absurd (ground (arith, good, none_there, e))
          | inr (found, got) ↦
              let both : ◌≡◌ {A = Host × Lex} (found, record l { cur = rest }) (h, r) =
                some-eq (ground (arith, good, got, e)) in
              let same : found ≡ h = ap (λ z. z.0) both in
              let (h', got', i') = still name rest h (got ∙ ap (λ z. some z) same) i in
              (h', ground (arith, good, got', ap (λ z. z.1) both), i')
        ]
      ]

  pub read_host_port-again :
      (l : Lex) (host : Host) (port : ℕ) (r : Lex)
      → read_host_port resolve l ≡ some (host, port, r)
      → (host' : Host) × (read_host_port resolve_again l ≡ some (host', port, r))
  unfolding read_host_port
  read_host_port-again s host port r e = elim (Option-cases (cfg_gethost resolve s)) [
    | inl bad ↦ absurd (ground (arith, bad, e))
    | inr ((h, l), got) ↦ elim (Bool-cases (is_internet h)) [
      | inr bad ↦ absurd (ground (arith, got, bad, e))
      | inl i ↦
          let (h', got', i') = cfg_gethost-again s h l got i in
          elim (Option-cases (expect l b':')) [
            | inl bad ↦ absurd (ground (arith, got, i, bad, e))
            | inr (m, colon) ↦
                let (x, q) = cfg_getint m in
                let low = x % 2 ^ 32 == 0 in
                let wide = not (int_lt 0 (x % 2 ^ 32)) || not (int_lt (x % 2 ^ 32) 0x10000) in
                elim (Bool-cases low) [
                  | inl bad ↦ absurd (ground (arith, got, i, colon, bad, e))
                  | inr good ↦ elim (Bool-cases wide) [
                    | inl bad ↦ absurd (ground (arith, got, i, colon, good, bad, e))
                    | inr fits ↦
                        let both : ◌≡◌ {A = Host × ℕ × Lex} (h, x % 2 ^ 32, q) (host, port, r) =
                          some-eq (ground (arith, got, i, colon, good, fits, e)) in
                        (
                          h',
                          ground (arith, got', i', colon, good, fits)
                              ∙ ap (λ z. some (h', z.1, z.2)) both,
                        )
                  ]
                ]
          ]
    ]
  ]
