-- ===== src/Config/Rounds.antt =====
-- The rounds of parse_config (c-original/mtproto/mtproto-config.c): where a round of the first pass goes
-- on or ends, that of the second one does as well.
use mtproxy.Prelude.{
  ℕ, zero, suc, ◌≡◌, ◌≢◌, refl, true, false, Option, some, ◌==◌, arith, Bool-cases, Option-cases,
  inl, inr, ◌⊎◌, some-eq, subst,
}
use mtproxy.Prelude.Bytes.{Bytes}
use mtproxy.Prelude.Run.{ok, ok-eq}
use mtproxy.Config.{Host, Config}
use mtproxy.Config.Lexer.{cfg_skipspc, cfg_getlex_ext}
use mtproxy.Config.Parse.{
  Parser, Round, finished, again, failed, expect, directive, statement, parse_round, parse_loop,
}
use mtproxy.Config.Names.{StillResolves}
use mtproxy.Config.Passes.{filling, directive-Follows}
use mtproxy.Config.TwoPass.{Linked}

again-eq : {p q : Parser} → again p ≡ again q → p ≡ q
again-eq e = cc

finished-eq : {p q : Parser} → finished p ≡ finished q → p ≡ q
finished-eq e = cc

Round-cases :
    (r : Round)
    → ((q : Parser) × (r ≡ finished q)) ⊎ (((q : Parser) × (r ≡ again q)) ⊎ (r ≡ failed))
Round-cases (finished q) = inl (q, refl)
Round-cases (again q) = inr (inl (q, refl))
Round-cases failed = inr (inr refl)

module _ (resolve resolve_again : Bytes → Bytes → Option Host)
    (still : StillResolves resolve resolve_again) where
  -- The same for a round of the loop, which ends in one of three ways.
  abbrev Beside : (Parser → Round) → Parser → Round → Type 0
  Beside end p' r = (d' : Config) × (r ≡ end (filling p' d')) × (Linked p'.config d')

  statement-again :
      (t : ℕ) (p p' : Parser) (d : Config)
      → Linked p.config d
      → statement resolve false t p ≡ again p'
      → Beside again p' (statement resolve_again true t (filling p d))
  unfolding statement
  statement-again t p p' d link e = elim (Option-cases (directive resolve false t p)) [
    | inl bad ↦ absurd (ground (arith, bad, e))
    | inr (q, done) ↦ elim (Option-cases (expect q.lexer b';')) [
      | inl bad ↦ absurd (ground (arith, done, bad, e))
      | inr (l, found) ↦
          let (d', also, link') = directive-Follows resolve resolve_again still t p q d link done in
          let ends : again (record q { lexer = l }) ≡ again p' = ground (arith, done, found, e) in
          let same : record q { lexer = l } ≡ p' = again-eq ends in
          subst (λ r. Beside again r (statement resolve_again true t (filling p d))) same
            (d', ground (arith, also, found), link')
    ]
  ]

  statement-finished : (t : ℕ) (p q : Parser) → statement resolve false t p ≢ finished q
  unfolding statement
  statement-finished t p q e = elim (Option-cases (directive resolve false t p)) [
    | inl bad ↦ ground (arith, bad, e)
    | inr (r, done) ↦ elim (Option-cases (expect r.lexer b';')) [
      | inl bad ↦ ground (arith, done, bad, e)
      | inr (l, found) ↦ ground (arith, done, found, e)
    ]
  ]

  parse_round-again :
      (p p' : Parser) (d : Config)
      → Linked p.config d
      → parse_round resolve false p ≡ again p'
      → Beside again p' (parse_round resolve_again true (filling p d))
  unfolding parse_round
  parse_round-again p p' d link e =
      let (c, l) = cfg_skipspc p.lexer in
      let q = record p { lexer = (cfg_getlex_ext l).1 } in
      elim (Bool-cases (c == 0)) [
        | inl end ↦ absurd (ground (arith, end, e))
        | inr more ↦ elim (Option-cases (cfg_getlex_ext l).0) [
          | inl bad ↦ absurd (ground (arith, more, bad, e))
          | inr (t, read) ↦ elim (Bool-cases (t == 0)) [
            | inl end ↦ absurd (ground (arith, more, read, end, e))
            | inr word ↦
                subst (λ r. Beside again p' r) (ground (arith, more, read, word))
                  (statement-again t q p' d link (ground (arith, more, read, word, e)))
          ]
        ]
      ]

  parse_round-finished :
      (p p' : Parser) (d : Config)
      → Linked p.config d
      → parse_round resolve false p ≡ finished p'
      → Beside finished p' (parse_round resolve_again true (filling p d))
  unfolding parse_round
  parse_round-finished p p' d link e =
      let (c, l) = cfg_skipspc p.lexer in
      let m = (cfg_getlex_ext l).1 in
      let goal : Parser → Type 0 =
        λ r. Beside finished r (parse_round resolve_again true (filling p d)) in
      elim (Bool-cases (c == 0)) [
        | inl end ↦
            let stop : record p { lexer = l } ≡ p' = finished-eq (ground (arith, end, e)) in
            subst goal stop (d, ground (arith, end), link)
        | inr more ↦ elim (Option-cases (cfg_getlex_ext l).0) [
          | inl bad ↦ absurd (ground (arith, more, bad, e))
          | inr (t, read) ↦ elim (Bool-cases (t == 0)) [
            | inl end ↦
                let stop : record p { lexer = m } ≡ p' =
                  finished-eq (ground (arith, more, read, end, e)) in
                subst goal stop (d, ground (arith, more, read, end), link)
            | inr word ↦ absurd (
                statement-finished t (record p { lexer = m }) p'
                  (ground (arith, more, read, word, e)))
          ]
        ]
      ]

  -- The loop of the second pass ends where that of the first one does.
  pub parse_loop-Follows :
      (fuel : ℕ) (p p' : Parser) (d : Config)
      → Linked p.config d
      → parse_loop resolve fuel false p ≡ ok (some p')
      → (d' : Config) × (parse_loop resolve_again fuel true (filling p d)
          ≡ ok (some (filling p' d')))
        × (Linked p'.config d')
  unfolding parse_loop
  parse_loop-Follows zero p p' d link e = cc
  parse_loop-Follows (suc k) p p' d link e = elim (Round-cases (parse_round resolve false p)) [
    | inl (q, s) ↦
        let (d', also, link') = parse_round-finished p q d link s in
        let same : q ≡ p' = some-eq (ok-eq (ground (arith, s, e))) in
        subst
          (λ r.
            (d' : Config) × (parse_loop resolve_again (suc k) true (filling p d)
              ≡ ok (some (filling r d')))
            × (Linked r.config d'))
          same (d', ground (arith, also), link')
    | inr (inl (q, s)) ↦
        let (d', also, link') = parse_round-again p q d link s in
        let (d'', end, link'') = parse_loop-Follows k q p' d' link' (ground (arith, s, e)) in
        (d'', ground (arith, also, end), link'')
    | inr (inr s) ↦ absurd (ground (arith, s, e))
  ]
