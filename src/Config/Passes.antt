-- ===== src/Config/Passes.antt =====
-- Where the first pass of parse_config (c-original/mtproto/mtproto-config.c) goes on, the second one
-- does as well.
use mtproxy.Prelude.{
  ℕ, ◌-◌, ◌^◌, ◌%◌, ◌<◌, ◌≡◌, refl, ◌∙◌, Bool, true, false, Option, some, ◌==◌, ◌&&◌, ◌||◌, not,
  arith, Bool-cases, Option-cases, inl, inr, ap, sym, some-eq, subst,
}
use mtproxy.Prelude.Bytes.{Bytes}
use mtproxy.Prelude.Int.{int_lt, long_lt}
use mtproxy.Config.{Host, Config, max_cfg_clusters, max_cfg_targets}
use mtproxy.Config.Lexer.{peek, cfg_skspc, cfg_getint, cfg_getint_signed_zero}
use mtproxy.Config.Parse.{
  Parser, new_target, add_target, read_host_port, timeout_directive, max_directive, min_directive,
  cfg_parse_server_port, proxy_directive, target_directive, directive,
}
use mtproxy.Config.Names.{StillResolves, read_host_port-again}
use mtproxy.Config.TwoPass.{Linked, add_target-Follows}

-- The parser of the second pass: what it reads is the same, what it fills in is d.
abbrev pub filling : Parser → Config → Parser
filling p d = record p { config = d }

-- The second pass's result q where the first one goes on with p'.
abbrev pub Follows : Parser → Option Parser → Type 0
Follows p' q = (d' : Config) × (q ≡ some (filling p' d')) × (Linked p'.config d')

-- The options do not matter to the layout.
abbrev with_options : Config → ℕ → ℕ → ℕ → ℕ → Config
with_options c lowest highest timeout default_id = record c {
  min_connections = lowest;
  max_connections = highest;
  timeout = timeout;
  default_cluster_id = default_id;
}

Linked-options :
    (c d : Config) {m m' n n' t t' i i' : ℕ}
    → Linked c d
    → m' ≡ m
    → n' ≡ n
    → t' ≡ t
    → i' ≡ i
    → Linked (with_options c m n t i) (with_options d m' n' t' i')
Linked-options c d (a, h) em en et ei = (
  record {
    uncounted = a.uncounted;
    same_targets = a.same_targets;
    same_clusters = a.same_clusters;
    same_default = ei;
    same_min = em;
    same_max = en;
    same_timeout = et;
    same_ids = a.same_ids;
  },
  record {
    few_targets = h.few_targets;
    few_clusters = h.few_clusters;
    counted = h.counted;
    none_left = h.none_left;
    first = h.first;
    adjacent = h.adjacent;
    last = h.last;
    nonempty = h.nonempty;
    distinct = h.distinct;
    created = h.created;
  },
)

-- A configuration that the first pass reaches, and the one beside it.
Follows-from :
    (q : Parser) {p' : Parser} {o o' : Option Parser} (d' : Config)
    → o ≡ some q
    → o ≡ some p'
    → o' ≡ some (filling q d')
    → Linked q.config d'
    → Follows p' o'
Follows-from q {o' = o'} d' e e' f l = subst (λ r. Follows r o') (some-eq (sym e ∙ e')) (d', f, l)

Follows-eq : {p' : Parser} {o o' : Option Parser} → o ≡ o' → Follows p' o → Follows p' o'
Follows-eq {p' = p'} e f = subst (λ r. Follows p' r) e f

module _ (p : Parser) (d : Config) (linked : Linked p.config d) where
  timeout_directive-Follows :
      (p' : Parser) → timeout_directive p ≡ some p' → Follows p' (timeout_directive (filling p d))
  unfolding timeout_directive
  timeout_directive-Follows p' e =
      let (a, h) = linked in
      let (x, l) = cfg_getint p.lexer in
      elim (Bool-cases (long_lt x 10 || long_lt 30000 x)) [
        | inl bad ↦ absurd (ground (arith, bad, e))
        | inr good ↦
            Follows-from (record p { lexer = l; config = record p.config { timeout = x } })
              (record d { timeout = x }) (ground (arith, good)) e (ground (arith, good))
              (Linked-options p.config d linked a.same_min a.same_max refl a.same_default)
      ]

  max_directive-Follows :
      (p' : Parser) → max_directive p ≡ some p' → Follows p' (max_directive (filling p d))
  unfolding max_directive
  max_directive-Follows p' e =
      let (a, h) = linked in
      let (x, l) = cfg_getint p.lexer in
      let n = x % 2 ^ 32 in
      let test : ℕ → Bool = λ low. int_lt n low || int_lt 1000 n in
      elim (Bool-cases (test p.config.min_connections)) [
        | inl bad ↦ absurd (ground (arith, bad, e))
        | inr good ↦
            let good' : test d.min_connections ≡ false = ap test a.same_min ∙ good in
            Follows-from (record p { lexer = l; config = record p.config { max_connections = n } })
              (record d { max_connections = n }) (ground (arith, good)) e (ground (arith, good'))
              (Linked-options p.config d linked a.same_min refl a.same_timeout a.same_default)
      ]

  min_directive-Follows :
      (p' : Parser) → min_directive p ≡ some p' → Follows p' (min_directive (filling p d))
  unfolding min_directive
  min_directive-Follows p' e =
      let (a, h) = linked in
      let (x, l) = cfg_getint p.lexer in
      let n = x % 2 ^ 32 in
      let test : ℕ → Bool = λ high. int_lt n 1 || int_lt high n in
      elim (Bool-cases (test p.config.max_connections)) [
        | inl bad ↦ absurd (ground (arith, bad, e))
        | inr good ↦
            let good' : test d.max_connections ≡ false = ap test a.same_max ∙ good in
            Follows-from (record p { lexer = l; config = record p.config { min_connections = n } })
              (record d { min_connections = n }) (ground (arith, good)) e (ground (arith, good'))
              (Linked-options p.config d linked refl a.same_max a.same_timeout a.same_default)
      ]

-- The first pass does not look at the address.
new_target-again :
    (h h' : Host) (port : ℕ) (c : Config) → new_target false h port c ≡ new_target false h' port c
unfolding new_target
new_target-again h h' port c = refl

module _ (resolve resolve_again : Bytes → Bytes → Option Host)
    (still : StillResolves resolve resolve_again) where
  proxy_directive-Follows :
      (target_dc : ℕ) (p p' : Parser) (d : Config)
      → Linked p.config d
      → proxy_directive resolve false target_dc p ≡ some p'
      → Follows p' (proxy_directive resolve_again true target_dc (filling p d))
  unfolding proxy_directive cfg_parse_server_port
  proxy_directive-Follows target_dc p p' d (a, h) e =
      let c = p.config in
      elim (Option-cases (read_host_port resolve p.lexer)) [
        | inl bad ↦ absurd (ground (arith, bad, e))
        | inr ((host, port, l), got) ↦
            let fits : c.auth_clusters < max_cfg_clusters = ground (arith, e) in
            let room : c.tot_targets < max_cfg_targets = ground (arith, e) in
            let (host', got') =
              read_host_port-again resolve resolve_again still p.lexer host port l got in
            elim (Option-cases
              (add_target false c.tot_targets target_dc (new_target false host port c))) [
                | inl bad ↦ absurd (ground (arith, got, bad, e))
                | inr (c', grown) ↦
                    let (d', also, link) =
                      add_target-Follows c d host' port target_dc (a, h) room fits c'
                        (subst (λ x. add_target false c.tot_targets target_dc x ≡ some c')
                          (new_target-again host host' port c) grown) in
                    Follows-from (record p { lexer = l; config = c'; proxies = true }) d'
                      (ground (arith, got, grown)) e
                      (ground (arith, got', also, a.same_targets, a.same_clusters)) link
              ]
      ]

  target_directive-Follows :
      (is_default : Bool) (p p' : Parser) (d : Config)
      → Linked p.config d
      → target_directive resolve false is_default p ≡ some p'
      → Follows p' (target_directive resolve_again true is_default (filling p d))
  unfolding target_directive
  target_directive-Follows is_default p p' d (a, h) e =
      let (dc, l) = cfg_getint_signed_zero p.lexer in
      let target_dc = dc % 2 ^ 32 in
      let wide = long_lt dc (2 ^ 64 - 0x8000) || not (long_lt dc 0x8000) in
      let unspaced = not (peek l.cur == b' ') && not (peek l.cur == 9) in
      let q = record p { lexer = (cfg_skspc l).1 } in
      elim (Bool-cases wide) [
        | inl bad ↦ absurd (ground (arith, bad, e))
        | inr narrow ↦ elim (Bool-cases is_default) [
          | inl yes_default ↦
              Follows-from
                (record p {
                  lexer = l;
                  config = record p.config { default_cluster_id = target_dc };
                })
                (record d { default_cluster_id = target_dc }) (ground (arith, narrow, yes_default))
                e (ground (arith, narrow, yes_default))
                (Linked-options p.config d (a, h) a.same_min a.same_max a.same_timeout refl)
          | inr no_default ↦ elim (Bool-cases unspaced) [
            | inl bad ↦ absurd (ground (arith, narrow, no_default, bad, e))
            | inr spaced ↦ Follows-eq (ground (arith, narrow, no_default, spaced)) (
                proxy_directive-Follows target_dc q p' d (a, h)
                  (ground (arith, narrow, no_default, spaced, e)))
          ]
        ]
      ]

  pub directive-Follows :
      (t : ℕ) (p p' : Parser) (d : Config)
      → Linked p.config d
      → directive resolve false t p ≡ some p'
      → Follows p' (directive resolve_again true t (filling p d))
  unfolding directive
  directive-Follows t p p' d link e = elim (Bool-cases (t == b't')) [
    | inl yes_t ↦
        Follows-eq (ground (arith, yes_t))
          (timeout_directive-Follows p d link p' (ground (arith, yes_t, e)))
    | inr no_t ↦ elim (Bool-cases (t == b'D' || t == b'Y')) [
      | inl yes_d ↦
          Follows-eq (ground (arith, no_t, yes_d))
            (target_directive-Follows (t == b'D') p p' d link (ground (arith, no_t, yes_d, e)))
      | inr no_d ↦ elim (Bool-cases (t == b'y')) [
        | inl yes_y ↦
            Follows-eq (ground (arith, no_t, no_d, yes_y))
              (proxy_directive-Follows 0 p p' d link (ground (arith, no_t, no_d, yes_y, e)))
        | inr no_y ↦ elim (Bool-cases (t == b'X')) [
          | inl yes_x ↦
              Follows-eq (ground (arith, no_t, no_d, no_y, yes_x))
                (max_directive-Follows p d link p' (ground (arith, no_t, no_d, no_y, yes_x, e)))
          | inr no_x ↦ elim (Bool-cases (t == b'x')) [
            | inl yes_m ↦ Follows-eq (ground (arith, no_t, no_d, no_y, no_x, yes_m)) (
                min_directive-Follows p d link p'
                  (ground (arith, no_t, no_d, no_y, no_x, yes_m, e)))
            | inr none_left ↦ absurd (ground (arith, no_t, no_d, no_y, no_x, none_left, e))
          ]
        ]
      ]
    ]
  ]
