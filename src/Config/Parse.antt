-- ===== src/Config/Parse.antt =====
-- parse_config of c-original/mtproto/mtproto-config.c. A syntax error, for which the source prints a
-- message and returns -1, is `none`. The flag `create` is the source's `flags & 1`: the first pass
-- checks the syntax, and the second one creates the targets as well.
use mtproxy.Prelude.{
  ℕ, zero, suc, ◌+◌, ◌-◌, ◌^◌, ◌%◌, Bool, true, false, Option, none, some, ltb, leb, ◌==◌, ◌&&◌,
  ◌||◌, not, if◌then◌else◌, take, drop, ◌>>=◌, ◌>>◌, verify,
}
use mtproxy.Prelude.Bytes.{Bytes}
use mtproxy.Prelude.Int.{int_lt, long_lt}
use mtproxy.Prelude.Run.{Run, ok, abort, out_of_fuel}
use mtproxy.Config.{
  Host, inet, inet6, other_family, Target, Config, max_cfg_clusters, max_cfg_targets,
}
use mtproxy.Config.Lexer.{
  Lex, peek, cfg_skipspc, cfg_skspc, cfg_getlex_ext, cfg_getword, cfg_getint,
  cfg_getint_signed_zero, is_lexeme,
}
use mtproxy.Config.Clusters.{
  mf_cluster_lookup, init_old_mf_cluster, extend_old_mf_cluster, set_cluster,
}

-- The lexer, the configuration that is filled in, and the variable `have_proxy`.
pub record Parser : Type 0 where
  pub lexer : Lex
  pub config : Config
  pub proxies : Bool

-- How a round of the loop ends.
pub data Round : Type 0 where
  finished again : Parser → Round
  failed : Round

-- A lexeme that must stand next, as in cfg_getlex_ext () and Expect (c).
unfoldable pub expect : Lex → ℕ → Option Lex
expect l c = let (_, m) = cfg_getlex_ext l in do verify (is_lexeme m c); some m

unfoldable pub is_internet : Host → Bool
is_internet (inet ip) = true
is_internet (inet6 ip) = true
is_internet other_family = false

-- case 't': milliseconds
unfoldable pub timeout_directive : Parser → Option Parser
timeout_directive p =
    let (x, l) = cfg_getint p.lexer in
    if long_lt x 10 || long_lt 30000 x
    then none
    else some (record p { lexer = l; config = record p.config { timeout = x } })

-- case 'X'
unfoldable pub max_directive : Parser → Option Parser
max_directive p =
    let (x, l) = cfg_getint p.lexer in
    let n = x % 2 ^ 32 in
    if int_lt n p.config.min_connections || int_lt 1000 n
    then none
    else some (record p { lexer = l; config = record p.config { max_connections = n } })

-- case 'x'
unfoldable pub min_directive : Parser → Option Parser
min_directive p =
    let (x, l) = cfg_getint p.lexer in
    let n = x % 2 ^ 32 in
    if int_lt n 1 || int_lt p.config.max_connections n
    then none
    else some (record p { lexer = l; config = record p.config { min_connections = n } })

-- preinit_config
unfoldable pub preinit_config : ℕ → ℕ → Config → Config
preinit_config default_min default_max mc = record mc {
  tot_targets = 0;
  auth_clusters = 0;
  min_connections = default_min;
  max_connections = default_max;
  timeout = 300;
  default_cluster_id = 0;
  default_cluster = none;
}

-- What follows the loop.
unfoldable pub finish : Parser → Option Config
finish p =
    let mc = p.config in
    if not p.proxies
    then none
    else if mc.auth_clusters == 0
    then none
    else (let loaded = record mc { have_proxy = true } in
        some (record loaded {
          default_cluster = mf_cluster_lookup loaded mc.default_cluster_id false;
        }))

-- A target that stands at index `targ` joins the cluster target_dc, or opens it.
unfoldable pub add_target : Bool → ℕ → ℕ → Config → Option Config
add_target create targ target_dc mc =
    let n = mc.auth_clusters in
    elim (mf_cluster_lookup mc target_dc false) [
      | none ↦
          let opened =
            if create
            then init_old_mf_cluster mc n targ 1 1 target_dc
            else set_cluster mc n (record (mc.auth_cluster n) { cluster_id = target_dc }) in
          some (record opened { auth_clusters = n + 1 })
      | some i ↦
          if not (i + 1 == n)
          then none
          else if create
          then extend_old_mf_cluster mc i targ target_dc
          else some mc
    ]

-- The target that stands behind the others.
unfoldable pub new_target : Bool → Host → ℕ → Config → Config
new_target create h port mc =
    let target : Target = record {
      target = h;
      port = port;
      min_connections = mc.min_connections;
      max_connections = mc.max_connections;
    } in
    record mc {
      tot_targets = mc.tot_targets + 1;
      targets =
          if create
          then (λ i. if mc.tot_targets == i then some target else mc.targets i)
          else mc.targets;
    }

-- What the resolver answers is not known here. Each call of it is told apart by the name and by the text that
-- follows it, and may have an answer of its own.
module _ (resolve : Bytes → Bytes → Option Host) where
  -- cfg_gethost
  unfoldable pub cfg_gethost : Lex → Option (Host × Lex)
  cfg_gethost s =
      let (n, l) = cfg_getword s in
      if n == 0 || ltb 63 n
      then none
      else (do h ← resolve (take n l.cur) (drop n l.cur); some (h, record l { cur = drop n l.cur }))

  -- The host, the colon and the port of cfg_parse_server_port.
  unfoldable pub read_host_port : Lex → Option (Host × ℕ × Lex)
  read_host_port s = do
    (h, l) ← cfg_gethost s
    verify (is_internet h)
    m ← expect l b':'
    let (x, r) = cfg_getint m
    let port = x % 2 ^ 32
    verify (not (port == 0))
    verify (not (not (int_lt 0 port) || not (int_lt port 0x10000)))
    some (h, port, r)

  -- cfg_parse_server_port, with the index of the target
  unfoldable pub cfg_parse_server_port : Bool → Parser → Option (ℕ × Parser)
  cfg_parse_server_port create p = if leb max_cfg_targets p.config.tot_targets then none else (do
    (h, port, l) ← read_host_port p.lexer
    some (p.config.tot_targets, record p { lexer = l; config = new_target create h port p.config }))

  -- case 'y'
  unfoldable pub proxy_directive : Bool → ℕ → Parser → Option Parser
  proxy_directive create target_dc p =
      if leb max_cfg_clusters p.config.auth_clusters then none else (do
        (targ, q) ← cfg_parse_server_port create p
        mc ← add_target create targ target_dc q.config
        some (record q { config = mc; proxies = true }))

  -- cases 'D' and 'Y'
  unfoldable pub target_directive : Bool → Bool → Parser → Option Parser
  target_directive create is_default p =
      let (dc, l) = cfg_getint_signed_zero p.lexer in
      let target_dc = dc % 2 ^ 32 in
      if long_lt dc (2 ^ 64 - 0x8000) || not (long_lt dc 0x8000)
      then none
      else if is_default
      then some
          (record p { lexer = l; config = record p.config { default_cluster_id = target_dc } })
      else if not (peek l.cur == b' ') && not (peek l.cur == 9)
      then none
      else proxy_directive create target_dc (record p { lexer = (cfg_skspc l).1 })

  -- The switch on the lexeme, but for the end of the text.
  unfoldable pub directive : Bool → ℕ → Parser → Option Parser
  directive create t p =
      if t == b't'
      then timeout_directive p
      else if t == b'D' || t == b'Y'
      then target_directive create (t == b'D') p
      else if t == b'y'
      then proxy_directive create 0 p
      else if t == b'X'
      then max_directive p
      else if t == b'x'
      then min_directive p
      else none

  -- One directive and the semicolon behind it.
  unfoldable pub statement : Bool → ℕ → Parser → Round
  statement create t p = elim (directive create t p) [
    | none ↦ failed
    | some q ↦ elim (expect q.lexer b';') [
      | none ↦ failed
      | some l ↦ again (record q { lexer = l })
    ]
  ]

  -- One round of the loop of parse_config.
  unfoldable pub parse_round : Bool → Parser → Round
  parse_round create p =
      let (c, l) = cfg_skipspc p.lexer in
      let (t, m) = cfg_getlex_ext l in
      if c == 0 then finished (record p { lexer = l }) else elim t [
        | none ↦ failed
        | some d ↦
            if d == 0
            then finished (record p { lexer = m })
            else statement create d (record p { lexer = m })
      ]

  -- while (cfg_skipspc ())
  unfoldable pub parse_loop : ℕ → Bool → Parser → Run (Option Parser)
  parse_loop zero create p = out_of_fuel
  parse_loop (suc k) create p = elim (parse_round create p) [
    | finished q ↦ ok (some q)
    | failed ↦ ok none
    | again q ↦ parse_loop k create q
  ]

  -- parse_config on the text that load_config has read. The defaults are the options'
  -- default_cfg_min_connections and default_cfg_max_connections.
  unfoldable pub parse_config : ℕ → Bool → ℕ → ℕ → Bytes → Config → Run (Option Config)
  parse_config fuel create default_min default_max text mc =
      let start : Parser = record {
        lexer = record { cur = text; lno = 0; lex = none };
        config = preinit_config default_min default_max mc;
        proxies = false;
      } in
      elim (parse_loop fuel create start) [
        | ok (some p) ↦ ok (finish p)
        | ok none ↦ ok none
        | abort ↦ abort
        | out_of_fuel ↦ out_of_fuel
      ]
