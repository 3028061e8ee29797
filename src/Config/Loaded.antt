-- ===== src/Config/Loaded.antt =====
-- What a configuration that c-original/mtproto/mtproto-config.c has loaded is like, and that loading
-- it never fails half-way.
use mtproxy.Prelude.{
  ℕ, ◌<◌, ◌≡◌, refl, ◌∙◌, Bool, true, false, Option, none, some, ◌==◌, arith, Bool-cases,
  Option-cases, inl, inr, ap, sym, some-eq, subst, length,
}
use mtproxy.Prelude.Bytes.{Bytes}
use mtproxy.Prelude.Run.{ok, ok-eq, Run-cases, Returns, ended}
use mtproxy.Config.{Host, Config}
use mtproxy.Config.Clusters.{mf_cluster_lookup}
use mtproxy.Config.Parse.{Parser, preinit_config, finish, parse_loop, parse_config}
use mtproxy.Config.Progress.{parse_loop-Returns}
use mtproxy.Config.Layout.{IsLaidOut}
use mtproxy.Config.TwoPass.{IsAgreeing, Linked}
use mtproxy.Config.Passes.{filling}
use mtproxy.Config.Names.{StillResolves}
use mtproxy.Config.Rounds.{parse_loop-Follows}
use mtproxy.Config.Reload.{Reload, rejected, checked, fatal, applied}

-- The clusters are laid out, there is one, and the default one has the default number.
pub record IsLoaded (mc : Config) : Type 0 where
  pub laid_out : IsLaidOut mc
  pub some_cluster : 0 < mc.auth_clusters
  pub with_proxy : mc.have_proxy ≡ true
  pub default_found : mc.default_cluster ≡ mf_cluster_lookup mc mc.default_cluster_id false

-- An empty configuration lies over an empty array.
Linked-preinit :
    (lowest highest : ℕ) (c d : Config)
    → c.tot_clusters ≡ 0
    → d.tot_clusters ≡ 0
    → Linked (preinit_config lowest highest c) (preinit_config lowest highest d)
unfolding preinit_config
Linked-preinit lowest highest c d zc zd = (
  record {
    uncounted = zc;
    same_targets = refl;
    same_clusters = refl;
    same_default = refl;
    same_min = refl;
    same_max = refl;
    same_timeout = refl;
    same_ids = λ i p. absurd (omega arith);
  },
  record {
    few_targets = omega arith;
    few_clusters = omega arith;
    counted = zd;
    none_left = λ z. refl;
    first = λ p. absurd (omega arith);
    adjacent = λ i p. absurd (omega arith);
    last = λ i p. absurd (omega arith);
    nonempty = λ i p. absurd (omega arith);
    distinct = λ i j p q e. absurd (omega arith);
    created = λ i p. absurd (omega arith);
  },
)

abbrev with_default : Config → Config
with_default mc =
    let loaded = record mc { have_proxy = true } in
    record loaded { default_cluster = mf_cluster_lookup loaded mc.default_cluster_id false }

IsAgreeing-default : (c d : Config) → IsAgreeing c d → IsAgreeing (with_default c) (with_default d)
IsAgreeing-default c d a = record {
  uncounted = a.uncounted;
  same_targets = a.same_targets;
  same_clusters = a.same_clusters;
  same_default = a.same_default;
  same_min = a.same_min;
  same_max = a.same_max;
  same_timeout = a.same_timeout;
  same_ids = a.same_ids;
}

IsLaidOut-default : (d : Config) → IsLaidOut d → IsLaidOut (with_default d)
IsLaidOut-default d h = record {
  few_targets = h.few_targets;
  few_clusters = h.few_clusters;
  counted = h.counted;
  none_left = h.none_left;
  first = h.first;
  adjacent = h.adjacent;
  last = h.last;
  nonempty = h.nonempty;
  distinct = h.distinct;
  created = h.created;
}

finish-some :
    (p : Parser) (c : Config)
    → finish p ≡ some c
    → (p.proxies ≡ true) × (0 < p.config.auth_clusters) × (with_default p.config ≡ c)
unfolding finish
finish-some p c e = elim (Bool-cases p.proxies) [
  | inr bad ↦ absurd (ground (arith, bad, e))
  | inl good ↦ elim (Bool-cases (p.config.auth_clusters == 0)) [
    | inl empty ↦ absurd (ground (arith, good, empty, e))
    | inr full ↦ (good, ground (arith, full), some-eq (ground (arith, good, full, e)))
  ]
]

finish-eq :
    (p : Parser)
    → p.proxies ≡ true
    → 0 < p.config.auth_clusters
    → finish p ≡ some (with_default p.config)
unfolding finish
finish-eq p good full = ground (arith, good, full)

-- The search does not look at the default cluster.
default_found_lem :
    (mc : Config)
    → (with_default mc).default_cluster
      ≡ mf_cluster_lookup (with_default mc) (with_default mc).default_cluster_id false
unfolding mf_cluster_lookup
default_found_lem mc = refl

module _ (fuel lowest highest : ℕ) (text : Bytes) where
  abbrev start : Config → Parser
  start mc = record {
    lexer = record { cur = text; lno = 0; lex = none };
    config = preinit_config lowest highest mc;
    proxies = false;
  }

  -- The parser that the loop ends with, where parse_config succeeds.
  parse_config-some :
      (resolve : Bytes → Bytes → Option Host) (create : Bool) (mc c : Config)
      → parse_config resolve fuel create lowest highest text mc ≡ ok (some c)
      → (p : Parser) × (parse_loop resolve fuel create (start mc) ≡ ok (some p))
        × (finish p ≡ some c)
  unfolding parse_config
  parse_config-some resolve create mc c e =
      elim (Run-cases (parse_loop resolve fuel create (start mc))) [
        | inl (r, done) ↦ elim (Option-cases r) [
          | inl bad ↦ absurd (ground (arith, done, bad, e))
          | inr (p, found) ↦
              (p, ground (arith, done, found), ok-eq (ground (arith, done, found, e)))
        ]
        | inr (inl bad) ↦ absurd (ground (arith, bad, e))
        | inr (inr bad) ↦ absurd (ground (arith, bad, e))
      ]

  parse_config-ok :
      (resolve : Bytes → Bytes → Option Host) (create : Bool) (mc : Config) (p : Parser)
      → parse_loop resolve fuel create (start mc) ≡ ok (some p)
      → parse_config resolve fuel create lowest highest text mc ≡ ok (finish p)
  unfolding parse_config
  parse_config-ok resolve create mc p e = ground (arith, e)

  -- The first pass counts no clusters.
  parse_config-uncounted :
      (resolve : Bytes → Bytes → Option Host) (mc c : Config)
      → mc.tot_clusters ≡ 0
      → parse_config resolve fuel false lowest highest text mc ≡ ok (some c)
      → c.tot_clusters ≡ 0
  parse_config-uncounted resolve mc c z e =
      let (p, done, end) = parse_config-some resolve false mc c e in
      let (_, _, same) = finish-some p c end in
      let (d, _, (a, _)) =
        parse_loop-Follows resolve resolve (λ name rest h e i. (h, e, i)) fuel (start mc) p
          (preinit_config lowest highest mc) (Linked-preinit lowest highest mc mc z z) done in
      ap (λ (x : Config). x.tot_clusters) (sym same) ∙ a.uncounted

  -- Where parse_config accepts a file in the first pass, and the names are still resolved to internet addresses in the
  -- second one, perhaps to others, the second pass accepts it as well, into the configuration that the first one leaves, whose count of clusters was zero. The two have the same
  -- options and the same clusters by their numbers, and what the second pass leaves is well formed.
  pub parse_config_second_pass :
      (resolve resolve_again : Bytes → Bytes → Option Host) (mc c : Config)
      → StillResolves resolve resolve_again
      → mc.tot_clusters ≡ 0
      → parse_config resolve fuel false lowest highest text mc ≡ ok (some c)
      → (d : Config) × (parse_config resolve_again fuel true lowest highest text c ≡ ok (some d))
        × (IsAgreeing c d)
        × (IsLoaded d)
  parse_config_second_pass resolve resolve_again mc c still z e =
      let (p, done, end) = parse_config-some resolve false mc c e in
      let (proxies, some_cluster, same) = finish-some p c end in
      let zc = parse_config-uncounted resolve mc c z e in
      let (d, also, (a, h)) =
        parse_loop-Follows resolve resolve_again still fuel (start mc) p
          (preinit_config lowest highest c) (Linked-preinit lowest highest mc c z zc) done in
      (
        with_default d,
        parse_config-ok resolve_again true c (filling p d) also
            ∙ ap (λ (x : Option Config). ok x)
                (finish-eq (filling p d) proxies (ground (arith, a.same_clusters))),
        subst (λ x. IsAgreeing x (with_default d)) same (IsAgreeing-default p.config d a),
        record {
          laid_out = IsLaidOut-default d h;
          some_cluster = ground (arith, a.same_clusters);
          with_proxy = refl;
          default_found = default_found_lem d;
        },
      )

  -- parse_config ends, whatever the text is.
  pub parse_config-Returns :
      (resolve : Bytes → Bytes → Option Host) (create : Bool) (mc : Config)
      → length text < fuel
      → Returns (λ r. Unit {0}) (parse_config resolve fuel create lowest highest text mc)
  unfolding parse_config
  parse_config-Returns resolve create mc h =
      elim (parse_loop-Returns resolve fuel create (start mc) h) [
        | ended (some p) e u ↦ ended (finish p) (ground (arith, e)) tt
        | ended none e u ↦ ended none (ground (arith, e)) tt
      ]

-- What a reload may end with: the configuration that is applied is well formed, and the one it
-- replaces is ready for the next reload.
abbrev pub IsReloaded : Reload → Type 0
IsReloaded rejected = Unit {0}
IsReloaded checked = Unit {0}
IsReloaded fatal = ⊥
IsReloaded (applied cur next) = (IsLoaded cur) × (next.tot_clusters ≡ 0) × (next.auth_clusters ≡ 0)
