-- ===== src/Config/Tests.antt =====
-- Concrete configuration files, and the theorems at inputs that meet their premises.
use mtproxy.Prelude.{
  ℕ, ◌≡◌, refl, true, false, Option, none, some, List, [], ◌∷◌, ◌==◌, if◌then◌else◌, arith,
}
use mtproxy.Prelude.Bytes.{Bytes, codes}
use mtproxy.Prelude.Run.{Run, ok, Returns}
use mtproxy.Config.{Host, inet, Cluster, Config}
use mtproxy.Config.Lexer.{
  skip_spaces, skip_blanks, stops_at, read_digits, cfg_skipspc, cfg_skspc, cfg_getlex_ext,
  cfg_getword, cfg_getint, cfg_getint_signed_zero, lexeme_ext, starts_with,
}
use mtproxy.Config.Clusters.{
  lookup_from, mf_cluster_lookup, init_old_mf_cluster, extend_old_mf_cluster,
}
use mtproxy.Config.Parse.{
  expect, is_internet, timeout_directive, max_directive, min_directive, preinit_config, finish,
  add_target, new_target, cfg_gethost, read_host_port, cfg_parse_server_port, proxy_directive,
  target_directive, directive, statement, parse_round, parse_loop, parse_config,
}
use mtproxy.Config.TwoPass.{IsAgreeing}
use mtproxy.Config.Names.{StillResolves}
use mtproxy.Config.Reload.{fatal, apply_config, do_reload_config, try_targets, choose_proxy_target}
use mtproxy.Config.Loaded.{IsLoaded, parse_config_second_pass}
use mtproxy.Config.Choice.{IsChoice, choose_proxy_target_lem}

-- Every name is the address 1.2.3.4.
abbrev resolve : Bytes → Bytes → Option Host
resolve name rest = some (inet 16909060)

-- In the second pass every name is the address 1.2.3.5.
abbrev resolve_moved : Bytes → Bytes → Option Host
resolve_moved name rest = some (inet 16909061)

still_resolves : StillResolves resolve resolve_moved
unfolding is_internet
still_resolves name rest h e i = (inet 16909061, refl, refl)

abbrev one_proxy : Bytes
one_proxy = codes "proxy a:80;"

abbrev two_clusters : Bytes
two_clusters = codes "proxy_for -1 a:80; proxy_for -1 b:443; # more\nproxy c:7;default -1;"

abbrev no_cluster : Cluster
no_cluster = record {
  targets_num = 0;
  write_targets_num = 0;
  targets_allocated = 0;
  flags = 0;
  cluster_id = 0;
  cluster_targets = 0;
}

abbrev blank : Config
blank = record {
  tot_targets = 0;
  auth_clusters = 0;
  default_cluster_id = 0;
  min_connections = 0;
  max_connections = 0;
  timeout = 0;
  tot_clusters = 0;
  have_proxy = false;
  default_cluster = none;
  targets = λ i. none;
  auth_cluster = λ i. no_cluster;
}

abbrev shape : Run (Option Config) → List ℕ
shape (ok (some mc)) =
    mc.tot_targets
    ∷ mc.auth_clusters
    ∷ (mc.auth_cluster 0).targets_num
    ∷ (mc.auth_cluster 1).cluster_targets
    ∷ (mc.auth_cluster 1).cluster_id
    ∷ []
shape _ = []

parse_two_clusters :
    shape (parse_config resolve 90 true 4 8 two_clusters blank) ≡ 3 ∷ 2 ∷ 2 ∷ 2 ∷ 0 ∷ []
unfolding parse_config parse_loop parse_round cfg_skipspc cfg_getlex_ext lexeme_ext starts_with
    statement directive target_directive cfg_getint_signed_zero cfg_skspc proxy_directive
    preinit_config cfg_parse_server_port read_host_port cfg_gethost cfg_getword
    extend_old_mf_cluster init_old_mf_cluster lookup_from mf_cluster_lookup cfg_getint read_digits
    skip_blanks skip_spaces stops_at add_target expect finish is_internet max_directive
    min_directive new_target timeout_directive
parse_two_clusters = refl

-- What the first pass makes of one_proxy.
abbrev passed : Config
passed = record blank {
  tot_targets = 1;
  auth_clusters = 1;
  min_connections = 4;
  max_connections = 8;
  timeout = 300;
  have_proxy = true;
  default_cluster = some 0;
  auth_cluster = λ i. if 0 == i then no_cluster else no_cluster;
}

first_pass : parse_config resolve 20 false 4 8 one_proxy blank ≡ ok (some passed)
unfolding parse_config parse_loop parse_round cfg_skipspc cfg_getlex_ext lexeme_ext starts_with
    statement directive target_directive cfg_getint_signed_zero cfg_skspc proxy_directive
    preinit_config cfg_parse_server_port read_host_port cfg_gethost cfg_getword
    extend_old_mf_cluster init_old_mf_cluster lookup_from mf_cluster_lookup cfg_getint read_digits
    skip_blanks skip_spaces stops_at add_target expect finish is_internet max_directive
    min_directive new_target timeout_directive
first_pass = refl

parse_config_second_pass_example :
    (d : Config) × (parse_config resolve_moved 20 true 4 8 one_proxy passed ≡ ok (some d))
    × (IsAgreeing passed d)
    × (IsLoaded d)
parse_config_second_pass_example =
    parse_config_second_pass 20 4 8 one_proxy resolve resolve_moved blank passed still_resolves refl
      first_pass

-- Where the resolver fails in the second pass only, the process exits.
lost_name :
    do_reload_config resolve (λ name rest. none) 20 false 4 8 (some one_proxy) blank blank
    ≡ ok fatal
unfolding do_reload_config apply_config parse_config parse_loop parse_round cfg_skipspc
    cfg_getlex_ext lexeme_ext starts_with statement directive target_directive
    cfg_getint_signed_zero cfg_skspc proxy_directive preinit_config cfg_parse_server_port
    read_host_port cfg_gethost cfg_getword extend_old_mf_cluster init_old_mf_cluster lookup_from
    mf_cluster_lookup cfg_getint read_digits skip_blanks skip_spaces stops_at add_target expect
    finish is_internet max_directive min_directive new_target timeout_directive
lost_name = refl

-- Two targets in a cluster with the number 2, which is the default one.
abbrev pair : Config
pair = record blank {
  tot_targets = 2;
  auth_clusters = 1;
  tot_clusters = 1;
  default_cluster_id = 2;
  have_proxy = true;
  default_cluster = some 0;
  targets = λ i.
      some (record { target = inet 16909060; port = 80; min_connections = 4; max_connections = 8 });
  auth_cluster =
      λ i. record no_cluster { targets_num = 2; write_targets_num = 2; flags = 1; cluster_id = 2 };
}

pair-IsLoaded : IsLoaded pair
unfolding mf_cluster_lookup lookup_from
pair-IsLoaded = record {
  laid_out = record {
    few_targets = omega arith;
    few_clusters = omega arith;
    counted = refl;
    none_left = λ z. absurd (omega arith);
    first = λ p. refl;
    adjacent = λ i p. absurd (omega arith);
    last = λ i p. refl;
    nonempty = λ i p. (omega arith, refl);
    distinct = λ i j p q e. omega arith;
    created = λ i p e. cc;
  };
  some_cluster = omega arith;
  with_proxy = refl;
  default_found = refl;
}

-- The third draw hits the target with a connection.
choose_second :
    choose_proxy_target (λ n. if n == 2 then 7 else 4) (λ t. t == 1) pair 5 ≡ ok (some 1)
unfolding choose_proxy_target try_targets mf_cluster_lookup lookup_from
choose_second = refl

choose_proxy_target_lem_example :
    Returns
      (IsChoice (λ n. if n == 2 then 7 else 4) (λ t. t == 1) pair 5)
      (choose_proxy_target (λ n. if n == 2 then 7 else 4) (λ t. t == 1) pair 5)
choose_proxy_target_lem_example =
    choose_proxy_target_lem (λ n. if n == 2 then 7 else 4) (λ t. t == 1) pair 5 pair-IsLoaded
