-- ===== src/Config/Reload.antt =====
-- do_reload_config of c-original/mtproto/mtproto-config.c and choose_proxy_target of
-- c-original/mtproto/mtproto-proxy.c.
use mtproxy.Prelude.{
  ℕ, zero, suc, ◌+◌, ◌%◌, Bool, true, false, Option, none, some, ltb, if◌then◌else◌,
}
use mtproxy.Prelude.Bytes.{Bytes}
use mtproxy.Prelude.Run.{Run, ok, assert, ◌>>=◌, ◌>>◌}
use mtproxy.Config.{Host, Config}
use mtproxy.Config.Clusters.{mf_cluster_lookup, clear_config}
use mtproxy.Config.Parse.{parse_config}

-- The ways do_reload_config ends: the new configuration is not applied, it is only checked, the
-- process exits, or it takes the place of the current one (`applied` CurConf NextConf).
pub data Reload : Type 0 where
  rejected checked fatal : Reload
  applied : Config → Config → Reload

-- What follows the second pass: CurConf and NextConf change places.
unfoldable pub apply_config : Config → Option Config → Reload
apply_config cur none = fatal
apply_config cur (some loaded) = applied loaded (clear_config cur true)

-- The resolver is asked anew in the second pass, and may answer otherwise.
module _ (resolve resolve_again : Bytes → Bytes → Option Host) where
  -- The text is `none` where the file cannot be read; `check_only` is flags & 32, and the flags have
  -- 4 set.
  unfoldable pub do_reload_config : ℕ → Bool → ℕ → ℕ → Option Bytes → Config → Config → Run Reload
  do_reload_config fuel check_only default_min default_max none cur next = ok rejected
  do_reload_config fuel check_only default_min default_max (some text) cur next = do
    first ← parse_config resolve fuel false default_min default_max text next
    elim first [
      | none ↦ ok rejected
      | some passed ↦ if check_only then ok checked else (do
        second ← parse_config resolve_again fuel true default_min default_max text passed
        ok (apply_config cur second))
    ]

-- The loop of choose_proxy_target; lrand48 gives the number of the attempt's draw, and
-- `has_connection` tells whether a target has a ready connection with the right tag.
module _ (lrand48 : ℕ → ℕ) (has_connection : ℕ → Bool) where
  unfoldable pub try_targets : ℕ → Config → ℕ → Run (Option ℕ)
  try_targets zero mc i = ok none
  try_targets (suc attempts) mc i =
      let c = mc.auth_cluster i in
      let s = c.cluster_targets + lrand48 attempts % c.targets_num in
      let rest = try_targets attempts mc i in
      do assert (ltb 0 c.targets_num); if has_connection s then ok (some s) else rest

  unfoldable pub choose_proxy_target : Config → ℕ → Run (Option ℕ)
  unfolding mf_cluster_lookup
  choose_proxy_target mc target_dc = do
    assert (ltb 0 mc.auth_clusters)
    elim (mf_cluster_lookup mc target_dc true) [ none ↦ ok none | some i ↦ try_targets 5 mc i ]
