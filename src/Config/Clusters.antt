-- ===== src/Config/Clusters.antt =====
-- The clusters of c-original/mtproto/mtproto-config.c.
use mtproxy.Prelude.{
  ℕ, zero, suc, ◌+◌, ◌-◌, Bool, Option, none, some, ◌==◌, ltb, not, if◌then◌else◌,
}
use mtproxy.Config.{Cluster, Config}

-- The loop of mf_cluster_lookup, with n clusters still to come and `force` off.
unfoldable pub lookup_from : ℕ → ℕ → (ℕ → Cluster) → ℕ → Option ℕ
lookup_from zero i clusters id = none
lookup_from (suc n) i clusters id =
    let rest = lookup_from n (i + 1) clusters id in
    if (clusters i).cluster_id == id then some i else rest

unfoldable pub mf_cluster_lookup : Config → ℕ → Bool → Option ℕ
unfolding lookup_from
mf_cluster_lookup mc id force = elim (lookup_from mc.auth_clusters 0 mc.auth_cluster id) [
  | some i ↦ some i
  | none ↦ if force then mc.default_cluster else none
]

abbrev pub set_cluster : Config → ℕ → Cluster → Config
set_cluster mc i c = record mc { auth_cluster = λ j. if i == j then c else mc.auth_cluster j }

-- init_old_mf_cluster, at place i
unfoldable pub init_old_mf_cluster : Config → ℕ → ℕ → ℕ → ℕ → ℕ → Config
init_old_mf_cluster mc i targets targets_num flags cluster_id =
    record (set_cluster mc i (record {
      targets_num = targets_num;
      write_targets_num = targets_num;
      targets_allocated = 0;
      flags = flags;
      cluster_id = cluster_id;
      cluster_targets = targets;
    })) { tot_clusters = mc.tot_clusters + 1 }

-- `none` is the result 0.
unfoldable pub extend_old_mf_cluster : Config → ℕ → ℕ → ℕ → Option Config
extend_old_mf_cluster mc i target cluster_id =
    let c = mc.auth_cluster i in
    if not (c.cluster_targets + c.targets_num == target)
    then none
    else if not (c.cluster_id == cluster_id)
    then none
    else some (
        set_cluster mc i
          (record c { targets_num = c.targets_num + 1; write_targets_num = c.targets_num + 1 }))

-- forget_cluster_targets and clear_mf_cluster
unfoldable pub clear_mf_cluster : Config → ℕ → Config
clear_mf_cluster mc i =
    let c = mc.auth_cluster i in
    record (set_cluster mc i (record c {
      cluster_targets = 0;
      targets_num = 0;
      write_targets_num = 0;
      targets_allocated = 0;
      flags = 0;
    })) { tot_clusters = mc.tot_clusters - 1 }

unfoldable pub clear_clusters : ℕ → ℕ → Config → Config
clear_clusters zero i mc = mc
clear_clusters (suc n) i mc = clear_clusters n (i + 1) (clear_mf_cluster mc i)

-- clear_config; the targets that are destroyed are those of the array's first tot_targets places.
unfoldable pub clear_config : Config → Bool → Config
unfolding clear_clusters
clear_config mc do_destroy_targets =
    let cleared = clear_clusters mc.auth_clusters 0 mc in
    record cleared {
      targets =
          if do_destroy_targets
          then (λ i. if ltb i mc.tot_targets then none else mc.targets i)
          else mc.targets;
      tot_targets = 0;
      auth_clusters = 0;
      tot_clusters = 0;
    }
