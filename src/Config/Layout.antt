-- ===== src/Config/Layout.antt =====
-- How the clusters of c-original/mtproto/mtproto-config.c lie over the array of targets.
use mtproxy.Prelude.{
  ℕ, zero, suc, ◌+◌, ◌<◌, ◌≤◌, ◌≡◌, ◌≢◌, refl, true, none, some, ◌==◌, arith, Bool-cases, inl, inr,
}
use mtproxy.Config.{Host, Cluster, Config, max_cfg_clusters, max_cfg_targets}
use mtproxy.Config.Clusters.{lookup_from, init_old_mf_cluster, extend_old_mf_cluster, set_cluster}
use mtproxy.Config.Parse.{new_target}

abbrev pub id_at : Config → ℕ → ℕ
id_at mc i = (mc.auth_cluster i).cluster_id

abbrev pub start_at : Config → ℕ → ℕ
start_at mc i = (mc.auth_cluster i).cluster_targets

abbrev pub size_at : Config → ℕ → ℕ
size_at mc i = (mc.auth_cluster i).targets_num

-- The clusters have different numbers, are not empty, and follow one another without a gap from the
-- first target to the last one; every target has been created.
pub record IsLaidOut (mc : Config) : Type 0 where
  pub few_targets : mc.tot_targets ≤ max_cfg_targets
  pub few_clusters : mc.auth_clusters ≤ max_cfg_clusters
  pub counted : mc.tot_clusters ≡ mc.auth_clusters
  pub none_left : mc.auth_clusters ≡ 0 → mc.tot_targets ≡ 0
  pub first : 0 < mc.auth_clusters → start_at mc 0 ≡ 0
  pub adjacent :
      (i : ℕ) → i + 1 < mc.auth_clusters → start_at mc (i + 1) ≡ start_at mc i + size_at mc i
  pub last : (i : ℕ) → i + 1 ≡ mc.auth_clusters → start_at mc i + size_at mc i ≡ mc.tot_targets
  pub nonempty :
      (i : ℕ)
      → i < mc.auth_clusters
      → (0 < size_at mc i) × ((mc.auth_cluster i).write_targets_num ≡ size_at mc i)
  pub distinct :
      (i j : ℕ) → i < mc.auth_clusters → j < mc.auth_clusters → id_at mc i ≡ id_at mc j → i ≡ j
  pub created : (i : ℕ) → i < mc.tot_targets → mc.targets i ≢ none

-- The search finds the first cluster with the number.
pub lookup_from-some :
    (n i : ℕ) (clusters : ℕ → Cluster) (id j : ℕ)
    → lookup_from n i clusters id ≡ some j
    → (i ≤ j) × (j < i + n) × ((clusters j).cluster_id ≡ id)
unfolding lookup_from
lookup_from-some zero i clusters id j e = cc
lookup_from-some (suc n) i clusters id j e =
    ground (arith, lookup_from-some n (i + 1) clusters id j)

pub lookup_from-none :
    (n i : ℕ) (clusters : ℕ → Cluster) (id : ℕ)
    → lookup_from n i clusters id ≡ none
    → (j : ℕ) → i ≤ j
    → j < i + n
    → (clusters j).cluster_id ≢ id
unfolding lookup_from
lookup_from-none zero i clusters id e j p q = absurd (omega arith)
lookup_from-none (suc n) i clusters id e j p q = elim (Bool-cases (i == j)) [
  | inl same ↦ ground arith
  | inr more ↦ ground (
    arith,
    λ (h : lookup_from n (i + 1) clusters id ≡ none).
        lookup_from-none n (i + 1) clusters id h j (ground arith) (omega arith),
  )
]

pub lookup_from_cong :
    (n i : ℕ) (c d : ℕ → Cluster) (id : ℕ)
    → ((j : ℕ) → i ≤ j → j < i + n → (c j).cluster_id ≡ (d j).cluster_id)
    → lookup_from n i c id ≡ lookup_from n i d id
unfolding lookup_from
lookup_from_cong zero i c d id h = refl
lookup_from_cong (suc n) i c d id h =
    let rest = lookup_from_cong n (i + 1) c d id (λ j p q. h j (omega arith) (omega arith)) in
    ground (arith, rest, h i (omega arith) (omega arith))

module _ (mc : Config) (h : IsLaidOut mc) (host : Host) (port target_dc : ℕ)
    (room : mc.tot_targets < max_cfg_targets) (fits : mc.auth_clusters < max_cfg_clusters) where
  abbrev pub grown : Config
  grown = new_target true host port mc

  -- A target of a new cluster.
  abbrev pub opened : Config
  opened = record (init_old_mf_cluster grown mc.auth_clusters mc.tot_targets 1 1 target_dc) {
    auth_clusters = mc.auth_clusters + 1;
  }

  pub IsLaidOut-opened :
      ((j : ℕ) → j < mc.auth_clusters → id_at mc j ≢ target_dc) → IsLaidOut opened
  unfolding init_old_mf_cluster new_target
  IsLaidOut-opened fresh =
      let counted = h.counted in
      record {
        few_targets = omega arith;
        few_clusters = omega arith;
        counted = omega arith;
        none_left = λ z. absurd (omega arith);
        first = λ p. ground (arith, h.none_left, h.first);
        adjacent = λ i p. ground (arith, h.adjacent i, h.last i);
        last = λ i p. ground arith;
        nonempty = λ i p. ground (arith, h.nonempty i);
        distinct = λ i j p q e. ground (arith, h.distinct i j, fresh i, fresh j);
        created = λ i p. ground (arith, h.created i);
      }

  -- A target of the last cluster.
  abbrev pub extended : ℕ → Config
  extended i =
      let c = mc.auth_cluster i in
      set_cluster grown i
        (record c { targets_num = c.targets_num + 1; write_targets_num = c.targets_num + 1 })

  pub extend_old_mf_cluster-eq :
      (i : ℕ)
      → i + 1 ≡ mc.auth_clusters
      → id_at mc i ≡ target_dc
      → extend_old_mf_cluster grown i mc.tot_targets target_dc ≡ some (extended i)
  unfolding extend_old_mf_cluster new_target
  extend_old_mf_cluster-eq i l same = ground (arith, h.last i l)

  pub IsLaidOut-extended : (i : ℕ) → i + 1 ≡ mc.auth_clusters → IsLaidOut (extended i)
  unfolding new_target
  IsLaidOut-extended i l =
      let counted = h.counted in
      record {
        few_targets = omega arith;
        few_clusters = h.few_clusters;
        counted = omega arith;
        none_left = λ z. absurd (omega arith);
        first = λ p. ground (arith, h.first);
        adjacent = λ k p. ground (arith, h.adjacent k);
        last = λ k p. ground (arith, h.last k);
        nonempty = λ k p. ground (arith, h.nonempty k);
        distinct = λ k j p q e. h.distinct k j p q (ground arith);
        created = λ k p. ground (arith, h.created k);
      }
