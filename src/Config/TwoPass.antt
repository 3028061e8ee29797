-- ===== src/Config/TwoPass.antt =====
-- The two passes of parse_config of c-original/mtproto/mtproto-config.c: how the configuration that
-- the first pass leaves and the one that the second pass fills in belong together.
use mtproxy.Prelude.{
  ℕ, ◌+◌, ◌<◌, ◌≡◌, ◌≢◌, refl, ◌∙◌, true, false, none, some, ◌==◌, arith, Bool-cases, Option-cases,
  inl, inr, sym, some-eq, subst,
}
use mtproxy.Config.{Host, Config, max_cfg_clusters, max_cfg_targets}
use mtproxy.Config.Clusters.{
  mf_cluster_lookup, init_old_mf_cluster, extend_old_mf_cluster, set_cluster,
}
use mtproxy.Config.Parse.{new_target, add_target}
use mtproxy.Config.Layout.{
  id_at, IsLaidOut, lookup_from-some, lookup_from-none, lookup_from_cong, IsLaidOut-opened,
  IsLaidOut-extended, extended, opened, extend_old_mf_cluster-eq,
}

-- Two configurations with the same numbers and the same options, where the first one counts no
-- clusters: only the second pass counts them.
pub record IsAgreeing (c d : Config) : Type 0 where
  pub uncounted : c.tot_clusters ≡ 0
  pub same_targets : d.tot_targets ≡ c.tot_targets
  pub same_clusters : d.auth_clusters ≡ c.auth_clusters
  pub same_default : d.default_cluster_id ≡ c.default_cluster_id
  pub same_min : d.min_connections ≡ c.min_connections
  pub same_max : d.max_connections ≡ c.max_connections
  pub same_timeout : d.timeout ≡ c.timeout
  pub same_ids : (i : ℕ) → i < c.auth_clusters → id_at d i ≡ id_at c i

abbrev pub Linked : Config → Config → Type 0
Linked c d = (IsAgreeing c d) × (IsLaidOut d)

pub mf_cluster_lookup-agree :
    (c d : Config) (id : ℕ)
    → IsAgreeing c d
    → mf_cluster_lookup d id false ≡ mf_cluster_lookup c id false
unfolding mf_cluster_lookup
mf_cluster_lookup-agree c d id a =
    let same =
      lookup_from_cong c.auth_clusters 0 d.auth_cluster c.auth_cluster id
        (λ j p q. a.same_ids j (omega arith)) in
    ground (arith, same, a.same_clusters)

pub mf_cluster_lookup-none :
    (c : Config) (id : ℕ)
    → mf_cluster_lookup c id false ≡ none
    → (j : ℕ) → j < c.auth_clusters
    → id_at c j ≢ id
unfolding mf_cluster_lookup
mf_cluster_lookup-none c id e j q =
    lookup_from-none c.auth_clusters 0 c.auth_cluster id (ground arith) j (omega arith)
      (omega arith)

pub mf_cluster_lookup-some :
    (c : Config) (id j : ℕ)
    → mf_cluster_lookup c id false ≡ some j
    → (j < c.auth_clusters) × (id_at c j ≡ id)
unfolding mf_cluster_lookup
mf_cluster_lookup-some c id j e =
    let (_, less, same) = lookup_from-some c.auth_clusters 0 c.auth_cluster id j (ground arith) in
    (omega arith, same)

add_target-none :
    (mc : Config) (targ target_dc : ℕ)
    → mf_cluster_lookup mc target_dc false ≡ none
    → add_target true targ target_dc mc
      ≡ some (record (init_old_mf_cluster mc mc.auth_clusters targ 1 1 target_dc) {
        auth_clusters = mc.auth_clusters + 1;
      })
unfolding add_target
add_target-none mc targ target_dc e = ground (arith, e)

add_target-some :
    (mc : Config) (targ target_dc i : ℕ)
    → mf_cluster_lookup mc target_dc false ≡ some i
    → i + 1 ≡ mc.auth_clusters
    → add_target true targ target_dc mc ≡ extend_old_mf_cluster mc i targ target_dc
unfolding add_target
add_target-some mc targ target_dc i e l = ground (arith, e)

module _ (c d : Config) (host : Host) (port target_dc : ℕ) (linked : Linked c d)
    (room : c.tot_targets < max_cfg_targets) (fits : c.auth_clusters < max_cfg_clusters) where
  room_left : d.tot_targets < max_cfg_targets
  room_left = let (a, _) = linked in omega (arith, a.same_targets)

  places_left : d.auth_clusters < max_cfg_clusters
  places_left = let (a, _) = linked in omega (arith, a.same_clusters)

  -- What the second pass does where the first one goes on with c'.
  abbrev Follows : Config → Type 0
  Follows c' =
      (d' : Config) × (add_target true d.tot_targets target_dc (new_target true host port d)
        ≡ some d')
      × (Linked c' d')

  abbrev added : Config
  added = new_target false host port c

  -- In the first pass a new cluster has its number only.
  abbrev numbered : Config
  numbered =
      record (set_cluster added c.auth_clusters
        (record (c.auth_cluster c.auth_clusters) { cluster_id = target_dc })) {
          auth_clusters = c.auth_clusters + 1;
        }

  IsAgreeing-opened :
      IsAgreeing numbered (opened d linked.1 host port target_dc room_left places_left)
  unfolding new_target init_old_mf_cluster
  IsAgreeing-opened =
      let (a, h) = linked in
      record {
        uncounted = a.uncounted;
        same_targets = ground (arith, a.same_targets);
        same_clusters = ground (arith, a.same_clusters);
        same_default = a.same_default;
        same_min = a.same_min;
        same_max = a.same_max;
        same_timeout = a.same_timeout;
        same_ids = λ i p. ground (arith, a.same_clusters, a.same_ids i);
      }

  IsAgreeing-extended :
      (i : ℕ) → IsAgreeing added (extended d linked.1 host port target_dc room_left places_left i)
  unfolding new_target
  IsAgreeing-extended i =
      let (a, h) = linked in
      record {
        uncounted = a.uncounted;
        same_targets = ground (arith, a.same_targets);
        same_clusters = a.same_clusters;
        same_default = a.same_default;
        same_min = a.same_min;
        same_max = a.same_max;
        same_timeout = a.same_timeout;
        same_ids = λ j p. ground (arith, a.same_ids j);
      }

  same_lookup :
      mf_cluster_lookup (new_target true host port d) target_dc false
      ≡ mf_cluster_lookup c target_dc false
  unfolding new_target mf_cluster_lookup
  same_lookup =
      let (a, _) = linked in
      let same =
        lookup_from_cong c.auth_clusters 0 d.auth_cluster c.auth_cluster target_dc
          (λ j p q. a.same_ids j (omega arith)) in
      ground (arith, same, a.same_clusters)

  Follows-new : mf_cluster_lookup c target_dc false ≡ none → Follows numbered
  unfolding new_target
  Follows-new fresh =
      let (a, h) = linked in
      let unused = mf_cluster_lookup-none c target_dc fresh in
      (
        opened d h host port target_dc room_left places_left,
        add_target-none (new_target true host port d) d.tot_targets target_dc (same_lookup ∙ fresh),
        (
          IsAgreeing-opened,
          IsLaidOut-opened d h host port target_dc room_left places_left (λ j p e.
              unused j (omega (arith, a.same_clusters))
                (sym (a.same_ids j (omega (arith, a.same_clusters))) ∙ e)),
        ),
      )

  Follows-old :
      (i : ℕ)
      → mf_cluster_lookup c target_dc false ≡ some i
      → i + 1 ≡ c.auth_clusters
      → Follows added
  unfolding new_target
  Follows-old i found last =
      let (a, h) = linked in
      let (less, same) = mf_cluster_lookup-some c target_dc i found in
      (
        extended d h host port target_dc room_left places_left i,
        add_target-some (new_target true host port d) d.tot_targets target_dc i
              (same_lookup ∙ found) (omega (arith, a.same_clusters))
            ∙ extend_old_mf_cluster-eq d h host port target_dc room_left places_left i
                (omega (arith, a.same_clusters)) (a.same_ids i less ∙ same),
        (
          IsAgreeing-extended i,
          IsLaidOut-extended d h host port target_dc room_left places_left i
              (omega (arith, a.same_clusters)),
        ),
      )

  same_added : mf_cluster_lookup added target_dc false ≡ mf_cluster_lookup c target_dc false
  unfolding new_target mf_cluster_lookup
  same_added = refl

  -- A target that the first pass accepts is added in the second pass as well.
  pub add_target-Follows :
      (c' : Config) → add_target false c.tot_targets target_dc added ≡ some c' → Follows c'
  unfolding add_target new_target
  add_target-Follows c' e = elim (Option-cases (mf_cluster_lookup c target_dc false)) [
    | inl fresh ↦
        subst Follows (some-eq (ground (arith, same_added ∙ fresh, e))) (Follows-new fresh)
    | inr (i, found) ↦ elim (Bool-cases (i + 1 == c.auth_clusters)) [
      | inl last ↦
          subst Follows (some-eq (ground (arith, same_added ∙ found, e)))
            (Follows-old i found (ground arith))
      | inr other ↦ absurd (ground (arith, same_added ∙ found, e))
    ]
  ]
