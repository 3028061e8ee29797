-- ===== src/Config/Choice.antt =====
-- The choice of a target by choose_proxy_target of c-original/mtproto/mtproto-proxy.c.
use mtproxy.Prelude.{
  ℕ, zero, suc, ◌+◌, ◌-◌, ◌%◌, ◌<◌, ◌≤◌, ◌≡◌, ◌≢◌, ◌∙◌, Bool, true, false, Option, none, some,
  arith, Bool-cases, Option-cases, inl, inr, ◌⊎◌, ap, sym, some-eq,
}
use mtproxy.Prelude.Run.{Returns, ended, returns}
use mtproxy.Config.{Config}
use mtproxy.Config.Clusters.{mf_cluster_lookup}
use mtproxy.Config.Layout.{id_at, size_at, start_at, IsLaidOut}
use mtproxy.Config.TwoPass.{mf_cluster_lookup-some, mf_cluster_lookup-none}
use mtproxy.Config.Reload.{try_targets, choose_proxy_target}
use mtproxy.Config.Loaded.{IsLoaded}

-- The target at index t belongs to the cluster at index i.
abbrev pub IsIn : Config → ℕ → ℕ → Type 0
IsIn mc i t = (start_at mc i ≤ t) × (t < start_at mc i + size_at mc i)

-- A cluster ends where the array of targets does, or before.
cluster_end_le :
    (mc : Config) (k i : ℕ)
    → IsLaidOut mc
    → i + 1 + k ≡ mc.auth_clusters
    → start_at mc i + size_at mc i ≤ mc.tot_targets
cluster_end_le mc zero i h e = omega (arith, h.last i (omega arith))
cluster_end_le mc (suc k) i h e =
    omega (arith, h.adjacent i (omega arith), cluster_end_le mc k (i + 1) h (omega arith))

pub IsIn-lt :
    (mc : Config) (i t : ℕ) → IsLaidOut mc → i < mc.auth_clusters → IsIn mc i t → t < mc.tot_targets
IsIn-lt mc i t h p (q, r) =
    let bound = cluster_end_le mc (mc.auth_clusters - (i + 1)) i h (omega arith) in omega arith

-- With a number that the clusters have, the lookup finds it; else it gives the default cluster.
abbrev pub IsChosen : Config → ℕ → ℕ → Type 0
IsChosen mc target_dc i =
    (i < mc.auth_clusters)
    × ((id_at mc i ≡ target_dc)
        ⊎ (((j : ℕ) → j < mc.auth_clusters → id_at mc j ≢ target_dc)
            × (id_at mc i ≡ mc.default_cluster_id)))

mf_cluster_lookup-found :
    (mc : Config) (id i : ℕ) (force : Bool)
    → mf_cluster_lookup mc id false ≡ some i
    → mf_cluster_lookup mc id force ≡ some i
unfolding mf_cluster_lookup
mf_cluster_lookup-found mc id i force e = ground (arith, e)

mf_cluster_lookup-missing :
    (mc : Config) (id : ℕ)
    → mf_cluster_lookup mc id false ≡ none
    → mf_cluster_lookup mc id true ≡ mc.default_cluster
unfolding mf_cluster_lookup
mf_cluster_lookup-missing mc id e = ground (arith, e)

mf_cluster_lookup-IsChosen :
    (mc : Config) (id i : ℕ)
    → IsLoaded mc
    → mf_cluster_lookup mc id true ≡ some i
    → IsChosen mc id i
mf_cluster_lookup-IsChosen mc id i h e = elim (Option-cases (mf_cluster_lookup mc id false)) [
  | inl missing ↦
      let default = sym h.default_found ∙ sym (mf_cluster_lookup-missing mc id missing) ∙ e in
      let (inside, same) = mf_cluster_lookup-some mc mc.default_cluster_id i default in
      (inside, inr (mf_cluster_lookup-none mc id missing, same))
  | inr (j, found) ↦
      let same = some-eq (sym (mf_cluster_lookup-found mc id j true found) ∙ e) in
      let (inside, own) = mf_cluster_lookup-some mc id j found in
      (omega arith, inl (ap (id_at mc) (sym same) ∙ own))
]

module _ (lrand48 : ℕ → ℕ) (has_connection : ℕ → Bool) where
  -- What a target that is chosen must be.
  abbrev pub IsTarget : Config → ℕ → Option ℕ → Type 0
  IsTarget mc i none = Unit {0}
  IsTarget mc i (some t) = (IsIn mc i t) × (has_connection t ≡ true)

  try_targets_lem :
      (attempts : ℕ) (mc : Config) (i : ℕ)
      → 0 < size_at mc i
      → Returns (IsTarget mc i) (try_targets lrand48 has_connection attempts mc i)
  unfolding try_targets
  try_targets_lem zero mc i h = returns tt
  try_targets_lem (suc n) mc i h =
      let c = mc.auth_cluster i in
      let s = c.cluster_targets + lrand48 n % c.targets_num in
      let inside : IsIn mc i s = (omega arith, omega arith) in
      elim (Bool-cases (has_connection s)) [
        | inl ready ↦ ended (some s) (ground (arith, ready)) (inside, ready)
        | inr unready ↦ elim (try_targets_lem n mc i h) [
          | ended o e p ↦ ended o (ground (arith, unready, e)) p
        ]
      ]

  -- What choose_proxy_target gives: a target with a ready connection that has been created and stands
  -- in the cluster chosen for the number.
  abbrev pub IsChoice : Config → ℕ → Option ℕ → Type 0
  IsChoice mc target_dc none = Unit {0}
  IsChoice mc target_dc (some t) =
      (has_connection t ≡ true)
      × (mc.targets t ≢ none)
      × ((i : ℕ) × IsIn mc i t × IsChosen mc target_dc i)

  -- With a loaded configuration no assertion of choose_proxy_target fails, and a target that it gives
  -- has a ready connection, has been created, and stands in the cluster with the number asked for, or
  -- in the cluster of the default number where none has that number.
  pub choose_proxy_target_lem :
      (mc : Config) (target_dc : ℕ)
      → IsLoaded mc
      → Returns (IsChoice mc target_dc) (choose_proxy_target lrand48 has_connection mc target_dc)
  unfolding choose_proxy_target
  choose_proxy_target_lem mc target_dc h =
      let some_cluster = h.some_cluster in
      elim (Option-cases (mf_cluster_lookup mc target_dc true)) [
        | inl missing ↦ ended none (ground (arith, missing)) tt
        | inr (i, found) ↦
            let chosen = mf_cluster_lookup-IsChosen mc target_dc i h found in
            let (inside, _) = chosen in
            let (filled, _) = h.laid_out.nonempty i inside in
            elim (try_targets_lem 5 mc i filled) [
              | ended none e p ↦ ended none (ground (arith, found, e)) tt
              | ended (some t) e p ↦ ended (some t) (ground (arith, found, e)) (
                p.1,
                h.laid_out.created t (IsIn-lt mc i t h.laid_out inside p.0),
                (i, p.0, chosen),
              )
            ]
      ]
