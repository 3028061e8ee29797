-- ===== src/Config.antt =====
-- The configuration of c-original/mtproto/mtproto-config.c: its records, and in the children the
-- lexer of c-original/common/parse-config.c (Lexer), the clusters (Clusters), the parser (Parse), the
-- reload in two passes (Reload), and what is proved of them.
--
-- An `int` or `long long` that the lexer reads is its bit pattern. The timeout, a double in seconds,
-- is kept in milliseconds. A cluster's pointer into the array of targets is an index.
pub mod Lexer
pub mod Clusters
pub mod Parse
mod Progress
mod Layout
mod TwoPass
mod Names
mod Passes
mod Rounds
pub mod Reload
mod Loaded
mod Choice
mod Tests
use mtproxy.Prelude.{ℕ, ◌+◌, ◌^◌, Bool, Option}
use mtproxy.Prelude.Bytes.{Bytes}

-- What the resolver (c-original/common/resolver.c over the system's) says of a name: an address of
-- family AF_INET or AF_INET6, or one of another family.
pub data Host : Type 0 where
  inet : ℕ → Host
  inet6 : Bytes → Host
  other_family : Host

-- What the configuration sets of a `struct conn_target_info`.
pub record Target : Type 0 where
  pub target : Host
  pub port : ℕ
  pub min_connections : ℕ
  pub max_connections : ℕ

-- struct mf_cluster
pub record Cluster : Type 0 where
  pub targets_num : ℕ
  pub write_targets_num : ℕ
  pub targets_allocated : ℕ
  pub flags : ℕ
  pub cluster_id : ℕ
  pub cluster_targets : ℕ

-- struct mf_config; `tot_clusters` is its auth_stats.
pub record Config : Type 0 where
  pub tot_targets : ℕ
  pub auth_clusters : ℕ
  pub default_cluster_id : ℕ
  pub min_connections : ℕ
  pub max_connections : ℕ
  pub timeout : ℕ
  pub tot_clusters : ℕ
  pub have_proxy : Bool
  pub default_cluster : Option ℕ
  pub targets : ℕ → Option Target
  pub auth_cluster : ℕ → Cluster

abbrev pub max_cfg_clusters : ℕ
max_cfg_clusters = 1024

abbrev pub max_cfg_targets : ℕ
max_cfg_targets = 4096
