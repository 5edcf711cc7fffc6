-- ===== src/Metrics.antt =====
-- internal/metrics: the usage of the cluster and of its sites. The Kubernetes client is a parameter; a
-- quantity is the int64 that MilliValue or Value returns.
pub mod Clamp
pub mod Kube
pub mod Totals
pub mod Exact
pub mod Dev
pub mod Accounts
use wordpress_manager_operat.Prelude.{ℕ, String, Bool, List, Exec, if◌then◌else◌}
use wordpress_manager_operat.Int64.{gt64, sub64}
use wordpress_manager_operat.Maps.{Map}
use wordpress_manager_operat.Api.{WordPressSite}

pub record Metric : Type 0 where
  pub used : ℕ
  pub capacity : ℕ
  pub allocatable : ℕ
  pub available : ℕ

pub record NodeMetrics : Type 0 where
  pub name : String
  pub cpu : Metric
  pub memory : Metric

pub record ClusterMetrics : Type 0 where
  pub cpu : Metric
  pub memory : Metric
  pub nodes : List NodeMetrics
  pub metrics_available : Bool

pub record SiteUsage : Type 0 where
  pub name : String
  pub cpu_milli : ℕ
  pub memory_bytes : ℕ

unfoldable pub avail : ℕ → ℕ → ℕ
avail allocatable used = if gt64 used allocatable then 0 else sub64 allocatable used

-- The metric of a used, a total and an allocatable amount, as both providers build it.
unfoldable pub metric : ℕ → ℕ → ℕ → Metric
unfolding avail
metric used capacity allocatable = record {
  used = used;
  capacity = capacity;
  allocatable = allocatable;
  available = avail allocatable used;
}

-- Provider, of which `cluster` is Cluster and `sites` is Sites.
pub record Provider (W : Type 0) : Type 0 where
  pub cluster : Exec W ClusterMetrics
  pub sites : Exec W (List SiteUsage)

-- An amount of CPU, in millicores, and of memory, in bytes.
pub record Amounts : Type 0 where
  pub cpu : ℕ
  pub memory : ℕ

pub record Node : Type 0 where
  pub name : String
  pub capacity : Amounts
  pub allocatable : Amounts

-- An item of NodeMetricsList.
pub record NodeUsage : Type 0 where
  pub name : String
  pub usage : Amounts

-- An item of PodMetricsList, with the usage of each container.
pub record PodUsage : Type 0 where
  pub labels : Map String
  pub containers : List Amounts

-- The lists that the providers ask the cluster for.
pub record Listing (W : Type 0) : Type 0 where
  pub list_nodes : Exec W (List Node)
  pub list_node_metrics : Exec W (List NodeUsage)
  pub list_pod_metrics : String → Exec W (List PodUsage)
  pub list_sites : String → Exec W (List WordPressSite)
