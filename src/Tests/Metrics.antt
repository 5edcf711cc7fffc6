-- ===== src/Tests/Metrics.antt =====
-- The theorems on the providers of metrics, with a cluster of two nodes and three pods.
use mathlib.Core.List.Perm
use wordpress_manager_operat.Prelude.{ℕ, String, refl, true, List, [], ◌∷◌, All, map, ok}
use wordpress_manager_operat.Metrics.{
  Amounts, Node, NodeUsage, PodUsage, SiteUsage, ClusterMetrics, Listing,
}
use wordpress_manager_operat.Metrics.Kube.{
  cluster, cluster_of, used_by_name, sites, aggregate, site_usage_of,
}
use wordpress_manager_operat.Metrics.Totals.{IsTotal, cluster-IsTotal}
use wordpress_manager_operat.Metrics.Dev.{new_dev_provider, dev_cluster_of, site_usage}
use wordpress_manager_operat.Metrics.Accounts.{IsAccount, IsListed, sites-IsAccount}
use wordpress_manager_operat.Tests.Sites.{blog}

abbrev amounts : ℕ → ℕ → Amounts
amounts c m = record { cpu = c; memory = m }

abbrev nodes : List Node
nodes =
    record { name = "a"; capacity = amounts 4000 8000; allocatable = amounts 3800 7600 }
    ∷ record { name = "b"; capacity = amounts 2000 4000; allocatable = amounts 1900 3800 }
    ∷ []

abbrev usages : List NodeUsage
usages = record { name = "a"; usage = amounts 4000 1000 } ∷ []

abbrev pod : String → List Amounts → PodUsage
pod site containers = record { labels = ("wp.benji.dev/site", site) ∷ []; containers = containers }

abbrev pods : List PodUsage
pods =
    pod "blog" (amounts 100 10 ∷ amounts 50 5 ∷ [])
    ∷ pod "shop" (amounts 7 7 ∷ [])
    ∷ pod "blog" (amounts 1 1 ∷ [])
    ∷ []

abbrev pub listing : Listing (Unit {0})
listing = record {
  list_nodes = λ w. (ok nodes, w);
  list_node_metrics = λ w. (ok usages, w);
  list_pod_metrics = λ n w. (ok pods, w);
  list_sites = λ n w. (ok (blog ∷ []), w);
}

abbrev shown : ClusterMetrics
shown = cluster_of true (used_by_name usages []) nodes

cluster-IsTotal_example : IsTotal shown
unfolding cluster
cluster-IsTotal_example = cluster-IsTotal listing shown tt tt refl

abbrev site_usages : List SiteUsage
site_usages = map site_usage_of (aggregate pods [])

sites-IsAccount_example :
    All (IsAccount pods) site_usages
    × All (IsListed (map (λ (u : SiteUsage). u.name) site_usages)) pods
unfolding sites
sites-IsAccount_example =
    sites-IsAccount listing (λ m. m) "sites" pods site_usages tt tt tt (λ m. Perm.refl m) refl refl

abbrev dev_usages : List SiteUsage
dev_usages = site_usage blog ∷ []

abbrev dev_shown : ClusterMetrics
dev_shown = dev_cluster_of (new_dev_provider "sites") dev_usages
