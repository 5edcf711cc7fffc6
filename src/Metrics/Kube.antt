-- ===== src/Metrics/Kube.antt =====
-- internal/metrics/kube.go: the provider that reads the metrics server and the nodes.
use wordpress_manager_operat.Prelude.{
  String, Bool, true, false, value_or, List, [], ◌∷◌, map, Result, ok, err, Exec, attempt, raise,
  pure, if◌then◌else◌,
}
use wordpress_manager_operat.Text.{is_empty}
use wordpress_manager_operat.Int64.{add64}
use wordpress_manager_operat.Maps.{Map, lookup, insert}
use wordpress_manager_operat.Metrics.{
  NodeMetrics, ClusterMetrics, SiteUsage, metric, Amounts, Node, NodeUsage, PodUsage, Listing,
  Provider,
}

abbrev pub site_label : String
site_label = "wp.benji.dev/site"

abbrev pub no_amounts : Amounts
no_amounts = record { cpu = 0; memory = 0 }

abbrev pub add_amounts : Amounts → Amounts → Amounts
add_amounts a b = record { cpu = add64 a.cpu b.cpu; memory = add64 a.memory b.memory }

-- The loop that fills `used`.
unfoldable pub used_by_name : List NodeUsage → Map Amounts → Map Amounts
used_by_name [] m = m
used_by_name (i ∷ is) m = used_by_name is (insert i.name i.usage m)

-- used[n.Name], zero where the key is missing
abbrev pub used_at : Map Amounts → String → Amounts
used_at m name = value_or (lookup name m) no_amounts

unfoldable pub node_metrics : Map Amounts → Node → NodeMetrics
node_metrics m n =
    let u = used_at m n.name in
    record {
      name = n.name;
      cpu = metric u.cpu n.capacity.cpu n.allocatable.cpu;
      memory = metric u.memory n.capacity.memory n.allocatable.memory;
    }

-- The variables that the loop over the nodes adds to.
pub record Sums : Type 0 where
  pub capacity : Amounts
  pub allocatable : Amounts
  pub used : Amounts

abbrev pub no_sums : Sums
no_sums = record { capacity = no_amounts; allocatable = no_amounts; used = no_amounts }

abbrev pub add_node : Map Amounts → Sums → Node → Sums
add_node m s n = record {
  capacity = add_amounts s.capacity n.capacity;
  allocatable = add_amounts s.allocatable n.allocatable;
  used = add_amounts s.used (used_at m n.name);
}

unfoldable pub sum_nodes : Map Amounts → Sums → List Node → Sums
sum_nodes m s [] = s
sum_nodes m s (n ∷ ns) = sum_nodes m (add_node m s n) ns

-- The metrics of the nodes, where the usage is known or not.
unfoldable pub cluster_of : Bool → Map Amounts → List Node → ClusterMetrics
unfolding sum_nodes node_metrics
cluster_of known m nodes =
    let s = sum_nodes m no_sums nodes in
    record {
      cpu = metric s.used.cpu s.capacity.cpu s.allocatable.cpu;
      memory = metric s.used.memory s.capacity.memory s.allocatable.memory;
      nodes = map (node_metrics m) nodes;
      metrics_available = known;
    }

-- The containers of one pod, added to what its site has.
unfoldable pub add_containers : Amounts → List Amounts → Amounts
add_containers a [] = a
add_containers a (c ∷ cs) = add_containers (add_amounts a c) cs

abbrev pub site_of : PodUsage → String
site_of p = value_or (lookup site_label p.labels) ""

-- The loop over the pods of Sites.
unfoldable pub aggregate : List PodUsage → Map Amounts → Map Amounts
unfolding add_containers
aggregate [] m = m
aggregate (p ∷ ps) m = aggregate ps (
    if is_empty (site_of p)
    then m
    else insert (site_of p) (add_containers (used_at m (site_of p)) p.containers) m)

abbrev pub site_usage_of : String × Amounts → SiteUsage
site_usage_of (name, a) = record { name = name; cpu_milli = a.cpu; memory_bytes = a.memory }

module _ {W : Type 0} (c : Listing W) where
  abbrev pub with_metrics : List Node → Result (List NodeUsage) → Exec W ClusterMetrics
  with_metrics nodes (ok items) = pure (cluster_of true (used_by_name items []) nodes)
  with_metrics nodes (err e) = pure (cluster_of false [] nodes)

  abbrev pub with_nodes : Result (List Node) → Exec W ClusterMetrics
  with_nodes (err e) = raise e
  with_nodes (ok nodes) = attempt c.list_node_metrics (with_metrics nodes)

  unfoldable pub cluster : Exec W ClusterMetrics
  unfolding cluster_of used_by_name
  cluster = attempt c.list_nodes with_nodes

  -- `order` is the order in which Go's range goes through the map.
  abbrev pub with_pods :
      (Map Amounts → Map Amounts) → Result (List PodUsage) → Exec W (List SiteUsage)
  with_pods order (err e) = pure []
  with_pods order (ok pods) = pure (map site_usage_of (order (aggregate pods [])))

  unfoldable pub sites : (Map Amounts → Map Amounts) → String → Exec W (List SiteUsage)
  unfolding aggregate
  sites order namespace = attempt (c.list_pod_metrics namespace) (with_pods order)

  abbrev pub kube_provider : (Map Amounts → Map Amounts) → String → Provider W
  kube_provider order namespace = record { cluster = cluster; sites = sites order namespace }
