-- ===== src/Metrics/Exact.antt =====
-- The figures of the cluster where no sum overflows.
use wordpress_manager_operat.Prelude.{
  ◌≡◌, refl, ap, ◌∙◌, ◌-◌, arith, List, [], ◌∷◌, map, All, Result, ok, err, ok_injective,
}
use wordpress_manager_operat.Int64.{IsSmall}
use wordpress_manager_operat.Maps.{Map}
use wordpress_manager_operat.Metrics.{
  Metric, NodeMetrics, ClusterMetrics, metric, avail, Amounts, Node, NodeUsage, Listing,
}
use wordpress_manager_operat.Metrics.Kube.{
  node_metrics, cluster_of, used_by_name, cluster, with_nodes, with_metrics,
}
use wordpress_manager_operat.Metrics.Clamp.{avail_lem}
use wordpress_manager_operat.Metrics.Totals.{total, SumsUp, cluster-IsTotal}

-- What is available is the allocatable amount less the used one, or nothing where more is used.
abbrev pub IsLeft : Metric → Type 0
IsLeft m = m.available ≡ m.allocatable - m.used

-- The sums of a metric over the nodes are int64 that are not negative.
abbrev pub IsSmallSum : (NodeMetrics → Metric) → List NodeMetrics → Type 0
IsSmallSum part nodes =
    IsSmall (total (λ n. (part n).used) nodes)
    × IsSmall (total (λ n. (part n).capacity) nodes)
    × IsSmall (total (λ n. (part n).allocatable) nodes)

-- A metric of the cluster has the sums of the nodes, and what is left is left, in each of them too.
pub record IsExact (m : Metric) (part : NodeMetrics → Metric) (nodes : List NodeMetrics)
    : Type 0 where
  pub used : m.used ≡ total (λ n. (part n).used) nodes
  pub capacity : m.capacity ≡ total (λ n. (part n).capacity) nodes
  pub allocatable : m.allocatable ≡ total (λ n. (part n).allocatable) nodes
  pub left : IsLeft m
  pub each : All (λ n. IsLeft (part n)) nodes

module _ (part : NodeMetrics → Metric)
    (made : (m : Map Amounts) (n : Node)
      → (part (node_metrics m n)).available
        ≡ avail (part (node_metrics m n)).allocatable (part (node_metrics m n)).used) where
  each-IsLeft :
      (m : Map Amounts) (ns : List Node)
      → IsSmall (total (λ n. (part n).used) (map (node_metrics m) ns))
      → IsSmall (total (λ n. (part n).allocatable) (map (node_metrics m) ns))
      → All (λ n. IsLeft (part n)) (map (node_metrics m) ns)
  each-IsLeft m [] hu ha = tt
  each-IsLeft m (n ∷ ns) hu ha = (
    made m n ∙ avail_lem _ _ (omega arith) (omega arith),
    each-IsLeft m ns (omega arith) (omega arith),
  )

  SumsUp-IsExact :
      (whole : Metric) (nodes : List NodeMetrics) (m : Map Amounts) (ns : List Node)
      → nodes ≡ map (node_metrics m) ns
      → SumsUp whole part nodes
      → IsSmallSum part nodes
      → IsExact whole part nodes
  SumsUp-IsExact whole nodes m ns same sums (hu, hc, ha) =
      let used : whole.used ≡ total (λ n. (part n).used) nodes = omega (arith, sums.used) in
      let allocatable : whole.allocatable ≡ total (λ n. (part n).allocatable) nodes =
        omega (arith, sums.allocatable) in
      record {
        used = used;
        capacity = omega (arith, sums.capacity);
        allocatable = allocatable;
        left = sums.available ∙ avail_lem _ _ (omega (arith, allocatable)) (omega (arith, used));
        each = rw same (each-IsLeft m ns (rw (same) at hu) (rw (same) at ha));
      }

-- The nodes of the metrics are made of nodes.
abbrev Made : ClusterMetrics → Type 0
Made cm = (m : Map Amounts) × (ns : List Node) × (cm.nodes ≡ map (node_metrics m) ns)

module _ {W : Type 0} (c : Listing W) where
  with_metrics-Made :
      (nodes : List Node) (r : Result (List NodeUsage)) (cm : ClusterMetrics) (w w' : W)
      → with_metrics c nodes r w ≡ (ok cm, w')
      → Made cm
  unfolding cluster_of
  with_metrics-Made nodes (ok items) cm w w' h =
      rw (← ok_injective h) (used_by_name items [], nodes, refl)
  with_metrics-Made nodes (err e) cm w w' h = rw (← ok_injective h) ([], nodes, refl)

  with_nodes-Made :
      (r : Result (List Node)) (cm : ClusterMetrics) (w w' : W)
      → with_nodes c r w ≡ (ok cm, w')
      → Made cm
  with_nodes-Made (err e) cm w w' h = let bad = ap (λ p. p.0) h in cc
  with_nodes-Made (ok nodes) cm w w' h = with_metrics-Made nodes _ cm _ w' h

  -- Where the sums of the used, total and allocatable CPU and memory of the nodes are non-negative
  -- int64, they are the figures of the cluster, whether the metrics server answers or not, and what is
  -- available, of the cluster and of each node, is the allocatable amount less the used one, or 0 where
  -- more is used.
  pub cluster-IsExact :
      (cm : ClusterMetrics) (w w' : W)
      → cluster c w ≡ (ok cm, w')
      → IsSmallSum (λ n. n.cpu) cm.nodes
      → IsSmallSum (λ n. n.memory) cm.nodes
      → IsExact cm.cpu (λ n. n.cpu) cm.nodes × IsExact cm.memory (λ n. n.memory) cm.nodes
  unfolding cluster node_metrics metric
  cluster-IsExact cm w w' h cpu memory =
      let (m, ns, same) = with_nodes-Made _ cm _ w' h in
      let (cpu_sums, memory_sums) = cluster-IsTotal c cm w w' h in
      (
        SumsUp-IsExact (λ n. n.cpu) (λ m n. refl) cm.cpu cm.nodes m ns same cpu_sums cpu,
        SumsUp-IsExact (λ n. n.memory) (λ m n. refl) cm.memory cm.nodes m ns same memory_sums
            memory,
      )
