-- ===== src/Metrics/Totals.antt =====
-- The figures of the whole cluster are the sums of those of its nodes.
use wordpress_manager_operat.Prelude.{
  ℕ, ◌≡◌, refl, ap, ◌+◌, ◌%◌, ◌^◌, ◌<◌, arith, Bool, true, false, List, [], ◌∷◌, map, All, Error,
  Result, ok, err, ok_injective,
}
use wordpress_manager_operat.Maps.{Map, lookup}
use wordpress_manager_operat.Metrics.{
  Metric, NodeMetrics, ClusterMetrics, metric, avail, Amounts, Node, NodeUsage, Listing,
}
use wordpress_manager_operat.Metrics.Kube.{
  node_metrics, Sums, no_sums, add_node, sum_nodes, cluster_of, used_by_name, cluster, with_nodes,
  with_metrics,
}

abbrev pub total {ℓ} : {A : Type ℓ} → (A → ℕ) → List A → ℕ
total f [] = 0
total f (x ∷ xs) = f x + total f xs

-- One of the sums is, modulo 2 ^ 64, what it was and the sum of a figure of the nodes.
sum_nodes-total :
    (get : Sums → ℕ) (f : NodeMetrics → ℕ) (m : Map Amounts)
    → ((s : Sums) (n : Node) → get (add_node m s n) ≡ (get s + f (node_metrics m n)) % 2 ^ 64)
    → (s : Sums) (ns : List Node) → get s < 2 ^ 64
    → get (sum_nodes m s ns) ≡ (get s + total f (map (node_metrics m) ns)) % 2 ^ 64
unfolding sum_nodes
sum_nodes-total get f m step s [] h = omega arith
sum_nodes-total get f m step s (n ∷ ns) h =
    let small : get (add_node m s n) < 2 ^ 64 = (let e = step s n in omega (arith, e)) in
    omega (arith, step s n, sum_nodes-total get f m step (add_node m s n) ns small)

sums_from_zero :
    (get : Sums → ℕ) (f : NodeMetrics → ℕ) (m : Map Amounts)
    → ((s : Sums) (n : Node) → get (add_node m s n) ≡ (get s + f (node_metrics m n)) % 2 ^ 64)
    → get no_sums ≡ 0
    → (ns : List Node) → get (sum_nodes m no_sums ns) ≡ total f (map (node_metrics m) ns) % 2 ^ 64
sums_from_zero get f m step zeroed ns =
    omega (arith, zeroed, sum_nodes-total get f m step no_sums ns (omega (arith, zeroed)))

-- A metric of the cluster is made of the sums of a metric of its nodes.
pub record SumsUp (m : Metric) (part : NodeMetrics → Metric) (nodes : List NodeMetrics)
    : Type 0 where
  pub used : m.used ≡ total (λ n. (part n).used) nodes % 2 ^ 64
  pub capacity : m.capacity ≡ total (λ n. (part n).capacity) nodes % 2 ^ 64
  pub allocatable : m.allocatable ≡ total (λ n. (part n).allocatable) nodes % 2 ^ 64
  pub available : m.available ≡ avail m.allocatable m.used

abbrev pub IsTotal : ClusterMetrics → Type 0
IsTotal cm = SumsUp cm.cpu (λ n. n.cpu) cm.nodes × SumsUp cm.memory (λ n. n.memory) cm.nodes

cluster_of-IsTotal :
    (known : Bool) (m : Map Amounts) (nodes : List Node) → IsTotal (cluster_of known m nodes)
unfolding cluster_of node_metrics metric
cluster_of-IsTotal known m nodes = (
  record {
    used = sums_from_zero (λ s. s.used.cpu) (λ n. n.cpu.used) m (λ s n. refl) refl nodes;
    capacity =
        sums_from_zero (λ s. s.capacity.cpu) (λ n. n.cpu.capacity) m (λ s n. refl) refl nodes;
    allocatable =
        sums_from_zero (λ s. s.allocatable.cpu) (λ n. n.cpu.allocatable) m (λ s n. refl) refl nodes;
    available = refl;
  },
  record {
    used = sums_from_zero (λ s. s.used.memory) (λ n. n.memory.used) m (λ s n. refl) refl nodes;
    capacity =
        sums_from_zero (λ s. s.capacity.memory) (λ n. n.memory.capacity) m (λ s n. refl) refl nodes;
    allocatable =
        sums_from_zero (λ s. s.allocatable.memory) (λ n. n.memory.allocatable) m (λ s n. refl) refl
          nodes;
    available = refl;
  },
)

module _ {W : Type 0} (c : Listing W) where
  with_metrics-IsTotal :
      (nodes : List Node) (r : Result (List NodeUsage)) (cm : ClusterMetrics) (w w' : W)
      → with_metrics c nodes r w ≡ (ok cm, w')
      → IsTotal cm
  with_metrics-IsTotal nodes (ok items) cm w w' h =
      rw (← ok_injective h) (cluster_of-IsTotal true (used_by_name items []) nodes)
  with_metrics-IsTotal nodes (err e) cm w w' h =
      rw (← ok_injective h) (cluster_of-IsTotal false [] nodes)

  with_nodes-IsTotal :
      (r : Result (List Node)) (cm : ClusterMetrics) (w w' : W)
      → with_nodes c r w ≡ (ok cm, w')
      → IsTotal cm
  with_nodes-IsTotal (err e) cm w w' h = let bad = ap (λ p. p.0) h in cc
  with_nodes-IsTotal (ok nodes) cm w w' h = with_metrics-IsTotal nodes _ cm _ w' h

  -- Whether the metrics server answers or not, the used, total and allocatable CPU and memory of the
  -- cluster are the sums of those of the nodes beside them, modulo 2 ^ 64, and what is available is
  -- taken from these sums.
  pub cluster-IsTotal : (cm : ClusterMetrics) (w w' : W) → cluster c w ≡ (ok cm, w') → IsTotal cm
  unfolding cluster
  cluster-IsTotal cm w w' h = with_nodes-IsTotal _ cm _ w' h

  unused :
      (nodes : List Node)
      → All
          (λ (n : NodeMetrics). (n.cpu.used ≡ 0) × (n.memory.used ≡ 0))
          (map (node_metrics []) nodes)
  unfolding node_metrics metric lookup
  unused [] = tt
  unused (n ∷ ns) = ((refl, refl), unused ns)

  -- Without the metrics server the nodes are still listed, with no usage, and the flag is down.
  pub cluster_degrades :
      (nodes : List Node) (e : Error) (w w1 w2 : W)
      → c.list_nodes w ≡ (ok nodes, w1)
      → c.list_node_metrics w1 ≡ (err e, w2)
      → (cm : ClusterMetrics) × (cluster c w ≡ (ok cm, w2))
        × (cm.metrics_available ≡ false)
        × All (λ (n : NodeMetrics). (n.cpu.used ≡ 0) × (n.memory.used ≡ 0)) cm.nodes
  unfolding cluster cluster_of
  cluster_degrades nodes e w w1 w2 listed failed =
      (cluster_of false [] nodes, rw (listed, failed), refl, unused nodes)
