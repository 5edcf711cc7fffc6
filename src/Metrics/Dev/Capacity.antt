-- ===== src/Metrics/Dev/Capacity.antt =====
-- The made-up usage stays within the virtual node.
use Prim.Native.Nat.{min}
use wordpress_manager_operat.Prelude.{
  ℕ, String, ◌≡◌, refl, ◌+◌, ◌%◌, ◌^◌, ◌≤◌, ◌<◌, arith, List, [], ◌∷◌, ok, ok_injective,
}
use wordpress_manager_operat.Int64.{IsSmall}
use wordpress_manager_operat.Metrics.{Metric, ClusterMetrics, SiteUsage, metric, avail, Listing}
use wordpress_manager_operat.Metrics.Totals.{total}
use wordpress_manager_operat.Metrics.Dev.{
  new_dev_provider, add_used, dev_cluster_of, dev_sites, dev_cluster,
}

add_used-total :
    (f : SiteUsage → ℕ) (n : ℕ) (ss : List SiteUsage)
    → n + total f ss < 2 ^ 64
    → add_used f n ss ≡ n + total f ss
unfolding add_used
add_used-total f n [] h = omega arith
add_used-total f n (s ∷ ss) h =
    let here : (n + f s) % 2 ^ 64 ≡ n + f s = omega (arith, h) in
    rw here (omega (arith, add_used-total f (n + f s) ss (omega (arith, h))))

-- A metric uses the amount, up to what can be allocated, and has the rest available.
pub record Within (m : Metric) (allocatable wanted : ℕ) : Type 0 where
  pub allocated : m.allocatable ≡ allocatable
  pub used : m.used ≡ min wanted allocatable
  pub split : m.used + m.available ≡ allocatable
  pub fits : m.allocatable ≤ m.capacity

metric-Within :
    (wanted capacity allocatable : ℕ) (x : ℕ)
    → IsSmall wanted
    → IsSmall allocatable
    → allocatable ≤ capacity
    → x ≡ min wanted allocatable
    → Within (metric x capacity allocatable) allocatable wanted
unfolding metric avail
metric-Within wanted capacity allocatable x hw ha hc e = record {
  allocated = refl;
  used = e;
  split = ground (arith, e);
  fits = hc;
}

-- While the sums are int64, the development provider shows for CPU and memory what its sites and the
-- overhead of the system use, up to the 95 % of the node that can be allocated, and the rest of
-- these as available.
pub dev_cluster-Within :
    {W : Type 0} (c : Listing W) (namespace : String) (ss : List SiteUsage) (cm : ClusterMetrics)
    (w w1 w' : W)
    → IsSmall (500 + total (λ s. s.cpu_milli) ss)
    → IsSmall (2147483648 + total (λ s. s.memory_bytes) ss)
    → dev_sites c (new_dev_provider namespace) w ≡ (ok ss, w1)
    → dev_cluster c (new_dev_provider namespace) w ≡ (ok cm, w')
    → Within cm.cpu 7600 (500 + total (λ s. s.cpu_milli) ss)
      × Within cm.memory 16320875724 (2147483648 + total (λ s. s.memory_bytes) ss)
unfolding dev_cluster dev_cluster_of
dev_cluster-Within c namespace ss cm w w1 w' hc hm listed h =
    let cpu = add_used-total (λ s. s.cpu_milli) 500 ss (omega (arith, hc)) in
    let memory = add_used-total (λ s. s.memory_bytes) 2147483648 ss (omega (arith, hm)) in
    rw (← ok_injective (rw listed at h), cpu, memory)
      (
        metric-Within (500 + total (λ s. s.cpu_milli) ss) 8000 7600 _ hc (omega arith) (omega arith)
            (ground arith),
        metric-Within (2147483648 + total (λ s. s.memory_bytes) ss) 17179869184 16320875724 _ hm
            (omega arith) (omega arith) (ground arith),
      )
