-- ===== src/Metrics/Dev.antt =====
-- internal/metrics/dev.go: the provider that makes up the usage of the sites.
pub mod Capacity
use Prim.Native.String.{len}
use wordpress_manager_operat.Prelude.{
  ℕ, String, true, ◌%◌, Option, none, some, List, [], ◌∷◌, map, value_or, nat_eq, ltb, Exec, ◌>>=◌,
  pure, if◌then◌else◌,
}
use wordpress_manager_operat.Int64.{add64, mul64, div64, gt64}
use wordpress_manager_operat.Maps.{lookup}
use wordpress_manager_operat.Api.{WordPressSite, Quantity, ResourceRequirements}
use wordpress_manager_operat.Metrics.{ClusterMetrics, SiteUsage, metric, Listing, Provider}

pub record DevProvider : Type 0 where
  pub namespace : String
  pub cap_cpu : ℕ
  pub cap_mem : ℕ

-- 8 vCPU and 16 GiB
abbrev pub new_dev_provider : String → DevProvider
new_dev_provider namespace = record { namespace = namespace; cap_cpu = 8000; cap_mem = 17179869184 }

abbrev pub usage_replicas : Option ℕ → ℕ
usage_replicas none = 1
usage_replicas (some n) = if ltb 0 n then n else 1

abbrev pub or_amount : ℕ → ℕ → ℕ
or_amount d n = if nat_eq n 0 then d else n

-- ResourceList.Cpu and ResourceList.Memory of the requests: zero where there is none.
abbrev pub requested : String → ResourceRequirements → Quantity
requested name r = value_or (lookup name r.requests) (record { milli_value = 0; value = 0 })

unfoldable pub site_usage : WordPressSite → SiteUsage
unfolding lookup
site_usage s =
    let replicas = usage_replicas s.spec.replicas in
    let req_cpu = or_amount 150 (requested "cpu" s.spec.resources).milli_value in
    let req_mem = or_amount 268435456 (requested "memory" s.spec.resources).value in
    record {
      name = s.meta.name;
      cpu_milli = mul64 replicas (add64 (div64 (mul64 req_cpu 70) 100) (len s.meta.name % 30));
      memory_bytes = mul64 replicas (div64 (mul64 req_mem 80) 100);
    }

-- The loop of Cluster over one of the two amounts.
unfoldable pub add_used : (SiteUsage → ℕ) → ℕ → List SiteUsage → ℕ
add_used f n [] = n
add_used f n (s ∷ ss) = add_used f (add64 n (f s)) ss

abbrev pub at_most : ℕ → ℕ → ℕ
at_most bound n = if gt64 n bound then bound else n

unfoldable pub dev_cluster_of : DevProvider → List SiteUsage → ClusterMetrics
unfolding add_used
dev_cluster_of d ss =
    let alloc_cpu = div64 (mul64 d.cap_cpu 95) 100 in
    let alloc_mem = div64 (mul64 d.cap_mem 95) 100 in
    let cpu = metric (at_most alloc_cpu (add_used (λ s. s.cpu_milli) 500 ss)) d.cap_cpu alloc_cpu in
    let memory =
      metric (at_most alloc_mem (add_used (λ s. s.memory_bytes) 2147483648 ss)) d.cap_mem
        alloc_mem in
    record {
      cpu = cpu;
      memory = memory;
      nodes = record { name = "dev-node"; cpu = cpu; memory = memory } ∷ [];
      metrics_available = true;
    }

module _ {W : Type 0} (c : Listing W) (d : DevProvider) where
  unfoldable pub dev_sites : Exec W (List SiteUsage)
  unfolding site_usage
  dev_sites = c.list_sites d.namespace >>= λ sites. pure (map site_usage sites)

  unfoldable pub dev_cluster : Exec W ClusterMetrics
  unfolding dev_sites dev_cluster_of
  dev_cluster = dev_sites >>= λ ss. pure (dev_cluster_of d ss)

  abbrev pub dev_provider : Provider W
  dev_provider = record { cluster = dev_cluster; sites = dev_sites }
