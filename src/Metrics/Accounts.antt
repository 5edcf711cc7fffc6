-- ===== src/Metrics/Accounts.antt =====
-- The usage of a site is that of all its containers.
pub mod Sums
use mathlib.Core.Logic.Or
use mathlib.Core.List.{
  Mem, Mem-prop, not-mem-nil, eq-or-mem_of_mem-cons, Perm, mem-cons_self, mem-cons_of_mem,
}
use mathlib.Core.List.Perm
use native.Mathlib.Nat.{ℕ_set}
use wordpress_manager_operat.Prelude.{
  String, ◌≡◌, ◌≢◌, refl, ap, ◌%◌, ◌^◌, ◌⊎◌, inl, inr, arith, Bool-cases, Option, value_or, List,
  [], ◌∷◌, map, All, All-perm, ok, ok_injective, ◌==◌, eq_iff,
}
use wordpress_manager_operat.Text.{is_empty}
use wordpress_manager_operat.Maps.{Map, lookup, insert}
use wordpress_manager_operat.Metrics.{SiteUsage, Amounts, PodUsage, Listing}
use wordpress_manager_operat.Metrics.Kube.{
  no_amounts, used_at, add_containers, site_of, aggregate, site_usage_of, sites,
}
use wordpress_manager_operat.Metrics.Accounts.Sums.{
  All-entries, aggregate-IsAgg, get-aggregate, site_total,
}

-- The account of a site is right: it has a name, and its amounts are the sums over its containers.
abbrev pub IsAccount : List PodUsage → SiteUsage → Type 0
IsAccount ps u =
    (u.name ≢ "")
    × (u.cpu_milli ≡ site_total (λ a. a.cpu) u.name ps % 2 ^ 64)
    × (u.memory_bytes ≡ site_total (λ a. a.memory) u.name ps % 2 ^ 64)

used_of : Option Amounts → Amounts
used_of o = value_or o no_amounts

aggregate-IsAccount :
    (ps : List PodUsage) → All (λ e. IsAccount ps (site_usage_of e)) (aggregate ps [])
unfolding used_of lookup
aggregate-IsAccount ps =
    All-entries (λ e. IsAccount ps (site_usage_of e)) (aggregate ps []) (aggregate-IsAgg ps [] tt)
      (λ k v named found.
        let cpu = get-aggregate (λ a. a.cpu) (λ a b. refl) ps [] k named (omega arith) in
        let memory = get-aggregate (λ a. a.memory) (λ a b. refl) ps [] k named (omega arith) in
        let same = ap used_of found in
        (
          named,
          omega (arith, ap (λ (a : Amounts). a.cpu) same, cpu),
          omega (arith, ap (λ (a : Amounts). a.memory) same, memory),
        ))

All-map_usage :
    (P : SiteUsage → Type 0) (m : Map Amounts)
    → All (λ e. P (site_usage_of e)) m
    → All P (map site_usage_of m)
All-map_usage P [] h = tt
All-map_usage P (e ∷ m) (p, h) = (p, All-map_usage P m h)

abbrev keys : Map Amounts → List String
keys m = map (λ e. e.0) m

insert-key : (k : String) (v : Amounts) (m : Map Amounts) → Mem k (keys (insert k v m))
unfolding insert
insert-key k v [] = mem-cons_self
insert-key k v ((j, w) ∷ m) = elim (Bool-cases (j == k)) [
  | inl same ↦ rw (same, (eq_iff j k).0 same) mem-cons_self
  | inr other ↦ rw other (mem-cons_of_mem j (insert-key k v m))
]

insert-keeps_key :
    (k : String) (v : Amounts) (m : Map Amounts) (j : String)
    → Mem j (keys m)
    → Mem j (keys (insert k v m))
unfolding insert
insert-keeps_key k v [] j h = absurd (not-mem-nil h)
insert-keeps_key k v ((i, w) ∷ m) j h = elim (Bool-cases (i == k)) [
  | inl same ↦ rw same h
  | inr other ↦ rw other (
      Or.elim Mem-prop (eq-or-mem_of_mem-cons h) (λ e. rw e mem-cons_self)
        (λ t. mem-cons_of_mem i (insert-keeps_key k v m j t)))
]

aggregate-keeps_key :
    (ps : List PodUsage) (m : Map Amounts) (j : String)
    → Mem j (keys m)
    → Mem j (keys (aggregate ps m))
unfolding aggregate
aggregate-keeps_key [] m j h = h
aggregate-keeps_key (p ∷ ps) m j h = elim (Bool-cases (is_empty (site_of p))) [
  | inl missing ↦ rw missing (aggregate-keeps_key ps m j h)
  | inr given ↦ rw given (aggregate-keeps_key ps _ j (insert-keeps_key (site_of p) _ m j h))
]

-- A pod with no label, or one whose site is among the keys.
abbrev pub IsListed : List String → PodUsage → Type 0
IsListed names p = (site_of p ≡ "") ⊎ Mem (site_of p) names

aggregate-IsListed :
    (names : List String) (ps : List PodUsage) (m : Map Amounts)
    → ((j : String) → Mem j (keys (aggregate ps m)) → Mem j names)
    → All (IsListed names) ps
unfolding aggregate
aggregate-IsListed names [] m h = tt
aggregate-IsListed names (p ∷ ps) m h = elim (Bool-cases (is_empty (site_of p))) [
  | inl missing ↦
      (inl ((eq_iff (site_of p) "").0 missing), aggregate-IsListed names ps m (rw missing at h))
  | inr given ↦
      let h' = rw given at h in
      let m' = insert (site_of p) (add_containers (used_at m (site_of p)) p.containers) m in
      (
        inr (h' (site_of p) (aggregate-keeps_key ps m' (site_of p) (insert-key (site_of p) _ m))),
        aggregate-IsListed names ps m' h',
      )
]

-- The order in which a range goes through a map: each entry once.
abbrev pub IsOrder : (Map Amounts → Map Amounts) → Type 0
IsOrder order = (m : Map Amounts) → Perm (order m) m

IsAccount-prop :
    (ps : List PodUsage) (e : String × Amounts) → IsProp (IsAccount ps (site_usage_of e))
IsAccount-prop ps e = hlevel (ℕ_set)

map-map_name : (m : Map Amounts) → map (λ u. u.name) (map site_usage_of m) ≡ keys m
map-map_name [] = refl
map-map_name (e ∷ m) = ap (λ t. e.0 ∷ t) (map-map_name m)

-- Whatever the order in which the map is gone through, Sites accounts for every pod that has the label
-- of a site, and the amounts that it shows for a site are the sums over all containers of the pods
-- with its label, modulo 2 ^ 64.
pub sites-IsAccount :
    {W : Type 0} (c : Listing W) (order : Map Amounts → Map Amounts) (namespace : String)
    (ps : List PodUsage) (us : List SiteUsage) (w w1 w' : W)
    → IsOrder order
    → c.list_pod_metrics namespace w ≡ (ok ps, w1)
    → sites c order namespace w ≡ (ok us, w')
    → All (IsAccount ps) us × All (IsListed (map (λ u. u.name) us)) ps
unfolding sites
sites-IsAccount c order namespace ps us w w1 w' ordered listed h =
    let shown = ok_injective (rw listed at h) in
    let agg = aggregate ps [] in
    rw (← shown) (
      All-map_usage (IsAccount ps) (order agg) (
          All-perm (λ e. IsAccount ps (site_usage_of e)) (IsAccount-prop ps) (order agg) agg
            (ordered agg) (aggregate-IsAccount ps)),
      aggregate-IsListed (map (λ u. u.name) (map site_usage_of (order agg))) ps [] (λ j m.
          rw (map-map_name (order agg)) ((Perm.mem_iff (Perm.map (λ e. e.0) (ordered agg))).1 m)),
    )
