-- ===== src/Metrics/Accounts/Sums.antt =====
-- What the loop over the pods adds up for each site.

use wordpress_manager_operat.Prelude.{
  ℕ, String, ◌≡◌, ◌≢◌, refl, sym, ◌∙◌, ◌+◌, ◌%◌, ◌^◌, ◌<◌, inl, inr, arith, false, Bool-cases, none,
  some, List, [], ◌∷◌, All, ◌==◌, eq_iff, eq_refl, if◌then◌else◌, ==-false_of_ne, ne_of_==-false,
}
use wordpress_manager_operat.Text.{is_empty}
use wordpress_manager_operat.Maps.{Map, lookup, insert, lookup-insert}
use wordpress_manager_operat.Metrics.{Amounts, PodUsage}
use wordpress_manager_operat.Metrics.Totals.{total}
use wordpress_manager_operat.Metrics.Kube.{add_amounts, used_at, add_containers, site_of, aggregate}

-- The sum of an amount over all containers of the pods of a site.
abbrev pub site_total : (Amounts → ℕ) → String → List PodUsage → ℕ
site_total get site [] = 0
site_total get site (p ∷ ps) =
    (if site_of p == site then total get p.containers else 0) + site_total get site ps

module _ (get : Amounts → ℕ)
    (adds : (a b : Amounts) → get (add_amounts a b) ≡ (get a + get b) % 2 ^ 64) where
  get-add_containers :
      (a : Amounts) (cs : List Amounts)
      → get a < 2 ^ 64
      → get (add_containers a cs) ≡ (get a + total get cs) % 2 ^ 64
  unfolding add_containers
  get-add_containers a [] h = omega arith
  get-add_containers a (c ∷ cs) h =
      omega (arith, adds a c, get-add_containers (add_amounts a c) cs (omega (arith, adds a c)))

  -- What a site has behind one more pod.
  abbrev step : PodUsage → Map Amounts → Map Amounts
  step p m =
      if is_empty (site_of p)
      then m
      else insert (site_of p) (add_containers (used_at m (site_of p)) p.containers) m

  get-step :
      (p : PodUsage) (m : Map Amounts) (site : String)
      → site ≢ ""
      → get (used_at m site) < 2 ^ 64
      → get (used_at (step p m) site)
        ≡ (get (used_at m site) + (if site_of p == site then total get p.containers else 0))
          % 2 ^ 64
  get-step p m site named h = elim (Bool-cases (is_empty (site_of p))) [
    | inl missing ↦
        let blank : site_of p ≡ "" = (eq_iff (site_of p) "").0 missing in
        let other : (site_of p == site) ≡ false =
          ==-false_of_ne (site_of p) site (λ e. named (sym e ∙ blank)) in
        rw (missing, other) (omega arith)
    | inr given ↦ elim (Bool-cases (site_of p == site)) [
      | inl same ↦
          let e = (eq_iff (site_of p) site).0 same in
          rw
            (
              given,
              lookup-insert (site_of p) site (add_containers (used_at m (site_of p)) p.containers)
                  m,
              same,
              e,
            )
            (get-add_containers (used_at m site) p.containers h)
      | inr other ↦
          rw
            (
              given,
              lookup-insert (site_of p) site (add_containers (used_at m (site_of p)) p.containers)
                  m,
              other,
            )
            (omega arith)
    ]
  ]

  pub get-aggregate :
      (ps : List PodUsage) (m : Map Amounts) (site : String)
      → site ≢ ""
      → get (used_at m site) < 2 ^ 64
      → get (used_at (aggregate ps m) site)
        ≡ (get (used_at m site) + site_total get site ps) % 2 ^ 64
  unfolding aggregate
  get-aggregate [] m site named h = omega arith
  get-aggregate (p ∷ ps) m site named h =
      let here = get-step p m site named h in
      omega (arith, here, get-aggregate ps (step p m) site named (omega (arith, here)))

-- No key is empty, and none stands twice.
abbrev IsAgg : Map Amounts → Type 0
IsAgg [] = Unit
IsAgg ((k, v) ∷ m) = (k ≢ "") × (lookup k m ≡ none) × IsAgg m

insert-IsAgg :
    (k : String) (v : Amounts) (m : Map Amounts) → k ≢ "" → IsAgg m → IsAgg (insert k v m)
unfolding insert lookup
insert-IsAgg k v [] named h = (named, refl, tt)
insert-IsAgg k v ((j, w) ∷ m) named (a, b, h) = elim (Bool-cases (j == k)) [
  | inl same ↦ rw same (a, b, h)
  | inr other ↦
      let off : (k == j) ≡ false = ==-false_of_ne k j (λ e. ne_of_==-false j k other (sym e)) in
      rw other (a, rw (lookup-insert k j v m, off) b, insert-IsAgg k v m named h)
]

pub aggregate-IsAgg : (ps : List PodUsage) (m : Map Amounts) → IsAgg m → IsAgg (aggregate ps m)
unfolding aggregate
aggregate-IsAgg [] m h = h
aggregate-IsAgg (p ∷ ps) m h = elim (Bool-cases (is_empty (site_of p))) [
  | inl missing ↦ rw missing (aggregate-IsAgg ps m h)
  | inr given ↦
      rw given (
        aggregate-IsAgg ps _ (insert-IsAgg (site_of p) _ m (ne_of_==-false (site_of p) "" given) h))
]

-- Every entry is the one that is found at its key.
pub All-entries :
    (P : String × Amounts → Type 0) (m : Map Amounts)
    → IsAgg m
    → ((k : String) (v : Amounts) → k ≢ "" → lookup k m ≡ some v → P (k, v))
    → All P m
unfolding lookup
All-entries P [] h f = tt
All-entries P ((k, v) ∷ m) (named, once, h) f = (
  f k v named (rw (eq_refl k)),
  All-entries P m h (λ j w other found. f j w other (later j w found)),
)
  where
    later : (j : String) (w : Amounts) → lookup j m ≡ some w → lookup j ((k, v) ∷ m) ≡ some w
    later j w found = elim (Bool-cases (k == j)) [
      | inl same ↦ let e = (eq_iff k j).0 same in let bad = sym once ∙ (rw (← e) at found) in cc
      | inr other ↦ rw other found
    ]
