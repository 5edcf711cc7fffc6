-- ===== src/Apiserver/Status/Siblings.antt =====
-- The events of other sites that the status of a site shows.
use Prim.Native.String.{◌++◌}
use text.Mathlib.TextLemmas.{append_assoc}
use mathlib.Core.Logic.Or
use mathlib.Core.List.Perm
use mathlib.Core.List.{
  Mem, Mem-prop, not-mem-nil, eq-or-mem_of_mem-cons, mem-cons_self, mem-cons_of_mem,
}
use wordpress_manager_operat.Prelude.{
  ℕ, ap, refl, ◌<◌, zero, suc, arith, Bool, length, take, ok, List, [], ◌∷◌, String, ◌≡◌, true,
  ◌==◌, Bool-cases, inl, inr,
}
use wordpress_manager_operat.Text.Prefix.{strip_prefix-append}
use wordpress_manager_operat.Api.{WordPressSite}
use wordpress_manager_operat.Apiserver.Interface.{Client, json}
use wordpress_manager_operat.Apiserver.Sites.{Server, fetch}
use wordpress_manager_operat.Apiserver.Status.{
  EventDto, SiteStatusDto, Event, Format, Diagnostics, event_dto, involves, site_events, newer,
  get_site_status,
}
use wordpress_manager_operat.Apiserver.Status.Newest.{IsSorted, get_site_status-events}

-- A list of which fewer than `n` are taken is taken whole.
take_whole : (n : ℕ) (xs : List EventDto) → length (take n xs) < n → take n xs ≡ xs
take_whole zero xs h = absurd (omega arith)
take_whole (suc n) [] h = refl
take_whole (suc n) (x ∷ xs) h = ap (λ t. x ∷ t) (take_whole n xs (omega arith))

-- The name of another site, which is that of the site with a dash and more behind it, is taken for the
-- name of an object of the site.
involves-other :
    (site other : WordPressSite) (suffix : String) (e : Event)
    → other.meta.name ≡ site.meta.name ++ "-" ++ suffix
    → e.object_name ≡ other.meta.name
    → involves site.meta.name e ≡ true
unfolding involves
involves-other site other suffix e named object =
    elim (Bool-cases (e.object_name == site.meta.name)) [
      | inl same ↦ rw same
      | inr different ↦ rw (
        different,
        object,
        named,
        ← append_assoc site.meta.name "-" suffix,
        strip_prefix-append (site.meta.name ++ "-") suffix,
      )
    ]

site_events-involved :
    (f : Format) (site : String) (e : Event) (es : List Event)
    → involves site e ≡ true
    → Mem e es
    → Mem (event_dto f e) (site_events f site es)
unfolding site_events
site_events-involved f site e [] h m = absurd (not-mem-nil m)
site_events-involved f site e (x ∷ es) h m =
    Or.elim Mem-prop (eq-or-mem_of_mem-cons m)
      (λ same. let shown : involves site x ≡ true = rw (← same) h in rw (shown, same) mem-cons_self)
      (λ later.
        let rest = site_events-involved f site e es h later in
        elim (Bool-cases (involves site x)) [
          | inl t ↦ rw t (mem-cons_of_mem (event_dto f x) rest)
          | inr n ↦ rw n rest
        ])

module _ {W : Type 0} (c : Client W) (s : Server W) (d : Diagnostics W) (f : Format)
    (sort : (EventDto → EventDto → Bool) → List EventDto → List EventDto) where
  -- Where another site bears the name of the site with a dash and more behind it, every event of its
  -- Deployment, which bears the name of that other site, is among the events that the status of the
  -- site shows, if it shows fewer than 25, with sort.Slice and an event list that is read.
  pub get_site_status-other :
      (name suffix : String) (site other : WordPressSite) (e : Event) (es : List Event)
      (out : SiteStatusDto) (n : ℕ) (w w1 : W)
      → other.meta.name ≡ site.meta.name ++ "-" ++ suffix
      → e.object_name ≡ other.meta.name
      → Mem e es
      → IsSorted newer
          (site_events f site.meta.name es)
          (sort newer (site_events f site.meta.name es))
      → fetch c s name w ≡ (ok site, w1)
      → (d.list_events s.namespace
          (d.list_pods s.namespace "wp.benji.dev/site" site.meta.name w1).1).0
        ≡ ok es
      → (get_site_status c s d f sort name w).0 ≡ json n out
      → length out.events < 25
      → Mem (event_dto f e) out.events
  get_site_status-other name suffix site other e es out n w w1 named object m sorts fetched listed h
        few =
      let all = site_events f site.meta.name es in
      let sorted = sort newer all in
      let shown = get_site_status-events c s d f sort name site es out n w w1 fetched listed h in
      let found =
        site_events-involved f site.meta.name e es (involves-other site other suffix e named object)
          m in
      let whole : take 25 sorted ≡ sorted = take_whole 25 sorted (rw shown at few) in
      rw (shown, whole) ((Perm.mem_iff sorts.perm).1 found)
