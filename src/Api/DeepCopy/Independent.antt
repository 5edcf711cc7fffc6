-- ===== src/Api/DeepCopy/Independent.antt =====
-- A deep copy means what its original means, and shares no memory with it.
use wordpress_manager_operat.Prelude.{
  ℕ, ◌≤◌, String, ◌≡◌, refl, ap, ◌∙◌, Option, none, some, List, [], ◌∷◌, arith,
}
use mathlib.Core.Path.{fun_ext}
use mathlib.Core.Option.{map as option_map}
use wordpress_manager_operat.Maps.{Map, lookup, copy, lookup-copy, or_else}
use wordpress_manager_operat.Heap.{Heap, Agree, Below, Within, Copied, IsDeep, alloc, both}
use wordpress_manager_operat.Heap.Copies.{
  plain-IsDeep, rebuilt-IsDeep, both-IsDeep, elements-IsDeep, pointer-IsDeep, struct-IsDeep,
  copy_independent, alloc-Grown, alloc_cell,
}
use wordpress_manager_operat.Api.Memory.{
  Types, Spec, Cell, strings, strings_kind, number_kind, flag_kind, entries_kind, envs_kind,
  conditions_kind, items_kind, site_kind, list_kind,
}
use wordpress_manager_operat.Api.DeepCopy.Meaning.{
  replicas, force_https, annotations, env, conditions, spec_refs, fill_spec, show_spec, spec_fields,
  fill_status, show_status, fill_site, show_site, site_items, fill_list, show_list, site_value,
  list_value, view_object, aliases, view_aliases, ReachAliases, spec_struct, status_struct,
  site_struct, list_struct, sites, lists,
}
use wordpress_manager_operat.Api.DeepCopy.{
  Library, as_object, site_object, list_object, site_deep_copy_object, list_deep_copy_object,
  appended, copy_aliases, spec_deep_copy_into,
}

or_else-none : (o : Option String) → or_else o none ≡ o
or_else-none none = refl
or_else-none (some v) = refl

-- What the Kubernetes libraries document of their deep copies.
pub record LibraryIsDeep (t : Types) (l : Library t) : Type 1 where
  pub meta : IsDeep l.meta
  pub resources : IsDeep l.resources
  pub env_var : IsDeep l.env_var
  pub condition : IsDeep l.condition
  pub list_meta : IsDeep l.list_meta

copied_lookup :
    (m : Map String) → Path (String → Option String) (λ k. lookup k (copy [] m)) (λ k. lookup k m)
unfolding lookup
copied_lookup m = fun_ext (λ k. lookup-copy k [] m ∙ or_else-none (lookup k m))

module _ (t : Types) (l : Library t) where
  aliases_view :
      (Q : ℕ → Type 0) (h h' : Heap (Cell t)) (x : Option ℕ)
      → Agree Q h h'
      → (aliases t l).Reach Q h x
      → (aliases t l).view h x ≡ (aliases t l).view h' x
  aliases_view Q h h' none a r = refl
  aliases_view Q h h' (some p) a r = ap (strings_kind t).unwrap (a p r)

  aliases_wider :
      (Q R : ℕ → Type 0) (h : Heap (Cell t)) (x : Option ℕ)
      → ((p : ℕ) → Q p → R p)
      → (aliases t l).Reach Q h x
      → (aliases t l).Reach R h x
  aliases_wider Q R h none f r = tt
  aliases_wider Q R h (some p) f r = f p r

  -- What append leaves, on names that do not depend on the heap.
  appended_lem :
      (h : Heap (Cell t)) (names : List String)
      → (h.next ≤ (appended t l names h).1.next)
        × Agree (Below h.next) h (appended t l names h).1
        × ReachAliases t l (Within h.next (appended t l names h).1.next) (appended t l names h).0
        × (view_aliases t l (appended t l names h).1 (appended t l names h).0 ≡ names)
  unfolding alloc
  appended_lem h [] = (omega arith, λ p b. refl, tt, refl)
  appended_lem h (x ∷ xs) =
      let g = alloc-Grown (strings_kind t) (x ∷ xs) h in
      (
        g.grows,
        g.kept,
        (omega arith, omega arith),
        ap (strings_kind t).unwrap (alloc_cell (strings_kind t) (x ∷ xs) h),
      )

  aliases_copied :
      (h : Heap (Cell t)) (x : Option ℕ)
      → (aliases t l).Reach (Below h.next) h x
      → Copied (aliases t l) h x
  unfolding copy_aliases
  aliases_copied h none r = record {
    grows = omega arith;
    kept = λ p b. refl;
    fresh = tt;
    same = refl;
  }
  aliases_copied h (some p) r =
      let (grows, kept, fresh, same) = appended_lem h ((strings_kind t).unwrap (h.cell p)) in
      record { grows = grows; kept = kept; fresh = fresh; same = same }

  aliases-IsDeep : IsDeep (aliases t l)
  aliases-IsDeep = record {
    local = record {
      wider = aliases_wider;
      reach_agree = λ Q h h' x a r. r;
      view_agree = aliases_view;
    };
    copied = aliases_copied;
  }

module _ (t : Types) (l : Library t) (k : LibraryIsDeep t l) where
  env-IsDeep : IsDeep (both (annotations t l) (env t l))
  env-IsDeep =
      both-IsDeep (annotations t l) (env t l)
        (pointer-IsDeep _ (rebuilt-IsDeep (copy []) (λ m k. lookup k m) copied_lookup)
          (entries_kind t))
        (pointer-IsDeep _ (elements-IsDeep l.env_var k.env_var) (envs_kind t))

  resources-IsDeep : IsDeep (both l.resources (both (annotations t l) (env t l)))
  resources-IsDeep =
      both-IsDeep l.resources (both (annotations t l) (env t l)) k.resources env-IsDeep

  spec_fields-IsDeep : IsDeep (spec_fields t l)
  spec_fields-IsDeep = both-IsDeep (aliases t l) _ (aliases-IsDeep t l) (
      both-IsDeep (replicas t l) _ (pointer-IsDeep _ plain-IsDeep (number_kind t)) (
        both-IsDeep (force_https t l) _ (pointer-IsDeep _ plain-IsDeep (flag_kind t))
          resources-IsDeep))

  spec-IsDeep : IsDeep (spec_struct t l)
  spec-IsDeep =
      struct-IsDeep (spec_fields t l) (spec_refs t l) (fill_spec t l) (show_spec t l)
        spec_fields-IsDeep (λ x y. refl) (λ x y u. refl)

  status-IsDeep : IsDeep (status_struct t l)
  status-IsDeep =
      struct-IsDeep (conditions t l) (λ s. s.conditions) (fill_status t l) (show_status t l)
        (pointer-IsDeep _ (elements-IsDeep l.condition k.condition) (conditions_kind t))
        (λ x y. refl) (λ x y u. refl)

  site-IsDeep : IsDeep (site_struct t l)
  site-IsDeep =
      struct-IsDeep (both l.meta (both (spec_struct t l) (status_struct t l)))
        (λ s. (s.meta, (s.spec, s.status))) (fill_site t l) (show_site t l)
        (both-IsDeep l.meta _ k.meta (both-IsDeep (spec_struct t l) _ spec-IsDeep status-IsDeep))
        (λ x y. refl) (λ x y u. refl)

  sites-IsDeep : IsDeep (sites t l)
  sites-IsDeep = pointer-IsDeep _ site-IsDeep (site_kind t)

  list-IsDeep : IsDeep (list_struct t l)
  list-IsDeep =
      struct-IsDeep (both l.list_meta (site_items t l)) (λ s. (s.meta, s.items)) (fill_list t l)
        (show_list t l)
        (both-IsDeep l.list_meta (site_items t l) k.list_meta
          (pointer-IsDeep _ (elements-IsDeep (site_struct t l) site-IsDeep) (items_kind t)))
        (λ x y. refl) (λ x y u. refl)

  lists-IsDeep : IsDeep (lists t l)
  lists-IsDeep = pointer-IsDeep _ list-IsDeep (list_kind t)

  site_object_view :
      (h : Heap (Cell t)) (p : Option ℕ)
      → view_object t l h (as_object site_object p)
        ≡ option_map (λ v. site_value v) ((sites t l).view h p)
  site_object_view h none = refl
  site_object_view h (some p) = refl

  list_object_view :
      (h : Heap (Cell t)) (p : Option ℕ)
      → view_object t l h (as_object list_object p)
        ≡ option_map (λ v. list_value v) ((lists t l).view h p)
  list_object_view h none = refl
  list_object_view h (some p) = refl

  -- The copy of a site means what the site means, and goes on to where later only cells that are not
  -- the copy's are written; so does the site where only cells that it did not reach are written.
  pub site_deep_copy_object_independent :
      (h : Heap (Cell t)) (p : Option ℕ) (over under : Heap (Cell t))
      → (sites t l).Reach (Below h.next) h p
      → Agree (Below h.next) (site_deep_copy_object t l p h).1 over
      → Agree (λ q. h.next ≤ q) (site_deep_copy_object t l p h).1 under
      → ((sites t l).view over p ≡ (sites t l).view h p)
        × (view_object t l under (site_deep_copy_object t l p h).0
            ≡ option_map (λ v. site_value v) ((sites t l).view h p))
  unfolding site_deep_copy_object
  site_deep_copy_object_independent h p over under r above below =
      let (kept, same) = copy_independent (sites t l) sites-IsDeep h p over under r above below in
      (kept, site_object_view under _ ∙ ap (option_map (λ v. site_value v)) same)

  -- With libraries whose deep copies are deep, the DeepCopyObject of a list of sites means, where
  -- later only cells below the end of the heap at the copy are written, what the list and all of its
  -- sites meant; and the list goes on to mean that where only cells from there on are written.
  pub list_deep_copy_object_independent :
      (h : Heap (Cell t)) (p : Option ℕ) (over under : Heap (Cell t))
      → (lists t l).Reach (Below h.next) h p
      → Agree (Below h.next) (list_deep_copy_object t l p h).1 over
      → Agree (λ q. h.next ≤ q) (list_deep_copy_object t l p h).1 under
      → ((lists t l).view over p ≡ (lists t l).view h p)
        × (view_object t l under (list_deep_copy_object t l p h).0
            ≡ option_map (λ v. list_value v) ((lists t l).view h p))
  unfolding list_deep_copy_object
  list_deep_copy_object_independent h p over under r above below =
      let (kept, same) = copy_independent (lists t l) lists-IsDeep h p over under r above below in
      (kept, list_object_view under _ ∙ ap (option_map (λ v. list_value v)) same)

  -- The copy of a slice of aliases that is empty, but not nil, is nil.
  pub empty_aliases :
      (h : Heap (Cell t)) (s : Spec t) (p : ℕ)
      → s.aliases ≡ some p
      → h.cell p ≡ strings []
      → (spec_deep_copy_into t l s h).0.aliases ≡ none
  unfolding spec_deep_copy_into copy_aliases
  empty_aliases h s p e empty = rw (e, empty) refl
