-- ===== src/Apiserver/Status/Newest.antt =====
-- The events that the status of a site shows.
use native.Mathlib.Decide.{dec_lt}
use mathlib.Core.List.{Perm, Mem}
use wordpress_manager_operat.Prelude.{
  ℕ, String, ◌≡◌, refl, ap, sym, ◌≤◌, ◌<◌, ◌⊎◌, inl, inr, arith, Bool, true, false, zero, suc, List,
  [], ◌∷◌, ◌++◌, length, take, drop, take-append-drop, length-take, All, All-drop, All-IsProp,
  mem_of_All, ok, nat_eq, if◌then◌else◌,
}
use wordpress_manager_operat.Api.{WordPressSite}
use wordpress_manager_operat.Apiserver.Interface.{Client, Reply, json, problem}
use wordpress_manager_operat.Apiserver.Sites.{Server, fetch}
use wordpress_manager_operat.Apiserver.Status.{
  EventDto, SiteStatusDto, Event, Format, Diagnostics, time_text, event_dto, site_events, gt_string,
  newer, get_site_status,
}

-- By the text that it shows, not seen later than the other.
abbrev pub NotNewer : EventDto → EventDto → Type 0
NotNewer a b = gt_string a.last_seen b.last_seen ≡ false

-- When an event was last seen.
abbrev pub seen : Event → ℕ
seen e = if nat_eq e.last_timestamp 0 then e.event_time else e.last_timestamp

-- The layout puts the times of these events in their order, as RFC3339 does with the times of one zone
-- up to the year 9999.
abbrev pub Row : Format → Event → Event → Type 0
Row f a b =
    seen a < seen b → gt_string (time_text f.rfc3339 (seen b)) (time_text f.rfc3339 (seen a)) ≡ true

abbrev pub Rows : Format → List Event → Event → Type 0
Rows f es a = All (Row f a) es

abbrev pub IsMonotone : Format → List Event → Type 0
IsMonotone f es = All (Rows f es) es

-- No element is less than one before it.
abbrev pub InOrder : (EventDto → EventDto → Bool) → List EventDto → Type 0
InOrder less [] = Unit
InOrder less (x ∷ xs) = All (λ y. less y x ≡ false) xs × InOrder less xs

-- What sort.Slice documents for a comparison and a list.
pub record IsSorted (less : EventDto → EventDto → Bool) (xs sorted : List EventDto) : Type 0 where
  pub perm : Perm sorted xs
  pub in_order : InOrder less sorted

-- `shown` are the newest of the events of the site, as many as may be shown: by the texts, and by the
-- times of the events.
pub record IsNewest (f : Format) (es : List Event) (site : String) (shown : List EventDto)
    : Type 0 where
  pub rest : List EventDto
  pub parts : Perm (shown ++ rest) (site_events f site es)
  pub bound : length shown ≤ 25
  pub filled : (rest ≡ []) ⊎ (length shown ≡ 25)
  pub newest : All (λ x. All (λ y. NotNewer y x) rest) shown
  pub by_time :
      (a b : Event)
      → Mem a es
      → Mem b es
      → Mem (event_dto f a) shown
      → Mem (event_dto f b) rest
      → seen b ≤ seen a

take-InOrder :
    (less : EventDto → EventDto → Bool) (n : ℕ) (xs : List EventDto)
    → InOrder less xs
    → All (λ x. All (λ y. less y x ≡ false) (drop n xs)) (take n xs)
take-InOrder less zero xs h = tt
take-InOrder less (suc n) [] h = tt
take-InOrder less (suc n) (x ∷ xs) (p, h) =
    (All-drop (λ y. less y x ≡ false) n xs p, take-InOrder less n xs h)

drop_or_full : (n : ℕ) (xs : List EventDto) → (drop n xs ≡ []) ⊎ (length (take n xs) ≡ n)
drop_or_full zero xs = inr refl
drop_or_full (suc n) [] = inl refl
drop_or_full (suc n) (x ∷ xs) = elim (drop_or_full n xs) [ inl e ↦ inl e | inr e ↦ inr (ap suc e) ]

no_later :
    (f : Format) (a b : Event) (es : List Event)
    → IsMonotone f es
    → Mem a es
    → Mem b es
    → NotNewer (event_dto f b) (event_dto f a)
    → seen b ≤ seen a
unfolding event_dto
no_later f a b es mono ma mb h = elim (dec_lt (seen a) (seen b)) [
  | yes later ↦
      let from_a =
        mem_of_All (Rows f es) (λ x. All-IsProp (Row f x) (λ y. hlevel) es) es mono a ma in
      let texts = mem_of_All (Row f a) (λ y. hlevel) es from_a b mb later in cc
  | no other ↦ omega arith
]

module _ {W : Type 0} (c : Client W) (s : Server W) (d : Diagnostics W) (f : Format)
    (sort : (EventDto → EventDto → Bool) → List EventDto → List EventDto) where
  shown : SiteStatusDto → Reply SiteStatusDto → SiteStatusDto
  shown out (json n x) = x
  shown out (problem n m) = out

  -- The events of the status.
  pub get_site_status-events :
      (name : String) (site : WordPressSite) (es : List Event) (out : SiteStatusDto) (n : ℕ)
      (w w1 : W)
      → fetch c s name w ≡ (ok site, w1)
      → (d.list_events s.namespace
          (d.list_pods s.namespace "wp.benji.dev/site" site.meta.name w1).1).0
        ≡ ok es
      → (get_site_status c s d f sort name w).0 ≡ json n out
      → out.events ≡ take 25 (sort newer (site_events f site.meta.name es))
  unfolding get_site_status shown
  get_site_status-events name site es out n w w1 fetched listed h =
      let same = ap (shown out) (rw (fetched, listed) at h) in
      ap (λ (o : SiteStatusDto). o.events) (sym same)

  take-IsNewest :
      (es : List Event) (site : String)
      → IsMonotone f es
      → IsSorted newer (site_events f site es) (sort newer (site_events f site es))
      → IsNewest f es site (take 25 (sort newer (site_events f site es)))
  unfolding newer
  take-IsNewest es site mono sorts =
      let all = sort newer (site_events f site es) in
      let newest = take-InOrder newer 25 all sorts.in_order in
      record {
        rest = drop 25 all;
        parts = rw (take-append-drop 25 all) (sorts.perm);
        bound = omega (arith, length-take 25 all);
        filled = drop_or_full 25 all;
        newest = newest;
        by_time = λ a b ma mb ms mr. no_later f a b es mono ma mb (
            mem_of_All (λ y. NotNewer y (event_dto f a)) (λ y. hlevel) (drop 25 all)
              (mem_of_All (λ x. All (λ y. NotNewer y x) (drop 25 all))
                (λ x. All-IsProp (λ y. NotNewer y x) (λ y. hlevel) (drop 25 all)) (take 25 all)
                newest (event_dto f a) ms)
              (event_dto f b) mr);
      }

  -- With sort.Slice, a time layout that keeps the order of the times of the events, and an event list
  -- that is read, the status of a site shows, of the events of its objects, the 25 that were seen last,
  -- or all if they are fewer.
  pub get_site_status-IsNewest :
      (name : String) (site : WordPressSite) (es : List Event) (out : SiteStatusDto) (n : ℕ)
      (w w1 : W)
      → IsMonotone f es
      → IsSorted newer
          (site_events f site.meta.name es)
          (sort newer (site_events f site.meta.name es))
      → fetch c s name w ≡ (ok site, w1)
      → (d.list_events s.namespace
          (d.list_pods s.namespace "wp.benji.dev/site" site.meta.name w1).1).0
        ≡ ok es
      → (get_site_status c s d f sort name w).0 ≡ json n out
      → IsNewest f es site.meta.name out.events
  get_site_status-IsNewest name site es out n w w1 mono sorts fetched listed h =
      rw (get_site_status-events name site es out n w w1 fetched listed h)
        (take-IsNewest es site.meta.name mono sorts)
