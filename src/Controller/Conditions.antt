-- ===== src/Controller/Conditions.antt =====
-- The conditions that `setPhase` writes into the status of a site.
use wordpress_manager_operat.Prelude.{
  String, ◌≡◌, refl, sym, ◌≢◌, Option, none, some, List, [], ◌∷◌, arith, All, Bool-cases, inl, inr,
  if◌then◌else◌, ◌==◌, eq_iff, ne_of_==-false,
}
use wordpress_manager_operat.Api.{Condition}
use wordpress_manager_operat.Controller.{set_condition}

-- The first condition of a type.
unfoldable pub find_condition : String → List Condition → Option Condition
find_condition k [] = none
find_condition k (d ∷ ds) = if d.kind == k then some d else find_condition k ds

-- A condition as it follows an older one of its type: the time is that of the last change of
-- status.
abbrev pub following : Option Condition → Condition → Condition
following none c = c
following (some d) c =
    if d.status == c.status then record c { last_transition_time = d.last_transition_time } else c

same_kind : (o : Option Condition) (c : Condition) → (following o c).kind ≡ c.kind
same_kind none c = refl
same_kind (some d) c = elim (Bool-cases (d.status == c.status)) [ inl e ↦ rw e | inr e ↦ rw e ]

-- Behind `setCondition` the condition of its type is the new one, with the transition time of the
-- old one exactly if the status has not changed, and those of other types are as before.
pub find_condition-set_condition :
    (ds : List Condition) (c : Condition) (k : String)
    → find_condition k (set_condition ds c)
      ≡ (if c.kind == k then some (following (find_condition k ds) c) else find_condition k ds)
unfolding find_condition set_condition
find_condition-set_condition [] c k = refl
find_condition-set_condition (d ∷ ds) c k = ground (
  arith,
  find_condition-set_condition ds c k,
  eq_iff d.kind k,
  eq_iff d.kind c.kind,
  eq_iff c.kind k,
)

-- No type stands twice.
abbrev pub AreDistinct : List Condition → Type 0
AreDistinct [] = Unit
AreDistinct (d ∷ ds) = All (λ (e : Condition). e.kind ≢ d.kind) ds × AreDistinct ds

All-kind :
    (k : String) (ds : List Condition) (c : Condition)
    → All (λ (e : Condition). e.kind ≢ k) ds
    → c.kind ≢ k
    → All (λ (e : Condition). e.kind ≢ k) (set_condition ds c)
unfolding set_condition
All-kind k [] c h n = (n, tt)
All-kind k (d ∷ ds) c (p, h) n = elim (Bool-cases (d.kind == c.kind)) [
  | inl e ↦ rw (e, same_kind (some d) c) (n, h)
  | inr e ↦ rw e (p, All-kind k ds c h n)
]

-- `setCondition` keeps the types distinct.
pub set_condition-AreDistinct :
    (ds : List Condition) (c : Condition) → AreDistinct ds → AreDistinct (set_condition ds c)
unfolding set_condition
set_condition-AreDistinct [] c h = (tt, tt)
set_condition-AreDistinct (d ∷ ds) c (p, h) = elim (Bool-cases (d.kind == c.kind)) [
  | inl e ↦ rw (e, same_kind (some d) c, ← (eq_iff d.kind c.kind).0 e) (p, h)
  | inr e ↦ rw e (
    All-kind d.kind ds c p (λ q. ne_of_==-false d.kind c.kind e (sym q)),
    set_condition-AreDistinct ds c h,
  )
]
