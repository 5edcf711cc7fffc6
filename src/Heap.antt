-- ===== src/Heap.antt =====
-- Go's memory, as far as deep copies need it: cells at numbered addresses, and what it is to copy a
-- value with everything that it points to.
pub mod Copies
use wordpress_manager_operat.Prelude.{
  ℕ, suc, ◌≤◌, ◌<◌, ◌≡◌, Option, none, some, List, [], ◌∷◌, nat_eq, if◌then◌else◌,
}

-- The addresses below `next` are in use.
pub record Heap (T : Type 0) : Type 0 where
  pub next : ℕ
  pub cell : ℕ → T

-- A step that computes a value and may allocate.
abbrev pub Alloc : Type 0 → Type 0 → Type 0
Alloc T A = Heap T → A × Heap T

-- A kind of cell: Go's memory is typed, so that a cell is read as what it was written as.
pub record Kind (T A : Type 0) : Type 0 where
  pub wrap : A → T
  pub unwrap : T → A
  pub unwrap-wrap : (a : A) → unwrap (wrap a) ≡ a

-- The heaps have the same at every address of `Q`.
abbrev pub Agree : {T : Type 0} → (ℕ → Type 0) → Heap T → Heap T → Type 0
Agree Q h h' = (p : ℕ) → Q p → h.cell p ≡ h'.cell p

abbrev pub Below : ℕ → ℕ → Type 0
Below n p = p < n

abbrev pub Within : ℕ → ℕ → ℕ → Type 0
Within lo hi p = (lo ≤ p) × (p < hi)

-- How values of `X` are copied, what they mean in a heap, and the addresses that they reach there,
-- each of which `Reach` wants in `Q`.
pub record Copier (T X V : Type 0) : Type 1 where
  pub copy : X → Alloc T X
  pub view : Heap T → X → V
  pub Reach : (ℕ → Type 0) → Heap T → X → Type 0

module _ {T : Type 0} where
  abbrev pub stay : {A : Type 0} → A → Alloc T A
  stay a h = (a, h)

  infixl 5 ◌>>>=◌
  abbrev pub ◌>>>=◌ : {A B : Type 0} → Alloc T A → (A → Alloc T B) → Alloc T B
  ◌>>>=◌ m f h = f (m h).0 (m h).1

  -- new, make, and `&v` of a local variable
  unfoldable pub alloc : {A : Type 0} → Kind T A → A → Alloc T ℕ
  alloc k a h = (
    h.next,
    record { next = suc h.next; cell = λ p. if nat_eq p h.next then k.wrap a else h.cell p },
  )

  module _ {X V : Type 0} (c : Copier T X V) where
    -- What a copy makes of a heap and a value in it: it only allocates, the copy lies in what was
    -- allocated, and means what the value means.
    pub record Copied (h : Heap T) (x : X) : Type 0 where
      pub grows : h.next ≤ (c.copy x h).1.next
      pub kept : Agree (Below h.next) h (c.copy x h).1
      pub fresh : c.Reach (Within h.next (c.copy x h).1.next) (c.copy x h).1 (c.copy x h).0
      pub same : c.view (c.copy x h).1 (c.copy x h).0 ≡ c.view h x

    -- What values mean and reach depends on the cells that they reach only.
    pub record IsLocal : Type 1 where
      pub wider :
          (Q R : ℕ → Type 0) (h : Heap T) (x : X)
          → ((p : ℕ) → Q p → R p)
          → c.Reach Q h x
          → c.Reach R h x
      pub reach_agree :
          (Q : ℕ → Type 0) (h h' : Heap T) (x : X) → Agree Q h h' → c.Reach Q h x → c.Reach Q h' x
      pub view_agree :
          (Q : ℕ → Type 0) (h h' : Heap T) (x : X)
          → Agree Q h h'
          → c.Reach Q h x
          → c.view h x ≡ c.view h' x

    pub record IsDeep : Type 1 where
      pub local : IsLocal
      pub copied : (h : Heap T) (x : X) → c.Reach (Below h.next) h x → Copied h x

  -- A value without pointers.
  abbrev pub plain : {X : Type 0} → Copier T X X
  plain = record { copy = stay; view = λ h x. x; Reach = λ Q h x. Unit }

  -- A value without pointers that a copy makes anew.
  abbrev pub rebuilt : {X V : Type 0} → (X → X) → (X → V) → Copier T X V
  rebuilt f meaning = record {
    copy = λ x. stay (f x);
    view = λ h x. meaning x;
    Reach = λ Q h x. Unit;
  }

  -- Two fields that are copied one after the other.
  abbrev pub both : {X Y V U : Type 0} → Copier T X V → Copier T Y U → Copier T (X × Y) (V × U)
  both c d = record {
    copy = λ x. c.copy x.0 >>>= λ a. d.copy x.1 >>>= λ b. stay (a, b);
    view = λ h x. (c.view h x.0, d.view h x.1);
    Reach = λ Q h x. c.Reach Q h x.0 × d.Reach Q h x.1;
  }

  module _ {X : Type 0} (deep_copy_into : X → Alloc T X) where
    -- `for i := range in { in[i].DeepCopyInto(&l[i]) }`
    abbrev pub copy_elements : List X → Alloc T (List X)
    copy_elements [] h = ([], h)
    copy_elements (x ∷ xs) h =
        let (a, h1) = deep_copy_into x h in let (rest, h2) = copy_elements xs h1 in (a ∷ rest, h2)

    -- Nil for nil, and for the address of a value that of its copy.
    abbrev pub copy_pointer : Kind T X → Option ℕ → Alloc T (Option ℕ)
    copy_pointer k none h = (none, h)
    copy_pointer k (some p) h =
        let (x, h1) = deep_copy_into (k.unwrap (h.cell p)) h in
        let (q, h2) = alloc k x h1 in (some q, h2)

  module _ {X V : Type 0} (c : Copier T X V) where
    abbrev pub view_elements : Heap T → List X → List V
    view_elements h [] = []
    view_elements h (x ∷ xs) = c.view h x ∷ view_elements h xs

    abbrev pub ReachElements : (ℕ → Type 0) → Heap T → List X → Type 0
    ReachElements Q h [] = Unit
    ReachElements Q h (x ∷ xs) = c.Reach Q h x × ReachElements Q h xs

    abbrev pub elements : Copier T (List X) (List V)
    elements = record { copy = copy_elements c.copy; view = view_elements; Reach = ReachElements }

    abbrev pub view_pointer : Kind T X → Heap T → Option ℕ → Option V
    view_pointer k h none = none
    view_pointer k h (some p) = some (c.view h (k.unwrap (h.cell p)))

    abbrev pub ReachPointer : Kind T X → (ℕ → Type 0) → Heap T → Option ℕ → Type 0
    ReachPointer k Q h none = Unit
    ReachPointer k Q h (some p) = Q p × c.Reach Q h (k.unwrap (h.cell p))

    abbrev pub pointer : Kind T X → Copier T (Option ℕ) (Option V)
    pointer k = record {
      copy = copy_pointer c.copy k;
      view = view_pointer k;
      Reach = ReachPointer k;
    }

  -- A struct, of whose fields `f` copies those that `refs` selects.
  abbrev pub struct_of :
      {X Y V U : Type 0} → Copier T Y U → (X → Y) → (X → Y → X) → (X → U → V) → Copier T X V
  struct_of f refs fill show = record {
    copy = λ x. f.copy (refs x) >>>= λ y. stay (fill x y);
    view = λ h x. show x (f.view h (refs x));
    Reach = λ Q h x. f.Reach Q h (refs x);
  }
