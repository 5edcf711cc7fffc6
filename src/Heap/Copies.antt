-- ===== src/Heap/Copies.antt =====
-- The parts that a deep copy is made of are deep copies.
use wordpress_manager_operat.Prelude.{
  ℕ, ◌≤◌, ◌≡◌, refl, sym, ap, ◌∙◌, arith, Option, none, some, List, [], ◌∷◌,
}
use wordpress_manager_operat.Heap.{
  Heap, Kind, Agree, Below, Within, Copier, alloc, Copied, IsLocal, IsDeep, plain, rebuilt, both,
  elements, pointer, struct_of,
}

-- A heap that has grown: nothing below its end has changed.
pub record Grown {T : Type 0} (h h' : Heap T) : Type 0 where
  pub grows : h.next ≤ h'.next
  pub kept : Agree (Below h.next) h h'

module _ {T : Type 0} where
  Below-Grown : (h h' : Heap T) → Grown h h' → (p : ℕ) → Below h.next p → Below h'.next p
  Below-Grown h h' g p b = let bound = g.grows in omega arith

  Grown-trans : (h h1 h2 : Heap T) → Grown h h1 → Grown h1 h2 → Grown h h2
  Grown-trans h h1 h2 g k = record {
    grows =
        let (a, b) : (h.next ≤ h1.next) × (h1.next ≤ h2.next) = (g.grows, k.grows) in omega arith;
    kept = λ p b. g.kept p b ∙ k.kept p (Below-Grown h h1 g p b);
  }

  pub alloc-Grown : {A : Type 0} (k : Kind T A) (a : A) (h : Heap T) → Grown h (alloc k a h).1
  unfolding alloc
  alloc-Grown k a h = record { grows = omega arith; kept = λ p b. ground arith }

  pub alloc_cell :
      {A : Type 0} (k : Kind T A) (a : A) (h : Heap T) → (alloc k a h).1.cell h.next ≡ k.wrap a
  unfolding alloc
  alloc_cell k a h = ground arith

  module _ {X V : Type 0} (c : Copier T X V) (d : IsLocal c) where
    abbrev Copied-Grown : (h : Heap T) (x : X) → Copied c h x → Grown h (c.copy x h).1
    Copied-Grown h x k = record { grows = k.grows; kept = k.kept }

    -- An old value keeps its reach and its meaning where the heap grows.
    reach_grown :
        (h h' : Heap T) (x : X)
        → Grown h h'
        → c.Reach (Below h.next) h x
        → c.Reach (Below h'.next) h' x
    reach_grown h h' x g r =
        d.wider (Below h.next) (Below h'.next) h' x (Below-Grown h h' g)
          (d.reach_agree (Below h.next) h h' x g.kept r)

    view_grown :
        (h h' : Heap T) (x : X) → Grown h h' → c.Reach (Below h.next) h x → c.view h x ≡ c.view h' x
    view_grown h h' x g r = d.view_agree (Below h.next) h h' x g.kept r

    -- So does a copy where the heap grows on.
    fresh_grown :
        (h h' : Heap T) (x : X) (k : Copied c h x)
        → Grown (c.copy x h).1 h'
        → c.Reach (Within h.next h'.next) h' (c.copy x h).0
    fresh_grown h h' x k g =
        let h1 = (c.copy x h).1 in
        d.wider (Within h.next h1.next) (Within h.next h'.next) h' (c.copy x h).0
          (λ p b. (b.0, Below-Grown h1 h' g p b.1))
          (d.reach_agree (Within h.next h1.next) h1 h' (c.copy x h).0 (λ p b. g.kept p b.1) k.fresh)

    same_grown :
        (h h' : Heap T) (x : X) (k : Copied c h x)
        → Grown (c.copy x h).1 h'
        → c.view h' (c.copy x h).0 ≡ c.view h x
    same_grown h h' x k g =
        let h1 = (c.copy x h).1 in
        sym
          (d.view_agree (Within h.next h1.next) h1 h' (c.copy x h).0 (λ p b. g.kept p b.1) k.fresh)
        ∙ k.same

    -- A copy that follows others lies in what was allocated from `h` on.
    fresh_since :
        (h h1 : Heap T) (x : X)
        → Grown h h1
        → Copied c h1 x
        → c.Reach (Within h.next (c.copy x h1).1.next) (c.copy x h1).1 (c.copy x h1).0
    fresh_since h h1 x g k =
        let h2 = (c.copy x h1).1 in
        d.wider (Within h1.next h2.next) (Within h.next h2.next) h2 (c.copy x h1).0
          (λ p b. (
            let (lo, bound) : (h.next ≤ h1.next) × (h1.next ≤ p) = (g.grows, b.0) in omega arith,
            b.1,
          ))
          k.fresh

  -- A value without pointers reaches nothing.
  rebuilt-IsLocal :
      {X V : Type 0} (f : X → X) (meaning : X → V) → IsLocal (rebuilt {T = T} f meaning)
  rebuilt-IsLocal f meaning = record {
    wider = λ Q R h x f r. tt;
    reach_agree = λ Q h h' x a r. tt;
    view_agree = λ Q h h' x a r. refl;
  }

  pub rebuilt-IsDeep :
      {X V : Type 0} (f : X → X) (meaning : X → V)
      → ((x : X) → meaning (f x) ≡ meaning x)
      → IsDeep (rebuilt {T = T} f meaning)
  rebuilt-IsDeep f meaning e = record {
    local = rebuilt-IsLocal f meaning;
    copied = λ h x r. record { grows = omega arith; kept = λ p b. refl; fresh = tt; same = e x };
  }

  pub plain-IsDeep : {X : Type 0} → IsDeep (plain {T = T} {X = X})
  plain-IsDeep = rebuilt-IsDeep (λ x. x) (λ x. x) (λ x. refl)

  module _ {X Y V U : Type 0} (c : Copier T X V) (d : Copier T Y U) (lc : IsLocal c)
      (ld : IsLocal d) where
    both-IsLocal : IsLocal (both c d)
    both-IsLocal = record {
      wider = λ Q R h x f r. (lc.wider Q R h x.0 f r.0, ld.wider Q R h x.1 f r.1);
      reach_agree =
          λ Q h h' x a r. (lc.reach_agree Q h h' x.0 a r.0, ld.reach_agree Q h h' x.1 a r.1);
      view_agree =
          λ Q h h' x a r i. (lc.view_agree Q h h' x.0 a r.0 i, ld.view_agree Q h h' x.1 a r.1 i);
    }

    -- A copy, and one more in the heap that it leaves.
    both_copied :
        (h : Heap T) (x : X) (y : Y)
        → Copied c h x
        → d.Reach (Below h.next) h y
        → (d.Reach (Below (c.copy x h).1.next) (c.copy x h).1 y → Copied d (c.copy x h).1 y)
        → Copied (both c d) h (x, y)
    both_copied h x y kx ry next =
        let h1 = (c.copy x h).1 in
        let g1 = Copied-Grown c lc h x kx in
        let ky = next (reach_grown d ld h h1 y g1 ry) in
        let h2 = (d.copy y h1).1 in
        let g2 = Copied-Grown d ld h1 y ky in
        let g = Grown-trans h h1 h2 g1 g2 in
        record {
          grows = g.grows;
          kept = g.kept;
          fresh = (fresh_grown c lc h h2 x kx g2, fresh_since d ld h h1 y g1 ky);
          same = λ i.
              (same_grown c lc h h2 x kx g2 i, (ky.same ∙ sym (view_grown d ld h h1 y g1 ry)) i);
        }

  pub both-IsDeep :
      {X Y V U : Type 0} (c : Copier T X V) (d : Copier T Y U)
      → IsDeep c
      → IsDeep d
      → IsDeep (both c d)
  both-IsDeep c d cd dd = record {
    local = both-IsLocal c d cd.local dd.local;
    copied = λ h x r.
        both_copied c d cd.local dd.local h x.0 x.1 (cd.copied h x.0 r.0) r.1
          (dd.copied (c.copy x.0 h).1 x.1);
  }

  module _ {X V : Type 0} (c : Copier T X V) (cd : IsDeep c) where
    elements_wider :
        (Q R : ℕ → Type 0) (h : Heap T) (xs : List X)
        → ((p : ℕ) → Q p → R p)
        → (elements c).Reach Q h xs
        → (elements c).Reach R h xs
    elements_wider Q R h [] f r = tt
    elements_wider Q R h (x ∷ xs) f (r, rs) =
        (cd.local.wider Q R h x f r, elements_wider Q R h xs f rs)

    elements_reach :
        (Q : ℕ → Type 0) (h h' : Heap T) (xs : List X)
        → Agree Q h h'
        → (elements c).Reach Q h xs
        → (elements c).Reach Q h' xs
    elements_reach Q h h' [] a r = tt
    elements_reach Q h h' (x ∷ xs) a (r, rs) =
        (cd.local.reach_agree Q h h' x a r, elements_reach Q h h' xs a rs)

    elements_view :
        (Q : ℕ → Type 0) (h h' : Heap T) (xs : List X)
        → Agree Q h h'
        → (elements c).Reach Q h xs
        → (elements c).view h xs ≡ (elements c).view h' xs
    elements_view Q h h' [] a r = refl
    elements_view Q h h' (x ∷ xs) a (r, rs) =
        λ i. cd.local.view_agree Q h h' x a r i ∷ elements_view Q h h' xs a rs i

    elements-IsLocal : IsLocal (elements c)
    elements-IsLocal = record {
      wider = elements_wider;
      reach_agree = elements_reach;
      view_agree = elements_view;
    }

    elements_copied :
        (h : Heap T) (xs : List X)
        → (elements c).Reach (Below h.next) h xs
        → Copied (elements c) h xs
    elements_copied h [] r = record {
      grows = omega arith;
      kept = λ p b. refl;
      fresh = tt;
      same = refl;
    }
    elements_copied h (x ∷ xs) (r, rs) =
        let k =
          both_copied c (elements c) cd.local elements-IsLocal h x xs (cd.copied h x r) rs
            (elements_copied (c.copy x h).1 xs) in
        record {
          grows = k.grows;
          kept = k.kept;
          fresh = k.fresh;
          same = λ i. (k.same i).0 ∷ (k.same i).1;
        }

    -- Copying every element of a slice is a deep copy.
    pub elements-IsDeep : IsDeep (elements c)
    elements-IsDeep = record { local = elements-IsLocal; copied = elements_copied }

    module _ (k : Kind T X) where
      pointer_wider :
          (Q R : ℕ → Type 0) (h : Heap T) (x : Option ℕ)
          → ((p : ℕ) → Q p → R p)
          → (pointer c k).Reach Q h x
          → (pointer c k).Reach R h x
      pointer_wider Q R h none f r = tt
      pointer_wider Q R h (some p) f (q, r) =
          (f p q, cd.local.wider Q R h (k.unwrap (h.cell p)) f r)

      pointer_reach :
          (Q : ℕ → Type 0) (h h' : Heap T) (x : Option ℕ)
          → Agree Q h h'
          → (pointer c k).Reach Q h x
          → (pointer c k).Reach Q h' x
      pointer_reach Q h h' none a r = tt
      pointer_reach Q h h' (some p) a (q, r) =
          (q, rw (← a p q) (cd.local.reach_agree Q h h' (k.unwrap (h.cell p)) a r))

      pointer_view :
          (Q : ℕ → Type 0) (h h' : Heap T) (x : Option ℕ)
          → Agree Q h h'
          → (pointer c k).Reach Q h x
          → (pointer c k).view h x ≡ (pointer c k).view h' x
      pointer_view Q h h' none a r = refl
      pointer_view Q h h' (some p) a (q, r) = ap some (
          cd.local.view_agree Q h h' (k.unwrap (h.cell p)) a r
          ∙ ap (λ t. c.view h' (k.unwrap t)) (a p q))

      pointer-IsLocal : IsLocal (pointer c k)
      pointer-IsLocal = record {
        wider = pointer_wider;
        reach_agree = pointer_reach;
        view_agree = pointer_view;
      }

      pointer_copied :
          (h : Heap T) (x : Option ℕ)
          → (pointer c k).Reach (Below h.next) h x
          → Copied (pointer c k) h x
      unfolding alloc
      pointer_copied h none r = record {
        grows = omega arith;
        kept = λ p b. refl;
        fresh = tt;
        same = refl;
      }
      pointer_copied h (some p) (q, r) =
          let x = k.unwrap (h.cell p) in
          let (y, h1) = c.copy x h in
          let kx = cd.copied h x r in
          let h2 = (alloc k y h1).1 in
          let g2 = alloc-Grown k y h1 in
          let g = Grown-trans h h1 h2 (Copied-Grown c cd.local h x kx) g2 in
          let back = ap k.unwrap (alloc_cell k y h1) ∙ k.unwrap-wrap y in
          record {
            grows = g.grows;
            kept = g.kept;
            fresh = ((kx.grows, omega arith), rw back (fresh_grown c cd.local h h2 x kx g2));
            same = ap some (ap (c.view h2) back ∙ same_grown c cd.local h h2 x kx g2);
          }

      -- Copying what a pointer points to into a new cell is a deep copy.
      pub pointer-IsDeep : IsDeep (pointer c k)
      pointer-IsDeep = record { local = pointer-IsLocal; copied = pointer_copied }

  -- A struct is copied deeply if the fields that are copied can be read again, and what it means
  -- depends on these and on the fields that are kept.
  pub struct-IsDeep :
      {X Y V U : Type 0} (f : Copier T Y U) (refs : X → Y) (fill : X → Y → X) (show : X → U → V)
      → IsDeep f
      → ((x : X) (y : Y) → refs (fill x y) ≡ y)
      → ((x : X) (y : Y) (u : U) → show (fill x y) u ≡ show x u)
      → IsDeep (struct_of f refs fill show)
  struct-IsDeep f refs fill show d back shown = record {
    local = record {
      wider = λ Q R h x g r. d.local.wider Q R h (refs x) g r;
      reach_agree = λ Q h h' x a r. d.local.reach_agree Q h h' (refs x) a r;
      view_agree = λ Q h h' x a r. ap (show x) (d.local.view_agree Q h h' (refs x) a r);
    };
    copied = λ h x r.
        let k = d.copied h (refs x) r in
        let (y, h1) = f.copy (refs x) h in
        record {
          grows = k.grows;
          kept = k.kept;
          fresh = rw (back x y) k.fresh;
          same = shown x y _ ∙ ap (show x) (ap (f.view h1) (back x y) ∙ k.same);
        };
  }

  -- What lies on its own: a copy that is followed by writes to the original, and an original that is
  -- followed by writes to the copy.
  module _ {X V : Type 0} (c : Copier T X V) (cd : IsDeep c) where
    pub copy_independent :
        (h : Heap T) (x : X) (over under : Heap T)
        → c.Reach (Below h.next) h x
        → Agree (Below h.next) (c.copy x h).1 over
        → Agree (λ p. h.next ≤ p) (c.copy x h).1 under
        → (c.view over x ≡ c.view h x) × (c.view under (c.copy x h).0 ≡ c.view h x)
    copy_independent h x over under r above below =
        let k = cd.copied h x r in
        let h1 = (c.copy x h).1 in
        (
          sym (cd.local.view_agree (Below h.next) h over x (λ p b. k.kept p b ∙ above p b) r),
          sym (
                cd.local.view_agree (Within h.next h1.next) h1 under (c.copy x h).0
                  (λ p b. below p b.0) k.fresh)
              ∙ k.same,
        )
