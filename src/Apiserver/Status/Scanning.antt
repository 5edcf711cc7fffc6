-- ===== src/Apiserver/Status/Scanning.antt =====
-- What the loop over the containers of a pod finds and counts.
use wordpress_manager_operat.Prelude.{
  ℕ, ◌≡◌, refl, ◌∙◌, ◌+◌, ◌%◌, ◌^◌, ◌<◌, arith, Option-cases, true, false, Bool-cases, inl, inr,
  Option, none, some, List, [], ◌∷◌, if◌then◌else◌,
}
use wordpress_manager_operat.Text.{is_empty}
use wordpress_manager_operat.Metrics.Totals.{total}
use wordpress_manager_operat.Apiserver.Status.{
  Stuck, ContainerStatus, Scan, explain, scan_status, scan_statuses,
}

abbrev named : Stuck → Option Stuck
named x = if is_empty x.reason then none else some x

-- Why a container does not run: it waits for a reason, or ended for one.
abbrev pub reason_from : Option Stuck → Option Stuck → Option Stuck
reason_from (some x) t = named x
reason_from none (some x) = named x
reason_from none none = none

abbrev pub reason_of : ContainerStatus → Option Stuck
reason_of c = reason_from c.waiting c.terminated

-- That of the first container that has one.
abbrev pub or_else : Option Stuck → Option Stuck → Option Stuck
or_else (some x) o = some x
or_else none o = o

abbrev pub first_reason : List ContainerStatus → Option Stuck
first_reason [] = none
first_reason (c ∷ cs) = or_else (reason_of c) (first_reason cs)

abbrev pub one_if_ready : ContainerStatus → ℕ
one_if_ready c = if c.ready then 1 else 0

named-some : (x y : Stuck) → named x ≡ some y → (x ≡ y) × (is_empty x.reason ≡ false)
named-some x y h = elim (Bool-cases (is_empty x.reason)) [
  | inl e ↦ let bad = rw e at h in cc
  | inr e ↦ let same : some x ≡ some y = rw e at h in (cc, e)
]

named-none : (x : Stuck) → named x ≡ none → is_empty x.reason ≡ true
named-none x h = elim (Bool-cases (is_empty x.reason)) [
  | inl e ↦ e
  | inr e ↦ let bad = rw e at h in cc
]

-- The reason and the message of a scan are those of `x`.
abbrev pub Tells : Scan → Stuck → Type 0
Tells s x = (s.reason ≡ x.reason) × (s.message ≡ x.message)

explain-some :
    (w t : Option Stuck) (s : Scan) (x : Stuck)
    → reason_from w t ≡ some x
    → Tells (explain w t s) x × (is_empty x.reason ≡ false)
explain-some (some y) t s x h =
    let (same, full) = named-some y x h in rw (← same) ((refl, refl), full)
explain-some none (some y) s x h =
    let (same, full) = named-some y x h in rw (← same, full) ((refl, refl), refl)
explain-some none none s x h = cc

explain-none :
    (w t : Option Stuck) (s : Scan)
    → is_empty s.reason ≡ true
    → reason_from w t ≡ none
    → is_empty (explain w t s).reason ≡ true
explain-none (some y) t s e h = named-none y h
explain-none none (some y) s e h = rw (named-none y h) e
explain-none none none s e h = e

explain-counts :
    (w t : Option Stuck) (s : Scan)
    → ((explain w t s).ready ≡ s.ready) × ((explain w t s).restarts ≡ s.restarts)
explain-counts (some y) t s = (refl, refl)
explain-counts none (some y) s = elim (Bool-cases (is_empty y.reason)) [
  | inl e ↦ rw e (refl, refl)
  | inr e ↦ rw e (refl, refl)
]
explain-counts none none s = (refl, refl)

-- One round of the loop.
record Step (s t : Scan) (c : ContainerStatus) : Type 0 where
  ready : t.ready ≡ s.ready + one_if_ready c
  restarts : t.restarts ≡ (s.restarts + c.restart_count) % 2 ^ 32
  kept : is_empty s.reason ≡ false → (t.reason ≡ s.reason) × (t.message ≡ s.message)
  found :
      (x : Stuck)
      → is_empty s.reason ≡ true
      → reason_of c ≡ some x
      → Tells t x × (is_empty x.reason ≡ false)
  open_still : is_empty s.reason ≡ true → reason_of c ≡ none → is_empty t.reason ≡ true

scan_status-Step : (s : Scan) (c : ContainerStatus) → Step s (scan_status s c) c
unfolding scan_status
scan_status-Step s c =
    let counted = record s {
      ready = if c.ready then s.ready + 1 else s.ready;
      restarts = (s.restarts + c.restart_count) % 2 ^ 32;
    } in
    let (ready, restarts) = explain-counts c.waiting c.terminated counted in
    let one : (if c.ready then s.ready + 1 else s.ready) ≡ s.ready + one_if_ready c =
      ground arith in
    record {
      ready = elim (Bool-cases (is_empty s.reason)) [
        | inl e ↦ rw e (ready ∙ one)
        | inr e ↦ rw e one
      ];
      restarts = elim (Bool-cases (is_empty s.reason)) [ inl e ↦ rw e restarts | inr e ↦ rw e ];
      kept = λ e. rw e (refl, refl);
      found = λ x e h. rw e (explain-some c.waiting c.terminated counted x h);
      open_still = λ e h. rw e (explain-none c.waiting c.terminated counted e h);
    }

-- Once there is a reason, it stays, with its message.
scan_statuses-keeps :
    (s : Scan) (cs : List ContainerStatus)
    → is_empty s.reason ≡ false
    → ((scan_statuses s cs).reason ≡ s.reason) × ((scan_statuses s cs).message ≡ s.message)
unfolding scan_statuses
scan_statuses-keeps s [] h = (refl, refl)
scan_statuses-keeps s (c ∷ cs) h =
    let (r, m) = (scan_status-Step s c).kept h in
    let (r', m') = scan_statuses-keeps (scan_status s c) cs (rw r h) in (r' ∙ r, m' ∙ m)

pub scan_statuses-first :
    (s : Scan) (cs : List ContainerStatus) (x : Stuck)
    → is_empty s.reason ≡ true
    → first_reason cs ≡ some x
    → Tells (scan_statuses s cs) x × (is_empty x.reason ≡ false)
unfolding scan_statuses
scan_statuses-first s [] x h e = cc
scan_statuses-first s (c ∷ cs) x h e = elim (Option-cases (reason_of c)) [
  | inl unnamed ↦
      scan_statuses-first (scan_status s c) cs x ((scan_status-Step s c).open_still h unnamed)
        (rw unnamed at e)
  | inr (y, has) ↦
      let same : some y ≡ some x = rw has at e in
      let y_x : y ≡ x = cc in
      let ((r, m), full) = (scan_status-Step s c).found x h (has ∙ same) in
      let (r', m') = scan_statuses-keeps (scan_status s c) cs (rw r full) in
      ((r' ∙ r, m' ∙ m), full)
]

pub scan_statuses-counts :
    (s : Scan) (cs : List ContainerStatus)
    → s.restarts < 2 ^ 32
    → ((scan_statuses s cs).ready ≡ s.ready + total one_if_ready cs)
      × ((scan_statuses s cs).restarts ≡ (s.restarts + total (λ c. c.restart_count) cs) % 2 ^ 32)
unfolding scan_statuses
scan_statuses-counts s [] h = (omega arith, omega arith)
scan_statuses-counts s (c ∷ cs) h =
    let step = scan_status-Step s c in
    let restarts = step.restarts in
    let (a, b) = scan_statuses-counts (scan_status s c) cs (omega (arith, restarts)) in
    (omega (arith, a, step.ready), omega (arith, b, restarts))
