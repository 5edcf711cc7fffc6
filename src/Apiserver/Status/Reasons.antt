-- ===== src/Apiserver/Status/Reasons.antt =====
-- What the status of a pod tells of its containers.
use Prim.Native.String.{◌++◌}
use wordpress_manager_operat.Prelude.{
  ◌≡◌, refl, ap, ◌∙◌, ◌%◌, ◌^◌, arith, ◌&&◌, ◌==◌, Bool-cases, inl, inr, some, List, [], ◌∷◌,
}
use wordpress_manager_operat.Text.{is_empty}
use wordpress_manager_operat.Metrics.Totals.{total}
use wordpress_manager_operat.Apiserver.Status.{
  Stuck, ContainerStatus, Pod, PodCondition, Scan, Format, scan_statuses, scan_condition,
  scan_conditions, scan_pending, with_own, scan_pod, pod_status,
}
use wordpress_manager_operat.Apiserver.Status.Scanning.{
  scan_statuses-counts, scan_statuses-first, Tells, one_if_ready, first_reason,
}

-- What the loops behind the first leave of it.
scan_pod-first : (p : Pod) (x : Stuck) → first_reason p.statuses ≡ some x → Tells (scan_pod p) x
unfolding scan_pod
scan_pod-first p x e =
    let ((r, m), full) =
      scan_statuses-first (record { ready = 0; restarts = 0; reason = ""; message = "" }) p.statuses
        x refl e in
    rw (r, full, r, full) (r, m)

-- If a container of a pod waits, or ended, for a reason, the reason and the message of the pod are
-- those of the first such container, whatever the pod itself tells.
pub pod_status-first :
    (f : Format) (p : Pod) (x : Stuck)
    → first_reason p.statuses ≡ some x
    → ((pod_status f p).reason ≡ x.reason) × ((pod_status f p).message ≡ x.message)
unfolding pod_status
pod_status-first f p x e = scan_pod-first p x e

scan_condition-counts :
    (s : Scan) (c : PodCondition)
    → ((scan_condition s c).ready ≡ s.ready) × ((scan_condition s c).restarts ≡ s.restarts)
unfolding scan_condition
scan_condition-counts s c =
    elim (Bool-cases ((c.kind == "PodScheduled") && (c.status == "False"))) [
      | inl e ↦ rw e (refl, refl)
      | inr e ↦ rw e (refl, refl)
    ]

scan_conditions-counts :
    (s : Scan) (cs : List PodCondition)
    → ((scan_conditions s cs).ready ≡ s.ready) × ((scan_conditions s cs).restarts ≡ s.restarts)
unfolding scan_conditions
scan_conditions-counts s [] = (refl, refl)
scan_conditions-counts s (c ∷ cs) =
    let (a, b) = scan_conditions-counts (scan_condition s c) cs in
    let (r, n) = scan_condition-counts s c in (a ∙ r, b ∙ n)

scan_pending-counts :
    (s : Scan) (p : Pod)
    → ((scan_pending s p).ready ≡ s.ready) × ((scan_pending s p).restarts ≡ s.restarts)
scan_pending-counts s p = elim (Bool-cases (is_empty s.reason && (p.phase == "Pending"))) [
  | inl e ↦ rw e (scan_conditions-counts s p.conditions)
  | inr e ↦ rw e (refl, refl)
]

with_own-counts :
    (s : Scan) (p : Pod) → ((with_own s p).ready ≡ s.ready) × ((with_own s p).restarts ≡ s.restarts)
with_own-counts s p = elim (Bool-cases (is_empty s.reason)) [
  | inl e ↦ rw e (refl, refl)
  | inr e ↦ rw e (refl, refl)
]

scan_pod-counts :
    (p : Pod)
    → ((scan_pod p).ready ≡ total one_if_ready p.statuses)
      × ((scan_pod p).restarts
          ≡ total (λ (c : ContainerStatus). c.restart_count) p.statuses % 2 ^ 32)
unfolding scan_pod
scan_pod-counts p =
    let start : Scan = record { ready = 0; restarts = 0; reason = ""; message = "" } in
    let s = scan_statuses start p.statuses in
    let (a, b) = scan_statuses-counts start p.statuses (omega arith) in
    let (c, d) = scan_pending-counts s p in
    let (x, y) = with_own-counts (scan_pending s p) p in
    let ready : s.ready ≡ total one_if_ready p.statuses = omega (arith, a) in
    let restarts : s.restarts
        ≡ total (λ (c : ContainerStatus). c.restart_count) p.statuses % 2 ^ 32 =
      omega (arith, b) in
    (x ∙ c ∙ ready, y ∙ d ∙ restarts)

-- The ready column is the number of ready containers of the number of containers, and the restarts
-- are the sum of those of the containers, in an int32.
pub pod_status-counts :
    (f : Format) (p : Pod)
    → ((pod_status f p).ready
        ≡ f.decimal (total one_if_ready p.statuses) ++ "/" ++ f.decimal p.containers)
      × ((pod_status f p).restarts
          ≡ total (λ (c : ContainerStatus). c.restart_count) p.statuses % 2 ^ 32)
unfolding pod_status
pod_status-counts f p =
    let (a, b) = scan_pod-counts p in (ap (λ n. f.decimal n ++ "/" ++ f.decimal p.containers) a, b)
