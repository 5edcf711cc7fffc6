-- ===== src/Controller/Settling.antt =====
-- Reconciling a site again writes nothing new into its status.
use wordpress_manager_operat.Resources.Names.{url, database_name, database_user, secret_name}
use wordpress_manager_operat.Prelude.{
  ℕ, ◌≡◌, refl, ap, Bool-cases, inl, inr, List, [], ◌∷◌, ◌==◌, eq_refl, ◌>>=◌, pure,
}
use wordpress_manager_operat.Api.{WordPressSite, Condition, phase_ready}
use wordpress_manager_operat.Controller.Interface.{Cluster, Database, Reconciler}
use wordpress_manager_operat.Controller.{
  set_phase, set_condition, ready_condition, with_phase, with_status,
}

-- A condition at another time.
abbrev at : ℕ → Condition → Condition
at t c = record c { last_transition_time = t }

set_condition_settled :
    (ds : List Condition) (c : Condition) (t : ℕ)
    → set_condition (set_condition ds c) (at t c) ≡ set_condition ds c
unfolding set_condition
set_condition_settled [] c t = simp (eq_refl c.kind, eq_refl c.status) refl
set_condition_settled (d ∷ ds) c t = elim (Bool-cases (d.kind == c.kind)) [
  | inl same ↦ elim (Bool-cases (d.status == c.status)) [
    | inl kept ↦ simp (same, kept, eq_refl c.kind, eq_refl c.status) refl
    | inr changed ↦ simp (same, changed, eq_refl c.kind, eq_refl c.status) refl
  ]
  | inr other ↦ simp other (ap (λ es. d ∷ es) (set_condition_settled ds c t))
]

-- The site that a reconciliation ends with, at a time.
abbrev pub reported : WordPressSite → ℕ → WordPressSite
reported site t = with_phase (with_status site) phase_ready "Site reconciled" t

-- Reported again, at any later time, the status is the same, the times of its conditions included.
with_phase-with_status :
    (site : WordPressSite) (t later : ℕ) → reported (reported site t) later ≡ reported site t
unfolding with_phase with_status ready_condition url database_name database_user secret_name
with_phase-with_status site t later =
    let c = ready_condition site phase_ready "Site reconciled" t in
    ap
      (λ (cs : List Condition). record (reported site t) {
        status = record ((reported site t).status) { conditions = cs };
      })
      (set_condition_settled site.status.conditions c later)

-- Once a reconciliation has written its status, the next one that gets there, at whatever time, hands
-- the same site to the status update, the times of its conditions included.
pub set_phase_settled :
    {W : Type 0} (c : Cluster W) (db : Database W) (r : Reconciler) (site : WordPressSite) (t : ℕ)
    (w : W)
    → set_phase c db r (with_status (reported site t)) phase_ready "Site reconciled" w
      ≡ (c.update_status (reported site t) >>= λ _. pure tt) w
unfolding set_phase
set_phase_settled c db r site t w =
    ap (λ s. (c.update_status s >>= λ _. pure tt) w) (with_phase-with_status site t (c.now w))
