-- ===== src/Controller/Requeue.antt =====
-- What becomes of a reconciliation that asks to be done again.
use Prim.Native.Nat.{zero, suc}
use wordpress_manager_operat.Prelude.{
  ℕ, ◌≡◌, refl, ap, ◌∙◌, ◌≤◌, arith, nat_eq, ok, Exec, ◌>>=◌, pure, if◌then◌else◌,
}
use wordpress_manager_operat.Controller.Interface.{Outcome}
use wordpress_manager_operat.Controller.{done, retry}
use wordpress_manager_operat.Controller.Stages.{Runs}

abbrev pub IsDone : Outcome → Type 0
IsDone o = o ≡ done

abbrev pub IsRetry : Outcome → Type 0
IsRetry o = o ≡ retry

-- A caller of Reconcile that does what its result asks for: it waits the seconds and reconciles again,
-- at most `n` times.
unfoldable pub requeued : {W : Type 0} → (ℕ → W → W) → Exec W Outcome → ℕ → Exec W Outcome
requeued wait run zero w = run w
requeued wait run (suc n) w =
    let again = requeued wait run n in
    (run >>= λ o.
    if nat_eq o.requeue_after 0 then pure o else (λ v. again (wait o.requeue_after v)))
      w

module _ {W : Type 0} (P : ℕ → W → Type 0) (Q : W → Type 0) (run : Exec W Outcome)
    (again : (n : ℕ) → Runs (P (suc n)) (P n) IsRetry run) (last : Runs (P 0) Q IsDone run)
    (wait : ℕ → W → W) (waits : (n t : ℕ) (w : W) → P n w → P n (wait t w)) where
  -- Where each retry takes one step, and no step is left for the last, as many retries are enough.
  pub requeued-Runs :
      (fuel n : ℕ) (w : W)
      → n ≤ fuel
      → P n w
      → (w' : W) × (requeued wait run fuel w ≡ (ok done, w')) × Q w'
  unfolding requeued
  requeued-Runs zero n w fits h =
      let now : n ≡ 0 = omega (arith, fits) in
      let (o, w1, e, same, q) = last w (rw now at h) in (w1, e ∙ ap (λ x. (ok x, w1)) same, q)
  requeued-Runs (suc fuel) zero w fits h =
      let (o, w1, e, same, q) = last w h in (w1, rw (e, same) refl, q)
  requeued-Runs (suc fuel) (suc n) w fits h =
      let (o, w1, e, same, q) = again n w h in
      let (w2, ended, q') =
        requeued-Runs fuel n (wait 15 w1) (omega (arith, fits)) (waits n 15 w1 q) in
      (w2, rw (e, same) ended, q')
