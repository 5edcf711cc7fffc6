-- ===== src/System.antt =====
-- The two programs at work on one cluster: the requests that the API server of cmd/apiserver serves,
-- and the reconciliations of the operator of cmd/operator, in any order. A request and a
-- reconciliation are one step each.
use wordpress_manager_operat.Prelude.{String, ◌≡◌, ok, Keeps}
use wordpress_manager_operat.Controller.{reconcile}
use wordpress_manager_operat.Controller.Interface.{ObjectKey, Cluster, Database, Reconciler}
use wordpress_manager_operat.Api.{WordPressSite, WordPressSiteSpec}
use wordpress_manager_operat.Controller.Kept.{IsKeptFor}
use wordpress_manager_operat.Controller.Wanted.{IsWanted, KeepsSites, reconcile_keeps_specs}
use wordpress_manager_operat.Apiserver.Factors.{Authorised}
use wordpress_manager_operat.Apiserver.Routes.{Route, App, serve}
use wordpress_manager_operat.Apiserver.Routes.Reading.{FactorStays}
use wordpress_manager_operat.Apiserver.Routes.Calls.{serve_stranger-Stays}

module _ {W : Type 0} (a : App W) (c : Cluster W) (db : Database W) (r : Reconciler) where
  -- A request with a header that `Sends` allows in the world where it arrives, or a reconciliation.
  pub data Step (Sends : String → W → Type 0) : W → W → Type 0 where
    request :
        (header : String) (route : Route) (w : W)
        → Sends header w
        → Step Sends w (serve a header route w).1
    pass : (key : ObjectKey) (w : W) → Step Sends w (reconcile c db r key w).1

  -- Any number of steps.
  pub data Run (Sends : String → W → Type 0) : W → W → Type 0 where
    stop : (w : W) → Run Sends w w
    next : {w w1 w2 : W} → Step Sends w w1 → Run Sends w1 w2 → Run Sends w w2

  Run-keeps :
      (Sends : String → W → Type 0) (P : W → Type 0)
      → ((w w1 : W) → Step Sends w w1 → P w → P w1)
      → {w w1 : W} → Run Sends w w1
      → P w
      → P w1
  Run-keeps Sends P each (stop w) h = h
  Run-keeps Sends P each (next {w} {w1} s rest) h = Run-keeps Sends P each rest (each w w1 s h)

  -- A request without a valid token at the time.
  abbrev pub Stranger : String → W → Type 0
  Stranger header w = (user : String) → ¬ Authorised a.crypto a.auth a.now header w user

  module _ (specs : ObjectKey → WordPressSiteSpec) (P : W → Type 0) (sites : KeepsSites c)
      (k : IsKeptFor c db P (IsWanted specs))
      (drop : (name user host : String) → Keeps P (db.drop_database name user host))
      (read : (key : ObjectKey) (w : W)
        → P w
        → (s : WordPressSite) → (c.get_site key w).0 ≡ ok s
        → IsWanted specs s) where
    specs_step : FactorStays P a.two_fa → (w w1 : W) → Step Stranger w w1 → P w → P w1
    specs_step factor w w1 (request header route _ sent) h =
        serve_stranger-Stays P a header route w factor sent h
    specs_step factor w w1 (pass key _) h =
        reconcile_keeps_specs c db r specs P key w sites k drop (read key w h) h

    -- Let `P` say that a site that is read has the spec that is wanted at its key. If every call keeps
    -- `P` that writes only such sites, requests without a valid token, for any routes and with any
    -- bodies, and reconciliations keep it in any order: the specs stay as they are wanted.
    pub Run_stranger-IsWanted : FactorStays P a.two_fa → {w w1 : W} → Run Stranger w w1 → P w → P w1
    Run_stranger-IsWanted factor run h = Run-keeps Stranger P (specs_step factor) run h
