-- ===== src/Commands/Development/Requests.antt =====
-- What the requests to the API server of the development mode keep.
use wordpress_manager_operat.Prelude.{String, refl, inl, pure, Keeps, Keeps-bind}
use wordpress_manager_operat.Controller.{reconcile}
use wordpress_manager_operat.Controller.Interface.{ObjectKey}
use wordpress_manager_operat.Controller.DataSafety.{reconcile-Keeps}
use wordpress_manager_operat.Sqlite as Sqlite
use wordpress_manager_operat.Metrics.Dev.{dev_sites, dev_cluster, new_dev_provider}
use wordpress_manager_operat.Apiserver.Login.{Authenticator}
use wordpress_manager_operat.Apiserver.TwoFa.{
  load, enabled, enable, enable_from, disable, disable_from, validate,
}
use wordpress_manager_operat.Apiserver.Routes.{Route, App, serve}
use wordpress_manager_operat.Apiserver.Routes.Writing.{CallsStay}
use wordpress_manager_operat.Apiserver.Routes.Calls.{any_serve-Stays}
use wordpress_manager_operat.Commands.{
  Environment, Platform, dev_backend, dev_reconciler, sqlite_database, sites_namespace, two_fa,
  app_of,
}
use wordpress_manager_operat.Commands.Development.{
  CallsKeep, ensure_database-Keeps, load-Keeps, enable_from-Keeps, disable_from-Keeps, setup-Keeps,
}

-- Any number of requests, one after the other.
pub data Served {W : Type 0} (a : App W) : W → W → Type 0 where
  stop : (w : W) → Served a w w
  next :
      (header : String) (route : Route) {w w1 : W}
      → Served a (serve a header route w).1 w1
      → Served a w w1

Served-keeps :
    {W : Type 0} (a : App W) (P : W → Type 0)
    → ((header : String) (route : Route) (w : W) → P w → P (serve a header route w).1)
    → {w w1 : W} → Served a w w1
    → P w
    → P w1
Served-keeps a P each (stop w) h = h
Served-keeps a P each (next header route {w} rest) h =
    Served-keeps a P each rest (each header route w h)

module _ {W Conn : Type 0} (p : Platform W Conn) (P : W → Type 0) (k : CallsKeep p P)
    (getenv : Environment) (prov : Sqlite.Provisioner) (auth : Authenticator) where
  reconciles :
      (key : ObjectKey)
      → Keeps P (
          reconcile p.fake.cluster
            (sqlite_database p getenv prov)
            (dev_reconciler p.sha256 getenv)
            key)
  unfolding dev_reconciler
  reconciles key w h =
      reconcile-Keeps p.fake.cluster (sqlite_database p getenv prov)
        (dev_reconciler p.sha256 getenv) P
        (record {
          get_site = k.cluster.get_site;
          update_site = k.cluster.update_site;
          update_status = k.cluster.update_status;
          get_secret = k.cluster.get_secret;
          create_secret = k.cluster.create_secret;
          update_secret = k.cluster.update_secret;
          get_object = k.cluster.get_object;
          create_object = k.cluster.create_object;
          update_object = k.cluster.update_object;
          patch_object = k.cluster.patch_object;
          ensure_database = ensure_database-Keeps p P k prov;
          random = k.cluster.random;
        })
        key w (λ s read. inl refl) h

  sites-Keeps : Keeps P (dev_sites p.fake.listing (new_dev_provider (sites_namespace p getenv)))
  unfolding dev_sites
  sites-Keeps = Keeps-bind P (p.fake.listing.list_sites _) _ (k.listed_sites _) (λ _ w h. h)

  app-CallsStay : CallsStay P (app_of p getenv (dev_backend p getenv prov) auth)
  unfolding app_of dev_cluster enabled enable disable validate
  app-CallsStay =
      let t = two_fa getenv in
      record {
        reads = record {
          get_site = k.get_site;
          list_sites = k.list_sites;
          list_pods = k.list_pods;
          list_events = k.list_events;
          metrics = (
            Keeps-bind P (dev_sites p.fake.listing (new_dev_provider (sites_namespace p getenv))) _
                sites-Keeps (λ _ w h. h),
            sites-Keeps,
          );
          factor = (load-Keeps p P k t, λ code. load-Keeps p P k t);
        };
        create_site = k.create_site;
        update_site = k.update_site;
        delete_site = k.delete_site;
        run = λ namespace name.
            Keeps-bind P
              (reconcile p.fake.cluster (sqlite_database p getenv prov)
                (dev_reconciler p.sha256 getenv) (record { namespace = namespace; name = name }))
              (λ _. pure tt) (reconciles _) (λ _ w h. h);
        switch = (
          setup-Keeps p P k t,
          λ code.
              Keeps-bind P (load p.fake.client p.totp t) (enable_from p.fake.client p.totp t code)
                (load-Keeps p P k t) (enable_from-Keeps p P k t code),
          λ code.
              Keeps-bind P (load p.fake.client p.totp t) (disable_from p.fake.client p.totp t code)
                (load-Keeps p P k t) (disable_from-Keeps p P k t code),
        );
      }

  -- Let `P` be kept by the calls of the fake client, the SQL driver and the library of the second
  -- factor. The server that main builds in the development mode keeps it over any requests, with any
  -- headers, and over the reconciliations that they start, also where sites are deleted. The removal
  -- of a file is not among these calls.
  pub app_of-Keeps :
      {w w1 : W} → Served (app_of p getenv (dev_backend p getenv prov) auth) w w1 → P w → P w1
  app_of-Keeps served h =
      Served-keeps (app_of p getenv (dev_backend p getenv prov) auth) P
        (any_serve-Stays P (app_of p getenv (dev_backend p getenv prov) auth) app-CallsStay) served
        h
