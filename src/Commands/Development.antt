-- ===== src/Commands/Development.antt =====
-- The API server that main builds in the development mode, which reconciles the sites that it writes
-- itself, with a database file for each: what its SQLite provisioner and its second factor keep.
pub mod Requests
use wordpress_manager_operat.Prelude.{
  String, inl, inr, Bool-cases, Option, none, some, List, [], ◌∷◌, Result, ok, err, pure, lift,
  ◌>>=◌, ◌>>◌, Keeps, Keeps-bind, Keeps-attempt, is_not_found,
}
use wordpress_manager_operat.Text.{is_empty}
use wordpress_manager_operat.Maps.{Map}
use wordpress_manager_operat.Api.{WordPressSite}
use wordpress_manager_operat.Resources.Objects.{Secret}
use wordpress_manager_operat.Resources.Secret.{value_at}
use wordpress_manager_operat.Controller.Interface.{ObjectKey, Database}
use wordpress_manager_operat.Controller.Kept.{IsKept}
use wordpress_manager_operat.Sqlite as Sqlite
use wordpress_manager_operat.Apiserver.TwoFa.{
  KubeTwoFa, key_pending, key_secret, after_get, load, save, setup, enable_from, disable_from,
  validate,
}
use wordpress_manager_operat.Commands.{Platform}

-- A database that does nothing.
abbrev pub no_database : {W : Type 0} → Database W
no_database = record {
  ensure_database = λ name user host password. pure tt;
  drop_database = λ name user host. pure tt;
}

module _ {W Conn : Type 0} (p : Platform W Conn) (P : W → Type 0) where
  -- Every call of the fake client, of the SQL driver and of the library of the second factor keeps `P`.
  -- Of the file system, the removal of a file is not among them.
  pub record CallsKeep : Type 0 where
    pub cluster : IsKept p.fake.cluster no_database P
    pub get_site : (k : ObjectKey) → Keeps P (p.fake.client.get_site k)
    pub list_sites : (n : String) → Keeps P (p.fake.client.list_sites n)
    pub create_site : (s : WordPressSite) → Keeps P (p.fake.client.create_site s)
    pub update_site : (s : WordPressSite) → Keeps P (p.fake.client.update_site s)
    pub delete_site : (s : WordPressSite) → Keeps P (p.fake.client.delete_site s)
    pub get_secret : (k : ObjectKey) → Keeps P (p.fake.client.get_secret k)
    pub create_secret : (s : Secret) → Keeps P (p.fake.client.create_secret s)
    pub update_secret : (s : Secret) → Keeps P (p.fake.client.update_secret s)
    pub list_pods : (n l v : String) → Keeps P (p.fake.diagnostics.list_pods n l v)
    pub list_events : (n : String) → Keeps P (p.fake.diagnostics.list_events n)
    pub listed_sites : (n : String) → Keeps P (p.fake.listing.list_sites n)
    pub generate : (issuer account : String) → Keeps P (p.totp.generate issuer account)
    pub sql_open : (file : String) → Keeps P (p.sqlite.sql_open file)
    pub exec : (db : Conn) (sql : String) (args : List String) → Keeps P (p.sqlite.exec db sql args)
    pub close : (db : Conn) (w : W) → P w → P (p.sqlite.close db w)

  module _ (k : CallsKeep) where
    record_all-Keeps : (db : Conn) (m : Map String) → Keeps P (Sqlite.record_all p.sqlite db m)
    unfolding Sqlite.record_all
    record_all-Keeps db [] w h = h
    record_all-Keeps db ((key, v) ∷ rest) w h =
        Keeps-bind P (p.sqlite.exec db Sqlite.upsert_meta (key ∷ v ∷ []))
          (λ _. Sqlite.record_all p.sqlite db rest) (k.exec db _ _) (λ _. record_all-Keeps db rest)
          w h

    with_file-Keeps :
        (user host : String) (db : Conn) → Keeps P (Sqlite.with_file p.sqlite user host db)
    unfolding Sqlite.with_file Sqlite.record_owner
    with_file-Keeps user host db w h = k.close db _ (
        Keeps-bind P (p.sqlite.exec db Sqlite.create_meta [])
          (λ _ v. Sqlite.record_all p.sqlite db (p.sqlite.range v (Sqlite.owner user host)) v)
          (k.exec db _ _) (λ _ v g. record_all-Keeps db _ v g) w h)

    pub ensure_database-Keeps :
        (prov : Sqlite.Provisioner) (name user host password : String)
        → Keeps P (Sqlite.ensure_database p.sqlite prov name user host password)
    unfolding Sqlite.ensure_database
    ensure_database-Keeps prov name user host password =
        Keeps-bind P (lift (Sqlite.path p.sqlite prov name))
          (λ file. p.sqlite.sql_open file >>= Sqlite.with_file p.sqlite user host) (λ w h. h)
          (λ file.
            Keeps-bind P (p.sqlite.sql_open file) (Sqlite.with_file p.sqlite user host)
              (k.sql_open file) (with_file-Keeps user host))

    module _ (t : KubeTwoFa) where
      pub load-Keeps : Keeps P (load p.fake.client p.totp t)
      unfolding load
      load-Keeps =
          Keeps-attempt P (p.fake.client.get_secret _) (after_get p.fake.client p.totp t)
            (k.get_secret _) after
        where
          after : (r : Result Secret) → Keeps P (after_get p.fake.client p.totp t r)
          after (ok s) w h = h
          after (err e) w h = elim (Bool-cases (is_not_found e)) [
            | inl missing ↦ rw missing h
            | inr other ↦ rw other h
          ]

      save-Keeps : (o : Option Secret) (m : Map String) → Keeps P (save p.fake.client p.totp t o m)
      unfolding save
      save-Keeps none m =
          Keeps-bind P (p.fake.client.create_secret _) (λ _. pure tt) (k.create_secret _)
            (λ _ w h. h)
      save-Keeps (some s) m =
          Keeps-bind P (p.fake.client.update_secret _) (λ _. pure tt) (k.update_secret _)
            (λ _ w h. h)

      pub enable_from-Keeps :
          (code : String) (o : Option Secret) → Keeps P (enable_from p.fake.client p.totp t code o)
      unfolding enable_from
      enable_from-Keeps code none w h = h
      enable_from-Keeps code (some s) w h =
          elim (Bool-cases (is_empty (value_at key_pending s.entries))) [
            | inl missing ↦ rw missing h
            | inr given ↦
                elim (Bool-cases (p.totp.validate code (value_at key_pending s.entries) w)) [
                  | inl valid ↦ rw (given, valid) (save-Keeps (some s) _ w h)
                  | inr wrong ↦ rw (given, wrong) h
                ]
          ]

      pub disable_from-Keeps :
          (code : String) (o : Option Secret) → Keeps P (disable_from p.fake.client p.totp t code o)
      unfolding disable_from
      disable_from-Keeps code none w h = h
      disable_from-Keeps code (some s) w h =
          elim (Bool-cases (is_empty (value_at key_secret s.entries))) [
            | inl missing ↦ rw missing h
            | inr given ↦
                elim (Bool-cases (p.totp.validate code (value_at key_secret s.entries) w)) [
                  | inl valid ↦ rw (given, valid) (save-Keeps (some s) _ w h)
                  | inr wrong ↦ rw (given, wrong) h
                ]
          ]

      pub setup-Keeps : Keeps P (setup p.fake.client p.totp t)
      unfolding setup
      setup-Keeps = Keeps-bind P (p.totp.generate t.issuer t.account) _ (k.generate _ _) (λ key.
          Keeps-bind P (load p.fake.client p.totp t) _ load-Keeps (λ o.
            Keeps-bind P (save p.fake.client p.totp t o _) _ (save-Keeps o _)
              (λ _. Keeps-bind P (lift _) _ (λ w h. h) (λ qr w h. h))))
