-- ===== src/Mysql/Server/Sharing.antt =====
-- What it does to a site that another one shares its user.
use Prim.Native.String.{◌++◌, len}
use text.Mathlib.TextPositions.{eq_refl}
use wordpress_manager_operat.Prelude.{String, ◌≡◌, ◌≢◌, ap, ◌∙◌, ◌≤◌, ok, some, true}
use wordpress_manager_operat.Text.{AllChars}
use wordpress_manager_operat.Resources.Names.{generated_name, generated_user}
use wordpress_manager_operat.Resources.Names.Distinct.{IsLabel, IsLabelChar}
use wordpress_manager_operat.Resources.Names.SharedUsers.{generated_user_shared}
use wordpress_manager_operat.Mysql.{Driver, Config, ensure_database}
use wordpress_manager_operat.Mysql.Account.{IsOrdinary}
use wordpress_manager_operat.Mysql.Server.{
  Server, IsServer, ensure_statements, provision, is_account, ensure_database_refines,
}

pub is_account_refl : (user host : String) → is_account user host user host ≡ true
is_account_refl user host = rw (eq_refl user, eq_refl host)

provision-password :
    (n user host p : String) (s : Server) → (provision n user host p s).password user host ≡ some p
provision-password n user host p s = rw (is_account_refl user host)

module _ {W Conn : Type 0} (d : Driver W Conn) (view : W → Server) where
  -- Let two sites have names that are different DNS labels of at most 61 bytes with the same first 28
  -- bytes. On a server that does what MySQL documents of the statements, providing the second one
  -- with its own database sets the password of the account that the first one connects with.
  pub shared_user_renewed :
      (cfg : Config) (stem x y host p : String) (w w' : W)
      → len stem ≡ 28
      → AllChars IsLabelChar stem
      → IsLabel (stem ++ x)
      → IsLabel (stem ++ y)
      → len (stem ++ x) ≤ 61
      → len (stem ++ y) ≤ 61
      → stem ++ x ≢ stem ++ y
      → IsServer d view
          (ensure_statements (generated_name (stem ++ y)) (generated_user (stem ++ y)) host p)
      → AllChars IsOrdinary host
      → ensure_database d cfg (generated_name (stem ++ y)) (generated_user (stem ++ y)) host p w
        ≡ (ok tt, w')
      → (generated_name (stem ++ x) ≢ generated_name (stem ++ y))
        × ((view w').password (generated_user (stem ++ x)) host ≡ some p)
  shared_user_renewed cfg stem x y host p w w' long chars lx ly sx sy different server safe h =
      let (same, apart) = generated_user_shared stem x y long chars lx ly sx sy different in
      let user = generated_user (stem ++ y) in
      let done =
        ensure_database_refines d view cfg (generated_name (stem ++ y)) user host p w w' server safe
          h in
      (
        apart,
        ap (λ u. (view w').password u host) same
            ∙ (ap (λ (s : Server). s.password user host) done
                ∙ provision-password (generated_name (stem ++ y)) user host p (view w)),
      )
