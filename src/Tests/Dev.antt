-- ===== src/Tests/Dev.antt =====
-- The theorems on the SQLite provisioner and on the commands.
use wordpress_manager_operat.Text.{contains_any}
use mathlib.Core.List.Perm
use wordpress_manager_operat.Prelude.{String, refl, true, List, [], ◌∷◌, failure, ok, err}
use Prim.Native.String.{◌++◌}
use wordpress_manager_operat.Sqlite.{
  Driver, Provisioner, path, create_meta, upsert_meta, record_all, record_owner, with_file,
  ensure_database,
}
use wordpress_manager_operat.Sqlite.Records.{Provisioned, ensure_database-Provisioned}
use wordpress_manager_operat.Tests.Mysql.{quote}

abbrev Log : Type 0
Log = List String

-- A file system that has no file.
abbrev driver : Driver Log (Unit {0})
driver = record {
  mkdir_all = λ dir w. (ok tt, w);
  remove = λ file w. (err (failure "no such file"), w);
  is_not_exist = λ e. true;
  join = λ dir file. dir ++ "/" ++ file;
  quote = quote;
  sql_open = λ file w. (ok tt, ("open " ++ file) ∷ w);
  exec = λ db sql args w. (ok tt, sql ∷ w);
  close = λ db w. "close" ∷ w;
  range = λ w m. m;
}

abbrev provisioner : Provisioner
provisioner = record { dir = ".dev" }

ensure_database-Provisioned_example :
    Provisioned driver provisioner "wp_blog" "wpu_blog" "%" []
      ("close" ∷ upsert_meta ∷ upsert_meta ∷ create_meta ∷ "open .dev/wp_blog.db" ∷ [])
unfolding ensure_database with_file record_owner record_all path contains_any
ensure_database-Provisioned_example =
    ensure_database-Provisioned driver (λ w m. Perm.refl m) provisioner "wp_blog" "wpu_blog" "%" "p"
      [] ("close" ∷ upsert_meta ∷ upsert_meta ∷ create_meta ∷ "open .dev/wp_blog.db" ∷ []) refl
