-- ===== src/Tests/Isolation.antt =====
-- The theorems on sites next to each other: two sites of one server.
use Prim.Native.Char.{code}
use wordpress_manager_operat.Prelude.{
  sym, some, List, String, Bool, ◌≡◌, ap, and-eq-true_iff, ◌≢◌, refl, true, false, ◌||◌, ◌==◌, [],
  ◌∷◌, arith, ==-false_of_ne, ne_of_==-false, ◌&&◌, Result, ok, err,
}
use wordpress_manager_operat.Text.{AllChars, lower_char}
use wordpress_manager_operat.Api.{WordPressSite}
use wordpress_manager_operat.Resources.Names.{
  clean_char, database_name, generated_name, generated_user,
}
use wordpress_manager_operat.Resources.Names.Distinct.{
  IsLabel, IsLabelChar, is_label_char, StartsPlain, EndsPlain,
}
use wordpress_manager_operat.Mysql.{
  create_user_sql, escape_string, ensure_stmts, validate_ident, open_conn, with_conn, run_stmts,
  ensure_database,
}
use wordpress_manager_operat.Mysql.Server.{Server, Statement, IsServer, ensure_statements}
use wordpress_manager_operat.Mysql.Server.Sharing.{shared_user_renewed}
use wordpress_manager_operat.Tests.Mysql.{config}
use wordpress_manager_operat.Tests.Server.{knowing, nothing}
use wordpress_manager_operat.Controller.{reconcile}
use wordpress_manager_operat.Controller.Interface.{Cluster, Database}
use wordpress_manager_operat.Controller.Kept.{IsKept}
use wordpress_manager_operat.Controller.Isolation.{IsNamed, reconcile_keeps_site}
use wordpress_manager_operat.Tests.Clusters.{Log, cluster, no_secret, server, reconciler, logged}
use wordpress_manager_operat.Tests.Controller.{deleted, key}

-- A server that logs which database it drops.
abbrev named_server : Database Log
named_server = record (server (ok tt)) { drop_database = λ name user host. logged name tt }

abbrev dropping : Cluster Log
dropping = cluster (ok deleted) no_secret

abbrev shop : WordPressSite
shop = record deleted { meta = record (deleted.meta) { name = "shop" } }

abbrev shop_database : String
shop_database = "wp_shop"

abbrev has_shop : Log → Bool
has_shop [] = false
has_shop (x ∷ xs) = (x == "wp_shop") || has_shop xs

abbrev ShopStands : Log → Type 0
ShopStands w = has_shop w ≡ false

dropping-IsKept : IsKept dropping named_server ShopStands
dropping-IsKept = record {
  get_site = λ k w h. h;
  update_site = λ s g w h. h;
  update_status = λ s g w h. h;
  get_secret = λ k w h. h;
  create_secret = λ s w h. h;
  update_secret = λ s w h. h;
  get_object = λ o w h. h;
  create_object = λ o w h. h;
  update_object = λ o w h. h;
  patch_object = λ o w h. h;
  ensure_database = λ name user host password w h. h;
  random = λ n w h. h;
}

abbrev has_label_chars : String → Bool
has_label_chars String.[] = true
has_label_chars (String.◌∷◌ c s) = is_label_char (code c) && has_label_chars s

label_chars : (s : String) → has_label_chars s ≡ true → AllChars IsLabelChar s
label_chars String.[] h = tt
label_chars (String.◌∷◌ c s) h =
    let (p, q) = (and-eq-true_iff (is_label_char (code c)) (has_label_chars s)).0 h in
    (p, label_chars s q)

blog-IsNamed : IsNamed deleted
blog-IsNamed = record {
  label = record { chars = label_chars "my-blog" refl; starts = omega arith; ends = omega arith };
  short = omega arith;
  generated = refl;
}

shop-IsNamed : IsNamed shop
shop-IsNamed = record {
  label = record { chars = label_chars "shop" refl; starts = omega arith; ends = omega arith };
  short = omega arith;
  generated = refl;
}

value : Result WordPressSite → WordPressSite
value (ok s) = s
value (err e) = deleted

site_read :
    (s : WordPressSite)
    → Path (Result WordPressSite) (ok deleted) (ok s)
    → IsNamed s × (s.meta.name ≢ "shop")
unfolding value
site_read s e =
    let same : deleted ≡ s = ap value e in
    rw (← same) (blog-IsNamed, ne_of_==-false "my-blog" "shop" refl)

reconcile_keeps_site_example :
    ShopStands (reconcile dropping named_server (reconciler true) key []).1
unfolding database_name clean_char lower_char
reconcile_keeps_site_example =
    reconcile_keeps_site dropping named_server (reconciler true) ShopStands shop key []
      dropping-IsKept (λ name user host other w h. rw (==-false_of_ne name shop_database other) h)
      shop-IsNamed
      (λ s read.
        let same : Path (Result WordPressSite) (ok deleted) (ok s) = read in site_read s same)
      refl

-- Two shops of one long name, with the year behind it.
abbrev stem : String
stem = "the-corner-shop-of-amsterdam"

shop-IsLabel : (s : String) → has_label_chars s ≡ true → StartsPlain s → EndsPlain s → IsLabel s
shop-IsLabel s h starts ends = record { chars = label_chars s h; starts = starts; ends = ends }

abbrev late : List Statement
late =
    ensure_statements "wp_the_corner_shop_of_amsterdam_2025" "wpu_the_corner_shop_of_amsterdam" "%"
      "new"

late-IsServer : IsServer (knowing late) (λ v. v) late
unfolding create_user_sql escape_string
late-IsServer = record {
  opens = λ dsn w. refl;
  pings = λ db w. refl;
  closes = λ db w. refl;
  executes = (
    λ db w w' safe e. sym (ap (λ q. q.1) e),
    (
      λ db w w' safe e. sym (ap (λ q. q.1) e),
      (
        λ db w w' safe e. sym (ap (λ q. q.1) e),
        (λ db w w' safe e. sym (ap (λ q. q.1) e), (λ db w w' safe e. sym (ap (λ q. q.1) e), tt)),
      ),
    ),
  );
}

-- The server after the shop of 2025 was given its database.
abbrev renewed : Server
renewed =
    (ensure_database (knowing late) config "wp_the_corner_shop_of_amsterdam_2025"
      "wpu_the_corner_shop_of_amsterdam" "%" "new" nothing).1

shared_user_renewed_example :
    (generated_name "the-corner-shop-of-amsterdam-2024"
      ≢ generated_name "the-corner-shop-of-amsterdam-2025")
    × (renewed.password (generated_user "the-corner-shop-of-amsterdam-2024") "%" ≡ some "new")
unfolding ensure_database ensure_stmts create_user_sql escape_string validate_ident open_conn
    with_conn run_stmts generated_name generated_user clean_char lower_char
shared_user_renewed_example =
    shared_user_renewed (knowing late) (λ v. v) config stem "-2024" "-2025" "%" "new" nothing
      renewed refl (label_chars stem refl)
      (shop-IsLabel "the-corner-shop-of-amsterdam-2024" refl (omega arith) (omega arith))
      (shop-IsLabel "the-corner-shop-of-amsterdam-2025" refl (omega arith) (omega arith))
      (omega arith) (omega arith)
      (ne_of_==-false "the-corner-shop-of-amsterdam-2024" "the-corner-shop-of-amsterdam-2025" refl)
      late-IsServer (refl, tt) refl
