-- ===== src/Tests/Sites.antt =====
-- A site for the tests, and random bytes.
use wordpress_manager_operat.Prelude.{
  ℕ, String, ◌≡◌, ◌≢◌, ◌==◌, ne_of_==-false, refl, arith, true, false, none, List, [], ◌∷◌, All,
  length, zero, suc, ap,
}
use wordpress_manager_operat.Text.Encoding.{IsByte}
use wordpress_manager_operat.Api.{WordPressSite, WordPressSiteSpec, no_resources}
use wordpress_manager_operat.Resources.Names.{Defaults}
use wordpress_manager_operat.Resources.Secret.{password_key, salt_keys}
use wordpress_manager_operat.Resources.Secret.Kept.{IsRandom, IsSetAt}
use wordpress_manager_operat.Maps.{Map, lookup}
use Prim.Native.String.{◌++◌}

abbrev pub blog_spec : WordPressSiteSpec
blog_spec = record {
  domain = "blog.example.com";
  aliases = "www.example.com" ∷ [];
  image = "";
  replicas = none;
  resources = no_resources;
  storage = record { shared_pvc_name = ""; sub_path = "" };
  database = record { name = ""; user = ""; host = "" };
  tls = record { enabled = true; issuer = "letsencrypt"; secret_name = "" };
  ingress_class_name = "";
  ingress_annotations = [];
  env = [];
  php_config = "";
  php_ini = "";
  table_prefix = "";
  force_https = none;
  suspend = false;
}

abbrev pub blog : WordPressSite
blog = record {
  meta = record {
    name = "my-blog";
    namespace = "sites";
    labels = [];
    annotations = [];
    finalizers = "wp.benji.dev/finalizer" ∷ [];
    resource_version = "7";
    generation = 3;
    deletion_timestamp = 0;
  };
  spec = blog_spec;
  status = record {
    phase = "";
    url = "";
    database_name = "";
    database_user = "";
    secret_name = "";
    observed_generation = 0;
    conditions = [];
  };
}

abbrev pub cluster_defaults : Defaults
cluster_defaults = record { shared_pvc_name = "wordpress-shared"; ingress_class = "nginx" }

abbrev pub sevens : ℕ → List ℕ
sevens zero = []
sevens (suc n) = 7 ∷ sevens n

-- A source of random bytes that leaves the world alone.
abbrev pub dice : {W : Type 0} → ℕ → W → List ℕ × W
dice n w = (sevens n, w)

length-sevens : (n : ℕ) → length (sevens n) ≡ n
length-sevens zero = refl
length-sevens (suc n) = ap suc (length-sevens n)

sevens-IsByte : (n : ℕ) → All IsByte (sevens n)
sevens-IsByte zero = tt
sevens-IsByte (suc n) = (omega arith, sevens-IsByte n)

pub dice-IsRandom : {W : Type 0} → IsRandom (dice {W = W})
dice-IsRandom = record { size = λ n w. length-sevens n; bytes = λ n w. sevens-IsByte n }

abbrev pub set_all : List String → Map String
set_all [] = []
set_all (k ∷ ks) = (k, "secret of " ++ k) ∷ set_all ks

-- Data with the password and all salts.
abbrev pub full_entries : Map String
full_entries = set_all (password_key ∷ salt_keys)

pub full_entries_complete : All (IsSetAt full_entries) (password_key ∷ salt_keys)
unfolding lookup
full_entries_complete =
    let n : (s : String) → (s == "") ≡ false → s ≢ "" = λ s e. ne_of_==-false s "" e in
    (
      n _ refl,
      (
        n _ refl,
        (n _ refl, (n _ refl, (n _ refl, (n _ refl, (n _ refl, (n _ refl, (n _ refl, tt))))))),
      ),
    )
