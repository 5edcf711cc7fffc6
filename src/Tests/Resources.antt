-- ===== src/Tests/Resources.antt =====
-- The theorems on the builders, at the test site.
use wordpress_manager_operat.Prelude.{String, ◌≡◌, refl, none, some, [], ◌∷◌, All}
use wordpress_manager_operat.Text.{lower_char}
use wordpress_manager_operat.Maps.{Map, lookup}
use wordpress_manager_operat.Api.{EnvVar}
use wordpress_manager_operat.Resources.Names.{clean_char, sanitize, generated_name, generated_user}
use wordpress_manager_operat.Resources.Names.Collisions.{
  generated_collide, alike_same, alike_replaced, alike_end,
}
use wordpress_manager_operat.Resources.Objects.{Secret, new_meta}
use wordpress_manager_operat.Resources.Secret.{desired_secret}
use wordpress_manager_operat.Resources.Secret.Kept.{desired_secret-keeps}
use wordpress_manager_operat.Resources.Deployment.{generated_env}
use wordpress_manager_operat.Resources.Wiring.{RefersTo, generated_env-set}
use wordpress_manager_operat.Tests.Sites.{full_entries, blog, dice, dice-IsRandom}

sanitize-blog : sanitize "My-Blog." ≡ "my_blog"
unfolding sanitize clean_char lower_char
sanitize-blog = refl

generated_collide_example :
    (generated_name "a-b" ≡ generated_name "a.b") × (generated_user "a-b" ≡ generated_user "a.b")
unfolding lower_char
generated_collide_example =
    generated_collide (alike_same "a" (alike_replaced "-" "." refl refl (alike_same "b" alike_end)))

-- A Secret of an older version: it has a password, an extra key and no salts.
abbrev old_entries : Map String
old_entries = ("password", "old") ∷ ("extra", "kept") ∷ []

abbrev old_secret : Secret
old_secret = record { meta = new_meta "my-blog-wp" "sites" [] []; entries = old_entries }

desired_secret-keeps_example :
    lookup "extra" (desired_secret dice blog (some old_secret) tt).0.entries ≡ some "kept"
desired_secret-keeps_example =
    desired_secret-keeps dice blog old_secret "extra" "kept" tt (unfold lookup in refl) (λ e. cc)

-- A Secret with everything, as the first reconciliation makes it.
abbrev full_secret : Secret
full_secret = record { meta = new_meta "my-blog-wp" "sites" [] []; entries = full_entries }

generated_env-set_example :
    All
      (λ (e : EnvVar). RefersTo (desired_secret dice blog none tt).0 e.source)
      (generated_env blog "mysql" "3306")
generated_env-set_example = generated_env-set dice dice-IsRandom blog none tt "mysql" "3306"
