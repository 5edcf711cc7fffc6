-- ===== src/Resources/Secret/Drawing.antt =====
-- Building a Secret touches the world by drawing random bytes alone.
use wordpress_manager_operat.Prelude.{ℕ, String, Bool-cases, inl, inr, Option, List, [], ◌∷◌}
use wordpress_manager_operat.Text.{is_empty}
use wordpress_manager_operat.Maps.{Map, copy}
use wordpress_manager_operat.Api.{WordPressSite}
use wordpress_manager_operat.Resources.Objects as Objects
use wordpress_manager_operat.Resources.Secret.{
  Random, desired_secret, secret_data, fill, fill_all, random_password, value_at, salt_keys,
  password_key, existing_data,
}

module _ {W : Type 0} (random : Random W) (P : W → Type 0)
    (k : (n : ℕ) (w : W) → P w → P (random n w).1) where
  Keeps-fill : (n : ℕ) (j : String) (m : Map String) (w : W) → P w → P (fill random n j m w).1
  unfolding fill random_password
  Keeps-fill n j m w h = elim (Bool-cases (is_empty (value_at j m))) [
    | inl t ↦ rw t (k n w h)
    | inr f ↦ rw f h
  ]

  Keeps-fill_all : (ks : List String) (m : Map String) (w : W) → P w → P (fill_all random ks m w).1
  unfolding fill_all
  Keeps-fill_all [] m w h = h
  Keeps-fill_all (j ∷ ks) m w h = Keeps-fill_all ks _ _ (Keeps-fill 48 j m w h)

  -- What drawing random bytes keeps, DesiredSecret keeps.
  pub Keeps-desired_secret :
      (site : WordPressSite) (x : Option Objects.Secret) (w : W)
      → P w
      → P (desired_secret random site x w).1
  unfolding desired_secret secret_data
  Keeps-desired_secret site x w h =
      Keeps-fill_all salt_keys _ _ (Keeps-fill 24 password_key (copy [] (existing_data x)) w h)
