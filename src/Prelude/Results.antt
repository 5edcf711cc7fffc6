-- ===== src/Prelude/Results.antt =====
-- Go's `(value, error)` results, and calls that read and write the world outside the program
-- (the cluster, the database server, the clock, the random source).
use Prim.Native.String.{String}
use mathlib.Core.Path.{◌≡◌, refl, ap}
use mathlib.Core.Bool.{Bool, true, false}

-- An error value: the two that the program tests for with `apierrors`, the sentinel of the
-- two-factor code, and any other, with their texts.
pub data Error : Type 0 where
  not_found already_exists failure : String → Error
  code_invalid : Error

-- err.Error()
abbrev pub message : Error → String
message (not_found m) = m
message (already_exists m) = m
message (failure m) = m
message code_invalid = "invalid 2FA code"

abbrev pub is_not_found : Error → Bool
is_not_found (not_found m) = true
is_not_found _ = false

abbrev pub is_already_exists : Error → Bool
is_already_exists (already_exists m) = true
is_already_exists _ = false

pub data Result {ℓ} (A : Type ℓ) : Type ℓ where
  ok : A → Result A
  err : Error → Result A

-- A call: the world that it leaves stands beside the error too.
abbrev pub Exec {ℓ} : Type ℓ → Type ℓ → Type ℓ
Exec W A = W → Result A × W

module _ {ℓ} {W A B : Type ℓ} where
  -- `if err != nil { … }` after a call: the rest of the function sees both outcomes.
  abbrev pub attempt : Exec W A → (Result A → Exec W B) → Exec W B
  attempt m f w = f (m w).0 (m w).1

  abbrev pub continue : (A → Exec W B) → Result A → Exec W B
  continue f (ok a) w = f a w
  continue f (err e) w = (err e, w)

  infixl 5 ◌>>=◌ ◌>>◌
  -- `if err != nil { return err }` after a call.
  abbrev pub ◌>>=◌ : Exec W A → (A → Exec W B) → Exec W B
  m >>= f = attempt m (continue f)

  abbrev pub ◌>>◌ : Exec W A → Exec W B → Exec W B
  m >> k = m >>= λ _. k

module _ {ℓ} {W A : Type ℓ} where
  abbrev pub pure : A → Exec W A
  pure a w = (ok a, w)

  abbrev pub raise : Error → Exec W A
  raise e w = (err e, w)

  abbrev pub lift : Result A → Exec W A
  lift r w = (r, w)

error_of {ℓ} : {A : Type ℓ} → Result A → Error
error_of (ok a) = code_invalid
error_of (err e) = e

module _ {ℓ} {W A B : Type ℓ} where
  pub continue_ok :
      (f : A → Exec W B) (r : Result A) (w : W) {b : B} {w' : W}
      → continue f r w ≡ (ok b, w')
      → (a : A) × (r ≡ ok a) × (f a w ≡ (ok b, w'))
  continue_ok f (ok a) w h = (a, refl, h)
  continue_ok f (err e) w h = let bad = ap (λ p. p.0) h in cc

  -- What a successful chain went through.
  pub >>=-ok :
      (m : Exec W A) (f : A → Exec W B) (w : W) {b : B} {w' : W}
      → (m >>= f) w ≡ (ok b, w')
      → (a : A) × (w1 : W) × (m w ≡ (ok a, w1)) × (f a w1 ≡ (ok b, w'))
  >>=-ok m f w h =
      let (a, e, k) = continue_ok f (m w).0 (m w).1 h in (a, (m w).1, λ i. (e i, (m w).1), k)

value_of {ℓ} : {A : Type ℓ} → A → Result A → A
value_of a (ok b) = b
value_of a (err e) = a

pub result_injective {ℓ} : {A : Type ℓ} {a b : A} → Path (Result A) (ok a) (ok b) → a ≡ b
unfolding value_of
result_injective {a = a} h = ap (value_of a) h

pub ok_injective {ℓ} :
    {W A : Type ℓ} {a b : A} {w w' : W} → Path (Result A × W) (ok a, w) (ok b, w') → a ≡ b
unfolding value_of
ok_injective {a} h = ap (λ p. value_of a p.0) h

pub err_injective {ℓ} :
    {W A : Type ℓ} {e e' : Error} {w w' : W} → Path (Result A × W) (err e, w) (err e', w') → e ≡ e'
unfolding error_of
err_injective h = ap (λ p. error_of p.0) h

-- `m` keeps `P`, whether it returns or fails.
abbrev pub Keeps {ℓ} : {W A : Type ℓ} → (W → Type ℓ) → Exec W A → Type ℓ
Keeps {W = W} P m = (w : W) → P w → P (m w).1

module _ {ℓ} {W A B : Type ℓ} (P : W → Type ℓ) where
  pub Keeps-continue :
      (f : A → Exec W B) (r : Result A)
      → ((a : A) → r ≡ ok a → Keeps P (f a))
      → Keeps P (continue f r)
  Keeps-continue f (ok a) k w h = k a refl w h
  Keeps-continue f (err e) k w h = h

  pub Keeps-bind :
      (m : Exec W A) (f : A → Exec W B) → Keeps P m → ((a : A) → Keeps P (f a)) → Keeps P (m >>= f)
  Keeps-bind m f km kf w h = Keeps-continue f (m w).0 (λ a _. kf a) (m w).1 (km w h)

  pub Keeps-attempt :
      (m : Exec W A) (f : Result A → Exec W B)
      → Keeps P m
      → ((r : Result A) → Keeps P (f r))
      → Keeps P (attempt m f)
  Keeps-attempt m f km kf w h = kf (m w).0 (m w).1 (km w h)
