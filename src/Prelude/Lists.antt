-- ===== src/Prelude/Lists.antt =====
-- Lists measured by native numbers, and predicates over lists.
use Prim.Native.Nat.{ℕ, suc, ◌+◌}
use mathlib.Core.Path.{◌≡◌, refl}
use mathlib.Core.Bool.{Bool, true, false, ◌&&◌, ◌||◌}
use mathlib.Core.List.{List, [], ◌∷◌, ◌++◌}
use native.Mathlib.Omega.{arith}

module _ {ℓ} {A : Type ℓ} where
  abbrev pub length : List A → ℕ
  length [] = 0
  length (x ∷ xs) = suc (length xs)

  abbrev pub is_empty : List A → Bool
  is_empty [] = true
  is_empty (x ∷ xs) = false

  pub empty_of_test : (xs : List A) → is_empty xs ≡ true → xs ≡ []
  empty_of_test [] h = refl
  empty_of_test (x ∷ xs) h = cc

  pub length-append : (xs ys : List A) → length (xs ++ ys) ≡ length xs + length ys
  length-append [] ys = omega arith
  length-append (x ∷ xs) ys = omega (arith, length-append xs ys)

  abbrev pub All {κ} : (A → Type κ) → List A → Type κ
  All P [] = Unit
  All P (x ∷ xs) = P x × All P xs

  pub All-append {κ} : (P : A → Type κ) (xs ys : List A) → All P xs → All P ys → All P (xs ++ ys)
  All-append P [] ys hx hy = hy
  All-append P (x ∷ xs) ys hx hy = (hx.0, All-append P xs ys hx.1 hy)

  pub is_empty-append_right : (xs ys : List A) → is_empty ys ≡ false → is_empty (xs ++ ys) ≡ false
  is_empty-append_right [] ys h = h
  is_empty-append_right (x ∷ xs) ys h = refl

  pub is_empty-append_left : (xs ys : List A) → is_empty xs ≡ false → is_empty (xs ++ ys) ≡ false
  is_empty-append_left [] ys h = cc
  is_empty-append_left (x ∷ xs) ys h = refl

  pub is_empty-parts :
      (xs ys : List A) → is_empty (xs ++ ys) ≡ true → (is_empty xs ≡ true) × (is_empty ys ≡ true)
  is_empty-parts [] ys h = (refl, h)
  is_empty-parts (x ∷ xs) ys h = cc

-- Python's `all` and `any` over a list of truth values.
abbrev pub all : List Bool → Bool
all [] = true
all (b ∷ bs) = b && all bs

abbrev pub any : List Bool → Bool
any [] = false
any (b ∷ bs) = b || any bs
