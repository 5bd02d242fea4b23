-- ===== src/Prelude/Result.antt =====
-- Code that raises: a result or the exception.
use mathlib.Core.Path.{◌≡◌, refl, ap}
use mathlib.Core.Logic.{◌↔◌, ◌⊎◌, inl, inr}
use mathlib.Core.Bool.{Bool, true, false}

pub data Result {ℓ κ} (E : Type ℓ) (A : Type κ) : Type (ℓ ⊔ κ) where
  ok : A → Result E A
  error : E → Result E A

infixl 5 ◌>>=◌ ◌>>◌
abbrev pub ◌>>=◌ {ℓ κ λ'} :
    {E : Type ℓ} {A : Type κ} {B : Type λ'} → Result E A → (A → Result E B) → Result E B
ok a >>= f = f a
error e >>= f = error e

abbrev pub ◌>>◌ {ℓ κ} : {E : Type ℓ} {B : Type κ} → Result E (Unit {0}) → Result E B → Result E B
m >> k = m >>= λ _. k

-- `if test: raise e`
abbrev pub raise_if {ℓ} : {E : Type ℓ} → Bool → E → Result E (Unit {0})
raise_if true e = error e
raise_if false e = ok tt

abbrev pub is_ok {ℓ κ} : {E : Type ℓ} {A : Type κ} → Result E A → Bool
is_ok (ok a) = true
is_ok (error e) = false

-- An error as one of a larger type of errors.
abbrev pub map_error {ℓ κ μ} :
    {E : Type ℓ} {F : Type κ} {A : Type μ} → (E → F) → Result E A → Result F A
map_error g (ok a) = ok a
map_error g (error e) = error (g e)

-- A chain goes well if its first step raises nothing and the rest goes well.
pub raise_if-ok {ℓ κ} :
    {E : Type ℓ} {B : Type κ} (t : Bool) (e : E) (k : Result E B)
    → (is_ok (raise_if t e >> k) ≡ true) ↔ ((t ≡ false) × (is_ok k ≡ true))
raise_if-ok true e k = (λ h. cc h, λ h. cc (h.0))
raise_if-ok false e k = (λ h. (refl, h), λ h. h.1)

pub step-ok {ℓ κ} :
    {E : Type ℓ} {B : Type κ} (m : Result E (Unit {0})) (k : Result E B)
    → (is_ok (m >> k) ≡ true) ↔ ((is_ok m ≡ true) × (is_ok k ≡ true))
step-ok (ok u) k = (λ h. (refl, h), λ h. h.1)
step-ok (error e) k = (λ h. cc h, λ h. cc (h.0))

abbrev reraise {ℓ κ} : {E : Type ℓ} {B : Type κ} → E → Result E B → Result E (Unit {0})
reraise e (ok b) = error e
reraise e (error x) = error x

-- An error of two steps is one of the first or of the second.
pub error-step {ℓ κ} :
    {E : Type ℓ} {B : Type κ} (m : Result E (Unit {0})) (k : Result E B) (e : E)
    → (m >> k) ≡ error e
    → (m ≡ error e) ⊎ (k ≡ error e)
error-step (ok u) k e h = inr h
error-step (error x) k e h = inl (ap (reraise x) h)
