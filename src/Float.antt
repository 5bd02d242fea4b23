-- ===== src/Float.antt =====
-- What the program does with Python's `float`: whole numbers as floats, arithmetic, comparisons and
-- `math.floor`. The type is a parameter of the model, so that nothing is assumed of rounding; what a
-- theorem does assume it takes as a record of laws. `MarketTick` refuses NaN and the infinities.
pub mod Laws
pub mod Scaled
use ai_daytrader_sim.Prelude.{ℕ, Bool, if◌then◌else◌}

pub record Float (R : Type 0) : Type 0 where
  pub num : ℕ → R
  pub add : R → R → R
  pub sub : R → R → R
  pub mul : R → R → R
  pub div : R → R → R
  pub le : R → R → Bool
  pub lt : R → R → Bool
  pub eq : R → R → Bool
  -- `math.floor`, with 0 for what is negative: each use of the program refuses both alike
  pub floor : R → ℕ

module _ {R : Type 0} ⦃f : Float R⦄ where
  infixl 65 ◌⊕◌ ◌⊖◌
  infixl 70 ◌⊗◌ ◌⊘◌
  abbrev pub ◌⊕◌ : R → R → R
  ◌⊕◌ = f.add

  abbrev pub ◌⊖◌ : R → R → R
  ◌⊖◌ = f.sub

  abbrev pub ◌⊗◌ : R → R → R
  ◌⊗◌ = f.mul

  abbrev pub ◌⊘◌ : R → R → R
  ◌⊘◌ = f.div

  abbrev pub num : ℕ → R
  num = f.num

  abbrev pub le : R → R → Bool
  le = f.le

  abbrev pub lt : R → R → Bool
  lt = f.lt

  abbrev pub feq : R → R → Bool
  feq = f.eq

  abbrev pub floor : R → ℕ
  floor = f.floor

  -- `max(a, b)` and `min(a, b)`: the first argument unless the second is beyond it
  abbrev pub fmax : R → R → R
  fmax a b = if f.lt a b then b else a

  abbrev pub fmin : R → R → R
  fmin a b = if f.lt b a then b else a

  -- `-x` and `abs(x)`
  abbrev pub neg : R → R
  neg x = f.sub (f.num 0) x

  abbrev pub abs : R → R
  abs x = if f.lt x (f.num 0) then f.sub (f.num 0) x else x
