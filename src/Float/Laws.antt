-- ===== src/Float/Laws.antt =====
-- The laws of `float` that a theorem may assume. All of them hold of the doubles without
-- NaN.
use ai_daytrader_sim.Prelude.{ℕ, ◌≡◌, ◌≤◌, ◌<◌, ◌∙◌, ap, true, false, not, ◌&&◌, ◌⊎◌, arith}
use ai_daytrader_sim.Float.{Float, fmin, fmax, le, lt}

infix 4 ◌≼◌ ◌≺◌
abbrev pub ◌≼◌ : {R : Type 0} ⦃f : Float R⦄ → R → R → Type 0
◌≼◌ ⦃f⦄ x y = f.le x y ≡ true

abbrev pub ◌≺◌ : {R : Type 0} ⦃f : Float R⦄ → R → R → Type 0
◌≺◌ ⦃f⦄ x y = f.lt x y ≡ true

pub record IsOrdered (R : Type 0) ⦃f : Float R⦄ : Type 0 where
  pub le_refl : (x : R) → x ≼ x
  pub le_trans : (x y z : R) → x ≼ y → y ≼ z → x ≼ z
  pub le_total : (x y : R) → (x ≼ y) ⊎ (y ≼ x)
  pub lt-eq-not-le : (x y : R) → f.lt x y ≡ not (f.le y x)

-- `==` against the order, as of the doubles without NaN.
pub record IsDecided (R : Type 0) ⦃f : Float R⦄ : Type 0 where
  pub eq-le : (x y : R) → f.eq x y ≡ (f.le x y && f.le y x)

-- `math.floor` of a number does not exceed it, and a quotient by a positive divisor is monotone: also
-- of rounded quotients, since rounding is monotone.
pub record IsFloored (R : Type 0) ⦃f : Float R⦄ : Type 0 where
  pub floor_le : (x : R) (n : ℕ) → 0 < n → n ≤ f.floor x → f.num n ≼ x
  pub div_mono : (x y z : R) → x ≼ y → f.num 0 ≺ z → f.div x z ≼ f.div y z

module _ {R : Type 0} ⦃f : Float R⦄ (o : IsOrdered R) where
  pub le-of-not-lt : (x y : R) → lt x y ≡ false → y ≼ x
  le-of-not-lt x y h = ground (arith, o.lt-eq-not-le x y)

  pub lt-of-not-le : (x y : R) → le y x ≡ false → x ≺ y
  lt-of-not-le x y h = o.lt-eq-not-le x y ∙ ap not h

  pub le-of-lt : (x y : R) → lt x y ≡ true → x ≼ y
  le-of-lt x y h = ground (arith, o.lt-eq-not-le x y, o.le_total x y)

  pub fmin-le_left : (x y : R) → fmin x y ≼ x
  fmin-le_left x y = ground (arith, le-of-lt y x, o.le_refl x)

  pub fmin-le_right : (x y : R) → fmin x y ≼ y
  fmin-le_right x y = ground (arith, le-of-not-lt y x, o.le_refl y)

  pub le-fmin : (z x y : R) → z ≼ x → z ≼ y → z ≼ fmin x y
  le-fmin z x y h k = ground arith

  pub le-fmax_left : (x y : R) → x ≼ fmax x y
  le-fmax_left x y = ground (arith, le-of-lt x y, o.le_refl x)

  pub le-fmax_right : (x y : R) → y ≼ fmax x y
  le-fmax_right x y = ground (arith, le-of-not-lt x y, o.le_refl y)
