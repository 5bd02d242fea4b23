-- ===== src/Float/Scaled.antt =====
-- A value that meets the laws: whole multiples of a fixed unit, with division rounded down.
use ai_daytrader_sim.Prelude.{
  ℕ, suc, ◌+◌, ◌-◌, ◌*◌, ◌/◌, ◌≤◌, ◌<◌, ◌≡◌, Bool, arith, ltb, leb, ◌==◌, ◌&&◌, if◌then◌else◌,
}
use ai_daytrader_sim.Float.{Float}
use ai_daytrader_sim.Float.Laws.{IsOrdered, IsDecided, IsFloored}

-- `negsuc n` is -(n + 1).
pub data ℤ : Type 0 where
  pos : ℕ → ℤ
  negsuc : ℕ → ℤ

abbrev pub pos_part : ℤ → ℕ
pos_part (pos n) = n
pos_part (negsuc n) = 0

abbrev pub neg_part : ℤ → ℕ
neg_part (pos n) = 0
neg_part (negsuc n) = suc n

abbrev pub sub_ℕ : ℕ → ℕ → ℤ
sub_ℕ a b = if leb b a then pos (a - b) else negsuc (b - a - 1)

-- A quotient rounded down. The sign of a negative divisor is moved to the dividend.
abbrev quotient : ℤ → ℕ → ℤ
quotient (pos a) n = pos (a / n)
quotient (negsuc a) n = negsuc (a / n)

abbrev divide : ℤ → ℤ → ℤ
divide a (pos n) = quotient a n
divide a (negsuc n) = quotient (sub_ℕ (neg_part a) (pos_part a)) (suc n)

instance abbrev pub scaled_float : Float ℤ
scaled_float = record {
  num = pos;
  add = λ a b. sub_ℕ (pos_part a + pos_part b) (neg_part a + neg_part b);
  sub = λ a b. sub_ℕ (pos_part a + neg_part b) (neg_part a + pos_part b);
  mul = λ a b.
      sub_ℕ (pos_part a * pos_part b + neg_part a * neg_part b)
        (pos_part a * neg_part b + neg_part a * pos_part b);
  div = divide;
  le = λ a b. leb (pos_part a + neg_part b) (pos_part b + neg_part a);
  lt = λ a b. ltb (pos_part a + neg_part b) (pos_part b + neg_part a);
  eq = λ a b. pos_part a == pos_part b && neg_part a == neg_part b;
  floor = pos_part;
}

pub ℤ-IsOrdered : IsOrdered ℤ
ℤ-IsOrdered = ground arith

ℤ-eq-le :
    (x y : ℤ)
    → (pos_part x == pos_part y && neg_part x == neg_part y) ≡ (
        leb (pos_part x + neg_part y) (pos_part y + neg_part x)
        && leb (pos_part y + neg_part x) (pos_part x + neg_part y))
ℤ-eq-le (pos a) (pos b) = ground arith
ℤ-eq-le (pos a) (negsuc b) = ground arith
ℤ-eq-le (negsuc a) (pos b) = ground arith
ℤ-eq-le (negsuc a) (negsuc b) = ground arith

pub ℤ-IsDecided : IsDecided ℤ
ℤ-IsDecided = record { eq-le = ℤ-eq-le }

quotient_mono : (a b n : ℕ) → a ≤ b → a / n ≤ b / n
quotient_mono a b n h = grind arith

pub ℤ-IsFloored : IsFloored ℤ
ℤ-IsFloored = record { floor_le = whole; div_mono = quotients }
  where
    whole :
        (x : ℤ) (n : ℕ) → 0 < n → n ≤ pos_part x → leb (n + neg_part x) (pos_part x + 0) ≡ Bool.true
    whole (pos a) n h k = ground arith
    whole (negsuc a) n h k = ground arith

    quotients :
        (x y z : ℤ)
        → leb (pos_part x + neg_part y) (pos_part y + neg_part x) ≡ Bool.true
        → ltb (0 + neg_part z) (pos_part z + 0) ≡ Bool.true
        → leb
            (pos_part (divide x z) + neg_part (divide y z))
            (pos_part (divide y z) + neg_part (divide x z))
          ≡ Bool.true
    quotients (pos a) (pos b) (pos n) h k = ground (arith, quotient_mono a b n)
    quotients (negsuc a) (negsuc b) (pos n) h k = ground (arith, quotient_mono b a n)
    quotients (negsuc a) (pos b) (pos n) h k = ground arith
    quotients (pos a) (negsuc b) (pos n) h k = ground arith
    quotients x y (negsuc n) h k = ground arith
