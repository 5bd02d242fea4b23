-- ===== src/Repository/Days.antt =====
-- The key of the codes and the plans, a market and a date.
use ai_daytrader_sim.Prelude.{ℕ, ◌≡◌, refl, true, false, arith, inl, inr, Bool-cases}
use ai_daytrader_sim.Models.{Market, same_market}
use ai_daytrader_sim.Repository.Nonces.{same_key}

same_market-eq : (m n : Market) → same_market m n ≡ true → m ≡ n
same_market-eq Market.kr Market.kr h = refl
same_market-eq Market.kr Market.us h = cc
same_market-eq Market.us Market.kr h = cc
same_market-eq Market.us Market.us h = refl

pub same_key_refl : (m : Market) (date : ℕ) → same_key m date m date ≡ true
unfolding same_key
same_key_refl Market.kr date = ground arith
same_key_refl Market.us date = ground arith

pub same_key-eq :
    (m n : Market) (date day : ℕ) → same_key m date n day ≡ true → (m ≡ n) × (date ≡ day)
unfolding same_key
same_key-eq m n date day h = elim (Bool-cases (same_market m n)) [
  | inl e ↦ (same_market-eq m n e, ground arith)
  | inr e ↦ ground arith
]

pub same_key-change :
    (m : Market) (date : ℕ) {a b : Market} {x y : ℕ}
    → (a ≡ b) × (x ≡ y)
    → same_key b y m date ≡ false
    → same_key a x m date ≡ false
same_key-change m date (p, q) h = rw (p, q) h

pub same_key-join :
    (m : Market) (date : ℕ) (a b : Market) (x y : ℕ)
    → same_key a x m date ≡ true
    → same_key b y m date ≡ true
    → same_key a x b y ≡ true
same_key-join m date a b x y h k = let (p, q) = same_key-eq b m y date k in rw (p, q) h
