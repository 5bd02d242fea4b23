-- ===== src/Broker/Targets.antt =====
-- `_allocate_targets`: the shares of a position over its profit targets.
use ai_daytrader_sim.Prelude.{
  ℕ, ◌+◌, ◌-◌, ◌*◌, ◌/◌, ◌≤◌, ◌≡◌, refl, ap, ◌∙◌, List, [], ◌∷◌, min, arith, is_empty,
  if◌then◌else◌,
}
use ai_daytrader_sim.Broker.Fills.{allocate_from, allocate_targets}

abbrev pub total {ℓ} : {P : Type ℓ} → List (P × ℕ) → ℕ
total [] = 0
total ((price, n) ∷ ts) = n + total ts

abbrev pub prices {ℓ} : {P : Type ℓ} → List (P × ℕ) → List P
prices [] = []
prices ((price, n) ∷ ts) = price ∷ prices ts

-- Each target but the last gets its percentage of the quantity, rounded up, while shares are left.
abbrev pub Shares {ℓ} : {P : Type ℓ} → ℕ → ℕ → List (P × ℕ) → List (P × ℕ) → Type 0
Shares quantity left ((_, pct) ∷ s ∷ specs) ((_, n) ∷ ts) =
    (n ≡ min left ((quantity * pct + 99) / 100)) × Shares quantity (left - n) (s ∷ specs) ts
Shares quantity left _ _ = Unit

module _ {ℓ} {P : Type ℓ} where
  allocate_from-prices :
      (quantity allocated : ℕ) (specs : List (P × ℕ))
      → prices (allocate_from quantity allocated specs) ≡ prices specs
  unfolding allocate_from
  allocate_from-prices quantity allocated [] = refl
  allocate_from-prices quantity allocated ((price, pct) ∷ specs) =
      let n =
        if is_empty specs
        then quantity - allocated
        else min (quantity - allocated) ((quantity * pct + 99) / 100) in
      ap (◌∷◌ price) (allocate_from-prices quantity (allocated + n) specs)

  allocate_from-total :
      (quantity allocated : ℕ) (spec : P × ℕ) (specs : List (P × ℕ))
      → allocated ≤ quantity
      → total (allocate_from quantity allocated (spec ∷ specs)) ≡ quantity - allocated
  unfolding allocate_from
  allocate_from-total quantity allocated spec [] h = omega arith
  allocate_from-total quantity allocated spec (next ∷ specs) h =
      let n = min (quantity - allocated) ((quantity * spec.1 + 99) / 100) in
      let rest = allocate_from-total quantity (allocated + n) next specs (omega arith) in
      omega (arith, rest)

  allocate_from-Shares :
      (quantity allocated left : ℕ) (specs : List (P × ℕ))
      → quantity - allocated ≡ left
      → Shares quantity left specs (allocate_from quantity allocated specs)
  unfolding allocate_from
  allocate_from-Shares quantity allocated left [] e = tt
  allocate_from-Shares quantity allocated left (spec ∷ []) e = tt
  allocate_from-Shares quantity allocated left (spec ∷ next ∷ specs) e =
      let n = min (quantity - allocated) ((quantity * spec.1 + 99) / 100) in
      (
        ap (λ m. min m ((quantity * spec.1 + 99) / 100)) e,
        allocate_from-Shares quantity (allocated + n) (left - n) (next ∷ specs) (omega arith),
      )

  -- The targets of a position keep the prices of the plan in their order and share out exactly the
  -- quantity: each target but the last gets its percentage rounded up, or what is left if that is
  -- less, and the last one gets the rest.
  pub allocate_targets-share_out :
      (quantity : ℕ) (spec : P × ℕ) (specs : List (P × ℕ))
      → let targets = allocate_targets quantity (spec ∷ specs) in
        (prices targets ≡ prices (spec ∷ specs))
        × (total targets ≡ quantity)
        × Shares quantity quantity (spec ∷ specs) targets
  unfolding allocate_targets
  allocate_targets-share_out quantity spec specs =
      let all_left : quantity - 0 ≡ quantity = omega arith in
      (
        allocate_from-prices quantity 0 (spec ∷ specs),
        allocate_from-total quantity 0 spec specs (omega arith) ∙ all_left,
        allocate_from-Shares quantity 0 quantity (spec ∷ specs) all_left,
      )
