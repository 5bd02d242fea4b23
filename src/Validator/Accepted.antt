-- ===== src/Validator/Accepted.antt =====
-- What an accepted plan is.
use ai_daytrader_sim.Prelude.{
  ℕ, ◌+◌, ◌≤◌, ◌<◌, String, ◌≡◌, ◌⊎◌, ◌↔◌, refl, ap, sym, ◌∙◌, Bool, true, false, not, ◌&&◌, ◌||◌,
  some, List, [], ◌∷◌, min, is_some, ltb, leb, ◌==◌, str_eq, eq_iff, or_else, All, arith, inl, inr,
  Bool-cases, Option-cases,
}
use ai_daytrader_sim.Prelude.Dict.{Dict, lookup}
use ai_daytrader_sim.Prelude.Text.{upper}
use ai_daytrader_sim.Prelude.Result.{
  Result, ok, error, ◌>>◌, raise_if, map_error, is_ok, raise_if-ok, step-ok,
}
use ai_daytrader_sim.Float.{Float, ◌⊖◌, ◌⊘◌, num, le, lt}
use ai_daytrader_sim.Models.{
  Market, StrategyType, CostConfig, CandidatePlan, TakeProfitSpec, TradePlan, us_per_minute,
}
use ai_daytrader_sim.MarketClock.{Calendar, force_exit_at, force_exit_time, after_open}
use ai_daytrader_sim.Validator.Contradictions.{Contradiction, assert_no_contradictions}
use ai_daytrader_sim.Validator.{
  PlanValidationError, Universe, window_start, window_end, widest, opening_range_prefixes,
  rule_indicators, validate_strategy, validate_candidate, validate_candidates, net_sale_price,
  worst_entry, expected_stop, validate_reward_risk, validate_reward_risks, validate_plan,
}

-- A test that raises at the end of a chain, read as the condition for going on.
raise-or :
    (a b : Bool) (e : PlanValidationError)
    → (is_ok (raise_if (a || b) e) ≡ true) ↔ ((a ≡ false) × (b ≡ false))
raise-or true b e = (λ h. cc h, λ h. cc (h.0))
raise-or false true e = (λ h. cc h, λ h. cc (h.1))
raise-or false false e = (λ h. (refl, refl), λ h. refl)

raise-ltb : (a b : ℕ) (e : PlanValidationError) → (is_ok (raise_if (ltb a b) e) ≡ true) ↔ (b ≤ a)
raise-ltb a b e = elim (Bool-cases (ltb a b)) [
  | inl t ↦ rw t (λ h. cc h, λ h. ground arith)
  | inr t ↦ rw t (λ h. ground arith, λ h. refl)
]

map_error-ok :
    (g : Contradiction → PlanValidationError) (m : Result Contradiction (Unit {0}))
    → is_ok (map_error g m) ≡ is_ok m
map_error-ok g (ok u) = refl
map_error-ok g (error e) = refl

-- Four tests that raise, one after the other, before the rest.
four-ok :
    (a b c d : Bool) (p q r s : PlanValidationError) (k : Result PlanValidationError (Unit {0}))
    → (is_ok (raise_if a p >> (raise_if b q >> (raise_if c r >> (raise_if d s >> k)))) ≡ true)
      ↔ ((a ≡ false) × (b ≡ false) × (c ≡ false) × (d ≡ false) × (is_ok k ≡ true))
four-ok true b c d p q r s k = (λ h. cc h, λ h. cc (h.0))
four-ok false true c d p q r s k = (λ h. cc h, λ h. cc (h.1))
four-ok false false true d p q r s k = (λ h. cc h, λ h. cc (h.2))
four-ok false false false true p q r s k = (λ h. cc h, λ h. cc (h.3))
four-ok false false false false p q r s k = (λ h. (refl, refl, refl, refl, h), λ h. h.4)

-- The test of the opening range, and the check that follows it.
range_iff :
    (range start ready : ℕ) (e : PlanValidationError) (k : Result PlanValidationError (Unit {0}))
    → (is_ok (raise_if (ltb 0 range && ltb start ready) e >> k) ≡ true)
      ↔ (((range ≡ 0) ⊎ (ready ≤ start)) × (is_ok k ≡ true))
range_iff range start ready e k =
    let step = raise_if-ok (ltb 0 range && ltb start ready) e k in
    (
      λ h. let (a, b) = step.0 h in (ground arith, b),
      λ h. let (a, b) = h in step.1 (ground arith, b),
    )

module _ {R : Type 0} ⦃f : Float R⦄ (c : Calendar) where
  -- What the strategy of a candidate asks for.
  abbrev pub StrategyOk : TradePlan R → CandidatePlan R → StrategyType → Type 0
  StrategyOk plan candidate StrategyType.pullback_rebreak =
      after_open c plan.market plan.trade_date 5 ≤ candidate.entry.start_time
  StrategyOk plan candidate StrategyType.rules =
      let range = widest opening_range_prefixes (rule_indicators candidate.entry.rules) in
      (candidate.entry.price_only ≡ true)
      ⊎ (((range ≡ 0)
            ⊎ (after_open c plan.market plan.trade_date range ≤ candidate.entry.start_time))
          × (is_ok (assert_no_contradictions candidate.entry.rules) ≡ true))

  -- A candidate that may be traded: an allowed symbol on its exchange, a window of entry within the
  -- hours of its market that ends before the forced exit, and the calendar's time of forced exit.
  abbrev pub CandidateOk : Dict String → TradePlan R → CandidatePlan R → Type 0
  CandidateOk allowed plan candidate =
      let forced = force_exit_time c plan.market plan.trade_date in
      (exchange : String) × (lookup (upper candidate.symbol) allowed ≡ some exchange)
      × (upper candidate.exchange ≡ upper exchange)
      × (window_start plan.market ≤ candidate.entry.start_time)
      × (candidate.entry.end_time ≤ window_end plan.market)
      × (candidate.entry.end_time < forced)
      × (candidate.force_exit_time ≡ forced)
      × StrategyOk plan candidate candidate.strategy_type

  -- The first target pays at least 1.5 times the risk, after costs and from the worst entry.
  abbrev pub RewardOk : CostConfig R → CandidatePlan R → List (TakeProfitSpec R) → Type 0
  RewardOk cost candidate [] = ⊥
  RewardOk cost candidate (target ∷ targets) =
      let risk = worst_entry cost candidate ⊖ expected_stop cost candidate in
      let reward = net_sale_price cost target.price ⊖ worst_entry cost candidate in
      (le risk (num 0) ≡ false) × (lt (reward ⊘ risk) (num 3 ⊘ num 2) ≡ false)

  validate_strategy_iff :
      (plan : TradePlan R) (candidate : CandidatePlan R) (symbol : String)
      → (is_ok (validate_strategy c plan candidate symbol) ≡ true)
        ↔ StrategyOk plan candidate candidate.strategy_type
  unfolding validate_strategy
  validate_strategy_iff plan candidate symbol = go candidate.strategy_type refl
    where
      go :
          (s : StrategyType)
          → candidate.strategy_type ≡ s
          → (is_ok (validate_strategy c plan candidate symbol) ≡ true) ↔ StrategyOk plan candidate s
      go StrategyType.pullback_rebreak h =
          rw (h, validate_strategy)
            (raise-ltb candidate.entry.start_time (after_open c plan.market plan.trade_date 5)
              (PlanValidationError.pullback_start symbol))
      go StrategyType.rules h =
          let rules = candidate.entry.rules in
          let range = widest opening_range_prefixes (rule_indicators rules) in
          let rest = map_error PlanValidationError.contradiction (assert_no_contradictions rules) in
          let both =
            range_iff range candidate.entry.start_time
              (after_open c plan.market plan.trade_date range)
              (PlanValidationError.opening_range symbol) rest in
          let same =
            map_error-ok PlanValidationError.contradiction (assert_no_contradictions rules) in
          elim (Bool-cases candidate.entry.price_only) [
            | inl e ↦ rw (h, validate_strategy, e) (λ k. inl refl, λ k. refl)
            | inr e ↦
                rw (h, validate_strategy, e)
                  (
                    λ k. let (a, b) = both.0 k in inr (a, sym same ∙ b),
                    λ k. elim k [ inl n ↦ cc n | inr (a, b) ↦ both.1 (a, same ∙ b) ],
                  )
          ]

  validate_candidate_iff :
      (allowed : Dict String) (plan : TradePlan R) (candidate : CandidatePlan R)
      → (is_ok (validate_candidate c allowed plan candidate) ≡ true)
        ↔ CandidateOk allowed plan candidate
  unfolding validate_candidate
  validate_candidate_iff allowed plan candidate =
      let symbol = upper candidate.symbol in
      let forced = force_exit_time c plan.market plan.trade_date in
      let start = candidate.entry.start_time in
      let end = candidate.entry.end_time in
      let checks = λ (exchange : String).
        four-ok (not (str_eq (upper candidate.exchange) (upper exchange)))
          (ltb start (window_start plan.market) || ltb (min (window_end plan.market) forced) end)
          (leb forced end) (not (candidate.force_exit_time == forced))
          (PlanValidationError.exchange_mismatch symbol) (PlanValidationError.entry_window symbol)
          (PlanValidationError.entry_end symbol) (PlanValidationError.force_exit symbol)
          (validate_strategy c plan candidate symbol) in
      let strategy = validate_strategy_iff plan candidate symbol in
      elim (Option-cases (lookup symbol allowed)) [
        | inl e ↦ rw (e, validate_candidate) (λ h. cc h, λ h. cc (h.1))
        | inr (exchange, e) ↦
            rw (e, validate_candidate)
              (
                λ h.
                    let (x, w, l, t, k) = (checks exchange).0 h in
                    (
                      exchange,
                      refl,
                      (eq_iff (upper candidate.exchange) (upper exchange)).0 (ground arith),
                      ground arith,
                      ground arith,
                      ground arith,
                      ground arith,
                      strategy.0 k,
                    ),
                λ h.
                    let (other, q, x, w, l, t, z, k) = h in
                    let same : exchange ≡ other = ap (λ o. or_else o exchange) q in
                    (checks exchange).1 (
                      ap not (
                          (eq_iff (upper candidate.exchange) (upper exchange)).1
                            (x ∙ ap upper (sym same))),
                      ground arith,
                      ground arith,
                      ground arith,
                      strategy.1 k,
                    ),
              )
      ]

  validate_candidates_iff :
      (allowed : Dict String) (plan : TradePlan R) (candidates : List (CandidatePlan R))
      → (is_ok (validate_candidates c allowed plan candidates) ≡ true)
        ↔ All (CandidateOk allowed plan) candidates
  unfolding validate_candidates
  validate_candidates_iff allowed plan [] = (λ h. tt, λ h. refl)
  validate_candidates_iff allowed plan (x ∷ xs) =
      let step =
        step-ok (validate_candidate c allowed plan x) (validate_candidates c allowed plan xs) in
      let first = validate_candidate_iff allowed plan x in
      let rest = validate_candidates_iff allowed plan xs in
      (
        λ h. let (a, b) = step.0 h in (first.0 a, rest.0 b),
        λ h. step.1 (first.1 (h.0), rest.1 (h.1)),
      )

  validate_reward_risk_iff :
      (cost : CostConfig R) (candidate : CandidatePlan R)
      → (is_ok (validate_reward_risk cost candidate) ≡ true)
        ↔ RewardOk cost candidate candidate.take_profit
  unfolding validate_reward_risk
  validate_reward_risk_iff cost candidate = go candidate.take_profit refl
    where
      go :
          (targets : List (TakeProfitSpec R))
          → candidate.take_profit ≡ targets
          → (is_ok (validate_reward_risk cost candidate) ≡ true) ↔ RewardOk cost candidate targets
      go [] h = rw (h, validate_reward_risk) (λ k. cc k, λ k. absurd k)
      go (target ∷ targets) h =
          let risk = worst_entry cost candidate ⊖ expected_stop cost candidate in
          let reward = net_sale_price cost target.price ⊖ worst_entry cost candidate in
          rw (h, validate_reward_risk)
            (raise-or (le risk (num 0)) (lt (reward ⊘ risk) (num 3 ⊘ num 2))
              (PlanValidationError.reward_risk candidate.symbol))

  validate_reward_risks_iff :
      (cost : CostConfig R) (candidates : List (CandidatePlan R))
      → (is_ok (validate_reward_risks cost candidates) ≡ true)
        ↔ All (λ x. RewardOk cost x x.take_profit) candidates
  unfolding validate_reward_risks
  validate_reward_risks_iff cost [] = (λ h. tt, λ h. refl)
  validate_reward_risks_iff cost (x ∷ xs) =
      let step = step-ok (validate_reward_risk cost x) (validate_reward_risks cost xs) in
      let first = validate_reward_risk_iff cost x in
      let rest = validate_reward_risks_iff cost xs in
      (
        λ h. let (a, b) = step.0 h in (first.0 a, rest.0 b),
        λ h. step.1 (first.1 (h.0), rest.1 (h.1)),
      )

  -- The plan as a whole, at the time `now`.
  abbrev pub PlanOk : ℕ → Universe → (Market → CostConfig R) → TradePlan R → Type 0
  PlanOk now universe costs plan =
      (now < plan.expires_at)
      × (plan.created_at ≤ now + us_per_minute)
      × (c.is_session plan.market plan.trade_date ≡ true)
      × (is_some (costs plan.market).sell_tax_bps ≡ true)
      × (c.local_date plan.market plan.expires_at ≡ plan.trade_date)
      × (force_exit_at c plan.market plan.trade_date ≤ plan.expires_at)
      × (plan.expires_at ≤ c.session_close plan.market plan.trade_date)
      × All (CandidateOk (universe plan.market) plan) plan.approved_symbols
      × All (λ x. RewardOk (costs plan.market) x x.take_profit) plan.approved_symbols

  -- The validator accepts exactly the plans that meet the conditions of trading: it is not expired,
  -- its expiry lies between the forced exit and the close of an official session on its date, the
  -- sell taxes are configured, every candidate may be traded in its window, before the forced exit
  -- and by its strategy, and pays at least 1.5 times its risk after costs.
  pub validate_plan-accepts :
      (now : ℕ) (universe : Universe) (costs : Market → CostConfig R) (plan : TradePlan R)
      → (is_ok (validate_plan c now universe costs plan) ≡ true) ↔ PlanOk now universe costs plan
  unfolding validate_plan
  validate_plan-accepts now universe costs plan =
      let m = plan.market in
      let date = plan.trade_date in
      let cost = costs m in
      let candidates = validate_candidates c (universe m) plan plan.approved_symbols in
      let rewards = validate_reward_risks cost plan.approved_symbols in
      let first =
        four-ok (leb plan.expires_at now) (ltb (now + us_per_minute) plan.created_at)
          (not (c.is_session m date)) (not (is_some cost.sell_tax_bps))
          PlanValidationError.plan_expired PlanValidationError.created_in_future
          PlanValidationError.not_a_session PlanValidationError.taxes_missing
          (raise_if (not (c.local_date m plan.expires_at == date)) PlanValidationError.expiry_date
            >> (raise_if
                  (not (
                    leb (force_exit_at c m date) plan.expires_at
                    && leb plan.expires_at (c.session_close m date)))
                  PlanValidationError.expiry_time
                >> (candidates >> rewards))) in
      let second =
        raise_if-ok (not (c.local_date m plan.expires_at == date)) PlanValidationError.expiry_date (
          raise_if
            (not (
              leb (force_exit_at c m date) plan.expires_at
              && leb plan.expires_at (c.session_close m date)))
            PlanValidationError.expiry_time
          >> (candidates >> rewards)) in
      let third =
        raise_if-ok
          (not (
            leb (force_exit_at c m date) plan.expires_at
            && leb plan.expires_at (c.session_close m date)))
          PlanValidationError.expiry_time (candidates >> rewards) in
      let both = step-ok candidates rewards in
      let all = validate_candidates_iff (universe m) plan plan.approved_symbols in
      let paid = validate_reward_risks_iff cost plan.approved_symbols in
      (
        λ h.
            let (x, y, z, w, k) = first.0 h in
            let (u, l) = second.0 k in
            let (v, r) = third.0 l in
            let (p, q) = both.0 r in
            (
              ground arith,
              ground arith,
              ground arith,
              ground arith,
              ground arith,
              ground arith,
              ground arith,
              all.0 p,
              paid.0 q,
            ),
        λ h.
            let (x, y, z, w, u, v, t, p, q) = h in
            first.1 (
              ground arith,
              ground arith,
              ap not z,
              ap not w,
              second.1 (ground arith, third.1 (ground arith, both.1 (all.1 p, paid.1 q))),
            ),
      )
