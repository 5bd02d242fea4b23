-- ===== src/Validator.antt =====
-- validator.py: what a plan has to satisfy before it is stored. A plan of the model has its times as
-- instants, so that the test of the time zone of `expires_at` has no counterpart.
pub mod Contradictions
pub mod Sound
pub mod Conflicts
pub mod Contradicted
pub mod Accepted
pub mod Sample
mod Tests
use ai_daytrader_sim.Prelude.{
  ℕ, ◌+◌, ◌*◌, String, Bool, true, false, not, ◌&&◌, ◌||◌, Option, none, some, List, [], ◌∷◌, ◌++◌,
  map, min, max, any, is_empty, is_some, ltb, leb, ◌==◌, str_eq, or_else, if◌then◌else◌,
}
use ai_daytrader_sim.Prelude.Dict.{Dict, lookup}
use ai_daytrader_sim.Prelude.Text.{upper, starts_with}
use ai_daytrader_sim.Prelude.Result.{Result, ok, error, ◌>>=◌, ◌>>◌, raise_if, map_error}
use ai_daytrader_sim.Float.{Float, ◌⊕◌, ◌⊖◌, ◌⊗◌, ◌⊘◌, num, le, lt}
use ai_daytrader_sim.Models.{
  Market, StrategyType, CostConfig, CandidatePlan, TradePlan, us_per_minute,
}
use ai_daytrader_sim.Models.Rule.{Operand, Predicate, RuleGroup, Groups}
use ai_daytrader_sim.MarketClock.{Calendar, force_exit_at, force_exit_time, after_open}
use Contradictions.{Contradiction, assert_no_contradictions}

-- The errors, with the symbol that each names.
pub data PlanValidationError : Type 0 where
  plan_expired created_in_future not_a_session taxes_missing expiry_date expiry_time :
      PlanValidationError
  not_allowed exchange_mismatch entry_window entry_end force_exit pullback_start opening_range
        reward_risk :
      String → PlanValidationError
  contradiction : Contradiction → PlanValidationError
  -- Python's `IndexError`
  index_error : PlanValidationError

-- `ENTRY_WINDOWS`
abbrev pub window_start : Market → ℕ
window_start Market.kr = (9 * 60 + 10) * us_per_minute
window_start Market.us = (9 * 60 + 40) * us_per_minute

abbrev pub window_end : Market → ℕ
window_end m = (14 * 60 + 30) * us_per_minute

abbrev pub references : {R : Type 0} → List (Predicate R) → List String
references [] = []
references (p ∷ ps) = elim p.value [
  | Operand.literal v ↦ references ps
  | Operand.reference name ↦ name ∷ references ps
]

abbrev pub indicators : {R : Type 0} → List (Predicate R) → List String
indicators [] = []
indicators (p ∷ ps) = p.indicator ∷ indicators ps

unfoldable mutual
  -- The set of the indicators that a group names, with repetitions.
  pub rule_indicators : {R : Type 0} → RuleGroup R → List String
  rule_indicators (RuleGroup.group mode ps gs) =
      indicators ps ++ references ps ++ groups_indicators gs

  pub groups_indicators : {R : Type 0} → Groups R → List String
  groups_indicators Groups.nil = []
  groups_indicators (Groups.cons g gs) = rule_indicators g ++ groups_indicators gs

-- `f"opening_range_{minutes}_"` for the three ranges.
abbrev pub opening_range_prefixes : List (ℕ × String)
opening_range_prefixes =
    (5, "opening_range_5_") ∷ (10, "opening_range_10_") ∷ (15, "opening_range_15_") ∷ []

abbrev pub mentions : String → List String → Bool
mentions prefix [] = false
mentions prefix (name ∷ names) = starts_with name prefix || mentions prefix names

-- The largest range that a group names, with 0 for none.
abbrev pub widest : List (ℕ × String) → List String → ℕ
widest [] names = 0
widest ((minutes, prefix) ∷ ranges) names =
    let rest = widest ranges names in if mentions prefix names then max minutes rest else rest

-- The exchange of each symbol that may be traded, by market.
abbrev pub Universe : Type 0
Universe = Market → Dict String

module _ {R : Type 0} ⦃f : Float R⦄ (c : Calendar) where
  -- The part of the loop that depends on the strategy.
  unfoldable pub validate_strategy :
      TradePlan R → CandidatePlan R → String → Result PlanValidationError (Unit {0})
  unfolding rule_indicators after_open assert_no_contradictions
  validate_strategy plan candidate symbol =
      let widest_range = widest opening_range_prefixes (rule_indicators candidate.entry.rules) in
      let ready_at : ℕ → ℕ = after_open c plan.market plan.trade_date in
      elim candidate.strategy_type [
        | StrategyType.pullback_rebreak ↦
            raise_if (ltb candidate.entry.start_time (ready_at 5)) (pullback_start symbol)
        | StrategyType.rules ↦ if candidate.entry.price_only then ok tt else do
          raise_if (ltb 0 widest_range && ltb candidate.entry.start_time (ready_at widest_range))
              (opening_range symbol)
          map_error contradiction (assert_no_contradictions candidate.entry.rules)
      ]

  -- The body of the loop over the candidates.
  unfoldable pub validate_candidate :
      Dict String → TradePlan R → CandidatePlan R → Result PlanValidationError (Unit {0})
  unfolding force_exit_time validate_strategy upper
  validate_candidate allowed plan candidate =
      let symbol = upper candidate.symbol in
      let forced = force_exit_time c plan.market plan.trade_date in
      let latest = min (window_end plan.market) forced in
      let start = candidate.entry.start_time in
      let end = candidate.entry.end_time in
      elim (lookup symbol allowed) [
        | none ↦ error (not_allowed symbol)
        | some exchange ↦ do
          raise_if (not (str_eq (upper candidate.exchange) (upper exchange)))
              (exchange_mismatch symbol)
          raise_if (ltb start (window_start plan.market) || ltb latest end) (entry_window symbol)
          raise_if (leb forced end) (entry_end symbol)
          raise_if (not (candidate.force_exit_time == forced)) (force_exit symbol)
          validate_strategy plan candidate symbol
      ]

  unfoldable pub validate_candidates :
      Dict String → TradePlan R → List (CandidatePlan R) → Result PlanValidationError (Unit {0})
  unfolding validate_candidate
  validate_candidates allowed plan [] = ok tt
  validate_candidates allowed plan (candidate ∷ rest) = do
    validate_candidate allowed plan candidate
    validate_candidates allowed plan rest

module _ {R : Type 0} ⦃f : Float R⦄ (cost : CostConfig R) where
  unfoldable pub net_sale_price : R → R
  net_sale_price price =
      let bps =
        cost.commission_bps_each_side
        ⊕ cost.slippage_bps_each_side
        ⊕ cost.fx_bps_each_side
        ⊕ or_else cost.sell_tax_bps (num 0) in
      price ⊗ (num 1 ⊖ bps ⊘ num 10_000)

  unfoldable pub worst_entry : CandidatePlan R → R
  worst_entry candidate =
      candidate.entry.limit_price
      ⊗ (num 1 ⊕ (cost.commission_bps_each_side ⊕ cost.fx_bps_each_side) ⊘ num 10_000)

  unfoldable pub expected_stop : CandidatePlan R → R
  unfolding net_sale_price
  expected_stop candidate =
      let stop = candidate.stop_loss in
      net_sale_price (stop.price ⊗ (num 1 ⊖ stop.limit_offset_pct ⊘ num 100))

  -- The body of the loop of `_validate_cost_adjusted_reward_risk`.
  unfoldable pub validate_reward_risk : CandidatePlan R → Result PlanValidationError (Unit {0})
  unfolding worst_entry expected_stop net_sale_price
  validate_reward_risk candidate = elim candidate.take_profit [
    | [] ↦ error index_error
    | target ∷ targets ↦
        let risk = worst_entry candidate ⊖ expected_stop candidate in
        let reward = net_sale_price target.price ⊖ worst_entry candidate in
        raise_if (le risk (num 0) || lt (reward ⊘ risk) (num 3 ⊘ num 2))
          (reward_risk candidate.symbol)
  ]

  unfoldable pub validate_reward_risks :
      List (CandidatePlan R) → Result PlanValidationError (Unit {0})
  unfolding validate_reward_risk
  validate_reward_risks [] = ok tt
  validate_reward_risks (candidate ∷ rest) = do
    validate_reward_risk candidate
    validate_reward_risks rest

-- `now` is the time of the call.
unfoldable pub validate_plan :
    {R : Type 0} ⦃f : Float R⦄
    → Calendar
    → (now : ℕ) → Universe
    → (Market → CostConfig R)
    → TradePlan R
    → Result PlanValidationError (Unit {0})
unfolding force_exit_at validate_candidates validate_reward_risks
validate_plan c now universe costs plan = do
  raise_if (leb plan.expires_at now) plan_expired
  raise_if (ltb (now + us_per_minute) plan.created_at) created_in_future
  raise_if (not (c.is_session plan.market plan.trade_date)) not_a_session
  raise_if (not (is_some (costs plan.market).sell_tax_bps)) taxes_missing
  raise_if (not (c.local_date plan.market plan.expires_at == plan.trade_date)) expiry_date
  raise_if
      (not (
        leb (force_exit_at c plan.market plan.trade_date) plan.expires_at
        && leb plan.expires_at (c.session_close plan.market plan.trade_date)))
      expiry_time
  validate_candidates c (universe plan.market) plan plan.approved_symbols
  validate_reward_risks (costs plan.market) plan.approved_symbols
