-- ===== src/Models/Checks.antt =====
-- models.py: the validators of the models that a plan is made of. The bounds of single fields are the
-- data model library's.
use ai_daytrader_sim.Prelude.{
  ℕ, suc, ◌+◌, ◌*◌, String, Bool, true, false, not, ◌&&◌, ◌||◌, Option, some, List, [], ◌∷◌,
  is_empty, is_some, ltb, leb, ◌==◌, str_eq, if◌then◌else◌,
}
use ai_daytrader_sim.Prelude.Text.{upper}
use ai_daytrader_sim.Prelude.Result.{Result, ok, error, ◌>>=◌, ◌>>◌, raise_if}
use ai_daytrader_sim.Float.{Float, ◌⊖◌, ◌⊗◌, ◌⊘◌, num, le, lt, feq}
use ai_daytrader_sim.Models.{
  StrategyType, TakeProfitSpec, EntrySpec, PullbackRebreakSpec, CandidatePlan, TradePlan,
  us_per_minute,
}
use ai_daytrader_sim.Models.Rule.{RuleGroup, Groups}

-- The `ValueError`s, one for each message.
pub data ModelError : Type 0 where
  nesting empty_group window limit_below_trigger price_only_rules : ModelError
  depth_range minutes_range pullback_rsi rebreak_rsi : ModelError
  empty_rules pullback_config pullback_rules stop_above_trigger duplicate_targets targets_order
        target_total reward_risk stop_distance :
      ModelError
  duplicate_symbols : ModelError
  -- Python's `IndexError`
  index_error : ModelError

abbrev pub no_groups : {R : Type 0} → Groups R → Bool
no_groups Groups.nil = true
no_groups (Groups.cons g gs) = false

-- `RuleGroup.empty`
abbrev pub empty_rule : {R : Type 0} → RuleGroup R → Bool
empty_rule (RuleGroup.group mode ps gs) = is_empty ps && no_groups gs

unfoldable mutual
  pub validate_depth : {R : Type 0} → RuleGroup R → ℕ → Result ModelError (Unit {0})
  validate_depth (RuleGroup.group mode ps gs) depth =
      raise_if (ltb 4 depth) ModelError.nesting >> validate_groups gs depth

  pub validate_groups : {R : Type 0} → Groups R → ℕ → Result ModelError (Unit {0})
  validate_groups Groups.nil depth = ok tt
  validate_groups (Groups.cons g gs) depth =
      raise_if (empty_rule g) ModelError.empty_group
      >> (validate_depth g (suc depth) >> validate_groups gs depth)

abbrev pub total_pct : {R : Type 0} → List (TakeProfitSpec R) → ℕ
total_pct [] = 0
total_pct (t ∷ ts) = t.quantity_pct + total_pct ts

abbrev pub among : String → List String → Bool
among s [] = false
among s (t ∷ ts) = str_eq s t || among s ts

-- `len(set(symbols)) != len(symbols)`
abbrev pub repeats : List String → Bool
repeats [] = false
repeats (s ∷ ss) = among s ss || repeats ss

abbrev pub symbols : {R : Type 0} → List (CandidatePlan R) → List String
symbols [] = []
symbols (c ∷ cs) = upper c.symbol ∷ symbols cs

-- `TradePlan.validate_plan_identity`; the times of the model have a time zone.
unfoldable pub validate_plan_identity : {R : Type 0} → TradePlan R → Result ModelError (Unit {0})
validate_plan_identity plan =
    raise_if (repeats (symbols plan.approved_symbols)) ModelError.duplicate_symbols

module _ {R : Type 0} ⦃f : Float R⦄ where
  -- `EntrySpec.validate_window`
  unfoldable pub validate_window : EntrySpec R → Result ModelError (Unit {0})
  unfolding validate_depth
  validate_window entry = do
    raise_if (leb entry.end_time entry.start_time) ModelError.window
    raise_if (lt entry.limit_price entry.trigger_price) ModelError.limit_below_trigger
    raise_if (entry.price_only && not (empty_rule entry.rules)) ModelError.price_only_rules
    validate_depth entry.rules 1

  -- `PullbackRebreakSpec.validate_ranges`
  unfoldable pub validate_ranges : PullbackRebreakSpec R → Result ModelError (Unit {0})
  validate_ranges spec = do
    raise_if (le spec.pullback_depth_atr_max spec.pullback_depth_atr_min) ModelError.depth_range
    raise_if (leb spec.pullback_max spec.pullback_min) ModelError.minutes_range
    raise_if (lt spec.pullback_rsi_max spec.pullback_rsi_min) ModelError.pullback_rsi
    raise_if (lt spec.rebreak_rsi_max spec.rebreak_rsi_min) ModelError.rebreak_rsi

  -- `PullbackRebreakSpec()`
  abbrev pub default_pullback : PullbackRebreakSpec R
  default_pullback = record {
    breakout_confirm_ticks = 3;
    breakout_hold_ms = 1000;
    breakout_relative_volume_min = num 3 ⊘ num 2;
    pullback_depth_atr_min = num 2 ⊘ num 10;
    pullback_depth_atr_max = num 8 ⊘ num 10;
    pullback_min = 2 * us_per_minute;
    pullback_max = 10 * us_per_minute;
    pullback_rsi_min = num 45;
    pullback_rsi_max = num 60;
    pullback_volume_ratio_max = num 7 ⊘ num 10;
    support_breach_pct_max = num 15 ⊘ num 100;
    rebreak_rsi_min = num 50;
    rebreak_rsi_max = num 68;
    rebreak_relative_volume_min = num 13 ⊘ num 10;
    spread_pct_max = num 15 ⊘ num 100;
    require_market_above_vwap = true;
  }

  abbrev pub priced : R → List (TakeProfitSpec R) → Bool
  priced x [] = false
  priced x (t ∷ ts) = feq x t.price || priced x ts

  -- `len(set(prices)) != len(prices)`
  abbrev pub repeated : List (TakeProfitSpec R) → Bool
  repeated [] = false
  repeated (t ∷ ts) = priced t.price ts || repeated ts

  -- `prices != sorted(prices)`: some price is below the one before it
  abbrev pub unsorted_after : R → List (TakeProfitSpec R) → Bool
  unsorted_after x [] = false
  unsorted_after x (t ∷ ts) = lt t.price x || unsorted_after t.price ts

  -- The tests of the strategy, of whether the entry is by price only and of whether its rules are
  -- empty, with the config that the plan then has.
  abbrev pub validate_config :
      StrategyType
      → Bool
      → Bool
      → Option (PullbackRebreakSpec R)
      → Result ModelError (Option (PullbackRebreakSpec R))
  validate_config StrategyType.rules price_only no_rules spec =
      raise_if (not price_only && no_rules) ModelError.empty_rules
      >> (raise_if (is_some spec) ModelError.pullback_config >> ok spec)
  validate_config StrategyType.pullback_rebreak price_only no_rules spec =
      raise_if (price_only || not no_rules) ModelError.pullback_rules
      >> ok (if is_some spec then spec else some default_pullback)

  -- The tests of the prices, from `self.stop_loss.price` on.
  abbrev pub validate_targets : R → R → R → List (TakeProfitSpec R) → Result ModelError (Unit {0})
  validate_targets trigger limit stop [] = error ModelError.index_error
  validate_targets trigger limit stop (t ∷ ts) = do
    raise_if (le trigger stop) ModelError.stop_above_trigger
    raise_if (repeated (t ∷ ts)) ModelError.duplicate_targets
    raise_if (unsorted_after t.price ts || le t.price limit) ModelError.targets_order
    raise_if (not (total_pct (t ∷ ts) == 100)) ModelError.target_total
    raise_if (lt ((t.price ⊖ limit) ⊘ (limit ⊖ stop)) (num 3 ⊘ num 2)) ModelError.reward_risk
    raise_if
        (not (
          le (num 1 ⊘ num 4) ((limit ⊖ stop) ⊘ limit ⊗ num 100)
          && le ((limit ⊖ stop) ⊘ limit ⊗ num 100) (num 3)))
        ModelError.stop_distance

  -- `CandidatePlan.validate_prices`, with the plan as it leaves it.
  unfoldable pub validate_prices : CandidatePlan R → Result ModelError (CandidatePlan R)
  unfolding upper
  validate_prices c = do
    config ←
        validate_config c.strategy_type c.entry.price_only (empty_rule c.entry.rules)
          c.pullback_rebreak
    validate_targets c.entry.trigger_price c.entry.limit_price c.stop_loss.price c.take_profit
    ok (record c {
      symbol = upper c.symbol;
      exchange = upper c.exchange;
      pullback_rebreak = config;
    })
