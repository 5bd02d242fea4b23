-- ===== src/Engine/Ready.antt =====
-- engine.py: `_indicators_ready` and the other gates that an entry has to pass.
use ai_daytrader_sim.Prelude.{
  ℕ, ◌+◌, ◌*◌, String, ◌<>◌, Bool, true, false, not, ◌&&◌, ◌||◌, none, some, List, [], ◌∷◌, ◌++◌,
  max, ltb, leb, str_eq, is_some, or_else, if◌then◌else◌,
}
use ai_daytrader_sim.Prelude.Dict.{lookup}
use ai_daytrader_sim.Prelude.Text.{starts_with, find?}
use ai_daytrader_sim.Float.{Float, lt, feq}
use ai_daytrader_sim.Models.{
  Market, StrategyType, CandidatePlan, MarketTick, CostConfig, is_open, is_trading, is_normal,
  is_regular, is_consolidated, us_per_second,
}
use ai_daytrader_sim.MarketClock.{Calendar}
use ai_daytrader_sim.Validator.{rule_indicators}
use ai_daytrader_sim.Engine.{FeedState, reason_if, spread_pct}

-- `PRICE_INDICATORS` of models.py
abbrev pub is_price : String → Bool
is_price name =
    str_eq name "last" || str_eq name "bid" || str_eq name "ask" || str_eq name "spread_pct"

abbrev pub occurs : String → List String → Bool
occurs name [] = false
occurs name (x ∷ xs) = str_eq x name || occurs name xs

-- The set of the indicators that a rule group reads, without the prices; `_rule_indicators` is as in
-- validator.py.
unfoldable pub required_of : List String → List String
required_of [] = []
required_of (name ∷ names) =
    let rest = required_of names in if is_price name || occurs name names then rest else name ∷ rest

-- `REQUIRED_INDICATORS` of the strategy
abbrev pub pullback_indicators : List String
pullback_indicators =
    "opening_range_5_high" ∷ "vwap_regular" ∷ "atr_14_1m_regular" ∷ "ema_9_1m_regular"
    ∷ "ema_20_1m_regular" ∷ "ema_50_1m_regular" ∷ "rsi_14_1m_regular"
    ∷ "relative_volume_cumulative_20d_same_time_regular" ∷ "market_above_vwap_regular"
    ∷ "recent_high_5_1m_regular" ∷ "recent_low_5_1m_regular" ∷ "bar_volume_1m_regular" ∷ []

-- How old an indicator may be, in microseconds.
unfoldable pub allowed_age : ℕ → String → ℕ
allowed_age max_age name =
    if starts_with name "previous_"
    then 7 * 24 * 3600 * us_per_second
    else if starts_with name "opening_range_" || str_eq name "gap_pct"
    then 24 * 3600 * us_per_second
    else if is_some (find? name "_1m_")
    then max (90 * us_per_second) max_age
    else max_age

abbrev pub is_rules : StrategyType → Bool
is_rules StrategyType.rules = true
is_rules StrategyType.pullback_rebreak = false

abbrev pub is_us : Market → Bool
is_us Market.kr = false
is_us Market.us = true

module _ {R : Type 0} ⦃f : Float R⦄ where
  unfoldable pub required : CandidatePlan R → List String
  unfolding required_of rule_indicators
  required candidate = elim candidate.strategy_type [
    | StrategyType.pullback_rebreak ↦ pullback_indicators
    | StrategyType.rules ↦
        if candidate.entry.price_only
        then []
        else required_of (rule_indicators candidate.entry.rules)
  ]

  -- What one indicator of a tick has against it, if anything.
  unfoldable pub indicator_ready : ℕ → MarketTick R → String → List String
  unfolding allowed_age
  indicator_ready max_age tick name =
      let source = tick.source_timestamp in
      if not (is_some (lookup name tick.indicators))
      then ("INDICATOR_MISSING:" <> name) ∷ []
      else if not (or_else (lookup name tick.indicator_ready) false)
      then ("INDICATOR_NOT_READY:" <> name) ∷ []
      else elim (lookup name tick.indicator_timestamps) [
        | none ↦ ("INDICATOR_TIMESTAMP_MISSING:" <> name) ∷ []
        | some generated_at ↦
            reason_if
              (ltb (source + 100_000) generated_at
                || ltb (generated_at + allowed_age max_age name) source)
              ("INDICATOR_STALE:" <> name)
      ]

  unfoldable pub all_ready : ℕ → MarketTick R → List String → List String
  unfolding indicator_ready
  all_ready max_age tick [] = []
  all_ready max_age tick (name ∷ names) =
      indicator_ready max_age tick name ++ all_ready max_age tick names

  -- `_indicators_ready`
  unfoldable pub indicators_ready : CostConfig R → CandidatePlan R → MarketTick R → List String
  unfolding all_ready required
  indicators_ready policy candidate tick =
      all_ready policy.indicator_max_age tick (required candidate)

  -- `_eligible_time`
  unfoldable pub eligible_time : Calendar → CandidatePlan R → MarketTick R → Bool
  eligible_time c candidate tick =
      let local_time = c.local_time tick.market tick.source_timestamp in
      leb candidate.entry.start_time local_time && leb local_time candidate.entry.end_time

  -- `feed.warmup_until and received < feed.warmup_until`
  abbrev pub warming_up : FeedState → MarketTick R → Bool
  warming_up feed tick = elim feed.warmup_until [
    | none ↦ false
    | some until ↦ ltb tick.received_timestamp until
  ]

  -- The reasons that `_try_entry` finds against an entry before it looks at the strategy.
  unfoldable pub entry_reasons :
      Calendar → CostConfig R → CandidatePlan R → MarketTick R → FeedState → List String
  unfolding eligible_time indicators_ready spread_pct
  entry_reasons c policy candidate tick feed =
      let rules = is_rules candidate.strategy_type in
      let local_time = c.local_time tick.market tick.source_timestamp in
      reason_if (rules && not (eligible_time c candidate tick)) "OUTSIDE_ENTRY_WINDOW"
      ++ reason_if (not rules && ltb candidate.entry.end_time local_time) "OUTSIDE_ENTRY_WINDOW"
      ++ reason_if (not (is_regular tick.session)) "NOT_REGULAR_SESSION"
      ++ reason_if (is_us tick.market && not (is_consolidated tick.quote_scope))
          "NON_CONSOLIDATED_QUOTE"
      ++ reason_if (not (is_open tick.market_status) || not (is_trading tick.symbol_status))
          "MARKET_HALTED"
      ++ reason_if (not (is_normal tick.luld_status)) "LULD_NOT_NORMAL"
      ++ reason_if (warming_up feed tick) "RECONNECT_WARMUP"
      ++ reason_if (feq tick.bid tick.ask) "LOCKED_MARKET"
      ++ reason_if (lt policy.max_spread_pct (spread_pct tick)) "SPREAD_TOO_WIDE"
      ++ reason_if (rules && lt tick.last candidate.entry.trigger_price) "TRIGGER_NOT_REACHED"
      ++ indicators_ready policy candidate tick
