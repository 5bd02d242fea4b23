-- ===== src/Models/Quote.antt =====
-- models.py: `MarketTick.validate_quote` and `Predicate.validate_indicator`. The tick of the model has
-- its time zones, and its numbers are finite.
use ai_daytrader_sim.Prelude.{
  String, Bool, true, false, not, ◌&&◌, ◌||◌, List, [], ◌∷◌, ◌==◌, str_eq,
}
use ai_daytrader_sim.Prelude.Dict.{keys}
use ai_daytrader_sim.Prelude.Result.{Result, ◌>>◌, raise_if}
use ai_daytrader_sim.Float.{Float, num, feq}
use ai_daytrader_sim.Models.{MarketTick}
use ai_daytrader_sim.Models.Rule.{Operator, Operand, Predicate}

pub data QuoteError : Type 0 where
  unknown_indicators reserved_indicators stray_timestamps stray_readiness : QuoteError

pub data PredicateError : Type 0 where
  unsupported_indicator unsupported_reference debounce_fields : PredicateError

-- `PRICE_INDICATORS`
abbrev pub price_indicators : List String
price_indicators = "last" ∷ "bid" ∷ "ask" ∷ "spread_pct" ∷ []

-- `ALLOWED_INDICATORS` without the prices
abbrev pub bar_indicators : List String
bar_indicators =
    "previous_open" ∷ "previous_high" ∷ "previous_low" ∷ "previous_close" ∷ "opening_range_5_high"
    ∷ "opening_range_5_low" ∷ "opening_range_10_high" ∷ "opening_range_10_low"
    ∷ "opening_range_15_high" ∷ "opening_range_15_low" ∷ "vwap_regular" ∷ "atr_14_1m_regular"
    ∷ "ema_9_1m_regular" ∷ "ema_20_1m_regular" ∷ "ema_50_1m_regular" ∷ "rsi_14_1m_regular"
    ∷ "relative_volume_cumulative_20d_same_time_regular" ∷ "gap_pct" ∷ "market_above_vwap_regular"
    ∷ "recent_high_5_1m_regular" ∷ "recent_low_5_1m_regular" ∷ "bar_volume_1m_regular" ∷ []

abbrev pub contains : List String → String → Bool
contains [] name = false
contains (x ∷ xs) name = str_eq x name || contains xs name

abbrev pub is_allowed : String → Bool
is_allowed name = contains price_indicators name || contains bar_indicators name

-- Whether some name is such; the sets of the source are lists of keys.
abbrev pub some_name : (String → Bool) → List String → Bool
some_name test [] = false
some_name test (x ∷ xs) = test x || some_name test xs

unfoldable pub validate_quote : {R : Type 0} → MarketTick R → Result QuoteError (Unit {0})
validate_quote tick =
    let names = keys tick.indicators in
    do
      raise_if (some_name (λ x. not (is_allowed x)) names) QuoteError.unknown_indicators
      raise_if (some_name (contains price_indicators) names) QuoteError.reserved_indicators
      raise_if (some_name (λ x. not (contains names x)) (keys tick.indicator_timestamps))
          QuoteError.stray_timestamps
      raise_if (some_name (λ x. not (contains names x)) (keys tick.indicator_ready))
          QuoteError.stray_readiness

abbrev pub is_cross_operator : Operator → Bool
is_cross_operator Operator.cross_above = true
is_cross_operator Operator.cross_below = true
is_cross_operator _ = false

abbrev pub is_supported : {R : Type 0} → Operand R → Bool
is_supported (Operand.literal v) = true
is_supported (Operand.reference name) = is_allowed name

unfoldable pub validate_indicator :
    {R : Type 0} ⦃f : Float R⦄ → Predicate R → Result PredicateError (Unit {0})
validate_indicator p = do
  raise_if (not (is_allowed p.indicator)) PredicateError.unsupported_indicator
  raise_if (not (is_supported p.value)) PredicateError.unsupported_reference
  raise_if
      (not (is_cross_operator p.operator)
        && (not (p.confirm_ticks == 1)
            || not (p.hold_above_ms == 0)
            || not (feq p.minimum_cross_pct (num 0))
            || not (p.cooldown_sec == 0)))
      PredicateError.debounce_fields
