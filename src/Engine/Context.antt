-- ===== src/Engine/Context.antt =====
-- engine.py: the values that rules are evaluated over, for a tick that passes its validator.
use ai_daytrader_sim.Prelude.{
  String, ◌≡◌, refl, true, false, Bool, none, some, [], ◌∷◌, eq_iff, arith,
}
use ai_daytrader_sim.Prelude.Dict.{Dict, lookup, keys, lookup-update}
use ai_daytrader_sim.Prelude.Result.{is_ok}
use ai_daytrader_sim.Float.{Float}
use ai_daytrader_sim.Models.{MarketTick}
use ai_daytrader_sim.Models.Rule.{Value}
use ai_daytrader_sim.Models.Quote.{validate_quote, price_indicators, contains, some_name}
use ai_daytrader_sim.Engine.{context, spread_pct}

module _ {V : Type 0} (test : String → Bool) where
  missing :
      (k : String) (d : Dict V)
      → test k ≡ true
      → some_name test (keys d) ≡ false
      → lookup k d ≡ none
  missing k [] t h = refl
  missing k ((j, v) ∷ d) t h = ground (arith, eq_iff j k, missing k d t)

module _ {R : Type 0} ⦃f : Float R⦄ (tick : MarketTick R) where
  not_reserved :
      is_ok (validate_quote tick) ≡ true
      → some_name (contains price_indicators) (keys tick.indicators) ≡ false
  unfolding validate_quote
  not_reserved h = ground (arith, h)

  -- In the values over which the rules are evaluated at a tick that `validate_quote` accepts, `last`,
  -- `bid`, `ask` and `spread_pct` are those of the tick's own quote: no indicator replaces them.
  pub context-Prices :
      is_ok (validate_quote tick) ≡ true
      → (lookup "last" (context tick) ≡ some (Value.number tick.last))
        × ((lookup "bid" (context tick) ≡ some (Value.number tick.bid))
            × ((lookup "ask" (context tick) ≡ some (Value.number tick.ask))
                × (lookup "spread_pct" (context tick) ≡ some (Value.number (spread_pct tick)))))
  unfolding context
  context-Prices h =
      let free : (k : String)
          → contains price_indicators k ≡ true
          → lookup k tick.indicators ≡ none =
        λ k t. missing (contains price_indicators) k tick.indicators t (not_reserved h) in
      (
        lookup-update "last" _ tick.indicators (free "last" refl),
        (
          lookup-update "bid" _ tick.indicators (free "bid" refl),
          (
            lookup-update "ask" _ tick.indicators (free "ask" refl),
            lookup-update "spread_pct" _ tick.indicators (free "spread_pct" refl),
          ),
        ),
      )
