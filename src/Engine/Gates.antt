-- ===== src/Engine/Gates.antt =====
-- What an entry has passed before it can change a portfolio.
use ai_daytrader_sim.Prelude.{
  ℕ, ◌+◌, ◌≤◌, String, ◌≡◌, true, false, not, ◌&&◌, some, All, is_some, or_else,
}
use ai_daytrader_sim.Prelude.Dict.{Dict, lookup}
use ai_daytrader_sim.Float.{Float, lt, feq}
use ai_daytrader_sim.Models.{
  StrategyType, CandidatePlan, MarketTick, CostConfig, is_open, is_trading, is_normal, is_regular,
  is_consolidated,
}
use ai_daytrader_sim.MarketClock.{Calendar}
use ai_daytrader_sim.Engine.{FeedState, spread_pct}
use ai_daytrader_sim.Engine.Ready.{required, allowed_age, indicator_ready, is_us, warming_up}

module _ {R : Type 0} ⦃f : Float R⦄ where
  -- An indicator of the tick is there, ready, and neither from the future nor too old.
  abbrev pub Fresh : ℕ → MarketTick R → String → Type 0
  Fresh max_age tick name =
      (is_some (lookup name tick.indicators) ≡ true)
      × (or_else (lookup name tick.indicator_ready) false ≡ true)
      × (generated_at : ℕ) × (lookup name tick.indicator_timestamps ≡ some generated_at)
      × (generated_at ≤ tick.source_timestamp + 100_000)
      × (tick.source_timestamp ≤ generated_at + allowed_age max_age name)

  -- The time of day and the price, by strategy; the pullback has its own test of the start.
  abbrev pub InWindow : Calendar → CandidatePlan R → MarketTick R → StrategyType → Type 0
  InWindow c x tick StrategyType.rules =
      let local_time = c.local_time tick.market tick.source_timestamp in
      (x.entry.start_time ≤ local_time)
      × (local_time ≤ x.entry.end_time)
      × (lt tick.last x.entry.trigger_price ≡ false)
  InWindow c x tick StrategyType.pullback_rebreak =
      c.local_time tick.market tick.source_timestamp ≤ x.entry.end_time

  abbrev pub Gates : Calendar → CostConfig R → CandidatePlan R → MarketTick R → FeedState → Type 0
  Gates c policy x tick feed =
      (is_regular tick.session ≡ true)
      × ((is_us tick.market && not (is_consolidated tick.quote_scope)) ≡ false)
      × (is_open tick.market_status ≡ true)
      × (is_trading tick.symbol_status ≡ true)
      × (is_normal tick.luld_status ≡ true)
      × (warming_up feed tick ≡ false)
      × (feq tick.bid tick.ask ≡ false)
      × (lt policy.max_spread_pct (spread_pct tick) ≡ false)
      × InWindow c x tick x.strategy_type
      × All (Fresh policy.indicator_max_age tick) (required x)
