-- ===== src/Models.antt =====
-- models.py, config.py: the enumerations and the records that the components exchange. Times are
-- counted in microseconds and dates in days; a time stands for an instant, so that the order of the
-- numbers is the order of the instants.
pub mod Rule
pub mod Checks
pub mod Quote
pub mod Nesting
pub mod Prices
mod Tests
use ai_daytrader_sim.Prelude.{ℕ, String, Bool, true, false, Option, List}
use ai_daytrader_sim.Prelude.Dict.{Dict}
use Rule.{Value, RuleGroup}

pub data Market : Type 0 where
  kr us : Market

abbrev pub same_market : Market → Market → Bool
same_market Market.kr Market.kr = true
same_market Market.us Market.us = true
same_market _ _ = false

pub data PlanStatus : Type 0 where
  validated armed running completed expired rejected cancelled : PlanStatus

pub data OrderState : Type 0 where
  signal_triggered entry_pending partially_filled filled position_open exit_pending closed cancelled
        expired data_error market_halted risk_blocked force_closed :
      OrderState

pub data QuoteScope : Type 0 where
  consolidated venue unknown : QuoteScope

pub data Session : Type 0 where
  premarket regular afterhours closed : Session

pub data MarketStatus : Type 0 where
  open_market closed halted : MarketStatus

pub data SymbolStatus : Type 0 where
  trading halted paused : SymbolStatus

pub data LuldStatus : Type 0 where
  normal limit_up limit_down paused : LuldStatus

pub record StopLossSpec (R : Type 0) : Type 0 where
  pub price : R
  pub limit_offset_pct : R
  -- in microseconds
  pub emergency_exit_after : ℕ

pub record TakeProfitSpec (R : Type 0) : Type 0 where
  pub price : R
  pub quantity_pct : ℕ

pub record ExitPolicy (R : Type 0) : Type 0 where
  pub max_holding_minutes : ℕ
  pub no_progress_exit_minutes : Option ℕ
  pub no_progress_min_pct : R
  pub exit_if_below_vwap_sec : Option ℕ
  pub move_stop_to_entry_after_tp1 : Bool

pub record EntrySpec (R : Type 0) : Type 0 where
  pub trigger_price : R
  pub limit_price : R
  pub start_time : ℕ
  pub end_time : ℕ
  pub price_only : Bool
  pub rules : RuleGroup R

-- Durations in minutes are in microseconds here.
pub record PullbackRebreakSpec (R : Type 0) : Type 0 where
  pub breakout_confirm_ticks : ℕ
  pub breakout_hold_ms : ℕ
  pub breakout_relative_volume_min : R
  pub pullback_depth_atr_min : R
  pub pullback_depth_atr_max : R
  pub pullback_min : ℕ
  pub pullback_max : ℕ
  pub pullback_rsi_min : R
  pub pullback_rsi_max : R
  pub pullback_volume_ratio_max : R
  pub support_breach_pct_max : R
  pub rebreak_rsi_min : R
  pub rebreak_rsi_max : R
  pub rebreak_relative_volume_min : R
  pub spread_pct_max : R
  pub require_market_above_vwap : Bool

pub data StrategyType : Type 0 where
  rules pullback_rebreak : StrategyType

pub record CandidatePlan (R : Type 0) : Type 0 where
  pub symbol : String
  pub exchange : String
  pub strategy_type : StrategyType
  pub entry : EntrySpec R
  pub stop_loss : StopLossSpec R
  pub take_profit : List (TakeProfitSpec R)
  pub exit_policy : ExitPolicy R
  pub pullback_rebreak : Option (PullbackRebreakSpec R)
  pub force_exit_time : ℕ

pub record TradePlan (R : Type 0) : Type 0 where
  pub plan_id : String
  pub plan_version : ℕ
  pub created_at : ℕ
  pub market : Market
  pub trade_date : ℕ
  pub expires_at : ℕ
  pub approval_nonce : String
  pub approved_symbols : List (CandidatePlan R)

-- `MarketTick`, after its validators: the timestamps are there, so that `received_timestamp or
-- timestamp` is the first.
pub record MarketTick (R : Type 0) : Type 0 where
  pub market : Market
  pub symbol : String
  pub source_timestamp : ℕ
  pub received_timestamp : ℕ
  pub sequence_id : ℕ
  pub connection_id : String
  pub quote_scope : QuoteScope
  pub session : Session
  pub market_status : MarketStatus
  pub symbol_status : SymbolStatus
  pub luld_status : LuldStatus
  pub corporate_action : Bool
  pub last : R
  pub bid : R
  pub ask : R
  pub ask_size : ℕ
  pub trade_size : ℕ
  pub indicators : Dict (Value R)
  pub indicator_timestamps : Dict ℕ
  pub indicator_ready : Dict Bool

-- `CostConfig` of config.py. Seconds and milliseconds that may be fractions are in microseconds.
pub record CostConfig (R : Type 0) : Type 0 where
  pub initial_cash : R
  pub commission_bps_each_side : R
  pub slippage_bps_each_side : R
  pub sell_tax_bps : Option R
  pub fx_bps_each_side : R
  pub trade_risk_pct : R
  pub daily_loss_limit_pct : R
  pub max_position_quantity : ℕ
  pub fill_latency_ms : ℕ
  pub fill_timeout : ℕ
  pub allow_partial_fill : Bool
  pub max_fill_quantity_per_tick : ℕ
  pub volume_participation_pct : R
  pub max_order_submissions_per_day : ℕ
  pub max_filled_entries_per_day : ℕ
  pub consecutive_stop_limit : ℕ
  pub stop_cooldown_minutes : ℕ
  pub halt_resume_cooldown_seconds : ℕ
  pub max_spread_pct : R
  pub max_tick_age : ℕ
  pub indicator_max_age : ℕ

abbrev pub is_open : MarketStatus → Bool
is_open MarketStatus.open_market = true
is_open _ = false

abbrev pub is_trading : SymbolStatus → Bool
is_trading SymbolStatus.trading = true
is_trading _ = false

abbrev pub is_normal : LuldStatus → Bool
is_normal LuldStatus.normal = true
is_normal _ = false

abbrev pub is_regular : Session → Bool
is_regular Session.regular = true
is_regular _ = false

abbrev pub is_consolidated : QuoteScope → Bool
is_consolidated QuoteScope.consolidated = true
is_consolidated _ = false

abbrev pub us_per_second : ℕ
us_per_second = 1_000_000

abbrev pub us_per_minute : ℕ
us_per_minute = 60_000_000
