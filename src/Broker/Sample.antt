-- ===== src/Broker/Sample.antt =====
-- A setup of the broker in whole units of money, a plan, and the states that a first order leads to.
use ai_daytrader_sim.Prelude.{ℕ, ◌+◌, true, false, none, some, [], ◌∷◌}
use ai_daytrader_sim.Float.Scaled.{ℤ, pos, scaled_float}
use ai_daytrader_sim.Models.{OrderState}
use ai_daytrader_sim.Models.{
  Market, QuoteScope, Session, MarketStatus, SymbolStatus, LuldStatus, StrategyType, CostConfig,
  MarketTick, CandidatePlan,
}
use ai_daytrader_sim.Models.Rule.{RuleGroup, Groups, Mode}
use ai_daytrader_sim.Portfolio.{PendingOrder, Position, new_portfolio}
use ai_daytrader_sim.Repository.{empty}
use ai_daytrader_sim.Broker.{Setup, Desk}
use ai_daytrader_sim.Broker.Entries.{submit_entry}
use ai_daytrader_sim.Broker.Ticks.{on_tick}
use ai_daytrader_sim.Broker.Markets.{Broker, on_desk, new_broker}

abbrev pub cost : CostConfig ℤ
cost = record {
  initial_cash = pos 10_000_000;
  commission_bps_each_side = pos 2;
  slippage_bps_each_side = pos 5;
  sell_tax_bps = some (pos 15);
  fx_bps_each_side = pos 0;
  trade_risk_pct = pos 1;
  daily_loss_limit_pct = pos 3;
  max_position_quantity = 1000;
  fill_latency_ms = 500;
  fill_timeout = 30_000_000;
  allow_partial_fill = true;
  max_fill_quantity_per_tick = 200;
  volume_participation_pct = pos 10;
  max_order_submissions_per_day = 5;
  max_filled_entries_per_day = 3;
  consecutive_stop_limit = 2;
  stop_cooldown_minutes = 15;
  halt_resume_cooldown_seconds = 60;
  max_spread_pct = pos 1;
  max_tick_age = 5_000_000;
  indicator_max_age = 90_000_000;
}

abbrev pub setup : Setup ℤ
setup = record {
  costs = λ m. cost;
  recording = true;
  uuid = λ n. "order";
  local_date = λ m at. 20_000;
}

abbrev pub plan : CandidatePlan ℤ
plan = record {
  symbol = "005930";
  exchange = "KRX";
  strategy_type = StrategyType.rules;
  entry = record {
    trigger_price = pos 9_950;
    limit_price = pos 10_000;
    start_time = 0;
    end_time = 1;
    price_only = true;
    rules = RuleGroup.group Mode.all_of [] Groups.nil;
  };
  stop_loss = record {
    price = pos 9_800;
    limit_offset_pct = pos 0;
    emergency_exit_after = 2_000_000;
  };
  take_profit =
      record { price = pos 10_400; quantity_pct = 50 }
      ∷ record { price = pos 10_800; quantity_pct = 50 }
      ∷ [];
  exit_policy = record {
    max_holding_minutes = 90;
    no_progress_exit_minutes = none;
    no_progress_min_pct = pos 0;
    exit_if_below_vwap_sec = none;
    move_stop_to_entry_after_tp1 = false;
  };
  pullback_rebreak = none;
  force_exit_time = 2;
}

-- A quote of the symbol at a time, with its bid; the ask is 10 above.
abbrev pub quote : ℕ → ℕ → MarketTick ℤ
quote at bid = record {
  market = Market.kr;
  symbol = "005930";
  source_timestamp = at;
  received_timestamp = at;
  sequence_id = 1;
  connection_id = "feed-1";
  quote_scope = QuoteScope.consolidated;
  session = Session.regular;
  market_status = MarketStatus.open_market;
  symbol_status = SymbolStatus.trading;
  luld_status = LuldStatus.normal;
  corporate_action = false;
  last = pos bid;
  bid = pos bid;
  ask = pos (bid + 10);
  ask_size = 300;
  trade_size = 10;
  indicators = [];
  indicator_timestamps = [];
  indicator_ready = [];
}

abbrev pub signal : MarketTick ℤ
signal = quote 1_000_000 9_980

abbrev pub fill : MarketTick ℤ
fill = quote 2_000_000 9_980

abbrev pub start : Broker ℤ
start = new_broker setup empty 0

abbrev pub submitted : Broker ℤ
submitted = on_desk Market.kr (λ d. (submit_entry setup "plan-0001" plan signal d).1) start

abbrev pub bought : Broker ℤ
bought = on_desk Market.kr (on_tick setup fill) submitted

abbrev pub shares : Position ℤ
shares = record {
  market = Market.kr;
  symbol = "005930";
  exchange = "KRX";
  plan_id = "plan-0001";
  quantity = 200;
  remaining = 120;
  entry_price = pos 9_995;
  stop_price = pos 9_800;
  stop_limit_offset_pct = pos 0;
  emergency_exit_after = 2_000_000;
  targets = (pos 10_400, 100) ∷ (pos 10_800, 100) ∷ [];
  target_specs = (pos 10_400, 50) ∷ (pos 10_800, 50) ∷ [];
  opened_at = 2_000_000;
  exit_policy = plan.exit_policy;
  highest_price = pos 10_410;
  realized_pnl = pos 0;
  fees = pos 0;
  filled_targets = 0 ∷ [];
  exit_pending_at = none;
  exit_reason = none;
  below_vwap_since = none;
}

abbrev pub holding : Desk ℤ
holding = record {
  portfolio = record (new_portfolio Market.kr (pos 10_000_000)) {
    session_date = some 20_000;
    positions = ("005930", shares) ∷ [];
  };
  saved = none;
  repository = empty;
  draws = 7;
}

abbrev pub order : PendingOrder ℤ
order = record {
  order_id = "order";
  idempotency_key = "plan-0001:005930:ENTRY";
  market = Market.kr;
  symbol = "005930";
  exchange = "KRX";
  plan_id = "plan-0001";
  state = OrderState.partially_filled;
  created_at = 1_000_000;
  eligible_fill_at = 1_500_000;
  expires_at = 31_000_000;
  limit_price = pos 10_000;
  desired_quantity = 448;
  filled_quantity = 100;
  average_fill_price = pos 9_995;
  risk_per_share = pos 223;
  stop_price = pos 9_800;
  stop_limit_offset_pct = pos 0;
  emergency_exit_after = 2_000_000;
  target_specs = shares.target_specs;
  exit_policy = plan.exit_policy;
}

abbrev pub part_filled : Desk ℤ
part_filled = record holding {
  portfolio = record (holding.portfolio) { pending_orders = ("005930", order) ∷ [] };
}
