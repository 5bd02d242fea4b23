-- ===== src/Engine/Tests.antt =====
-- The engine at concrete inputs, in whole units of money.
use ai_daytrader_sim.Prelude.{
  ℕ, ◌+◌, inr, ◌≡◌, refl, true, none, some, List, [], ◌∷◌, is_some, arith,
}
use ai_daytrader_sim.Prelude.Dict.{lookup}
use ai_daytrader_sim.Prelude.Text.{upper}
use ai_daytrader_sim.Float.Scaled.{ℤ, pos, scaled_float}
use ai_daytrader_sim.Models.{Market, PlanStatus, TradePlan, MarketTick}
use ai_daytrader_sim.Models.Rule.{Value}
use ai_daytrader_sim.Prelude.Result.{error, is_ok}
use ai_daytrader_sim.MarketClock.{Calendar}
use ai_daytrader_sim.Repository.{Repository, empty}
use ai_daytrader_sim.Repository.Nonces.{same_key}
use ai_daytrader_sim.Broker.Costs.{worst_case_risk_per_share}
use ai_daytrader_sim.Broker.Sessions.{can_submit, admission, ensure_session}
use ai_daytrader_sim.Broker.Entries.{entry_quantity, claim_and_place}
use ai_daytrader_sim.Broker.Fills.{process_pending}
use ai_daytrader_sim.Broker.Slot.Reach.{OneSlotEach}
use ai_daytrader_sim.Broker.Markets.{account, desk, new_broker, Later}
use ai_daytrader_sim.Engine.{Engine, FeedState, context, spread_pct, next_feed, validate_feed}
use ai_daytrader_sim.Models.Quote.{QuoteError, validate_quote}
use ai_daytrader_sim.Engine.Context.{context-Prices}
use ai_daytrader_sim.Engine.Process.{Answer, process_tick}
use ai_daytrader_sim.Engine.Ticks.{process_tick-Later, Running, Running-OneSlotEach}
use ai_daytrader_sim.Engine.Feeds.{Refused, run, replay-Refused}
use ai_daytrader_sim.Engine.Gates.{Gates}
use ai_daytrader_sim.Broker.Sample.{cost, setup, plan, signal}

abbrev calendar : Calendar
calendar = record {
  is_session = λ m date. true;
  session_open = λ m date. 0;
  session_close = λ m date. 100_000_000_000;
  local_date = λ m at. 20_000;
  local_time = λ m at. 0;
}

abbrev mean : List ℤ → ℤ
mean values = pos 1

abbrev trade_plan : TradePlan ℤ
trade_plan = record {
  plan_id = "KR-0001-A";
  plan_version = 1;
  created_at = 0;
  market = Market.kr;
  trade_date = 20_000;
  expires_at = 90_000_000_000;
  approval_nonce = "000000";
  approved_symbols = plan ∷ [];
}

abbrev tables : Repository ℤ
tables = record empty {
  plans =
      record {
        plan_id = "KR-0001-A";
        market = Market.kr;
        trade_date = 20_000;
        status = PlanStatus.armed;
        content_hash = "";
        payload = trade_plan;
        created_at = 0;
        updated_at = 0;
      }
      ∷ [];
}

abbrev engine : Engine ℤ
engine = record {
  core = record {
    broker = new_broker setup tables 0;
    cross_states = [];
    states = [];
    strategy_states = [];
  };
  latest_ticks = λ m. [];
  previous_context = λ m. [];
  feed_states = λ m. [];
}

abbrev after : Engine ℤ
after = (process_tick setup calendar mean signal 1_000_000 engine).1

entered :
    ((process_tick setup calendar mean signal 1_000_000 engine).0 ≡ Answer.accepted none)
    × (is_some (lookup "005930" (desk Market.kr after.core.broker).portfolio.pending_orders) ≡ true)
unfolding process_tick new_broker same_key can_submit admission ensure_session process_pending
    worst_case_risk_per_share entry_quantity claim_and_place desk account
entered = (refl, refl)

process_tick-Later_example : Later setup engine.core.broker after.core.broker
process_tick-Later_example = process_tick-Later setup calendar mean signal 1_000_000 engine

after-Running : Running setup calendar mean after
after-Running = Running.ticked signal 1_000_000 (Running.started tables 0 engine refl)

Running-OneSlotEach_example : OneSlotEach after.core.broker
Running-OneSlotEach_example = Running-OneSlotEach setup calendar mean after after-Running

valid : validate_feed cost 1_000_000 signal engine.feed_states ≡ []
unfolding validate_feed
valid = refl

-- A tick of the same connection follows, and then the first comes once more.
abbrev next_tick : MarketTick ℤ
next_tick = record signal {
  source_timestamp = 1_500_000;
  received_timestamp = 1_500_000;
  sequence_id = signal.sequence_id + 1;
}

abbrev in_between : List (MarketTick ℤ × ℕ)
in_between = (next_tick, 1_500_000) ∷ []

replay-Refused_example :
    let e' = run setup calendar mean in_between after in
    Refused e' (process_tick setup calendar mean signal 2_000_000 e')
unfolding upper
replay-Refused_example =
    replay-Refused setup calendar mean signal 1_000_000 in_between signal 2_000_000 engine valid
      (inr (inr refl), tt) refl refl refl (omega arith)

abbrev feed : FeedState
feed = next_feed cost signal none

-- A tick with indicators, and one whose indicators have a price among them.
abbrev quoted : MarketTick ℤ
quoted = record signal {
  indicators =
      ("rsi_14_1m_regular", Value.number (pos 55))
      ∷ ("market_above_vwap_regular", Value.flag true)
      ∷ [];
  indicator_timestamps = ("rsi_14_1m_regular", 1_000_000) ∷ [];
  indicator_ready = [];
}

overridden :
    validate_quote (record quoted { indicators = ("last", Value.number (pos 1)) ∷ [] })
    ≡ error QuoteError.reserved_indicators
unfolding validate_quote
overridden = refl

quote_passes : is_ok (validate_quote quoted) ≡ true
unfolding validate_quote
quote_passes = refl

context-Prices_example :
    (lookup "last" (context quoted) ≡ some (Value.number quoted.last))
    × ((lookup "bid" (context quoted) ≡ some (Value.number quoted.bid))
        × ((lookup "ask" (context quoted) ≡ some (Value.number quoted.ask))
            × (lookup "spread_pct" (context quoted) ≡ some (Value.number (spread_pct quoted)))))
context-Prices_example = context-Prices quoted quote_passes
