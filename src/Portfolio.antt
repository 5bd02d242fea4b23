-- ===== src/Portfolio.antt =====
-- broker.py: the orders, positions and portfolios that the paper broker keeps.
use ai_daytrader_sim.Prelude.{ℕ, ◌-◌, String, Option, none, List, []}
use ai_daytrader_sim.Prelude.Dict.{Dict}
use ai_daytrader_sim.Float.{Float, num}
use ai_daytrader_sim.Models.{Market, OrderState, ExitPolicy}

pub record PendingOrder (R : Type 0) : Type 0 where
  pub order_id : String
  pub idempotency_key : String
  pub market : Market
  pub symbol : String
  pub exchange : String
  pub plan_id : String
  pub state : OrderState
  pub created_at : ℕ
  pub eligible_fill_at : ℕ
  pub expires_at : ℕ
  pub limit_price : R
  pub desired_quantity : ℕ
  pub filled_quantity : ℕ
  pub average_fill_price : R
  pub risk_per_share : R
  pub stop_price : R
  pub stop_limit_offset_pct : R
  -- in microseconds
  pub emergency_exit_after : ℕ
  pub target_specs : List (R × ℕ)
  pub exit_policy : ExitPolicy R

-- `PendingOrder.remaining`: an order never holds more than it asks for (`Broker/Slot`).
abbrev pub remaining_of : {R : Type 0} → PendingOrder R → ℕ
remaining_of o = o.desired_quantity - o.filled_quantity

pub record Position (R : Type 0) : Type 0 where
  pub market : Market
  pub symbol : String
  pub exchange : String
  pub plan_id : String
  pub quantity : ℕ
  pub remaining : ℕ
  pub entry_price : R
  pub stop_price : R
  pub stop_limit_offset_pct : R
  pub emergency_exit_after : ℕ
  pub targets : List (R × ℕ)
  pub target_specs : List (R × ℕ)
  pub opened_at : ℕ
  pub exit_policy : ExitPolicy R
  pub highest_price : R
  pub realized_pnl : R
  pub fees : R
  pub filled_targets : List ℕ
  pub exit_pending_at : Option ℕ
  pub exit_reason : Option String
  pub below_vwap_since : Option ℕ

pub record Portfolio (R : Type 0) : Type 0 where
  pub market : Market
  pub initial_cash : R
  pub cash : R
  pub realized_pnl : R
  pub session_realized_pnl : R
  pub positions : Dict (Position R)
  pub pending_orders : Dict (PendingOrder R)
  pub trades_today : ℕ
  pub order_submissions_today : ℕ
  pub consecutive_stops : ℕ
  pub cooldown_until : Option ℕ
  pub session_date : Option ℕ

-- `Portfolio(market, initial_cash, initial_cash)`
abbrev pub new_portfolio : {R : Type 0} ⦃f : Float R⦄ → Market → R → Portfolio R
new_portfolio m cash = record {
  market = m;
  initial_cash = cash;
  cash = cash;
  realized_pnl = num 0;
  session_realized_pnl = num 0;
  positions = [];
  pending_orders = [];
  trades_today = 0;
  order_submissions_today = 0;
  consecutive_stops = 0;
  cooldown_until = none;
  session_date = none;
}
