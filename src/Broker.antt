-- ===== src/Broker.antt =====
-- broker.py: `PaperBroker`. A desk is what the broker keeps for one market: its portfolio, the row of
-- `portfolio_states` that was saved last, the repository, and the number of ids drawn so far. The
-- whole broker, with a desk for each market over one repository, is in Broker/Markets.
pub mod Costs
pub mod Risk
pub mod Sessions
pub mod Entries
pub mod Fills
pub mod Exits
pub mod Ticks
pub mod Markets
pub mod Quiet
pub mod Submissions
pub mod Limit
pub mod Targets
pub mod Expiry
pub mod Flat
pub mod Fresh
pub mod Paused
pub mod Accounts
pub mod Report
pub mod Filling
pub mod Sample
mod Tests
pub mod Slot
use ai_daytrader_sim.Prelude.{ℕ, ◌+◌, String, Bool, Option, some, List, [], ◌∷◌}
use ai_daytrader_sim.Models.{Market, CostConfig, OrderState}
use ai_daytrader_sim.Portfolio.{Portfolio, PendingOrder}
use ai_daytrader_sim.Repository.{Repository, Event, add_event}

-- What the constructor is given, and what the broker takes from outside: `uuid.uuid4`, by the number
-- of the draw, and the date of an instant in the time zone of a market (`zoneinfo`).
pub record Setup (R : Type 0) : Type 0 where
  pub costs : Market → CostConfig R
  -- whether there is an `order_intent_recorder`
  pub recording : Bool
  pub uuid : ℕ → String
  pub local_date : Market → ℕ → ℕ

pub record Desk (R : Type 0) : Type 0 where
  pub portfolio : Portfolio R
  pub saved : Option (Portfolio R)
  pub repository : Repository R
  pub draws : ℕ

module _ {R : Type 0} where
  -- `_save`: the portfolio as it stands becomes the stored row.
  unfoldable pub save : Desk R → Desk R
  save d = record d { saved = some d.portfolio }

  unfoldable pub log : Event R → Desk R → Desk R
  unfolding add_event
  log e d = record d { repository = add_event e d.repository }

  unfoldable pub with_portfolio : Portfolio R → Desk R → Desk R
  with_portfolio p d = record d { portfolio = p }

  -- `_order_event`
  unfoldable pub order_event : PendingOrder R → OrderState → Desk R → Desk R
  unfolding log
  order_event o state = log (Event.order_state_changed o.market o.symbol o.plan_id state)
