-- ===== src/KisOrders.antt =====
-- kis_orders.py: the recorder that mirrors the orders of the paper broker into `kis_order_intents`.
-- It builds request previews from the intent alone; the previews and the redacted account fields are
-- left out, and the intents are those for which `KISOrderRequestBuilder` raises no `ValueError`.
use ai_daytrader_sim.Prelude.{ℕ, String, Bool, none, some, if◌then◌else◌}
use ai_daytrader_sim.Prelude.Text.{upper}
use ai_daytrader_sim.Float.{Float, num}
use ai_daytrader_sim.Models.{Market}
use ai_daytrader_sim.Repository.{
  Repository, OrderIntent, Action, Side, Event, add_event, record_kis_order_intent,
}

module _ {R : Type 0} ⦃f : Float R⦄ where
  -- `_store`: the intent's row, and an event if the row is new.
  unfoldable pub store : OrderIntent R → Repository R → Bool × Repository R
  unfolding record_kis_order_intent add_event
  store i r =
      let (inserted, r') = record_kis_order_intent i r in
      (
        inserted,
        (if inserted
            then add_event (Event.kis_order_intent_recorded i.market i.symbol i.plan_id i.action) r'
            else r'),
      )

  unfoldable pub record_new_order :
      (order_id idempotency_key plan_id : String)
      → Market
      → (symbol exchange : String) → Side
      → (quantity : ℕ) → (limit_price : R) → (reason : String) → Repository R
      → Bool × Repository R
  unfolding store
  record_new_order order_id key plan_id market symbol exchange side quantity limit_price reason =
      store (record {
        idempotency_key = key;
        source_order_id = order_id;
        plan_id = plan_id;
        market = market;
        symbol = upper symbol;
        exchange = upper exchange;
        action = Action.new;
        side = some side;
        quantity = quantity;
        limit_price = limit_price;
        reason = reason;
      })

  unfoldable pub record_cancel_order :
      (order_id idempotency_key plan_id : String)
      → Market
      → (symbol exchange : String) → (remaining_quantity : ℕ) → (reason : String) → Repository R
      → Bool × Repository R
  unfolding store
  record_cancel_order order_id key plan_id market symbol exchange remaining_quantity reason =
      store (record {
        idempotency_key = key;
        source_order_id = order_id;
        plan_id = plan_id;
        market = market;
        symbol = upper symbol;
        exchange = upper exchange;
        action = Action.cancel;
        side = none;
        quantity = remaining_quantity;
        limit_price = num 0;
        reason = reason;
      })
