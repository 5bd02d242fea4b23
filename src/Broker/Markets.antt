-- ===== src/Broker/Markets.antt =====
-- broker.py: the whole `PaperBroker`, with a portfolio for each market, and what changes it. The part
-- of engine.py that calls the broker on a corporate action is here too.
use ai_daytrader_sim.Prelude.{
  ℕ, String, ◌≡◌, refl, ◌&&◌, Option, none, some, [], ◌∷◌, leb, if◌then◌else◌,
}
use ai_daytrader_sim.Prelude.Dict.{Dict, lookup}
use ai_daytrader_sim.Float.{Float, le}
use ai_daytrader_sim.Models.{Market, OrderState, CandidatePlan, MarketTick, is_trading}
use ai_daytrader_sim.Portfolio.{Portfolio, PendingOrder, new_portfolio}
use ai_daytrader_sim.Repository.{Repository}
use ai_daytrader_sim.Broker.{Setup, Desk}
use ai_daytrader_sim.Broker.Sessions.{cancel_pending}
use ai_daytrader_sim.Broker.Entries.{submit_entry}
use ai_daytrader_sim.Broker.Exits.{close_quantity, force_close, reset_day}
use ai_daytrader_sim.Broker.Ticks.{on_tick}

-- The portfolio of a market and its stored row.
pub record Account (R : Type 0) : Type 0 where
  pub portfolio : Portfolio R
  pub saved : Option (Portfolio R)

pub record Broker (R : Type 0) : Type 0 where
  pub kr : Account R
  pub us : Account R
  pub repository : Repository R
  pub draws : ℕ

module _ {R : Type 0} where
  unfoldable pub account : Market → Broker R → Account R
  account Market.kr b = b.kr
  account Market.us b = b.us

  -- What an operation on one market sees of the broker, and what it leaves.
  unfoldable pub desk : Market → Broker R → Desk R
  unfolding account
  desk m b = record {
    portfolio = (account m b).portfolio;
    saved = (account m b).saved;
    repository = b.repository;
    draws = b.draws;
  }

  unfoldable pub put_desk : Market → Desk R → Broker R → Broker R
  put_desk Market.kr d b = record b {
    kr = record { portfolio = d.portfolio; saved = d.saved };
    repository = d.repository;
    draws = d.draws;
  }
  put_desk Market.us d b = record b {
    us = record { portfolio = d.portfolio; saved = d.saved };
    repository = d.repository;
    draws = d.draws;
  }

  unfoldable pub on_desk : Market → (Desk R → Desk R) → Broker R → Broker R
  unfolding desk put_desk
  on_desk m change b = put_desk m (change (desk m b)) b

module _ {R : Type 0} ⦃f : Float R⦄ (σ : Setup R) where
  -- The constructor, over a repository that has no stored portfolio, with `draws` ids drawn before.
  unfoldable pub new_broker : Repository R → ℕ → Broker R
  new_broker r draws = record {
    kr = record {
      portfolio = new_portfolio Market.kr (σ.costs Market.kr).initial_cash;
      saved = none;
    };
    us = record {
      portfolio = new_portfolio Market.us (σ.costs Market.us).initial_cash;
      saved = none;
    };
    repository = r;
    draws = draws;
  }

  -- `expire_pending` for the orders of one market, as they stand before the loop.
  unfoldable pub expire_each : ℕ → Dict (PendingOrder R) → Desk R → Desk R
  unfolding cancel_pending
  expire_each now [] d = d
  expire_each now ((symbol, o) ∷ os) d = expire_each now os (
      if leb o.expires_at now
      then cancel_pending σ symbol "FILL_TIMEOUT" OrderState.expired d
      else d)

  unfoldable pub expire_desk : ℕ → Desk R → Desk R
  unfolding expire_each
  expire_desk now d = expire_each now d.portfolio.pending_orders d

  unfoldable pub expire_pending : ℕ → Broker R → Broker R
  unfolding on_desk expire_desk
  expire_pending now b = on_desk Market.us (expire_desk now) (on_desk Market.kr (expire_desk now) b)

  -- The calls of the broker in `_handle_corporate_action`.
  unfoldable pub close_for_corporate_action : MarketTick R → Desk R → Desk R
  close_for_corporate_action tick d =
      let d' = cancel_pending σ tick.symbol "CORPORATE_ACTION" OrderState.cancelled d in
      elim (lookup tick.symbol d'.portfolio.positions) [
        | none ↦ d'
        | some q ↦
            let closed =
              close_quantity σ q q.remaining tick "CORPORATE_ACTION" OrderState.closed d' in
            if le tick.bid tick.ask && is_trading tick.symbol_status then closed.1 else d'
      ]

  -- One call that changes the broker.
  pub data Step : Broker R → Broker R → Type 0 where
    submitted :
        (plan_id : String) (c : CandidatePlan R) (tick : MarketTick R) (b : Broker R)
        → Step b (on_desk tick.market (λ d. (submit_entry σ plan_id c tick d).1) b)
    ticked : (tick : MarketTick R) (b : Broker R) → Step b (on_desk tick.market (on_tick σ tick) b)
    cancelled :
        (m : Market) (symbol reason : String) (state : OrderState) (b : Broker R)
        → Step b (on_desk m (cancel_pending σ symbol reason state) b)
    expired : (now : ℕ) (b : Broker R) → Step b (expire_pending now b)
    invalidated :
        (tick : MarketTick R) (b : Broker R)
        → Step b (on_desk tick.market (close_for_corporate_action tick) b)
    forced :
        (m : Market) (ticks : Dict (MarketTick R)) (reason : String) (b : Broker R)
        → Step b (on_desk m (force_close σ ticks reason) b)
    reset : (m : Market) (b : Broker R) → Step b (on_desk m reset_day b)
    -- a write of the other components to the tables, which claims and frees no key
    written :
        (r : Repository R) (b : Broker R)
        → r.idempotency_keys ≡ b.repository.idempotency_keys
        → Step b (record b { repository = r })

  -- The brokers that calls can lead to, from a new one.
  pub data Reachable : Broker R → Type 0 where
    new : (r : Repository R) (draws : ℕ) → Reachable (new_broker r draws)
    next : {b c : Broker R} → Reachable b → Step b c → Reachable c

  -- The brokers that further calls can lead to.
  pub data Later (b : Broker R) : Broker R → Type 0 where
    now : Later b b
    then : {c d : Broker R} → Later b c → Step c d → Later b d

-- Each market's portfolio has the property, and a change of one market's desk that keeps it there keeps
-- it for all.
abbrev pub Each : {R : Type 0} → (Market → Portfolio R → Type 0) → Broker R → Type 0
Each P b = (m : Market) → P m (desk m b).portfolio

pub on_desk-Each :
    {R : Type 0} (P : Market → Portfolio R → Type 0) (m : Market) (change : Desk R → Desk R)
    (b : Broker R)
    → ((d : Desk R) → P m d.portfolio → P m (change d).portfolio)
    → Each P b
    → Each P (on_desk m change b)
unfolding on_desk desk put_desk account
on_desk-Each P Market.kr change b keeps h Market.kr = keeps (desk Market.kr b) (h Market.kr)
on_desk-Each P Market.kr change b keeps h Market.us = h Market.us
on_desk-Each P Market.us change b keeps h Market.kr = h Market.kr
on_desk-Each P Market.us change b keeps h Market.us = keeps (desk Market.us b) (h Market.us)

pub written-Each :
    {R : Type 0} (P : Market → Portfolio R → Type 0) (r : Repository R) (b : Broker R)
    → Each P b
    → Each P (record b { repository = r })
unfolding desk account
written-Each P r b h Market.kr = h Market.kr
written-Each P r b h Market.us = h Market.us

pub on_desk-repository :
    {R : Type 0} (m : Market) (change : Desk R → Desk R) (b : Broker R)
    → (on_desk m change b).repository ≡ (change (desk m b)).repository
unfolding on_desk put_desk
on_desk-repository Market.kr change b = refl
on_desk-repository Market.us change b = refl
