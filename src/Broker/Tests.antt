-- ===== src/Broker/Tests.antt =====
-- Runs of the broker in whole units of money, and its theorems at concrete inputs.
use ai_daytrader_sim.Prelude.{
  All, ◌⊎◌, ◌≡◌, ◌≢◌, refl, true, false, min, none, some, [], ◌∷◌, arith,
}
use ai_daytrader_sim.Prelude.Dict.{lookup}
use ai_daytrader_sim.Prelude.Text.{upper}
use ai_daytrader_sim.Float.{num}
use ai_daytrader_sim.Float.Laws.{◌≼◌}
use ai_daytrader_sim.Float.Scaled.{ℤ, pos, negsuc, scaled_float, ℤ-IsOrdered, ℤ-IsFloored}
use ai_daytrader_sim.Models.{Market, OrderState, MarketTick}
use ai_daytrader_sim.Portfolio.{PendingOrder}
use ai_daytrader_sim.Repository.{empty, Event}
use ai_daytrader_sim.Broker.{Desk}
use ai_daytrader_sim.Broker.Filling.{Outcome, process_pending-Outcome}
use ai_daytrader_sim.Broker.Accounts.{Accounts, close_quantity-Accounts}
use ai_daytrader_sim.Broker.Fresh.{FreshDay, ensure_session-FreshDay}
use ai_daytrader_sim.Broker.Report.{performance, performance-drawdown, drawdowns, closed_trade_pnls}
use ai_daytrader_sim.Broker.Costs.{entry_fill, worst_case_risk_per_share}
use ai_daytrader_sim.Broker.Sessions.{can_submit, ensure_session, admission, same_date}
use ai_daytrader_sim.Broker.Entries.{submit_entry, entry_quantity, claim_and_place}
use ai_daytrader_sim.Broker.Ticks.{
  on_tick, on_position, resume, manage_position, no_progress, watch_vwap, walk_targets, member,
}
use ai_daytrader_sim.Broker.Fills.{
  allocate_targets, process_pending, process_order, quote_usable, try_fill, apply_entry_fill,
  visible_quantity,
}
use ai_daytrader_sim.Broker.Exits.{close_quantity, force_close, process_exit_pending, put_position}
use ai_daytrader_sim.Broker.Risk.{Capped, entry_risk_cap}
use ai_daytrader_sim.Broker.Limit.{WithinLimit, submissions_limit}
use ai_daytrader_sim.Broker.Submissions.{entry_accepted_once}
use ai_daytrader_sim.Broker.Targets.{prices, total, Shares, allocate_targets-share_out}
use ai_daytrader_sim.Broker.Expiry.{live, expire_pending-live}
use ai_daytrader_sim.Broker.Flat.{Covered, IsFlat, force_close-IsFlat}
use ai_daytrader_sim.Broker.Paused.{Meanwhile, cooldown_end, stop_pauses_entries}
use ai_daytrader_sim.Broker.Slot.Submit.{Placed, submit_entry-Placed}
use ai_daytrader_sim.Broker.Slot.Fill.{Processed, process_pending-Processed}
use ai_daytrader_sim.Broker.Slot.Reach.{OneSlotEach, one_slot}
use ai_daytrader_sim.Broker.Markets.{
  Each, expire_pending, account, desk, on_desk, new_broker, Step, Reachable, Later,
}
use ai_daytrader_sim.Broker.Sample.{
  cost, setup, plan, signal, fill, quote, start, submitted, bought, shares, holding, order,
  part_filled,
}

bought-Reachable : Reachable setup bought
bought-Reachable =
    Reachable.next
      (Reachable.next (Reachable.new empty 0) (Step.submitted "plan-0001" plan signal start))
      (Step.ticked fill submitted)

accepted : (submit_entry setup "plan-0001" plan signal (desk Market.kr start)).0 ≡ none
unfolding submit_entry can_submit ensure_session admission worst_case_risk_per_share entry_quantity
    claim_and_place desk new_broker account upper
accepted = refl

one_slot_example : OneSlotEach bought
one_slot_example = one_slot setup bought bought-Reachable

submissions_limit_example : Each (WithinLimit setup) bought
submissions_limit_example = submissions_limit setup bought bought-Reachable

submit_entry-Placed_example :
    let began = ensure_session setup Market.kr 1_000_000 (desk Market.kr start) in
    Placed setup "plan-0001" plan signal began.draws began.portfolio
      (submit_entry setup "plan-0001" plan signal (desk Market.kr start)).1
submit_entry-Placed_example =
    submit_entry-Placed setup "plan-0001" plan signal (desk Market.kr start) accepted

entry_accepted_once_example :
    (submit_entry setup "plan-0001" plan fill (desk Market.kr bought)).0 ≢ none
entry_accepted_once_example =
    entry_accepted_once setup "plan-0001" plan plan signal fill start bought refl accepted
      (Later.then Later.now (Step.ticked fill submitted))

entry_risk_cap_example :
    let p = (ensure_session setup Market.kr 1_000_000 (desk Market.kr start)).portfolio in
    (o : PendingOrder ℤ) × (lookup "005930"
        (submit_entry setup "plan-0001" plan signal
          (desk Market.kr start)).1.portfolio.pending_orders
      ≡ some o)
    × (o.risk_per_share ≡ worst_case_risk_per_share cost plan)
    × Capped cost plan p o.risk_per_share o.desired_quantity
unfolding ensure_session desk new_broker account
entry_risk_cap_example =
    entry_risk_cap setup ℤ-IsOrdered ℤ-IsFloored "plan-0001" plan signal (desk Market.kr start)
      accepted

process_pending-Processed_example :
    Processed setup fill
      (desk Market.kr submitted)
      (process_pending setup fill (desk Market.kr submitted))
process_pending-Processed_example = process_pending-Processed setup fill (desk Market.kr submitted)

allocate_targets-share_out_example :
    let targets = allocate_targets 5 ((pos 10_400, 50) ∷ (pos 10_800, 50) ∷ []) in
    (prices targets ≡ pos 10_400 ∷ pos 10_800 ∷ [])
    × (total targets ≡ 5)
    × Shares 5 5 ((pos 10_400, 50) ∷ (pos 10_800, 50) ∷ []) targets
allocate_targets-share_out_example =
    allocate_targets-share_out 5 (pos 10_400, 50) ((pos 10_800, 50) ∷ [])

close_quantity-Accounts_example :
    let r = close_quantity setup shares 50 fill "TAKE_PROFIT_1" OrderState.closed holding in
    ((min 50 120 ≡ 0) × (r ≡ (shares, holding)))
    ⊎ (Accounts cost shares 50 fill "TAKE_PROFIT_1" holding.portfolio r.0 r.1.portfolio
        × (r.1.saved ≡ some r.1.portfolio))
close_quantity-Accounts_example =
    close_quantity-Accounts setup shares 50 fill "TAKE_PROFIT_1" OrderState.closed holding

expire_pending-live_example :
    (desk Market.kr (expire_pending setup 40_000_000 bought)).portfolio
    ≡ record ((desk Market.kr bought).portfolio) {
      pending_orders = live 40_000_000 (desk Market.kr bought).portfolio.pending_orders;
    }
expire_pending-live_example = expire_pending-live setup 40_000_000 bought Market.kr bought-Reachable

covered : Covered (("005930", fill) ∷ []) (desk Market.kr bought).portfolio.positions
unfolding desk account on_desk on_tick process_pending submit_entry upper can_submit admission
    ensure_session new_broker worst_case_risk_per_share entry_quantity claim_and_place process_order
    quote_usable try_fill entry_fill apply_entry_fill visible_quantity on_position resume
    process_exit_pending manage_position no_progress watch_vwap walk_targets member put_position
covered = ((fill, refl), tt)

force_close-IsFlat_example :
    IsFlat
      (force_close setup
        (("005930", fill) ∷ [])
        "SESSION_FORCE_CLOSE"
        (desk Market.kr bought)).portfolio
force_close-IsFlat_example =
    force_close-IsFlat setup bought Market.kr (("005930", fill) ∷ []) "SESSION_FORCE_CLOSE"
      bought-Reachable covered

-- The stop, a refused submission and a tick, and then a submission.
abbrev stop_tick : MarketTick ℤ
stop_tick = quote 9_000_000 9_790

abbrev stopped : Desk ℤ
stopped = (close_quantity setup shares 120 stop_tick "STOP_LOSS" OrderState.closed holding).1

abbrev refused_once : Desk ℤ
refused_once = (submit_entry setup "plan-0002" plan (quote 30_000_000 9_980) stopped).1

in_the_meantime :
    Meanwhile setup Market.kr 20_000
      (cooldown_end setup shares stop_tick)
      stopped
      (on_tick setup (quote 40_000_000 9_980) refused_once)
in_the_meantime = Meanwhile.ticked (quote 40_000_000 9_980) (
    Meanwhile.submitted "plan-0002" plan (quote 30_000_000 9_980) (refl, refl, omega arith)
      Meanwhile.now)

stop_pauses_entries_example :
    (submit_entry setup "plan-0002" plan
      (quote 60_000_000 9_980)
      (on_tick setup (quote 40_000_000 9_980) refused_once)).0
    ≢ none
stop_pauses_entries_example =
    stop_pauses_entries setup "005930" shares stop_tick (quote 60_000_000 9_980) OrderState.closed
      "plan-0002" plan 20_000 holding (on_tick setup (quote 40_000_000 9_980) refused_once)
      ((refl, (refl, (omega arith, omega arith))), tt) refl (omega arith) refl refl
      (refl, refl, omega arith) in_the_meantime

ensure_session-FreshDay_example :
    let d = desk Market.kr start in
    let d' = ensure_session setup Market.kr 1_000_000 d in
    (((same_date d.portfolio.session_date 20_000 ≡ true) × (d' ≡ d))
      ⊎ ((same_date d.portfolio.session_date 20_000 ≡ false)
          × FreshDay 20_000 d.portfolio d'.portfolio))
    × (ensure_session setup Market.kr 2_000_000 d' ≡ d')
ensure_session-FreshDay_example =
    ensure_session-FreshDay setup Market.kr 1_000_000 2_000_000 (desk Market.kr start) refl

-- A market that has won 100,000 and then lost 300,000.
abbrev traded : Desk ℤ
traded = record holding {
  repository = record empty {
    events =
        Event.paper_position_closed Market.kr "005930" "plan-0002" (negsuc 299_999) (pos 40)
          "STOP_LOSS"
        ∷ Event.paper_position_closed Market.kr "005930" "plan-0001" (pos 100_000) (pos 40)
            "TAKE_PROFIT_1"
        ∷ [];
  };
}

performance-drawdown_example :
    let greatest = (performance Market.kr traded).max_drawdown_pct in
    (num 0 ≼ greatest)
    × All
        (λ x. x ≼ greatest)
        (drawdowns
          (pos 10_000_000)
          (pos 10_000_000)
          (closed_trade_pnls Market.kr traded.repository))
performance-drawdown_example = performance-drawdown ℤ-IsOrdered Market.kr traded

process_pending-Outcome_example :
    Outcome true order 200
      (pos 9_995)
      part_filled.portfolio
      (process_pending setup fill part_filled).portfolio
process_pending-Outcome_example =
    process_pending-Outcome setup ℤ-IsOrdered order fill part_filled refl
