-- ===== src/Broker/Paused.antt =====
-- The pause after a stop: what the calls of the broker do to a market that waits for the end of its
-- cooldown with nothing open and nothing pending.
use mathlib.Core.Path.{subst⁻¹}
use ai_daytrader_sim.Prelude.{
  ℕ, ◌+◌, ◌*◌, ◌<◌, String, ◌≡◌, ◌≢◌, refl, sym, ap, ◌∙◌, true, false, none, some, [], arith, inl,
  inr, Option-cases, ltb,
}
use ai_daytrader_sim.Prelude.Dict.{Dict, lookup}
use ai_daytrader_sim.Float.{Float}
use ai_daytrader_sim.Models.{Market, OrderState, MarketTick, CandidatePlan, us_per_minute}
use ai_daytrader_sim.Portfolio.{Portfolio, Position}
use ai_daytrader_sim.Broker.{Setup, Desk}
use ai_daytrader_sim.Broker.Sessions.{cancel_pending, cancel_each, same_date, is_before}
use ai_daytrader_sim.Broker.Entries.{submit_entry}
use ai_daytrader_sim.Broker.Fills.{process_pending}
use ai_daytrader_sim.Broker.Exits.{
  credited, closed_counters, close_quantity, close_each, force_close,
}
use ai_daytrader_sim.Broker.Ticks.{on_tick}
use ai_daytrader_sim.Broker.Markets.{expire_each, expire_desk, close_for_corporate_action}
use ai_daytrader_sim.Broker.Slot.{SlotAt}
use ai_daytrader_sim.Broker.Slot.Submit.{submit_entry-Placed, submit_entry-refused}
use ai_daytrader_sim.Broker.Flat.{close_all-portfolio, flat_portfolio-IsFlat}
use ai_daytrader_sim.Broker.Fresh.{ensure_session-kept, same_date-some}

-- Nothing is open or pending in the session of `date`, and the cooldown lasts until `until`.
abbrev pub Paused : {R : Type 0} → ℕ → ℕ → Portfolio R → Type 0
Paused date until p =
    (p.positions ≡ [])
    × (p.pending_orders ≡ [])
    × (p.session_date ≡ some date)
    × (p.cooldown_until ≡ some until)

module _ {R : Type 0} ⦃f : Float R⦄ (σ : Setup R) where
  -- A submission in the market on the local date `date` and before `until`.
  abbrev pub IsEarly : Market → ℕ → ℕ → MarketTick R → Type 0
  IsEarly m date until tick =
      (tick.market ≡ m)
      × (σ.local_date m tick.received_timestamp ≡ date)
      × (tick.received_timestamp < until)

  -- The desks of the market `m` that calls other than `reset_day` can lead to from `d`, with all
  -- submissions on `date` and before `until`.
  pub data Meanwhile (m : Market) (date until : ℕ) (d : Desk R) : Desk R → Type 0 where
    now : Meanwhile m date until d d
    submitted :
        {e : Desk R} (plan_id : String) (c : CandidatePlan R) (tick : MarketTick R)
        → IsEarly m date until tick
        → Meanwhile m date until d e
        → Meanwhile m date until d (submit_entry σ plan_id c tick e).1
    ticked :
        {e : Desk R} (tick : MarketTick R)
        → Meanwhile m date until d e
        → Meanwhile m date until d (on_tick σ tick e)
    cancelled :
        {e : Desk R} (symbol reason : String) (state : OrderState)
        → Meanwhile m date until d e
        → Meanwhile m date until d (cancel_pending σ symbol reason state e)
    expired :
        {e : Desk R} (at : ℕ)
        → Meanwhile m date until d e
        → Meanwhile m date until d (expire_desk σ at e)
    invalidated :
        {e : Desk R} (tick : MarketTick R)
        → Meanwhile m date until d e
        → Meanwhile m date until d (close_for_corporate_action σ tick e)
    forced :
        {e : Desk R} (ticks : Dict (MarketTick R)) (reason : String)
        → Meanwhile m date until d e
        → Meanwhile m date until d (force_close σ ticks reason e)
    -- a call for the other market, or a write of the other components
    elsewhere :
        {e : Desk R} (e' : Desk R)
        → e'.portfolio ≡ e.portfolio
        → Meanwhile m date until d e
        → Meanwhile m date until d e'

  -- With nothing open and nothing pending, these calls do nothing.
  cancel_pending-idle :
      (symbol reason : String) (state : OrderState) (d : Desk R)
      → d.portfolio.pending_orders ≡ []
      → cancel_pending σ symbol reason state d ≡ d
  unfolding cancel_pending
  cancel_pending-idle symbol reason state d h = rw h refl

  nothing_held :
      (symbol : String) (d : Desk R) {d' : Desk R}
      → d.portfolio.positions ≡ []
      → d' ≡ d
      → lookup symbol d'.portfolio.positions ≡ none
  nothing_held symbol d h idle =
      ap (λ (x : Desk R). lookup symbol x.portfolio.positions) idle ∙ ap (lookup symbol) h

  process_pending-idle :
      (tick : MarketTick R) (d : Desk R)
      → d.portfolio.pending_orders ≡ []
      → process_pending σ tick d ≡ d
  unfolding process_pending
  process_pending-idle tick d h = rw h refl

  on_tick-idle :
      (tick : MarketTick R) (d : Desk R)
      → d.portfolio.positions ≡ []
      → d.portfolio.pending_orders ≡ []
      → on_tick σ tick d ≡ d
  unfolding on_tick
  on_tick-idle tick d h k =
      let idle = process_pending-idle tick d k in
      rw (nothing_held tick.symbol d h idle, on_tick) idle

  expire_desk-idle :
      (at : ℕ) (d : Desk R) → d.portfolio.pending_orders ≡ [] → expire_desk σ at d ≡ d
  unfolding expire_desk expire_each
  expire_desk-idle at d h = rw h refl

  force_close-idle :
      (ticks : Dict (MarketTick R)) (reason : String) (d : Desk R)
      → d.portfolio.positions ≡ []
      → d.portfolio.pending_orders ≡ []
      → force_close σ ticks reason d ≡ d
  unfolding force_close cancel_each close_each
  force_close-idle ticks reason d h k = rw (k, h) refl

  close_for_corporate_action-idle :
      (tick : MarketTick R) (d : Desk R)
      → d.portfolio.positions ≡ []
      → d.portfolio.pending_orders ≡ []
      → close_for_corporate_action σ tick d ≡ d
  unfolding close_for_corporate_action
  close_for_corporate_action-idle tick d h k =
      let idle = cancel_pending-idle tick.symbol "CORPORATE_ACTION" OrderState.cancelled d k in
      rw (nothing_held tick.symbol d h idle, close_for_corporate_action) idle

  -- On the session's date and before the cooldown ends no entry is accepted.
  paused_refuses :
      (date until : ℕ) (plan_id : String) (c : CandidatePlan R) (tick : MarketTick R) (d : Desk R)
      → IsEarly tick.market date until tick
      → d.portfolio.session_date ≡ some date
      → d.portfolio.cooldown_until ≡ some until
      → (submit_entry σ plan_id c tick d).0 ≢ none
  paused_refuses date until plan_id c tick d (_, today, early) dated paused accepted =
      let at = tick.received_timestamp in
      let same : same_date d.portfolio.session_date (σ.local_date tick.market at) ≡ true =
        rw (dated, today) (same_date-some date) in
      let kept = ensure_session-kept σ tick.market at d same in
      let cooled = (submit_entry-Placed σ plan_id c tick d accepted).admitted.cooled_down in
      let over : ltb at until ≡ false =
        sym (ap (is_before at) (ap (λ (e : Desk R). e.portfolio.cooldown_until) kept ∙ paused))
        ∙ cooled in
      ground (arith, over, early)

  submit_entry-idle :
      (date until : ℕ) (plan_id : String) (c : CandidatePlan R) (tick : MarketTick R) (d : Desk R)
      → IsEarly tick.market date until tick
      → Paused date until d.portfolio
      → (submit_entry σ plan_id c tick d).1.portfolio ≡ d.portfolio
  submit_entry-idle date until plan_id c tick d early (qs, os, dated, paused) =
      elim (Option-cases (submit_entry σ plan_id c tick d).0) [
        | inl accepted ↦
            absurd (paused_refuses date until plan_id c tick d early dated paused accepted)
        | inr (x, refused) ↦ elim (submit_entry-refused σ plan_id c tick d refused) [
          | inl same ↦ ap (λ (e : Desk R). e.portfolio) same
          | inr began ↦
              let at = tick.received_timestamp in
              began
              ∙ ap (λ (e : Desk R). e.portfolio)
                  (ensure_session-kept σ tick.market at d
                    (rw (dated, early.1) (same_date-some date)))
        ]
      ]

  same-Paused :
      (date until : ℕ) (d e : Desk R)
      → e ≡ d
      → Paused date until d.portfolio
      → Paused date until e.portfolio
  same-Paused date until d e h p = subst⁻¹ (λ (x : Desk R). Paused date until x.portfolio) h p

  Meanwhile-Paused :
      (m : Market) (date until : ℕ) (d : Desk R) {e : Desk R}
      → Paused date until d.portfolio
      → Meanwhile m date until d e
      → Paused date until e.portfolio
  Meanwhile-Paused m date until d p now = p
  Meanwhile-Paused m date until d p (submitted {e} plan_id c tick (market, today, soon) h) =
      let q = Meanwhile-Paused m date until d p h in
      subst⁻¹ (Paused date until)
        (submit_entry-idle date until plan_id c tick e
          (refl, ap (λ n. σ.local_date n tick.received_timestamp) market ∙ today, soon) q)
        q
  Meanwhile-Paused m date until d p (ticked {e} tick h) =
      let q = Meanwhile-Paused m date until d p h in
      same-Paused date until e _ (on_tick-idle tick e q.0 q.1) q
  Meanwhile-Paused m date until d p (cancelled {e} symbol reason state h) =
      let q = Meanwhile-Paused m date until d p h in
      same-Paused date until e _ (cancel_pending-idle symbol reason state e q.1) q
  Meanwhile-Paused m date until d p (expired {e} at h) =
      let q = Meanwhile-Paused m date until d p h in
      same-Paused date until e _ (expire_desk-idle at e q.1) q
  Meanwhile-Paused m date until d p (invalidated {e} tick h) =
      let q = Meanwhile-Paused m date until d p h in
      same-Paused date until e _ (close_for_corporate_action-idle tick e q.0 q.1) q
  Meanwhile-Paused m date until d p (forced {e} ticks reason h) =
      let q = Meanwhile-Paused m date until d p h in
      same-Paused date until e _ (force_close-idle ticks reason e q.0 q.1) q
  Meanwhile-Paused m date until d p (elsewhere e' same h) =
      subst⁻¹ (Paused date until) same (Meanwhile-Paused m date until d p h)

  -- The end of the cooldown that a stop on the tick begins.
  abbrev pub cooldown_end : Position R → MarketTick R → ℕ
  cooldown_end q tick =
      tick.received_timestamp + (σ.costs q.market).stop_cooldown_minutes * us_per_minute

  stopped-Paused :
      (k : String) (q : Position R) (tick : MarketTick R) (state : OrderState) (date : ℕ)
      (d : Desk R)
      → SlotAt k d.portfolio
      → q.symbol ≡ k
      → 0 < q.remaining
      → d.portfolio.pending_orders ≡ []
      → d.portfolio.session_date ≡ some date
      → Paused date
          (cooldown_end q tick)
          (close_quantity σ q q.remaining tick "STOP_LOSS" state d).1.portfolio
  unfolding closed_counters credited
  stopped-Paused k q tick state date d (qs, _) s held os dated =
      let (no_positions, no_orders) =
        flat_portfolio-IsFlat σ k q tick "STOP_LOSS" d.portfolio qs s os in
      subst⁻¹ (Paused date (cooldown_end q tick))
        (close_all-portfolio σ q tick "STOP_LOSS" state d held)
        (no_positions, no_orders, dated, refl)

  -- After a stop closes the one position of a market in which no order is pending, and after any run
  -- of calls of the broker but `reset_day` whose submissions in that market come on the session's date
  -- and before `stop_cooldown_minutes` have passed since the tick of the stop, a further such
  -- submission is refused.
  pub stop_pauses_entries :
      (k : String) (q : Position R) (tick tick' : MarketTick R) (state : OrderState)
      (plan_id : String) (c : CandidatePlan R) (date : ℕ) (d e : Desk R)
      → SlotAt k d.portfolio
      → q.symbol ≡ k
      → 0 < q.remaining
      → d.portfolio.pending_orders ≡ []
      → d.portfolio.session_date ≡ some date
      → IsEarly tick'.market date (cooldown_end q tick) tick'
      → Meanwhile tick'.market date
          (cooldown_end q tick)
          (close_quantity σ q q.remaining tick "STOP_LOSS" state d).1
          e
      → (submit_entry σ plan_id c tick' e).0 ≢ none
  stop_pauses_entries k q tick tick' state plan_id c date d e slot s held os dated early run =
      let d' = (close_quantity σ q q.remaining tick "STOP_LOSS" state d).1 in
      let (_, _, dated', paused) =
        Meanwhile-Paused tick'.market date (cooldown_end q tick) d'
          (stopped-Paused k q tick state date d slot s held os dated) run in
      paused_refuses date (cooldown_end q tick) plan_id c tick' e early dated' paused
