-- ===== src/Broker/Submissions.antt =====
-- Submissions over the life of a broker: an entry is accepted once, and the day's submissions keep
-- their limit.
use mathlib.Core.Path.{subst, subst⁻¹}
use ai_daytrader_sim.Prelude.{
  ℕ, String, ◌<>◌, ◌≡◌, ◌≢◌, refl, ap, ◌⊎◌, true, false, Option, none, List, ◌∷◌, arith, inl, inr,
  Bool-cases,
}
use ai_daytrader_sim.Prelude.Dict.{keys}
use ai_daytrader_sim.Prelude.Text.{upper}
use ai_daytrader_sim.Float.{Float}
use ai_daytrader_sim.Models.{Market, OrderState, MarketTick, CandidatePlan}
use ai_daytrader_sim.Portfolio.{PendingOrder}
use ai_daytrader_sim.Repository.{Repository, contains, claim_idempotency_key, add_event}
use ai_daytrader_sim.Repository.Keys.{contains-head, contains-tail}
use ai_daytrader_sim.KisOrders.{record_new_order}
use ai_daytrader_sim.Broker.{Setup, Desk, save, log, with_portfolio, order_event}
use ai_daytrader_sim.Broker.Costs.{worst_case_risk_per_share}
use ai_daytrader_sim.Broker.Sessions.{
  Refusal, cancel_pending, ensure_session, fresh_session, can_submit, same_date,
}
use ai_daytrader_sim.Broker.Entries.{
  entry_key, entry_quantity, new_order, record_entry, place, claim_and_place, submit_entry,
}
use ai_daytrader_sim.Broker.Exits.{force_close, reset_day}
use ai_daytrader_sim.Broker.Ticks.{on_tick}
use ai_daytrader_sim.Broker.Markets.{
  Broker, desk, on_desk, on_desk-repository, expire_desk, expire_pending,
  close_for_corporate_action, Step, Later,
}
use ai_daytrader_sim.Broker.Quiet.{
  Quiet, store-keys, cancel_pending-Quiet, cancel_each-Quiet, force_close-Quiet,
}
use ai_daytrader_sim.Broker.Quiet.Ticks.{on_tick-Quiet}
use ai_daytrader_sim.Broker.Quiet.Calls.{expire_desk-Quiet, close_for_corporate_action-Quiet}

abbrev pub keys_of : {R : Type 0} → Desk R → List String
keys_of d = d.repository.idempotency_keys

module _ {R : Type 0} ⦃f : Float R⦄ (σ : Setup R) where
  record_entry-keys :
      (o : PendingOrder R) (r : Repository R)
      → (record_entry σ o r).1.idempotency_keys ≡ r.idempotency_keys
  unfolding record_entry record_new_order
  record_entry-keys o r = elim (Bool-cases σ.recording) [
    | inl e ↦ rw e (store-keys _ r)
    | inr e ↦ rw e refl
  ]

  ensure_session-keys :
      (m : Market) (at : ℕ) (d : Desk R) → keys_of (ensure_session σ m at d) ≡ keys_of d
  unfolding ensure_session log save with_portfolio add_event
  ensure_session-keys m at d =
      elim (Bool-cases (same_date d.portfolio.session_date (σ.local_date m at))) [
        | inl e ↦ rw (e, ensure_session) refl
        | inr e ↦
            rw (e, ensure_session)
              (cancel_each-Quiet σ (keys d.portfolio.pending_orders) "SESSION_CHANGED"
                OrderState.expired
                (with_portfolio (fresh_session (σ.local_date m at) d.portfolio) d)).0
      ]

  -- A claim adds its key at most, and an accepted order has claimed a key that was free.
  abbrev Claims : String → Desk R → (Option Refusal × Desk R) → Type 0
  Claims key d (reason, d') =
      ((keys_of d' ≡ keys_of d) ⊎ (keys_of d' ≡ key ∷ keys_of d))
      × (reason ≡ none → (contains key (keys_of d) ≡ false) × (keys_of d' ≡ key ∷ keys_of d))

  claim_and_place-Claims :
      (plan_id : String) (c : CandidatePlan R) (tick : MarketTick R) (quantity : ℕ) (risk : R)
      (d : Desk R)
      → Claims (entry_key plan_id c) d (claim_and_place σ plan_id c tick quantity risk d)
  unfolding claim_and_place claim_idempotency_key place save order_event log with_portfolio
      add_event
  claim_and_place-Claims plan_id c tick quantity risk d =
      let key = entry_key plan_id c in
      let r = record (d.repository) { idempotency_keys = key ∷ keys_of d } in
      let o = new_order (σ.costs tick.market) plan_id c tick (σ.uuid d.draws) quantity risk in
      let kept = record_entry-keys o r in
      elim (Bool-cases (contains key (keys_of d))) [
        | inl taken ↦ rw taken (inl refl, λ h. cc)
        | inr free ↦ elim (Bool-cases (record_entry σ o r).0) [
          | inl recorded ↦ rw (free, recorded) (inr kept, λ h. (refl, kept))
          | inr before ↦ rw (free, before) (inr kept, λ h. cc)
        ]
      ]

  submit_entry-Claims :
      (plan_id : String) (c : CandidatePlan R) (tick : MarketTick R) (d : Desk R)
      → Claims (entry_key plan_id c) d (submit_entry σ plan_id c tick d)
  unfolding submit_entry can_submit
  submit_entry-Claims plan_id c tick d =
      let cost = σ.costs tick.market in
      let began = ensure_session σ tick.market tick.received_timestamp d in
      let risk = worst_case_risk_per_share cost c in
      let quantity = entry_quantity cost c risk began.portfolio in
      ground (
        arith,
        claim_and_place-Claims plan_id c tick quantity risk began,
        ensure_session-keys tick.market tick.received_timestamp d,
      )

  -- The key is among the claimed ones, and stays there.
  abbrev Claimed : String → Broker R → Type 0
  Claimed key b = contains key b.repository.idempotency_keys ≡ true

  Claims-keep :
      (key j : String) (d : Desk R) (r : Option Refusal × Desk R)
      → Claims j d r
      → contains key (keys_of d) ≡ true
      → contains key (keys_of r.1) ≡ true
  Claims-keep key j d r (inl same, _) h = rw same h
  Claims-keep key j d r (inr more, _) h = rw more (contains-tail key j (keys_of d) h)

  reset_day-keys : (d : Desk R) → keys_of (reset_day d) ≡ keys_of d
  unfolding reset_day save with_portfolio
  reset_day-keys d = refl

  -- A call on one market that keeps the key on its desk keeps it in the broker.
  on_desk-Claimed :
      (key : String) (m : Market) (change : Desk R → Desk R) (b : Broker R)
      → ((d : Desk R) → contains key (keys_of d) ≡ true → contains key (keys_of (change d)) ≡ true)
      → Claimed key b
      → Claimed key (on_desk m change b)
  unfolding desk
  on_desk-Claimed key m change b keeps h =
      subst⁻¹ (λ (r : Repository R). contains key r.idempotency_keys ≡ true)
        (on_desk-repository m change b) (keeps (desk m b) h)

  Quiet-Claimed :
      (key : String) (d d' : Desk R)
      → Quiet d d'
      → contains key (keys_of d) ≡ true
      → contains key (keys_of d') ≡ true
  Quiet-Claimed key d d' (same, _) h = rw same h

  Step-Claimed : (key : String) {b c : Broker R} → Step σ b c → Claimed key b → Claimed key c
  unfolding expire_pending
  Step-Claimed key (Step.submitted plan_id c tick b) =
      on_desk-Claimed key tick.market (λ d. (submit_entry σ plan_id c tick d).1) b
        (λ d.
          Claims-keep key (entry_key plan_id c) d (submit_entry σ plan_id c tick d)
            (submit_entry-Claims plan_id c tick d))
  Step-Claimed key (Step.ticked tick b) =
      on_desk-Claimed key tick.market (on_tick σ tick) b
        (λ d. Quiet-Claimed key d (on_tick σ tick d) (on_tick-Quiet σ tick d))
  Step-Claimed key (Step.cancelled m symbol reason state b) =
      on_desk-Claimed key m (cancel_pending σ symbol reason state) b (λ d.
        Quiet-Claimed key d (cancel_pending σ symbol reason state d)
          (cancel_pending-Quiet σ symbol reason state d))
  Step-Claimed key (Step.expired now b) = λ h.
      let quiet =
        λ (d : Desk R). Quiet-Claimed key d (expire_desk σ now d) (expire_desk-Quiet σ now d) in
      on_desk-Claimed key Market.us (expire_desk σ now) (on_desk Market.kr (expire_desk σ now) b)
        quiet (on_desk-Claimed key Market.kr (expire_desk σ now) b quiet h)
  Step-Claimed key (Step.invalidated tick b) =
      on_desk-Claimed key tick.market (close_for_corporate_action σ tick) b (λ d.
        Quiet-Claimed key d (close_for_corporate_action σ tick d)
          (close_for_corporate_action-Quiet σ tick d))
  Step-Claimed key (Step.forced m ticks reason b) =
      on_desk-Claimed key m (force_close σ ticks reason) b (λ d.
        Quiet-Claimed key d (force_close σ ticks reason d) (force_close-Quiet σ ticks reason d))
  Step-Claimed key (Step.reset m b) =
      on_desk-Claimed key m reset_day b (λ d h. rw (reset_day-keys d) h)
  Step-Claimed key (Step.written r b e) = λ h. rw e h

  Later-Claimed : (key : String) {b c : Broker R} → Later σ b c → Claimed key b → Claimed key c
  Later-Claimed key Later.now h = h
  Later-Claimed key (Later.then later step) h = Step-Claimed key step (Later-Claimed key later h)

  -- Once an entry of a plan for a symbol is accepted, no later submission of that plan for that symbol
  -- (in upper case) is accepted, in any market and whatever the broker does in between, session
  -- changes and resets of the day included.
  pub entry_accepted_once :
      (plan_id : String) (c c' : CandidatePlan R) (tick tick' : MarketTick R) (b b' : Broker R)
      → upper c'.symbol ≡ upper c.symbol
      → (submit_entry σ plan_id c tick (desk tick.market b)).0 ≡ none
      → Later σ (on_desk tick.market (λ d. (submit_entry σ plan_id c tick d).1) b) b'
      → (submit_entry σ plan_id c' tick' (desk tick'.market b')).0 ≢ none
  unfolding desk
  entry_accepted_once plan_id c c' tick tick' b b' same accepted later again =
      let key = entry_key plan_id c in
      let (_, added) = (submit_entry-Claims plan_id c tick (desk tick.market b)).1 accepted in
      let first : Claimed key (on_desk tick.market (λ d. (submit_entry σ plan_id c tick d).1) b) =
        subst⁻¹ (λ (r : Repository R). contains key r.idempotency_keys ≡ true)
          (on_desk-repository tick.market (λ d. (submit_entry σ plan_id c tick d).1) b)
          (rw added (contains-head key (keys_of (desk tick.market b)))) in
      let still = Later-Claimed key later first in
      let (free, _) = (submit_entry-Claims plan_id c' tick' (desk tick'.market b')).1 again in
      let same_key : entry_key plan_id c' ≡ key = ap (λ s. plan_id <> ":" <> s <> ":ENTRY") same in
      let free' : contains key b'.repository.idempotency_keys ≡ false =
        subst (λ k. contains k b'.repository.idempotency_keys ≡ false) same_key free in
      cc
