-- ===== src/Engine/Calls.antt =====
-- What the steps of an entry do to the broker: calls of its operations, and writes to the tables that
-- leave the idempotency keys alone.
use ai_daytrader_sim.Prelude.{
  ℕ, String, ◌<>◌, ◌≡◌, refl, Bool, true, false, not, Option, none, some, List, [], ◌∷◌, inl, inr,
  Bool-cases, Option-cases, is_empty, is_some, or_else, if◌then◌else◌,
}
use ai_daytrader_sim.Prelude.Dict.{Dict}
use ai_daytrader_sim.Prelude.Text.{upper}
use ai_daytrader_sim.Float.{Float}
use ai_daytrader_sim.Models.{
  OrderState, PlanStatus, StrategyType, CandidatePlan, TradePlan, MarketTick,
}
use ai_daytrader_sim.Models.Rule.{Value}
use ai_daytrader_sim.MarketClock.{Calendar}
use ai_daytrader_sim.Repository.{Repository, Event, latest_order_state, add_event}
use ai_daytrader_sim.Repository.Plans.{find_plan, same_status, set_plan_status}
use ai_daytrader_sim.Rules.{evaluate_group}
use ai_daytrader_sim.Pullback.{
  Phase, phase_name, same_phase, Decision, Machine, mark_submission, mark_terminal,
}
use ai_daytrader_sim.Pullback.Evaluate.{evaluate}
use ai_daytrader_sim.Pullback.Writes.{
  keys_of, KeepsKeys, mark_submission-KeepsKeys, mark_terminal-KeepsKeys, Evaluated,
  evaluate-Evaluated,
}
use ai_daytrader_sim.Broker.{Setup}
use ai_daytrader_sim.Broker.Sessions.{Refusal, refusal_name}
use ai_daytrader_sim.Broker.Entries.{submit_entry}
use ai_daytrader_sim.Broker.Markets.{Broker, desk, on_desk, Step, Later}
use ai_daytrader_sim.Engine.{
  Core, FeedState, write, log_rejection, machine, put_machine, on_machine, context, lookup2,
  insert2,
}
use ai_daytrader_sim.Engine.Ready.{is_rules, eligible_time, entry_reasons}
use ai_daytrader_sim.Engine.Entry.{
  ended_phase, reason_of, mark, after_pending, follow_execution, conclude_entry, submit, try_rules,
  tick_date, act_on, try_pullback, try_entry,
}

module _ {R : Type 0} ⦃f : Float R⦄ (σ : Setup R) where
  -- The broker of the second core is one that calls and writes lead to from that of the first.
  abbrev pub Leads : Core R → Core R → Type 0
  Leads k k' = Later σ k.broker k'.broker

  pub Later-trans : {a b c : Broker R} → Later σ a b → Later σ b c → Later σ a c
  Later-trans h Later.now = h
  Later-trans h (Later.then k s) = Later.then (Later-trans h k) s

  pub if-Leads :
      (k : Core R) (t : Bool) (x y : Core R) → Leads k x → Leads k y → Leads k (if t then x else y)
  if-Leads k true x y h g = h
  if-Leads k false x y h g = g

  pub write-Leads :
      (change : Repository R → Repository R) (k : Core R)
      → (change k.broker.repository).idempotency_keys ≡ k.broker.repository.idempotency_keys
      → Leads k (write change k)
  unfolding write
  write-Leads change k e =
      Later.then Later.now (Step.written (change k.broker.repository) k.broker e)

  pub log_rejection-Leads :
      (tick : MarketTick R) (plan_id : Option String) (reasons : List String) (event_type : String)
      (k : Core R)
      → Leads k (log_rejection tick plan_id reasons event_type k)
  unfolding log_rejection add_event
  log_rejection-Leads tick plan_id reasons event_type k =
      write-Leads (add_event (Event.rejected event_type tick.market tick.symbol plan_id reasons)) k
        refl

  pub put_machine-Leads :
      (plan_id symbol : String) (s : Machine R) (k : Core R)
      → keys_of s ≡ k.broker.repository.idempotency_keys
      → Leads k (put_machine plan_id symbol s k)
  unfolding put_machine write
  put_machine-Leads plan_id symbol s k e =
      Later.then Later.now (Step.written s.repository k.broker e)

  pub on_machine-Leads :
      (plan_id symbol : String) (change : Machine R → Machine R) (k : Core R)
      → KeepsKeys change
      → Leads k (on_machine plan_id symbol change k)
  unfolding on_machine machine
  on_machine-Leads plan_id symbol change k keeps =
      put_machine-Leads plan_id symbol (change (machine plan_id symbol k)) k
        (keeps (machine plan_id symbol k))

  pub mark-Leads :
      (plan_id : String) (c : CandidatePlan R) (tick : MarketTick R) (phase : Phase)
      (reason : String) (k : Core R)
      → Leads k (mark plan_id c tick phase reason k)
  unfolding mark
  mark-Leads plan_id c tick phase reason k =
      on_machine-Leads plan_id c.symbol (mark_terminal plan_id c tick phase reason) k
        (mark_terminal-KeepsKeys plan_id c tick phase reason)

  set_plan_status-keys :
      (plan_id : String) (status : PlanStatus) (now : ℕ) (r : Repository R)
      → (set_plan_status plan_id status now r).idempotency_keys ≡ r.idempotency_keys
  unfolding set_plan_status add_event
  set_plan_status-keys plan_id status now r = elim (Option-cases (find_plan plan_id r.plans)) [
    | inl e ↦ rw (e, set_plan_status) refl
    | inr (row, e) ↦ elim (Bool-cases (same_status row.status status)) [
      | inl s ↦ rw (e, set_plan_status, s) refl
      | inr s ↦ rw (e, set_plan_status, s) refl
    ]
  ]

  pub set_plan_status-Leads :
      (plan_id : String) (status : PlanStatus) (now : ℕ) (k : Core R)
      → Leads k (write (set_plan_status plan_id status now) k)
  set_plan_status-Leads plan_id status now k =
      write-Leads (set_plan_status plan_id status now) k
        (set_plan_status-keys plan_id status now k.broker.repository)

  conclude_entry-Leads :
      (plan_id : String) (c : CandidatePlan R) (tick : MarketTick R) (now : ℕ)
      (blocked : Option Refusal) (k : Core R)
      → Leads k (conclude_entry plan_id c tick now blocked k)
  unfolding conclude_entry
  conclude_entry-Leads plan_id c tick now blocked k =
      let accepted = not (is_some blocked) in
      let marked =
        if is_rules c.strategy_type
        then k
        else on_machine plan_id c.symbol
            (mark_submission plan_id c tick accepted (reason_of blocked)) k in
      let first : Leads k marked = elim (Bool-cases (is_rules c.strategy_type)) [
        | inl e ↦ rw e Later.now
        | inr e ↦ rw e (
            on_machine-Leads plan_id c.symbol
              (mark_submission plan_id c tick accepted (reason_of blocked)) k
              (mark_submission-KeepsKeys plan_id c tick accepted (reason_of blocked)))
      ] in
      Later-trans first (end_entry plan_id tick now blocked marked)
    where
      end_entry :
          (plan_id : String) (tick : MarketTick R) (now : ℕ) (blocked : Option Refusal) (k : Core R)
          → Leads k (elim blocked [
            | none ↦ write (set_plan_status plan_id PlanStatus.running now) k
            | some r ↦ log_rejection tick (some plan_id) (refusal_name r ∷ []) "ENTRY_REJECTED" k
          ])
      end_entry plan_id tick now none k = set_plan_status-Leads plan_id PlanStatus.running now k
      end_entry plan_id tick now (some r) k =
          log_rejection-Leads tick (some plan_id) (refusal_name r ∷ []) "ENTRY_REJECTED" k

  pub submit-Leads :
      (plan_id : String) (c : CandidatePlan R) (tick : MarketTick R) (now : ℕ) (k : Core R)
      → Leads k (submit σ plan_id c tick now k)
  unfolding submit
  submit-Leads plan_id c tick now k =
      let b = k.broker in
      let blocked = (submit_entry σ plan_id c tick (desk tick.market b)).0 in
      let k' = record k {
        broker = on_desk tick.market (λ d. (submit_entry σ plan_id c tick d).1) b;
      } in
      Later-trans (Later.then Later.now (Step.submitted plan_id c tick b))
        (conclude_entry-Leads plan_id c tick now blocked k')

  pub try_rules-Leads :
      (plan_id : String) (c : CandidatePlan R) (tick : MarketTick R) (now : ℕ)
      (previous : Option (Dict (Value R))) (k : Core R)
      → Leads k (try_rules σ plan_id c tick now previous k)
  unfolding try_rules
  try_rules-Leads plan_id c tick now previous k =
      let symbol = upper tick.symbol in
      let states = or_else (lookup2 symbol plan_id k.cross_states) [] in
      let (result, states') =
        evaluate_group "root" c.entry.rules (context tick) previous states tick.source_timestamp in
      let noted = record k { cross_states = insert2 symbol plan_id states' k.cross_states } in
      if-Leads k c.entry.price_only _ _ (submit-Leads plan_id c tick now k) (
        if-Leads k result _ _ (submit-Leads plan_id c tick now noted) (
          log_rejection-Leads tick (some plan_id) ("INDICATOR_RULES_NOT_MET" ∷ []) "ENTRY_REJECTED"
            noted))

  -- A part of an entry that may end it leads on where it does.
  abbrev Followed : Core R → Option (Core R) → Type 0
  Followed k none = Unit
  Followed k (some k') = Leads k k'

  after_pending-Followed :
      (plan_id : String) (c : CandidatePlan R) (tick : MarketTick R) (k : Core R)
      → Followed k (after_pending plan_id c tick k)
  unfolding after_pending
  after_pending-Followed plan_id c tick k =
      elim (Bool-cases
        (not (same_phase (machine plan_id c.symbol k).state.phase Phase.entry_pending))) [
          | inl e ↦ rw e tt
          | inr e ↦ rw e (ended (latest_order_state plan_id c.symbol k.broker.repository))
        ]
    where
      ended :
          (latest : Option OrderState)
          → Followed k (elim latest [
            | none ↦ none
            | some state ↦ elim (ended_phase state) [
              | none ↦ none
              | some (phase, name) ↦ some (mark plan_id c tick phase ("ORDER_" <> name) k)
            ]
          ])
      ended none = tt
      ended (some state) = elim (Option-cases (ended_phase state)) [
        | inl e ↦ rw e tt
        | inr ((phase, name), e) ↦ rw e (mark-Leads plan_id c tick phase ("ORDER_" <> name) k)
      ]

  follow_execution-Followed :
      (plan_id : String) (c : CandidatePlan R) (tick : MarketTick R) (k : Core R)
      → Followed k (follow_execution plan_id c tick k)
  unfolding follow_execution
  follow_execution-Followed plan_id c tick k =
      choose _ _ _ _ _ (mark-Leads plan_id c tick Phase.position_open "POSITION_CONFIRMED" k)
        (on_machine-Leads plan_id c.symbol
          (mark_submission plan_id c tick true (some "ORDER_CONFIRMED")) k
          (mark_submission-KeepsKeys plan_id c tick true (some "ORDER_CONFIRMED")))
        (after_pending-Followed plan_id c tick k)
    where
      choose :
          (x y : Core R) (z : Option (Core R)) (a b : Bool)
          → Leads k x
          → Leads k y
          → Followed k z
          → Followed k (if a then some x else if b then some y else z)
      choose x y z true b p q r = p
      choose x y z false true p q r = q
      choose x y z false false p q r = r

module _ {R : Type 0} ⦃f : Float R⦄ (σ : Setup R) (c : Calendar) (fmean : List R → R) where
  act_on-Leads :
      (plan_id : String) (x : CandidatePlan R) (tick : MarketTick R) (now : ℕ)
      (answer : Option (Decision × Machine R)) (k : Core R)
      → Evaluated fmean (tick_date σ c fmean) (machine plan_id x.symbol k) answer
      → Leads σ k (act_on σ c fmean plan_id x tick now answer k)
  unfolding act_on machine
  act_on-Leads plan_id x tick now none k h = Later.now
  act_on-Leads plan_id x tick now (some (decision, s)) k h =
      let evaluated = put_machine plan_id x.symbol s k in
      let first = put_machine-Leads σ plan_id x.symbol s k h in
      elim (Bool-cases decision.signal) [
        | inl e ↦ rw e (Later-trans σ first (submit-Leads σ plan_id x tick now evaluated))
        | inr e ↦ rw e (
            Later-trans σ first (
              log_rejection-Leads σ tick (some plan_id)
                (("PULLBACK_" <> phase_name decision.phase) ∷ decision.reasons) "ENTRY_REJECTED"
                evaluated))
      ]

  try_pullback-Leads :
      (plan_id : String) (x : CandidatePlan R) (tick : MarketTick R) (now : ℕ)
      (previous : Option (Dict (Value R))) (k : Core R)
      → Leads σ k (try_pullback σ c fmean plan_id x tick now previous k)
  unfolding try_pullback
  try_pullback-Leads plan_id x tick now previous k =
      resume (follow_execution plan_id x tick k) (follow_execution-Followed σ plan_id x tick k)
    where
      resume :
          (done : Option (Core R))
          → Followed σ k done
          → Leads σ k (elim done [
            | some k' ↦ k'
            | none ↦
                act_on σ c fmean plan_id x tick now
                  (evaluate fmean
                    (tick_date σ c fmean)
                    plan_id
                    x
                    tick
                    previous
                    (eligible_time c x tick)
                    (machine plan_id x.symbol k))
                  k
          ])
      resume (some k') h = h
      resume none h = act_on-Leads plan_id x tick now _ k (
          evaluate-Evaluated fmean (tick_date σ c fmean) plan_id x tick previous
            (eligible_time c x tick) (machine plan_id x.symbol k))

  pub try_entry-Leads :
      (plan : TradePlan R) (x : CandidatePlan R) (tick : MarketTick R) (feed : FeedState) (now : ℕ)
      (previous : Option (Dict (Value R))) (k : Core R)
      → Leads σ k (try_entry σ c fmean plan x tick feed now previous k)
  unfolding try_entry
  try_entry-Leads plan x tick feed now previous k =
      let reasons = entry_reasons c (σ.costs tick.market) x tick feed in
      elim (Bool-cases (not (is_empty reasons))) [
        | inl e ↦ rw e (log_rejection-Leads σ tick (some plan.plan_id) reasons "ENTRY_REJECTED" k)
        | inr e ↦ rw e (by_strategy x.strategy_type)
      ]
    where
      by_strategy :
          (s : StrategyType)
          → Leads σ k (elim s [
            | StrategyType.pullback_rebreak ↦
                try_pullback σ c fmean plan.plan_id x tick now previous k
            | StrategyType.rules ↦ try_rules σ plan.plan_id x tick now previous k
          ])
      by_strategy StrategyType.pullback_rebreak =
          try_pullback-Leads plan.plan_id x tick now previous k
      by_strategy StrategyType.rules = try_rules-Leads σ plan.plan_id x tick now previous k
