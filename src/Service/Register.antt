-- ===== src/Service/Register.antt =====
-- The registration of a plan, from the request to the tables.
use ai_daytrader_sim.Prelude.{
  ℕ, String, ◌≡◌, refl, true, Option, [], ◌∷◌, All, inl, inr, Bool-cases,
}
use ai_daytrader_sim.Prelude.Result.{Result, ok, error, is_ok}
use ai_daytrader_sim.Float.{Float}
use ai_daytrader_sim.Models.{Market, CostConfig, TradePlan}
use ai_daytrader_sim.MarketClock.{Calendar}
use ai_daytrader_sim.Repository.{Repository, add_event}
use ai_daytrader_sim.Repository.Plans.{
  Approval, Conflict, active_plans, approve_plan, without_nonce, hash_of,
}
use ai_daytrader_sim.Repository.Arming.{Earlier}
use ai_daytrader_sim.Repository.Approvals.{Reachable, IsAtomic, approve_plan-IsAtomic}
use ai_daytrader_sim.Validator.{Universe, PlanValidationError, validate_plan}
use ai_daytrader_sim.Validator.Accepted.{PlanOk, validate_plan-accepts}
use ai_daytrader_sim.Service.{Response, authorized, respond, register_valid, register_plan}

-- The codes and the plans of the tables are the same.
abbrev pub Untouched : {R : Type 0} → Repository R → Repository R → Type 0
Untouched r r' = (r'.nonces ≡ r.nonces) × (r'.plans ≡ r.plans)

module _ {R : Type 0} ⦃f : Float R⦄ (c : Calendar) (hash : String → String)
    (dump : TradePlan R → String) (gpt_action_bearer : String) (universe : Universe)
    (costs : Market → CostConfig R) where
  -- What a response says of the tables: a plan that is created came with the bearer, meets the
  -- conditions of trading, and is the only active plan of its market and date; any other response
  -- leaves the codes and the plans as they were.
  abbrev pub Registered :
      TradePlan R → Option String → ℕ → Repository R → Response × Repository R → Type 0
  Registered p authorization now r (Response.created content_hash, r') =
      (authorized gpt_action_bearer authorization ≡ true)
      × PlanOk c now universe costs p
      × (content_hash ≡ hash_of hash dump p)
      × (active_plans p.market p.trade_date r' ≡ (without_nonce p ∷ []))
  Registered p authorization now r (Response.unauthorized, r') = Untouched r r'
  Registered p authorization now r (Response.unprocessable e, r') = Untouched r r'
  Registered p authorization now r (Response.conflict e, r') = Untouched r r'
  Registered p authorization now r (Response.code_refused, r') = Untouched r r'

  respond-Registered :
      (p : TradePlan R) (authorization : Option String) (now : ℕ) (r : Repository R)
      (answer : Approval) (r' : Repository R)
      → authorized gpt_action_bearer authorization ≡ true
      → PlanOk c now universe costs p
      → IsAtomic hash dump p r (answer, r')
      → Registered p authorization now r (respond p (answer, r'))
  unfolding respond add_event
  respond-Registered p authorization now r (Approval.approved content_hash) r' a ok_plan (h, e) =
      (a, ok_plan, h, e)
  respond-Registered p authorization now r Approval.refused r' a ok_plan e = rw e (refl, refl)
  respond-Registered p authorization now r (Approval.conflict Conflict.integrity) r' a ok_plan e =
      rw e (refl, refl)
  respond-Registered p authorization now r (Approval.conflict Conflict.version_must_increase) r' a
        ok_plan e =
      rw e (refl, refl)
  respond-Registered p authorization now r (Approval.conflict Conflict.running_cannot_be_replaced)
        r' a ok_plan e =
      rw e (refl, refl)

  register_valid-Registered :
      (p : TradePlan R) (authorization : Option String) (now later : ℕ) (r : Repository R)
      (result : Result PlanValidationError (Unit {0}))
      → authorized gpt_action_bearer authorization ≡ true
      → (is_ok result ≡ true → PlanOk c now universe costs p)
      → IsAtomic hash dump p r (approve_plan hash dump p later r)
      → Registered p authorization now r
          (register_valid c hash dump gpt_action_bearer universe costs p later result r)
  unfolding register_valid add_event
  register_valid-Registered p authorization now later r (error e) a valid h = (refl, refl)
  register_valid-Registered p authorization now later r (ok u) a valid h =
      respond-Registered p authorization now r (approve_plan hash dump p later r).0
        (approve_plan hash dump p later r).1 a (valid refl) h

  -- A plan is registered only for a request with the bearer and only if it meets the conditions of
  -- trading, and is then, without its code, the only active plan of its market and date; every other
  -- response leaves the codes and the plans as they were. The tables are those after any run of the
  -- operations in which no status revives a plan, and the approval comes later than the creation of
  -- the plans that are there.
  pub register_plan-Registered :
      (p : TradePlan R) (authorization : Option String) (now later : ℕ) (r : Repository R)
      → Reachable hash dump r
      → All (Earlier later) r.plans
      → Registered p authorization now r
          (register_plan c hash dump gpt_action_bearer universe costs p authorization now later r)
  unfolding register_plan
  register_plan-Registered p authorization now later r h t =
      elim (Bool-cases (authorized gpt_action_bearer authorization)) [
        | inl a ↦ rw a (
            register_valid-Registered p authorization now later r
              (validate_plan c now universe costs p) a
              (validate_plan-accepts c now universe costs p).0
              (approve_plan-IsAtomic hash dump p later r h t))
        | inr a ↦ rw a (refl, refl)
      ]
