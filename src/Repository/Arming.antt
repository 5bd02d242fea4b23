-- ===== src/Repository/Arming.antt =====
-- What an approval does to the table of plans.
use ai_daytrader_sim.Prelude.{
  ℕ, ◌<◌, String, ◌≡◌, refl, ap, ◌∙◌, Bool, true, false, ◌&&◌, ◌||◌, Option, none, some, List, [],
  ◌∷◌, All, eq_iff, leb, str_eq, arith, inl, inr, Bool-cases,
}
use ai_daytrader_sim.Prelude.Result.{Result, ok, error}
use ai_daytrader_sim.Models.{PlanStatus, TradePlan}
use ai_daytrader_sim.Repository.{Repository, PlanRow, add_event}
use ai_daytrader_sim.Repository.Nonces.{same_key, find_nonce, nonce_valid}
use ai_daytrader_sim.Repository.Plans.{
  Conflict, is_live, same_status, put_status, latest_plan, has_plan, hash_of, plan_row,
  replace_latest, arm_plan, approve_plan,
}
use ai_daytrader_sim.Repository.Ledger.{
  version, Below, IsLedger, MayTurn, Tops, Other, Ranked, put_status-IsLedger, latest_plan-Ranked,
}

or_right : (a b : Bool) → (a || b) ≡ false → b ≡ false
or_right a b h = ground arith

not_running :
    (s : PlanStatus)
    → same_status s PlanStatus.running ≡ false
    → same_status s PlanStatus.armed ≡ false
    → is_live s ≡ false
not_running PlanStatus.validated h k = refl
not_running PlanStatus.armed h k = cc
not_running PlanStatus.running h k = cc
not_running PlanStatus.completed h k = refl
not_running PlanStatus.expired h k = refl
not_running PlanStatus.rejected h k = refl
not_running PlanStatus.cancelled h k = refl

module _ {R : Type 0} where
  -- A row that gives way to a plan: of its market and date, of a lower version and not live.
  abbrev pub Yields : TradePlan R → PlanRow R → Type 0
  Yields p x =
      same_key x.market x.trade_date p.market p.trade_date ≡ true
      → (version x < p.plan_version) × (is_live x.status ≡ false)

  abbrev pub Earlier : ℕ → PlanRow R → Type 0
  Earlier now x = x.created_at < now

  Other-Yields :
      (p : TradePlan R) (rows : List (PlanRow R))
      → All (Other p.market p.trade_date) rows
      → All (Yields p) rows
  Other-Yields p [] h = tt
  Other-Yields p (x ∷ xs) (k, h) = (λ u. cc (u, k), Other-Yields p xs h)

  Tops-Yields :
      (p : TradePlan R) (l : PlanRow R) (rows : List (PlanRow R))
      → version l < p.plan_version
      → is_live l.status ≡ false
      → All (Tops p.market p.trade_date l) rows
      → All (Yields p) rows
  Tops-Yields p l [] v d h = tt
  Tops-Yields p l (x ∷ xs) v d (t, h) = (
    λ u.
        let (w, s) = t u in
        (omega (arith, v, w), elim s [ inl n ↦ n | inr (i, e) ↦ ap is_live e ∙ d ]),
    Tops-Yields p l xs v d h,
  )

  -- A cancellation of the latest plan leaves no live one.
  cancelled-Yields :
      (p : TradePlan R) (now : ℕ) (l : PlanRow R) (rows : List (PlanRow R))
      → version l < p.plan_version
      → All (Tops p.market p.trade_date l) rows
      → All (Yields p) (put_status l.plan_id PlanStatus.cancelled now rows)
  unfolding put_status
  cancelled-Yields p now l [] v h = tt
  cancelled-Yields p now l (x ∷ xs) v (t, h) =
      let rest = cancelled-Yields p now l xs v h in
      elim (Bool-cases (str_eq x.plan_id l.plan_id)) [
        | inl e ↦ rw e (λ u. let (w, s) = t u in (omega (arith, v, w), refl), rest)
        | inr e ↦ rw e (
          λ u.
              let (w, s) = t u in
              (
                omega (arith, v, w),
                elim s [ inl n ↦ n | inr (i, q) ↦ cc ((eq_iff x.plan_id l.plan_id).1 i, e) ],
              ),
          rest,
        )
      ]

  put_status-Earlier :
      (bound : ℕ) (plan_id : String) (status : PlanStatus) (now : ℕ) (rows : List (PlanRow R))
      → All (Earlier bound) rows
      → All (Earlier bound) (put_status plan_id status now rows)
  unfolding put_status
  put_status-Earlier bound plan_id status now [] h = tt
  put_status-Earlier bound plan_id status now (x ∷ xs) (h, hs) =
      let rest = put_status-Earlier bound plan_id status now xs hs in
      elim (Bool-cases (str_eq x.plan_id plan_id)) [
        | inl e ↦ rw e (h, rest)
        | inr e ↦ rw e (h, rest)
      ]

  pub MayTurn-dead :
      (plan_id : String) (status : PlanStatus) (rows : List (PlanRow R))
      → is_live status ≡ false
      → All (MayTurn plan_id status) rows
  MayTurn-dead plan_id status [] h = tt
  MayTurn-dead plan_id status (x ∷ xs) h = (λ u. inl h, MayTurn-dead plan_id status xs h)

  -- The rows that an approval inserts its plan into.
  unfoldable pub Ready :
      TradePlan R → ℕ → Result Conflict (List (PlanRow R) × Option String) → Type 0
  Ready p now (error c) = Unit
  Ready p now (ok (rows, replaced)) = IsLedger rows × All (Yields p) rows × All (Earlier now) rows

  pub replace_latest-Ready :
      (p : TradePlan R) (now : ℕ) (latest : Option (PlanRow R)) (rows : List (PlanRow R))
      → All (Earlier now) rows
      → IsLedger rows
      → Ranked p.market p.trade_date latest rows
      → Ready p now (replace_latest p now latest rows)
  unfolding replace_latest Ranked Ready
  replace_latest-Ready p now none rows t h k = (h, Other-Yields p rows k, t)
  replace_latest-Ready p now (some l) rows t h k =
      elim (Bool-cases (leb p.plan_version (version l))) [
        | inl v ↦ rw v tt
        | inr v ↦ elim (Bool-cases (same_status l.status PlanStatus.running)) [
          | inl s ↦ rw (v, s) tt
          | inr s ↦ elim (Bool-cases (same_status l.status PlanStatus.armed)) [
            | inl a ↦
                rw (v, s, a)
                  (
                    put_status-IsLedger l.plan_id PlanStatus.cancelled now rows
                        (MayTurn-dead l.plan_id PlanStatus.cancelled rows refl) h,
                    cancelled-Yields p now l rows (ground arith) k,
                    put_status-Earlier now l.plan_id PlanStatus.cancelled now rows t,
                  )
            | inr a ↦
                rw (v, s, a)
                  (h, Tops-Yields p l rows (ground arith) (not_running l.status s a) k, t)
          ]
        ]
      ]

module _ {R : Type 0} (hash : String → String) (dump : TradePlan R → String) where
  -- The row of a plan is above rows of other plans that are older and yield to it.
  plan_row-Below :
      (p : TradePlan R) (now : ℕ) (rows : List (PlanRow R))
      → has_plan (plan_row hash dump p PlanStatus.armed now) rows ≡ false
      → All (Earlier now) rows
      → All (Yields p) rows
      → All (Below (plan_row hash dump p PlanStatus.armed now)) rows
  unfolding has_plan
  plan_row-Below p now [] h t y = tt
  plan_row-Below p now (x ∷ xs) h (t, ts) (y, ys) = elim (Bool-cases (str_eq x.plan_id p.plan_id)) [
    | inl e ↦ cc ((rw e at h))
    | inr e ↦ (
      (e, λ k. (t, (y k).0, (y k).1)),
      plan_row-Below p now xs
          (or_right
            (same_key x.market x.trade_date p.market p.trade_date
              && str_eq x.content_hash (hash_of hash dump p))
            _ (rw e at h))
          ts ys,
    )
  ]

  arm_plan-IsLedger :
      (p : TradePlan R) (now : ℕ) (rows : Result Conflict (List (PlanRow R) × Option String))
      (r : Repository R)
      → IsLedger r.plans
      → Ready p now rows
      → IsLedger (arm_plan hash dump p now rows r).1.plans
  unfolding arm_plan add_event Ready
  arm_plan-IsLedger p now (error c) r h k = h
  arm_plan-IsLedger p now (ok (rows, none)) r h (l, y, t) =
      elim (Bool-cases (has_plan (plan_row hash dump p PlanStatus.armed now) rows)) [
        | inl e ↦ rw e h
        | inr e ↦ rw e (plan_row-Below p now rows e t y, l)
      ]
  arm_plan-IsLedger p now (ok (rows, some old)) r h (l, y, t) =
      elim (Bool-cases (has_plan (plan_row hash dump p PlanStatus.armed now) rows)) [
        | inl e ↦ rw e h
        | inr e ↦ rw e (plan_row-Below p now rows e t y, l)
      ]

  pub approve_plan-IsLedger :
      (p : TradePlan R) (now : ℕ) (r : Repository R)
      → All (Earlier now) r.plans
      → IsLedger r.plans
      → IsLedger (approve_plan hash dump p now r).1.plans
  unfolding approve_plan
  approve_plan-IsLedger p now r t h =
      let latest = latest_plan p.market p.trade_date r.plans in
      elim (Bool-cases
        (nonce_valid hash (find_nonce p.market p.trade_date r.nonces) p.approval_nonce now)) [
          | inl e ↦ rw e (
              arm_plan-IsLedger p now (replace_latest p now latest r.plans) r h (
                replace_latest-Ready p now latest r.plans t h
                  (latest_plan-Ranked p.market p.trade_date r.plans h)))
          | inr e ↦ rw e h
        ]
