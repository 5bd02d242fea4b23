-- ===== src/Repository/Approvals.antt =====
-- What the table of plans looks like after any run of the repository's operations.
use ai_daytrader_sim.Prelude.{
  ℕ, ◌≤◌, String, ◌≡◌, ◌⊎◌, refl, ap, sym, ◌∙◌, Bool, true, false, Option, none, some, List, [],
  ◌∷◌, All, eq_iff, length, str_eq, arith, inl, inr, Bool-cases, Option-cases,
}
use ai_daytrader_sim.Prelude.Result.{Result, ok, error}
use ai_daytrader_sim.Models.{Market, PlanStatus, TradePlan}
use ai_daytrader_sim.Repository.{Repository, PlanRow, empty, add_event}
use ai_daytrader_sim.Repository.Nonces.{same_key, find_nonce, nonce_valid}
use ai_daytrader_sim.Repository.Days.{same_key_refl, same_key-join}
use ai_daytrader_sim.Repository.Plans.{
  Approval, Conflict, is_live, same_status, find_plan, latest_plan, has_plan, live_plans,
  active_plans, hash_of, plan_row, replace_latest, arm_plan, approve_plan, set_plan_status,
  without_nonce,
}
use ai_daytrader_sim.Repository.Ledger.{
  IsLedger, Below, MayTurn, put_status-IsLedger, latest_plan-Ranked,
}
use ai_daytrader_sim.Repository.Arming.{
  MayTurn-dead, Earlier, Yields, Ready, approve_plan-IsLedger, replace_latest-Ready,
}

module _ {R : Type 0} where
  -- A status may be set if it is not a live one, or if the plan is live.
  abbrev pub MaySet : String → PlanStatus → List (PlanRow R) → Type 0
  MaySet plan_id status rows =
      (is_live status ≡ false)
      ⊎ ((row : PlanRow R) × (find_plan plan_id rows ≡ some row) × (is_live row.status ≡ true))

  abbrev live : Option (PlanRow R) → Bool
  live none = false
  live (some x) = is_live x.status

  Below-MayTurn :
      (plan_id : String) (status : PlanStatus) (r : PlanRow R) (rows : List (PlanRow R))
      → str_eq r.plan_id plan_id ≡ true
      → All (Below r) rows
      → All (MayTurn plan_id status) rows
  Below-MayTurn plan_id status r [] i h = tt
  Below-MayTurn plan_id status r (x ∷ xs) i ((j, b), h) = (
    λ u. cc (
      (eq_iff x.plan_id r.plan_id).1
          ((eq_iff x.plan_id plan_id).0 u ∙ sym ((eq_iff r.plan_id plan_id).0 i)),
      j,
    ),
    Below-MayTurn plan_id status r xs i h,
  )

  found-MayTurn :
      (plan_id : String) (status : PlanStatus) (row : PlanRow R) (rows : List (PlanRow R))
      → IsLedger rows
      → find_plan plan_id rows ≡ some row
      → is_live row.status ≡ true
      → All (MayTurn plan_id status) rows
  unfolding find_plan
  found-MayTurn plan_id status row [] h e l = tt
  found-MayTurn plan_id status row (x ∷ xs) (b, h) e l =
      elim (Bool-cases (str_eq x.plan_id plan_id)) [
        | inl i ↦
            let first : some x ≡ some row = (rw i at e) in
            (λ u. inr (ap live first ∙ l), Below-MayTurn plan_id status x xs i b)
        | inr i ↦ (λ u. cc (u, i), found-MayTurn plan_id status row xs h (rw i at e) l)
      ]

  Below-unlisted :
      (m : Market) (date : ℕ) (r : PlanRow R) (rows : List (PlanRow R))
      → same_key r.market r.trade_date m date ≡ true
      → All (Below r) rows
      → live_plans m date rows ≡ []
  unfolding live_plans
  Below-unlisted m date r [] k h = refl
  Below-unlisted m date r (x ∷ xs) k ((i, b), h) =
      let rest = Below-unlisted m date r xs k h in
      elim (Bool-cases (same_key x.market x.trade_date m date)) [
        | inl u ↦
            let (c, v, d) =
              b (same_key-join m date x.market r.market x.trade_date r.trade_date u k) in
            rw (u, d) rest
        | inr u ↦ rw u rest
      ]

  live_plans-le_one :
      (m : Market) (date : ℕ) (rows : List (PlanRow R))
      → IsLedger rows
      → length (live_plans m date rows) ≤ 1
  unfolding live_plans
  live_plans-le_one m date [] h = omega arith
  live_plans-le_one m date (x ∷ xs) (b, h) =
      let rest = live_plans-le_one m date xs h in
      elim (Bool-cases (same_key x.market x.trade_date m date)) [
        | inl k ↦ elim (Bool-cases (is_live x.status)) [
          | inl l ↦ rw (k, l, Below-unlisted m date x xs k b) (omega arith)
          | inr l ↦ rw (k, l) rest
        ]
        | inr k ↦ rw k rest
      ]

  set_plan_status-IsLedger :
      (plan_id : String) (status : PlanStatus) (now : ℕ) (r : Repository R)
      → MaySet plan_id status r.plans
      → IsLedger r.plans
      → IsLedger (set_plan_status plan_id status now r).plans
  unfolding set_plan_status add_event
  set_plan_status-IsLedger plan_id status now r m h =
      let turn : All (MayTurn plan_id status) r.plans = elim m [
        | inl d ↦ MayTurn-dead plan_id status r.plans d
        | inr (row, e, l) ↦ found-MayTurn plan_id status row r.plans h e l
      ] in
      elim (Option-cases (find_plan plan_id r.plans)) [
        | inl e ↦ rw (e, set_plan_status) h
        | inr (row, e) ↦ elim (Bool-cases (same_status row.status status)) [
          | inl s ↦ rw (e, set_plan_status, s) h
          | inr s ↦
              rw (e, set_plan_status, s) (put_status-IsLedger plan_id status now r.plans turn h)
        ]
      ]

module _ {R : Type 0} (hash : String → String) (dump : TradePlan R → String) where
  -- Any run of the operations from empty tables, with a clock that has passed the creation of every
  -- plan when one is approved, and no status that revives a plan. The codes are issued and consumed,
  -- and the other components write their tables, in steps that leave the plans alone.
  pub data Reachable : Repository R → Type 0 where
    start : Reachable empty
    approve :
        {r : Repository R} (p : TradePlan R) (now : ℕ)
        → All (Earlier now) r.plans
        → Reachable r
        → Reachable (approve_plan hash dump p now r).1
    set_status :
        {r : Repository R} (plan_id : String) (status : PlanStatus) (now : ℕ)
        → MaySet plan_id status r.plans
        → Reachable r
        → Reachable (set_plan_status plan_id status now r)
    write : {r : Repository R} (t : Repository R) → t.plans ≡ r.plans → Reachable r → Reachable t

  Reachable-IsLedger : {r : Repository R} → Reachable r → IsLedger r.plans
  Reachable-IsLedger start = tt
  Reachable-IsLedger (approve {r} p now t h) =
      approve_plan-IsLedger hash dump p now r t (Reachable-IsLedger h)
  Reachable-IsLedger (set_status {r} plan_id status now m h) =
      set_plan_status-IsLedger plan_id status now r m (Reachable-IsLedger h)
  Reachable-IsLedger (write t e h) = rw e (Reachable-IsLedger h)

  -- After any run of the operations on the tables, in which every approval comes later than the
  -- creation of the plans that are there and no status revives a plan, a market has at most one
  -- active plan on a date.
  pub one_active_plan :
      (r : Repository R) (m : Market) (date : ℕ) → Reachable r → length (active_plans m date r) ≤ 1
  unfolding active_plans
  one_active_plan r m date h = live_plans-le_one m date r.plans (Reachable-IsLedger h)

  Yields-unlisted :
      (p : TradePlan R) (rows : List (PlanRow R))
      → All (Yields p) rows
      → live_plans p.market p.trade_date rows ≡ []
  unfolding live_plans
  Yields-unlisted p [] h = refl
  Yields-unlisted p (x ∷ xs) (y, h) =
      let rest = Yields-unlisted p xs h in
      elim (Bool-cases (same_key x.market x.trade_date p.market p.trade_date)) [
        | inl u ↦ rw (u, (y u).1) rest
        | inr u ↦ rw u rest
      ]

  -- What an approval leaves behind: the tables as they were, or the plan's row above rows that yield.
  Settled : TradePlan R → ℕ → Repository R → Approval × Repository R → Type 0
  Settled p now r (Approval.refused, r') = r' ≡ r
  Settled p now r (Approval.conflict c, r') = r' ≡ r
  Settled p now r (Approval.approved content_hash, r') =
      (content_hash ≡ hash_of hash dump p)
      × (rows : List (PlanRow R)) × (r'.plans ≡ plan_row hash dump p PlanStatus.armed now ∷ rows)
      × All (Yields p) rows

  arm_plan-Settled :
      (p : TradePlan R) (now : ℕ) (rows : Result Conflict (List (PlanRow R) × Option String))
      (r : Repository R)
      → Ready p now rows
      → Settled p now r (arm_plan hash dump p now rows r)
  unfolding arm_plan add_event Ready Settled
  arm_plan-Settled p now (error c) r k = refl
  arm_plan-Settled p now (ok (rows, none)) r (l, y, t) =
      elim (Bool-cases (has_plan (plan_row hash dump p PlanStatus.armed now) rows)) [
        | inl e ↦ rw e refl
        | inr e ↦ rw e (refl, rows, refl, y)
      ]
  arm_plan-Settled p now (ok (rows, some old)) r (l, y, t) =
      elim (Bool-cases (has_plan (plan_row hash dump p PlanStatus.armed now) rows)) [
        | inl e ↦ rw e refl
        | inr e ↦ rw e (refl, rows, refl, y)
      ]

  approve_plan-Settled :
      (p : TradePlan R) (now : ℕ) (r : Repository R)
      → All (Earlier now) r.plans
      → IsLedger r.plans
      → Settled p now r (approve_plan hash dump p now r)
  unfolding approve_plan Settled
  approve_plan-Settled p now r t h =
      let latest = latest_plan p.market p.trade_date r.plans in
      elim (Bool-cases
        (nonce_valid hash (find_nonce p.market p.trade_date r.nonces) p.approval_nonce now)) [
          | inl e ↦ rw e (
              arm_plan-Settled p now (replace_latest p now latest r.plans) r (
                replace_latest-Ready p now latest r.plans t h
                  (latest_plan-Ranked p.market p.trade_date r.plans h)))
          | inr e ↦ rw e refl
        ]

  -- The two outcomes of an approval.
  abbrev pub IsAtomic : TradePlan R → Repository R → Approval × Repository R → Type 0
  IsAtomic p r (Approval.refused, r') = r' ≡ r
  IsAtomic p r (Approval.conflict c, r') = r' ≡ r
  IsAtomic p r (Approval.approved content_hash, r') =
      (content_hash ≡ hash_of hash dump p)
      × (active_plans p.market p.trade_date r' ≡ (without_nonce p ∷ []))

  Settled-IsAtomic :
      (p : TradePlan R) (now : ℕ) (r : Repository R) (answer : Approval) (r' : Repository R)
      → Settled p now r (answer, r')
      → IsAtomic p r (answer, r')
  unfolding Settled active_plans live_plans
  Settled-IsAtomic p now r Approval.refused r' h = h
  Settled-IsAtomic p now r (Approval.conflict c) r' h = h
  Settled-IsAtomic p now r (Approval.approved content_hash) r' (e, rows, q, y) =
      (e, rw (q, same_key_refl p.market p.trade_date, Yields-unlisted p rows y) refl)

  -- An approval is all or nothing. After any run of the operations on the tables in which no status
  -- revives a plan, and with a clock past the creation of every plan: an approved plan, without its
  -- code, is the only active plan of its market and date, whatever was active before, and its hash
  -- is returned; a refused or conflicting plan leaves every table as it was.
  pub approve_plan-IsAtomic :
      (p : TradePlan R) (now : ℕ) (r : Repository R)
      → Reachable r
      → All (Earlier now) r.plans
      → IsAtomic p r (approve_plan hash dump p now r)
  approve_plan-IsAtomic p now r h t =
      Settled-IsAtomic p now r (approve_plan hash dump p now r).0 (approve_plan hash dump p now r).1
        (approve_plan-Settled p now r t (Reachable-IsLedger h))
