-- ===== src/Repository/Ledger.antt =====
-- The order that the approvals keep in the table of plans.
use ai_daytrader_sim.Prelude.{
  ℕ, ◌<◌, ◌≤◌, String, ◌≡◌, ◌⊎◌, refl, true, false, Option, none, some, List, [], ◌∷◌, All, ltb,
  str_eq, arith, inl, inr, Bool-cases, Option-cases,
}
use ai_daytrader_sim.Models.{Market, PlanStatus}
use ai_daytrader_sim.Repository.{PlanRow}
use ai_daytrader_sim.Repository.Nonces.{same_key}
use ai_daytrader_sim.Repository.Days.{same_key-join}
use ai_daytrader_sim.Repository.Plans.{is_live, put_status, latest_plan}

older : (a b : ℕ) → b < a → ltb a b ≡ false
older a b h = ground arith

module _ {R : Type 0} where
  abbrev pub version : PlanRow R → ℕ
  version x = x.payload.plan_version

  -- The row `x` is older than `r`: another plan, and of one market and date an earlier one of a lower
  -- version that is no longer live.
  abbrev pub Below : PlanRow R → PlanRow R → Type 0
  Below r x =
      (str_eq x.plan_id r.plan_id ≡ false)
      × (same_key x.market x.trade_date r.market r.trade_date ≡ true
          → (x.created_at < r.created_at) × (version x < version r) × (is_live x.status ≡ false))

  abbrev pub IsLedger : List (PlanRow R) → Type 0
  IsLedger [] = Unit
  IsLedger (r ∷ rs) = All (Below r) rs × IsLedger rs

  -- A status may be written to a row if it does not revive it.
  abbrev pub MayTurn : String → PlanStatus → PlanRow R → Type 0
  MayTurn plan_id status x =
      str_eq x.plan_id plan_id ≡ true → (is_live status ≡ false) ⊎ (is_live x.status ≡ true)

  put_status-Below :
      (plan_id : String) (status : PlanStatus) (now : ℕ) (r : PlanRow R) (rows : List (PlanRow R))
      → All (MayTurn plan_id status) rows
      → All (Below r) rows
      → All (Below r) (put_status plan_id status now rows)
  unfolding put_status
  put_status-Below plan_id status now r [] m h = tt
  put_status-Below plan_id status now r (x ∷ xs) (m, ms) ((i, b), hs) =
      let rest = put_status-Below plan_id status now r xs ms hs in
      elim (Bool-cases (str_eq x.plan_id plan_id)) [
        | inl e ↦ rw e (
          (i, λ k. let (c, v, l) = b k in (c, v, elim (m e) [ inl n ↦ n | inr y ↦ cc (y, l) ])),
          rest,
        )
        | inr e ↦ rw e ((i, b), rest)
      ]

  pub put_status-IsLedger :
      (plan_id : String) (status : PlanStatus) (now : ℕ) (rows : List (PlanRow R))
      → All (MayTurn plan_id status) rows
      → IsLedger rows
      → IsLedger (put_status plan_id status now rows)
  unfolding put_status
  put_status-IsLedger plan_id status now [] m h = tt
  put_status-IsLedger plan_id status now (r ∷ rs) (m, ms) (b, h) =
      let below = put_status-Below plan_id status now r rs ms b in
      let rest = put_status-IsLedger plan_id status now rs ms h in
      elim (Bool-cases (str_eq r.plan_id plan_id)) [
        | inl e ↦ rw e (below, rest)
        | inr e ↦ rw e (below, rest)
      ]

  -- What the latest plan of a market and date is to another row of them: no older version, and the
  -- row itself if it is live.
  abbrev pub Tops : Market → ℕ → PlanRow R → PlanRow R → Type 0
  Tops m date l x =
      same_key x.market x.trade_date m date ≡ true
      → (version x ≤ version l)
        × ((is_live x.status ≡ false) ⊎ ((x.plan_id ≡ l.plan_id) × (x.status ≡ l.status)))

  abbrev pub Other : Market → ℕ → PlanRow R → Type 0
  Other m date x = same_key x.market x.trade_date m date ≡ false

  Below-Tops :
      (m : Market) (date : ℕ) (l : PlanRow R) (rows : List (PlanRow R))
      → same_key l.market l.trade_date m date ≡ true
      → All (Below l) rows
      → All (Tops m date l) rows
  Below-Tops m date l [] k h = tt
  Below-Tops m date l (x ∷ xs) k ((i, b), hs) = (
    λ e.
        let (c, v, d) = b (same_key-join m date x.market l.market x.trade_date l.trade_date e k) in
        (omega (arith, v), inl d),
    Below-Tops m date l xs k hs,
  )

  abbrev Picked : (PlanRow R → Type 0) → Market → ℕ → Option (PlanRow R) → Type 0
  Picked P m date none = Unit
  Picked P m date (some s) = P s × (same_key s.market s.trade_date m date ≡ true)

  latest_plan-Picked :
      (P : PlanRow R → Type 0) (m : Market) (date : ℕ) (rows : List (PlanRow R))
      → All P rows
      → Picked P m date (latest_plan m date rows)
  unfolding latest_plan
  latest_plan-Picked P m date [] h = tt
  latest_plan-Picked P m date (x ∷ xs) (h, hs) =
      let rest = latest_plan-Picked P m date xs hs in
      elim (Bool-cases (same_key x.market x.trade_date m date)) [
        | inl k ↦ elim (Option-cases (latest_plan m date xs)) [
          | inl e ↦ rw (k, e) (h, k)
          | inr (s, e) ↦ elim (Bool-cases (ltb x.created_at s.created_at)) [
            | inl t ↦ rw (k, e, t) (rw e at rest)
            | inr t ↦ rw (k, e, t) (h, k)
          ]
        ]
        | inr k ↦ rw k rest
      ]

  -- The latest plan of a ledger is the first row of its market and date.
  latest_plan-first :
      (m : Market) (date : ℕ) (r : PlanRow R) (rs : List (PlanRow R))
      → same_key r.market r.trade_date m date ≡ true
      → All (Below r) rs
      → latest_plan m date (r ∷ rs) ≡ some r
  unfolding latest_plan
  latest_plan-first m date r rs k h =
      let picked = latest_plan-Picked (Below r) m date rs h in
      elim (Option-cases (latest_plan m date rs)) [
        | inl e ↦ rw (k, e) refl
        | inr (s, e) ↦
            let ((i, b), u) = (rw e at picked) in
            let (c, v, d) =
              b (same_key-join m date s.market r.market s.trade_date r.trade_date u k) in
            rw (k, e, older r.created_at s.created_at c) refl
      ]

  -- Where there is a latest plan it tops every row, and otherwise no row is of the market and date.
  unfoldable pub Ranked : Market → ℕ → Option (PlanRow R) → List (PlanRow R) → Type 0
  Ranked m date none rows = All (Other m date) rows
  Ranked m date (some l) rows = All (Tops m date l) rows

  Ranked-cons :
      (m : Market) (date : ℕ) (o : Option (PlanRow R)) (x : PlanRow R) (xs : List (PlanRow R))
      → same_key x.market x.trade_date m date ≡ false
      → Ranked m date o xs
      → Ranked m date o (x ∷ xs)
  unfolding Ranked
  Ranked-cons m date none x xs k h = (k, h)
  Ranked-cons m date (some l) x xs k h = (λ u. cc (u, k), h)

  pub latest_plan-Ranked :
      (m : Market) (date : ℕ) (rows : List (PlanRow R))
      → IsLedger rows
      → Ranked m date (latest_plan m date rows) rows
  unfolding latest_plan Ranked
  latest_plan-Ranked m date [] h = tt
  latest_plan-Ranked m date (x ∷ xs) (b, h) =
      let rest = latest_plan-Ranked m date xs h in
      elim (Bool-cases (same_key x.market x.trade_date m date)) [
        | inl k ↦
            rw (latest_plan-first m date x xs k b)
              (λ u. (omega arith, inr (refl, refl)), Below-Tops m date x xs k b)
        | inr k ↦ rw k (Ranked-cons m date (latest_plan m date xs) x xs k rest)
      ]
