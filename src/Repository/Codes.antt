-- ===== src/Repository/Codes.antt =====
-- An approval code is used once: no operation of the repository but the issue of a new code makes a
-- spent code pass again.
use ai_daytrader_sim.Prelude.{
  ℕ, String, ◌≡◌, refl, ap, sym, ◌∙◌, Bool, true, false, not, ◌&&◌, Option, none, some, List, [],
  ◌∷◌, ◌⊎◌, Option-cases, is_some, inl, inr, Bool-cases, if◌then◌else◌,
}
use ai_daytrader_sim.Prelude.Result.{Result, ok, error}
use ai_daytrader_sim.Models.{Market, PlanStatus, TradePlan}
use ai_daytrader_sim.Repository.{Repository, NonceRow, PlanRow, add_event}
use ai_daytrader_sim.Repository.Nonces.{
  same_key, find_nonce, use_nonce, put_nonce, nonce_valid, issue_nonce, consume_nonce,
}
use ai_daytrader_sim.Repository.Days.{same_key-eq, same_key-change}
use ai_daytrader_sim.Repository.Plans.{
  Approval, Conflict, find_plan, has_plan, plan_row, same_status, latest_plan, replace_latest,
  arm_plan, approve_plan, set_plan_status,
}

-- There is no code, or it has been used.
abbrev pub spent : Option NonceRow → Bool
spent none = true
spent (some row) = is_some row.used_at

abbrev pub IsSpent : {R : Type 0} → Market → ℕ → Repository R → Type 0
IsSpent m date r = spent (find_nonce m date r.nonces) ≡ true

use_nonce-spent :
    (m : Market) (date now : ℕ) (rows : List NonceRow)
    → spent (find_nonce m date (use_nonce m date now rows)) ≡ true
unfolding find_nonce use_nonce
use_nonce-spent m date now [] = refl
use_nonce-spent m date now (r ∷ rs) = elim (Bool-cases (same_key r.market r.trade_date m date)) [
  | inl e ↦ elim (Bool-cases (is_some r.used_at)) [
    | inl u ↦ rw (e, u, e) u
    | inr u ↦ rw (e, u, e) refl
  ]
  | inr e ↦ rw (e, e) (use_nonce-spent m date now rs)
]

use_nonce-keeps_spent :
    (m n : Market) (date day now : ℕ) (rows : List NonceRow)
    → spent (find_nonce m date rows) ≡ true
    → spent (find_nonce m date (use_nonce n day now rows)) ≡ true
unfolding find_nonce use_nonce
use_nonce-keeps_spent m n date day now [] h = refl
use_nonce-keeps_spent m n date day now (r ∷ rs) h =
    elim (Bool-cases (same_key r.market r.trade_date m date)) [
      | inl e ↦
          elim (Bool-cases (same_key r.market r.trade_date n day && not (is_some r.used_at))) [
            | inl u ↦ rw (u, e) refl
            | inr u ↦ rw (u, e) (rw e at h)
          ]
      | inr e ↦
          elim (Bool-cases (same_key r.market r.trade_date n day && not (is_some r.used_at))) [
            | inl u ↦ rw (u, e) (use_nonce-keeps_spent m n date day now rs (rw e at h))
            | inr u ↦ rw (u, e) (use_nonce-keeps_spent m n date day now rs (rw e at h))
          ]
    ]

put_nonce-other :
    (m : Market) (date : ℕ) (n : NonceRow) (rows : List NonceRow)
    → same_key n.market n.trade_date m date ≡ false
    → find_nonce m date (put_nonce n rows) ≡ find_nonce m date rows
unfolding find_nonce put_nonce
put_nonce-other m date n [] h = rw h refl
put_nonce-other m date n (r ∷ rs) h =
    elim (Bool-cases (same_key r.market r.trade_date n.market n.trade_date)) [
      | inl e ↦
          let eq = same_key-eq r.market n.market r.trade_date n.trade_date e in
          let other = same_key-change m date eq h in rw (e, h, other) refl
      | inr e ↦ rw e (
          ap (λ o. if same_key r.market r.trade_date m date then some r else o)
            (put_nonce-other m date n rs h))
    ]

abbrev is_approved : Approval → Bool
is_approved (Approval.approved content_hash) = true
is_approved _ = false

module _ {R : Type 0} (hash : String → String) (dump : TradePlan R → String) where
  -- The operations on the tables, in any order, but no issue of a code for `m` and `date`. A write
  -- of the other components leaves the codes alone.
  pub data Unissued (m : Market) (date : ℕ) : Repository R → Repository R → Type 0 where
    done : {r : Repository R} → Unissued m date r r
    issue :
        {s r : Repository R} (n : Market) (day ttl : ℕ) (nonce : String) (now : ℕ)
        → same_key n day m date ≡ false
        → Unissued m date s r
        → Unissued m date s (issue_nonce hash n day ttl nonce now r)
    consume :
        {s r : Repository R} (n : Market) (day : ℕ) (nonce : String) (now : ℕ)
        → Unissued m date s r
        → Unissued m date s (consume_nonce hash n day nonce now r).1
    approve :
        {s r : Repository R} (p : TradePlan R) (now : ℕ)
        → Unissued m date s r
        → Unissued m date s (approve_plan hash dump p now r).1
    set_status :
        {s r : Repository R} (plan_id : String) (status : PlanStatus) (now : ℕ)
        → Unissued m date s r
        → Unissued m date s (set_plan_status plan_id status now r)
    write :
        {s r : Repository R} (t : Repository R)
        → t.nonces ≡ r.nonces
        → Unissued m date s r
        → Unissued m date s t

  set_plan_status-nonces :
      (plan_id : String) (status : PlanStatus) (now : ℕ) (r : Repository R)
      → (set_plan_status plan_id status now r).nonces ≡ r.nonces
  unfolding set_plan_status add_event
  set_plan_status-nonces plan_id status now r = elim (Option-cases (find_plan plan_id r.plans)) [
    | inl e ↦ rw (e, set_plan_status) refl
    | inr (row, e) ↦ elim (Bool-cases (same_status row.status status)) [
      | inl u ↦ rw (e, set_plan_status, u) refl
      | inr u ↦ rw (e, set_plan_status, u) refl
    ]
  ]

  issue_nonce-IsSpent :
      (m n : Market) (date day ttl : ℕ) (nonce : String) (now : ℕ) (r : Repository R)
      → same_key n day m date ≡ false
      → IsSpent m date r
      → IsSpent m date (issue_nonce hash n day ttl nonce now r)
  unfolding issue_nonce
  issue_nonce-IsSpent m n date day ttl nonce now r k h =
      ap spent (put_nonce-other m date _ r.nonces k) ∙ h

  consume_nonce-IsSpent :
      (m n : Market) (date day : ℕ) (nonce : String) (now : ℕ) (r : Repository R)
      → IsSpent m date r
      → IsSpent m date (consume_nonce hash n day nonce now r).1
  unfolding consume_nonce
  consume_nonce-IsSpent m n date day nonce now r h =
      elim (Bool-cases (nonce_valid hash (find_nonce n day r.nonces) nonce now)) [
        | inl e ↦ rw e (use_nonce-keeps_spent m n date day now r.nonces h)
        | inr e ↦ rw e h
      ]

  -- What an approval does to the codes: nothing, or it uses the code.
  Touched : TradePlan R → ℕ → Repository R → Approval × Repository R → Type 0
  Touched p now r (answer, r') =
      ((is_approved answer ≡ false) × (r'.nonces ≡ r.nonces))
      ⊎ (r'.nonces ≡ use_nonce p.market p.trade_date now r.nonces)

  arm_plan-Touched :
      (p : TradePlan R) (now : ℕ) (rows : Result Conflict (List (PlanRow R) × Option String))
      (r : Repository R)
      → Touched p now r (arm_plan hash dump p now rows r)
  unfolding arm_plan add_event Touched
  arm_plan-Touched p now (error c) r = inl (refl, refl)
  arm_plan-Touched p now (ok (rows, none)) r =
      elim (Bool-cases (has_plan (plan_row hash dump p PlanStatus.armed now) rows)) [
        | inl e ↦ rw e (inl (refl, refl))
        | inr e ↦ rw e (inr refl)
      ]
  arm_plan-Touched p now (ok (rows, some old)) r =
      elim (Bool-cases (has_plan (plan_row hash dump p PlanStatus.armed now) rows)) [
        | inl e ↦ rw e (inl (refl, refl))
        | inr e ↦ rw e (inr refl)
      ]

  approve_plan-Touched :
      (p : TradePlan R) (now : ℕ) (r : Repository R)
      → Touched p now r (approve_plan hash dump p now r)
  unfolding approve_plan Touched
  approve_plan-Touched p now r =
      elim (Bool-cases
        (nonce_valid hash (find_nonce p.market p.trade_date r.nonces) p.approval_nonce now)) [
          | inl e ↦ rw e (
              arm_plan-Touched p now
                (replace_latest p now (latest_plan p.market p.trade_date r.plans) r.plans) r)
          | inr e ↦ rw e (inl (refl, refl))
        ]

  approve_plan-IsSpent :
      (m : Market) (date : ℕ) (p : TradePlan R) (now : ℕ) (r : Repository R)
      → IsSpent m date r
      → IsSpent m date (approve_plan hash dump p now r).1
  unfolding Touched
  approve_plan-IsSpent m date p now r h = elim (approve_plan-Touched p now r) [
    | inl (n, e) ↦ rw e h
    | inr e ↦ rw e (use_nonce-keeps_spent m p.market date p.trade_date now r.nonces h)
  ]

  Unissued-IsSpent :
      (m : Market) (date : ℕ) {s r : Repository R}
      → Unissued m date s r
      → IsSpent m date s
      → IsSpent m date r
  Unissued-IsSpent m date done h = h
  Unissued-IsSpent m date (issue {r} n day ttl nonce now k u) h =
      issue_nonce-IsSpent m n date day ttl nonce now r k (Unissued-IsSpent m date u h)
  Unissued-IsSpent m date (consume {r} n day nonce now u) h =
      consume_nonce-IsSpent m n date day nonce now r (Unissued-IsSpent m date u h)
  Unissued-IsSpent m date (approve {r} p now u) h =
      approve_plan-IsSpent m date p now r (Unissued-IsSpent m date u h)
  Unissued-IsSpent m date (set_status {r} plan_id status now u) h =
      rw (set_plan_status-nonces plan_id status now r) (Unissued-IsSpent m date u h)
  Unissued-IsSpent m date (write t e u) h = rw e (Unissued-IsSpent m date u h)

  spent-not-valid :
      (row : Option NonceRow) (nonce : String) (now : ℕ)
      → spent row ≡ true
      → nonce_valid hash row nonce now ≡ false
  unfolding nonce_valid
  spent-not-valid none nonce now h = refl
  spent-not-valid (some row) nonce now h = rw h refl

  IsSpent-refused :
      (q : TradePlan R) (now : ℕ) (r : Repository R)
      → IsSpent q.market q.trade_date r
      → approve_plan hash dump q now r ≡ (Approval.refused, r)
  unfolding approve_plan
  IsSpent-refused q now r h =
      rw (spent-not-valid (find_nonce q.market q.trade_date r.nonces) q.approval_nonce now h)

  IsSpent-not_consumed :
      (m : Market) (date : ℕ) (nonce : String) (now : ℕ) (r : Repository R)
      → IsSpent m date r
      → consume_nonce hash m date nonce now r ≡ (false, r)
  unfolding consume_nonce
  IsSpent-not_consumed m date nonce now r h =
      rw (spent-not-valid (find_nonce m date r.nonces) nonce now h)

  -- An approval that succeeds has used the code.
  approved-IsSpent :
      (p : TradePlan R) (now : ℕ) (content_hash : String) (r : Repository R)
      → (approve_plan hash dump p now r).0 ≡ Approval.approved content_hash
      → IsSpent p.market p.trade_date (approve_plan hash dump p now r).1
  unfolding Touched
  approved-IsSpent p now content_hash r h = elim (approve_plan-Touched p now r) [
    | inl (n, e) ↦ cc (sym n ∙ ap is_approved h)
    | inr e ↦ rw e (use_nonce-spent p.market p.trade_date now r.nonces)
  ]

  -- The code of an approved plan is used up: whatever the operations on the tables that follow,
  -- while no new code is issued for the plan's market and date, every approval of a plan of that
  -- market and date is refused, every consumption of a code for them fails, and neither changes a
  -- table.
  pub approval_once :
      (p : TradePlan R) (now : ℕ) (content_hash : String) (s r : Repository R)
      → (approve_plan hash dump p now s).0 ≡ Approval.approved content_hash
      → Unissued p.market p.trade_date (approve_plan hash dump p now s).1 r
      → (q : TradePlan R) (nonce : String) (later : ℕ) → q.market ≡ p.market
      → q.trade_date ≡ p.trade_date
      → (approve_plan hash dump q later r ≡ (Approval.refused, r))
        × (consume_nonce hash p.market p.trade_date nonce later r ≡ (false, r))
  approval_once p now content_hash s r h u q nonce later e d =
      let used =
        Unissued-IsSpent p.market p.trade_date u (approved-IsSpent p now content_hash s h) in
      (
        IsSpent-refused q later r (rw (e, d) used),
        IsSpent-not_consumed p.market p.trade_date nonce later r used,
      )
