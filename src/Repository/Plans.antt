-- ===== src/Repository/Plans.antt =====
-- repository.py: the plans of a market and date, and their approval.
use ai_daytrader_sim.Prelude.{
  ℕ, String, Bool, true, false, not, ◌&&◌, ◌||◌, Option, none, some, List, [], ◌∷◌, ltb, leb,
  str_eq, if◌then◌else◌,
}
use ai_daytrader_sim.Prelude.Result.{Result, ok, error}
use ai_daytrader_sim.Models.{Market, PlanStatus, TradePlan}
use ai_daytrader_sim.Repository.{Repository, PlanRow, Event, add_event}
use ai_daytrader_sim.Repository.Nonces.{same_key, find_nonce, use_nonce, nonce_valid}

abbrev pub status_name : PlanStatus → String
status_name PlanStatus.validated = "VALIDATED"
status_name PlanStatus.armed = "ARMED"
status_name PlanStatus.running = "RUNNING"
status_name PlanStatus.completed = "COMPLETED"
status_name PlanStatus.expired = "EXPIRED"
status_name PlanStatus.rejected = "REJECTED"
status_name PlanStatus.cancelled = "CANCELLED"

abbrev pub same_status : PlanStatus → PlanStatus → Bool
same_status a b = str_eq (status_name a) (status_name b)

-- `status IN ('ARMED', 'RUNNING')`
abbrev pub is_live : PlanStatus → Bool
is_live PlanStatus.armed = true
is_live PlanStatus.running = true
is_live _ = false

module _ {R : Type 0} where
  unfoldable pub find_plan : String → List (PlanRow R) → Option (PlanRow R)
  find_plan plan_id [] = none
  find_plan plan_id (r ∷ rs) = if str_eq r.plan_id plan_id then some r else find_plan plan_id rs

  -- `UPDATE plans SET status=?, updated_at=? WHERE plan_id=?`
  unfoldable pub put_status : String → PlanStatus → ℕ → List (PlanRow R) → List (PlanRow R)
  put_status plan_id status now [] = []
  put_status plan_id status now (r ∷ rs) =
      (if str_eq r.plan_id plan_id then record r { status = status; updated_at = now } else r)
      ∷ put_status plan_id status now rs

  -- `ORDER BY created_at DESC LIMIT 1`: of rows created at one time the one inserted last.
  unfoldable pub latest_plan : Market → ℕ → List (PlanRow R) → Option (PlanRow R)
  latest_plan m date [] = none
  latest_plan m date (r ∷ rs) =
      let rest = latest_plan m date rs in
      if same_key r.market r.trade_date m date
      then elim rest [
        | none ↦ some r
        | some s ↦ if ltb r.created_at s.created_at then some s else some r
      ]
      else rest

  -- The primary key and the unique index of `plans`.
  unfoldable pub has_plan : PlanRow R → List (PlanRow R) → Bool
  has_plan p [] = false
  has_plan p (r ∷ rs) =
      str_eq r.plan_id p.plan_id
      || same_key r.market r.trade_date p.market p.trade_date
        && str_eq r.content_hash p.content_hash
      || has_plan p rs

  unfoldable pub live_plans : Market → ℕ → List (PlanRow R) → List (TradePlan R)
  live_plans m date [] = []
  live_plans m date (r ∷ rs) =
      let rest = live_plans m date rs in
      if same_key r.market r.trade_date m date && is_live r.status then r.payload ∷ rest else rest

  unfoldable pub active_plans : Market → ℕ → Repository R → List (TradePlan R)
  unfolding live_plans
  active_plans m date r = live_plans m date r.plans

  unfoldable pub get_plan : String → Repository R → Option (PlanRow R)
  unfolding find_plan
  get_plan plan_id r = find_plan plan_id r.plans

  unfoldable pub set_plan_status : String → PlanStatus → ℕ → Repository R → Repository R
  unfolding find_plan put_status add_event
  set_plan_status plan_id status now r = elim (find_plan plan_id r.plans) [
    | none ↦ r
    | some row ↦
        if same_status row.status status
        then r
        else add_event (Event.plan_status_changed row.market plan_id row.status status)
            (record r { plans = put_status plan_id status now r.plans })
  ]

-- What `approve_plan` answers: the hash, `None`, or a `PlanConflictError` or sqlite3's `IntegrityError`.
-- An error leaves the tables as they were: the transaction is rolled back.
pub data Conflict : Type 0 where
  version_must_increase running_cannot_be_replaced integrity : Conflict

pub data Approval : Type 0 where
  approved : String → Approval
  refused : Approval
  conflict : Conflict → Approval

abbrev pub without_nonce : {R : Type 0} → TradePlan R → TradePlan R
without_nonce p = record p { approval_nonce = "000000" }

module _ {R : Type 0} where
  -- What an approval makes of the latest plan of its market and date: the rows after it, and the
  -- identifier of the plan that is replaced.
  unfoldable pub replace_latest :
      TradePlan R
      → ℕ
      → Option (PlanRow R)
      → List (PlanRow R)
      → Result Conflict (List (PlanRow R) × Option String)
  unfolding put_status
  replace_latest p now none rows = ok (rows, none)
  replace_latest p now (some latest) rows =
      if leb p.plan_version latest.payload.plan_version
      then error Conflict.version_must_increase
      else if same_status latest.status PlanStatus.running
      then error Conflict.running_cannot_be_replaced
      else if same_status latest.status PlanStatus.armed
      then ok (put_status latest.plan_id PlanStatus.cancelled now rows, some latest.plan_id)
      else ok (rows, none)

  abbrev replaced_event : TradePlan R → Option String → Repository R → Repository R
  replaced_event p none r = r
  replaced_event p (some plan_id) r =
      add_event (Event.plan_status_changed p.market plan_id PlanStatus.armed PlanStatus.cancelled) r

-- `hash` is SHA-256 of a text in hexadecimal digits, and `dump` a plan's JSON.
module _ {R : Type 0} (hash : String → String) (dump : TradePlan R → String) where
  abbrev pub hash_of : TradePlan R → String
  hash_of p = hash (dump (without_nonce p))

  abbrev pub plan_row : TradePlan R → PlanStatus → ℕ → PlanRow R
  plan_row p status now = record {
    plan_id = p.plan_id;
    market = p.market;
    trade_date = p.trade_date;
    status = status;
    content_hash = hash_of p;
    payload = without_nonce p;
    created_at = now;
    updated_at = now;
  }

  -- `none` for sqlite3's `IntegrityError`
  unfoldable pub store_plan :
      TradePlan R → PlanStatus → ℕ → Repository R → Option (String × Repository R)
  unfolding has_plan add_event
  store_plan p status now r =
      let row = plan_row p status now in
      if has_plan row r.plans
      then none
      else some (
        hash_of p,
        add_event (Event.plan_stored p.market p.plan_id (hash_of p) status p.plan_version)
            (record r { plans = row ∷ r.plans }),
      )

  -- The insertion, the use of the code and the events, unless the latest plan stands in the way.
  unfoldable pub arm_plan :
      TradePlan R
      → ℕ
      → Result Conflict (List (PlanRow R) × Option String)
      → Repository R
      → Approval × Repository R
  unfolding has_plan use_nonce add_event
  arm_plan p now (error c) r = (Approval.conflict c, r)
  arm_plan p now (ok (rows, replaced)) r =
      let row = plan_row p PlanStatus.armed now in
      if has_plan row rows then (Approval.conflict Conflict.integrity, r) else (
        Approval.approved (hash_of p),
        replaced_event p replaced (
            add_event
              (Event.plan_stored p.market p.plan_id (hash_of p) PlanStatus.armed p.plan_version)
              (record r {
                plans = row ∷ rows;
                nonces = use_nonce p.market p.trade_date now r.nonces;
              })),
      )

  unfoldable pub approve_plan : TradePlan R → ℕ → Repository R → Approval × Repository R
  unfolding nonce_valid find_nonce latest_plan replace_latest arm_plan
  approve_plan p now r =
      let latest = latest_plan p.market p.trade_date r.plans in
      if not (nonce_valid hash (find_nonce p.market p.trade_date r.nonces) p.approval_nonce now)
      then (Approval.refused, r)
      else arm_plan p now (replace_latest p now latest r.plans) r
