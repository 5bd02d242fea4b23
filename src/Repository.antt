-- ===== src/Repository.antt =====
-- repository.py: the tables that the broker and the engine write, as lists; the newest row of a table
-- stands first, which is the order in which the queries read it.
pub mod Keys
pub mod Nonces
pub mod Days
pub mod Codes
pub mod Plans
pub mod Ledger
pub mod Arming
pub mod Approvals
pub mod Issues
mod Tests
use ai_daytrader_sim.Prelude.{
  ℕ, String, Bool, true, false, ◌&&◌, ◌||◌, Option, none, some, List, [], ◌∷◌, str_eq,
  if◌then◌else◌,
}
use ai_daytrader_sim.Prelude.Text.{upper}
use ai_daytrader_sim.Models.{Market, same_market, OrderState, PlanStatus, TradePlan}

pub data Action : Type 0 where
  new cancel : Action

pub data Side : Type 0 where
  buy sell : Side

-- A row of `kis_order_intents`, with what `KISOrderIntent` (kis_orders.py) puts into it.
pub record OrderIntent (R : Type 0) : Type 0 where
  pub idempotency_key : String
  pub source_order_id : String
  pub plan_id : String
  pub market : Market
  pub symbol : String
  pub exchange : String
  pub action : Action
  pub side : Option Side
  pub quantity : ℕ
  pub limit_price : R
  pub reason : String

-- A row of `events`: the type of the event, its columns, and the part of its payload that is read.
pub data Event (R : Type 0) : Type 0 where
  order_state_changed : Market → (symbol plan_id : String) → OrderState → Event R
  paper_session_started : Market → (session_date : ℕ) → Event R
  paper_buy_filled :
      Market
      → (symbol plan_id : String) → (quantity : ℕ) → (price fees : R) → (cumulative : ℕ) → Event R
  paper_sell_filled :
      Market
      → (symbol plan_id : String) → OrderState
      → (reason : String) → (quantity : ℕ) → (price fees pnl : R) → Event R
  paper_position_closed :
      Market → (symbol plan_id : String) → (pnl fees : R) → (reason : String) → Event R
  kis_order_intent_recorded : Market → (symbol plan_id : String) → Action → Event R
  plan_stored : Market → (plan_id content_hash : String) → PlanStatus → (version : ℕ) → Event R
  plan_rejected : Market → (plan_id : String) → Event R
  plan_status_changed : Market → (plan_id : String) → (from to : PlanStatus) → Event R
  strategy_state_changed :
      Market → (symbol plan_id : String) → (from to : String) → (reason : String) → Event R
  rejected :
      (event_type : String) → Market → (symbol : String) → Option String → List String → Event R

-- A row of `nonces`; `used_at` is NULL until the code is used.
pub record NonceRow : Type 0 where
  pub market : Market
  pub trade_date : ℕ
  pub nonce_hash : String
  pub expires_at : ℕ
  pub used_at : Option ℕ

-- A row of `plans`. The payload, JSON in the program, is the plan itself.
pub record PlanRow (R : Type 0) : Type 0 where
  pub plan_id : String
  pub market : Market
  pub trade_date : ℕ
  pub status : PlanStatus
  pub content_hash : String
  pub payload : TradePlan R
  pub created_at : ℕ
  pub updated_at : ℕ

pub record Repository (R : Type 0) : Type 0 where
  pub nonces : List NonceRow
  pub plans : List (PlanRow R)
  pub events : List (Event R)
  pub idempotency_keys : List String
  pub kis_order_intents : List (OrderIntent R)

abbrev pub empty : {R : Type 0} → Repository R
empty = record {
  nonces = [];
  plans = [];
  events = [];
  idempotency_keys = [];
  kis_order_intents = [];
}

pub contains : String → List String → Bool
contains k [] = false
contains k (j ∷ ks) = str_eq j k || contains k ks

module _ {R : Type 0} where
  unfoldable pub add_event : Event R → Repository R → Repository R
  add_event e r = record r { events = e ∷ r.events }

  -- An insertion that breaks the primary key raises `IntegrityError`, and gives `False`.
  unfoldable pub claim_idempotency_key : String → Repository R → Bool × Repository R
  unfolding contains
  claim_idempotency_key key r =
      if contains key r.idempotency_keys
      then (false, r)
      else (true, record r { idempotency_keys = key ∷ r.idempotency_keys })

  pub has_intent : String → List (OrderIntent R) → Bool
  has_intent key [] = false
  has_intent key (i ∷ is) = str_eq i.idempotency_key key || has_intent key is

  unfoldable pub record_kis_order_intent : OrderIntent R → Repository R → Bool × Repository R
  unfolding has_intent
  record_kis_order_intent i r =
      if has_intent i.idempotency_key r.kis_order_intents then (false, r) else (
        true,
        record r { kis_order_intents = record i { symbol = upper i.symbol } ∷ r.kis_order_intents },
      )

  unfoldable pub latest_state : String → String → List (Event R) → Option OrderState
  latest_state plan_id symbol [] = none
  latest_state plan_id symbol (Event.order_state_changed m s p state ∷ es) =
      let rest = latest_state plan_id symbol es in
      if str_eq p plan_id && str_eq s symbol then some state else rest
  latest_state plan_id symbol (_ ∷ es) = latest_state plan_id symbol es

  unfoldable pub latest_order_state : String → String → Repository R → Option OrderState
  unfolding latest_state
  latest_order_state plan_id symbol r = latest_state plan_id (upper symbol) r.events
