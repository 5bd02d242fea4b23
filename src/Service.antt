-- ===== src/Service.antt =====
-- api.py: the requests that change the tables or reach the engine, as functions from the tables to a
-- response and the tables after it. FastAPI's routing and the notifier are left out.
pub mod Register
mod Tests
use Prim.Native.Char.{Char, code}
use Prim.Native.String.{len, slice}
use ai_daytrader_sim.Prelude.{
  ℕ, String, Bool, true, false, not, ◌&&◌, ◌||◌, Option, none, some, List, leb, ◌==◌, str_eq,
  if◌then◌else◌,
}
use ai_daytrader_sim.Prelude.Text.{starts_with}
use ai_daytrader_sim.Prelude.Result.{Result, ok, error}
use ai_daytrader_sim.Float.{Float}
use ai_daytrader_sim.Models.{Market, CostConfig, TradePlan, MarketTick}
use ai_daytrader_sim.MarketClock.{Calendar}
use ai_daytrader_sim.Repository.{Repository, Event, add_event}
use ai_daytrader_sim.Repository.Nonces.{issue_nonce}
use ai_daytrader_sim.Repository.Plans.{Approval, Conflict, approve_plan}
use ai_daytrader_sim.Validator.{Universe, PlanValidationError, validate_plan}
use ai_daytrader_sim.Broker.{Setup}
use ai_daytrader_sim.Engine.{Engine}
use ai_daytrader_sim.Engine.Process.{Answer, process_tick}

-- The characters that `str.strip` takes off, of those that a header can have (up to U+00FF).
abbrev is_space : Char → Bool
is_space c =
    let n = code c in n == 32 || leb 9 n && leb n 13 || leb 28 n && leb n 31 || n == 133 || n == 160

unfoldable pub is_ascii : String → Bool
is_ascii String.[] = true
is_ascii (String.◌∷◌ c s) = leb (code c) 127 && is_ascii s

unfoldable pub strip_left : String → String
strip_left String.[] = String.[]
strip_left (String.◌∷◌ c s) = let rest = strip_left s in if is_space c then rest else String.◌∷◌ c s

unfoldable pub strip_right : String → String
strip_right String.[] = String.[]
strip_right (String.◌∷◌ c s) =
    let rest = strip_right s in
    if str_eq rest "" && is_space c then String.[] else String.◌∷◌ c rest

-- `_bearer`
unfoldable pub bearer : Option String → String
unfolding strip_left strip_right
bearer none = ""
bearer (some authorization) =
    if starts_with authorization "Bearer "
    then strip_right (strip_left (slice authorization 7 (len authorization)))
    else ""

-- Whether `_require` lets a request pass. It raises a 401 otherwise, or the `TypeError` with which
-- `hmac.compare_digest` meets a text that is not ASCII.
unfoldable pub authorized : String → Option String → Bool
unfolding bearer is_ascii
authorized expected authorization =
    not (str_eq expected "")
    && (is_ascii (bearer authorization) && is_ascii expected)
    && str_eq (bearer authorization) expected

-- The responses to a plan: 401 (or the 500 of a `TypeError`), 422 with the error, 409 with the conflict or for the code, and 201 with
-- the hash.
pub data Response : Type 0 where
  unauthorized : Response
  unprocessable : PlanValidationError → Response
  conflict : Conflict → Response
  code_refused : Response
  created : String → Response

module _ {R : Type 0} where
  abbrev reject : TradePlan R → Repository R → Repository R
  reject p r = add_event (Event.plan_rejected p.market p.plan_id) r

  -- What an approval is answered with; an `IntegrityError` writes no event.
  unfoldable pub respond : TradePlan R → Approval × Repository R → Response × Repository R
  unfolding add_event
  respond p (Approval.approved content_hash, r) = (created content_hash, r)
  respond p (Approval.refused, r) = (code_refused, reject p r)
  respond p (Approval.conflict Conflict.integrity, r) = (conflict Conflict.integrity, r)
  respond p (Approval.conflict c, r) = (conflict c, reject p r)

-- `register_plan`; `now` is the time of the validation and `later` that of the approval.
module _ {R : Type 0} ⦃f : Float R⦄ (c : Calendar) (hash : String → String)
    (dump : TradePlan R → String) (gpt_action_bearer : String) (universe : Universe)
    (costs : Market → CostConfig R) where
  unfoldable pub register_valid :
      TradePlan R
      → ℕ
      → Result PlanValidationError (Unit {0})
      → Repository R
      → Response × Repository R
  unfolding respond approve_plan add_event
  register_valid p later (error e) r = (unprocessable e, reject p r)
  register_valid p later (ok u) r = respond p (approve_plan hash dump p later r)

  unfoldable pub register_plan :
      TradePlan R → Option String → (now later : ℕ) → Repository R → Response × Repository R
  unfolding authorized validate_plan register_valid
  register_plan p authorization now later r =
      if not (authorized gpt_action_bearer authorization)
      then (unauthorized, r)
      else register_valid p later (validate_plan c now universe costs p) r

-- `issue_nonce`, with the code that is drawn: whether the request passed, and the tables.
unfoldable pub request_nonce :
    {R : Type 0} (hash : String → String) (admin_bearer : String)
    → Market
    → (trade_date : ℕ) → Option String
    → (nonce : String) (now : ℕ) → Repository R
    → Bool × Repository R
unfolding authorized issue_nonce
request_nonce hash admin_bearer m date authorization nonce now r =
    if not (authorized admin_bearer authorization)
    then (false, r)
    else (true, issue_nonce hash m date 45 nonce now r)

-- `ingest_tick`: no answer for a request that does not pass.
unfoldable pub ingest_tick :
    {R : Type 0} ⦃f : Float R⦄ (σ : Setup R) (c : Calendar)
    → (fmean : List R → R) → (market_data_bearer : String) → MarketTick R
    → Option String
    → (now : ℕ) → Engine R
    → Option Answer × Engine R
unfolding authorized process_tick
ingest_tick σ c fmean market_data_bearer tick authorization now e =
    let (answer, e') = process_tick σ c fmean tick now e in
    if not (authorized market_data_bearer authorization) then (none, e) else (some answer, e')
