-- ===== src/Repository/Tests.antt =====
-- The codes and the plans at concrete inputs.
use ai_daytrader_sim.Prelude.{
  ℕ, String, ◌<>◌, ◌≡◌, refl, false, [], ◌∷◌, All, length, str_eq, leb, ◌&&◌, ◌+◌, ◌*◌, ◌≤◌, arith,
}
use ai_daytrader_sim.Float.Scaled.{ℤ}
use ai_daytrader_sim.Models.{Market, TradePlan, us_per_minute}
use ai_daytrader_sim.Repository.{Repository, empty}
use ai_daytrader_sim.Repository.Nonces.{same_key, issue_nonce, consume_nonce}
use ai_daytrader_sim.Repository.Plans.{Approval, active_plans, Conflict, approve_plan, hash_of}
use ai_daytrader_sim.Repository.Codes.{Unissued, approval_once}
use ai_daytrader_sim.Repository.Issues.{issue_nonce-consume_nonce}
use ai_daytrader_sim.Repository.Arming.{Earlier}
use ai_daytrader_sim.Repository.Approvals.{
  Reachable, one_active_plan, IsAtomic, approve_plan-IsAtomic,
}
use ai_daytrader_sim.Broker.Sample.{plan}

abbrev hash : String → String
hash text = "hash of " <> text

abbrev dump : TradePlan ℤ → String
dump p = p.plan_id

abbrev trade_plan : String → ℕ → TradePlan ℤ
trade_plan plan_id version = record {
  plan_id = plan_id;
  plan_version = version;
  created_at = 0;
  market = Market.kr;
  trade_date = 20_000;
  expires_at = 1_000_000_000;
  approval_nonce = "123456";
  approved_symbols = plan ∷ [];
}

abbrev first : TradePlan ℤ
first = trade_plan "KR-1" 1

abbrev second : TradePlan ℤ
second = trade_plan "KR-2" 2

abbrev issued : Repository ℤ
issued = issue_nonce hash Market.kr 20_000 45 "123456" 10 empty

abbrev armed : Repository ℤ
armed = (approve_plan hash dump first 20 issued).1

-- A second code is issued, and a second version of the plan is approved with it.
abbrev again : Repository ℤ
again = issue_nonce hash Market.kr 20_000 45 "123456" 30 armed

approvals :
    ((approve_plan hash dump first 20 issued).0 ≡ Approval.approved (hash_of hash dump first))
    × ((approve_plan hash dump second 40 again).0 ≡ Approval.approved (hash_of hash dump second))
    × ((approve_plan hash dump second 25 armed).0 ≡ Approval.refused)
    × ((approve_plan hash dump first 40 again).0 ≡ Approval.conflict Conflict.version_must_increase)
unfolding approve_plan issue_nonce same_key
approvals = (refl, refl, refl, refl)

armed-Reachable : Reachable hash dump armed
unfolding issue_nonce
armed-Reachable =
    Reachable.approve first 20 tt (Reachable.write {r = empty} issued refl Reachable.start)

again-Reachable : Reachable hash dump again
unfolding issue_nonce
again-Reachable = Reachable.write {r = armed} again refl armed-Reachable

approval_once_example :
    (approve_plan hash dump second 40 armed ≡ (Approval.refused, armed))
    × (consume_nonce hash Market.kr 20_000 "123456" 40 armed ≡ (false, armed))
approval_once_example =
    approval_once hash dump first 20 (hash_of hash dump first) issued armed approvals.0
      Unissued.done second "123456" 40 refl refl

one_active_plan_example : length (active_plans Market.kr 20_000 again) ≤ 1
one_active_plan_example = one_active_plan hash dump again Market.kr 20_000 again-Reachable

later : All (Earlier 40) again.plans
unfolding approve_plan issue_nonce same_key
later = (omega arith, tt)

approve_plan-IsAtomic_example :
    IsAtomic hash dump second again (approve_plan hash dump second 40 again)
approve_plan-IsAtomic_example =
    approve_plan-IsAtomic hash dump second 40 again again-Reachable later

issue_nonce-consume_nonce_example :
    (consume_nonce hash Market.kr 20_000 "123456" 20 issued).0
    ≡ (str_eq (hash "123456") (hash "123456") && leb 20 (10 + 45 * us_per_minute))
issue_nonce-consume_nonce_example =
    issue_nonce-consume_nonce hash Market.kr 20_000 45 "123456" "123456" 10 20 empty
