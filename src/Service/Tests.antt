-- ===== src/Service/Tests.antt =====
-- Requests at concrete inputs.
use ai_daytrader_sim.Prelude.{◌+◌, String, ◌<>◌, ◌≡◌, refl, false, some}
use ai_daytrader_sim.Float.Scaled.{ℤ, scaled_float}
use ai_daytrader_sim.Models.{Market, TradePlan}
use ai_daytrader_sim.Repository.{Repository, empty}
use ai_daytrader_sim.Repository.Nonces.{same_key, issue_nonce}
use ai_daytrader_sim.Repository.Approvals.{Reachable}
use ai_daytrader_sim.Validator.Sample.{calendar, trade_plan, universe, now, rising}
use ai_daytrader_sim.Service.{Response, authorized, bearer, register_plan}
use ai_daytrader_sim.Service.Register.{Registered, register_plan-Registered}
use ai_daytrader_sim.Broker.Sample.{cost}

abbrev hash : String → String
hash text = "hash of " <> text

abbrev dump : TradePlan ℤ → String
dump p = p.plan_id

abbrev issued : Repository ℤ
issued = issue_nonce hash Market.kr 20_000 45 "123456" now empty

issued-Reachable : Reachable hash dump issued
unfolding issue_nonce
issued-Reachable = Reachable.write {r = empty} issued refl Reachable.start

tokens :
    (bearer (some "Bearer  secret ") ≡ "secret")
    × (authorized "secret" (some "secret") ≡ false)
    × (authorized "" (some "Bearer ") ≡ false)
unfolding authorized
tokens = (refl, refl, refl)

registered :
    (register_plan calendar hash dump "secret" universe
      (λ m. cost)
      (trade_plan rising)
      (some "Bearer secret")
      now
      (now + 1)
      issued).0
    ≡ Response.created "hash of KR-0001-A"
unfolding register_plan issue_nonce same_key
registered = refl

register_plan-Registered_example :
    Registered calendar hash dump "secret" universe
      (λ m. cost)
      (trade_plan rising)
      (some "Bearer secret")
      now
      issued
      (register_plan calendar hash dump "secret" universe
        (λ m. cost)
        (trade_plan rising)
        (some "Bearer secret")
        now
        (now + 1)
        issued)
unfolding issue_nonce
register_plan-Registered_example =
    register_plan-Registered calendar hash dump "secret" universe (λ m. cost) (trade_plan rising)
      (some "Bearer secret") now (now + 1) issued issued-Reachable tt
