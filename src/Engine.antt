-- ===== src/Engine.antt =====
-- engine.py: the state of `TradingEngine`, and what it does with the feed. The dicts that are keyed by a
-- market and a symbol are here a dict by symbol for each market.
pub mod Ready
pub mod Context
pub mod Entry
pub mod Process
pub mod Calls
pub mod Runs
pub mod Ticks
pub mod Feeds
pub mod Gates
mod Tests
use ai_daytrader_sim.Prelude.{
  ℕ, ◌+◌, ◌*◌, String, Bool, true, false, not, ◌&&◌, ◌||◌, Option, none, some, List, [], ◌∷◌, ◌++◌,
  ltb, leb, str_eq, is_empty, is_some, or_else, if◌then◌else◌,
}
use ai_daytrader_sim.Prelude.Dict.{Dict, lookup, insert, erase, update}
use ai_daytrader_sim.Prelude.Text.{upper}
use ai_daytrader_sim.Float.{Float, ◌⊖◌, ◌⊗◌, ◌⊘◌, num, lt}
use ai_daytrader_sim.Models.{
  Market, same_market, Session, MarketTick, CostConfig, is_open, is_trading, is_normal,
  us_per_second,
}
use ai_daytrader_sim.Models.Rule.{Value}
use ai_daytrader_sim.Repository.{Repository, Event, add_event}
use ai_daytrader_sim.Rules.{CrossDebounceState}
use ai_daytrader_sim.Pullback.{RuntimeState, Machine, new_state}
use ai_daytrader_sim.Broker.Markets.{Broker}

abbrev session_name : Session → String
session_name Session.premarket = "premarket"
session_name Session.regular = "regular"
session_name Session.afterhours = "afterhours"
session_name Session.closed = "closed"

pub record FeedState : Type 0 where
  pub source_timestamp : ℕ
  pub received_timestamp : ℕ
  pub sequence_id : ℕ
  pub connection_id : String
  pub session : Session
  pub halted : Bool
  pub warmup_until : Option ℕ
  pub context_reset : Bool

-- A dict for each market.
abbrev pub ByMarket : Type 0 → Type 0
ByMarket V = Market → Dict V

abbrev pub put_market : {V : Type 0} → Market → Dict V → ByMarket V → ByMarket V
put_market m d all n = if same_market m n then d else all n

-- A dict keyed by two texts, as a dict of dicts.
abbrev pub lookup2 : {V : Type 0} → String → String → Dict (Dict V) → Option V
lookup2 a b d = elim (lookup a d) [ none ↦ none | some inner ↦ lookup b inner ]

abbrev pub insert2 : {V : Type 0} → String → String → V → Dict (Dict V) → Dict (Dict V)
insert2 a b v d = insert a (insert b v (or_else (lookup a d) [])) d

-- What the plans are worked on with: the broker with the tables, the debounce states by symbol and
-- plan, and the states of the strategy by plan and symbol, in memory and stored.
pub record Core (R : Type 0) : Type 0 where
  pub broker : Broker R
  pub cross_states : Dict (Dict (Dict CrossDebounceState))
  pub states : Dict (Dict (RuntimeState R))
  pub strategy_states : Dict (Dict (RuntimeState R))

pub record Engine (R : Type 0) : Type 0 where
  pub core : Core R
  pub latest_ticks : ByMarket (MarketTick R)
  pub previous_context : ByMarket (Dict (Value R))
  pub feed_states : ByMarket FeedState

-- `reasons.append(reason)` under a test.
abbrev pub reason_if : Bool → String → List String
reason_if test reason = if test then reason ∷ [] else []

module _ {R : Type 0} where
  unfoldable pub write : (Repository R → Repository R) → Core R → Core R
  write change k = record k {
    broker = record (k.broker) { repository = change k.broker.repository };
  }

  unfoldable pub log_rejection :
      MarketTick R → Option String → List String → String → Core R → Core R
  unfolding write add_event
  log_rejection tick plan_id reasons event_type k =
      write (add_event (Event.rejected event_type tick.market tick.symbol plan_id reasons)) k

  -- `_state`, with the stored row and the tables: the state in memory, or the stored one, or a new one.
  unfoldable pub machine : String → String → Core R → Machine R
  unfolding upper
  machine plan_id symbol k =
      let stored = lookup2 plan_id (upper symbol) k.strategy_states in
      record {
        state = or_else (lookup2 plan_id (upper symbol) k.states) (or_else stored new_state);
        saved = stored;
        repository = k.broker.repository;
      }

  unfoldable pub put_machine : String → String → Machine R → Core R → Core R
  unfolding upper write
  put_machine plan_id symbol s k =
      write (λ r. s.repository)
        (record k {
          states = insert2 plan_id (upper symbol) s.state k.states;
          strategy_states = elim s.saved [
            | none ↦ k.strategy_states
            | some row ↦ insert2 plan_id (upper symbol) row k.strategy_states
          ];
        })

  unfoldable pub on_machine : String → String → (Machine R → Machine R) → Core R → Core R
  unfolding machine put_machine
  on_machine plan_id symbol change k =
      put_machine plan_id symbol (change (machine plan_id symbol k)) k

-- The reasons that the last state of a feed gives against a tick of the same connection.
unfoldable pub feed_order : {R : Type 0} → MarketTick R → Option FeedState → List String
feed_order tick none = []
feed_order tick (some s) =
    if str_eq s.connection_id tick.connection_id
    then reason_if (ltb tick.source_timestamp s.source_timestamp) "SOURCE_TIME_REVERSED"
      ++ reason_if (ltb tick.received_timestamp s.received_timestamp) "RECEIVED_TIME_REVERSED"
      ++ reason_if (leb tick.sequence_id s.sequence_id) "SEQUENCE_REVERSED"
    else []

module _ {R : Type 0} ⦃f : Float R⦄ where
  unfoldable pub spread_pct : MarketTick R → R
  spread_pct tick = (tick.ask ⊖ tick.bid) ⊘ tick.last ⊗ num 100

  -- `context`: a tick's own indicators come last, and replace.
  unfoldable pub context : MarketTick R → Dict (Value R)
  unfolding spread_pct
  context tick =
      update
        (("last", Value.number tick.last)
          ∷ ("bid", Value.number tick.bid)
          ∷ ("ask", Value.number tick.ask)
          ∷ ("spread_pct", Value.number (spread_pct tick))
          ∷ [])
        tick.indicators

  -- `_validate_feed`, at the time `now`
  unfoldable pub validate_feed : CostConfig R → ℕ → MarketTick R → ByMarket FeedState → List String
  unfolding feed_order upper
  validate_feed policy now tick feeds =
      let source = tick.source_timestamp in
      let received = tick.received_timestamp in
      reason_if (ltb (source + policy.max_tick_age) now) "STALE_DATA"
      ++ reason_if (ltb (now + us_per_second) source || ltb (now + us_per_second) received)
          "FUTURE_TIMESTAMP"
      ++ reason_if (ltb (received + us_per_second) source) "SOURCE_AFTER_RECEIVED"
      ++ reason_if (lt tick.ask tick.bid) "CROSSED_MARKET"
      ++ feed_order tick (lookup (upper tick.symbol) (feeds tick.market))

  abbrev pub halted_now : MarketTick R → Bool
  halted_now tick =
      not (is_open tick.market_status)
      || not (is_trading tick.symbol_status)
      || not (is_normal tick.luld_status)

  -- Whether the connection or the session changed, and whether a halt ended, since the last state.
  abbrev pub feed_reset : MarketTick R → Option FeedState → Bool
  feed_reset tick none = false
  feed_reset tick (some s) =
      not (str_eq s.connection_id tick.connection_id)
      || not (str_eq (session_name s.session) (session_name tick.session))

  abbrev pub feed_resumed : MarketTick R → Option FeedState → Bool
  feed_resumed tick none = false
  feed_resumed tick (some s) = s.halted && not (halted_now tick)

  -- The state that a tick leaves of its feed.
  unfoldable pub next_feed : CostConfig R → MarketTick R → Option FeedState → FeedState
  next_feed policy tick prior =
      let begun = feed_reset tick prior || feed_resumed tick prior in
      record {
        source_timestamp = tick.source_timestamp;
        received_timestamp = tick.received_timestamp;
        sequence_id = tick.sequence_id;
        connection_id = tick.connection_id;
        session = tick.session;
        halted = halted_now tick;
        warmup_until =
            if begun
            then some
                (tick.received_timestamp + policy.halt_resume_cooldown_seconds * us_per_second)
            else elim prior [ none ↦ none | some s ↦ s.warmup_until ];
        context_reset = begun;
      }

  -- `_update_feed_state`: a feed that begins anew or halts loses its context and its crosses.
  unfoldable pub update_feed_state : CostConfig R → MarketTick R → Engine R → FeedState × Engine R
  unfolding next_feed upper
  update_feed_state policy tick e =
      let m = tick.market in
      let symbol = upper tick.symbol in
      let state = next_feed policy tick (lookup symbol (e.feed_states m)) in
      let kept = record e {
        feed_states = put_market m (insert symbol state (e.feed_states m)) e.feed_states;
      } in
      let cleared = record kept {
        previous_context = put_market m (erase symbol (e.previous_context m)) e.previous_context;
        core = record (e.core) { cross_states = erase symbol e.core.cross_states };
      } in
      (state, if state.context_reset || state.halted then cleared else kept)
