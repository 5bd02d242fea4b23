-- ===== src/Broker/Report.antt =====
-- broker.py: `performance` and `view`, with the queries of repository.py that they read.
use ai_daytrader_sim.Prelude.{
  ℕ, ◌+◌, inl, inr, Option, none, some, List, [], ◌∷◌, length, Bool-cases, if◌then◌else◌, or_else,
  All,
}
use ai_daytrader_sim.Prelude.Dict.{Dict, lookup}
use ai_daytrader_sim.Float.{Float, ◌⊕◌, ◌⊖◌, ◌⊗◌, ◌⊘◌, num, lt, feq, fmax, abs}
use ai_daytrader_sim.Float.Laws.{◌≼◌, IsOrdered, le-fmax_left, le-fmax_right}
use ai_daytrader_sim.Models.{Market, same_market}
use ai_daytrader_sim.Portfolio.{Position, PendingOrder}
use ai_daytrader_sim.Repository.{Repository, Event}
use ai_daytrader_sim.Broker.{Setup, Desk}
use ai_daytrader_sim.Broker.Costs.{daily_risk_used}

module _ {R : Type 0} where
  -- The profits of the closed positions of a market, oldest first; the events are newest first.
  unfoldable pub closed_pnls_from : Market → List (Event R) → List R → List R
  closed_pnls_from m [] later = later
  closed_pnls_from m (Event.paper_position_closed n s p pnl fees reason ∷ es) later =
      closed_pnls_from m es (if same_market n m then pnl ∷ later else later)
  closed_pnls_from m (_ ∷ es) later = closed_pnls_from m es later

  unfoldable pub closed_trade_pnls : Market → Repository R → List R
  unfolding closed_pnls_from
  closed_trade_pnls m r = closed_pnls_from m r.events []

  unfoldable pub sessions_from : Market → List (Event R) → ℕ
  sessions_from m [] = 0
  sessions_from m (Event.paper_session_started n date ∷ es) =
      let rest = sessions_from m es in if same_market n m then rest + 1 else rest
  sessions_from m (_ ∷ es) = sessions_from m es

  unfoldable pub paper_session_count : Market → Repository R → ℕ
  unfolding sessions_from
  paper_session_count m r = sessions_from m r.events

-- The answer of `performance` without its two constant targets.
pub record Performance (R : Type 0) : Type 0 where
  pub market : Market
  pub paper_sessions : ℕ
  pub closed_trades : ℕ
  pub net_pnl : R
  pub profit_factor : Option R
  pub max_drawdown_pct : R

-- The answer of `view`, with the positions and orders themselves.
pub record View (R : Type 0) : Type 0 where
  pub market : Market
  pub cash : R
  pub equity : R
  pub realized_pnl : R
  pub session_realized_pnl : R
  pub daily_risk_used : R
  pub trades_today : ℕ
  pub order_submissions_today : ℕ
  pub positions : Dict (Position R)
  pub pending_orders : Dict (PendingOrder R)

module _ {R : Type 0} ⦃f : Float R⦄ where
  -- `sum`, from a start
  unfoldable pub sum_from : R → List R → R
  sum_from total [] = total
  sum_from total (x ∷ xs) = sum_from (total ⊕ x) xs

  unfoldable pub above_zero : List R → List R
  above_zero [] = []
  above_zero (x ∷ xs) = let rest = above_zero xs in if lt (num 0) x then x ∷ rest else rest

  unfoldable pub below_zero : List R → List R
  below_zero [] = []
  below_zero (x ∷ xs) = let rest = below_zero xs in if lt x (num 0) then x ∷ rest else rest

  -- The loop of `performance`: equity, its peak and the greatest drawdown so far.
  unfoldable pub drawdown_from : R → R → R → List R → R
  drawdown_from equity peak greatest [] = greatest
  drawdown_from equity peak greatest (pnl ∷ pnls) =
      let equity' = equity ⊕ pnl in
      let peak' = fmax peak equity' in
      drawdown_from equity' peak'
        (if lt (num 0) peak' then fmax greatest ((peak' ⊖ equity') ⊘ peak' ⊗ num 100) else greatest)
        pnls

  unfoldable pub performance : Market → Desk R → Performance R
  performance m d =
      let pnls = closed_trade_pnls m d.repository in
      let gross_profit = sum_from (num 0) (above_zero pnls) in
      let gross_loss = abs (sum_from (num 0) (below_zero pnls)) in
      let initial = d.portfolio.initial_cash in
      record {
        market = m;
        paper_sessions = paper_session_count m d.repository;
        closed_trades = length pnls;
        net_pnl = sum_from (num 0) pnls;
        profit_factor = if feq gross_loss (num 0) then none else some (gross_profit ⊘ gross_loss);
        max_drawdown_pct = drawdown_from initial initial (num 0) pnls;
      }

  -- The value of the positions, each at its mark or else at its entry price.
  unfoldable pub market_value_from : R → Dict R → Dict (Position R) → R
  market_value_from total marks [] = total
  market_value_from total marks ((symbol, q) ∷ qs) =
      market_value_from (total ⊕ num q.remaining ⊗ or_else (lookup symbol marks) q.entry_price)
        marks qs

  unfoldable pub view : Setup R → Market → Dict R → Desk R → View R
  view σ m marks d =
      let p = d.portfolio in
      record {
        market = m;
        cash = p.cash;
        equity = p.cash ⊕ market_value_from (num 0) marks p.positions;
        realized_pnl = p.realized_pnl;
        session_realized_pnl = p.session_realized_pnl;
        daily_risk_used = daily_risk_used (σ.costs m) p;
        trades_today = p.trades_today;
        order_submissions_today = p.order_submissions_today;
        positions = p.positions;
        pending_orders = p.pending_orders;
      }

  -- The drawdown in percent after each trade, from the peak up to it, where that is positive.
  abbrev pub drawdowns : R → R → List R → List R
  drawdowns equity peak [] = []
  drawdowns equity peak (pnl ∷ pnls) =
      let equity' = equity ⊕ pnl in
      let peak' = fmax peak equity' in
      let rest = drawdowns equity' peak' pnls in
      if lt (num 0) peak' then (peak' ⊖ equity') ⊘ peak' ⊗ num 100 ∷ rest else rest

  drawdown_from-bound :
      IsOrdered R
      → (equity peak greatest : R) (pnls : List R)
      → (greatest ≼ drawdown_from equity peak greatest pnls)
        × All (λ x. x ≼ drawdown_from equity peak greatest pnls) (drawdowns equity peak pnls)
  unfolding drawdown_from
  drawdown_from-bound o equity peak greatest [] = (o.le_refl greatest, tt)
  drawdown_from-bound o equity peak greatest (pnl ∷ pnls) =
      let equity' = equity ⊕ pnl in
      let peak' = fmax peak equity' in
      let here = (peak' ⊖ equity') ⊘ peak' ⊗ num 100 in
      elim (Bool-cases (lt (num 0) peak')) [
        | inl positive ↦
            let next = fmax greatest here in
            let (kept, rest) = drawdown_from-bound o equity' peak' next pnls in
            let last = drawdown_from equity' peak' next pnls in
            rw positive (
              o.le_trans greatest next last (le-fmax_left o greatest here) kept,
              (o.le_trans here next last (le-fmax_right o greatest here) kept, rest),
            )
        | inr flat ↦ rw flat (drawdown_from-bound o equity' peak' greatest pnls)
      ]

  -- The greatest drawdown that `performance` reports is not negative and not below the drawdown after
  -- any of the market's closed trades, in the order in which they were closed, on an ordered number
  -- type.
  pub performance-drawdown :
      IsOrdered R
      → (m : Market) (d : Desk R)
      → let initial = d.portfolio.initial_cash in
        let greatest = (performance m d).max_drawdown_pct in
        (num 0 ≼ greatest)
        × All (λ x. x ≼ greatest) (drawdowns initial initial (closed_trade_pnls m d.repository))
  unfolding performance
  performance-drawdown o m d =
      drawdown_from-bound o d.portfolio.initial_cash d.portfolio.initial_cash (num 0)
        (closed_trade_pnls m d.repository)
