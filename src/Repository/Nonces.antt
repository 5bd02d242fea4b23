-- ===== src/Repository/Nonces.antt =====
-- repository.py: the one-time approval codes of a market and date.
use ai_daytrader_sim.Prelude.{
  ℕ, ◌+◌, ◌*◌, String, Bool, true, false, not, ◌&&◌, Option, none, some, List, [], ◌∷◌, leb, ◌==◌,
  str_eq, is_some, if◌then◌else◌,
}
use ai_daytrader_sim.Models.{Market, same_market, us_per_minute}
use ai_daytrader_sim.Repository.{Repository, NonceRow}

-- `WHERE market=? AND trade_date=?`
unfoldable pub same_key : Market → ℕ → Market → ℕ → Bool
same_key m date n day = same_market m n && date == day

unfoldable pub find_nonce : Market → ℕ → List NonceRow → Option NonceRow
find_nonce m date [] = none
find_nonce m date (r ∷ rs) =
    if same_key r.market r.trade_date m date then some r else find_nonce m date rs

-- `UPDATE nonces SET used_at=? WHERE market=? AND trade_date=? AND used_at IS NULL`
unfoldable pub use_nonce : Market → ℕ → ℕ → List NonceRow → List NonceRow
use_nonce m date now [] = []
use_nonce m date now (r ∷ rs) =
    (if same_key r.market r.trade_date m date && not (is_some r.used_at)
      then record r { used_at = some now }
      else r)
    ∷ use_nonce m date now rs

-- The insertion of `issue_nonce`: a row of the same market and date is overwritten.
unfoldable pub put_nonce : NonceRow → List NonceRow → List NonceRow
put_nonce n [] = n ∷ []
put_nonce n (r ∷ rs) =
    if same_key r.market r.trade_date n.market n.trade_date then n ∷ rs else r ∷ put_nonce n rs

-- `hash` is SHA-256 of a text, in hexadecimal digits.
module _ (hash : String → String) where
  -- `nonce` is the code that `secrets` draws.
  unfoldable pub issue_nonce :
      {R : Type 0} → Market → ℕ → ℕ → String → ℕ → Repository R → Repository R
  unfolding put_nonce
  issue_nonce m date ttl_minutes nonce now r = record r {
    nonces =
        put_nonce
          (record {
            market = m;
            trade_date = date;
            nonce_hash = hash nonce;
            expires_at = now + ttl_minutes * us_per_minute;
            used_at = none;
          })
          r.nonces;
  }

  -- Whether a row lets the code pass: it is there, unused, the code's, and has not expired.
  unfoldable pub nonce_valid : Option NonceRow → String → ℕ → Bool
  nonce_valid none nonce now = false
  nonce_valid (some row) nonce now =
      not (is_some row.used_at) && str_eq row.nonce_hash (hash nonce) && leb now row.expires_at

  unfoldable pub consume_nonce :
      {R : Type 0} → Market → ℕ → String → ℕ → Repository R → Bool × Repository R
  unfolding find_nonce use_nonce nonce_valid
  consume_nonce m date nonce now r =
      if nonce_valid (find_nonce m date r.nonces) nonce now
      then (true, record r { nonces = use_nonce m date now r.nonces })
      else (false, r)
