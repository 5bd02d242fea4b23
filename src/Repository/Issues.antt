-- ===== src/Repository/Issues.antt =====
-- A code that has been issued can be consumed.
use ai_daytrader_sim.Prelude.{
  ℕ, ◌+◌, ◌*◌, String, ◌≡◌, refl, ◌&&◌, some, none, List, [], ◌∷◌, leb, str_eq, inl, inr,
  Bool-cases,
}
use ai_daytrader_sim.Models.{Market, us_per_minute}
use ai_daytrader_sim.Repository.{Repository, NonceRow}
use ai_daytrader_sim.Repository.Days.{same_key_refl}
use ai_daytrader_sim.Repository.Nonces.{
  same_key, find_nonce, put_nonce, nonce_valid, issue_nonce, consume_nonce,
}

find-put :
    (n : NonceRow) (rows : List NonceRow)
    → find_nonce n.market n.trade_date (put_nonce n rows) ≡ some n
unfolding find_nonce put_nonce
find-put n [] = rw (same_key_refl n.market n.trade_date) refl
find-put n (r ∷ rs) = elim (Bool-cases (same_key r.market r.trade_date n.market n.trade_date)) [
  | inl e ↦ rw (e, same_key_refl n.market n.trade_date) refl
  | inr e ↦ rw (e, e) (find-put n rs)
]

abbrev issued_row : (String → String) → Market → ℕ → ℕ → String → ℕ → NonceRow
issued_row hash m date ttl nonce now = record {
  market = m;
  trade_date = date;
  nonce_hash = hash nonce;
  expires_at = now + ttl * us_per_minute;
  used_at = none;
}

-- A code that was issued for a market and date is consumed, whatever codes there were, exactly when
-- the code given has its hash and the time is not past the code's life.
pub issue_nonce-consume_nonce :
    {R : Type 0} (hash : String → String) (m : Market) (date ttl : ℕ) (nonce code : String)
    (now later : ℕ) (r : Repository R)
    → (consume_nonce hash m date code later (issue_nonce hash m date ttl nonce now r)).0
      ≡ (str_eq (hash nonce) (hash code) && leb later (now + ttl * us_per_minute))
unfolding consume_nonce issue_nonce nonce_valid
issue_nonce-consume_nonce hash m date ttl nonce code now later r =
    rw (find-put (issued_row hash m date ttl nonce now) r.nonces)
      (elim (Bool-cases
        (str_eq (hash nonce) (hash code) && leb later (now + ttl * us_per_minute))) [
          | inl e ↦ rw e refl
          | inr e ↦ rw e refl
        ])
