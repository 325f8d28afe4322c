-- ===== src/Xrpl/Refunds/Locks.antt =====
-- The locks of the wallets that xrpl/src/refund_manager.rs pays from.
use axelar_relayer.Base.{
  ◌≡◌, arith, Bool, false, String, List, [], ◌∷◌, Result, ok, err, done, is_done, calls, outcome,
  if◌then◌else◌,
}
use axelar_relayer.Xrpl.Refunds.{
  Wallet, RefundCall, prepare_transaction, set_lock, del_lock, get_transaction_by_id,
  get_transactions_for_account, Env, get_wallet_lock,
}

module _ {C S : Type 0} (env : Env C S) where
  abbrev was_set : Result Bool String → Bool
  was_set (ok b) = b
  was_set (err _) = false

  -- The accounts whose locks are set by the calls.
  abbrev pub taken : List RefundCall → List String
  taken [] = []
  taken (set_lock a ∷ cs) = let rest = taken cs in if was_set (env.set a) then a ∷ rest else rest
  taken (prepare_transaction _ ∷ cs) = taken cs
  taken (del_lock _ ∷ cs) = taken cs
  taken (get_transaction_by_id _ ∷ cs) = taken cs
  taken (get_transactions_for_account _ _ ∷ cs) = taken cs

  -- The secret of each pair is a key.
  abbrev pub AreKeys : List (String × String) → Type 0
  AreKeys [] = Unit
  AreKeys ((secret, _) ∷ pairs) =
      ((bytes : String) × (key : String) × (env.secret secret ≡ ok bytes)
        × (env.parse_key bytes ≡ ok key))
      × AreKeys pairs

  -- A wallet that is handed out is locked, and no other lock was set on the way to it.
  pub lock_taken :
      (pairs : List (String × String)) (w : Wallet)
      → outcome (get_wallet_lock env pairs) ≡ done w
      → taken (calls (get_wallet_lock env pairs)) ≡ w.account_id ∷ []
  unfolding get_wallet_lock
  lock_taken [] w h = absurd (ground arith)
  lock_taken ((secret, address) ∷ pairs) w h = let rest = lock_taken pairs w in ground (arith, rest)

  -- If the secrets are keys, a request that fails leaves no lock set.
  pub no_lock_left :
      (pairs : List (String × String))
      → AreKeys pairs
      → is_done (outcome (get_wallet_lock env pairs)) ≡ false
      → taken (calls (get_wallet_lock env pairs)) ≡ []
  unfolding get_wallet_lock
  no_lock_left [] k h = ground arith
  no_lock_left ((secret, address) ∷ pairs) ((bytes, key, p, q), ks) h =
      let rest = no_lock_left pairs ks in ground (arith, rest)
