-- ===== src/Ton/Broadcaster/Held.antt =====
-- The wallets that ton/src/broadcaster.rs takes out of the pool.
use axelar_relayer.Base.{◌≡◌, arith, String, List, [], ◌∷◌, Result, ok, err, calls}
use axelar_relayer.Gmp.Task.{ExecuteTaskFields, RefundTaskFields}
use axelar_relayer.Ton.Broadcaster.{
  TonWalletHighLoadV3, TonCall, acquire, release, next_query_id, post_v3_message, Env,
  TonBroadcaster, broadcast_prover_message, broadcast_execute_message, broadcast_refund_message,
}

-- Only the ids and the client are asked, and then the wallet `w` is released, as the last call.
abbrev pub IsReleased : TonWalletHighLoadV3 → List TonCall → Type 0
IsReleased w [] = ⊥
IsReleased w (acquire ∷ cs) = ⊥
IsReleased w (release v ∷ cs) = (v ≡ w) × (cs ≡ [])
IsReleased w (next_query_id _ _ ∷ cs) = IsReleased w cs
IsReleased w (post_v3_message _ ∷ cs) = IsReleased w cs

-- No call at all, or a wallet is asked for first, and released if there was one.
abbrev pub IsBracketed : Result TonWalletHighLoadV3 String → List TonCall → Type 0
IsBracketed r [] = Unit
IsBracketed (ok w) (acquire ∷ cs) = IsReleased w cs
IsBracketed (err _) (acquire ∷ cs) = cs ≡ []
IsBracketed r (release _ ∷ cs) = ⊥
IsBracketed r (next_query_id _ _ ∷ cs) = ⊥
IsBracketed r (post_v3_message _ ∷ cs) = ⊥

module _ {O : Type 0} (b : TonBroadcaster) (env : Env O) where
  prover_released :
      (blob : String) → IsBracketed env.acquired (calls (broadcast_prover_message b env blob))
  unfolding broadcast_prover_message
  prover_released blob = ground arith

  refund_released :
      (t : RefundTaskFields) → IsBracketed env.acquired (calls (broadcast_refund_message b env t))
  unfolding broadcast_refund_message
  refund_released t = ground arith

  execute_released :
      (t : ExecuteTaskFields) → IsBracketed env.acquired (calls (broadcast_execute_message b env t))
  unfolding broadcast_execute_message
  execute_released t = ground arith

  -- Each of the three broadcasts either makes no call at all, or asks for a wallet first; where it is
  -- given one, it releases that wallet, once and as the last thing it does, whatever fails in
  -- between, and where it is not, nothing follows.
  pub wallet_released :
      ((blob : String) → IsBracketed env.acquired (calls (broadcast_prover_message b env blob)))
      × ((t : ExecuteTaskFields)
          → IsBracketed env.acquired (calls (broadcast_execute_message b env t)))
      × ((t : RefundTaskFields)
          → IsBracketed env.acquired (calls (broadcast_refund_message b env t)))
  wallet_released = (prover_released, execute_released, refund_released)
