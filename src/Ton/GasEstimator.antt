-- ===== src/Ton/GasEstimator.antt =====
-- ton/src/gas_estimator.rs: how much gas the messages to the chain need, out of the numbers of the
-- configuration. The numbers are `u64`s, and sums and products wrap.
use axelar_relayer.Base.{ℕ, ◌+◌, ◌*◌, ◌%◌, ◌^◌, ltb, if◌then◌else◌}

pub record GasEstimates : Type 0 where
  pub native_gas_refund : ℕ
  pub native_gas_refund_storage_slippage : ℕ
  pub execute_send_min : ℕ
  pub execute_base : ℕ
  pub execute_payload : ℕ
  pub execute_storage_slippage : ℕ
  pub approve_send : ℕ
  pub highload_wallet_send : ℕ

abbrev u64 : ℕ → ℕ
u64 n = n % 2 ^ 64

unfoldable pub native_gas_refund_estimate : GasEstimates → ℕ
native_gas_refund_estimate config =
    u64 (config.native_gas_refund + config.native_gas_refund_storage_slippage)

unfoldable pub execute_estimate : GasEstimates → ℕ → ℕ
execute_estimate config payload = u64 (
    u64 (config.execute_base + u64 (config.execute_payload * payload))
    + config.execute_storage_slippage)

unfoldable pub execute_send : GasEstimates → ℕ → ℕ
unfolding execute_estimate
execute_send config payload =
    let estimate = execute_estimate config payload in
    if ltb estimate config.execute_send_min then config.execute_send_min else estimate

unfoldable pub highload_wallet_send : GasEstimates → ℕ → ℕ
highload_wallet_send config num_actions = u64 (config.highload_wallet_send * num_actions)

unfoldable pub approve_send : GasEstimates → ℕ → ℕ
approve_send config _ = config.approve_send
