-- ===== src/Ton/Broadcaster.antt =====
-- ton/src/broadcaster.rs: it packs the messages that approve, execute and refund, and sends them to
-- the TON chain through a wallet of the pool. The TON library, the encodings into its cells, the
-- client of the chain, the pool of wallets (Ton/Wallets) and the ids of queries (Ton/QueryStore)
-- enter by what they answer; `O` is the type of the actions that the wallet takes. An address and a
-- hash are their texts.
pub mod Held
pub mod Unsent
use Prim.Native.Char.{code}
use Prim.Native.String
use axelar_relayer.Base.Texts.{parse_u64}
use axelar_relayer.Base.{
  ℕ, ◌-◌, ◌^◌, ◌==◌, ◌&&◌, ltb, Bool, true, false, String, concat, if◌then◌else◌, is_some,
  unwrap_or, Option, none, some, List, [], ◌∷◌, length, Result, ok, err, map_err, Exec, ◌>>=◌, ◌>>◌,
  pure, raise, lift, call, tell, attempt,
}
use axelar_relayer.Gmp.Task.{ExecuteTaskFields, RefundTaskFields}
use axelar_relayer.Gmp.Errors.{BroadcasterError}
use axelar_relayer.Includer.{BroadcastResult}
use axelar_relayer.Ton.GasEstimator.{
  GasEstimates, native_gas_refund_estimate, execute_estimate, execute_send, highload_wallet_send,
  approve_send,
}

-- What the broadcaster reads of a wallet.
pub record TonWalletHighLoadV3 : Type 0 where
  pub address : String
  pub timeout : ℕ

pub record TonTransaction : Type 0 where

-- What the code reads of a message that is approved.
pub record ApproveMessage : Type 0 where
  pub message_id : String
  pub source_chain : String

pub record NativeRefundMessage : Type 0 where
  pub tx_hash : String
  pub address : String
  pub amount : ℕ

pub record RelayerExecuteMessage : Type 0 where
  pub message_id : String
  pub source_chain : String
  pub source_address : String
  pub destination_chain : String
  pub destination_address : String
  pub payload : String
  pub relayer : String

pub data TonCall : Type 0 where
  acquire : TonCall
  release : TonWalletHighLoadV3 → TonCall
  next_query_id : String → ℕ → TonCall
  post_v3_message : String → TonCall

-- What the parts outside answer. `decode` is base64 to the number of bytes and their hex digits, and
-- `outgoing_message` a signed message in base64.
pub record Env (O : Type 0) : Type 0 where
  pub acquired : Result TonWalletHighLoadV3 String
  pub query_id : String → ℕ → Result ℕ String
  pub posted : String → Result String String
  pub outgoing_message : TonWalletHighLoadV3 → List O → ℕ → ℕ → Result String String
  pub out_action : String → ℕ → String → Result O String
  pub approve_messages : String → Result (List ApproveMessage) String
  pub native_refund : NativeRefundMessage → Result String String
  pub relayer_execute : RelayerExecuteMessage → Result String String
  pub parse_address : String → Result String String
  pub address_of_hex : String → Result String String
  pub hash_of_hex : String → Result String String
  pub parse_biguint : String → Result ℕ String
  pub decode : String → Result (ℕ × String) String

-- The fields of `TonBroadcaster` that are not among these.
pub record TonBroadcaster : Type 0 where
  pub gateway_address : String
  pub gas_service_address : String
  pub chain_name : String
  pub gas_estimator : GasEstimates

abbrev pub refund_dust : ℕ
refund_dust = 10000000

abbrev pub Sending : Type 0 → Type 0
Sending A = Exec TonCall BroadcasterError A

abbrev generic : {A : Type 0} → String → Result A String → Result A BroadcasterError
generic what = map_err (λ e. BroadcasterError.generic_error (concat what e))

-- `strip_prefix("0x")`, or the text itself
unfoldable pub without_0x : String → String
without_0x (String.◌∷◌ c (String.◌∷◌ d s)) =
    if code c == 48 && code d == 120 then s else String.◌∷◌ c (String.◌∷◌ d s)
without_0x s = s

abbrev pub broadcast_result :
    String → Result (Unit {0}) BroadcasterError → String → String → BroadcastResult TonTransaction
broadcast_result tx_hash status message_id source_chain = record {
  transaction = record {};
  tx_hash = tx_hash;
  status = status;
  message_id = some message_id;
  source_chain = some source_chain;
}

abbrev hash_of : Result String BroadcasterError → String
hash_of (ok h) = h
hash_of (err _) = ""

abbrev status_of : Result String BroadcasterError → Result (Unit {0}) BroadcasterError
status_of (ok _) = ok tt
status_of (err e) = err e

module _ {O : Type 0} (b : TonBroadcaster) (env : Env O) where
  unfoldable pub send_to_chain : TonWalletHighLoadV3 → List O → Sending String
  unfolding highload_wallet_send
  send_to_chain wallet actions = do
    query_id ←
        call (next_query_id wallet.address wallet.timeout)
          (generic "Query Id acquiring failed: " (env.query_id wallet.address wallet.timeout))
    let value = highload_wallet_send b.gas_estimator (length actions)
    boc ← lift (generic "" (env.outgoing_message wallet actions query_id value))
    call (post_v3_message boc) (map_err (λ e. BroadcasterError.rpc_call_failed e) (env.posted boc))

  -- `acquire`, a part with the wallet, and `release`, also if the part has failed
  unfoldable pub with_wallet : {A : Type 0} → (TonWalletHighLoadV3 → Sending A) → Sending A
  with_wallet part = do
    wallet ← call acquire (generic "Wallet acquire failed: " env.acquired)
    result ← attempt (part wallet)
    tell (release wallet)
    lift result

  unfoldable pub broadcast_prover_message : String → Sending (BroadcastResult TonTransaction)
  unfolding send_to_chain with_wallet approve_send
  broadcast_prover_message tx_blob = do
    messages ← lift (generic "" (env.approve_messages tx_blob))
    elim messages [
      | [] ↦ raise (BroadcasterError.generic_error "Missing approved message")
      | message ∷ more ↦ do
        let value = approve_send b.gas_estimator (length (message ∷ more))
        action ← lift (generic "" (env.out_action tx_blob value b.gateway_address))
        with_wallet (λ wallet. do
          res ← attempt (send_to_chain wallet (action ∷ []))
          pure (
              broadcast_result (hash_of res) (status_of res) message.message_id
                message.source_chain))
    ]

  unfoldable pub broadcast_refund : String → Sending String
  broadcast_refund _ = pure ""

  execute_with :
      ExecuteTaskFields
      → String
      → ℕ
      → String
      → TonWalletHighLoadV3
      → Sending (BroadcastResult TonTransaction)
  unfolding send_to_chain execute_send
  execute_with message destination_address payload_len hex_payload wallet = do
    boc ← lift (
        generic "" (
          env.relayer_execute (record {
            message_id = message.message.message_id;
            source_chain = message.message.source_chain;
            source_address = message.message.source_address;
            destination_chain = b.chain_name;
            destination_address = destination_address;
            payload = hex_payload;
            relayer = wallet.address;
          })))
    let value = execute_send b.gas_estimator payload_len
    action ← lift (generic "" (env.out_action boc value b.gateway_address))
    res ← attempt (send_to_chain wallet (action ∷ []))
    pure (
        broadcast_result (hash_of res) (status_of res) message.message.message_id
          message.message.source_chain)

  unfoldable pub broadcast_execute_message :
      ExecuteTaskFields → Sending (BroadcastResult TonTransaction)
  unfolding with_wallet execute_with execute_estimate parse_u64
  broadcast_execute_message message = do
    destination ←
        lift
          (generic "TonAddressParseError: " (env.parse_address message.message.destination_address))
    (payload_len, hex_payload) ←
        lift (generic "Failed decoding payload: " (env.decode message.payload))
    let available_gas = unwrap_or (parse_u64 message.available_gas_balance.amount) 0
    if ltb available_gas (execute_estimate b.gas_estimator payload_len)
        then pure (
            broadcast_result ""
              (err (BroadcasterError.insufficient_gas "Cannot proceed to execute"))
              message.message.message_id message.message.source_chain)
        else with_wallet (execute_with message destination payload_len hex_payload)

  unfoldable pub refund_with : String → TonWalletHighLoadV3 → Sending String
  unfolding send_to_chain
  refund_with boc wallet = do
    action ← lift (generic "" (env.out_action boc refund_dust b.gas_service_address))
    res ← attempt (send_to_chain wallet (action ∷ []))
    pure (hash_of res)

  unfoldable pub refund_of : NativeRefundMessage → Sending String
  unfolding with_wallet refund_with
  refund_of native_refund = do
    boc ← lift (generic "" (env.native_refund native_refund))
    with_wallet (refund_with boc)

  unfoldable pub broadcast_refund_message : RefundTaskFields → Sending String
  unfolding refund_of native_gas_refund_estimate without_0x
  broadcast_refund_message t =
      if is_some t.remaining_gas_balance.token_id
      then raise (BroadcasterError.generic_error "Refund task with token_id is not supported")
      else (do
        tx_hash ← lift (generic "" (env.hash_of_hex (without_0x t.message.message_id)))
        address ← lift (generic "" (env.address_of_hex t.refund_recipient_address))
        original ← lift (generic "" (env.parse_biguint t.remaining_gas_balance.amount))
        let gas_estimate = native_gas_refund_estimate b.gas_estimator
        if ltb original gas_estimate
            then raise
                (BroadcasterError.insufficient_gas "Not enough balance to cover gas for refund")
            else refund_of
                (record { tx_hash = tx_hash; address = address; amount = original - gas_estimate }))
