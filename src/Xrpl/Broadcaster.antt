-- ===== src/Xrpl/Broadcaster.antt =====
-- xrpl/src/broadcaster.rs: it submits a transaction to
-- the XRP ledger and says whether that worked. The XRPL client and its types, the hex library and
-- the table of queued transactions enter by what they answer.
pub mod Outcomes
use axelar_relayer.Base.{
  ◌≡◌, Bool, true, false, ◌||◌, ◌&&◌, not, String, str_eq, concat, Option, none, some, List, [],
  ◌∷◌, if◌then◌else◌, Result, ok, err, map_err, Exec, ◌>>=◌, ◌>>◌, pure, raise, lift, call, ask,
  log_error,
}
use axelar_relayer.Base.Int.{ℤ}
use axelar_relayer.Gmp.Errors.{BroadcasterError}
use axelar_relayer.Includer.{BroadcastResult}
use axelar_relayer.Xrpl.Memos.{Memo, Hex, extract_hex_xrpl_memo}

-- `xrpl_api`'s categories of engine results
pub data ResultCategory : Type 0 where
  tec tef tel tem ter tes : ResultCategory

-- What the code reads of a transaction: `payment` has its memos.
pub data Transaction : Type 0 where
  payment : Option (List Memo) → Transaction
  ticket_create other : Transaction

pub record Submitted : Type 0 where
  pub transaction : Transaction
  pub hash : Option String
  pub account : String
  pub sequence : ℤ

-- An engine result, by the names that the code compares it with, and by its text.
pub record EngineResult : Type 0 where
  pub category : ResultCategory
  pub is_success : Bool
  pub is_queued : Bool
  pub is_past_seq : Bool
  pub text : String

pub record SubmitResponse : Type 0 where
  pub tx_json : Submitted
  pub engine_result : EngineResult
  pub engine_result_message : String

pub data XrplCall : Type 0 where
  submit tx : String → XrplCall
  store_queued_transaction : String → String → ℤ → XrplCall

-- What the ledger and the database answer. `validated` is the field of the transaction found.
pub record Answers : Type 0 where
  pub submitted : String → Result SubmitResponse String
  pub validated : String → Result (Option Bool) String
  pub stored : Result (Unit {0}) String

abbrev pub category_eq : ResultCategory → ResultCategory → Bool
category_eq ResultCategory.tec ResultCategory.tec = true
category_eq ResultCategory.tef ResultCategory.tef = true
category_eq ResultCategory.tel ResultCategory.tel = true
category_eq ResultCategory.tem ResultCategory.tem = true
category_eq ResultCategory.ter ResultCategory.ter = true
category_eq ResultCategory.tes ResultCategory.tes = true
category_eq _ _ = false

abbrev pub failure_text : String → SubmitResponse → String
failure_text what response =
    concat what (concat response.engine_result.text (concat ": " response.engine_result_message))

abbrev hash_or : BroadcasterError → Submitted → Result String BroadcasterError
hash_or e t = elim t.hash [ none ↦ err e | some h ↦ ok h ]

abbrev pub is_ticket_create : Transaction → Bool
is_ticket_create Transaction.ticket_create = true
is_ticket_create (Transaction.payment _) = false
is_ticket_create Transaction.other = false

abbrev pub is_validated : Result (Option Bool) String → Bool
is_validated (ok (some b)) = b
is_validated (ok none) = false
is_validated (err _) = false

abbrev accepted : Submitted → String → Option String → Option String → BroadcastResult Submitted
accepted t tx_hash message_id source_chain = record {
  transaction = t;
  tx_hash = tx_hash;
  status = ok tt;
  message_id = message_id;
  source_chain = source_chain;
}

unfoldable pub log_and_return_error :
    Submitted
    → SubmitResponse
    → Option String
    → Option String
    → Exec XrplCall BroadcasterError (BroadcastResult Submitted)
log_and_return_error t response message_id source_chain = do
  tx_hash ← lift (hash_or (BroadcasterError.generic_error "Transaction hash not found") t)
  pure (record {
    transaction = t;
    tx_hash = tx_hash;
    status = err (BroadcasterError.rpc_call_failed (failure_text "Transaction failed: " response));
    message_id = message_id;
    source_chain = source_chain;
  })

-- `message_id` and `source_chain`, of a payment only
unfoldable pub memos_of :
    Hex → Transaction → Result (Option String × Option String) BroadcasterError
memos_of hex (Transaction.payment memos) = elim (extract_hex_xrpl_memo hex memos "message_id") [
  | err e ↦ err (BroadcasterError.generic_error e)
  | ok message_id ↦ elim (extract_hex_xrpl_memo hex memos "source_chain") [
    | err e ↦ err (BroadcasterError.generic_error e)
    | ok source_chain ↦ ok (some message_id, some source_chain)
  ]
]
memos_of hex Transaction.ticket_create = ok (none, none)
memos_of hex Transaction.other = ok (none, none)

module _ (hex : Hex) (a : Answers) where
  unfoldable pub handle_queued_tx : Submitted → String → Exec XrplCall BroadcasterError (Unit {0})
  handle_queued_tx t tx_hash =
      call (store_queued_transaction tx_hash t.account t.sequence)
        (map_err BroadcasterError.generic_error a.stored)

  -- `broadcast_prover_message` from the test of the category on
  unfoldable pub classify :
      SubmitResponse
      → String
      → Option String
      → Option String
      → Exec XrplCall BroadcasterError (BroadcastResult Submitted)
  unfolding log_and_return_error handle_queued_tx
  classify response tx_hash message_id source_chain =
      let t = response.tx_json in
      let r = response.engine_result in
      if category_eq r.category ResultCategory.tec || category_eq r.category ResultCategory.tes
      then pure (accepted t tx_hash message_id source_chain)
      else if category_eq r.category ResultCategory.tef
      then (if is_ticket_create t.transaction && r.is_past_seq
          then pure (accepted t tx_hash message_id source_chain)
          else (do
            found ← ask (tx tx_hash) (a.validated tx_hash)
            if is_validated found
                then pure (accepted t tx_hash message_id source_chain)
                else log_and_return_error t response message_id source_chain))
      else if r.is_queued
      then (do
        log_error (handle_queued_tx t tx_hash)
        pure (accepted t tx_hash message_id source_chain))
      else log_and_return_error t response message_id source_chain

  unfoldable pub broadcast_prover_message :
      String → Exec XrplCall BroadcasterError (BroadcastResult Submitted)
  unfolding classify memos_of
  broadcast_prover_message tx_blob = do
    response ←
        call (submit tx_blob) (map_err BroadcasterError.rpc_call_failed (a.submitted tx_blob))
    found ← lift (memos_of hex response.tx_json.transaction)
    tx_hash ←
        lift
          (hash_or (BroadcasterError.rpc_call_failed "Transaction hash not found") response.tx_json)
    classify response tx_hash found.0 found.1

  unfoldable pub broadcast_refund : String → Exec XrplCall BroadcasterError String
  unfolding handle_queued_tx
  broadcast_refund tx_blob = do
    response ←
        call (submit tx_blob) (map_err BroadcasterError.rpc_call_failed (a.submitted tx_blob))
    tx_hash ←
        lift
          (hash_or (BroadcasterError.rpc_call_failed "Transaction hash not found") response.tx_json)
    if response.engine_result.is_success
        then pure tx_hash
        else if response.engine_result.is_queued
        then (do log_error (handle_queued_tx response.tx_json tx_hash); pure tx_hash)
        else raise
            (BroadcasterError.rpc_call_failed (failure_text "Refund transaction failed: " response))
