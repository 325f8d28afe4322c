-- ===== src/Xrpl/Broadcaster/Outcomes.antt =====
-- What xrpl/src/broadcaster.rs reports of a transaction, and when it remembers one as queued.
use axelar_relayer.Base.{
  ◌≡◌, arith, Bool, true, ◌||◌, ◌&&◌, not, String, Option, some, [], ◌∷◌, if◌then◌else◌, ok, err,
  outcome, calls, done, fail,
}
use axelar_relayer.Gmp.Errors.{BroadcasterError}
use axelar_relayer.Includer.{BroadcastResult}
use axelar_relayer.Xrpl.Memos.{Hex}
use axelar_relayer.Xrpl.Broadcaster.{
  ResultCategory, Submitted, SubmitResponse, submit, store_queued_transaction, Answers,
  failure_text, is_ticket_create, is_validated, log_and_return_error, memos_of, handle_queued_tx,
  classify, broadcast_prover_message, broadcast_refund,
}

-- the transaction is in a ledger, or it can still get into one
abbrev pub succeeded : Answers → SubmitResponse → String → Bool
succeeded a response h = elim response.engine_result.category [
  | ResultCategory.tec ↦ true
  | ResultCategory.tes ↦ true
  | ResultCategory.tef ↦
      (is_ticket_create response.tx_json.transaction && response.engine_result.is_past_seq)
      || is_validated (a.validated h)
  | ResultCategory.tel ↦ response.engine_result.is_queued
  | ResultCategory.tem ↦ response.engine_result.is_queued
  | ResultCategory.ter ↦ response.engine_result.is_queued
]

abbrev pub reported :
    Answers → SubmitResponse → String → Option String → Option String → BroadcastResult Submitted
reported a response h message_id source_chain = record {
  transaction = response.tx_json;
  tx_hash = h;
  status =
      if succeeded a response h
      then ok tt
      else err (BroadcasterError.rpc_call_failed (failure_text "Transaction failed: " response));
  message_id = message_id;
  source_chain = source_chain;
}

module _ (hex : Hex) (a : Answers) where
  classify_lem :
      (response : SubmitResponse) (h : String) (m s : Option String)
      → response.tx_json.hash ≡ some h
      → outcome (classify hex a response h m s) ≡ done (reported a response h m s)
  unfolding classify log_and_return_error handle_queued_tx
  classify_lem response h m s e = ground (arith, e)

  -- A prover transaction that the ledger answers, with a hash and with readable memos, always gives
  -- a result with this transaction and hash; its status is `Ok` exactly when the ledger took it, had
  -- it already, or queued it, whether or not the queued one could be stored, and else carries the
  -- ledger's text.
  pub prover_reported :
      (blob : String) (response : SubmitResponse) (h : String) (m s : Option String)
      → a.submitted blob ≡ ok response
      → memos_of hex response.tx_json.transaction ≡ ok (m, s)
      → response.tx_json.hash ≡ some h
      → outcome (broadcast_prover_message hex a blob) ≡ done (reported a response h m s)
  unfolding broadcast_prover_message
  prover_reported blob response h m s sent memos hash =
      ground (arith, sent, memos, hash, classify_lem response h m s hash)

  -- A refund that the ledger answers with a hash is broadcast well exactly when the result is
  -- `tesSUCCESS` or `terQUEUED`; the second is offered to the table of queued transactions once,
  -- and no other is.
  pub refund_reported :
      (blob : String) (response : SubmitResponse) (h : String)
      → a.submitted blob ≡ ok response
      → response.tx_json.hash ≡ some h
      → (outcome (broadcast_refund hex a blob) ≡ (
          if response.engine_result.is_success || response.engine_result.is_queued
          then done h
          else fail (
              BroadcasterError.rpc_call_failed
                (failure_text "Refund transaction failed: " response))))
        × (calls (broadcast_refund hex a blob)
            ≡ submit blob
              ∷ (if not response.engine_result.is_success && response.engine_result.is_queued
                  then store_queued_transaction h response.tx_json.account response.tx_json.sequence
                    ∷ []
                  else []))
  unfolding broadcast_refund handle_queued_tx
  refund_reported blob response h sent hash =
      (ground (arith, sent, hash), ground (arith, sent, hash))
