-- ===== src/Ton/Ingestor.antt =====
-- ton/src/ingestor.rs: the handlers of the TON chain for what the ingestor consumes. The parser of
-- traces enters by what it answers, a panic included, and so does the table of traces (Ton/Traces).
pub mod Summaries
use axelar_relayer.Base.{
  String, List, [], ◌∷◌, map, Result, ok, err, map_err, Outcome, done, fail, panic, perform, Exec,
  ◌>>=◌, ◌>>◌, pure, raise, lift, call,
}
use axelar_relayer.Gmp.Task.{VerifyTask, ReactToWasmEventTask, ConstructProofTask, RetryTask}
use axelar_relayer.Gmp.Event.{Event}
use axelar_relayer.Gmp.Errors.{IngestorError}
use axelar_relayer.Gmp.Models.{EventModel, from_event}
use axelar_relayer.Subscriber.{ChainTransaction}
use axelar_relayer.Ton.Traces.{Trace, EventSummary}

pub data TonCall (X : Type 0) : Type 0 where
  parse_trace : Trace X → TonCall X
  update_events : String → List EventSummary → TonCall X

-- `debug` prints a transaction of the other chain.
pub record Env (Tx X : Type 0) : Type 0 where
  pub parsed : Trace X → Outcome (List Event) String
  pub updated : String → List EventSummary → Result (Unit {0}) String
  pub debug : Tx → String

abbrev pub summary : EventModel → EventSummary
summary model = record {
  event_id = model.event_id;
  message_id = model.message_id;
  event_type = model.event_type;
}

abbrev pub summaries : List Event → List EventSummary
summaries [] = []
summaries (e ∷ es) = summary (from_event e) ∷ summaries es

abbrev generic : {A : Type 0} → Result A String → Result A IngestorError
generic = map_err (λ e. IngestorError.generic_error e)

abbrev generic_outcome : {A : Type 0} → Outcome A String → Outcome A IngestorError
generic_outcome (done a) = done a
generic_outcome (fail e) = fail (IngestorError.generic_error e)
generic_outcome panic = panic

module _ {Tx X : Type 0} (env : Env Tx X) where
  unfoldable pub update_trace :
      String → List EventSummary → Exec (TonCall X) IngestorError (Unit {0})
  update_trace trace_id [] = pure tt
  update_trace trace_id (s ∷ event_summaries) =
      call (update_events trace_id (s ∷ event_summaries))
        (generic (env.updated trace_id (s ∷ event_summaries)))

  unfoldable pub handle_transaction :
      ChainTransaction Tx (Trace X) → Exec (TonCall X) IngestorError (List Event)
  unfolding update_trace from_event
  handle_transaction (ChainTransaction.xrpl tx) =
      raise (IngestorError.unexpected_chain_transaction_type (env.debug tx))
  handle_transaction (ChainTransaction.ton trace) = do
    events ← perform (parse_trace trace) (generic_outcome (env.parsed trace))
    update_trace trace.trace_id (summaries events)
    pure events

  abbrev not_implemented : Result (Unit {0}) IngestorError
  not_implemented = err (IngestorError.generic_error "Still not implemented")

  abbrev pub handle_verify : VerifyTask → Result (Unit {0}) IngestorError
  handle_verify _ = not_implemented

  abbrev pub handle_wasm_event : ReactToWasmEventTask → Result (Unit {0}) IngestorError
  handle_wasm_event _ = not_implemented

  abbrev pub handle_construct_proof : ConstructProofTask → Result (Unit {0}) IngestorError
  handle_construct_proof _ = not_implemented

  abbrev pub handle_retriable_task : RetryTask → Result (Unit {0}) IngestorError
  handle_retriable_task _ = not_implemented
