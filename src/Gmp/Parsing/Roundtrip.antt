-- ===== src/Gmp/Parsing/Roundtrip.antt =====
-- Tasks that the JSON library writes, as `parse_task` of relayer_base/src/utils.rs reads them.
use axelar_relayer.Base.{
  ◌∙◌, str_eq_iff, Bool-cases, inl, inr, ◌≡◌, arith, String, str_eq, str_eq_iff, if◌then◌else◌,
  Result, ok,
}
use axelar_relayer.Gmp.Errors.{GmpApiError}
use axelar_relayer.Gmp.Task.{
  CommonTaskFields, ConstructProofTask, GatewayTxTask, VerifyTask, ExecuteTask, RefundTask,
  ReactToWasmEventTask, ReactToRetriablePollTask, ReactToExpiredSigningSessionTask, UnknownTask,
  Task, TaskKind, kind,
}
use axelar_relayer.Gmp.Parsing.{parse_as, Serde, parse_as, parse_typed, parse_task}

unfoldable pub common : Task → CommonTaskFields
common (Task.verify t) = t.common
common (Task.execute t) = t.common
common (Task.gateway_tx t) = t.common
common (Task.construct_proof t) = t.common
common (Task.react_to_wasm_event t) = t.common
common (Task.refund t) = t.common
common (Task.react_to_expired_signing_session t) = t.common
common (Task.react_to_retriable_poll t) = t.common
common (Task.unknown t) = t.common

-- The JSON library's `to_value`: each type of task is read again as it was written, and so are the
-- fields that all have in common.
pub record Written {J : Type 0} (serde : Serde J) : Type 0 where
  pub to_value : Task → J
  pub common_read : (t : Task) → serde.common_fields (to_value t) ≡ ok (common t)
  pub construct_proof_read :
      (t : ConstructProofTask) → serde.construct_proof (to_value (Task.construct_proof t)) ≡ ok t
  pub gateway_tx_read : (t : GatewayTxTask) → serde.gateway_tx (to_value (Task.gateway_tx t)) ≡ ok t
  pub verify_read : (t : VerifyTask) → serde.verify (to_value (Task.verify t)) ≡ ok t
  pub execute_read : (t : ExecuteTask) → serde.execute (to_value (Task.execute t)) ≡ ok t
  pub refund_read : (t : RefundTask) → serde.refund (to_value (Task.refund t)) ≡ ok t
  pub wasm_event_read :
      (t : ReactToWasmEventTask)
      → serde.react_to_wasm_event (to_value (Task.react_to_wasm_event t)) ≡ ok t
  pub retriable_poll_read :
      (t : ReactToRetriablePollTask)
      → serde.react_to_retriable_poll (to_value (Task.react_to_retriable_poll t)) ≡ ok t
  pub signing_session_read :
      (t : ReactToExpiredSigningSessionTask)
      → serde.react_to_expired_signing_session (to_value (Task.react_to_expired_signing_session t))
        ≡ ok t
  pub unknown_read : (t : UnknownTask) → serde.unknown (to_value (Task.unknown t)) ≡ ok t

-- The documented kind of each type of the GMP API.
abbrev pub kind_of_type : String → TaskKind
kind_of_type s =
    if str_eq s "EXECUTE"
    then TaskKind.execute
    else if str_eq s "GATEWAY_TX"
    then TaskKind.gateway_tx
    else if str_eq s "VERIFY"
    then TaskKind.verify
    else if str_eq s "CONSTRUCT_PROOF"
    then TaskKind.construct_proof
    else if str_eq s "REFUND"
    then TaskKind.refund
    else if str_eq s "REACT_TO_WASM_EVENT"
    then TaskKind.react_to_wasm_event
    else if str_eq s "REACT_TO_EXPIRED_SIGNING_SESSION"
    then TaskKind.react_to_expired_signing_session
    else if str_eq s "REACT_TO_RETRIABLE_POLL"
    then TaskKind.react_to_retriable_poll
    else TaskKind.unknown

module _ {J : Type 0} (serde : Serde J) where
  abbrev by_kind : TaskKind → J → Result Task GmpApiError
  by_kind TaskKind.verify = parse_as serde.verify Task.verify
  by_kind TaskKind.execute = parse_as serde.execute Task.execute
  by_kind TaskKind.gateway_tx = parse_as serde.gateway_tx Task.gateway_tx
  by_kind TaskKind.construct_proof = parse_as serde.construct_proof Task.construct_proof
  by_kind TaskKind.react_to_wasm_event = parse_as serde.react_to_wasm_event Task.react_to_wasm_event
  by_kind TaskKind.refund = parse_as serde.refund Task.refund
  by_kind TaskKind.react_to_expired_signing_session =
      parse_as serde.react_to_expired_signing_session Task.react_to_expired_signing_session
  by_kind TaskKind.react_to_retriable_poll =
      parse_as serde.react_to_retriable_poll Task.react_to_retriable_poll
  by_kind TaskKind.unknown = parse_as serde.unknown Task.unknown

  parse_typed-by_kind : (s : String) (j : J) → parse_typed serde s j ≡ by_kind (kind_of_type s) j
  unfolding parse_typed
  parse_typed-by_kind s j = elim (Bool-cases (str_eq s "EXECUTE")) [
    | inl q ↦ rw ((str_eq_iff s "EXECUTE").0 q)
    | inr q1 ↦ elim (Bool-cases (str_eq s "GATEWAY_TX")) [
      | inl q ↦ rw ((str_eq_iff s "GATEWAY_TX").0 q)
      | inr q2 ↦ elim (Bool-cases (str_eq s "VERIFY")) [
        | inl q ↦ rw ((str_eq_iff s "VERIFY").0 q)
        | inr q3 ↦ elim (Bool-cases (str_eq s "CONSTRUCT_PROOF")) [
          | inl q ↦ rw ((str_eq_iff s "CONSTRUCT_PROOF").0 q)
          | inr q4 ↦ elim (Bool-cases (str_eq s "REFUND")) [
            | inl q ↦ rw ((str_eq_iff s "REFUND").0 q)
            | inr q5 ↦ elim (Bool-cases (str_eq s "REACT_TO_WASM_EVENT")) [
              | inl q ↦ rw ((str_eq_iff s "REACT_TO_WASM_EVENT").0 q)
              | inr q6 ↦ elim (Bool-cases (str_eq s "REACT_TO_EXPIRED_SIGNING_SESSION")) [
                | inl q ↦ rw ((str_eq_iff s "REACT_TO_EXPIRED_SIGNING_SESSION").0 q)
                | inr q7 ↦ elim (Bool-cases (str_eq s "REACT_TO_RETRIABLE_POLL")) [
                  | inl q ↦ rw ((str_eq_iff s "REACT_TO_RETRIABLE_POLL").0 q)
                  | inr q8 ↦ ground (arith, q1, q2, q3, q4, q5, q6, q7, q8)
                ]
              ]
            ]
          ]
        ]
      ]
    ]
  ]

  parse_task-written :
      (w : Written serde) (t : Task)
      → kind t ≡ kind_of_type (common t).type
      → parse_task serde (w.to_value t) ≡ by_kind (kind t) (w.to_value t)
  unfolding parse_task
  parse_task-written w t k =
      rw (parse_task, w.common_read t) (parse_typed-by_kind (common t).type (w.to_value t) ∙ rw k)

  by_kind-written : (w : Written serde) (t : Task) → by_kind (kind t) (w.to_value t) ≡ ok t
  unfolding kind
  by_kind-written w (Task.verify t) = ground (arith, w.verify_read t)
  by_kind-written w (Task.execute t) = ground (arith, w.execute_read t)
  by_kind-written w (Task.gateway_tx t) = ground (arith, w.gateway_tx_read t)
  by_kind-written w (Task.construct_proof t) = ground (arith, w.construct_proof_read t)
  by_kind-written w (Task.react_to_wasm_event t) = ground (arith, w.wasm_event_read t)
  by_kind-written w (Task.refund t) = ground (arith, w.refund_read t)
  by_kind-written w (Task.react_to_expired_signing_session t) =
      ground (arith, w.signing_session_read t)
  by_kind-written w (Task.react_to_retriable_poll t) = ground (arith, w.retriable_poll_read t)
  by_kind-written w (Task.unknown t) = ground (arith, w.unknown_read t)

  -- A task whose type is the one of its kind is read again as it was written, whatever its kind: a
  -- task of a type that the relayer does not know as an unknown one.
  pub parse_task-to_value :
      (w : Written serde) (t : Task)
      → kind t ≡ kind_of_type (common t).type
      → parse_task serde (w.to_value t) ≡ ok t
  parse_task-to_value w t k = parse_task-written w t k ∙ by_kind-written w t
