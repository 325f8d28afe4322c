-- ===== src/Ton/Ingestor/Summaries.antt =====
-- What ton/src/ingestor.rs leaves in the table of ton/src/models/ton_trace.rs.
use mathlib.Core.List.{append-nil}
use axelar_relayer.Base.{
  ap, sym, ◌∙◌, after, Exec, ◌>>◌, pure, panic, ℕ, ◌≡◌, refl, arith, true, String, str_eq,
  str_eq_iff, Option-cases, Option, none, some, List, [], ◌∷◌, Outcome-cases, inl, inr, done, fail,
  is_done, calls, outcome, if◌then◌else◌,
}
use axelar_relayer.Base.Dict.{lookup, lookup-insert}
use axelar_relayer.Gmp.Event.{Event}
use axelar_relayer.Gmp.Errors.{IngestorError}
use axelar_relayer.Subscriber.{ChainTransaction}
use axelar_relayer.Ton.Traces.{Trace, TonTrace, Table, EventSummary}
use axelar_relayer.Ton.Traces
use axelar_relayer.Ton.Ingestor.{
  TonCall, parse_trace, update_events, Env, summaries, update_trace, handle_transaction,
}

-- The table after the calls, at the time `now`.
abbrev pub stored : {X : Type 0} → ℕ → List (TonCall X) → Table X → Table X
stored now [] t = t
stored now (parse_trace _ ∷ cs) t = stored now cs t
stored now (update_events id es ∷ cs) t = stored now cs (Traces.update_events now id es t)

-- The row of a trace with the summaries of the events, if there are events.
abbrev pub with_summaries :
    {X : Type 0} → ℕ → List EventSummary → Option (TonTrace X) → Option (TonTrace X)
with_summaries now es none = none
with_summaries now [] (some r) = some r
with_summaries now (e ∷ es) (some r) =
    some (record r { events = some (e ∷ es); updated_at = some now })

lookup-update_events :
    {X : Type 0} (now : ℕ) (id : String) (e : EventSummary) (es : List EventSummary) (t : Table X)
    (k : String)
    → lookup k (Traces.update_events now id (e ∷ es) t)
      ≡ (if str_eq id k then with_summaries now (e ∷ es) (lookup k t) else lookup k t)
unfolding Traces.update_events
lookup-update_events now id e es t k = elim (Option-cases (lookup id t)) [
  | inl q ↦ ground (arith, str_eq_iff id k)
  | inr (r, q) ↦
      let row = record r { events = some (e ∷ es); updated_at = some now } in
      ground (arith, str_eq_iff id k, lookup-insert id k row t)
]

with_no_summaries : {X : Type 0} (now : ℕ) (o : Option (TonTrace X)) → with_summaries now [] o ≡ o
with_no_summaries now none = refl
with_no_summaries now (some r) = refl

behind :
    {X : Type 0} (m : Exec (TonCall X) IngestorError (Unit {0})) (fs es : List Event)
    → outcome (m >> pure fs) ≡ done es
    → (fs ≡ es) × (is_done (outcome m) ≡ true) × (calls (m >> pure fs) ≡ calls m)
behind (done tt, t) fs es h = (ground arith, refl, append-nil t)
behind (fail e, t) fs es h = absurd (ground arith)
behind (panic, t) fs es h = absurd (ground arith)

module _ {Tx X : Type 0} (env : Env Tx X) where
  update_trace-stored :
      (id : String) (ss : List EventSummary) (now : ℕ) (t : Table X) (k : String)
      → is_done (outcome (update_trace env id ss)) ≡ true
      → lookup k (stored now (calls (update_trace env id ss)) t)
        ≡ (if str_eq id k then with_summaries now ss (lookup k t) else lookup k t)
  unfolding update_trace
  update_trace-stored id [] now t k h = ground (arith, with_no_summaries now (lookup k t))
  update_trace-stored id (s ∷ ss) now t k h = ground (arith, lookup-update_events now id s ss t k)

  -- A trace that is handled well gives the events that the parser made of it, and leaves their
  -- summaries in the row of the trace, the old ones overwritten; the row stays as it was if there are
  -- no events, no other row changes, and none appears.
  pub summaries_stored :
      (x : Trace X) (es : List Event) (now : ℕ) (t : Table X) (k : String)
      → outcome (handle_transaction env (ChainTransaction.ton x)) ≡ done es
      → (env.parsed x ≡ done es)
        × (lookup k (stored now (calls (handle_transaction env (ChainTransaction.ton x))) t) ≡ (
            if str_eq x.trace_id k
            then with_summaries now (summaries es) (lookup k t)
            else lookup k t))
  unfolding handle_transaction
  summaries_stored x es now t k h = elim (Outcome-cases (env.parsed x)) [
    | inl (fs, q) ↦
        let started : handle_transaction env (ChainTransaction.ton x)
            ≡ after (parse_trace x ∷ []) (update_trace env x.trace_id (summaries fs) >> pure fs) =
          rw q refl in
        let (p, d, c) =
          behind (update_trace env x.trace_id (summaries fs)) fs es
            (ap outcome (sym started) ∙ h) in
        (
          q ∙ ap done p,
          ap (λ m. lookup k (stored now (calls m) t)) started
              ∙ ap (λ cs. lookup k (stored now cs t)) c
              ∙ update_trace-stored x.trace_id (summaries fs) now t k d
              ∙ ap
                  (λ l.
                    if str_eq x.trace_id k
                    then with_summaries now (summaries l) (lookup k t)
                    else lookup k t)
                  p,
        )
    | inr (inl (e, q)) ↦ absurd (ground arith)
    | inr (inr q) ↦ absurd (ground arith)
  ]
