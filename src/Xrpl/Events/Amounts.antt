-- ===== src/Xrpl/Events/Amounts.antt =====
-- The amounts of the events that xrpl/src/ingestor.rs reports of a payment.
use axelar_relayer.Base.{
  ℕ, ◌+◌, ◌≡◌, refl, arith, Option-cases, inl, inr, String, Option, none, some, List, [], ◌∷◌,
  Result, ok, err, Outcome, done, fail, panic, Exec, ◌>>=◌, outcome, attempt, Ends, Ends-done,
}
use axelar_relayer.Base.Texts.{parse_u64, to_lowercase, to_string}
use axelar_relayer.Gmp.Event.{Event, Call, GasCredit, ItsInterchainTransfer}
use axelar_relayer.Xrpl.Messages.{InterchainTransferMessage, CallContractMessage, XrplMessage}
use axelar_relayer.Xrpl.Payments.{Amount, PaymentTransaction, WithPayload}
use axelar_relayer.Xrpl.Payments.Build.{build_xrpl_message}
use axelar_relayer.Xrpl.Payments.Amounts.{SubtractsDrops, IsConserved, build_xrpl_message-Ends}
use axelar_relayer.Xrpl.Translation.{
  Env, within, get_token_id, call_event_from_message, building, routing,
}
use axelar_relayer.Xrpl.Routing.{verify_message}
use axelar_relayer.Prices.{get_token_by_symbol}
use axelar_relayer.Xrpl.Events.{
  handle_message, handle_payment, gmp_events, handle_gmp_message, handle_add_gas_message,
  handle_add_reserves_message, transfer_events, its_interchain_transfer_event, token_spent,
  gas_credit_event_from_payment, gas_fee_amount_drops,
}

-- what is returned, if anything is
abbrev Returns : {E A : Type 0} → (A → Type 0) → Outcome A E → Type 0
Returns P (done a) = P a
Returns P _ = Unit

Returns-done :
    {E A : Type 0} (P : A → Type 0) (o : Outcome A E) (a : A) → Returns P o → o ≡ done a → P a
Returns-done P (done b) a p q = Ends-done P (done b) a p q
Returns-done P (fail e) a p q = ground arith
Returns-done P panic a p q = ground arith

Returns-bind :
    {C E A B : Type 0} (Q : B → Type 0) (m : Exec C E A) (f : A → Exec C E B)
    → ((a : A) → Returns Q (outcome (f a)))
    → Returns Q (outcome (m >>= f))
Returns-bind Q (done a, t) f q = q a
Returns-bind Q (fail e, t) f q = tt
Returns-bind Q (panic, t) f q = tt

Returns-attempt :
    {C D E A B : Type 0} (P : A → Type 0) (Q : B → Type 0) (i : C → D) (m : Exec C E A)
    (f : Result A E → Exec D E B)
    → Ends P (outcome m)
    → ((a : A) → P a → Returns Q (outcome (f (ok a))))
    → ((e : E) → Returns Q (outcome (f (err e))))
    → Returns Q (outcome (attempt (within i m) >>= f))
Returns-attempt P Q i (done a, t) f p q r = q a p
Returns-attempt P Q i (fail e, t) f p q r = r e
Returns-attempt P Q i (panic, t) f p q r = tt

-- A gas credit and a transfer of the same message that make `n` drops together.
abbrev AreOne : ℕ → GasCredit → ItsInterchainTransfer → Type 0
AreOne n g t =
    (a : ℕ) × (f : ℕ) × (t.token_spent.amount ≡ to_string a)
    × (g.payment.amount ≡ to_string f)
    × (a + f ≡ n)
    × (g.message_id ≡ to_lowercase t.message_id)

abbrev Both : ℕ → Event → Event → Type 0
Both n (Event.gas_credit g) (Event.its_interchain_transfer t) = AreOne n g t
Both n _ _ = Unit

abbrev Reports : ℕ → List Event → Type 0
Reports n (_ ∷ g ∷ t ∷ []) = Both n g t
Reports n _ = Unit

module _ {R D F : Type 0} (env : Env R D F) where
  transfer-Returns :
      (n : ℕ) (m : InterchainTransferMessage) (payload : Option String) (maybe : Option Event)
      → IsConserved n (XrplMessage.interchain_transfer_message m)
      → Returns (Reports n) (
          outcome (
            gmp_events env
              (record { message = XrplMessage.interchain_transfer_message m; payload = payload })
              maybe))
  unfolding gmp_events transfer_events its_interchain_transfer_event token_spent
      gas_credit_event_from_payment gas_fee_amount_drops get_token_id
  transfer-Returns n m payload none c = tt
  transfer-Returns n m payload (some event) (a, f, p, q, r) =
      elim (Option-cases (get_token_by_symbol env.config "XRP")) [
        | inl h ↦ rw (p, q, h) tt
        | inr (token, h) ↦ rw (p, q, h) (a, f, refl, refl, r, refl)
      ]

  call-Returns :
      (n : ℕ) (m : CallContractMessage) (payload : Option String) (maybe : Option Event)
      → Returns (Reports n) (
          outcome (
            gmp_events env
              (record { message = XrplMessage.call_contract_message m; payload = payload })
              maybe))
  unfolding gmp_events transfer_events
  call-Returns n m payload none = tt
  call-Returns n m payload (some event) =
      let message = XrplMessage.call_contract_message m in
      let w : WithPayload = record { message = message; payload = payload } in
      Returns-bind (Reports n) (get_token_id env message) _ (λ token.
        Returns-bind (Reports n) (gas_credit_event_from_payment env w token) _ (λ gas. tt))

  handle_message-Returns :
      (n : ℕ) (message : XrplMessage) (payload : Option String)
      → IsConserved n message
      → Returns
          (Reports n)
          (outcome (handle_message env (record { message = message; payload = payload }) message))
  unfolding handle_message handle_gmp_message handle_add_gas_message handle_add_reserves_message
  handle_message-Returns n (XrplMessage.interchain_transfer_message m) payload c =
      let w : WithPayload = record {
        message = XrplMessage.interchain_transfer_message m;
        payload = payload;
      } in
      Returns-bind (Reports n) (call_event_from_message env w) _
        (λ maybe. transfer-Returns n m payload maybe c)
  handle_message-Returns n (XrplMessage.call_contract_message m) payload c =
      let w : WithPayload = record {
        message = XrplMessage.call_contract_message m;
        payload = payload;
      } in
      Returns-bind (Reports n) (call_event_from_message env w) _
        (λ maybe. call-Returns n m payload maybe)
  handle_message-Returns n (XrplMessage.add_gas_message m) payload c =
      let message = XrplMessage.add_gas_message m in
      let w : WithPayload = record { message = message; payload = payload } in
      Returns-bind (Reports n) (get_token_id env message) _ (λ token.
        Returns-bind (Reports n) (gas_credit_event_from_payment env w token) _ (λ gas.
          Returns-bind (Reports n) (within routing (verify_message env.routing message)) _
            (λ _. tt)))
  handle_message-Returns n (XrplMessage.add_reserves_message m) payload c =
      let message = XrplMessage.add_reserves_message m in
      Returns-bind (Reports n) (within routing (verify_message env.routing message)) _ (λ _. tt)
  handle_message-Returns n (XrplMessage.prover_message m) payload c = tt

  handle_payment-Returns :
      (payment : PaymentTransaction) (text : String) (n : ℕ)
      → SubtractsDrops env.payments
      → payment.amount ≡ Amount.drops text
      → parse_u64 text ≡ some n
      → Returns (Reports n) (outcome (handle_payment env payment))
  unfolding handle_payment
  handle_payment-Returns payment text n law e p =
      Returns-attempt (λ w. IsConserved n w.message) (Reports n) building
        (build_xrpl_message env.payments payment) _
        (build_xrpl_message-Ends env.payments payment text n law e p)
        (λ w c. handle_message-Returns n w.message w.payload c) (λ e'. tt)

  -- When a call, a gas credit and a transfer are reported of a payment in drops, the gas credit is for
  -- the message of the transfer, and the two amounts are numbers of drops that make the amount of the
  -- payment together, if the subtraction of amounts is that of numbers and refuses to go below zero.
  pub transfer_reported :
      (payment : PaymentTransaction) (text : String) (n : ℕ) (c : Call) (g : GasCredit)
      (t : ItsInterchainTransfer)
      → SubtractsDrops env.payments
      → payment.amount ≡ Amount.drops text
      → parse_u64 text ≡ some n
      → outcome (handle_payment env payment)
        ≡ done (Event.call c ∷ Event.gas_credit g ∷ Event.its_interchain_transfer t ∷ [])
      → (a : ℕ) × (f : ℕ) × (t.token_spent.amount ≡ to_string a)
        × (g.payment.amount ≡ to_string f)
        × (a + f ≡ n)
        × (g.message_id ≡ to_lowercase t.message_id)
  transfer_reported payment text n c g t law e p h =
      Returns-done (Reports n) _ _ (handle_payment-Returns payment text n law e p) h
