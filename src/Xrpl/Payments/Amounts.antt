-- ===== src/Xrpl/Payments/Amounts.antt =====
-- The amounts of the messages that xrpl/src/ingestor.rs reads out of payments.
use axelar_relayer.Base.{
  concat, refl, Bool-cases, inl, inr, none, map_err, Gives, Gives-any, Gives-and_then, Ends,
  Ends-bind, Ends-lift, Ends-done, Ends-given, ℕ, ◌+◌, ◌-◌, ◌≡◌, arith, ltb, String, Option, some,
  ok, err, done, outcome, if◌then◌else◌,
}
use axelar_relayer.Base.Texts.{parse_u64}
use axelar_relayer.Gmp.Errors.{IngestorError}
use axelar_relayer.Xrpl.Messages.{
  or_error, failed, PaymentAmount, XrplMessage, InterchainTransferMessage,
}
use axelar_relayer.Xrpl.Payments.{
  Amount, PaymentTransaction, XrplError, WithPayload, PaymentCall, MessageType, hash32,
  parse_payment_amount, Env, with_payload, subtraction_text, parse_gas_fee_amount,
  parse_payload_and_payload_hash, optional_hash, memo,
}
use axelar_relayer.Xrpl.Payments.Build.{
  build_xrpl_message, build_interchain_transfer, build_call_contract, build_add_gas,
  build_add_reserves, built, destination,
}

-- The subtraction of the crate `xrpl_types`, of drops.
abbrev pub SubtractsDrops : Env → Type 0
SubtractsDrops env =
    (a b : ℕ)
    → env.sub (PaymentAmount.drops a) (PaymentAmount.drops b)
      ≡ (if ltb a b then err XrplError.subtraction_underflow else ok (PaymentAmount.drops (a - b)))

-- An interchain transfer whose amount and fee are drops that make `n` together.
abbrev pub IsConserved : ℕ → XrplMessage → Type 0
IsConserved n (XrplMessage.interchain_transfer_message m) =
    (a : ℕ) × (g : ℕ) × (m.transfer_amount ≡ PaymentAmount.drops a)
    × (m.gas_fee_amount ≡ PaymentAmount.drops g)
    × (a + g ≡ n)
IsConserved n _ = Unit

abbrev Holds : (XrplMessage → Type 0) → WithPayload → Type 0
Holds P w = P w.message

abbrev IsDrops : PaymentAmount → Type 0
IsDrops x = (g : ℕ) × (x ≡ PaymentAmount.drops g)

abbrev AreParts : ℕ → PaymentAmount → PaymentAmount → Type 0
AreParts n gas x =
    (a : ℕ) × (g : ℕ) × (x ≡ PaymentAmount.drops a) × (gas ≡ PaymentAmount.drops g) × (a + g ≡ n)

module _ (env : Env) where
  with_payload-Gives :
      (P : XrplMessage → Type 0) (message : XrplMessage) (payload : Option String)
      → P message
      → Gives (Holds P) (with_payload env message payload)
  with_payload-Gives P message none p = p
  with_payload-Gives P message (some text) p =
      let decoded = failed "Failed to decode payload: " (env.bytes text) in
      Gives-and_then (λ _. Unit) (Holds P) decoded _ (Gives-any decoded)
        (λ bytes _.
          let converted =
            failed "Failed to convert payload to HexBinary: " (env.payload_bytes bytes) in
          Gives-and_then (λ _. Unit) (Holds P) converted _ (Gives-any converted) (λ b _. p))

  parse_gas_fee_amount-Gives :
      (n : ℕ) (text : String)
      → Gives IsDrops (parse_gas_fee_amount env (PaymentAmount.drops n) text)
  unfolding parse_gas_fee_amount
  parse_gas_fee_amount-Gives n text =
      Gives-and_then (λ _. Unit) IsDrops _ _
        (Gives-any (or_error "Failed to parse gas fee amount as u64" (parse_u64 text)))
        (λ g _. (g, refl))

  sub-Gives :
      (n : ℕ) (gas : PaymentAmount)
      → SubtractsDrops env
      → IsDrops gas
      → Gives (AreParts n gas) (
          map_err
            (λ e. IngestorError.generic_error (subtraction_text e))
            (env.sub (PaymentAmount.drops n) gas))
  sub-Gives n gas law (g, q) =
      rw (q, law n g)
        (elim (Bool-cases (ltb n g)) [
          | inl h ↦ rw h tt
          | inr h ↦ rw h (n - g, g, refl, refl, ground arith)
        ])

  destination-Ends :
      (payment : PaymentTransaction) → Ends (λ _. Unit) (outcome (destination env payment))
  unfolding parse_payload_and_payload_hash
  destination-Ends payment = ground arith

  build_interchain_transfer-Ends :
      (n : ℕ) (payment : PaymentTransaction) (tx_id source : String)
      → SubtractsDrops env
      → Ends
          (Holds (IsConserved n))
          (outcome (build_interchain_transfer env payment tx_id (PaymentAmount.drops n) source))
  unfolding build_interchain_transfer
  build_interchain_transfer-Ends n payment tx_id source law =
      let gas_memo = memo env payment "gas_fee_amount" in
      Ends-lift PaymentCall (λ _. Unit) (Holds (IsConserved n)) gas_memo _ (Gives-any gas_memo)
        (λ text _.
          Ends-lift PaymentCall IsDrops (Holds (IsConserved n))
            (parse_gas_fee_amount env (PaymentAmount.drops n) text) _
            (parse_gas_fee_amount-Gives n text)
            (λ gas d.
              Ends-bind (λ _. Unit) (Holds (IsConserved n)) (destination env payment) _
                (destination-Ends payment)
                (λ (address, chain, payload, payload_hash) _.
                  let hash = optional_hash env payload_hash in
                  Ends-lift PaymentCall (λ _. Unit) (Holds (IsConserved n)) hash _ (Gives-any hash)
                    (λ h _.
                      Ends-lift PaymentCall (AreParts n gas) (Holds (IsConserved n)) _ _
                        (sub-Gives n gas law d)
                        (λ t parts.
                          let message = XrplMessage.interchain_transfer_message (record {
                            tx_id = tx_id;
                            source_address = source;
                            destination_address = address;
                            destination_chain = chain;
                            payload_hash = h;
                            transfer_amount = t;
                            gas_fee_amount = gas;
                          }) in
                          Ends-given PaymentCall (Holds (IsConserved n))
                            (with_payload env message payload)
                            (with_payload-Gives (IsConserved n) message payload parts))))))

  build_call_contract-Ends :
      (n : ℕ) (payment : PaymentTransaction) (tx_id source : String) (amount : PaymentAmount)
      → Ends (Holds (IsConserved n)) (outcome (build_call_contract env payment tx_id amount source))
  unfolding build_call_contract
  build_call_contract-Ends n payment tx_id source amount = ground arith

  build_add_gas-Ends :
      (n : ℕ) (payment : PaymentTransaction) (tx_id source : String) (amount : PaymentAmount)
      → Ends (Holds (IsConserved n)) (outcome (build_add_gas env payment tx_id amount source))
  unfolding build_add_gas
  build_add_gas-Ends n payment tx_id source amount = ground arith

  parse_payment_amount-Gives :
      (payment : PaymentTransaction) (text : String) (n : ℕ)
      → payment.amount ≡ Amount.drops text
      → parse_u64 text ≡ some n
      → Gives (λ a. a ≡ PaymentAmount.drops n) (parse_payment_amount env payment)
  unfolding parse_payment_amount
  parse_payment_amount-Gives payment text n e p = rw (e, p) refl

  -- what is built out of an amount in drops, by the type of the message
  built-Ends :
      (n : ℕ) (payment : PaymentTransaction) (tx_id source : String) (amount : PaymentAmount)
      (kind : MessageType)
      → SubtractsDrops env
      → amount ≡ PaymentAmount.drops n
      → Ends (Holds (IsConserved n)) (outcome (built env payment tx_id amount source kind))
  unfolding built build_add_reserves
  built-Ends n payment tx_id source amount MessageType.interchain_transfer law a =
      rw a (build_interchain_transfer-Ends n payment tx_id source law)
  built-Ends n payment tx_id source amount MessageType.call_contract law a =
      build_call_contract-Ends n payment tx_id source amount
  built-Ends n payment tx_id source amount MessageType.add_gas law a =
      build_add_gas-Ends n payment tx_id source amount
  built-Ends n payment tx_id source amount MessageType.add_reserves law a = rw a tt
  built-Ends n payment tx_id source amount (MessageType.prover text) law a = tt

  pub build_xrpl_message-Ends :
      (payment : PaymentTransaction) (text : String) (n : ℕ)
      → SubtractsDrops env
      → payment.amount ≡ Amount.drops text
      → parse_u64 text ≡ some n
      → Ends (Holds (IsConserved n)) (outcome (build_xrpl_message env payment))
  unfolding build_xrpl_message
  build_xrpl_message-Ends payment text n law e p =
      let P = Holds (IsConserved n) in
      let hash = or_error "Payment transaction missing field 'hash'" payment.hash in
      Ends-lift PaymentCall (λ _. Unit) P hash _ (Gives-any hash)
        (λ h _.
          let id = hash32 env "Failed to hex-decode tx_id" "Invalid length of tx_id bytes" h in
          Ends-lift PaymentCall (λ _. Unit) P id _ (Gives-any id)
            (λ tx_id _.
              let type_memo = memo env payment "type" in
              Ends-lift PaymentCall (λ _. Unit) P type_memo _ (Gives-any type_memo)
                (λ t _.
                  let kind_of =
                    failed (concat "Failed to parse message type " (concat t ": "))
                      (env.message_type t) in
                  Ends-lift PaymentCall (λ _. Unit) P kind_of _ (Gives-any kind_of)
                    (λ kind _.
                      Ends-lift PaymentCall (λ a. a ≡ PaymentAmount.drops n) P
                        (parse_payment_amount env payment) _
                        (parse_payment_amount-Gives payment text n e p)
                        (λ amount a.
                          let account =
                            failed "Invalid source account: " (env.account_id payment.account) in
                          Ends-lift PaymentCall (λ _. Unit) P account _ (Gives-any account)
                            (λ source _. built-Ends n payment tx_id source amount kind law a))))))

  -- The interchain transfer that is read out of a payment in drops has an amount and a fee in drops,
  -- which make the amount of the payment together, if the subtraction of amounts is that of numbers
  -- and refuses to go below zero.
  transfer_conserved :
      (payment : PaymentTransaction) (text : String) (n : ℕ) (m : InterchainTransferMessage)
      (payload : Option String)
      → SubtractsDrops env
      → payment.amount ≡ Amount.drops text
      → parse_u64 text ≡ some n
      → outcome (build_xrpl_message env payment)
        ≡ done (record { message = XrplMessage.interchain_transfer_message m; payload = payload })
      → (a : ℕ) × (g : ℕ) × (m.transfer_amount ≡ PaymentAmount.drops a)
        × (m.gas_fee_amount ≡ PaymentAmount.drops g)
        × (a + g ≡ n)
  transfer_conserved payment text n m payload law e p h =
      Ends-done (Holds (IsConserved n)) (outcome (build_xrpl_message env payment))
        (record { message = XrplMessage.interchain_transfer_message m; payload = payload })
        (build_xrpl_message-Ends payment text n law e p) h
