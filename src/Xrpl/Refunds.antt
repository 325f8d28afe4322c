-- ===== src/Xrpl/Refunds.antt =====
-- xrpl/src/refund_manager.rs: the refunds that the relayer pays on the XRP ledger itself. The XRPL
-- client and its types, the signing library, Redis and the `XRPLMessage` of a task's metadata enter
-- by what they answer; an account is its address. `C` is the type of the common fields of a
-- transaction once it is prepared, and `S` that of a signed one. `tx_hash` prints the id of a message.
pub mod Amounts
pub mod Locks
use axelar_relayer.Base.Texts.{to_string, parse_u64}
use axelar_relayer.Base.{
  ℕ, ◌+◌, ◌-◌, ◌%◌, ◌^◌, ◌==◌, ◌||◌, leb, Bool, true, false, String, str_eq, concat, if◌then◌else◌,
  Option, none, some, List, [], ◌∷◌, Result, ok, err, and_then, map_err, Exec, ◌>>=◌, ◌>>◌, pure,
  raise, lift, call,
}
use axelar_relayer.Gmp.Task.{RefundTask}
use axelar_relayer.Gmp.Errors.{RefundManagerError, ingestor_text}
use axelar_relayer.Xrpl.Messages.{XrplMessage, parse_message_from_context}
use axelar_relayer.Xrpl.Memos.{Memo, Hex, extract_and_decode_memo}

pub record Wallet : Type 0 where
  pub secret_key : String
  pub public_key : String
  pub account_id : String

-- What the code sets of a payment: its one memo has the type `refund_id`.
pub record Payment : Type 0 where
  pub account : String
  pub amount : ℕ
  pub destination : String
  pub refund_id : String

-- A transaction of the recipient, by what the code reads of it.
pub record AccountTransaction : Type 0 where
  pub ledger_index : Option ℕ
  pub memos : Option (List Memo)

pub data RefundCall : Type 0 where
  prepare_transaction : Payment → RefundCall
  -- for 60 seconds, if it is not set
  set_lock : String → RefundCall
  del_lock : String → RefundCall
  get_transaction_by_id : String → RefundCall
  get_transactions_for_account : String → ℕ → RefundCall

pub record Env (C S : Type 0) : Type 0 where
  pub not_u64 : String → String
  pub drops : ℕ → Result ℕ String
  pub address : String → Result String String
  pub prepared : Payment → Result C String
  pub fee : C → Option ℕ
  pub sign : Payment → C → Wallet → Result S String
  pub serialize : S → Result String String
  pub set : String → Result Bool String
  pub del : String → Result (Unit {0}) String
  pub secret : String → Result String String
  pub parse_key : String → Result String String
  pub public : String → String
  pub parse_message : String → Result XrplMessage String
  pub tx_hash : XrplMessage → String
  pub trim_0x : String → String
  pub transaction : String → Result AccountTransaction String
  pub transactions : String → ℕ → Result (List AccountTransaction) String
  pub hex : Hex

abbrev pub Refunding : Type 0 → Type 0
Refunding A = Exec RefundCall RefundManagerError A

abbrev generic : {A : Type 0} → String → Result A String → Result A RefundManagerError
generic what = map_err (λ e. RefundManagerError.generic_error (concat what e))

abbrev or_generic : {A : Type 0} → String → Option A → Result A RefundManagerError
or_generic m none = err (RefundManagerError.generic_error m)
or_generic m (some a) = ok a

abbrev or_invalid : {C S : Type 0} → Env C S → String → Result ℕ RefundManagerError
or_invalid env drops = elim (parse_u64 drops) [
  | none ↦ err (
      RefundManagerError.generic_error
        (concat "Invalid drops amount '" (concat drops (concat "': " (env.not_u64 drops)))))
  | some n ↦ ok n
]

-- `a as i64 - b as i64`, in its two's complement
abbrev pub minus_i64 : ℕ → ℕ → ℕ
minus_i64 a b = (a + (2 ^ 64 - b % 2 ^ 64)) % 2 ^ 64

-- `n <= 0`, of an `i64` in its two's complement
abbrev pub not_positive : ℕ → Bool
not_positive n = (n == 0) || leb (2 ^ 63) n

module _ {C S : Type 0} (env : Env C S) where
  -- the part that has the prepared fields
  unfoldable pub sign_refund :
      Payment → ℕ → C → Wallet → Refunding (Option (String × String × String))
  unfolding to_string
  sign_refund tx pre_fee common wallet = do
    fee ← lift (or_generic "Fee not set" (env.fee common))
    let actual = minus_i64 pre_fee fee
    if not_positive actual then pure none else (do
      amount ← lift (generic "Failed to parse amount: " (env.drops actual))
      signed ←
          lift (generic "Sign error: " (env.sign (record tx { amount = amount }) common wallet))
      tx_bytes ← lift (generic "Serialization error: " (env.serialize signed))
      pure (some (tx_bytes, to_string actual, to_string fee)))

  unfoldable pub build_refund_tx :
      String → String → String → Wallet → Refunding (Option (String × String × String))
  unfolding sign_refund parse_u64
  build_refund_tx recipient drops refund_id wallet = do
    pre_fee ← lift (or_invalid env drops)
    amount ← lift (generic "Failed to parse amount: " (env.drops pre_fee))
    recipient_account ← lift (generic "Invalid recipient address: " (env.address recipient))
    let tx : Payment = record {
      account = wallet.account_id;
      amount = amount;
      destination = recipient_account;
      refund_id = refund_id;
    }
    common ← call (prepare_transaction tx) (generic "" (env.prepared tx))
    sign_refund tx pre_fee common wallet

  abbrev pub is_refund_manager_managed : Bool
  is_refund_manager_managed = true

  -- the wallet whose lock was set
  unfoldable pub picked : String → String → Refunding Wallet
  picked secret account_id = do
    secret_bytes ← lift (generic "Hex decode error: " (env.secret secret))
    secret_key ← lift (generic "Invalid secret key: " (env.parse_key secret_bytes))
    pure (record {
      secret_key = secret_key;
      public_key = env.public secret_key;
      account_id = account_id;
    })

  -- over the shuffled pairs of a secret and an address
  unfoldable pub get_wallet_lock : List (String × String) → Refunding Wallet
  unfolding picked
  get_wallet_lock [] = raise (RefundManagerError.generic_error "No available wallet in pool")
  get_wallet_lock ((secret, address) ∷ pairs) =
      let rest = get_wallet_lock pairs in
      (do
        account_id ← lift (generic "Invalid address: " (env.address address))
        wallet_lock ← call (set_lock account_id) (generic "" (env.set account_id))
        if wallet_lock then picked secret account_id else rest)

  unfoldable pub release_wallet_lock : Wallet → Refunding (Unit {0})
  release_wallet_lock wallet =
      call (del_lock wallet.account_id) (generic "" (env.del wallet.account_id))

  -- an error of a memo is passed over
  unfoldable pub has_refund : String → List AccountTransaction → Bool
  unfolding extract_and_decode_memo
  has_refund refund_id [] = false
  has_refund refund_id (tx ∷ txs) =
      let rest = has_refund refund_id txs in
      elim (extract_and_decode_memo env.hex tx.memos "refund_id") [
        | ok refund_memo ↦ str_eq refund_memo refund_id || rest
        | err _ ↦ rest
      ]

  unfoldable pub is_refund_processed : RefundTask → String → Refunding Bool
  unfolding has_refund parse_message_from_context
  is_refund_processed t refund_id = do
    recipient ←
        lift (generic "Invalid recipient address: " (env.address t.task.refund_recipient_address))
    message ← lift (
        map_err (λ e. RefundManagerError.generic_error (ingestor_text e))
          (parse_message_from_context env.parse_message t.common.meta))
    let id = env.trim_0x (env.tx_hash message)
    tx ← call (get_transaction_by_id id) (generic "" (env.transaction id))
    ledger_index ← lift (or_generic "Ledger index not found" tx.ledger_index)
    transactions ←
        call (get_transactions_for_account recipient ledger_index)
          (generic "" (env.transactions recipient ledger_index))
    pure (has_refund refund_id transactions)
