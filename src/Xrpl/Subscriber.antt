-- ===== src/Xrpl/Subscriber.antt =====
-- xrpl/src/subscriber.rs: the poller of the transactions of an account of the XRP ledger. `T` is the
-- ledger library's type of transactions, of which the code reads the index of the ledger. The client
-- enters by what it answers, which is nothing before the ledger that it is asked from.
pub mod Order
use axelar_relayer.Base.{
  ℕ, ◌+◌, ◌≤◌, ◌<◌, ◌≡◌, String, Option, none, some, unwrap_or, List, [], ◌∷◌, leb, if◌then◌else◌,
  Result, ok, err, Outcome, done, fail, concat,
}
use axelar_relayer.Base.Int.{ℤ, pos, negsuc, as_u32, int_suc}
use axelar_relayer.Subscriber.{ChainTransaction, TransactionPoller}

-- The subscriber's field, and the row of `subscriber_cursors` for its context.
pub record State : Type 0 where
  pub latest_ledger : ℤ
  pub height : Option ℤ

-- What a round is answered: the client, from a ledger on, and the database, to the height. `called`
-- is the client's answer to the request for one transaction.
pub record Answers (T : Type 0) : Type 0 where
  pub get_transactions : ℕ → Result (List T) String
  pub height_stored : Result (Unit {0}) String
  pub called : String → Result T String

unfoldable pub new : Result (Unit {0}) String → State → Result State String
new (ok _) s = ok (record s { latest_ledger = elim s.height [ none ↦ negsuc 0 | some h ↦ h ] })
new (err e) s = err e

unfoldable pub store_latest_ledger : {T : Type 0} → Answers T → State → State
store_latest_ledger a s = elim a.height_stored [
  | ok _ ↦ record s { height = some s.latest_ledger }
  | err _ ↦ s
]

unfoldable pub poll_tx : {T : Type 0} → Answers T → String → Outcome T String
poll_tx a tx_hash = elim (a.called tx_hash) [
  | ok tx ↦ done tx
  | err e ↦ fail (concat "Error getting tx: " e)
]

-- `(latest_ledger + 1) as u32`
abbrev pub first_ledger : State → ℕ
first_ledger s = as_u32 (int_suc s.latest_ledger)

module _ {T : Type 0} (ledger_index : T → Option ℕ) where
  abbrev pub index_of : T → ℕ
  index_of tx = unwrap_or (ledger_index tx) 0

  abbrev pub max_ledger : List T → Option ℕ
  max_ledger [] = none
  max_ledger (x ∷ xs) = elim (max_ledger xs) [
    | none ↦ some (index_of x)
    | some m ↦ some (if leb (index_of x) m then m else index_of x)
  ]

  -- the error of the store is only logged
  unfoldable pub advance : Answers T → List T → State → State
  unfolding store_latest_ledger
  advance a txs s = elim (max_ledger txs) [
    | none ↦ s
    | some m ↦ store_latest_ledger a (record s { latest_ledger = pos m })
  ]

  unfoldable pub poll_account : Answers T → State → Result (List T) String × State
  unfolding advance
  poll_account a s = elim (a.get_transactions (first_ledger s)) [
    | err e ↦ (err e, s)
    | ok txs ↦ (ok txs, advance a txs s)
  ]

  abbrev pub xrpl_subscriber :
      {X : Type 0} → TransactionPoller State (Answers T) T (ChainTransaction T X)
  xrpl_subscriber = record {
    make_queue_item = ChainTransaction.xrpl;
    poll_account = poll_account;
    poll_tx = poll_tx;
  }
