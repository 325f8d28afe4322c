-- ===== src/Subscriber.antt =====
-- relayer_base/src/subscriber.rs: it asks a chain for new transactions and puts them on the queue.
-- The two seconds between rounds and the spans of the tracing library are left out.
use axelar_relayer.Base.{
  String, List, [], ◌∷◌, map, Result, ok, err, Outcome, Exec, ◌>>=◌, ◌>>◌, pure, tell, attempt,
}
use axelar_relayer.Queue.{QueueItem}

-- A transaction of one of the chains: of the XRP ledger, or a trace of TON.
pub data ChainTransaction (T X : Type 0) : Type 0 where
  xrpl : T → ChainTransaction T X
  ton : X → ChainTransaction T X

-- A chain's poller. `S` is what it remembers with what it stores, `A` what a round is answered, and
-- `Item` the type of chain transactions on the queue.
pub record TransactionPoller (S A Tx Item : Type 0) : Type 0 where
  pub make_queue_item : Tx → Item
  pub poll_account : A → S → Result (List Tx) String × S
  pub poll_tx : A → String → Outcome Tx String

pub data SubscriberCall (Item : Type 0) : Type 0 where
  publish : QueueItem Item → SubscriberCall Item

module _ {S A Tx Item : Type 0} (poller : TransactionPoller S A Tx Item) where
  abbrev pub item_of : Tx → SubscriberCall Item
  item_of tx = publish (QueueItem.transaction (poller.make_queue_item tx))

  -- an error of the poller is only logged
  abbrev pub publish_all : Result (List Tx) String → List (SubscriberCall Item)
  publish_all (ok txs) = map item_of txs
  publish_all (err _) = []

  unfoldable pub work : A → S → List (SubscriberCall Item) × S
  work a s = let (txs, s') = poller.poll_account a s in (publish_all txs, s')

  -- the rounds of the endless loop
  unfoldable pub run : List A → S → List (List (SubscriberCall Item)) × S
  run [] s = ([], s)
  run (a ∷ rounds) s =
      let (published, s') = work a s in let (later, s'') = run rounds s' in (published ∷ later, s'')

  unfoldable pub recover_txs : A → List String → Exec (SubscriberCall Item) String (Unit {0})
  recover_txs a [] = pure tt
  recover_txs a (h ∷ txs) =
      let rest = recover_txs a txs in
      (do
        res ← attempt (poller.poll_tx a h, [])
        elim res [ ok tx ↦ tell (item_of tx) | err _ ↦ pure tt ]
        rest)
