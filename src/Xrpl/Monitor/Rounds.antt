-- ===== src/Xrpl/Monitor/Rounds.antt =====
-- What a round of xrpl/src/queued_tx_monitor.rs does to each row of the table.
use axelar_relayer.Base.{
  ℕ, ◌≡◌, inl, inr, refl, arith, Bool, Bool-cases, true, false, if◌then◌else◌, String, str_eq,
  str_eq_iff, str_eq_refl, Option, none, some, List, [], ◌∷◌, any_of, ok, err, Result-cases, sym,
  ◌∙◌,
}
use axelar_relayer.Base.Dict.{lookup}
use axelar_relayer.Xrpl.QueuedTransactions.{
  QueuedTransaction, Row, Table, is_ready, get_queued_transactions_ready_for_check,
}
use axelar_relayer.Xrpl.Monitor.{Answers, update, check_each, check_queued_transactions, work}
use axelar_relayer.Xrpl.Monitor.Update.{
  IsKeyed, after_round, after_ready, tx_of, update-lookup, update_other,
}

-- the hashes of the transactions in the list
abbrev listed : String → List QueuedTransaction → Bool
listed h txs = any_of (λ tx. str_eq tx.tx_hash h) txs

module _ (k h : String) (r : Row) (t : Table) where
  lookup-cons : lookup h ((k, r) ∷ t) ≡ (if str_eq k h then some r else lookup h t)
  unfolding lookup
  lookup-cons = refl

ready-cons :
    (now : ℕ) (k : String) (r : Row) (t : Table)
    → get_queued_transactions_ready_for_check now ((k, r) ∷ t) ≡ (
        if is_ready now r
        then tx_of k r ∷ get_queued_transactions_ready_for_check now t
        else get_queued_transactions_ready_for_check now t)
unfolding get_queued_transactions_ready_for_check
ready-cons now k r t = refl

-- a row that is not ready is not in the list
unlisted :
    (now : ℕ) (t : Table) (h : String)
    → IsKeyed t
    → after_ready now (lookup h t) ≡ false
    → listed h (get_queued_transactions_ready_for_check now t) ≡ false
unfolding lookup get_queued_transactions_ready_for_check
unlisted now [] h key p = refl
unlisted now ((k, r) ∷ t) h key p = elim (Bool-cases (str_eq k h)) [
  | inl same ↦
      let missing : lookup h t ≡ none = rw (sym ((str_eq_iff k h).0 same)) key.0 in
      let rest = unlisted now t h key.1 (rw missing refl) in
      let waits : is_ready now r ≡ false = rw same at p in rw waits rest
  | inr differs ↦
      let rest = unlisted now t h key.1 (rw differs at p) in ground (arith, rest, differs)
]

-- `t` has the rows of `t0`
abbrev Extends : Table → Table → Type 0
Extends t0 t = (h : String) (r : Row) → lookup h t0 ≡ some r → lookup h t ≡ some r

abbrev over : Answers → String → Option Row → Option Row → Option Row
over a h none else' = else'
over a h (some r) else' = after_round a h (some r)

module _ (a : Answers) (k : String) (r : Row) (t0 t : Table) where
  check-ready :
      is_ready a.now r ≡ true
      → a.written k ≡ ok tt
      → check_each a (get_queued_transactions_ready_for_check a.now ((k, r) ∷ t0)) t
        ≡ check_each a (get_queued_transactions_ready_for_check a.now t0) (update a (tx_of k r) t)
  unfolding check_each
  check-ready ready w = rw (ready-cons a.now k r t0, ready) (ground (arith, w))

  check-waits :
      is_ready a.now r ≡ false
      → check_each a (get_queued_transactions_ready_for_check a.now ((k, r) ∷ t0)) t
        ≡ check_each a (get_queued_transactions_ready_for_check a.now t0) t
  check-waits waits = rw (ready-cons a.now k r t0, waits) refl

  module _ (key : lookup k t0 ≡ none) (ext : Extends ((k, r) ∷ t0) t) where
    other_key : (h : String) (r' : Row) → lookup h t0 ≡ some r' → str_eq k h ≡ false
    other_key h r' p = elim (Bool-cases (str_eq k h)) [
      | inr differs ↦ differs
      | inl same ↦ let missing = rw ((str_eq_iff k h).0 same) at key in ground (arith, missing, p)
    ]

    tail_row : (h : String) (r' : Row) → lookup h t0 ≡ some r' → lookup h t ≡ some r'
    tail_row h r' p = ext h r' (rw (lookup-cons k h r t0, other_key h r' p) p)

    head_row : lookup k t ≡ some r
    head_row = ext k r (rw (lookup-cons k k r t0, str_eq_refl k) refl)

    own_over :
        is_ready a.now r ≡ true
        → over a k (lookup k t0) (lookup k (update a (tx_of k r) t))
          ≡ over a k (lookup k ((k, r) ∷ t0)) (lookup k t)
    own_over ready =
        rw
          (
            key,
            lookup-cons k k r t0,
            str_eq_refl k,
            update-lookup a (tx_of k r) r t k head_row refl,
            ready,
          )
          (rw (str_eq_refl k) refl)

    over_ready :
        (h : String)
        → is_ready a.now r ≡ true
        → over a h (lookup h t0) (lookup h (update a (tx_of k r) t))
          ≡ over a h (lookup h ((k, r) ∷ t0)) (lookup h t)
    over_ready h ready = elim (Bool-cases (str_eq k h)) [
      | inl same ↦ rw (sym ((str_eq_iff k h).0 same)) (own_over ready)
      | inr differs ↦
          rw (lookup-cons k h r t0, differs, update_other a (tx_of k r) t h differs) refl
    ]

    own_waits :
        is_ready a.now r ≡ false
        → over a k (lookup k t0) (lookup k t) ≡ over a k (lookup k ((k, r) ∷ t0)) (lookup k t)
    own_waits waits = rw (key, lookup-cons k k r t0, str_eq_refl k, head_row, waits) refl

    over_waits :
        (h : String)
        → is_ready a.now r ≡ false
        → over a h (lookup h t0) (lookup h t) ≡ over a h (lookup h ((k, r) ∷ t0)) (lookup h t)
    over_waits h waits = elim (Bool-cases (str_eq k h)) [
      | inl same ↦ rw (sym ((str_eq_iff k h).0 same)) (own_waits waits)
      | inr differs ↦ rw (lookup-cons k h r t0, differs) refl
    ]

over_same : (a : Answers) (h : String) (o : Option Row) → over a h o o ≡ after_round a h o
over_same a h none = refl
over_same a h (some r) = refl

-- the loop over the transactions of the rows `t0` of a table, when no update fails
check_each_lem :
    (a : Answers) (t0 t : Table) (h : String)
    → ((k : String) → a.written k ≡ ok tt)
    → IsKeyed t0
    → Extends t0 t
    → lookup h (check_each a (get_queued_transactions_ready_for_check a.now t0) t).1
      ≡ over a h (lookup h t0) (lookup h t)
unfolding check_each get_queued_transactions_ready_for_check lookup
check_each_lem a [] t h w key ext = refl
check_each_lem a ((k, r) ∷ t0) t h w key ext = elim (Bool-cases (is_ready a.now r)) [
  | inl ready ↦
      let t' : Table = update a (tx_of k r) t in
      let ext' : Extends t0 t' = λ j r' p.
        update_other a (tx_of k r) t j (other_key a k r t0 t key.0 ext j r' p)
        ∙ tail_row a k r t0 t key.0 ext j r' p in
      let rest = check_each_lem a t0 t' h w key.1 ext' in
      rw (check-ready a k r t0 t ready (w k)) (rest ∙ over_ready a k r t0 t key.0 ext h ready)
  | inr waits ↦
      let rest = check_each_lem a t0 t h w key.1 (tail_row a k r t0 t key.0 ext) in
      rw (check-waits a k r t0 t waits) (rest ∙ over_waits a k r t0 t key.0 ext h waits)
]

module _ (a : Answers) (tx : QueuedTransaction) (txs : List QueuedTransaction) (t : Table) where
  pub check_each-written :
      (u : Unit {0})
      → a.written tx.tx_hash ≡ ok u
      → (check_each a (tx ∷ txs) t).1 ≡ (check_each a txs (update a tx t)).1
  unfolding check_each
  check_each-written u e = ground (arith, e)

  pub check_each-failed :
      (x : String) → a.written tx.tx_hash ≡ err x → (check_each a (tx ∷ txs) t).1 ≡ t
  unfolding check_each
  check_each-failed x e = ground (arith, e)

module _ (a : Answers) (t : Table) where
  pub work-selected :
      (u : Unit {0})
      → a.selected ≡ ok u
      → work a t ≡ (check_each a (get_queued_transactions_ready_for_check a.now t) t).1
  unfolding work check_queued_transactions
  work-selected u e = ground (arith, e)

  pub work-failed : (x : String) → a.selected ≡ err x → work a t ≡ t
  unfolding work check_queued_transactions
  work-failed x e = ground (arith, e)

check_each_other :
    (a : Answers) (txs : List QueuedTransaction) (t : Table) (h : String)
    → listed h txs ≡ false
    → lookup h (check_each a txs t).1 ≡ lookup h t
check_each_other a [] t h absent = unfold check_each in refl
check_each_other a (tx ∷ txs) t h absent =
    let here : str_eq tx.tx_hash h ≡ false = ground (arith, absent) in
    let there : listed h txs ≡ false = ground (arith, absent) in
    let rest = check_each_other a txs (update a tx t) h there ∙ update_other a tx t h here in
    elim (Result-cases (a.written tx.tx_hash)) [
      | inl (u, e) ↦ rw (check_each-written a tx txs t u e) rest
      | inr (x, e) ↦ rw (check_each-failed a tx txs t x e) refl
    ]

-- When the database answers every query of a round, each row of a table with one row for a hash is
-- afterwards what the monitor means to make of it, and no row appears or disappears: a row that is
-- due is expired after 20 retries, else settled as confirmed or dropped when the ledger says so,
-- else has one retry more; every other row is as before.
pub round_judges :
    (a : Answers) (t : Table) (h : String)
    → a.selected ≡ ok tt
    → ((k : String) → a.written k ≡ ok tt)
    → IsKeyed t
    → lookup h (work a t) ≡ after_round a h (lookup h t)
round_judges a t h s w key =
    rw (work-selected a t tt s)
      (check_each_lem a t t h w key (λ k r p. p) ∙ over_same a h (lookup h t))

-- In a table with one row for a hash, a row that is not due, because it is settled or because its
-- last check is too recent, is not touched by a round, whatever the ledger and the database answer.
pub not_due_kept :
    (a : Answers) (t : Table) (h : String) (r : Row)
    → IsKeyed t
    → lookup h t ≡ some r
    → is_ready a.now r ≡ false
    → lookup h (work a t) ≡ some r
not_due_kept a t h r key row waits = elim (Result-cases a.selected) [
  | inr (x, e) ↦ rw (work-failed a t x e) row
  | inl (u, e) ↦ rw (work-selected a t u e) (
      check_each_other a (get_queued_transactions_ready_for_check a.now t) t h
        (unlisted a.now t h key (rw row waits))
      ∙ row)
]
