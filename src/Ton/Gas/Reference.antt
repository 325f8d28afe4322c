-- ===== src/Ton/Gas/Reference.antt =====
-- What the cost of ton/src/gas_calculator.rs means: a sum over the messages, without balances.
use axelar_relayer.Base.{
  ℕ, ◌+◌, ◌%◌, ◌^◌, ◌≡◌, inl, inr, refl, sym, ◌∙◌, arith, Bool, true, false, not, ◌&&◌, any_of,
  if◌then◌else◌, Option-cases, none, some, List, [], ◌∷◌, String, str_eq,
}
use axelar_relayer.Base.Dict.{lookup, lookup-insert}
use axelar_relayer.Ton.Gas.{
  TransactionMessage, Transaction, Balances, extract_fwd_fee, extract_msg_value, negated, add_cost,
  contains_key, us_receiving, us_sending, transfer, charge_message, charge_messages, charge,
  charge_all, no_costs, total, cost,
}
use axelar_relayer.Ton.Gas.Totals.{
  total-lt, total-add_cost, contains-add_cost, no_costs-AllZero, total-AllZero,
}

abbrev pub is_ours : List String → String → Bool
is_ours ours h = any_of (λ a. str_eq a h) ours

-- What a message costs: the fee for forwarding it, if an account of ours sends it, and its value, if
-- it goes from ours to another account; a value that comes from another account counts against it.
abbrev pub message_cost : List String → Transaction → TransactionMessage → ℕ
message_cost ours tx msg =
    (if is_ours ours tx.account then extract_fwd_fee msg else 0) + elim msg.destination [
      | none ↦ 0
      | some dest ↦
          (if is_ours ours tx.account && not (is_ours ours dest) then extract_msg_value msg else 0)
          + (if not (is_ours ours tx.account) && is_ours ours dest
              then negated (extract_msg_value msg)
              else 0)
    ]

abbrev pub messages_cost : List String → Transaction → List TransactionMessage → ℕ
messages_cost ours tx [] = 0
messages_cost ours tx (msg ∷ msgs) = message_cost ours tx msg + messages_cost ours tx msgs

-- the fees of a transaction of ours, and what its messages cost
abbrev pub trace_cost : List String → List Transaction → ℕ
trace_cost ours [] = 0
trace_cost ours (tx ∷ txs) =
    (if is_ours ours tx.account then tx.total_fees else 0)
    + messages_cost ours tx tx.out_msgs
    + trace_cost ours txs

-- The balances are those of our accounts, and the total has grown by `c` since `b`.
record Grown (ours : List String) (c : ℕ) (b b' : Balances) : Type 0 where
  tracks : (h : String) → contains_key h b' ≡ is_ours ours h
  grown : total b' ≡ (total b + c) % 2 ^ 128

module _ (ours : List String) where
  abbrev Tracks : Balances → Type 0
  Tracks b = (h : String) → contains_key h b ≡ is_ours ours h

  unchanged : (b : Balances) → Tracks b → Grown ours 0 b b
  unchanged b t = record { tracks = t; grown = omega (arith, total-lt b) }

  both_parts :
      (c d : ℕ) (b b' b'' : Balances)
      → Grown ours c b b'
      → Grown ours d b' b''
      → Grown ours (c + d) b b''
  both_parts c d b b' b'' g h = record {
    tracks = h.tracks;
    grown = omega (arith, g.grown, h.grown);
  }

  charged :
      (flag : Bool) (k : String) (c : ℕ) (b : Balances)
      → Tracks b
      → (flag && not (is_ours ours k)) ≡ false
      → Grown ours (if flag then c else 0) b (if flag then add_cost k c b else b)
  charged false k c b t own = unchanged b t
  charged true k c b t own =
      let there : contains_key k b ≡ true = ground (arith, t k, own) in
      record { tracks = λ h. contains-add_cost k c b h there ∙ t h; grown = total-add_cost k c b }

  module _ (tx : Transaction) where
    sending_lem :
        (b : Balances) (dest : String)
        → Tracks b
        → us_sending b tx dest ≡ (is_ours ours tx.account && not (is_ours ours dest))
    sending_lem b dest t = rw (t tx.account, t dest) refl

    receiving_lem :
        (b : Balances) (dest : String)
        → Tracks b
        → us_receiving b tx dest ≡ (not (is_ours ours tx.account) && is_ours ours dest)
    receiving_lem b dest t = rw (t tx.account, t dest) refl

    transfer_grows :
        (msg : TransactionMessage) (dest : String) (b : Balances)
        → Tracks b
        → Grown ours
            ((if is_ours ours tx.account && not (is_ours ours dest)
                then extract_msg_value msg
                else 0)
              + (if not (is_ours ours tx.account) && is_ours ours dest
                  then negated (extract_msg_value msg)
                  else 0))
            b
            (transfer tx msg dest b)
    unfolding transfer
    transfer_grows msg dest b t =
        let s = us_sending b tx dest in
        let value = extract_msg_value msg in
        let sent : Balances = if s then add_cost tx.account value b else b in
        let g = charged s tx.account value b t (ground (arith, sending_lem b dest t)) in
        let r = us_receiving sent tx dest in
        let g' =
          charged r dest (negated value) sent g.tracks
            (ground (arith, receiving_lem sent dest g.tracks)) in
        rw (sym (sending_lem b dest t), sym (receiving_lem sent dest g.tracks))
          (both_parts (if s then value else 0) (if r then negated value else 0) b sent
            (transfer tx msg dest b) g g')

    charge_account :
        (c : ℕ) (b : Balances)
        → Tracks b
        → Grown ours
            (if is_ours ours tx.account then c else 0)
            b
            (if contains_key tx.account b then add_cost tx.account c b else b)
    charge_account c b t =
        rw (t tx.account) (charged (is_ours ours tx.account) tx.account c b t (ground arith))

    message_grows :
        (msg : TransactionMessage) (b : Balances)
        → Tracks b
        → Grown ours (message_cost ours tx msg) b (charge_message tx msg b)
    unfolding charge_message extract_fwd_fee transfer extract_msg_value
    message_grows msg b t =
        let g = charge_account (extract_fwd_fee msg) b t in
        elim (Option-cases msg.destination) [
          | inl e ↦ rw e (both_parts _ 0 b _ _ g (unchanged _ g.tracks))
          | inr (dest, e) ↦ rw e (both_parts _ _ b _ _ g (transfer_grows msg dest _ g.tracks))
        ]

    messages_grow :
        (msgs : List TransactionMessage) (b : Balances)
        → Tracks b
        → Grown ours (messages_cost ours tx msgs) b (charge_messages tx msgs b)
    unfolding charge_messages
    messages_grow [] b t = unchanged b t
    messages_grow (msg ∷ msgs) b t =
        let g = message_grows msg b t in
        both_parts (message_cost ours tx msg) (messages_cost ours tx msgs) b
          (charge_message tx msg b) _ g (messages_grow msgs (charge_message tx msg b) g.tracks)

    charge_grows :
        (b : Balances)
        → Tracks b
        → Grown ours
            ((if is_ours ours tx.account then tx.total_fees else 0)
              + messages_cost ours tx tx.out_msgs)
            b
            (charge tx b)
    unfolding charge
    charge_grows b t =
        let g = charge_account tx.total_fees b t in
        both_parts _ (messages_cost ours tx tx.out_msgs) b _ _ g
          (messages_grow tx.out_msgs _ g.tracks)

  charge_all_grows :
      (txs : List Transaction) (b : Balances)
      → Tracks b
      → Grown ours (trace_cost ours txs) b (charge_all txs b)
  unfolding charge_all
  charge_all_grows [] b t = unchanged b t
  charge_all_grows (tx ∷ txs) b t =
      let g = charge_grows tx b t in
      both_parts _ (trace_cost ours txs) b (charge tx b) _ g
        (charge_all_grows txs (charge tx b) g.tracks)

contains-no_costs :
    (ours : List String) (h : String) → contains_key h (no_costs ours) ≡ is_ours ours h
unfolding no_costs lookup
contains-no_costs [] h = refl
contains-no_costs (a ∷ ours) h =
    ground (arith, lookup-insert a h 0 (no_costs ours), contains-no_costs ours h)

-- The cost of a trace is the sum, as an `i128`, of what each of its transactions and messages costs
-- our accounts: the fees that they pay and the values that they send to others, less the values
-- that others send to them. Values between our accounts cancel, and an address that is listed twice
-- counts once.
pub cost_lem :
    (ours : List String) (txs : List Transaction) → cost ours txs ≡ trace_cost ours txs % 2 ^ 128
unfolding cost
cost_lem ours txs =
    let g = charge_all_grows ours txs (no_costs ours) (contains-no_costs ours) in
    omega (arith, g.grown, total-AllZero (no_costs ours) (no_costs-AllZero ours))
