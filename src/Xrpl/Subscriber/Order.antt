-- ===== src/Xrpl/Subscriber/Order.antt =====
-- The cursor of xrpl/src/subscriber.rs, over rounds and restarts of the relayer.
use axelar_relayer.Base.{
  ℕ, ◌+◌, ◌-◌, ◌^◌, ◌≤◌, ◌<◌, ◌≡◌, refl, arith, String, Option, none, some, Option-cases, List, [],
  ◌∷◌, Result, ok, err, Result-cases, inl, inr, ◌⊎◌,
}
use axelar_relayer.Base.Int.{pos, negsuc, as_u32}
use axelar_relayer.Xrpl.Subscriber.{
  State, Answers, new, store_latest_ledger, first_ledger, index_of, max_ledger, advance,
  poll_account,
}

-- A round, or a restart of the relayer, which reads the cursor from the database. A relayer that
-- stops between the poll of a round and its publications does a round and a restart.
pub data Step (T : Type 0) : Type 0 where
  polls : Answers T → Step T
  restarts : Result (Unit {0}) String → Step T

abbrev pub AllBetween : {T : Type 0} → (T → Option ℕ) → ℕ → ℕ → List T → Type 0
AllBetween ix low high [] = Unit {0}
AllBetween ix low high (x ∷ xs) =
    (low ≤ index_of ix x) × (index_of ix x < high) × AllBetween ix low high xs

-- The last index that is not used: no ledger has it.
abbrev pub last_index : ℕ
last_index = 2 ^ 32 - 1

-- What the ledger documents of `ledger_index_min`; and the database stores the cursor.
abbrev pub IsLawful : {T : Type 0} → (T → Option ℕ) → Step T → Type 0
IsLawful {T} ix (polls a) =
    ((low : ℕ) (txs : List T) → a.get_transactions low ≡ ok txs → AllBetween ix low last_index txs)
    × (a.height_stored ≡ ok tt)
IsLawful ix (restarts r) = Unit {0}

abbrev pub AllLawful : {T : Type 0} → (T → Option ℕ) → List (Step T) → Type 0
AllLawful ix [] = Unit {0}
AllLawful ix (x ∷ xs) = IsLawful ix x × AllLawful ix xs

-- Nothing is polled yet, or the cursor is stored.
abbrev pub IsSynced : State → Type 0
IsSynced s =
    ((s.height ≡ none) × (s.latest_ledger ≡ negsuc 0))
    ⊎ ((m : ℕ) × (m < last_index) × (s.height ≡ some (pos m)) × (s.latest_ledger ≡ pos m))

abbrev pub Later : {T : Type 0} → (T → Option ℕ) → ℕ → List (List T) → Type 0
Later ix n [] = Unit {0}
Later ix n (b ∷ bs) = AllBetween ix (n + 1) last_index b × Later ix n bs

abbrev pub EachBefore : {T : Type 0} → (T → Option ℕ) → List T → List (List T) → Type 0
EachBefore ix [] bs = Unit {0}
EachBefore ix (x ∷ xs) bs = Later ix (index_of ix x) bs × EachBefore ix xs bs

-- Each transaction of a block is of an earlier ledger than each of the later blocks.
abbrev pub Rises : {T : Type 0} → (T → Option ℕ) → List (List T) → Type 0
Rises ix [] = Unit {0}
Rises ix (b ∷ bs) = EachBefore ix b bs × Rises ix bs

module _ {T : Type 0} (ix : T → Option ℕ) where
  abbrev pub block : Result (List T) String → List T
  block (ok txs) = txs
  block (err _) = []

  -- a start that fails is tried again
  unfoldable pub after : Step T → State → State
  unfolding new
  after (polls a) s = (poll_account ix a s).1
  after (restarts r) s = elim (new r s) [ ok s' ↦ s' | err _ ↦ s ]

  -- What each round polls.
  unfoldable pub polled : List (Step T) → State → List (List T)
  polled [] s = []
  polled (restarts r ∷ steps) s = polled steps (after (restarts r) s)
  polled (polls a ∷ steps) s = block (poll_account ix a s).0 ∷ polled steps (after (polls a) s)

  AllBetween-wider :
      (low low' high high' : ℕ) (xs : List T)
      → low' ≤ low
      → high ≤ high'
      → AllBetween ix low high xs
      → AllBetween ix low' high' xs
  AllBetween-wider low low' high high' [] a b h = tt
  AllBetween-wider low low' high high' (x ∷ xs) a b (h1, h2, hs) =
      (omega arith, omega arith, AllBetween-wider low low' high high' xs a b hs)

  max_ledger-none : (xs : List T) → max_ledger ix xs ≡ none → xs ≡ []
  max_ledger-none [] e = refl
  max_ledger-none (x ∷ xs) e = absurd (ground arith)

  max_ledger_bounds :
      (txs : List T) (low m : ℕ)
      → max_ledger ix txs ≡ some m
      → AllBetween ix low last_index txs
      → (low ≤ m) × (m < last_index) × AllBetween ix 0 (m + 1) txs
  max_ledger_bounds [] low m e h = absurd (ground arith)
  max_ledger_bounds (x ∷ xs) low m e (h1, h2, hs) = elim (Option-cases (max_ledger ix xs)) [
    | inl q ↦
        let m' : index_of ix x ≡ m = ground (arith, q, e) in
        (omega arith, omega arith, (omega arith, omega arith, rw (max_ledger-none xs q) tt))
    | inr (k, q) ↦
        let (b1, b2, b3) = max_ledger_bounds xs low k q hs in
        let km : k ≤ m = ground (arith, q, e) in
        let xm : index_of ix x ≤ m = ground (arith, q, e) in
        (
          omega arith,
          ground (arith, q, e),
          (
            omega arith,
            omega arith,
            AllBetween-wider 0 0 (k + 1) (m + 1) xs (omega arith) (omega arith) b3,
          ),
        )
  ]

  first-synced :
      (s : State) (m : ℕ) → m < last_index → s.latest_ledger ≡ pos m → first_ledger s ≡ m + 1
  unfolding as_u32
  first-synced s m h e = rw e (omega arith)

  first-initial : (s : State) → s.latest_ledger ≡ negsuc 0 → first_ledger s ≡ 0
  unfolding as_u32
  first-initial s e = rw e

  advance-none :
      (a : Answers T) (txs : List T) (s : State) → max_ledger ix txs ≡ none → advance ix a txs s ≡ s
  unfolding advance
  advance-none a txs s q = ground (arith, q)

  advance-some :
      (a : Answers T) (txs : List T) (s : State) (m : ℕ)
      → max_ledger ix txs ≡ some m
      → a.height_stored ≡ ok tt
      → advance ix a txs s ≡ record { latest_ledger = pos m; height = some (pos m) }
  unfolding advance store_latest_ledger
  advance-some a txs s m q stored = ground (arith, q, stored)

  advance_bounds :
      (a : Answers T) (txs : List T) (s : State)
      → IsSynced s
      → a.height_stored ≡ ok tt
      → AllBetween ix (first_ledger s) last_index txs
      → IsSynced (advance ix a txs s)
        × (first_ledger s ≤ first_ledger (advance ix a txs s))
        × AllBetween ix 0 (first_ledger (advance ix a txs s)) txs
  advance_bounds a txs s y stored h = elim (Option-cases (max_ledger ix txs)) [
    | inl q ↦ rw (advance-none a txs s q, max_ledger-none txs q) (y, omega arith, tt)
    | inr (m, q) ↦
        let (b1, b2, b3) = max_ledger_bounds txs (first_ledger s) m q h in
        let s' : State = record { latest_ledger = pos m; height = some (pos m) } in
        let f : first_ledger s' ≡ m + 1 = first-synced s' m b2 refl in
        rw (advance-some a txs s m q stored)
          (inr (m, b2, refl, refl), omega (arith, f, b1), rw f b3)
  ]

  poll_account-ok :
      (a : Answers T) (s : State) (txs : List T)
      → a.get_transactions (first_ledger s) ≡ ok txs
      → poll_account ix a s ≡ (ok txs, advance ix a txs s)
  unfolding poll_account
  poll_account-ok a s txs q = ground (arith, q)

  poll_account-err :
      (a : Answers T) (s : State) (e : String)
      → a.get_transactions (first_ledger s) ≡ err e
      → poll_account ix a s ≡ (err e, s)
  unfolding poll_account
  poll_account-err a s e q = ground (arith, q)

  -- a restart takes up where the relayer was
  restart-same : (r : Result (Unit {0}) String) (s : State) → IsSynced s → after (restarts r) s ≡ s
  unfolding after new
  restart-same (ok _) s (inl (e, l)) = ground (arith, e, l)
  restart-same (ok _) s (inr (m, b, e, l)) = ground (arith, e, l)
  restart-same (err _) s y = refl

  after-polls : (a : Answers T) (s : State) → after (polls a) s ≡ (poll_account ix a s).1
  unfolding after
  after-polls a s = refl

  -- A round leaves the cursor stored and behind all that it polls, which is at the cursor or later.
  round_bounds :
      (a : Answers T) (s : State)
      → IsLawful ix (polls a)
      → IsSynced s
      → IsSynced (after (polls a) s)
        × (first_ledger s ≤ first_ledger (after (polls a) s))
        × AllBetween ix (first_ledger s) last_index (block (poll_account ix a s).0)
        × AllBetween ix 0 (first_ledger (after (polls a) s)) (block (poll_account ix a s).0)
  round_bounds a s (lawful, stored) y = elim (Result-cases (a.get_transactions (first_ledger s))) [
    | inl (txs, q) ↦
        let h : AllBetween ix (first_ledger s) last_index txs = lawful (first_ledger s) txs q in
        let (b1, b2, b3) = advance_bounds a txs s y stored h in
        rw (after-polls a s, poll_account-ok a s txs q) (b1, b2, h, b3)
    | inr (e, q) ↦ rw (after-polls a s, poll_account-err a s e q) (y, omega arith, tt, tt)
  ]

  polled-Later :
      (steps : List (Step T)) (s : State) (n : ℕ)
      → AllLawful ix steps
      → IsSynced s
      → n < first_ledger s
      → Later ix n (polled steps s)
  unfolding polled
  polled-Later [] s n h y b = tt
  polled-Later (restarts r ∷ steps) s n (h, hs) y b =
      rw (restart-same r s y) (polled-Later steps s n hs y b)
  polled-Later (polls a ∷ steps) s n (h, hs) y b =
      let (y', b', all, _) = round_bounds a s h y in
      (
        AllBetween-wider (first_ledger s) (n + 1) last_index last_index
            (block (poll_account ix a s).0) (omega arith) (omega arith) all,
        polled-Later steps (after (polls a) s) n hs y' (omega arith),
      )

  EachBefore-of :
      (steps : List (Step T)) (s : State) (xs : List T)
      → AllLawful ix steps
      → IsSynced s
      → AllBetween ix 0 (first_ledger s) xs
      → EachBefore ix xs (polled steps s)
  EachBefore-of steps s [] h y b = tt
  EachBefore-of steps s (x ∷ xs) h y (_, b, bs) =
      (polled-Later steps s (index_of ix x) h y b, EachBefore-of steps s xs h y bs)

  -- When the ledger answers from the index on that it is asked for and the cursor is always stored,
  -- every transaction that a round polls is of an earlier ledger than all those of the later
  -- rounds, however often the relayer restarts and however many of its polls fail. So none is
  -- polled twice, and none of a round that was cut off before its publications is polled again.
  pub polled-Rises :
      (steps : List (Step T)) (s : State)
      → AllLawful ix steps
      → IsSynced s
      → Rises ix (polled steps s)
  unfolding polled
  polled-Rises [] s h y = tt
  polled-Rises (restarts r ∷ steps) s (h, hs) y =
      rw (restart-same r s y) (polled-Rises steps s hs y)
  polled-Rises (polls a ∷ steps) s (h, hs) y =
      let (y', _, _, all) = round_bounds a s h y in
      (
        EachBefore-of steps (after (polls a) s) (block (poll_account ix a s).0) hs y' all,
        polled-Rises steps (after (polls a) s) hs y',
      )
