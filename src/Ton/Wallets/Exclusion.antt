-- ===== src/Ton/Wallets/Exclusion.antt =====
-- What the locks of ton/src/lock_manager.rs and ton/src/wallet_manager.rs promise: a wallet has one
-- user at a time, for the 60 seconds of its lock.
use axelar_relayer.Base.{
  ℕ, ◌+◌, ◌<◌, ◌≡◌, ◌≢◌, inl, inr, Bool-cases, true, false, String, some, List, [], ◌∷◌, any_of,
  Result, Result-cases, ok, err, arith, ap, sym, ◌∙◌, refl, str_eq, str_eq_iff,
}
use text.Mathlib.TextLemmas.{append_cancel_left}
use axelar_relayer.Ton.Wallets.{
  Redis, key_of, lock_seconds, WalletManagerError, lock, unlock, acquire, release, Use, taken,
}

ok_injective : {A E : Type 0} {a b : A} → Path (Result A E) (ok a) (ok b) → a ≡ b
ok_injective p = ground (arith, p)

keys_differ : (v w : String) → str_eq v w ≡ false → key_of v ≢ key_of w
keys_differ v w differs p =
    let same = append_cancel_left "wallet_lock_" v w p in
    let eq = (str_eq_iff v w).1 same in ground (arith, eq, differs)

module _ {S : Type 0} (redis : Redis S) where
  lock_answer :
      (key : String) (now : ℕ) (s : S)
      → (lock redis key now s).0 ≡ true
      → (redis.set_nx_ex (key_of key) lock_seconds now s).0 ≡ some true
  unfolding lock
  lock_answer key now s h = ground arith

  lock_state :
      (key : String) (now : ℕ) (s : S)
      → (lock redis key now s).1 ≡ (redis.set_nx_ex (key_of key) lock_seconds now s).1
  unfolding lock
  lock_state key now s = refl

  -- the key of a wallet is present, at all times before `e`
  abbrev Reserved : String → ℕ → S → Type 0
  Reserved w e s = (later : ℕ) → later < e → redis.present (key_of w) later s ≡ true

  lock_takes :
      (w : String) (now : ℕ) (s : S)
      → (lock redis w now s).0 ≡ true
      → Reserved w (now + lock_seconds) (lock redis w now s).1
  lock_takes w now s got later t =
      rw (lock_state w now s)
        (redis.set_lasts (key_of w) lock_seconds now later s (lock_answer w now s got) t)

  lock_refused :
      (w : String) (e now : ℕ) (s : S) → Reserved w e s → now < e → (lock redis w now s).0 ≡ false
  lock_refused w e now s h t = elim (Bool-cases (lock redis w now s).0) [
    | inr refused ↦ refused
    | inl got ↦
        let new = redis.set_new (key_of w) lock_seconds now s (lock_answer w now s got) in
        ground (arith, new, h now t)
  ]

  lock_keeps :
      (w v : String) (e now : ℕ) (s : S) → Reserved w e s → Reserved w e (lock redis v now s).1
  lock_keeps w v e now s h later t =
      rw (lock_state v now s)
        (redis.set_keeps (key_of w) (key_of v) lock_seconds now later s (h later t))

  lock_other :
      (w v : String) (e now : ℕ) (s : S)
      → Reserved w e s
      → now < e
      → (lock redis v now s).0 ≡ true
      → str_eq v w ≡ false
  lock_other w v e now s h t got = elim (Bool-cases (str_eq v w)) [
    | inr differs ↦ differs
    | inl same ↦
        let free = rw (sym ((str_eq_iff v w).0 same)) at (lock_refused w e now s h t) in
        ground (arith, got, free)
  ]

  module _ (v : String) (ws : List String) (now : ℕ) (s : S) where
    acquire-got :
        (lock redis v now s).0 ≡ true
        → acquire redis (v ∷ ws) now s ≡ (ok v, (lock redis v now s).1)
    unfolding acquire
    acquire-got h = rw h refl

    acquire-on :
        (lock redis v now s).0 ≡ false
        → acquire redis (v ∷ ws) now s ≡ acquire redis ws now (lock redis v now s).1
    unfolding acquire
    acquire-on h = rw h refl

  acquire-nil :
      (now : ℕ) (s : S) → acquire redis [] now s ≡ (err WalletManagerError.no_available_wallet, s)
  unfolding acquire
  acquire-nil now s = refl

  -- While a wallet is held, `acquire` keeps it held and returns another.
  acquire_other :
      (ws : List String) (w : String) (e now : ℕ) (s : S)
      → Reserved w e s
      → now < e
      → Reserved w e (acquire redis ws now s).1
        × ((v : String) → (acquire redis ws now s).0 ≡ ok v → str_eq v w ≡ false)
  acquire_other [] w e now s h t = rw (acquire-nil now s) (h, λ v p. ground (arith, p))
  acquire_other (v ∷ ws) w e now s h t = elim (Bool-cases (lock redis v now s).0) [
    | inl got ↦ rw (acquire-got v ws now s got) (
      lock_keeps w v e now s h,
      λ u p. rw (sym (ok_injective p)) (lock_other w v e now s h t got),
    )
    | inr refused ↦
        rw (acquire-on v ws now s refused)
          (acquire_other ws w e now (lock redis v now s).1 (lock_keeps w v e now s h) t)
  ]

  held_after :
      (v w : String) (now : ℕ) (s : S)
      → (lock redis v now s).0 ≡ true
      → v ≡ w
      → Reserved w (now + lock_seconds) (lock redis v now s).1
  held_after v w now s got same later t = rw (sym same) ((lock_takes v now s got) later t)

  acquire_holds :
      (ws : List String) (now : ℕ) (s : S) (w : String)
      → (acquire redis ws now s).0 ≡ ok w
      → Reserved w (now + lock_seconds) (acquire redis ws now s).1
  acquire_holds [] now s w p = let q = rw (acquire-nil now s) at p in ground (arith, q)
  acquire_holds (v ∷ ws) now s w p = elim (Bool-cases (lock redis v now s).0) [
    | inl got ↦ rw (acquire-got v ws now s got) (λ later t.
        held_after v w now s got
          (ok_injective (ap (λ r. r.0) (sym (acquire-got v ws now s got)) ∙ p)) later t)
    | inr refused ↦
        let q = rw (acquire-on v ws now s refused) at p in
        rw (acquire-on v ws now s refused) (acquire_holds ws now (lock redis v now s).1 w q)
  ]

  release_keeps :
      (w v : String) (e now : ℕ) (s : S)
      → str_eq v w ≡ false
      → Reserved w e s
      → Reserved w e (release redis v now s)
  unfolding release unlock
  release_keeps w v e now s differs h later t =
      redis.del_keeps (key_of w) (key_of v) now later s (keys_differ v w differs) (h later t)

  -- all uses are before `e`, and none releases `w`
  abbrev pub KeptUntil : String → ℕ → List (Use redis) → Type 0
  KeptUntil w e [] = Unit
  KeptUntil w e (Use.acquires ws now ∷ us) = (now < e) × KeptUntil w e us
  KeptUntil w e (Use.releases v now ∷ us) = (str_eq v w ≡ false) × KeptUntil w e us

  module _ (ws : List String) (now : ℕ) (us : List (Use redis)) (s : S) where
    taken-ok :
        (v : String)
        → (acquire redis ws now s).0 ≡ ok v
        → taken redis (Use.acquires ws now ∷ us) s ≡ v ∷ taken redis us (acquire redis ws now s).1
    unfolding taken
    taken-ok v p = ground (arith, p)

    taken-err :
        (x : WalletManagerError)
        → (acquire redis ws now s).0 ≡ err x
        → taken redis (Use.acquires ws now ∷ us) s ≡ taken redis us (acquire redis ws now s).1
    unfolding taken
    taken-err x p = ground (arith, p)

  held_not_taken :
      (us : List (Use redis)) (w : String) (e : ℕ) (s : S)
      → Reserved w e s
      → KeptUntil w e us
      → any_of (λ v. str_eq v w) (taken redis us s) ≡ false
  unfolding taken
  held_not_taken [] w e s h k = refl
  held_not_taken (Use.acquires ws now ∷ us) w e s h k =
      let (kept, other) = acquire_other ws w e now s h k.0 in
      let rest = held_not_taken us w e (acquire redis ws now s).1 kept k.1 in
      elim (Result-cases (acquire redis ws now s).0) [
        | inl (v, p) ↦ rw (taken-ok ws now us s v p, other v p) rest
        | inr (x, p) ↦ rw (taken-err ws now us s x p) rest
      ]
  held_not_taken (Use.releases v now ∷ us) w e s h k =
      held_not_taken us w e (release redis v now s) (release_keeps w v e now s k.0 h) k.1

-- A wallet that `acquire` returned is not returned to anyone in the next 60 seconds, whatever
-- acquisitions and releases follow, as long as none of them releases this wallet: for every server
-- that keeps its documented behaviour, whichever of its answers are errors.
pub acquired_once :
    {S : Type 0} (redis : Redis S) (ws : List String) (now : ℕ) (s : S) (w : String)
    (us : List (Use redis))
    → (acquire redis ws now s).0 ≡ ok w
    → KeptUntil redis w (now + lock_seconds) us
    → any_of (λ v. str_eq v w) (taken redis us (acquire redis ws now s).1) ≡ false
acquired_once redis ws now s w us p k =
    held_not_taken redis us w (now + lock_seconds) (acquire redis ws now s).1
      (acquire_holds redis ws now s w p) k
