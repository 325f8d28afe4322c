-- ===== src/Ton/Wallets.antt =====
-- ton/src/lock_manager.rs and ton/src/wallet_manager.rs: the locks of the wallets, which are keys
-- of a Redis server with an expiry. The server is a parameter, with what its commands are
-- documented to do. Time is in seconds. The map of the wallets is iterated in an order of its own,
-- so the wallets are a list, by their addresses.
pub mod Exclusion
use axelar_relayer.Base.{
  ℕ, ◌+◌, ◌<◌, ◌≡◌, ◌≢◌, Bool, true, false, String, Option, none, some, List, [], ◌∷◌, unwrap_or,
  if◌then◌else◌, concat, Result, ok, err,
}

-- The commands, at a time: `none` is an error, after which a `SET` may have happened or not.
-- `present k now s` says that the key exists and has not expired.
pub record Redis (S : Type 0) : Type 0 where
  pub set_nx_ex : String → ℕ → ℕ → S → Option Bool × S
  pub del : String → ℕ → S → Option Bool × S
  pub present : String → ℕ → S → Bool
  pub set_new :
      (k : String) (ex now : ℕ) (s : S)
      → (set_nx_ex k ex now s).0 ≡ some true
      → present k now s ≡ false
  pub set_lasts :
      (k : String) (ex now later : ℕ) (s : S)
      → (set_nx_ex k ex now s).0 ≡ some true
      → later < now + ex
      → present k later (set_nx_ex k ex now s).1 ≡ true
  pub set_refused :
      (k : String) (ex now : ℕ) (s : S)
      → (set_nx_ex k ex now s).0 ≡ some false
      → (present k now s ≡ true) × ((set_nx_ex k ex now s).1 ≡ s)
  pub del_removes :
      (k : String) (now later : ℕ) (s : S) (b : Bool)
      → (del k now s).0 ≡ some b
      → present k later (del k now s).1 ≡ false
  pub set_keeps :
      (k j : String) (ex now later : ℕ) (s : S)
      → present k later s ≡ true
      → present k later (set_nx_ex j ex now s).1 ≡ true
  pub del_keeps :
      (k j : String) (now later : ℕ) (s : S)
      → j ≢ k
      → present k later s ≡ true
      → present k later (del j now s).1 ≡ true

abbrev pub key_of : String → String
key_of key = concat "wallet_lock_" key

abbrev pub lock_seconds : ℕ
lock_seconds = 60

pub data WalletManagerError : Type 0 where
  no_available_wallet : WalletManagerError
  lock_error : String → WalletManagerError

module _ {S : Type 0} (redis : Redis S) where
  unfoldable pub lock : String → ℕ → S → Bool × S
  lock key now s =
      let (answer, s') = redis.set_nx_ex (key_of key) lock_seconds now s in
      (unwrap_or answer false, s')

  unfoldable pub unlock : String → ℕ → S → S
  unlock key now s = (redis.del (key_of key) now s).1

  unfoldable pub acquire : List String → ℕ → S → Result String WalletManagerError × S
  acquire [] now s = (err WalletManagerError.no_available_wallet, s)
  acquire (w ∷ ws) now s =
      let (l, s') = lock w now s in let rest = acquire ws now s' in if l then (ok w, s') else rest

  unfoldable pub release : String → ℕ → S → S
  release wallet now s = unlock wallet now s

  -- What the users of the wallets do, one after the other.
  pub data Use : Type 0 where
    acquires : List String → ℕ → Use
    releases : String → ℕ → Use

  -- The wallets that are returned, in order.
  unfoldable pub taken : List Use → S → List String
  taken [] s = []
  taken (Use.acquires ws now ∷ us) s =
      let (r, s') = acquire ws now s in
      let rest = taken us s' in elim r [ ok w ↦ w ∷ rest | err _ ↦ rest ]
  taken (Use.releases w now ∷ us) s = taken us (release w now s)
