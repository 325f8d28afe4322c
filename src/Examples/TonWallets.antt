-- ===== src/Examples/TonWallets.antt =====
-- The theorems on the wallets of TON, at concrete ids, rows and locks.
use axelar_relayer.Base.{
  ℕ, ◌+◌, ◌≡◌, ◌↔◌, refl, arith, Bool, true, false, ltb, if◌then◌else◌, Option, some, none, List,
  [], ◌∷◌, map, is_ok, String, str_eq, str_eq_iff, str_eq_refl, any_of,
}
use axelar_relayer.Base.Dict.{lookup, insert, remove, lookup-insert, lookup-remove}
use axelar_relayer.Ton.QueryId.{HighLoadQueryId, next, has_next, query_id, IsValid}
use axelar_relayer.Ton.QueryId.Order.{has_next_differs}
use axelar_relayer.Ton.QueryStore.{NextCall, Table, issued}
use axelar_relayer.Ton.QueryStore.Sequence.{Rises, Holds, row_of, issued-Rises}
use axelar_relayer.Ton.QueryStore.Reissue.{call_at, reissue}
use axelar_relayer.Ton.Wallets.{Redis, Use, lock, acquire, taken}
use axelar_relayer.Ton.Wallets.Exclusion.{acquired_once}

abbrev q_last : HighLoadQueryId
q_last = record { shift = 8191; bitnumber = 1020 }

q_last-IsValid : IsValid q_last
q_last-IsValid = record { shift_fits = omega arith; bitnumber_fits = omega arith }

abbrev rolls : HighLoadQueryId
rolls = record { shift = 5; bitnumber = 1022 }

abbrev rolled : HighLoadQueryId
rolled = record { shift = 6; bitnumber = 0 }

rolls-IsValid : IsValid rolls
rolls-IsValid = record { shift_fits = omega arith; bitnumber_fits = omega arith }

has_next_differs_example :
    (((has_next q_last ≡ true) × (is_ok (next q_last) ≡ false))
      ↔ ((q_last.shift ≡ 8191) × (q_last.bitnumber ≡ 1020)))
    × (((has_next q_last ≡ false) × (is_ok (next q_last) ≡ true))
        ↔ ((q_last.shift ≡ 8191) × (q_last.bitnumber ≡ 1021)))
has_next_differs_example = has_next_differs q_last q_last-IsValid

abbrev table : Table
table = ("EQ1", row_of rolls 100) ∷ []

abbrev calls_of_two : List NextCall
calls_of_two = call_at "EQ1" 30 90 ∷ call_at "EQ2" 30 200 ∷ call_at "EQ1" 30 95 ∷ []

table-Holds : Holds table "EQ1" rolls 100
unfolding lookup
table-Holds = record { valid = rolls-IsValid; row = refl }

issued-Rises_example : Rises (query_id rolls) (issued "EQ1" calls_of_two table)
issued-Rises_example =
    issued-Rises "EQ1" calls_of_two table rolls 100 table-Holds (refl, (refl, (refl, tt)))

reissue_example :
    map query_id (
      issued "EQ3"
        (call_at "EQ3" 30 1000
          ∷ call_at "EQ3" 30 1090
          ∷ call_at "EQ3" 30 1091
          ∷ call_at "EQ3" 30 1092
          ∷ [])
        table)
    ≡ 0 ∷ 1 ∷ 0 ∷ 1 ∷ []
unfolding lookup
reissue_example = reissue 1000 30 table "EQ3" refl (omega arith) (omega arith)

-- a server that is a map from the keys to their expiry, and never fails
abbrev Server : Type 0
Server = List (String × ℕ)

abbrev live : ℕ → Option ℕ → Bool
live now none = false
live now (some e) = ltb now e

abbrev present : String → ℕ → Server → Bool
present k now s = live now (lookup k s)

abbrev set_nx_ex : String → ℕ → ℕ → Server → Option Bool × Server
set_nx_ex k ex now s =
    if present k now s then (some false, s) else (some true, insert k (now + ex) s)

same_row : (j k : String) (s : Server) → str_eq j k ≡ true → lookup j s ≡ lookup k s
same_row j k s e = rw ((str_eq_iff j k).0 e) refl

set_nx_ex_keeps :
    (k j : String) (ex now later : ℕ) (s : Server)
    → present k later s ≡ true
    → present k later (set_nx_ex j ex now s).1 ≡ true
set_nx_ex_keeps k j ex now later s h =
    ground (arith, lookup-insert j k (now + ex) s, str_eq_iff j k, same_row j k s)

server : Redis Server
server = record {
  set_nx_ex = set_nx_ex;
  del = λ k now s. (some true, remove k s);
  present = present;
  set_new = λ k ex now s h. ground arith;
  set_lasts = λ k ex now later s h t. ground (arith, lookup-insert k k (now + ex) s, str_eq_refl k);
  set_refused = λ k ex now s h. (ground arith, ground arith);
  set_keeps = set_nx_ex_keeps;
  del_removes = λ k now later s b h. rw (lookup-remove k k s, str_eq_refl k) refl;
  del_keeps = λ k j now later s n h. ground (arith, lookup-remove j k s, str_eq_iff j k);
}

-- two users take the two wallets, and a third gets none until one is released
acquired_once_example :
    any_of
      (λ v. str_eq v "EQ1")
      (taken server
        (Use.acquires ("EQ1" ∷ "EQ2" ∷ []) 1
          ∷ Use.acquires ("EQ1" ∷ "EQ2" ∷ []) 2
          ∷ Use.releases "EQ2" 3
          ∷ Use.acquires ("EQ1" ∷ "EQ2" ∷ []) 59
          ∷ [])
        (acquire server ("EQ1" ∷ "EQ2" ∷ []) 0 []).1)
    ≡ false
unfolding acquire lock lookup insert server
acquired_once_example =
    acquired_once server ("EQ1" ∷ "EQ2" ∷ []) 0 [] "EQ1"
      (Use.acquires ("EQ1" ∷ "EQ2" ∷ []) 1
        ∷ Use.acquires ("EQ1" ∷ "EQ2" ∷ []) 2
        ∷ Use.releases "EQ2" 3
        ∷ Use.acquires ("EQ1" ∷ "EQ2" ∷ []) 59
        ∷ [])
      refl (omega arith, (omega arith, (refl, (omega arith, tt))))
