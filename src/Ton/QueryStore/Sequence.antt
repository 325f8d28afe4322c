-- ===== src/Ton/QueryStore/Sequence.antt =====
-- The ids that ton/src/high_load_query_id_db_wrapper.rs hands out to one wallet.
use axelar_relayer.Base.{
  not, ◌||◌, leb, ℕ, ◌*◌, ◌<◌, ◌≤◌, ◌≡◌, Bool, true, false, String, some, List, arith, Result, ok,
  is_ok, Result-cases, Option-cases, Bool-cases, ◌∙◌, ◌&&◌, inl, inr, [], ◌∷◌, str_eq, str_eq_iff,
  str_eq_refl,
}
use axelar_relayer.Base.Dict.{lookup, lookup-insert}
use axelar_relayer.Base.Int.{pos, as_i32, as_i32-small, as_u32-pos}
use axelar_relayer.Ton.QueryId.{HighLoadQueryId, query_id, IsValid, from_shift_and_bitnumber}
use axelar_relayer.Ton.QueryId
use axelar_relayer.Ton.QueryId.Order.{next-lt}
use axelar_relayer.Ton.QueryStore.{
  Row, Table, WrapperError, get_query_id, update_query_id, upsert_query_id, choose, store, next,
  plus_seconds, NextCall, issued,
}

-- The row of a wallet: the id `q`, which expires at `e`.
abbrev pub row_of : HighLoadQueryId → ℕ → Row
row_of q e = record { shift = pos q.shift; bitnumber = pos q.bitnumber; expires_at = e }

pub record Holds (t : Table) (address : String) (q : HighLoadQueryId) (e : ℕ) : Type 0 where
  pub valid : IsValid q
  pub row : lookup address t ≡ some (row_of q e)

choose_live :
    (q q' : HighLoadQueryId)
    → IsValid q
    → choose (pos q.shift, pos q.bitnumber) ≡ ok q'
    → QueryId.next q ≡ ok q'
unfolding choose from_shift_and_bitnumber
choose_live q q' v e =
    ground (arith, as_u32-pos q.shift (omega arith), as_u32-pos q.bitnumber (omega arith))

module _ (now timeout : ℕ) (t : Table) (address : String) where
  -- what `store` leaves in the wallet's row
  pub store-row :
      (q : HighLoadQueryId) (r : Row)
      → IsValid q
      → 0 < query_id q
      → lookup address t ≡ some r
      → lookup address (store now t address timeout q) ≡ some (row_of q r.expires_at)
  unfolding store update_query_id
  store-row q r v p h =
      rw (as_i32-small q.shift (omega arith), as_i32-small q.bitnumber (omega arith))
        (ground
          (arith, lookup-insert address address (row_of q r.expires_at) t, str_eq_refl address))

  pub get_live :
      (q : HighLoadQueryId) (e : ℕ)
      → Holds t address q e
      → now ≤ e
      → get_query_id now t address ≡ (pos q.shift, pos q.bitnumber)
  unfolding get_query_id
  get_live q e h live = rw h.row (ground arith)

  next-ok :
      (q' : HighLoadQueryId)
      → (next true true now t address timeout).0 ≡ ok q'
      → (choose (get_query_id now t address) ≡ ok q')
        × ((next true true now t address timeout).1 ≡ store now t address timeout q')
  unfolding next
  next-ok q' p = (ground arith, ground arith)

  -- While the row of a wallet is live, a call of `next` that succeeds returns a valid id with a
  -- greater number than the last one, and stores it under the same expiry.
  pub next_increases :
      (q q' : HighLoadQueryId) (e : ℕ)
      → Holds t address q e
      → now ≤ e
      → (next true true now t address timeout).0 ≡ ok q'
      → (query_id q < query_id q') × Holds (next true true now t address timeout).1 address q' e
  next_increases q q' e h live p =
      let (chosen, stored) = next-ok q' p in
      let chosen' = rw (get_live q e h live) at chosen in
      let (v, lt, _) = next-lt q q' h.valid (choose_live q q' h.valid chosen') in
      (
        lt,
        rw stored
            (record { valid = v; row = store-row q' (row_of q e) v (omega (arith, lt)) h.row }),
      )

  next-err :
      (read written : Bool)
      → is_ok (next read written now t address timeout).0 ≡ false
      → (next read written now t address timeout).1 ≡ t
  unfolding next
  next-err read written h = ground arith

  ok_answered :
      (read written : Bool) (q : HighLoadQueryId)
      → (next read written now t address timeout).0 ≡ ok q
      → (read ≡ true) × (written ≡ true)
  unfolding next
  ok_answered read written q h = (ground arith, ground arith)

  store-other :
      (q : HighLoadQueryId) (other : String)
      → str_eq address other ≡ false
      → lookup other (store now t address timeout q) ≡ lookup other t
  unfolding store update_query_id upsert_query_id
  store-other q other h =
      let new : Row = record {
        shift = as_i32 q.shift;
        bitnumber = as_i32 q.bitnumber;
        expires_at = plus_seconds now (as_i32 (timeout * 3));
      } in
      elim (Option-cases (lookup address t)) [
        | inl e ↦ ground (arith, e, lookup-insert address other new t)
        | inr (r, e) ↦ ground (
          arith,
          e,
          lookup-insert address other new t,
          lookup-insert address other
              (record r { shift = as_i32 q.shift; bitnumber = as_i32 q.bitnumber }) t,
        )
      ]

  -- a call for one wallet leaves the rows of the others
  next-other :
      (read written : Bool) (other : String)
      → str_eq address other ≡ false
      → lookup other (next read written now t address timeout).1 ≡ lookup other t
  unfolding next
  next-other read written other h = elim (Result-cases (choose (get_query_id now t address))) [
    | inl (q, e) ↦ ground (arith, e, store-other q other h)
    | inr (x, e) ↦ ground (arith, e)
  ]

-- The numbers rise from each to the next, the first above `lo`.
abbrev pub Rises : ℕ → List HighLoadQueryId → Type 0
Rises lo [] = Unit
Rises lo (q ∷ qs) = (lo < query_id q) × Rises (query_id q) qs

-- The calls for the wallet are not later than `e`.
abbrev pub CalledBy : String → ℕ → List NextCall → Type 0
CalledBy address e [] = Unit
CalledBy address e (k ∷ ks) =
    ((not (str_eq k.address address) || leb k.now e) ≡ true) × CalledBy address e ks

abbrev pub answer : NextCall → Table → Result HighLoadQueryId WrapperError
answer k t = (next k.read k.written k.now t k.address k.timeout).0

abbrev pub table : NextCall → Table → Table
table k t = (next k.read k.written k.now t k.address k.timeout).1

own_call :
    (address : String) (k : NextCall) (t : Table) (q q' : HighLoadQueryId) (e : ℕ)
    → Holds t address q e
    → str_eq k.address address ≡ true
    → k.now ≤ e
    → answer k t ≡ ok q'
    → (query_id q < query_id q') × Holds (table k t) address q' e
own_call address k t q q' e h same live p =
    let here : k.address ≡ address = (str_eq_iff k.address address).0 same in
    let (r, w) = ok_answered k.now k.timeout t k.address k.read k.written q' p in
    let p' : (next true true k.now t address k.timeout).0 ≡ ok q' = rw (r, w, here) at p in
    rw (r, w, here) (next_increases k.now k.timeout t address q q' e h live p')

module _ (address : String) (k : NextCall) (ks : List NextCall) (t : Table) where
  issued-skip :
      (is_ok (answer k t) && str_eq k.address address) ≡ false
      → issued address (k ∷ ks) t ≡ issued address ks (table k t)
  unfolding issued
  issued-skip h = ground arith

  pub issued-own :
      (q : HighLoadQueryId)
      → answer k t ≡ ok q
      → str_eq k.address address ≡ true
      → issued address (k ∷ ks) t ≡ q ∷ issued address ks (table k t)
  unfolding issued
  issued-own q p h = ground arith

-- Until the row of a wallet expires, the numbers of the ids that it is given rise strictly, so none
-- is given twice: whatever the calls, their times up to the expiry, the answers of the database and
-- the calls of other wallets between them.
pub issued-Rises :
    (address : String) (ks : List NextCall) (t : Table) (q : HighLoadQueryId) (e : ℕ)
    → Holds t address q e
    → CalledBy address e ks
    → Rises (query_id q) (issued address ks t)
issued-Rises address [] t q e h c = unfold issued in tt
issued-Rises address (k ∷ ks) t q e h c = elim (Result-cases (answer k t)) [
  | inr (x, p) ↦ rw (issued-skip address k ks t (rw p)) (
      rw (next-err k.now k.timeout t k.address k.read k.written (rw p))
        (issued-Rises address ks t q e h c.1))
  | inl (q', p) ↦ elim (Bool-cases (str_eq k.address address)) [
    | inl same ↦
        let (lt, h') = own_call address k t q q' e h same (ground (arith, c.0, same)) p in
        rw (issued-own address k ks t q' p same)
          (lt, issued-Rises address ks (table k t) q' e h' c.1)
    | inr differs ↦
        let left = next-other k.now k.timeout t k.address k.read k.written address differs in
        rw (issued-skip address k ks t (rw (p, differs))) (
          issued-Rises address ks (table k t) q e (record { valid = h.valid; row = left ∙ h.row })
            c.1)
  ]
]
