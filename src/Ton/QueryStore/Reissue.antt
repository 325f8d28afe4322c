-- ===== src/Ton/QueryStore/Reissue.antt =====
-- When ton/src/high_load_query_id_db_wrapper.rs gives an id out again: the expiry of a row counts
-- from the first id, and later ids do not move it.
use axelar_relayer.Base.{
  ℕ, ◌+◌, ◌*◌, ◌^◌, ◌<◌, ◌≤◌, ◌≡◌, refl, true, String, Option, none, some, [], ◌∷◌, map, arith, ok,
  str_eq_refl, ap,
}
use axelar_relayer.Base.Dict.{lookup, lookup-insert}
use axelar_relayer.Base.Int.{pos, as_u32, as_i32-small}
use axelar_relayer.Ton.QueryId
use axelar_relayer.Ton.QueryId.{
  HighLoadQueryId, query_id, has_next, IsValid, from_shift_and_bitnumber,
}
use axelar_relayer.Ton.QueryStore.{
  Row, Table, NextCall, live_row, get_query_id, upsert_query_id, choose, store, next, issued,
}
use axelar_relayer.Ton.QueryStore.Sequence.{row_of, store-row, get_live, issued-own, table}

abbrev pub first_id : HighLoadQueryId
first_id = record { shift = 0; bitnumber = 0 }

abbrev pub second_id : HighLoadQueryId
second_id = record { shift = 0; bitnumber = 1 }

abbrev pub call_at : String → ℕ → ℕ → NextCall
call_at address timeout now = record {
  read = true;
  written = true;
  now = now;
  address = address;
  timeout = timeout;
}

choose_first : choose (pos 0, pos 0) ≡ ok second_id
unfolding choose from_shift_and_bitnumber QueryId.next QueryId.has_next query_id as_u32
choose_first = refl

second_positive : 0 < query_id second_id
unfolding query_id
second_positive = omega arith

ids_numbered : (query_id first_id ≡ 0) × (query_id second_id ≡ 1)
unfolding query_id
ids_numbered = (refl, refl)

issued_none : (address : String) (t : Table) → issued address [] t ≡ []
unfolding issued
issued_none address t = refl

expired :
    (now e : ℕ) (q : HighLoadQueryId)
    → e < now
    → live_row now (some (row_of q e)) ≡ live_row now none
expired now e q late = ground arith

module _ (now timeout : ℕ) (t : Table) (address : String) where
  -- a wallet without a live row starts at the first id, with a new expiry
  starts_over :
      (o : Option Row)
      → lookup address t ≡ o
      → live_row now o ≡ live_row now none
      → timeout * 3 < 2 ^ 31
      → ((next true true now t address timeout).0 ≡ ok first_id)
        × (lookup address (next true true now t address timeout).1
            ≡ some (row_of first_id (now + timeout * 3)))
  unfolding next choose get_query_id store upsert_query_id from_shift_and_bitnumber query_id
  starts_over o e d small = (
    ground (arith, e, d),
    ground (
      arith,
      e,
      d,
      as_i32-small 0 (omega arith),
      as_i32-small (timeout * 3) small,
      lookup-insert address address (row_of first_id (now + timeout * 3)) t,
      str_eq_refl address,
    ),
  )

  next_by :
      (q : HighLoadQueryId)
      → choose (get_query_id now t address) ≡ ok q
      → next true true now t address timeout ≡ (ok q, store now t address timeout q)
  unfolding next
  next_by q e = ground (arith, e)

  -- a live row at the first id gives the second, under the same expiry
  goes_on :
      (e : ℕ)
      → lookup address t ≡ some (row_of first_id e)
      → now ≤ e
      → ((next true true now t address timeout).0 ≡ ok second_id)
        × (lookup address (next true true now t address timeout).1 ≡ some (row_of second_id e))
  goes_on e row live =
      let valid_first : IsValid first_id = record {
        shift_fits = omega arith;
        bitnumber_fits = omega arith;
      } in
      let valid_second : IsValid second_id = record {
        shift_fits = omega arith;
        bitnumber_fits = omega arith;
      } in
      let read =
        get_live now timeout t address first_id e (record { valid = valid_first; row = row })
          live in
      let done = next_by second_id (rw read choose_first) in
      let stored =
        store-row now timeout t address second_id (row_of first_id e) valid_second second_positive
          row in
      (ap (λ p. p.0) done, rw done stored)

-- For every time and every timeout that is not 0 and whose triple is below 2^31: a new wallet that
-- asks for an id, again at the last second before the expiry of three timeouts, and twice more in
-- the two seconds after it, is given the numbers 0, 1, 0 and 1, when the database answers: the id 1
-- is handed out twice within two seconds.
pub reissue :
    (now timeout : ℕ) (t : Table) (address : String)
    → lookup address t ≡ none
    → 0 < timeout
    → timeout * 3 < 2 ^ 31
    → map query_id (
        issued address
          (call_at address timeout now
            ∷ call_at address timeout (now + timeout * 3)
            ∷ call_at address timeout (now + timeout * 3 + 1)
            ∷ call_at address timeout (now + timeout * 3 + 2)
            ∷ [])
          t)
      ≡ 0 ∷ 1 ∷ 0 ∷ 1 ∷ []
reissue now timeout t address new positive small =
    let e1 : ℕ = now + timeout * 3 in
    let k1 : NextCall = call_at address timeout now in
    let k2 : NextCall = call_at address timeout e1 in
    let k3 : NextCall = call_at address timeout (e1 + 1) in
    let k4 : NextCall = call_at address timeout (e1 + 2) in
    let t1 : Table = table k1 t in
    let t2 : Table = table k2 t1 in
    let t3 : Table = table k3 t2 in
    let same = str_eq_refl address in
    let (a1, r1) = starts_over now timeout t address none new refl small in
    let (a2, r2) = goes_on e1 timeout t1 address e1 r1 (omega arith) in
    let (a3, r3) =
      starts_over (e1 + 1) timeout t2 address (some (row_of second_id e1)) r2
        (expired (e1 + 1) e1 second_id (omega arith)) small in
    let (a4, _) = goes_on (e1 + 2) timeout t3 address (e1 + 1 + timeout * 3) r3 (omega arith) in
    rw (issued-own address k1 (k2 ∷ k3 ∷ k4 ∷ []) t first_id a1 same) (
      rw (issued-own address k2 (k3 ∷ k4 ∷ []) t1 second_id a2 same) (
        rw (issued-own address k3 (k4 ∷ []) t2 first_id a3 same) (
          rw (issued-own address k4 [] t3 second_id a4 same)
            (rw (issued_none address (table k4 t3), ids_numbered.0, ids_numbered.1) refl))))
