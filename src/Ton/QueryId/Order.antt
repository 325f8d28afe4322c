-- ===== src/Ton/QueryId/Order.antt =====
-- The order of the query ids of ton/src/high_load_query_id.rs, and where it ends.
use axelar_relayer.Base.{ℕ, ◌+◌, ◌≡◌, ◌↔◌, ◌<◌, ◌≤◌, true, false, arith, ok, is_ok}
use axelar_relayer.Ton.QueryId.{
  HighLoadQueryId, from_shift_and_bitnumber, next, has_next, query_id, IsValid, max_shift,
  max_bitnumber,
}

-- A shift and a bit number are taken exactly when both are in range.
pub from_iff :
    (s b : ℕ)
    → (is_ok (from_shift_and_bitnumber s b) ≡ true) ↔ ((s ≤ max_shift) × (b ≤ max_bitnumber))
unfolding from_shift_and_bitnumber
from_iff s b = (λ h. (ground arith, ground arith), λ p. ground arith)

-- The next id of a valid one, where there is one, is valid, and its number is greater, by two at
-- most.
pub next-lt :
    (q q' : HighLoadQueryId)
    → IsValid q
    → next q ≡ ok q'
    → IsValid q' × (query_id q < query_id q') × (query_id q' ≤ query_id q + 2)
unfolding next query_id
next-lt q q' v e = (ground arith, ground arith, ground arith)

-- Two valid ids with one number are one id.
pub query_id_injective :
    (q r : HighLoadQueryId) → IsValid q → IsValid r → query_id q ≡ query_id r → q ≡ r
unfolding query_id
query_id_injective q r v w e = ground arith

-- `has_next` and `next` disagree at exactly two valid ids, both of the last shift: the first says
-- that there is a next id where the second fails exactly at the bit number 1020, and that there is
-- none where the second gives one exactly at 1021.
pub has_next_differs :
    (q : HighLoadQueryId)
    → IsValid q
    → (((has_next q ≡ true) × (is_ok (next q) ≡ false)) ↔ ((q.shift ≡ 8191) × (q.bitnumber ≡ 1020)))
      × (((has_next q ≡ false) × (is_ok (next q) ≡ true))
          ↔ ((q.shift ≡ 8191) × (q.bitnumber ≡ 1021)))
unfolding has_next next
has_next_differs q v = (
  (λ p. (ground arith, ground arith), λ p. (ground arith, ground arith)),
  (λ p. (ground arith, ground arith), λ p. (ground arith, ground arith)),
)
