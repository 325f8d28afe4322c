-- ===== src/Xrpl/Memos.antt =====
-- `extract_from_xrpl_memo` and `extract_hex_xrpl_memo` of relayer_base/src/utils.rs. The hex library
-- enters by `Hex`, whose `decode` is followed by `String::from_utf8`.
use Prim.Native.Char.{code}
use axelar_relayer.Base.{
  ℕ, ◌+◌, Bool, true, false, ◌&&◌, leb, ◌==◌, String, concat, Option, none, some, List, find_first,
  unwrap_or, if◌then◌else◌, Result, ok, err, and_then,
}

-- The fields of `xrpl_api`'s memo that are read.
pub record Memo : Type 0 where
  pub memo_type : Option String
  pub memo_data : Option String

pub record Hex : Type 0 where
  pub encode : String → String
  pub decode : String → Result String String

abbrev lower : ℕ → ℕ
lower n = if leb 65 n && leb n 90 then n + 32 else n

-- Equality of the two texts in lower case. Only the ASCII letters are lowered: the text that the
-- code compares with is hexadecimal, and no other letter is one of its digits in lower case.
unfoldable pub same_lowercase : String → String → Bool
same_lowercase String.[] String.[] = true
same_lowercase String.[] (String.◌∷◌ d t) = false
same_lowercase (String.◌∷◌ c s) String.[] = false
same_lowercase (String.◌∷◌ c s) (String.◌∷◌ d t) =
    (lower (code c) == lower (code d)) && same_lowercase s t

unfoldable pub extract_from_xrpl_memo : Hex → Option (List Memo) → String → Result String String
extract_from_xrpl_memo hex none memo_type = err "No memos"
extract_from_xrpl_memo hex (some memos) memo_type =
    elim (find_first (λ m. same_lowercase (unwrap_or m.memo_type "") (hex.encode memo_type))
      memos) [
        | some memo ↦ elim memo.memo_data [ none ↦ err "memo_data is missing" | some d ↦ ok d ]
        | none ↦ err (concat "No memo with type: " memo_type)
      ]

unfoldable pub extract_hex_xrpl_memo : Hex → Option (List Memo) → String → Result String String
extract_hex_xrpl_memo hex memos memo_type =
    and_then (extract_from_xrpl_memo hex memos memo_type) hex.decode

-- the same but for the text of an error
unfoldable pub extract_and_decode_memo : Hex → Option (List Memo) → String → Result String String
extract_and_decode_memo hex memos memo_type =
    and_then (extract_from_xrpl_memo hex memos memo_type) hex.decode
