-- ===== src/Ton/Parser/Approvals.antt =====
-- The division of the gas among the approved messages in ton/src/transaction_parser/parser.rs.
use axelar_relayer.Base.{
  ℕ, ◌+◌, ◌^◌, ◌<◌, ◌≡◌, Bool, true, false, String, Option, none, some, List, [], ◌∷◌, any_of, ok,
  Gives,
}
use axelar_relayer.Ton.Conversion.Panics.{HasNoQuotient}
use axelar_relayer.Gmp.Event.{Event}
use axelar_relayer.Ton.Traces.{Trace}
use axelar_relayer.Ton.Gas
use axelar_relayer.Ton.Parser.{MessageMatchingKey, Parser, Kind, Env, GasCreditMap, Parsers}

abbrev pub is_approval : Event → Bool
is_approval (Event.message_approved _) = true
is_approval _ = false

abbrev pub is_approved_kind : Kind → Bool
is_approved_kind Kind.message_approved = true
is_approved_kind _ = false

-- A parser whose event is no approval.
abbrev pub IsPlain : Parser → Type 0
IsPlain p = (id : Option String) → Gives (λ e. is_approval e ≡ false) (p.event id)

abbrev ArePlain : List Parser → Type 0
ArePlain [] = Unit
ArePlain (p ∷ ps) = IsPlain p × ArePlain ps

abbrev IsPlainOption : Option Parser → Type 0
IsPlainOption none = Unit
IsPlainOption (some p) = IsPlain p

abbrev IsPlainMap : GasCreditMap → Type 0
IsPlainMap m = (k : MessageMatchingKey) → IsPlainOption (m k)

-- Only the parser of approvals makes an event of one.
abbrev pub OnlyApproved : {T D F : Type 0} → Env T D F → Type 0
OnlyApproved {T} env =
    ((k : Kind) (tx : T) (p : Parser)
      → is_approved_kind k ≡ false
      → env.parser k tx ≡ ok (some p)
      → IsPlain p)
    × ((x : Trace (List T)) (p : Parser) → env.insufficient_gas x ≡ ok (some p) → IsPlain p)

-- With `n` more approvals at most to come.
abbrev IsCounted : ℕ → Parsers → Type 0
IsCounted n s =
    (s.message_approved_count ≡ 0 → ArePlain s.parsers)
    × ArePlain s.call_contract
    × IsPlainMap s.gas_credit_map
    × (s.message_approved_count + n < 2 ^ 64)

abbrev NoApproval : List Event → Type 0
NoApproval es = any_of is_approval es ≡ false

abbrev IsOther : Event → Type 0
IsOther e = is_approval e ≡ false

module _ {T D F : Type 0} (env : Env T D F) where
  -- the conversion of some amount whose prices are there panics
  abbrev pub Unconverted : Type 0
  Unconverted = HasNoQuotient env.decimals env.price
