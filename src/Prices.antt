-- ===== src/Prices.antt =====
-- `convert_token_amount_to_drops` of relayer_base/src/utils.rs, with the configuration's tokens of
-- relayer_base/src/config.rs and `get_price` of relayer_base/src/price_view.rs. `D` is the type of
-- the decimals library, `F` that of floats.
use axelar_relayer.Base.Dict.{lookup}
use axelar_relayer.Base.Texts.{split_once}
use axelar_relayer.Base.{
  ℕ, String, str_eq, concat, if◌then◌else◌, Option, none, some, List, find_first, Result, ok, err,
  map_err, Exec, ◌>>=◌, panic, pure, raise, lift, call, attempt, [],
}

pub record TokenConfig : Type 0 where
  pub id : String
  pub symbol : String
  pub decimals : ℕ

pub record Config (F : Type 0) : Type 0 where
  pub deployed_tokens : List TokenConfig
  pub demo_tokens_rate : List (String × F)

-- `checked_mul` has no product on an overflow, where `*` panics; `checked_div` has no quotient on an
-- overflow or a division by zero, where `/` panics; `from_i128` has none where the conversion panics;
-- `trunc` and `round` are the texts of the truncated and of the rounded number.
pub record Decimals (D F : Type 0) : Type 0 where
  pub one : D
  pub from_i32 : ℕ → D
  pub from_i128 : ℕ → Option D
  pub from_f64 : F → Option D
  pub from_scientific : String → Result D String
  pub from_str : String → Result D String
  pub checked_mul : D → D → Option D
  pub checked_div : D → D → Option D
  pub trunc : D → String
  pub round : D → String
  pub rate_text : F → String

pub data PriceCall : Type 0 where
  get_price : String → PriceCall

module _ {F : Type 0} (config : Config F) where
  unfoldable pub get_token_config : String → Option TokenConfig
  get_token_config token_id = find_first (λ t. str_eq t.id token_id) config.deployed_tokens

  unfoldable pub get_token_symbol : String → Option String
  unfolding get_token_config
  get_token_symbol token_id = elim (get_token_config token_id) [
    | none ↦ none
    | some t ↦ some t.symbol
  ]

  unfoldable pub get_token_by_symbol : String → Option TokenConfig
  get_token_by_symbol symbol = find_first (λ t. str_eq t.symbol symbol) config.deployed_tokens

  unfoldable pub get_token_decimals : String → Option ℕ
  unfolding get_token_config
  get_token_decimals token_id = elim (get_token_config token_id) [
    | none ↦ none
    | some t ↦ some t.decimals
  ]

abbrev or_text : {A : Type 0} → String → Option A → Result A String
or_text m none = err m
or_text m (some a) = ok a

-- a value that the code panics without
abbrev pub or_panic : {C E A : Type 0} → Option A → Exec C E A
or_panic none = (panic, [])
or_panic (some a) = pure a

module _ {D F : Type 0} (d : Decimals D F) (price : String → Result (Option D) String) where
  unfoldable pub get_price_of : String → Exec PriceCall String D
  unfolding split_once
  get_price_of pair = elim (split_once pair) [
    | none ↦ raise "Invalid pair"
    | some (symbol_a, symbol_b) ↦ if str_eq symbol_a symbol_b then pure d.one else (do
      maybe_price ← call (get_price pair) (map_err (concat "Failed to get price: ") (price pair))
      lift (or_text "Price not found" maybe_price))
  ]

module _ {D F : Type 0} (config : Config F) (d : Decimals D F)
    (price : String → Result (Option D) String) where
  -- the rate of a demo token in place of a price
  unfoldable pub demo_rate : String → Result D String → Result D String
  demo_rate token_id (ok p) = ok p
  demo_rate token_id (err db_err) = elim (lookup token_id config.demo_tokens_rate) [
    | none ↦ err db_err
    | some rate ↦
        or_text
          (concat "Failed to convert demo rate "
            (concat (d.rate_text rate) (concat " for token " (concat token_id " into Decimal"))))
          (d.from_f64 rate)
  ]

  unfoldable pub convert_token_amount_to_drops : D → String → Exec PriceCall String String
  unfolding get_token_symbol get_price_of demo_rate
  convert_token_amount_to_drops amount token_id = do
    token_symbol ← lift (
        or_text (concat "Token id " (concat token_id " not found in deployed tokens"))
          (get_token_symbol config token_id))
    answer ← attempt (get_price_of d price (concat token_symbol "/XRP"))
    p ← lift (demo_rate token_id answer)
    xrp ← or_panic (d.checked_mul amount p)
    drops ← or_panic (d.checked_mul xrp (d.from_i32 1000000))
    pure (d.trunc drops)
