-- ===== src/Ton/Conversion.antt =====
-- `convert_jetton_to_native` of ton/src/transaction_parser/common.rs: an amount of a jetton in TON, by
-- the prices of both.
pub mod Panics
use axelar_relayer.Base.Texts.{to_string}
use axelar_relayer.Base.{
  ℕ, String, concat, Option, Result, map_err, Outcome, done, fail, panic, Exec, ◌>>=◌, pure, lift,
}
use axelar_relayer.Prices.{Config, Decimals, PriceCall, get_price_of, or_panic}

pub data GasError : Type 0 where
  conversion_error gas_calculation_error : String → GasError

unfoldable pub gas_error_text : GasError → String
gas_error_text (GasError.conversion_error m) = concat "ConversionError: " m
gas_error_text (GasError.gas_calculation_error m) = concat "GasCalculationError: " m

abbrev pub conversion : String → GasError
conversion e = GasError.conversion_error e

-- a part whose errors are texts
abbrev pub or_conversion : {C A : Type 0} → Exec C String A → Exec C GasError A
or_conversion (done a, t) = (done a, t)
or_conversion (fail e, t) = (fail (conversion e), t)
or_conversion (panic, t) = (panic, t)

module _ {D F : Type 0} (d : Decimals D F) where
  -- `*` and `/` panic where there is no result
  unfoldable pub quotient : D → D → D → Exec PriceCall GasError D
  quotient amount coin_to_usd ton_to_usd = do
    product ← or_panic (d.checked_mul amount coin_to_usd)
    or_panic (d.checked_div product ton_to_usd)

module _ {D F : Type 0} (d : Decimals D F) (price : String → Result (Option D) String)
    (parse_biguint : String → Result ℕ String) where
  unfoldable pub convert_jetton_to_native : String → ℕ → Exec PriceCall GasError ℕ
  unfolding get_price_of quotient to_string
  convert_jetton_to_native minter amount = do
    coin_to_usd ← or_conversion (get_price_of d price (concat minter "/USD"))
    ton_to_usd ← or_conversion (get_price_of d price "TON/USD")
    amount' ←
        lift
          (map_err (λ e. conversion (concat "Invalid amount: " e)) (d.from_str (to_string amount)))
    result ← quotient d amount' coin_to_usd ton_to_usd
    lift (map_err conversion (parse_biguint (d.round result)))
