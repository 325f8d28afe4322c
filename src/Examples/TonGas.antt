-- ===== src/Examples/TonGas.antt =====
-- The cost of a trace of two transactions: one of ours, that sends 100 to another account for fees
-- of 7 and 3, and one of another account, that sends 40 back to us.
use axelar_relayer.Base.{◌≡◌, some, List, [], ◌∷◌, String}
use axelar_relayer.Base.Texts.{magnitude}
use axelar_relayer.Ton.Gas.{
  Transaction, TransactionMessage, cost, extract_fwd_fee, extract_msg_value, parse_i128,
}
use axelar_relayer.Ton.Gas.Reference.{cost_lem}

abbrev ours : List String
ours = "EQ1" ∷ "EQ2" ∷ []

abbrev message : String → String → TransactionMessage
message dest value = record { destination = some dest; value = some value; fwd_fee = some "3" }

abbrev trace : List Transaction
trace =
    record { account = "EQ1"; total_fees = 7; out_msgs = message "EQ9" "100" ∷ [] }
    ∷ record { account = "EQ9"; total_fees = 5; out_msgs = message "EQ2" "40" ∷ [] }
    ∷ []

cost_lem_example : cost ours trace ≡ 70
unfolding extract_fwd_fee extract_msg_value parse_i128 magnitude
cost_lem_example = cost_lem ours trace
