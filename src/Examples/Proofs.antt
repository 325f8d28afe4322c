-- ===== src/Examples/Proofs.antt =====
-- The theorems on the proof retrier, on one message below its limit and one past it.
use axelar_relayer.Base.{
  zero, suc, ◌≤◌, arith, false, true, ℕ, ◌≡◌, refl, false, some, none, Bool, List, [], ◌∷◌, ok, err,
  calls, outcome, is_done, String,
}
use axelar_relayer.Base.Texts.{parse_i64, magnitude, first_part, second_part}
use axelar_relayer.Queue.{QueueItem, Delivery, Codec}
use axelar_relayer.Retrier.{PayloadCacheValue, Env, run}
use axelar_relayer.Base.Int.{pos}
use axelar_relayer.Gmp.Errors.{BroadcasterError}
use axelar_relayer.Includer.{BroadcastResult}
use axelar_relayer.Includer
use axelar_relayer.Retrier.Cycle.{cycle, asked_nine_times}
use axelar_relayer.Retrier.Settling.{undecodable_ends_run}
use axelar_relayer.Examples.Fixtures.{Item, codec, broker, message, gateway_task}

abbrev found : PayloadCacheValue
found = record { message = message; payload = "p" }

-- every message has failed as often as the text says
abbrev env : String → Env
env failures = record {
  failures = λ k. ok (some failures);
  cross_chain_id = λ s m. ok "axelar_0x01";
  get_payload = λ i. ok (some "json");
  from_str = λ t. ok found;
  uuid = "u";
  now = "2025-01-01T00:00:00Z";
}

abbrev retry : Delivery Item ℕ
retry = record {
  data' = QueueItem.retry_construct_proof "axelar_0x01";
  properties = record { headers = none; delivery_mode = some 2 };
}

-- the items as they are, but for transactions, which cannot be read
abbrev picky : Codec String Item ℕ
picky = record codec {
  from_slice = λ d. elim d [
    | QueueItem.transaction t ↦ err "bad"
    | QueueItem.task t ↦ ok (QueueItem.task t)
    | QueueItem.retry_construct_proof i ↦ ok (QueueItem.retry_construct_proof i)
  ];
}

abbrev bad : Delivery Item ℕ
bad = record retry { data' = QueueItem.transaction "tx" }

undecodable_ends_run_example :
    (calls (run (env "9") picky broker (bad ∷ retry ∷ [])) ≡ calls (run (env "9") picky broker []))
    × (is_done (outcome (run (env "9") picky broker (bad ∷ retry ∷ []))) ≡ false)
unfolding run
undecodable_ends_run_example =
    undecodable_ends_run (env "9") picky broker [] (retry ∷ []) bad refl refl

-- a chain whose prover transaction fails, and a Redis that prints the numbers up to ten
abbrev failing : BroadcastResult String
failing = record {
  transaction = "tx";
  tx_hash = "h";
  status = err (BroadcasterError.generic_error "e");
  message_id = some "0x01";
  source_chain = some "axelar";
}

abbrev chain : Includer.Env String String
chain = record {
  prover_message = λ b. ok failing;
  refund = λ b. ok "h";
  execute_message = λ t. ok failing;
  refund_message = λ t. ok "h";
  cannot_execute = λ m s. ok tt;
  post = λ es. ok tt;
  incr = λ k. ok tt;
  expire = λ k. ok tt;
  clear = λ k. ok tt;
  cross_chain_id = λ s m. ok "axelar_0x01";
  decode = λ d. ok "blob";
  is_refund_manager_managed = true;
  refund_processed = λ t i. ok false;
  wallet_lock = ok "wallet";
  refund_tx = λ r a i w. ok none;
  release = λ w. ok tt;
}

show : ℕ → String
show zero = "0"
show (suc zero) = "1"
show (suc (suc zero)) = "2"
show (suc (suc (suc zero))) = "3"
show (suc (suc (suc (suc zero)))) = "4"
show (suc (suc (suc (suc (suc zero))))) = "5"
show (suc (suc (suc (suc (suc (suc zero)))))) = "6"
show (suc (suc (suc (suc (suc (suc (suc zero))))))) = "7"
show (suc (suc (suc (suc (suc (suc (suc (suc zero)))))))) = "8"
show (suc (suc (suc (suc (suc (suc (suc (suc (suc zero))))))))) = "9"
show (suc (suc (suc (suc (suc (suc (suc (suc (suc (suc zero)))))))))) = "10"
show _ = "11"

shown : (n : ℕ) → n ≤ 11 → parse_i64 (show n) ≡ some (pos n)
unfolding show parse_i64 magnitude
shown zero h = refl
shown (suc zero) h = refl
shown (suc (suc zero)) h = refl
shown (suc (suc (suc zero))) h = refl
shown (suc (suc (suc (suc zero)))) h = refl
shown (suc (suc (suc (suc (suc zero))))) h = refl
shown (suc (suc (suc (suc (suc (suc zero)))))) h = refl
shown (suc (suc (suc (suc (suc (suc (suc zero))))))) h = refl
shown (suc (suc (suc (suc (suc (suc (suc (suc zero)))))))) h = refl
shown (suc (suc (suc (suc (suc (suc (suc (suc (suc zero))))))))) h = refl
shown (suc (suc (suc (suc (suc (suc (suc (suc (suc (suc zero)))))))))) h = refl
shown (suc (suc (suc (suc (suc (suc (suc (suc (suc (suc (suc zero))))))))))) h = refl
shown (suc (suc (suc (suc (suc (suc (suc (suc (suc (suc (suc (suc n)))))))))))) h =
    absurd (omega (arith, h))

-- twelve failures, of which the tenth is counted after the retrier has read
abbrev failures : List Bool
failures =
    false ∷ true ∷ false ∷ false ∷ false ∷ false ∷ false ∷ false ∷ false ∷ true ∷ false ∷ false ∷ []

asked_nine_times_example :
    cycle chain (env "0") show gateway_task codec broker "failed_proof:axelar_0x01" failures 0
    ≡ (10, true)
unfolding first_part second_part
asked_nine_times_example =
    asked_nine_times chain (env "0") show gateway_task codec broker "blob" "axelar_0x01" "0x01"
      "axelar" "0x01" "json" failing found (QueueItem.retry_construct_proof "axelar_0x01") shown
      refl refl refl refl refl refl refl refl refl refl refl refl refl failures
