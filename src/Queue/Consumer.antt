-- ===== src/Queue/Consumer.antt =====
-- What both consumers of relayer_base (ingestor.rs and includer.rs) do with a delivery once their
-- worker is done with it.
use axelar_relayer.Base.{
  refl, [], ◌≡◌, ◌≢◌, Bool, true, false, String, arith, call, log_error, Exec, calls, panic, is_ok,
  count_if, if◌then◌else◌,
}
use axelar_relayer.Queue.{Delivery, Codec, Answers, AmqpCall, ack, republish}
use axelar_relayer.Queue.Republish.{is_settle, republish_settles_once}

-- How the worker ended: with `Ok`, with `IrrelevantTask`, with another error, or by a panic, which
-- ends the spawned task.
pub data Verdict : Type 0 where
  handled irrelevant failed panicked : Verdict

abbrev pub is_handled : Verdict → Bool
is_handled Verdict.handled = true
is_handled _ = false

module _ {Tx D V : Type 0} (c : Codec Tx D V) (a : Answers V) (d : Delivery D V) where
  -- Errors of the broker are only logged.
  unfoldable pub settle : Verdict → Exec (AmqpCall Tx D V) String (Unit {0})
  settle Verdict.handled = log_error (call ack a.ack)
  settle Verdict.irrelevant = log_error (republish c a d true)
  settle Verdict.failed = log_error (republish c a d false)
  settle Verdict.panicked = (panic, [])

  -- A worker that did not panic leaves a delivery of a queue item settled exactly once; one of
  -- anything else is settled only if the worker handled it.
  pub settle_once :
      (v : Verdict)
      → v ≢ Verdict.panicked
      → count_if is_settle (calls (settle v))
        ≡ (if is_handled v then 1 else if is_ok (c.from_slice d.data') then 1 else 0)
  unfolding settle
  settle_once Verdict.handled _ = ground arith
  settle_once Verdict.irrelevant _ = ground (arith, republish_settles_once c a d true)
  settle_once Verdict.failed _ = ground (arith, republish_settles_once c a d false)
  settle_once Verdict.panicked n = absurd (n refl)

  pub settle_panicked : calls (settle Verdict.panicked) ≡ []
  unfolding settle
  settle_panicked = refl
