-- ===== src/Queue/Buffer.antt =====
-- The publisher's buffer of relayer_base/src/queue.rs: a bounded channel with one receiver, the
-- task that `BufferProcessor::run` starts. Producers and that task interleave as steps.
pub mod Conservation
pub mod Overflow
use axelar_relayer.Base.{ℕ, ◌<◌, ◌≡◌, ◌≢◌, Bool, true, false, List, [], ◌∷◌, ◌++◌, length, ◌⊎◌}

-- Where the task stands: in its `select!`, in `publish_item`, in the `send` that buffers a refused
-- item again, behind the `select!`, or behind the loop.
pub data Phase (I : Type 0) : Type 0 where
  waiting : Phase I
  publishing rebuffering : I → Phase I
  checking stopped : Phase I

-- `sent` is the history of what producers put in, `published` of what the broker confirmed.
pub record State (I : Type 0) : Type 0 where
  pub phase : Phase I
  pub buffer : List I
  pub published : List I
  pub sent : List I
  pub shutdown : Bool
  pub cancelled : Bool

abbrev pub state : {I : Type 0} → Phase I → List I → List I → List I → Bool → Bool → State I
state f b p s d c = record {
  phase = f;
  buffer = b;
  published = p;
  sent = s;
  shutdown = d;
  cancelled = c;
}

-- `send` waits while the channel holds `cap` items; the source's `cap` is `buffer_size`.
pub data Step {I : Type 0} (cap : ℕ) : State I → State I → Type 0 where
  produce :
      (x : I) (f : Phase I) (b p s : List I) (d c : Bool)
      → f ≢ stopped
      → length b < cap
      → Step cap (state f b p s d c) (state f (b ++ x ∷ []) p (s ++ x ∷ []) d c)
  receive :
      (x : I) (b p s : List I) (d c : Bool)
      → Step cap (state waiting (x ∷ b) p s d c) (state (publishing x) b p s d c)
  confirm :
      (x : I) (b p s : List I) (d c : Bool)
      → Step cap (state (publishing x) b p s d c) (state checking b (p ++ x ∷ []) s d c)
  refuse :
      (x : I) (b p s : List I) (d c : Bool)
      → Step cap (state (publishing x) b p s d c) (state (rebuffering x) b p s d c)
  rebuffer :
      (x : I) (b p s : List I) (d c : Bool)
      → length b < cap
      → Step cap (state (rebuffering x) b p s d c) (state checking (b ++ x ∷ []) p s d c)
  -- the shutdown signal is set, and the buffer is empty
  stop :
      (p s : List I) (c : Bool)
      → Step cap (state checking [] p s true c) (state stopped [] p s true c)
  -- it is not set, or the buffer holds an item
  resume :
      (b p s : List I) (d c : Bool)
      → (d ≡ false) ⊎ (b ≢ [])
      → Step cap (state checking b p s d c) (state waiting b p s d c)
  shut_down :
      (f : Phase I) (b p s : List I) (d c : Bool)
      → Step cap (state f b p s d c) (state f b p s true c)
  -- the cancellation token is looked at in the `select!` alone
  cancel :
      (b p s : List I) (d c : Bool)
      → Step cap (state waiting b p s d c) (state stopped b p s d true)

pub data Reach {I : Type 0} (cap : ℕ) (s : State I) : State I → Type 0 where
  here : Reach cap s s
  next : {t u : State I} → Reach cap s t → Step cap t u → Reach cap s u

abbrev pub init : {I : Type 0} → State I
init = state waiting [] [] [] false false
