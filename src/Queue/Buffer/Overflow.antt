-- ===== src/Queue/Buffer/Overflow.antt =====
-- The buffer of relayer_base/src/queue.rs when a refused item meets a full channel: the task that
-- would make room is the one that waits for it.
use mathlib.Core.List.{append-nil, append_assoc}
use axelar_relayer.Base.{
  ℕ, ◌+◌, ◌<◌, ◌≤◌, ◌≡◌, ◌≢◌, ◌∙◌, sym, refl, Bool, false, List, [], ◌∷◌, ◌++◌, length,
  length-append, arith,
}
use axelar_relayer.Queue.Buffer.{
  Phase, waiting, rebuffering, stopped, State, state, Step, produce, receive, confirm, refuse,
  rebuffer, stop, resume, shut_down, cancel, Reach, here, next, init,
}

module _ {I : Type 0} where
  pub record IsBlocked (cap : ℕ) (x : I) (s : State I) : Type 0 where
    pub held : s.phase ≡ rebuffering x
    pub full : cap ≤ length s.buffer

  Step-IsBlocked :
      {cap : ℕ} (x : I) {s t : State I}
      → Step cap s t
      → IsBlocked cap x s
      → IsBlocked cap x t × (t.buffer ≡ s.buffer) × (t.published ≡ s.published)
  Step-IsBlocked x (produce y f b p s d c _ fits) h = absurd (omega (arith, h.full))
  Step-IsBlocked x (rebuffer y b p s d c fits) h = absurd (omega (arith, h.full))
  Step-IsBlocked x (receive y b p s d c) h = cc h.held
  Step-IsBlocked x (confirm y b p s d c) h = cc h.held
  Step-IsBlocked x (refuse y b p s d c) h = cc h.held
  Step-IsBlocked x (stop p s c) h = cc h.held
  Step-IsBlocked x (resume b p s d c _) h = cc h.held
  Step-IsBlocked x (cancel b p s d c) h = cc h.held
  Step-IsBlocked x (shut_down f b p s d c) h = (record { held = h.held; full = h.full }, refl, refl)

  -- Once a refused item waits for room in a full buffer, it waits for ever: no later step, whether
  -- of a producer, of the broker or of a shutdown, publishes or buffers anything again.
  pub stuck_forever :
      {cap : ℕ} (x : I) {s t : State I}
      → IsBlocked cap x s
      → Reach cap s t
      → IsBlocked cap x t × (t.buffer ≡ s.buffer) × (t.published ≡ s.published)
  stuck_forever x h here = (h, refl, refl)
  stuck_forever x h (next r st) =
      let (g, b, p) = stuck_forever x h r in
      let (g', b', p') = Step-IsBlocked x st g in (g', b' ∙ b, p' ∙ p)

  fill :
      (more : List I) {cap : ℕ} (f : Phase I) (b p s : List I) (d c : Bool)
      → f ≢ stopped
      → length b + length more ≤ cap
      → Reach cap init (state f b p s d c)
      → Reach cap init (state f (b ++ more) p (s ++ more) d c)
  fill [] f b p s d c running fits r = rw (append-nil b, append-nil s) r
  fill (x ∷ more) f b p s d c running fits r =
      let longer = length-append {0} b (x ∷ []) in
      rw (sym (append_assoc b (x ∷ []) more), sym (append_assoc s (x ∷ []) more))
        (fill more f (b ++ x ∷ []) p (s ++ x ∷ []) d c running (ground (arith, longer))
          (next r (produce x f b p s d c running (ground arith))))

  -- A state from which the program never gets on is reached: whatever the item that the broker
  -- refuses and the items that fill the buffer, at every capacity but 0, the refused item may have
  -- to wait for room in the full buffer, and in every state after that it still waits, the buffer is
  -- the same and nothing is published.
  pub stuck_reachable :
      (cap : ℕ) (x : I) (b : List I) (t : State I)
      → 0 < cap
      → length b ≡ cap
      → Reach cap (state (rebuffering x) b [] (x ∷ b) false false) t
      → Reach cap init (state (rebuffering x) b [] (x ∷ b) false false)
        × (t.phase ≡ rebuffering x)
        × (t.buffer ≡ b)
        × (t.published ≡ [])
  stuck_reachable cap x b t room full later =
      let r =
        next
          (next (next here (produce x waiting [] [] [] false false (λ e. cc) room))
            (receive x [] [] (x ∷ []) false false))
          (refuse x [] [] (x ∷ []) false false) in
      let stuck : IsBlocked cap x (state (rebuffering x) b [] (x ∷ b) false false) = record {
        held = refl;
        full = omega (arith, full);
      } in
      let (h, same, none') = stuck_forever x stuck later in
      (
        fill b (rebuffering x) [] [] (x ∷ []) false false (λ e. cc) (ground (arith, full)) r,
        h.held,
        same,
        none',
      )
