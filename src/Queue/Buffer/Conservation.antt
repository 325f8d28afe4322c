-- ===== src/Queue/Buffer/Conservation.antt =====
-- The buffer of relayer_base/src/queue.rs neither loses nor doubles an item.
use mathlib.Core.List.{Perm, append_assoc, append-nil}
use mathlib.Core.List.Perm
use mathlib.Core.List.{perm_append_comm}
use axelar_relayer.Base.{
  ℕ, ◌≤◌, ◌≡◌, refl, false, List, [], ◌∷◌, ◌++◌, length, length-append, arith,
}
use axelar_relayer.Queue.Buffer.{
  Phase, publishing, rebuffering, stopped, State, Step, produce, receive, confirm, refuse, rebuffer,
  stop, resume, shut_down, cancel, Reach, here, next, init,
}

-- The item that the task has taken out and not settled.
abbrev pub in_flight : {I : Type 0} → Phase I → List I
in_flight (publishing x) = x ∷ []
in_flight (rebuffering x) = x ∷ []
in_flight _ = []

abbrev pub Conserved : {I : Type 0} → State I → Type 0
Conserved s = Perm s.sent (s.published ++ (in_flight s.phase ++ s.buffer))

module _ {I : Type 0} where
  regroup : (p f b : List I) (x : I) → (p ++ (f ++ b)) ++ x ∷ [] ≡ p ++ (f ++ (b ++ x ∷ []))
  regroup p f b x = simp append_assoc

  Step-Conserved : {cap : ℕ} {s t : State I} → Step cap s t → Conserved s → Conserved t
  Step-Conserved (produce x f b p s d c _ _) h =
      rw (← regroup p (in_flight f) b x) (Perm.append_right (x ∷ []) h)
  Step-Conserved (receive x b p s d c) h = h
  Step-Conserved (confirm x b p s d c) h = rw append_assoc h
  Step-Conserved (refuse x b p s d c) h = h
  Step-Conserved (rebuffer x b p s d c _) h =
      Perm.trans h (Perm.append_left p (perm_append_comm (x ∷ []) b))
  Step-Conserved (stop p s c) h = h
  Step-Conserved (resume b p s d c _) h = h
  Step-Conserved (shut_down f b p s d c) h = h
  Step-Conserved (cancel b p s d c) h = h

  -- What the steps keep beside the items: the bound, and what a stop means.
  record IsOrderly (cap : ℕ) (s : State I) : Type 0 where
    bounded : length s.buffer ≤ cap
    emptied : s.phase ≡ stopped → s.cancelled ≡ false → s.buffer ≡ []

  Step-IsOrderly : {cap : ℕ} {s t : State I} → Step cap s t → IsOrderly cap s → IsOrderly cap t
  Step-IsOrderly (produce x f b p s d c running fits) h = record {
    bounded = omega (arith, length-append {0} b (x ∷ []));
    emptied = λ q _. absurd (running q);
  }
  Step-IsOrderly (rebuffer x b p s d c fits) h = record {
    bounded = omega (arith, length-append {0} b (x ∷ []));
    emptied = λ q. cc;
  }
  Step-IsOrderly (stop p s c) h = record { bounded = h.bounded; emptied = λ _ _. refl }
  Step-IsOrderly (cancel b p s d c) h = record { bounded = h.bounded; emptied = λ _ q. cc }
  Step-IsOrderly (shut_down f b p s d c) h = record { bounded = h.bounded; emptied = h.emptied }
  Step-IsOrderly (receive x b p s d c) h = record {
    bounded = omega (arith, h.bounded);
    emptied = λ q. cc;
  }
  Step-IsOrderly (confirm x b p s d c) h = record { bounded = h.bounded; emptied = λ q. cc }
  Step-IsOrderly (refuse x b p s d c) h = record { bounded = h.bounded; emptied = λ q. cc }
  Step-IsOrderly (resume b p s d c _) h = record { bounded = h.bounded; emptied = λ q. cc }

  Reach-Conserved : {cap : ℕ} {s : State I} → Reach cap init s → Conserved s
  Reach-Conserved here = Perm.refl []
  Reach-Conserved (next r st) = Step-Conserved st (Reach-Conserved r)

  Reach-IsOrderly : {cap : ℕ} {s : State I} → Reach cap init s → IsOrderly cap s
  Reach-IsOrderly here = record { bounded = omega arith; emptied = λ q. cc }
  Reach-IsOrderly (next r st) = Step-IsOrderly st (Reach-IsOrderly r)

  nothing_held :
      (f : Phase I) (s p b : List I)
      → f ≡ stopped
      → b ≡ []
      → Perm s (p ++ (in_flight f ++ b))
      → Perm s p
  nothing_held f s p b e q h = rw (e, q, append-nil) at h

  -- Whatever the producers, the broker and the shutdown do, the items that were put in are those
  -- that the broker confirmed, the one that the task holds and those in the buffer, each as often;
  -- and the buffer never holds more than its capacity.
  pub conservation :
      {cap : ℕ} {s : State I}
      → Reach cap init s
      → Perm s.sent (s.published ++ (in_flight s.phase ++ s.buffer)) × (length s.buffer ≤ cap)
  conservation r = (Reach-Conserved r, (Reach-IsOrderly r).bounded)

  -- When the task has stopped and was not cancelled, the broker has confirmed every item.
  pub graceful_stop :
      {cap : ℕ} {s : State I}
      → Reach cap init s
      → s.phase ≡ stopped
      → s.cancelled ≡ false
      → Perm s.sent s.published
  graceful_stop {s = s} r q k =
      nothing_held s.phase s.sent s.published s.buffer q ((Reach-IsOrderly r).emptied q k)
        (Reach-Conserved r)
