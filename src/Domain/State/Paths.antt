-- ===== src/Domain/State/Paths.antt =====
-- What the table of internal/domain/state.go allows over whole lives of a job.
use mathlib.Core.List.{Memᴰ}
use nomadposting.Prelude.{◌≡◌, sym, ◌↔◌, ◌⊎◌, inl, inr, Bool, true, false, List, [], ◌∷◌, arith}
use nomadposting.Domain.State.{
  JobState, draft, approved, routing, publishing, complete, partial, failed, unknown, cancelled,
  can_transition,
}

-- A life of a job: the states that it entered, newest first.
pub data Life (start : JobState) : List JobState → JobState → Type 0 where
  born : Life start [] start
  move :
      {entered : List JobState} {s : JobState} (t : JobState)
      → Life start entered s
      → can_transition s t ≡ true
      → Life start (t ∷ entered) t

abbrev pub is_terminal : JobState → Bool
is_terminal complete = true
is_terminal cancelled = true
is_terminal _ = false

-- From routing on, the network is involved.
abbrev pub is_dispatched : JobState → Bool
is_dispatched draft = false
is_dispatched approved = false
is_dispatched cancelled = false
is_dispatched _ = true

-- A state admits no further move exactly when it is COMPLETE or CANCELLED.
pub terminal_iff :
    (s : JobState) → ((t : JobState) → can_transition s t ≡ false) ↔ (is_terminal s ≡ true)
unfolding can_transition
terminal_iff s =
    (λ h. ground (arith, h approved, h routing, h publishing, h complete), λ h t. ground arith)

-- What a move into a dispatched state says of the state that it leaves.
dispatched_move :
    (s t : JobState)
    → can_transition s t ≡ true
    → is_dispatched t ≡ true
    → ((t ≡ routing) × ((s ≡ approved) ⊎ (is_dispatched s ≡ true))) ⊎ (is_dispatched s ≡ true)
unfolding can_transition
dispatched_move s t m d = ground arith

approved_entered :
    {entered : List JobState} {s : JobState}
    → Life draft entered s
    → s ≡ approved
    → Memᴰ approved entered
approved_entered born e = cc
approved_entered (move t life m) e = Memᴰ.head (sym e)

-- A job that began as a DRAFT and is being routed, is published, or has any later state but
-- CANCELLED, was APPROVED and ROUTING before, however often it was retried.
pub dispatch_needs_approval :
    {entered : List JobState} {s : JobState}
    → Life draft entered s
    → is_dispatched s ≡ true
    → Memᴰ approved entered × Memᴰ routing entered
dispatch_needs_approval born d = cc
dispatch_needs_approval (move {s} t life m) d = elim (dispatched_move s t m d) [
  | inl (e, inl a) ↦ (Memᴰ.tail (approved_entered life a), Memᴰ.head (sym e))
  | inl (e, inr b) ↦ (Memᴰ.tail (dispatch_needs_approval life b).0, Memᴰ.head (sym e))
  | inr b ↦ let (a, r) = dispatch_needs_approval life b in (Memᴰ.tail a, Memᴰ.tail r)
]

-- UNKNOWN and COMPLETE are left only for a verdict.
abbrev pub is_settled : JobState → Bool
is_settled unknown = true
is_settled complete = true
is_settled _ = false

unsettled_move :
    (s t : JobState)
    → can_transition s t ≡ true
    → is_settled t ≡ false
    → (t ≡ partial) ⊎ (t ≡ failed) ⊎ (is_settled s ≡ false)
unfolding can_transition
unsettled_move s t m d = ground arith

-- An UNKNOWN job comes back to any state but UNKNOWN or COMPLETE, to PUBLISHING above all, only
-- after it was found to be PARTIAL or FAILED: nothing is resent blindly.
pub resend_needs_verdict :
    {entered : List JobState} {s : JobState}
    → Life unknown entered s
    → is_settled s ≡ false
    → Memᴰ partial entered ⊎ Memᴰ failed entered
resend_needs_verdict born d = cc
resend_needs_verdict (move {s} t life m) d = elim (unsettled_move s t m d) [
  | inl e ↦ inl (Memᴰ.head (sym e))
  | inr (inl e) ↦ inr (Memᴰ.head (sym e))
  | inr (inr b) ↦ elim (resend_needs_verdict life b) [
    | inl p ↦ inl (Memᴰ.tail p)
    | inr f ↦ inr (Memᴰ.tail f)
  ]
]
