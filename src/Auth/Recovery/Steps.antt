-- ===== src/Auth/Recovery/Steps.antt =====
-- internal/auth/passkeys.go: what an attempt with a recovery code does to the recorded failures.
use nomadposting.Prelude.{
  ◌<◌, ◌≡◌, refl, ◌⊎◌, inl, inr, List, [], ◌∷◌, ◌++◌, Option, none, some, Option-cases, Str, length,
  ltb, keep_if, arith, Bool-cases,
}
use nomadposting.Clock.{Time}
use nomadposting.Auth.Manager.{
  Request, Reply, status_only, Given, Settings, Manager, with_recovery, now, has_passkeys,
}
use nomadposting.Auth.Sessions.{issue_session}
use nomadposting.Auth.Recovery.{
  is_recent, rotate_recovery_code, valid_recovery_code, allow_recovery_attempt, after_rotation,
  recovery_login,
}

module _ {C D S : Type 0} (g : Given C D S) (c : Settings) where
  -- The time at which an attempt is let through or not, and the time that a failure is recorded with.
  abbrev pub first_time : Manager C D S → Time
  first_time m = (g.tick m.rest).0

  abbrev pub second_time : Manager C D S → Time
  second_time m = (g.tick (g.tick m.rest).1).0

  -- The failures that still count.
  abbrev pub kept_fails : Manager C D S → List Time
  kept_fails m = keep_if (is_recent (first_time m)) m.recovery_fails

  -- The ends of an attempt.
  pub data Attempt (m : Manager C D S) (out : Reply × Manager C D S) : Type 0 where
    not_tested : out.0 ≡ status_only 409 → out.1 ≡ m → Attempt m out
    limited :
        out.0 ≡ status_only 429
        → (length (kept_fails m) < 5 → ⊥)
        → out.1.recovery_fails ≡ kept_fails m
        → Attempt m out
    wrong :
        out.0 ≡ status_only 401
        → length (kept_fails m) < 5
        → out.1.recovery_fails ≡ kept_fails m ++ second_time m ∷ []
        → Attempt m out
    accepted : (out.0.status ≡ 200) ⊎ (out.0.status ≡ 500) → Attempt m out

  rotated_status :
      (out : Option Str × Manager C D S)
      → ((after_rotation g c out).0.status ≡ 200) ⊎ ((after_rotation g c out).0.status ≡ 500)
  rotated_status (none, m) = inr refl
  rotated_status (some code, m) = elim (Option-cases (issue_session g c m).0) [
    | inl e ↦ inr (ground arith)
    | inr (cookie, e) ↦ inl (ground arith)
  ]

  pub recovery_login-Attempt :
      (r : Request) (m : Manager C D S) → Attempt m (recovery_login g c r m)
  unfolding recovery_login allow_recovery_attempt
  recovery_login-Attempt r m = elim (Bool-cases (has_passkeys g m)) [
    | inr e ↦ not_tested (ground arith) (ground arith)
    | inl e ↦
        let (_, m1) = now g m in
        let m2 = with_recovery m1.recovery_hash (kept_fails m) m1 in
        elim (Bool-cases (ltb (length (kept_fails m)) 5)) [
          | inr full ↦ limited (ground arith) (ground arith) (ground arith)
          | inl few ↦ elim (Bool-cases (valid_recovery_code g c r.recovery_code m2)) [
            | inr bad ↦ wrong (ground arith) (ground arith) (ground arith)
            | inl good ↦
                let status = rotated_status (rotate_recovery_code g c m2) in
                accepted (ground (arith, status))
          ]
        ]
  ]
