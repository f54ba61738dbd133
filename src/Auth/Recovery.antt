-- ===== src/Auth/Recovery.antt =====
-- internal/auth/passkeys.go: the recovery code, and the limit on attempts to use it.
pub mod Window
pub mod Steps
pub mod Limit
use nomadposting.Prelude.{
  ℕ, ◌+◌, ◌-◌, ◌*◌, Bool, true, false, not, ◌&&◌, ◌||◌, List, [], ◌∷◌, ◌++◌, Option, none, some,
  Str, text, str_eq, length, ltb, ◌==◌, keep_if, if◌then◌else◌,
}
use nomadposting.Clock.{Time}
use nomadposting.Encoding.Base64.{base64_encode}
use nomadposting.Auth.Manager.{
  Request, Reply, status_only, Given, Settings, Manager, with_recovery, with_rest, call, now,
  random_token, has_passkeys,
}
use nomadposting.Auth.Sessions.{nanos_per_minute, authenticated, validate_csrf, issue_session}

abbrev pub code_reply : Str → Option Str → Reply
code_reply code cookie = record {
  status = 200;
  session_cookie = cookie;
  ceremony_cookie = none;
  recovery_code = some code;
  csrf = none;
}

-- Whether a failure lies behind the start of the last quarter of an hour.
abbrev pub is_recent : Time → Time → Bool
is_recent at failure = ltb at (failure + 15 * nanos_per_minute)

abbrev pub matches : Option Str → Str → Bool
matches none hash = false
matches (some stored) hash = str_eq hash stored

module _ {C D S : Type 0} (g : Given C D S) (c : Settings) where
  abbrev pub code_of : Str → Str
  code_of raw = text "ivpn-recovery-" ++ raw

  -- The store's answer to the hash of a new code.
  abbrev pub replaced : Str → Bool × Manager C D S → Option Str × Manager C D S
  replaced code (false, m) = (none, m)
  replaced code (true, m) = (some code, with_recovery (some (g.sha256 code)) [] m)

  abbrev pub save_code : Str → Manager C D S → Option Str × Manager C D S
  save_code code m =
      let (at, m') = now g m in replaced code (call (g.save_recovery_hash (g.sha256 code) at) m')

  abbrev pub with_raw : Option Str × Manager C D S → Option Str × Manager C D S
  with_raw (none, m) = (none, m)
  with_raw (some raw, m) = save_code (code_of raw) m

  -- `rotateRecoveryCode`: the new code, unless the random source or the store fails.
  unfoldable pub rotate_recovery_code : Manager C D S → Option Str × Manager C D S
  rotate_recovery_code m = with_raw (random_token g 32 m)

  -- `validRecoveryCode`.
  unfoldable pub valid_recovery_code : Str → Manager C D S → Bool
  valid_recovery_code value m = matches m.recovery_hash (g.sha256 value)

  -- `allowRecoveryAttempt`.
  unfoldable pub allow_recovery_attempt : Time → Manager C D S → Bool × Manager C D S
  allow_recovery_attempt at m =
      let kept = keep_if (is_recent at) m.recovery_fails in
      (ltb (length kept) 5, with_recovery m.recovery_hash kept m)

  -- `recordRecoveryFailure`.
  abbrev pub record_recovery_failure : Time → Manager C D S → Manager C D S
  record_recovery_failure at m = with_recovery m.recovery_hash (m.recovery_fails ++ at ∷ []) m

  abbrev pub reply_with_code : Str → Option Str × Manager C D S → Reply × Manager C D S
  reply_with_code code (none, m) = (status_only 500, m)
  reply_with_code code (some cookie, m) = (code_reply code (some cookie), m)

  abbrev pub after_rotation : Option Str × Manager C D S → Reply × Manager C D S
  after_rotation (none, m) = (status_only 500, m)
  after_rotation (some code, m) = reply_with_code code (issue_session g c m)

  abbrev pub refuse_code : Manager C D S → Reply × Manager C D S
  refuse_code m = let (at, m') = now g m in (status_only 401, record_recovery_failure at m')

  abbrev pub try_code : Request → Bool × Manager C D S → Reply × Manager C D S
  try_code r (false, m) = (status_only 429, m)
  try_code r (true, m) =
      if valid_recovery_code r.recovery_code m
      then after_rotation (rotate_recovery_code m)
      else refuse_code m

  -- `recoveryLogin`.
  unfoldable pub recovery_login : Request → Manager C D S → Reply × Manager C D S
  unfolding allow_recovery_attempt valid_recovery_code rotate_recovery_code
  recovery_login r m =
      if not (has_passkeys g m)
      then (status_only 409, m)
      else let (at, m') = now g m in try_code r (allow_recovery_attempt at m')

  abbrev pub show_code : Option Str × Manager C D S → Reply × Manager C D S
  show_code (none, m) = (status_only 500, m)
  show_code (some code, m) = (code_reply code none, m)

  abbrev pub rotate_checked : Bool × Manager C D S → Reply × Manager C D S
  rotate_checked (false, m) = (status_only 403, m)
  rotate_checked (true, m) = show_code (rotate_recovery_code m)

  abbrev pub rotate_known : Request → Bool × Manager C D S → Reply × Manager C D S
  rotate_known r (false, m) = (status_only 401, m)
  rotate_known r (true, m) = rotate_checked (validate_csrf g c r m)

  -- `recoveryRotate`.
  unfoldable pub recovery_rotate : Request → Manager C D S → Reply × Manager C D S
  recovery_rotate r m = rotate_known r (if c.dev_mode then (true, m) else authenticated g c r m)
