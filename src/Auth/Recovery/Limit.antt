-- ===== src/Auth/Recovery/Limit.antt =====
-- internal/auth/passkeys.go: runs of attempts with a recovery code, and how many of them can fail.
use nomadposting.Prelude.{ℕ, ◌≤◌, ◌≡◌, ◌||◌, List, [], ◌∷◌, ◌++◌, ◌==◌, if◌then◌else◌}
use nomadposting.Clock.{Time}
use nomadposting.Auth.Manager.{Request, Given, Settings, Manager}
use nomadposting.Auth.Recovery.{is_recent, recovery_login}
use nomadposting.Auth.Recovery.Window.{count, in_window}
use nomadposting.Auth.Recovery.Steps.{first_time, second_time}

-- The wrong codes of a run since a code was last accepted, after an answer with some status.
abbrev pub failures_after : ℕ → Time → List Time → List Time
failures_after status at failures =
    if status == 401
    then failures ++ at ∷ []
    else if status == 429 || status == 409
    then failures
    else []

module _ {C D S : Type 0} (g : Given C D S) (c : Settings) where
  -- Runs of the manager, as the recovery code sees them, with a clock that does not go back: the wrong
  -- codes since one was accepted, the latest time, and the state. Between two attempts anything
  -- may happen that leaves the recorded failures alone.
  pub data Run : List Time → Time → Manager C D S → Type 0 where
    start : (m : Manager C D S) → m.recovery_fails ≡ [] → Run [] 0 m
    attempt :
        {failures : List Time} {latest : Time} {m : Manager C D S}
        → Run failures latest m
        → (r : Request) → latest ≤ first_time g c m
        → first_time g c m ≤ second_time g c m
        → Run
            (failures_after (recovery_login g c r m).0.status (second_time g c m) failures)
            (second_time g c m)
            (recovery_login g c r m).1
    elsewhere :
        {failures : List Time} {latest : Time} {m m' : Manager C D S}
        → Run failures latest m
        → m'.recovery_fails ≡ m.recovery_fails
        → Run failures latest m'

  -- What is known of a run: no wrong code that still counts is forgotten, and the windows are bounded.
  abbrev Known : List Time → Time → List Time → Type 0
  Known failures latest fails =
      ((later : Time)
        → latest ≤ later
        → count (is_recent later) failures ≤ count (is_recent later) fails)
      × ((from : Time) → count (in_window from) failures ≤ 5)
