-- ===== src/Auth/Manager.antt =====
-- internal/auth/passkeys.go: the manager's state and what it is given. A map with keys of 32 bytes is
-- an association list. Go's locks make each handler's accesses one after the other; a run here
-- handles one request at a time.
use nomadposting.Prelude.{
  ℕ, Bool, true, false, List, Option, none, some, Str, length, ltb, leb, if◌then◌else◌,
}
use nomadposting.Prelude.Assoc.{Assoc}
use nomadposting.Random.{Random}
use nomadposting.Clock.{Time}
use nomadposting.Encoding.Base64.{base64_encode}

pub record Session : Type 0 where
  pub expires : Time
  pub csrf : Str

pub data Kind : Type 0 where
  register login : Kind

-- `D` is the data of a WebAuthn ceremony.
pub record Ceremony (D : Type 0) : Type 0 where
  pub kind : Kind
  pub expires : Time
  pub csrf : Str
  pub session : D
  pub bootstrap : Bool

-- What the code reads of an HTTP request. A header or a form value that is missing is empty; a cookie
-- may be missing.
pub record Request : Type 0 where
  pub session_cookie : Option Str
  pub ceremony_cookie : Option Str
  pub csrf_header : Str
  pub csrf_form : Str
  pub bootstrap_token : Str
  pub recovery_code : Str
  pub body : Str

-- What a handler answers: a status, and what it sets or shows.
pub record Reply : Type 0 where
  pub status : ℕ
  pub session_cookie : Option Str
  pub ceremony_cookie : Option Str
  pub recovery_code : Option Str
  pub csrf : Option Str

abbrev pub status_only : ℕ → Reply
status_only status = record {
  status = status;
  session_cookie = none;
  ceremony_cookie = none;
  recovery_code = none;
  csrf = none;
}

-- The functions that are given: go-webauthn's, the store, the random source, the clock and SHA-256.
-- `C` is a passkey credential.
pub record Given (C D S : Type 0) : Type 0 where
  pub sha256 : Str → Str
  pub random : Random S
  pub tick : S → Time × S
  pub credential_id : C → Str
  pub begin_registration : List C → S → Option D × S
  pub finish_registration : List C → D → Request → Option C
  pub begin_login : List C → S → Option D × S
  pub finish_login : List C → D → Request → Option C
  pub save_credentials : List C → Time → S → Bool × S
  pub save_recovery_hash : Str → Time → S → Bool × S

-- The settings that do not change.
pub record Settings : Type 0 where
  pub bootstrap_hash : Str
  pub session_ttl : ℕ
  pub dev_mode : Bool
  pub dev_csrf : Str

pub record Manager (C D S : Type 0) : Type 0 where
  pub credentials : List C
  pub sessions : Assoc Session
  pub ceremonies : Assoc (Ceremony D)
  -- `recoverySet` and `recoveryHash`.
  pub recovery_hash : Option Str
  pub recovery_fails : List Time
  pub rest : S

abbrev pub encoded : Option Str → Option Str
encoded none = none
encoded (some raw) = some (base64_encode raw)

module _ {C D S : Type 0} where
  abbrev pub with_credentials : List C → Manager C D S → Manager C D S
  with_credentials cs m = record {
    credentials = cs;
    sessions = m.sessions;
    ceremonies = m.ceremonies;
    recovery_hash = m.recovery_hash;
    recovery_fails = m.recovery_fails;
    rest = m.rest;
  }

  abbrev pub with_maps : Assoc Session → Assoc (Ceremony D) → Manager C D S → Manager C D S
  with_maps sessions ceremonies m = record {
    credentials = m.credentials;
    sessions = sessions;
    ceremonies = ceremonies;
    recovery_hash = m.recovery_hash;
    recovery_fails = m.recovery_fails;
    rest = m.rest;
  }

  abbrev pub with_recovery : Option Str → List Time → Manager C D S → Manager C D S
  with_recovery hash fails m = record {
    credentials = m.credentials;
    sessions = m.sessions;
    ceremonies = m.ceremonies;
    recovery_hash = hash;
    recovery_fails = fails;
    rest = m.rest;
  }

  abbrev pub with_rest : S → Manager C D S → Manager C D S
  with_rest s m = record {
    credentials = m.credentials;
    sessions = m.sessions;
    ceremonies = m.ceremonies;
    recovery_hash = m.recovery_hash;
    recovery_fails = m.recovery_fails;
    rest = s;
  }

  -- A call of what is given.
  abbrev pub call : {A : Type 0} → (S → A × S) → Manager C D S → A × Manager C D S
  call f m = let (a, s) = f m.rest in (a, with_rest s m)

  module _ (g : Given C D S) where
    abbrev pub now : Manager C D S → Time × Manager C D S
    now = call g.tick

    -- `randomToken`.
    abbrev pub random_token : ℕ → Manager C D S → Option Str × Manager C D S
    random_token n m = let (raw, m') = call (g.random.read n) m in (encoded raw, m')

    -- `CredentialCount` and `HasPasskeys`.
    abbrev pub has_passkeys : Manager C D S → Bool
    has_passkeys m = ltb 0 (length m.credentials)

    abbrev is_set : Option Str → Bool
    is_set none = false
    is_set (some hash) = true

    -- `OperationallyReady`.
    unfoldable pub operationally_ready : Settings → Manager C D S → Bool
    operationally_ready c m =
        if c.dev_mode
        then true
        else if leb 2 (length m.credentials)
        then is_set m.recovery_hash
        else false
