-- ===== src/Auth/Sessions.antt =====
-- internal/auth/passkeys.go: sessions and the ceremonies of passkeys.
use nomadposting.Prelude.{
  ℕ, ◌+◌, ◌*◌, Bool, true, false, not, ◌&&◌, ◌||◌, [], Option, none, some, Str, str_eq, length, ltb,
  ◌==◌, keep_if, if◌then◌else◌,
}
use nomadposting.Prelude.Assoc.{lookup, insert, delete}
use nomadposting.Clock.{Time}
use nomadposting.Encoding.Base64.{base64_encode, base64_decode}
use nomadposting.Auth.Manager.{
  Session, Kind, Ceremony, Request, Reply, status_only, Given, Settings, Manager, with_maps, call,
  now, random_token,
}

abbrev pub kind_eq : Kind → Kind → Bool
kind_eq Kind.register Kind.register = true
kind_eq Kind.login Kind.login = true
kind_eq _ _ = false

abbrev pub nanos_per_minute : ℕ
nanos_per_minute = 60 * 1000000000

-- The bytes of a cookie, if it is there and decodes.
abbrev pub cookie_bytes : Option Str → Option Str
cookie_bytes none = none
cookie_bytes (some value) = base64_decode value

-- `now.After(value.Expires)` deletes.
abbrev pub session_stays : Time → Str × Session → Bool
session_stays at entry = not (ltb entry.1.expires at)

abbrev pub ceremony_stays : {D : Type 0} → Time → Str × Ceremony D → Bool
ceremony_stays at entry = not (ltb entry.1.expires at)

abbrev pub found_alive : Option Session → Time → Option Session
found_alive none at = none
found_alive (some s) at = if ltb at s.expires then some s else none

abbrev pub csrf_of : Option Session → Str
csrf_of none = []
csrf_of (some s) = s.csrf

abbrev pub is_some : {A : Type 0} → Option A → Bool
is_some none = false
is_some (some a) = true

abbrev pub cookie_reply : Str → Reply
cookie_reply raw = record {
  status = 204;
  session_cookie = some raw;
  ceremony_cookie = none;
  recovery_code = none;
  csrf = none;
}

abbrev pub ceremony_reply : (raw csrf : Str) → Reply
ceremony_reply raw csrf = record {
  status = 200;
  session_cookie = none;
  ceremony_cookie = some raw;
  recovery_code = none;
  csrf = some csrf;
}

module _ {C D S : Type 0} (g : Given C D S) (c : Settings) where
  -- `purgeLocked`.
  abbrev pub purge : Time → Manager C D S → Manager C D S
  purge at m =
      with_maps (keep_if (session_stays at) m.sessions) (keep_if (ceremony_stays at) m.ceremonies) m

  -- `sessionForRequest` on the bytes of the cookie.
  abbrev pub session_under : Option Str → Manager C D S → Option Session × Manager C D S
  session_under none m = (none, m)
  session_under (some raw) m =
      let (at, m') = now g m in (found_alive (lookup (g.sha256 raw) m.sessions) at, m')

  unfoldable pub session_for_request : Request → Manager C D S → Option Session × Manager C D S
  session_for_request r m = session_under (cookie_bytes r.session_cookie) m

  unfoldable pub authenticated : Request → Manager C D S → Bool × Manager C D S
  unfolding session_for_request
  authenticated r m = let (found, m') = session_for_request r m in (is_some found, m')

  -- `Require`: whether the request reaches the handler behind it.
  unfoldable pub is_admitted : Request → Manager C D S → Bool × Manager C D S
  unfolding authenticated
  is_admitted r m = if c.dev_mode then (true, m) else authenticated r m

  -- `CSRFToken`.
  unfoldable pub csrf_token : Request → Manager C D S → Str × Manager C D S
  unfolding session_for_request
  csrf_token r m =
      if c.dev_mode
      then (c.dev_csrf, m)
      else let (found, m') = session_for_request r m in (csrf_of found, m')

  abbrev pub provided_csrf : Request → Str
  provided_csrf r = if length r.csrf_header == 0 then r.csrf_form else r.csrf_header

  -- `ValidateCSRF`.
  unfoldable pub validate_csrf : Request → Manager C D S → Bool × Manager C D S
  unfolding csrf_token
  validate_csrf r m =
      let (expected, m') = csrf_token r m in
      (not (length expected == 0) && str_eq expected (provided_csrf r), m')

  abbrev pub add_session : (raw csrf : Str) → Time → Manager C D S → Manager C D S
  add_session raw csrf at m =
      with_maps
        (insert (g.sha256 raw) (record { expires = at + c.session_ttl; csrf = csrf }) m.sessions)
        m.ceremonies m

  abbrev pub with_csrf : Str → Option Str × Manager C D S → Option Str × Manager C D S
  with_csrf raw (none, m) = (none, m)
  with_csrf raw (some csrf, m) =
      let (at, m') = now g m in
      let (later, m'') = now g (add_session raw csrf at m') in
      (some (base64_encode raw), purge later m'')

  abbrev pub with_session_token : Option Str × Manager C D S → Option Str × Manager C D S
  with_session_token (none, m) = (none, m)
  with_session_token (some raw, m) = with_csrf raw (random_token g 24 m)

  -- `issueSession`: the value of the cookie, unless the random source fails.
  unfoldable pub issue_session : Manager C D S → Option Str × Manager C D S
  issue_session m = with_session_token (call (g.random.read 32) m)

  abbrev pub forget : Option Str → Manager C D S → Manager C D S
  forget none m = m
  forget (some raw) m = with_maps (delete (g.sha256 raw) m.sessions) m.ceremonies m

  -- `logout`.
  unfoldable pub logout : Request → Manager C D S → Reply × Manager C D S
  logout r m = (status_only 303, forget (cookie_bytes r.session_cookie) m)

  abbrev pub add_ceremony :
      (raw csrf : Str) → Kind → D → Bool → Time → Manager C D S → Manager C D S
  add_ceremony raw csrf kind data' bootstrap at m =
      with_maps m.sessions
        (insert (g.sha256 raw)
          (record {
            kind = kind;
            expires = at + 5 * nanos_per_minute;
            csrf = csrf;
            session = data';
            bootstrap = bootstrap;
          })
          m.ceremonies)
        m

  abbrev pub ceremony_with_csrf :
      Str → Kind → D → Bool → Option Str × Manager C D S → Reply × Manager C D S
  ceremony_with_csrf raw kind data' bootstrap (none, m) = (status_only 500, m)
  ceremony_with_csrf raw kind data' bootstrap (some csrf, m) =
      let (at, m') = now g m in
      let (later, m'') = now g (purge at m') in
      (
        ceremony_reply (base64_encode raw) csrf,
        add_ceremony raw csrf kind data' bootstrap later m'',
      )

  abbrev pub ceremony_with_token :
      Kind → D → Bool → Option Str × Manager C D S → Reply × Manager C D S
  ceremony_with_token kind data' bootstrap (none, m) = (status_only 500, m)
  ceremony_with_token kind data' bootstrap (some raw, m) =
      ceremony_with_csrf raw kind data' bootstrap (random_token g 24 m)

  -- `beginCeremony`; the options for the browser are go-webauthn's and are left out.
  unfoldable pub begin_ceremony : Kind → D → Bool → Manager C D S → Reply × Manager C D S
  begin_ceremony kind data' bootstrap m =
      ceremony_with_token kind data' bootstrap (call (g.random.read 32) m)

  abbrev pub fitting : Option (Ceremony D) → Kind → Str → Time → Option (Ceremony D)
  fitting none kind csrf at = none
  fitting (some entry) kind csrf at =
      if not (kind_eq entry.kind kind) || ltb entry.expires at || not (str_eq entry.csrf csrf)
      then none
      else some entry

  abbrev pub take_ceremony :
      Option Str → Kind → Str → Manager C D S → Option (Ceremony D) × Manager C D S
  take_ceremony none kind csrf m = (none, m)
  take_ceremony (some raw) kind csrf m =
      let (at, m') = now g m in
      (
        fitting (lookup (g.sha256 raw) m.ceremonies) kind csrf at,
        with_maps m'.sessions (delete (g.sha256 raw) m'.ceremonies) m',
      )

  -- `consumeCeremony`.
  unfoldable pub consume_ceremony :
      Request → Kind → Manager C D S → Option (Ceremony D) × Manager C D S
  consume_ceremony r kind m = take_ceremony (cookie_bytes r.ceremony_cookie) kind r.csrf_header m
