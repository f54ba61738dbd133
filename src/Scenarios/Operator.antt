-- ===== src/Scenarios/Operator.antt =====
-- Runs of the operator's sessions, passkeys and recovery code.
use nomadposting.Prelude.{
  str_eq, ℕ, suc, ◌+◌, ◌*◌, ◌≤◌, ◌≡◌, refl, true, false, [], ◌∷◌, none, some, Str, text, ltb, arith,
}
use nomadposting.Prelude.Assoc.{lookup}
use nomadposting.Encoding.Base64.{base64_decode, base64_encode}
use nomadposting.Auth.Manager.{
  register, Ceremony, Request, Given, Settings, Manager, with_rest, now,
}
use nomadposting.Auth.Sessions.{
  cookie_bytes, nanos_per_minute, authenticated, issue_session, logout, consume_ceremony,
}
use nomadposting.Auth.Liveness.{issue_time, purge_time, issue_session-authenticated}
use nomadposting.Auth.Single.{consume_ceremony-once}
use nomadposting.Scenarios.Fixtures.{draw_byte, fill, counter, counter-ReadsBytes, checksum}

-- Credentials are their IDs; a clock tick is a second.
abbrev pub given : Given Str Str ℕ
given = record {
  sha256 = checksum;
  random = counter;
  tick = λ s. (s * 1000000000, suc s);
  credential_id = λ c. c;
  begin_registration = λ cs s. (some (text "challenge"), s);
  finish_registration = λ cs d r. some (text "key-2");
  begin_login = λ cs s. (some (text "challenge"), s);
  finish_login = λ cs d r. some (text "key-1");
  save_credentials = λ cs at s. (true, s);
  save_recovery_hash = λ hash at s. (true, s);
}

abbrev pub settings : Settings
settings = record {
  bootstrap_hash = checksum (text "bootstrap");
  session_ttl = 15 * nanos_per_minute;
  dev_mode = false;
  dev_csrf = [];
}

abbrev enrolled : Manager Str Str ℕ
enrolled = record {
  credentials = text "key-1" ∷ [];
  sessions = [];
  ceremonies =
      (
        checksum (fill 9 32),
        record {
          kind = register;
          expires = 100000000000;
          csrf = text "csrf";
          session = text "challenge";
          bootstrap = true;
        },
      )
      ∷ [];
  recovery_hash = some (checksum (text "code"));
  recovery_fails = [];
  rest = 1;
}

abbrev wrong_code : Request
wrong_code = record {
  session_cookie = none;
  ceremony_cookie = none;
  csrf_header = [];
  csrf_form = [];
  bootstrap_token = [];
  recovery_code = text "guess";
  body = [];
}

abbrev cookie : Str
cookie = base64_encode (fill 1 32)

abbrev with_cookie : Request
with_cookie = record {
  session_cookie = some cookie;
  ceremony_cookie = none;
  csrf_header = [];
  csrf_form = [];
  bootstrap_token = [];
  recovery_code = [];
  body = [];
}

issued : (issue_session given settings enrolled).0 ≡ some cookie
unfolding issue_session draw_byte
issued = refl

soon :
    purge_time given settings enrolled ≤ issue_time given settings enrolled + 15 * nanos_per_minute
soon = omega arith

issue_session-authenticated_example :
    ((authenticated given settings with_cookie
        (with_rest 60 (issue_session given settings enrolled).1)).0
      ≡ ltb 60000000000 (issue_time given settings enrolled + 15 * nanos_per_minute))
    × ((authenticated given settings with_cookie (
          with_rest 60
            (logout given settings with_cookie (issue_session given settings enrolled).1).1)).0
        ≡ false)
issue_session-authenticated_example =
    issue_session-authenticated given settings enrolled cookie with_cookie 60 counter-ReadsBytes
      soon issued refl

abbrev finishing : Request
finishing = record {
  session_cookie = none;
  ceremony_cookie = some (base64_encode (fill 9 32));
  csrf_header = text "csrf";
  csrf_form = [];
  bootstrap_token = text "bootstrap";
  recovery_code = [];
  body = [];
}

abbrev first_passkey : Ceremony Str
first_passkey = record {
  kind = register;
  expires = 100000000000;
  csrf = text "csrf";
  session = text "challenge";
  bootstrap = true;
}

taken : (consume_ceremony given settings finishing register enrolled).0 ≡ some first_passkey
unfolding consume_ceremony base64_decode base64_encode fill lookup str_eq checksum
taken = refl

consume_ceremony-once_example :
    (raw : Str) × (cookie_bytes finishing.ceremony_cookie ≡ some raw)
    × (lookup (checksum raw) enrolled.ceremonies ≡ some first_passkey)
    × (register ≡ register)
    × ((now given enrolled).0 ≤ 100000000000)
    × (text "csrf" ≡ text "csrf")
    × ((consume_ceremony given settings finishing register
          (with_rest 5 (consume_ceremony given settings finishing register enrolled).1)).0
        ≡ none)
consume_ceremony-once_example =
    consume_ceremony-once given settings finishing finishing register register enrolled
      first_passkey 5 taken refl
