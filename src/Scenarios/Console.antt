-- ===== src/Scenarios/Console.antt =====
-- Runs of the web server's routes.
use nomadposting.Prelude.Assoc.{lookup}
use nomadposting.Prelude.{
  str_eq, ℕ, ◌≡◌, ◌⊎◌, refl, true, false, [], ◌∷◌, Option, none, some, Str, text,
}
use nomadposting.Encoding.Base64.{base64_decode, base64_encode}
use nomadposting.Clock.{Time}
use nomadposting.App.Service.{approve}
use nomadposting.App.Approval.{Approval}
use nomadposting.Auth.Manager.{Request, Manager}
use nomadposting.Auth.Clearance.{Cleared, Ready}
use nomadposting.Auth.Sessions.{is_admitted, validate_csrf}
use nomadposting.Web.{to_approve, Form, Site, serve_route}
use nomadposting.Web.Guards.{Passage, serve_route-Passage, serve_route-Approval}
use nomadposting.Scenarios.Fixtures.{fill, checksum}
use nomadposting.Scenarios.Operator.{given, settings}
use nomadposting.Scenarios.Stored.{service, world, hash}

-- Two passkeys, a recovery code and a session.
abbrev ready : Manager Str Str ℕ
ready = record {
  credentials = text "key-1" ∷ text "key-2" ∷ [];
  sessions = (checksum (fill 3 32), record { expires = 100000000000; csrf = text "csrf" }) ∷ [];
  ceremonies = [];
  recovery_hash = some (checksum (text "code"));
  recovery_fails = [];
  rest = 1;
}

abbrev site : Site Str Str ℕ ℕ
site = record { manager = ready; world = world }

abbrev click : Request
click = record {
  session_cookie = some (base64_encode (fill 3 32));
  ceremony_cookie = none;
  csrf_header = text "csrf";
  csrf_form = [];
  bootstrap_token = [];
  recovery_code = [];
  body = [];
}

abbrev form : Form
form = record {
  parsed = true;
  content = [];
  post_x = [];
  post_nostr = [];
  scheduled_at = [];
  payload_hash = hash;
  enabled = [];
}

abbrev no_schedule : Str → Option Time
no_schedule raw = none

-- The guards let the request through.
let_in : (is_admitted given settings click ready).0 ≡ true
unfolding is_admitted base64_decode base64_encode fill lookup str_eq checksum
let_in = refl

-- It is cleared by its session.
tokened : (validate_csrf given settings click (is_admitted given settings click ready).1).0 ≡ true
unfolding is_admitted validate_csrf base64_decode base64_encode fill lookup str_eq checksum
tokened = refl

-- A wrong token is stopped outside development mode.
forged :
    (validate_csrf given settings
      (record click { csrf_header = text "other" })
      (is_admitted given settings click ready).1).0
    ≡ false
unfolding is_admitted validate_csrf base64_decode base64_encode fill lookup str_eq checksum
forged = refl

serve_route-Passage_example :
    Passage given settings service no_schedule
      (to_approve (text "j"))
      click
      form
      site
      (serve_route given settings service no_schedule 401 (to_approve (text "j")) click form site)
serve_route-Passage_example =
    serve_route-Passage given settings service no_schedule 401 (to_approve (text "j")) click form
      site

serve_route-Approval_example :
    ((serve_route given settings service no_schedule 401
        (to_approve (text "j"))
        click
        form
        site).1.world.db
      ≡ world.db)
    ⊎ (Cleared given settings click ready
        × Ready given settings ready
        × Approval service
            (text "j")
            hash
            world
            (serve_route given settings service no_schedule 401
              (to_approve (text "j"))
              click
              form
              site).1.world
            (approve service (text "j") hash world).0)
serve_route-Approval_example =
    serve_route-Approval given settings service no_schedule 401 (text "j") click form site (tt, tt)
