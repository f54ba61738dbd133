-- ===== src/Web.antt =====
-- internal/web/server.go: the guarded routes to the controller's operations on jobs. Of an answer only the
-- status is kept; the pages, the flash messages and the routes of the X authorization are left out.
pub mod Guards
use nomadposting.Prelude.{
  ℕ, Bool, true, false, List, [], ◌∷◌, Option, none, some, Str, text, str_eq, length, ◌==◌, Result,
  ok, err, if◌then◌else◌,
}
use nomadposting.Errors.{Error}
use nomadposting.Clock.{Time}
use nomadposting.Store.Tables.{World, Action}
use nomadposting.App.Service.{
  Service, CreateDraftInput, create_draft, preview, approve, cancel, reconcile, emergency_stop,
}
use nomadposting.Auth.Manager.{Request, Given, Settings, Manager, operationally_ready}
use nomadposting.Auth.Sessions.{is_admitted, validate_csrf}

-- The routes of `protected`, with the path's ID.
pub data Route : Type 0 where
  to_create to_stop : Route
  to_preview to_approve to_cancel to_reconcile : Str → Route

-- What the handlers read of the request's form, if it could be parsed. A missing value is empty.
pub record Form : Type 0 where
  pub parsed : Bool
  pub content : Str
  pub post_x : Str
  pub post_nostr : Str
  pub scheduled_at : Str
  pub payload_hash : Str
  pub enabled : Str

-- The state behind the server.
pub record Site (C D A S : Type 0) : Type 0 where
  pub manager : Manager C D A
  pub world : World S

abbrev pub is_one : Str → Bool
is_one value = str_eq value (text "1")

-- The schedule of the form: none, or an instant that `time.ParseInLocation` took.
abbrev pub schedule_of : (Str → Option Time) → Str → Option (Option Time)
schedule_of parse raw = if length raw == 0 then some none else parsed (parse raw)
  where
    parsed : Option Time → Option (Option Time)
    parsed none = none
    parsed (some at) = some (some at)

module _ {C D A S : Type 0} (g : Given C D A) (c : Settings) (s : Service S)
    (parse : Str → Option Time) where
  abbrev pub on_world :
      {B : Type 0} → (Result Error B → ℕ) → Action S B → Site C D A S → ℕ × Site C D A S
  on_world status action site =
      let (result, w) = action site.world in
      (status result, record { manager = site.manager; world = w })

  abbrev pub redirected : {B : Type 0} → Result Error B → ℕ
  redirected _ = 303

  abbrev pub shown : {B : Type 0} → Result Error B → ℕ
  shown (ok _) = 200
  shown (err _) = 404

  abbrev pub with_status : ℕ → Site C D A S → ℕ × Site C D A S
  with_status status site = (status, site)

  abbrev pub draft_scheduled : Form → Option (Option Time) → Site C D A S → ℕ × Site C D A S
  draft_scheduled form none = with_status 303
  draft_scheduled form (some at) = on_world redirected (
      create_draft s (record {
        content = form.content;
        post_to_x = is_one form.post_x;
        post_to_nostr = is_one form.post_nostr;
        scheduled_at = at;
      }))

  -- The handlers behind the guards.
  abbrev pub handle : Route → Form → Site C D A S → ℕ × Site C D A S
  handle to_create form =
      if form.parsed
      then draft_scheduled form (schedule_of parse form.scheduled_at)
      else with_status 400
  handle (to_preview id) form = on_world shown (preview s id)
  handle (to_approve id) form =
      if form.parsed then on_world redirected (approve s id form.payload_hash) else with_status 400
  handle (to_cancel id) form = on_world redirected (cancel s id)
  handle (to_reconcile id) form = on_world redirected (reconcile s id)
  handle to_stop form =
      if form.parsed
      then on_world redirected
          (emergency_stop s (is_one form.enabled) (text "operator activated emergency stop"))
      else with_status 400

  abbrev pub on_manager : Bool × Manager C D A → Site C D A S → Bool × Site C D A S
  on_manager (test, m) site = (test, record { manager = m; world = site.world })

  abbrev pub passed : ℕ → (Site C D A S → ℕ × Site C D A S) → Bool × Site C D A S → ℕ × Site C D A S
  passed status next (true, site) = next site
  passed status next (false, site) = (status, site)

  -- `requireCSRF`.
  abbrev pub require_csrf :
      Request → (Site C D A S → ℕ × Site C D A S) → Site C D A S → ℕ × Site C D A S
  require_csrf r next site = passed 403 next (on_manager (validate_csrf g c r site.manager) site)

  -- `requireOperational`.
  abbrev pub require_operational :
      (Site C D A S → ℕ × Site C D A S) → Site C D A S → ℕ × Site C D A S
  require_operational next site = passed 403 next (operationally_ready g c site.manager, site)

  -- The handler of a route with its guards.
  unfoldable pub guarded : Route → Request → Form → Site C D A S → ℕ × Site C D A S
  guarded to_create r form = require_csrf r (handle to_create form)
  guarded (to_preview id) r form = handle (to_preview id) form
  guarded (to_approve id) r form =
      require_operational (require_csrf r (handle (to_approve id) form))
  guarded (to_cancel id) r form = require_csrf r (handle (to_cancel id) form)
  guarded (to_reconcile id) r form =
      require_operational (require_csrf r (handle (to_reconcile id) form))
  guarded to_stop r form = require_csrf r (handle to_stop form)

  -- `Handler` on these routes: `Require` before the guards. Whether a request that is not authenticated is
  -- redirected or refused is left to `refusal`.
  unfoldable pub serve_route : ℕ → Route → Request → Form → Site C D A S → ℕ × Site C D A S
  unfolding guarded
  serve_route refusal route r form site =
      passed refusal (guarded route r form) (on_manager (is_admitted g c r site.manager) site)
