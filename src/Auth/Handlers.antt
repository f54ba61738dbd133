-- ===== src/Auth/Handlers.antt =====
-- internal/auth/passkeys.go: the handlers of registration and login.
use nomadposting.Prelude.{
  Bool, true, false, not, List, [], ◌∷◌, ◌++◌, Option, none, some, Str, str_eq, length, ◌==◌,
  if◌then◌else◌,
}
use nomadposting.Auth.Manager.{
  Kind, register, login, Ceremony, Request, Reply, status_only, Given, Settings, Manager,
  with_credentials, call, now, has_passkeys,
}
use nomadposting.Auth.Sessions.{
  cookie_reply, authenticated, issue_session, begin_ceremony, consume_ceremony,
}
use nomadposting.Auth.Recovery.{rotate_recovery_code, reply_with_code}

module _ {C D S : Type 0} (g : Given C D S) (c : Settings) where
  -- `validBootstrap`.
  abbrev pub valid_bootstrap : Str → Bool
  valid_bootstrap value = str_eq (g.sha256 value) c.bootstrap_hash

  -- Who may register a passkey: with none there, who has the bootstrap token, then who is logged in.
  abbrev pub may_register : Bool → Request → Manager C D S → Bool × Manager C D S
  may_register true r m = (valid_bootstrap r.bootstrap_token, m)
  may_register false r m = if c.dev_mode then (true, m) else authenticated g c r m

  abbrev pub begun : Kind → Bool → Option D × Manager C D S → Reply × Manager C D S
  begun kind bootstrap (none, m) = (status_only 500, m)
  begun kind bootstrap (some data', m) = begin_ceremony g c kind data' bootstrap m

  abbrev pub register_permitted : Bool → Bool × Manager C D S → Reply × Manager C D S
  register_permitted bootstrap (false, m) = (status_only 401, m)
  register_permitted bootstrap (true, m) =
      begun register bootstrap (call (g.begin_registration m.credentials) m)

  -- `registerBegin`.
  unfoldable pub register_begin : Request → Manager C D S → Reply × Manager C D S
  register_begin r m =
      let bootstrap = length m.credentials == 0 in
      register_permitted bootstrap (may_register bootstrap r m)

  -- `persistLocked`.
  abbrev pub persist : List C → Manager C D S → Bool × Manager C D S
  persist credentials m =
      let (at, m') = now g (with_credentials credentials m) in
      call (g.save_credentials credentials at) m'

  abbrev pub session_reply : Option Str × Manager C D S → Reply × Manager C D S
  session_reply (none, m) = (status_only 500, m)
  session_reply (some cookie, m) = (cookie_reply cookie, m)

  abbrev pub first_code : Option Str × Manager C D S → Reply × Manager C D S
  first_code (none, m) = (status_only 500, m)
  first_code (some code, m) = reply_with_code g c code (issue_session g c m)

  abbrev pub registered : Bool → Bool × Manager C D S → Reply × Manager C D S
  registered bootstrap (false, m) = (status_only 400, m)
  registered bootstrap (true, m) =
      if bootstrap
      then first_code (rotate_recovery_code g c m)
      else session_reply (issue_session g c m)

  abbrev pub add_credential : Bool → Option C → Manager C D S → Reply × Manager C D S
  add_credential bootstrap none m = (status_only 400, m)
  add_credential bootstrap (some credential) m =
      registered bootstrap (persist (m.credentials ++ credential ∷ []) m)

  abbrev pub verify_registration :
      Request → Ceremony D → Bool × Manager C D S → Reply × Manager C D S
  verify_registration r entry (false, m) = (status_only 401, m)
  verify_registration r entry (true, m) =
      add_credential entry.bootstrap (g.finish_registration m.credentials entry.session r) m

  abbrev pub registration_in : Request → Option (Ceremony D) × Manager C D S → Reply × Manager C D S
  registration_in r (none, m) = (status_only 400, m)
  registration_in r (some entry, m) = verify_registration r entry (may_register entry.bootstrap r m)

  -- `registerFinish`.
  unfoldable pub register_finish : Request → Manager C D S → Reply × Manager C D S
  register_finish r m = registration_in r (consume_ceremony g c r register m)

  -- `loginBegin`.
  unfoldable pub login_begin : Request → Manager C D S → Reply × Manager C D S
  login_begin r m =
      if not (has_passkeys g m)
      then (status_only 409, m)
      else begun login false (call (g.begin_login m.credentials) m)

  -- The first credential with the ID, replaced.
  abbrev pub replace_credential : C → List C → List C
  replace_credential new [] = []
  replace_credential new (old ∷ cs) =
      let rest = replace_credential new cs in
      if str_eq (g.credential_id old) (g.credential_id new) then new ∷ cs else old ∷ rest

  abbrev pub logged_in : Bool × Manager C D S → Reply × Manager C D S
  logged_in (false, m) = (status_only 401, m)
  logged_in (true, m) = session_reply (issue_session g c m)

  abbrev pub verified_login : Option C → Manager C D S → Reply × Manager C D S
  verified_login none m = (status_only 401, m)
  verified_login (some credential) m =
      logged_in (persist (replace_credential credential m.credentials) m)

  abbrev pub login_in : Request → Option (Ceremony D) × Manager C D S → Reply × Manager C D S
  login_in r (none, m) = (status_only 400, m)
  login_in r (some entry, m) = verified_login (g.finish_login m.credentials entry.session r) m

  -- `loginFinish`.
  unfoldable pub login_finish : Request → Manager C D S → Reply × Manager C D S
  login_finish r m = login_in r (consume_ceremony g c r login m)
