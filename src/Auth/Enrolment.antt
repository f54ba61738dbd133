-- ===== src/Auth/Enrolment.antt =====
-- internal/auth/passkeys.go: who can register a passkey, and what is then kept.
use nomadposting.Prelude.{◌≡◌, ◌⊎◌, true, false, [], ◌∷◌, ◌++◌, some}
use nomadposting.Auth.Manager.{
  register, Ceremony, Request, Reply, status_only, Given, Settings, Manager,
}
use nomadposting.Auth.Sessions.{authenticated, consume_ceremony}
use nomadposting.Auth.Handlers.{persist}

module _ {C D S : Type 0} (g : Given C D S) (c : Settings) where
  -- Who was permitted to register: with the ceremony of a first passkey, who shows the bootstrap token;
  -- otherwise who is logged in, or anyone in development mode.
  abbrev pub IsPermitted : Ceremony D → Request → Manager C D S → Type 0
  IsPermitted entry r m =
      ((entry.bootstrap ≡ true) × (g.sha256 r.bootstrap_token ≡ c.bootstrap_hash))
      ⊎ ((c.dev_mode ≡ true) ⊎ ((authenticated g c r m).0 ≡ true))

  -- The ends of a registration: refused, or with one more passkey, and then whether the store took it.
  pub data Registration (r : Request) (m : Manager C D S) (out : Reply × Manager C D S)
      : Type 0 where
    refused :
        (out.0 ≡ status_only 400) ⊎ (out.0 ≡ status_only 401)
        → out.1.credentials ≡ m.credentials
        → Registration r m out
    added :
        (entry : Ceremony D) (credential : C) (m' : Manager C D S)
        → (consume_ceremony g c r register m).0 ≡ some entry
        → IsPermitted entry r (consume_ceremony g c r register m).1
        → g.finish_registration m.credentials entry.session r ≡ some credential
        → (persist g c (m.credentials ++ credential ∷ []) m').0 ≡ true
        → out.1.credentials ≡ m.credentials ++ credential ∷ []
        → Registration r m out
    unsaved :
        (entry : Ceremony D) (credential : C) (m' : Manager C D S)
        → (consume_ceremony g c r register m).0 ≡ some entry
        → IsPermitted entry r (consume_ceremony g c r register m).1
        → g.finish_registration m.credentials entry.session r ≡ some credential
        → (persist g c (m.credentials ++ credential ∷ []) m').0 ≡ false
        → out.0 ≡ status_only 400
        → out.1.credentials ≡ m.credentials ++ credential ∷ []
        → Registration r m out
