-- ===== src/Web/Guards.antt =====
-- internal/web/server.go: what stands before a request that changes the controller's tables.
use nomadposting.Prelude.{
  ℕ, ◌≡◌, refl, ap, sym, ◌∙◌, subst, ◌⊎◌, inl, inr, Bool, true, false, Option, Str, arith,
  Bool-cases,
}
use nomadposting.Clock.{Time}
use nomadposting.Store.Jobs.Update.{UniqueIds}
use nomadposting.App.Service.{Service, approve}
use nomadposting.App.Frames.{preview-Unmoved}
use nomadposting.App.Approval.{Approval, approve-Approval}
use nomadposting.Auth.Manager.{Request, Given, Settings, Manager, operationally_ready}
use nomadposting.Auth.Clearance.{
  Cleared, Ready, operationally_ready-Ready, admitted-ready, validate_csrf-Cleared,
}
use nomadposting.Auth.Sessions.{is_admitted, validate_csrf}
use nomadposting.Web.{
  Route, to_create, to_stop, to_preview, to_approve, to_cancel, to_reconcile, Form, Site, handle,
  on_manager, passed, require_csrf, require_operational, guarded, serve_route,
}

-- The routes that are shut until two passkeys and a recovery code are there.
abbrev pub is_shut : Route → Bool
is_shut (to_approve id) = true
is_shut (to_reconcile id) = true
is_shut _ = false

module _ {C D A S : Type 0} (g : Given C D A) (c : Settings) (s : Service S)
    (parse : Str → Option Time) where
  -- The manager's state behind the check that the request may come in at all, and behind that of its token.
  abbrev pub admitted : Request → Site C D A S → Manager C D A
  admitted r site = (is_admitted g c r site.manager).1

  -- How a request ends: with the tables as they were, or past every guard of its route.
  pub data Passage (route : Route) (r : Request) (form : Form) (site : Site C D A S)
      (out : ℕ × Site C D A S) : Type 0 where
    untouched : out.1.world.db ≡ site.world.db → Passage route r form site out
    through :
        (m : Manager C D A)
        → Cleared g c r site.manager
        → (is_shut route ≡ false) ⊎ Ready g c site.manager
        → out ≡ handle g c s parse route form (record { manager = m; world = site.world })
        → Passage route r form site out

  passed_through :
      (status : ℕ) (next : Site C D A S → ℕ × Site C D A S) (gate : Bool × Site C D A S)
      → gate.0 ≡ true
      → passed g c s parse status next gate ≡ next gate.1
  passed_through status next (true, site) e = refl
  passed_through status next (false, site) e = absurd (ground arith)

  passed_by :
      (status : ℕ) (next : Site C D A S → ℕ × Site C D A S) (gate : Bool × Site C D A S)
      → gate.0 ≡ false
      → passed g c s parse status next gate ≡ (status, gate.1)
  passed_by status next (true, site) e = absurd (ground arith)
  passed_by status next (false, site) e = refl

  -- The site behind `Require`.
  abbrev inside : Request → Site C D A S → Site C D A S
  inside r site = record { manager = admitted r site; world = site.world }

  csrf-Passage :
      (route : Route) (r : Request) (form : Form) (site : Site C D A S)
      → (is_admitted g c r site.manager).0 ≡ true
      → (is_shut route ≡ false) ⊎ Ready g c site.manager
      → Passage route r form site
          (require_csrf g c s parse r (handle g c s parse route form) (inside r site))
  csrf-Passage route r form site known ready =
      let test = validate_csrf g c r (admitted r site) in
      let gate = on_manager g c s parse test (inside r site) in
      elim (Bool-cases test.0) [
        | inl valid ↦
            through test.1 (validate_csrf-Cleared g c r site.manager known valid) ready
              (passed_through 403 (handle g c s parse route form) gate valid)
        | inr bad ↦ untouched (
            ap (λ (o : ℕ × Site C D A S). o.1.world.db)
              (passed_by 403 (handle g c s parse route form) gate bad))
      ]

  operational-Passage :
      (route : Route) (r : Request) (form : Form) (site : Site C D A S)
      → (is_admitted g c r site.manager).0 ≡ true
      → Passage route r form site (
          require_operational g c s parse
            (require_csrf g c s parse r (handle g c s parse route form))
            (inside r site))
  operational-Passage route r form site known =
      let next = require_csrf g c s parse r (handle g c s parse route form) in
      let ready = operationally_ready g c (admitted r site) in
      elim (Bool-cases ready) [
        | inl e ↦
            subst (Passage route r form site)
              (sym (passed_through 403 next (ready, inside r site) e))
              (csrf-Passage route r form site known (
                inr (
                  operationally_ready-Ready g c site.manager
                    (sym (admitted-ready g c r site.manager) ∙ e))))
        | inr e ↦ untouched (
            ap (λ (o : ℕ × Site C D A S). o.1.world.db)
              (passed_by 403 next (ready, inside r site) e))
      ]

  guarded-Passage :
      (route : Route) (r : Request) (form : Form) (site : Site C D A S)
      → (is_admitted g c r site.manager).0 ≡ true
      → Passage route r form site (guarded g c s parse route r form (inside r site))
  unfolding guarded
  guarded-Passage to_create r form site known = csrf-Passage to_create r form site known (inl refl)
  guarded-Passage to_stop r form site known = csrf-Passage to_stop r form site known (inl refl)
  guarded-Passage (to_preview id) r form site known =
      untouched ((preview-Unmoved s id site.world).0)
  guarded-Passage (to_approve id) r form site known =
      operational-Passage (to_approve id) r form site known
  guarded-Passage (to_cancel id) r form site known =
      csrf-Passage (to_cancel id) r form site known (inl refl)
  guarded-Passage (to_reconcile id) r form site known =
      operational-Passage (to_reconcile id) r form site known

  -- Whatever request comes to a route of the controller's jobs: either the tables stay as they are, or the
  -- request was cleared, and what happened is what the route's handler does to the controller's
  -- store. Outside development mode, cleared means that its cookie named a session that was there
  -- and had not expired and that it carried that session's CSRF token, which is not empty, and on
  -- the routes that approve and reconcile at least two passkeys and a recovery code were there. In
  -- development mode it means only that the request carried that mode's CSRF token.
  pub serve_route-Passage :
      (refusal : ℕ) (route : Route) (r : Request) (form : Form) (site : Site C D A S)
      → Passage route r form site (serve_route g c s parse refusal route r form site)
  unfolding serve_route
  serve_route-Passage refusal route r form site =
      let test = is_admitted g c r site.manager in
      let gate = on_manager g c s parse test site in
      elim (Bool-cases test.0) [
        | inl known ↦
            subst (Passage route r form site)
              (sym (passed_through refusal (guarded g c s parse route r form) gate known))
              (guarded-Passage route r form site known)
        | inr unknown ↦ untouched (
            ap (λ (o : ℕ × Site C D A S). o.1.world.db)
              (passed_by refusal (guarded g c s parse route r form) gate unknown))
      ]

  ready_of : (id : Str) {R : Type 0} → (is_shut (to_approve id) ≡ false) ⊎ R → R
  ready_of id (inl e) = absurd (ground arith)
  ready_of id (inr e) = e

  unparsed :
      (id : Str) (form : Form) (m : Manager C D A) (site : Site C D A S)
      → form.parsed ≡ false
      → handle g c s parse (to_approve id) form (record { manager = m; world = site.world })
        ≡ (400, record { manager = m; world = site.world })
  unparsed id form m site e = ground arith

  parsed :
      (id : Str) (form : Form) (m : Manager C D A) (site : Site C D A S)
      → form.parsed ≡ true
      → handle g c s parse (to_approve id) form (record { manager = m; world = site.world })
        ≡ (303, record { manager = m; world = (approve s id form.payload_hash site.world).1 })
  parsed id form m site e = ground arith

  -- An approval over the web, on a store whose IDs are unique: either the tables stay as they are, or the
  -- request was cleared, and the store is left as an approval of that job and the hash in the form
  -- leaves it. Outside development mode, cleared means that its cookie named a session that was there
  -- and had not expired, that it carried that session's CSRF token, which is not empty, and that at
  -- least two passkeys and a recovery code were there. In development mode it means only that the
  -- request carried that mode's CSRF token.
  pub serve_route-Approval :
      (refusal : ℕ) (id : Str) (r : Request) (form : Form) (site : Site C D A S)
      → UniqueIds site.world.db
      → ((serve_route g c s parse refusal (to_approve id) r form site).1.world.db ≡ site.world.db)
        ⊎ (Cleared g c r site.manager
            × Ready g c site.manager
            × Approval s id form.payload_hash site.world
                (serve_route g c s parse refusal (to_approve id) r form site).1.world
                (approve s id form.payload_hash site.world).0)
  serve_route-Approval refusal id r form site u =
      elim (serve_route-Passage refusal (to_approve id) r form site) [
        | untouched same ↦ inl same
        | through m cleared ready done ↦ elim (Bool-cases form.parsed) [
          | inr e ↦
              inl (ap (λ (o : ℕ × Site C D A S). o.1.world.db) (done ∙ unparsed id form m site e))
          | inl e ↦ inr (
            cleared,
            ready_of id ready,
            subst
                (λ w.
                  Approval s id form.payload_hash site.world w
                    (approve s id form.payload_hash site.world).0)
                (sym (ap (λ (o : ℕ × Site C D A S). o.1.world) (done ∙ parsed id form m site e)))
                (approve-Approval s id form.payload_hash site.world u),
          )
        ]
      ]
