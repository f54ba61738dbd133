-- ===== src/Auth/Single.antt =====
-- internal/auth/passkeys.go: ceremonies, which are used once.
use nomadposting.Prelude.{
  ◌≤◌, ◌≡◌, refl, ap, inl, inr, true, Option, none, some, Option-cases, Str, str_eq_iff,
  str_eq_refl, arith,
}
use nomadposting.Prelude.Assoc.{lookup, delete, lookup-delete}
use nomadposting.Clock.{Time}
use nomadposting.Auth.Manager.{Kind, Ceremony, Request, Given, Settings, Manager, with_rest, now}
use nomadposting.Auth.Sessions.{kind_eq, cookie_bytes, fitting, consume_ceremony}

kind_eq→≡ : (k k' : Kind) → kind_eq k k' ≡ true → k ≡ k'
kind_eq→≡ Kind.register Kind.register h = refl
kind_eq→≡ Kind.register Kind.login h = cc
kind_eq→≡ Kind.login Kind.register h = cc
kind_eq→≡ Kind.login Kind.login h = refl

module _ {C D S : Type 0} (g : Given C D S) (c : Settings) where
  fitting_inv :
      (found : Option (Ceremony D)) (kind : Kind) (csrf : Str) (at : Time) (entry : Ceremony D)
      → fitting g c found kind csrf at ≡ some entry
      → (found ≡ some entry) × (entry.kind ≡ kind) × (at ≤ entry.expires) × (entry.csrf ≡ csrf)
  fitting_inv none kind csrf at entry h = absurd (ground arith)
  fitting_inv (some other) kind csrf at entry h =
      let fits : other ≡ entry = ground arith in
      (
        ap some fits,
        ground (arith, kind_eq→≡ other.kind kind),
        ground arith,
        ground (arith, str_eq_iff other.csrf csrf),
      )

  -- A ceremony that `consumeCeremony` gives is the pending one under the hash of the cookie's bytes, of the
  -- kind asked for, not expired and with the CSRF token that the request shows, and it is then
  -- pending no more: a second request with that cookie gets none, whatever its kind and token and
  -- whatever the time.
  pub consume_ceremony-once :
      (r r' : Request) (kind kind' : Kind) (m : Manager C D S) (entry : Ceremony D) (later : S)
      → (consume_ceremony g c r kind m).0 ≡ some entry
      → r'.ceremony_cookie ≡ r.ceremony_cookie
      → (raw : Str) × (cookie_bytes r.ceremony_cookie ≡ some raw)
        × (lookup (g.sha256 raw) m.ceremonies ≡ some entry)
        × (entry.kind ≡ kind)
        × ((now g m).0 ≤ entry.expires)
        × (entry.csrf ≡ r.csrf_header)
        × ((consume_ceremony g c r' kind' (with_rest later (consume_ceremony g c r kind m).1)).0
            ≡ none)
  unfolding consume_ceremony
  consume_ceremony-once r r' kind kind' m entry later h same =
      elim (Option-cases (cookie_bytes r.ceremony_cookie)) [
        | inl e ↦ absurd (ground arith)
        | inr (raw, e) ↦
            let (found, of_kind, alive, csrf) =
              fitting_inv (lookup (g.sha256 raw) m.ceremonies) kind r.csrf_header (now g m).0 entry
                (ground arith) in
            let gone : lookup (g.sha256 raw) (delete (g.sha256 raw) m.ceremonies) ≡ none = ground (
              arith,
              lookup-delete (g.sha256 raw) (g.sha256 raw) m.ceremonies,
              str_eq_refl (g.sha256 raw),
            ) in
            let e' : cookie_bytes r'.ceremony_cookie ≡ some raw = ground arith in
            (raw, e, found, of_kind, alive, csrf, ground arith)
      ]
