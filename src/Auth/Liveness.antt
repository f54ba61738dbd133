-- ===== src/Auth/Liveness.antt =====
-- internal/auth/passkeys.go: a session from its issue to its end.
use nomadposting.Prelude.{
  ◌+◌, ◌≤◌, ◌≡◌, inl, inr, true, false, none, some, Option-cases, Str, str_eq_refl, ltb, arith,
}
use nomadposting.Prelude.Assoc.{
  lookup, insert, delete, lookup-insert, lookup-delete, lookup-keep_if,
}
use nomadposting.Random.{ReadsBytes}
use nomadposting.Clock.{Time}
use nomadposting.Encoding.Base64.{base64_encode, base64_decode}
use nomadposting.Encoding.Base64.RoundTrip.{base64_decode-encode}
use nomadposting.Auth.Manager.{Session, Request, Given, Settings, Manager, with_rest}
use nomadposting.Auth.Sessions.{
  cookie_bytes, session_stays, session_for_request, authenticated, issue_session, logout,
}

module _ {C D S : Type 0} (g : Given C D S) (c : Settings) where
  -- The state behind the two random reads of `issueSession`, the time it reads for the expiry, and the
  -- one it reads for clearing out.
  abbrev drawn_rest : Manager C D S → S
  drawn_rest m = (g.random.read 24 (g.random.read 32 m.rest).1).1

  abbrev pub issue_time : Manager C D S → Time
  issue_time m = (g.tick (drawn_rest m)).0

  abbrev pub purge_time : Manager C D S → Time
  purge_time m = (g.tick (g.tick (drawn_rest m)).1).0

  issue_session_inv :
      (m : Manager C D S) (cookie : Str)
      → ReadsBytes g.random
      → purge_time m ≤ issue_time m + c.session_ttl
      → (issue_session g c m).0 ≡ some cookie
      → (raw : Str) × (base64_decode cookie ≡ some raw)
        × (csrf : Str) × (lookup (g.sha256 raw) (issue_session g c m).1.sessions
            ≡ some (record { expires = issue_time m + c.session_ttl; csrf = csrf }))
  unfolding issue_session
  issue_session_inv m cookie bytes soon h = elim (Option-cases (g.random.read 32 m.rest).0) [
    | inl e ↦ absurd (ground arith)
    | inr (raw, read) ↦ elim (Option-cases (g.random.read 24 (g.random.read 32 m.rest).1).0) [
      | inl e ↦ absurd (ground arith)
      | inr (second, read') ↦
          let csrf = base64_encode second in
          let entry : Session = record { expires = issue_time m + c.session_ttl; csrf = csrf } in
          let added = insert (g.sha256 raw) entry m.sessions in
          let there : lookup (g.sha256 raw) added ≡ some entry = ground (
            arith,
            lookup-insert (g.sha256 raw) (g.sha256 raw) entry m.sessions,
            str_eq_refl (g.sha256 raw),
          ) in
          let stays : session_stays (purge_time m) (g.sha256 raw, entry) ≡ true = ground arith in
          let kept =
            lookup-keep_if (session_stays (purge_time m)) (g.sha256 raw) entry added there stays in
          let back = base64_decode-encode raw (bytes 32 m.rest raw read) in
          (raw, ground arith, csrf, ground arith)
    ]
  ]

  -- The cookie of a session that was issued: a request that carries it is authenticated at every time
  -- before the session's end, which is the session's lifetime after its issue, and not from then on;
  -- and after a logout with it, it is not authenticated at any time. This holds if the random source
  -- gives bytes and the clearing out at the end of the issue comes before the session's end.
  pub issue_session-authenticated :
      (m : Manager C D S) (cookie : Str) (r : Request) (later : S)
      → ReadsBytes g.random
      → purge_time m ≤ issue_time m + c.session_ttl
      → (issue_session g c m).0 ≡ some cookie
      → r.session_cookie ≡ some cookie
      → ((authenticated g c r (with_rest later (issue_session g c m).1)).0
          ≡ ltb (g.tick later).0 (issue_time m + c.session_ttl))
        × ((authenticated g c r (with_rest later (logout g c r (issue_session g c m).1).1)).0
            ≡ false)
  unfolding authenticated session_for_request logout
  issue_session-authenticated m cookie r later bytes soon h carried =
      let (raw, decoded, csrf, there) = issue_session_inv m cookie bytes soon h in
      let m' = (issue_session g c m).1 in
      let key : cookie_bytes r.session_cookie ≡ some raw = ground arith in
      let gone : lookup (g.sha256 raw) (delete (g.sha256 raw) m'.sessions) ≡ none = ground (
        arith,
        lookup-delete (g.sha256 raw) (g.sha256 raw) m'.sessions,
        str_eq_refl (g.sha256 raw),
      ) in
      (ground arith, ground arith)
