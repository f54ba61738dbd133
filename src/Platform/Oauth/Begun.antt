-- ===== src/Platform/Oauth/Begun.antt =====
-- internal/platform/xoauth.go: from the begin of an authorization to the return of its state.
use nomadposting.Prelude.{
  ℕ, ◌+◌, ◌<◌, ◌≡◌, ap, ◌≢◌, inl, inr, true, some, Option-cases, Str, str_eq_refl, length, ltb,
  ◌==◌, ok, arith, Bool-cases, Result-cases, keep_if,
}
use nomadposting.Prelude.Assoc.{lookup, lookup-insert}
use nomadposting.Random.{Random, ReadsBytes}
use nomadposting.Encoding.Base64.{base64_encode, base64_decode}
use nomadposting.Encoding.Base64.RoundTrip.{base64_decode-encode}
use nomadposting.Platform.Oauth.Custody.{Parts}
use nomadposting.Platform.Oauth.States.{
  World, five_minutes, is_pending, random_value, pending_of, remembered, begin_drawn, state_bytes,
  matched, consume_state,
}

module _ {S : Type 0} (sha256 : Str → Str) (random : Random S) (p : Parts S) where
  random_value_inv :
      (n : ℕ) (w : World S) (value : Str)
      → (random_value sha256 random p n w).0 ≡ ok value
      → (raw : Str) × ((random.read n w.rest).0 ≡ some raw)
        × (value ≡ base64_encode raw)
        × ((random_value sha256 random p n w).1
            ≡ record { states = w.states; rest = (random.read n w.rest).1 })
  random_value_inv n w value h = elim (Option-cases (random.read n w.rest).0) [
    | inl e ↦ absurd (ground arith)
    | inr (raw, e) ↦ (raw, e, ground arith, ground arith)
  ]

  -- What `Begin` leaves: the pending authorization under the hash of the bytes that the state spells.
  begin_drawn_inv :
      (binding state verifier : Str) (w : World S)
      → ReadsBytes random
      → (begin_drawn sha256 random p binding w).0 ≡ ok (state, verifier)
      → (raw : Str) × (base64_decode state ≡ some raw)
        × (length raw ≡ 32)
        × (length binding ≢ 0)
        × (mid : World S) × ((begin_drawn sha256 random p binding w).1
            ≡ remembered sha256 random p (sha256 raw) verifier binding mid)
  unfolding begin_drawn
  begin_drawn_inv binding state verifier w bytes h = elim (Bool-cases (length binding == 0)) [
    | inl e ↦ absurd (ground arith)
    | inr bound ↦ elim (Result-cases (random_value sha256 random p 32 w).0) [
      | inl (_, e) ↦ absurd (ground arith)
      | inr (s, first) ↦
          let w1 = (random_value sha256 random p 32 w).1 in
          elim (Result-cases (random_value sha256 random p 32 w1).0) [
            | inl (_, e) ↦ absurd (ground arith)
            | inr (v, second) ↦
                let w2 = (random_value sha256 random p 32 w1).1 in
                let (raw, drawn, shown, _) = random_value_inv 32 w s first in
                let back = base64_decode-encode raw (bytes 32 w.rest raw drawn) in
                let decoded : base64_decode s ≡ some raw = ground arith in
                (
                  raw,
                  ground arith,
                  random.read_length 32 w.rest drawn,
                  ground arith,
                  w2,
                  ground arith,
                )
          ]
    ]
  ]

  -- An authorization that `Begin` started is taken up again by the state that it gave to the browser, with
  -- the same session binding and as long as five minutes have not passed, and with the verifier
  -- that `Begin` drew with it: this if the random source gives bytes, and if what the map
  -- holds is what `Begin` left.
  pub begin-consume_state :
      (binding state verifier : Str) (w : World S) (later : S)
      → ReadsBytes random
      → (begin_drawn sha256 random p binding w).0 ≡ ok (state, verifier)
      → p.now later < p.now (begin_drawn sha256 random p binding w).1.rest + 300000000000
      → (consume_state sha256 random p state binding
          (record { states = (begin_drawn sha256 random p binding w).1.states; rest = later })).0
        ≡ ok verifier
  unfolding consume_state state_bytes
  begin-consume_state binding state verifier w later bytes h soon =
      let (raw, decoded, long, bound, mid, left) =
        begin_drawn_inv binding state verifier w bytes h in
      let pending = pending_of sha256 random p verifier binding (p.now mid.rest) in
      let kept = keep_if (is_pending (p.now mid.rest)) mid.states in
      let found : lookup (sha256 raw) (begin_drawn sha256 random p binding w).1.states
          ≡ some pending =
        ground
          (arith, lookup-insert (sha256 raw) (sha256 raw) pending kept, str_eq_refl (sha256 raw)) in
      let same_time : p.now (begin_drawn sha256 random p binding w).1.rest ≡ p.now mid.rest =
        ap (λ (v : World S). p.now v.rest) left in
      let alive : ltb (p.now later) (p.now mid.rest + five_minutes) ≡ true = ground arith in
      let fits = str_eq_refl (sha256 binding) in
      let accepted : matched sha256 random p (some pending) binding (p.now later) ≡ ok verifier =
        ground arith in
      ground arith
