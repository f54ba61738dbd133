-- ===== src/Platform/Oauth/Once.antt =====
-- internal/platform/xoauth.go: the states of authorizations, which are used once.
use nomadposting.Prelude.{
  ◌<◌, ◌≡◌, refl, ◌≢◌, inl, inr, Option, none, some, Option-cases, Str, str_eq_iff, str_eq_refl,
  length, ok, arith, Result-cases,
}
use nomadposting.Prelude.Assoc.{lookup, delete, lookup-delete}
use nomadposting.Random.{Random}
use nomadposting.Encoding.Base64.{base64_decode}
use nomadposting.Clock.{Time}
use nomadposting.Platform.Oauth.Custody.{Parts}
use nomadposting.Platform.Oauth.States.{
  Pending, World, state_bytes, matched, take_state, consume_state,
}

module _ {S : Type 0} (sha256 : Str → Str) (random : Random S) (p : Parts S) where
  state_bytes_inv :
      (state binding raw : Str)
      → state_bytes sha256 random p state binding ≡ ok raw
      → (base64_decode state ≡ some raw) × (length raw ≡ 32)
  unfolding state_bytes
  state_bytes_inv state binding raw h = elim (Option-cases (base64_decode state)) [
    | inl e ↦ absurd (ground arith)
    | inr (bytes, e) ↦ (ground arith, ground arith)
  ]

  matched_inv :
      (found : Option Pending) (binding verifier : Str) (now : Time)
      → matched sha256 random p found binding now ≡ ok verifier
      → (pending : Pending) × (found ≡ some pending)
        × (now < pending.expires_at)
        × (pending.binding_hash ≡ sha256 binding)
        × (verifier ≡ pending.verifier)
  matched_inv none binding verifier now h = absurd (ground arith)
  matched_inv (some pending) binding verifier now h = (
    pending,
    refl,
    ground arith,
    ground (arith, str_eq_iff pending.binding_hash (sha256 binding)),
    ground arith,
  )

  take_state_again :
      (raw binding : Str) (w : World S) (other verifier : Str) (later : S)
      → (take_state sha256 random p raw other
          (record { states = (take_state sha256 random p raw binding w).1.states; rest = later })).0
        ≢ ok verifier
  take_state_again raw binding w other verifier later h =
      let gone : lookup (sha256 raw) (delete (sha256 raw) w.states) ≡ none =
        ground
          (arith, lookup-delete (sha256 raw) (sha256 raw) w.states, str_eq_refl (sha256 raw)) in
      ground arith

  consumed_again :
      (state binding : Str) (w : World S) (other v : Str) (later : S) (raw : Str)
      → state_bytes sha256 random p state binding ≡ ok raw
      → (consume_state sha256 random p state other (record {
        states = (consume_state sha256 random p state binding w).1.states;
        rest = later;
      })).0
        ≢ ok v
  unfolding consume_state
  consumed_again state binding w other v later raw e again =
      elim (Result-cases (state_bytes sha256 random p state other)) [
        | inl (_, e') ↦ absurd (ground arith)
        | inr (raw', e') ↦
            let same : raw' ≡ raw =
              ground
                (arith, state_bytes_inv state binding raw e, state_bytes_inv state other raw' e') in
            absurd (ground (arith, take_state_again raw binding w other v later))
      ]

  -- A state that `consumeState` accepts, at some time with some session binding, is the text of 32 bytes
  -- under whose hash an authorization was pending that was begun with that binding and has not
  -- expired; the answer is that authorization's verifier. Afterwards the state is never accepted
  -- again from the map that is left, with whatever binding and at whatever time.
  pub consume_state-once :
      (state binding verifier : Str) (w : World S) (other v : Str) (later : S)
      → (consume_state sha256 random p state binding w).0 ≡ ok verifier
      → (raw : Str) × (base64_decode state ≡ some raw)
        × (length raw ≡ 32)
        × (pending : Pending) × (lookup (sha256 raw) w.states ≡ some pending)
        × (p.now w.rest < pending.expires_at)
        × (pending.binding_hash ≡ sha256 binding)
        × (verifier ≡ pending.verifier)
        × ((consume_state sha256 random p state other (record {
          states = (consume_state sha256 random p state binding w).1.states;
          rest = later;
        })).0
            ≢ ok v)
  unfolding consume_state
  consume_state-once state binding verifier w other v later h =
      elim (Result-cases (state_bytes sha256 random p state binding)) [
        | inl (_, e) ↦ absurd (ground arith)
        | inr (raw, e) ↦
            let (decoded, long) = state_bytes_inv state binding raw e in
            let (pending, found, alive, bound, same) =
              matched_inv (lookup (sha256 raw) w.states) binding verifier (p.now w.rest)
                (ground arith) in
            (
              raw,
              decoded,
              long,
              pending,
              found,
              alive,
              bound,
              same,
              consumed_again state binding w other v later raw e,
            )
      ]
