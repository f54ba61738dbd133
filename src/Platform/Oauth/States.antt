-- ===== src/Platform/Oauth/States.antt =====
-- internal/platform/xoauth.go: the pending authorizations, and the exchange of a code for tokens. A map
-- with keys of 32 bytes is an association list.
use nomadposting.Prelude.{
  ℕ, ◌+◌, ◌*◌, Bool, not, ◌||◌, [], ◌∷◌, ◌++◌, Option, none, some, Str, text, str_eq, has_byte,
  length, ltb, ◌==◌, keep_if, Result, ok, err, reject_if, or_fail, if◌then◌else◌,
}
use nomadposting.Prelude.Assoc.{Assoc, lookup, insert, delete}
use nomadposting.Random.{Random, Draw, ◌>>=◌, ◌>>◌, lift}
use nomadposting.Unicode.{is_blank}
use nomadposting.Clock.{Time}
use nomadposting.Encoding.Base64.{base64_encode, base64_decode}
use nomadposting.Domain.Content.{cr, lf}
use nomadposting.Platform.X.Status.{nanos_per_second}
use nomadposting.Platform.Oauth.Values.{Values, encode_values}
use nomadposting.Platform.Oauth.Answers.{
  OauthError, no_binding, no_entropy, bad_state_text, invalid_state, expired_state, invalid_code,
  no_offline_token,
}
use nomadposting.Platform.Oauth.Custody.{Parts, request_tokens, save_tokens}

-- `xOAuthState`.
pub record Pending : Type 0 where
  pub verifier : Str
  pub binding_hash : Str
  pub expires_at : Time

-- The manager's state and that of what it was given.
pub record World (S : Type 0) : Type 0 where
  pub states : Assoc Pending
  pub rest : S

abbrev pub with_states : {S : Type 0} → Assoc Pending → World S → World S
with_states states w = record { states = states; rest = w.rest }

abbrev pub on_rest : {S A : Type 0} → World S → A × S → A × World S
on_rest w (a, s) = (a, record { states = w.states; rest = s })

abbrev pub five_minutes : ℕ
five_minutes = 5 * 60 * nanos_per_second

abbrev pub is_pending : Time → Str × Pending → Bool
is_pending now entry = ltb now entry.1.expires_at

abbrev pub is_invalid_code : Str → Bool
is_invalid_code code =
    is_blank code || ltb 4096 (length code) || (has_byte cr code || has_byte lf code)

abbrev pub encoded : {S : Type 0} → Option Str × S → Result OauthError Str × S
encoded (none, s) = (err no_entropy, s)
encoded (some raw, s) = (ok (base64_encode raw), s)

module _ {S : Type 0} (sha256 : Str → Str) (random : Random S) (p : Parts S) where
  -- `randomOAuthValue`.
  abbrev pub random_value : ℕ → Draw (World S) OauthError Str
  random_value n w = on_rest w (encoded (random.read n w.rest))

  abbrev pub pending_of : (verifier binding : Str) → Time → Pending
  pending_of verifier binding now = record {
    verifier = verifier;
    binding_hash = sha256 binding;
    expires_at = now + five_minutes;
  }

  -- The map after `Begin` at some time.
  abbrev pub remembered : (key verifier binding : Str) → World S → World S
  remembered key verifier binding w =
      with_states
        (insert key (pending_of verifier binding (p.now w.rest))
          (keep_if (is_pending (p.now w.rest)) w.states))
        w

  abbrev pub remember : (key verifier binding : Str) → Draw (World S) OauthError (Unit {0})
  remember key verifier binding w = (ok tt, remembered key verifier binding w)

  abbrev pub authorize_values : (state verifier : Str) → Values
  authorize_values state verifier =
      (text "response_type", text "code")
      ∷ (text "client_id", p.client_id)
      ∷ (text "redirect_uri", p.redirect_uri)
      ∷ (text "scope", text "offline.access tweet.read tweet.write users.read")
      ∷ (text "state", state)
      ∷ (text "code_challenge", base64_encode (sha256 verifier))
      ∷ (text "code_challenge_method", text "S256")
      ∷ []

  abbrev pub authorize_url : (state verifier : Str) → Str
  authorize_url state verifier =
      text "https://x.com/i/oauth2/authorize?" ++ encode_values (authorize_values state verifier)

  -- `Begin`. Beside the URL the answer shows the state and the verifier that were drawn.
  unfoldable pub begin_drawn : Str → Draw (World S) OauthError (Str × Str)
  begin_drawn binding = do
    lift (reject_if (length binding == 0) no_binding)
    state ← random_value 32
    verifier ← random_value 32
    raw ← lift (or_fail (base64_decode state) bad_state_text)
    remember (sha256 raw) verifier binding
    lift (ok (state, verifier))

  unfoldable pub begin : Str → Draw (World S) OauthError Str
  unfolding begin_drawn
  begin binding = do drawn ← begin_drawn binding; lift (ok (authorize_url drawn.0 drawn.1))

  -- The bytes of a state that has the right form, which `consumeState` looks up.
  unfoldable pub state_bytes : (state binding : Str) → Result OauthError Str
  state_bytes state binding = elim (base64_decode state) [
    | none ↦ err invalid_state
    | some raw ↦ if not (length raw == 32) || length binding == 0 then err invalid_state else ok raw
  ]

  abbrev pub matched : Option Pending → Str → Time → Result OauthError Str
  matched none binding now = err expired_state
  matched (some pending) binding now =
      if not (ltb now pending.expires_at) || not (str_eq pending.binding_hash (sha256 binding))
      then err expired_state
      else ok pending.verifier

  -- The look-up and the removal.
  abbrev pub take_state : (raw binding : Str) → Draw (World S) OauthError Str
  take_state raw binding w = (
    matched (lookup (sha256 raw) w.states) binding (p.now w.rest),
    with_states (delete (sha256 raw) w.states) w,
  )

  -- `consumeState`.
  unfoldable pub consume_state : (state binding : Str) → Draw (World S) OauthError Str
  unfolding state_bytes
  consume_state state binding = do raw ← lift (state_bytes state binding); take_state raw binding

  abbrev pub exchange_values : (code verifier : Str) → Values
  exchange_values code verifier =
      (text "code", code)
      ∷ (text "grant_type", text "authorization_code")
      ∷ (text "client_id", p.client_id)
      ∷ (text "redirect_uri", p.redirect_uri)
      ∷ (text "code_verifier", verifier)
      ∷ []

  abbrev pub below : {A : Type 0} → Draw S OauthError A → Draw (World S) OauthError A
  below m w = on_rest w (m w.rest)

  -- `Exchange`.
  unfoldable pub exchange : (state binding code : Str) → Draw (World S) OauthError (Unit {0})
  unfolding consume_state
  exchange state binding code = do
    verifier ← consume_state state binding
    lift (reject_if (is_invalid_code code) invalid_code)
    tokens ← below (request_tokens p (exchange_values code verifier))
    lift (reject_if (length tokens.refresh_token == 0) no_offline_token)
    below (save_tokens p tokens)
