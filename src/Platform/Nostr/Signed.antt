-- ===== src/Platform/Nostr/Signed.antt =====
-- internal/platform/nostr.go: what `SignNostrEvent` accepts from a remote signer.
use nomadposting.Prelude.{
  ◌≡◌, refl, ap, subst, ◌⊎◌, inl, inr, true, not, ◌&&◌, ◌||◌, List, [], ◌∷◌, Option, none, some,
  Str, str_eq, str_eq_iff, ℤ, pos, negsuc, eqb_ℤ, ok, arith, Bool-cases, Result-cases,
}
use nomadposting.Platform.Nostr.Event.{
  UnsignedNostrEvent, NostrEvent, Tags, kind_text_note, kind_relay_auth, is_lower_hex, event_id,
}
use nomadposting.Platform.Nostr.Signer.{
  Nip46Signer, texts_eq, tag_eq, tag_list_eq, tags_eq, is_requested, validate_signed_envelope,
  ask_public_key, ask_signature, check_request, sign_nostr_event,
}

texts_eq→≡ : (ss ts : List Str) → texts_eq ss ts ≡ true → ss ≡ ts
texts_eq→≡ [] [] h = refl
texts_eq→≡ [] (t ∷ ts) h = cc
texts_eq→≡ (s ∷ ss) [] h = cc
texts_eq→≡ (s ∷ ss) (t ∷ ts) h = ground (arith, str_eq_iff s t, texts_eq→≡ ss ts)

tag_eq→≡ : (s t : Option (List Str)) → tag_eq s t ≡ true → s ≡ t
tag_eq→≡ none none h = refl
tag_eq→≡ none (some t) h = cc
tag_eq→≡ (some s) none h = cc
tag_eq→≡ (some s) (some t) h = ap some (texts_eq→≡ s t h)

tag_list_eq→≡ : (ss ts : List (Option (List Str))) → tag_list_eq ss ts ≡ true → ss ≡ ts
tag_list_eq→≡ [] [] h = refl
tag_list_eq→≡ [] (t ∷ ts) h = cc
tag_list_eq→≡ (s ∷ ss) [] h = cc
tag_list_eq→≡ (s ∷ ss) (t ∷ ts) h = ground (arith, tag_eq→≡ s t, tag_list_eq→≡ ss ts)

tags_eq→≡ : (s t : Tags) → tags_eq s t ≡ true → s ≡ t
tags_eq→≡ none none h = refl
tags_eq→≡ none (some t) h = cc
tags_eq→≡ (some s) none h = cc
tags_eq→≡ (some s) (some t) h = ap some (tag_list_eq→≡ s t h)

eqb_ℤ→≡ : (m n : ℤ) → eqb_ℤ m n ≡ true → m ≡ n
eqb_ℤ→≡ (pos m) (pos n) h = ground arith
eqb_ℤ→≡ (pos m) (negsuc n) h = absurd (ground arith)
eqb_ℤ→≡ (negsuc m) (pos n) h = absurd (ground arith)
eqb_ℤ→≡ (negsuc m) (negsuc n) h = ground arith

-- The event that was asked for, under its ID, with some signature.
abbrev pub IsEventOf : UnsignedNostrEvent → Str → NostrEvent → Type 0
IsEventOf u id e =
    (e.id ≡ id)
    × (e.pubkey ≡ u.pubkey)
    × (e.created_at ≡ u.created_at)
    × (e.kind ≡ u.kind)
    × (e.tags ≡ u.tags)
    × (e.content ≡ u.content)

is_requested-IsEventOf :
    (u : UnsignedNostrEvent) (id : Str) (e : NostrEvent)
    → is_requested u id e ≡ true
    → IsEventOf u id e
unfolding is_requested
is_requested-IsEventOf u id e h = (
  ground (arith, str_eq_iff e.id id),
  ground (arith, str_eq_iff e.pubkey u.pubkey),
  ground (arith, eqb_ℤ→≡ e.created_at u.created_at),
  ground (arith, eqb_ℤ→≡ e.kind u.kind),
  ground (arith, tags_eq→≡ e.tags u.tags),
  ground (arith, str_eq_iff e.content u.content),
)

validate_signed_envelope_inv :
    (u : UnsignedNostrEvent) (id : Str) (e : NostrEvent)
    → validate_signed_envelope u id e ≡ ok tt
    → IsEventOf u id e × (is_lower_hex e.sig 128 ≡ true)
unfolding validate_signed_envelope
validate_signed_envelope_inv u id e h = elim (Bool-cases (is_requested u id e)) [
  | inl same ↦ (is_requested-IsEventOf u id e same, ground arith)
  | inr other ↦ absurd (ground arith)
]

module _ {S : Type 0} (sha256 : Str → Str) (signer : Nip46Signer S) where
  check_request_inv :
      (u : UnsignedNostrEvent) (s : S) {id : Str}
      → (check_request sha256 signer u s).0 ≡ ok id
      → ((u.kind ≡ kind_text_note) ⊎ (u.kind ≡ kind_relay_auth))
        × ((ask_public_key sha256 signer s).0 ≡ ok u.pubkey)
        × (is_lower_hex u.pubkey 64 ≡ true)
        × (event_id sha256 u ≡ ok id)
  unfolding check_request
  check_request_inv u s h =
      let is_note = eqb_ℤ u.kind kind_text_note in
      let is_auth = eqb_ℤ u.kind kind_relay_auth in
      elim (Bool-cases (not is_note && not is_auth)) [
        | inl e ↦ absurd (ground arith)
        | inr permitted ↦ elim (Result-cases (ask_public_key sha256 signer s).0) [
          | inl (_, e) ↦ absurd (ground arith)
          | inr (key, shown) ↦
              elim (Bool-cases (not (is_lower_hex key 64) || not (str_eq u.pubkey key))) [
                | inl e ↦ absurd (ground arith)
                | inr fits ↦ (
                  ground (arith, eqb_ℤ→≡ u.kind kind_text_note, eqb_ℤ→≡ u.kind kind_relay_auth),
                  ground (arith, str_eq_iff u.pubkey key),
                  ground (arith, str_eq_iff u.pubkey key),
                  ground arith,
                )
              ]
        ]
      ]

  -- Whatever a remote signer answers, an event that `SignNostrEvent` returns is the one that was asked
  -- for: its kind is a text note or a relay authentication, its public key is the one the signer
  -- answered with, 64 lower-case hex digits, the request was valid and the event carries the ID
  -- computed from it, time, kind, tags and content are those requested, and the signature is 128
  -- lower-case hex digits.
  pub sign_nostr_event-IsEventOf :
      (u : UnsignedNostrEvent) (s : S) (e : NostrEvent)
      → (sign_nostr_event sha256 signer u s).0 ≡ ok e
      → ((u.kind ≡ kind_text_note) ⊎ (u.kind ≡ kind_relay_auth))
        × ((ask_public_key sha256 signer s).0 ≡ ok u.pubkey)
        × (is_lower_hex u.pubkey 64 ≡ true)
        × (id : Str) × (event_id sha256 u ≡ ok id)
        × IsEventOf u id e
        × (is_lower_hex e.sig 128 ≡ true)
  unfolding sign_nostr_event
  sign_nostr_event-IsEventOf u s e h = elim (Result-cases (check_request sha256 signer u s).0) [
    | inl (_, e') ↦ absurd (ground arith)
    | inr (id, checked) ↦
        let w = check_request sha256 signer u s in
        elim (Result-cases (ask_signature sha256 signer u w.1).0) [
          | inl (_, e') ↦ absurd (ground arith)
          | inr (signed, e') ↦ elim (Result-cases (validate_signed_envelope u id signed)) [
            | inl (_, e'') ↦ absurd (ground arith)
            | inr (tt, valid) ↦
                let same : signed ≡ e = ground arith in
                let (a, b, c, d) = check_request_inv u s checked in
                let (of, sig) =
                  validate_signed_envelope_inv u id e
                    (subst (λ x. validate_signed_envelope u id x ≡ ok tt) same valid) in
                (a, b, c, id, d, of, sig)
          ]
        ]
  ]
