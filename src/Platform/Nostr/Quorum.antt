-- ===== src/Platform/Nostr/Quorum.antt =====
-- internal/platform/nostr.go: a publication to three relays against a direct description: the relays'
-- answers in order, and the number of those that accepted.
use nomadposting.Prelude.{
  pos, ◌≤◌, ◌≡◌, refl, ap, sym, ◌∙◌, subst, ◌⊎◌, inl, inr, ◌↔◌, true, false, List, [], ◌∷◌, Option,
  none, some, Str, text, length, ◌==◌, Result, ok, arith, Bool-cases, Result-cases,
}
use nomadposting.Prelude.Order.{sort_by}
use nomadposting.Unicode.{is_blank, valid_string}
use nomadposting.Clock.{Time, unix_seconds}
use nomadposting.Platform.Contracts.{nostr, complete, partial, failed, PublishCommand, Receipt}
use nomadposting.Platform.Errors.{PlatformError, failure, invalid_payload}
use nomadposting.Platform.Nostr.Event.{UnsignedNostrEvent, NostrEvent, event_id}
use nomadposting.Platform.Nostr.Signer.{Nip46Signer, ask_public_key}
use nomadposting.Platform.Nostr.Signed.{IsEventOf, sign_nostr_event-IsEventOf}
use nomadposting.Platform.Nostr.Connector.{
  Publisher, new_nostr_connector, any_bad, has_twin, recorded, Tally, counted, note_of, is_bad_text,
  deliver, finish, sign_note, publish,
}
use nomadposting.Platform.Nostr.Relays.{
  acceptances, acceptances-le, verdict_iff, answers, Heard, length-answers, answers-Heard,
  tally_after-none, tally_after-counted, no_answers, tally_of, tally_after,
}

module _ {S : Type 0} (sha256 : Str → Str) (signer : Nip46Signer S) (publisher : Publisher S) where
  deliver-answers :
      (e : NostrEvent) (relays : List Str) (t : Tally) (s : S)
      → deliver sha256 signer publisher e relays t s ≡ (
        tally_after publisher t (answers publisher e relays s).0,
        (answers publisher e relays s).1,
      )
  unfolding deliver answers counted
  deliver-answers e [] t s = ap (λ t'. (t', s)) (sym (tally_after-none publisher t))
  deliver-answers e (relay ∷ relays) t s =
      let (answer, s') = publisher relay e s in
      deliver-answers e relays (counted t (recorded relay answer)) s'
      ∙ ap (λ t'. (t', (answers publisher e relays s').1))
          (tally_after-counted publisher t (recorded relay answer)
            (answers publisher e relays s').0)

  deliver_all :
      (e : NostrEvent) (relays : List Str) (s : S)
      → deliver sha256 signer publisher e relays (no_answers publisher) s
        ≡ (tally_of publisher (answers publisher e relays s).0, (answers publisher e relays s).1)
  deliver_all e relays s = ground (arith, deliver-answers e relays (no_answers publisher) s)

  -- The text note of a command at some time, before it is signed.
  pub record IsNote (key : Str) (at : Time) (command : PublishCommand) (u : UnsignedNostrEvent)
      : Type 0 where
    pub pubkey : u.pubkey ≡ key
    pub created_at : u.created_at ≡ unix_seconds at
    pub kind : u.kind ≡ pos 1
    pub tags : u.tags ≡ some []
    pub content : u.content ≡ command.content

  note_of-IsNote :
      (key : Str) (at : Time) (command : PublishCommand)
      → IsNote key at command (note_of key at command)
  note_of-IsNote key at command = record {
    pubkey = refl;
    created_at = refl;
    kind = refl;
    tags = refl;
    content = refl;
  }

  -- A text that is not blank, is UTF-8 and holds at most 64 KiB.
  abbrev pub IsGood : Str → Type 0
  IsGood content =
      (is_blank content ≡ false) × (valid_string content ≡ true) × (length content ≤ 65536)

  is_bad_text-IsGood : (content : Str) → is_bad_text content ≡ false → IsGood content
  unfolding is_bad_text
  is_bad_text-IsGood content h = (ground arith, ground arith, ground arith)

  abbrev pub signed_note : Time → PublishCommand → S → Result PlatformError NostrEvent × S
  signed_note at command s =
      sign_note sha256 signer publisher at command (ask_public_key sha256 signer s)

  -- How `Publish` ends. `stopped` names the state it ends in: no relay was asked for anything.
  pub data Publication (relays : List Str) (at : Time) (command : PublishCommand) (s : S)
      (out : (Receipt × Option PlatformError) × S) : Type 0 where
    stopped :
        (f : PlatformError)
        → out.0.1 ≡ some f
        → out.0.0.state ≡ failed
        → out.0.0.attempt_count ≡ 0
        → out.0.0.relay_results ≡ []
        → out.0.0.external_id ≡ []
        → (out.1 ≡ s) ⊎ (out.1 ≡ (signed_note at command s).1)
        → Publication relays at command s out
    sent :
        (key id : Str) (u : UnsignedNostrEvent) (e : NostrEvent) (s' : S)
        → IsGood command.content
        → signed_note at command s ≡ (ok e, s')
        → (ask_public_key sha256 signer s).0 ≡ ok key
        → IsNote key at command u
        → event_id sha256 u ≡ ok id
        → IsEventOf u id e
        → Heard publisher e relays s' out.0.0.relay_results out.1
        → out.0.0.attempt_count ≡ length relays
        → out.0.0.external_id ≡ id
        → ((out.0.0.state ≡ complete) ↔ (2 ≤ acceptances out.0.0.relay_results))
        → ((out.0.0.state ≡ partial) ↔ (acceptances out.0.0.relay_results ≡ 1))
        → ((out.0.0.state ≡ failed) ↔ (acceptances out.0.0.relay_results ≡ 0))
        → ((out.0.1 ≡ none) ↔ (2 ≤ acceptances out.0.0.relay_results))
        → Publication relays at command s out

  signed_note_inv :
      (at : Time) (command : PublishCommand) (s s' : S) {e : NostrEvent}
      → signed_note at command s ≡ (ok e, s')
      → (key : Str) × (id : Str) × ((ask_public_key sha256 signer s).0 ≡ ok key)
        × (event_id sha256 (note_of key at command) ≡ ok id)
        × IsEventOf (note_of key at command) id e
  signed_note_inv at command s s' {e} h = elim (Result-cases (ask_public_key sha256 signer s).0) [
    | inl (_, f) ↦ absurd (ground arith)
    | inr (key, shown) ↦
        let (_, _, _, id, found, of, _) =
          sign_nostr_event-IsEventOf sha256 signer (note_of key at command)
            (ask_public_key sha256 signer s).1 e (ground arith) in
        (key, id, shown, found, of)
  ]

  new_nostr_connector_three :
      (relays kept : List Str)
      → new_nostr_connector relays ≡ ok kept
      → (kept ≡ relays) × (length kept ≡ 3)
  unfolding new_nostr_connector
  new_nostr_connector_three relays kept h = elim (Bool-cases (length relays == 3)) [
    | inl three ↦ elim (Bool-cases (any_bad relays)) [
      | inl e ↦ absurd (ground arith)
      | inr e ↦ elim (Bool-cases (has_twin (sort_by (λ r. r) relays))) [
        | inl e' ↦ absurd (ground arith)
        | inr e' ↦ (ground arith, ground arith)
      ]
    ]
    | inr e ↦ absurd (ground arith)
  ]

  finish-Publication :
      (relays : List Str) (at : Time) (command : PublishCommand) (s s' : S) (e : NostrEvent)
      → length relays ≡ 3
      → is_bad_text command.content ≡ false
      → signed_note at command s ≡ (ok e, s')
      → Publication relays at command s (
          finish sha256 signer publisher at e
            (deliver sha256 signer publisher e relays (no_answers publisher) s'))
  finish-Publication relays at command s s' e three good signed =
      let (key, id, shown, found, of) = signed_note_inv at command s s' signed in
      let (rs, s'') = answers publisher e relays s' in
      let few : acceptances rs ≤ 3 =
        ground (arith, acceptances-le rs, length-answers publisher e relays s') in
      let (a, b, c, d) = verdict_iff (acceptances rs) few in
      subst (λ o. Publication relays at command s (finish sha256 signer publisher at e o))
        (sym (deliver_all e relays s'))
        (sent key id (note_of key at command) e s' (is_bad_text-IsGood command.content good) signed
          shown (note_of-IsNote key at command) found of (answers-Heard publisher e relays s')
          (length-answers publisher e relays s') of.0 a b c d)

  -- `Publish` of a connector that `NewNostrConnector` made. Either it reports an error and the initial
  -- receipt, FAILED with no attempt, and nothing happened beyond what the signer was asked; or the
  -- text was not blank, valid and short enough, one event was signed, which is a text note of the
  -- signer's key at that time without tags, with exactly the command's content and under its own
  -- ID, and each of the three relays was given that event once, in order. The receipt then holds
  -- the event's ID, the number of relays as its attempts and what each answered, and it is COMPLETE without an error exactly if at least two accepted, PARTIAL exactly if one did
  -- and FAILED exactly if none did.
  pub publish-Publication :
      (relays kept : List Str) (at : Time) (command : PublishCommand) (s : S)
      → new_nostr_connector relays ≡ ok kept
      → Publication relays at command s (publish sha256 signer publisher kept at command s)
  unfolding publish
  publish-Publication relays kept at command s made =
      let (same, three) = new_nostr_connector_three relays kept made in
      subst (λ r. Publication r at command s (publish sha256 signer publisher kept at command s))
        same
        (elim (Bool-cases (is_bad_text command.content)) [
          | inl bad ↦
              stopped (failure nostr invalid_payload (text "Nostr text is invalid")) (ground arith)
                (ground arith) (ground arith) (ground arith) (ground arith) (inl (ground arith))
          | inr good ↦ elim (Result-cases (signed_note at command s).0) [
            | inl (f, e) ↦
                stopped f (ground arith) (ground arith) (ground arith) (ground arith) (ground arith)
                  (inr (ground arith))
            | inr (e, signed) ↦
                let s' = (signed_note at command s).1 in
                let all_sent : finish sha256 signer publisher at e
                      (deliver sha256 signer publisher e kept (no_answers publisher) s')
                    ≡ publish sha256 signer publisher kept at command s =
                  ground arith in
                subst (λ o. Publication kept at command s o) all_sent
                  (finish-Publication kept at command s s' e three good (ground arith))
          ]
        ])
