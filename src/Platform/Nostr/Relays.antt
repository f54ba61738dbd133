-- ===== src/Platform/Nostr/Relays.antt =====
-- internal/platform/nostr.go: relays asked one after the other, and what the loop over them keeps of their
-- answers.
use nomadposting.Prelude.{
  ℕ, zero, suc, ◌+◌, ◌≤◌, ◌≡◌, refl, ◌⊎◌, inl, inr, ◌↔◌, true, false, List, [], ◌∷◌, ◌++◌, none,
  some, Str, text, length, if◌then◌else◌, arith, Option-cases,
}
use mathlib.Core.List.{append-nil, append_assoc}
use nomadposting.Platform.Contracts.{complete, partial, failed, RelayResult}
use nomadposting.Platform.Nostr.Event.{NostrEvent}
use nomadposting.Platform.Nostr.Connector.{
  Publisher, normalize_relay_code, recorded, Tally, counted, verdict,
}

abbrev pub acceptances : List RelayResult → ℕ
acceptances [] = 0
acceptances (r ∷ rs) = (if r.accepted then 1 else 0) + acceptances rs

pub acceptances-le : (rs : List RelayResult) → acceptances rs ≤ length rs
acceptances-le [] = omega arith
acceptances-le (r ∷ rs) = ground (arith, acceptances-le rs)

-- The end of a publication of which at most three relays accepted `n`.
pub verdict_iff :
    (n : ℕ)
    → n ≤ 3
    → (((verdict n).0 ≡ complete) ↔ (2 ≤ n))
      × (((verdict n).0 ≡ partial) ↔ (n ≡ 1))
      × (((verdict n).0 ≡ failed) ↔ (n ≡ 0))
      × (((verdict n).1 ≡ none) ↔ (2 ≤ n))
unfolding verdict
verdict_iff zero h = (ground arith, ground arith, ground arith, ground arith)
verdict_iff (suc zero) h = (ground arith, ground arith, ground arith, ground arith)
verdict_iff (suc (suc zero)) h = (ground arith, ground arith, ground arith, ground arith)
verdict_iff (suc (suc (suc zero))) h = (ground arith, ground arith, ground arith, ground arith)
verdict_iff (suc (suc (suc (suc n)))) h = absurd (omega arith)

module _ {S : Type 0} (publisher : Publisher S) where
  -- The relays asked one after the other with one event: what is recorded of each.
  unfoldable pub answers : NostrEvent → List Str → S → List RelayResult × S
  answers e [] s = ([], s)
  answers e (relay ∷ relays) s =
      let (answer, s') = publisher relay e s in
      let (rest, s'') = answers e relays s' in (recorded relay answer ∷ rest, s'')

  -- The relays asked one after the other with one event, from one state to another, and what is recorded of
  -- each: its name, whether it accepted, and a code, which is "transport_error" without an answer,
  -- "ok" with an acceptance, and the relay's own or "rejected" with a refusal.
  pub data Heard (e : NostrEvent) : List Str → S → List RelayResult → S → Type 0 where
    no_more : (s : S) → Heard e [] s [] s
    silent :
        (relay : Str) (relays : List Str) (s s' : S) (q : RelayResult) (rs : List RelayResult)
        → (publisher relay e s).0 ≡ none
        → q.endpoint_id ≡ relay
        → q.accepted ≡ false
        → q.code ≡ text "transport_error"
        → Heard e relays (publisher relay e s).1 rs s'
        → Heard e (relay ∷ relays) s (q ∷ rs) s'
    answered :
        (relay : Str) (relays : List Str) (s s' : S) (q r : RelayResult) (rs : List RelayResult)
        → (publisher relay e s).0 ≡ some r
        → q.endpoint_id ≡ relay
        → q.accepted ≡ r.accepted
        → ((r.accepted ≡ true) × (q.code ≡ text "ok"))
          ⊎ ((r.accepted ≡ false) × ((q.code ≡ r.code) ⊎ (q.code ≡ text "rejected")))
        → Heard e relays (publisher relay e s).1 rs s'
        → Heard e (relay ∷ relays) s (q ∷ rs) s'

  recorded_code :
      (relay : Str) (r : RelayResult)
      → ((r.accepted ≡ true) × ((recorded relay (some r)).code ≡ text "ok"))
        ⊎ ((r.accepted ≡ false)
            × (((recorded relay (some r)).code ≡ r.code)
                ⊎ ((recorded relay (some r)).code ≡ text "rejected")))
  unfolding recorded normalize_relay_code
  recorded_code relay r = ground arith

  pub answers-Heard :
      (e : NostrEvent) (relays : List Str) (s : S)
      → Heard e relays s (answers e relays s).0 (answers e relays s).1
  unfolding answers recorded
  answers-Heard e [] s = no_more s
  answers-Heard e (relay ∷ relays) s =
      let (answer, s') = publisher relay e s in
      let (rs, s'') = answers e relays s' in
      let rest = answers-Heard e relays s' in
      elim (Option-cases answer) [
        | inl none_came ↦
            silent relay relays s s'' (recorded relay answer) rs none_came (rw none_came refl)
              (rw none_came refl) (rw none_came refl) rest
        | inr (r, came) ↦
            answered relay relays s s'' (recorded relay answer) r rs came (rw came refl)
              (rw came refl) (rw came (recorded_code relay r)) rest
      ]

  pub length-answers :
      (e : NostrEvent) (relays : List Str) (s : S) → length (answers e relays s).0 ≡ length relays
  unfolding answers
  length-answers e [] s = refl
  length-answers e (relay ∷ relays) s =
      ground (arith, length-answers e relays (publisher relay e s).1)

  abbrev pub no_answers : Tally
  no_answers = record { attempts = 0; results = []; accepted = 0 }

  abbrev pub tally_of : List RelayResult → Tally
  tally_of rs = record { attempts = length rs; results = rs; accepted = acceptances rs }

  -- The tally after the answers of further relays.
  abbrev pub tally_after : Tally → List RelayResult → Tally
  tally_after t rs = record {
    attempts = t.attempts + length rs;
    results = t.results ++ rs;
    accepted = t.accepted + acceptances rs;
  }

  pub tally_after-none : (t : Tally) → tally_after t [] ≡ t
  tally_after-none t = ground (arith, append-nil t.results)

  pub tally_after-counted :
      (t : Tally) (r : RelayResult) (rs : List RelayResult)
      → tally_after (counted t r) rs ≡ tally_after t (r ∷ rs)
  unfolding counted
  tally_after-counted t r rs = elim r.accepted [
    | true ↦ ground (arith, append_assoc t.results (r ∷ []) rs)
    | false ↦ ground (arith, append_assoc t.results (r ∷ []) rs)
  ]
