-- ===== src/Scenarios/Dispatch.antt =====
-- Runs of the state machine, of content and approval hashes.
use mathlib.Core.List.{Memᴰ}
use nomadposting.Prelude.{◌≡◌, refl, ◌⊎◌, true, false, [], ◌∷◌, ◌++◌, Str, text, has_byte, ok}
use nomadposting.Unicode.{is_space_rune, is_blank, runes_from, valid_string, decode_rune}
use nomadposting.Domain.State.{
  draft, approved, routing, publishing, partial, failed, unknown, can_transition,
}
use nomadposting.Domain.State.Paths.{Life, born, move, resend_needs_verdict}
use nomadposting.Domain.Content.{cr, to_lf, normalize_content}
use nomadposting.Domain.Approval.{marshal_payload}

-- The escapes of encoding/json: HTML characters, line separators and bytes that are no UTF-8.
marshal_payload_test :
    marshal_payload
      (text "a<\"" ++ (0xe2 ∷ 0x80 ∷ 0xa8 ∷ 0xc3 ∷ 0xa9 ∷ 0xff ∷ []))
      true
      false
      (text "2026")
    ≡ text "{\"version\":1,\"content\":\"a\\u003c\\\"\\u2028"
      ++ (0xc3 ∷ 0xa9 ∷ [])
      ++ text "\\ufffd\",\"post_to_x\":true,\"post_to_nostr\":false,\"scheduled_at\":\"2026\"}"
unfolding marshal_payload decode_rune
marshal_payload_test = refl

published-Life : Life draft (publishing ∷ routing ∷ approved ∷ []) publishing
unfolding can_transition
published-Life = move publishing (move routing (move approved born refl) refl) refl

resent-Life : Life unknown (publishing ∷ partial ∷ []) publishing
unfolding can_transition
resent-Life = move publishing (move partial born refl) refl

resend_needs_verdict_example :
    Memᴰ partial (publishing ∷ partial ∷ []) ⊎ Memᴰ failed (publishing ∷ partial ∷ [])
resend_needs_verdict_example = resend_needs_verdict resent-Life refl

abbrev typed : Str
typed = text "one\r\ntwo"

typed_normal : normalize_content typed ≡ ok (text "one\ntwo")
unfolding normalize_content valid_string runes_from to_lf decode_rune has_byte is_blank
    is_space_rune
typed_normal = refl

plain : has_byte cr (text "one\ntwo") ≡ false
unfolding has_byte
plain = refl
