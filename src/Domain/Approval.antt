-- ===== src/Domain/Approval.antt =====
-- internal/domain/state.go: `ApprovalHash`. `sha256` is the digest of crypto/sha256, which the code
-- only calls.
pub mod Branches
use nomadposting.Prelude.{
  ℕ, zero, suc, ◌+◌, ◌-◌, ◌/◌, ◌%◌, Bool, true, false, not, ◌&&◌, ◌||◌, List, [], ◌∷◌, ◌++◌, Option,
  none, some, Str, text, ltb, ◌==◌, Result, ok, err, ◌>>=◌, ◌>>◌, reject_if, if◌then◌else◌,
}
use nomadposting.Json.{json_string}
use nomadposting.Encoding.{hex_encode}
use nomadposting.Errors.{Error, no_destination}
use nomadposting.Domain.Content.{normalize_content}

abbrev json_bool : Bool → Str
json_bool true = text "true"
json_bool false = text "false"

-- `json.Marshal` of the payload struct of `ApprovalHash`.
unfoldable pub marshal_payload : Str → Bool → Bool → Str → Str
unfolding json_string
marshal_payload content post_to_x post_to_nostr scheduled_at =
    text "{\"version\":1,\"content\":"
    ++ (json_string true content
        ++ (text ",\"post_to_x\":"
            ++ (json_bool post_to_x
                ++ (text ",\"post_to_nostr\":"
                    ++ (json_bool post_to_nostr
                        ++ (text ",\"scheduled_at\":"
                            ++ (json_string true scheduled_at ++ text "}")))))))

module _ (sha256 : Str → Str) where
  unfoldable pub approval_hash : Str → Bool → Bool → Str → Result Error Str
  unfolding hex_encode
  approval_hash content post_to_x post_to_nostr scheduled_at = do
    reject_if (not post_to_x && not post_to_nostr) no_destination
    normalized ← normalize_content content
    ok (hex_encode (sha256 (marshal_payload normalized post_to_x post_to_nostr scheduled_at)))
