-- ===== src/Egress/Types.antt =====
-- internal/egress/types.go: names, endpoints, health and leases.
use nomadposting.Prelude.{
  ℕ, ◌-◌, Bool, false, not, ◌&&◌, ◌||◌, [], ◌∷◌, map, Str, text, length, all, ltb, ◌==◌, in_range,
  str_eq, leb_ℤ, pos, Result, ok, err, ◌>>◌, reject_if, if◌then◌else◌,
}
use nomadposting.Unicode.{is_blank}
use nomadposting.Clock.{Time, Duration, is_zero, sub_time}

-- The errors of internal/egress, one constructor for one message.
pub data EgressError : Type 0 where
  bad_platform bad_endpoint_id bad_job_id bad_country bad_provider bad_region : EgressError
  unknown_endpoint endpoint_not_healthy insufficient_countries : EgressError
  no_eligible_alternate execution_disabled : EgressError
  duplicate_endpoint empty_registry no_probe_time bad_policy bad_broker : EgressError
  not_allowed random_failed activation_failed : EgressError

-- A platform's name; a request from the wire may hold any text.
pub data Platform : Type 0 where
  x nostr : Platform
  other : Str → Platform

unfoldable pub validate_platform : Platform → Result EgressError (Unit {0})
validate_platform x = ok tt
validate_platform nostr = ok tt
validate_platform (other name) = err bad_platform

is_lower : ℕ → Bool
is_lower c = in_range b'a' b'z' c

is_upper : ℕ → Bool
is_upper c = in_range b'A' b'Z' c

is_digit : ℕ → Bool
is_digit c = in_range b'0' b'9' c

-- `[a-z0-9-]`.
id_char : ℕ → Bool
unfolding is_lower is_digit
id_char c = is_lower c || is_digit c || c == b'-'

-- `[A-Za-z0-9_-]`.
job_char : ℕ → Bool
unfolding is_lower is_upper is_digit
job_char c = is_lower c || is_upper c || is_digit c || c == b'_' || c == b'-'

-- `^[a-z0-9][a-z0-9-]{2,63}$`.
unfoldable pub matches_endpoint_id : Str → Bool
unfolding id_char is_lower is_digit
matches_endpoint_id [] = false
matches_endpoint_id (c ∷ s) =
    (is_lower c || is_digit c) && all id_char s && in_range 2 63 (length s)

-- `^[A-Za-z0-9][A-Za-z0-9_-]{7,127}$`.
unfoldable pub matches_job_id : Str → Bool
unfolding job_char is_lower is_upper is_digit
matches_job_id [] = false
matches_job_id (c ∷ s) =
    (is_lower c || is_upper c || is_digit c) && all job_char s && in_range 7 127 (length s)

-- `^[A-Z]{2}$`.
unfoldable pub matches_country : Str → Bool
unfolding is_upper
matches_country s = all is_upper s && length s == 2

-- `strings.ToUpper` on ASCII.
unfoldable pub to_upper : Str → Str
unfolding is_lower
to_upper = map λ c. if is_lower c then c - 32 else c

unfoldable pub validate_endpoint_id : Str → Result EgressError (Unit {0})
validate_endpoint_id id = reject_if (not (matches_endpoint_id id)) bad_endpoint_id

unfoldable pub validate_job_id : Str → Result EgressError (Unit {0})
validate_job_id id = reject_if (not (matches_job_id id)) bad_job_id

pub record Endpoint : Type 0 where
  pub id : Str
  pub country_code : Str
  pub provider : Str
  pub region : Str

unfoldable pub validate_endpoint : Endpoint → Result EgressError (Unit {0})
unfolding validate_endpoint_id
validate_endpoint e = do
  validate_endpoint_id e.id
  reject_if
      (not (matches_country e.country_code)
        || not (str_eq e.country_code (to_upper e.country_code)))
      bad_country
  reject_if (not (str_eq e.provider (text "aws") || str_eq e.provider (text "gcp"))) bad_provider
  reject_if (is_blank e.region || ltb 64 (length e.region)) bad_region

pub record Health : Type 0 where
  pub healthy : Bool
  pub quarantined : Bool
  pub checked_at : Time
  pub failures : ℕ  -- uint32

-- The zero value of `Health`.
abbrev pub no_health : Health
no_health = record { healthy = false; quarantined = false; checked_at = 0; failures = 0 }

unfoldable pub eligible : Health → Time → Duration → Bool
eligible h now max_age =
    if not h.healthy || h.quarantined || is_zero h.checked_at
    then false
    else if leb_ℤ max_age (pos 0)
    then false
    else let age = sub_time now h.checked_at in leb_ℤ (pos 0) age && leb_ℤ age max_age

pub record EgressLease : Type 0 where
  pub id : Str
  pub job_id : Str
  pub platform : Platform
  pub endpoint_id : Str
  pub country_code : Str
  pub issued_at : Time
  pub expires_at : Time
