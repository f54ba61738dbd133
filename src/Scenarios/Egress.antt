-- ===== src/Scenarios/Egress.antt =====
-- Runs over the program's endpoints, and over three that passed a probe.
use nomadposting.Unicode.{decode_rune}
use nomadposting.Unicode.{is_space_rune}
use nomadposting.Unicode.{runes_from}
use nomadposting.Unicode.{is_blank}
use mathlib.Core.List.{Memᴰ}
use nomadposting.Prelude.{
  ℕ, ◌+◌, ◌*◌, ◌≡◌, refl, ◌≢◌, ◌⊎◌, true, false, List, [], ◌∷◌, some, Str, text, str_eq, str_lt,
  pos, Result, ok, err, arith, str_eq_iff, ◌≤◌, length, ltb_ℤ, leb_ℤ, ◌↔◌,
}
use nomadposting.Prelude.Assoc.{lookup, insert, Distinct}
use nomadposting.Prelude.Order.{insert_by, sort_by}
use nomadposting.Clock.{Time, sub_time, add_time}
use nomadposting.Encoding.{hex_digit, hex_encode}
use nomadposting.Egress.Types.{
  x, nostr, Endpoint, no_health, EgressLease, EgressError, eligible, matches_endpoint_id,
  matches_job_id, matches_country, to_upper, validate_endpoint_id, validate_job_id,
  validate_endpoint, validate_platform,
}
use nomadposting.Egress.Catalog.{default_endpoint_catalog}
use nomadposting.Egress.Registry.{
  EndpointRecord, Registry, register_all, new_registry, resolve, marked, snapshot,
}
use nomadposting.Egress.Registry.Valid.{IsValid, new_registry-IsValid, new_registry_unchecked}
use nomadposting.Egress.Health.{ProbeReport}
use nomadposting.Egress.Health.Quarantine.{
  Probe, mark, report, after_probe, health_of, passed_at, hard_failure_is_final,
  eligible_needs_pass,
}
use nomadposting.Egress.Selector.{
  default_selection_policy, check_previous, select, select_checked, select_rotating, by_country,
  alternates, add_endpoint, contains, draw_from, group_from, is_candidate, new_lease, random_index,
  select_stable_x,
}
use nomadposting.Egress.Selector.Choice.{Grants, select_nostr-Grants, select_x-Grants}
use nomadposting.Egress.Selector.Countries.{HasExit}
use nomadposting.Egress.Selector.Total.{Served, select_nostr_total}
use nomadposting.Egress.Broker.{
  validate_request, BrokerRequest, BrokerResult, GuardedBroker, Executor, dry_run, admit, execute,
}
use nomadposting.Egress.Broker.FailClosed.{
  IsAdmitted, Answers, execute_fails_closed, dry_run-execute,
}
use nomadposting.Scenarios.Fixtures.{counter, counter-IsReliable, draw_byte, draw_below}

or_empty : Result EgressError Registry → Registry
or_empty (ok r) = r
or_empty (err e) = []

-- The registry that the program starts with.
started : Registry
unfolding or_empty new_registry register_all validate_endpoint validate_endpoint_id
    matches_endpoint_id matches_country to_upper insert
started = or_empty (new_registry default_endpoint_catalog)

started_new : new_registry default_endpoint_catalog ≡ ok started
unfolding started str_eq is_blank runes_from is_space_rune decode_rune lookup
started_new = refl

started-IsValid : IsValid started
started-IsValid = new_registry-IsValid default_endpoint_catalog started_new

abbrev pub noon : Time
noon = 63900000000 * 1000000000

abbrev pub later : Time
later = 63900000030 * 1000000000

-- A report of a DNS leak.
abbrev leak : ProbeReport
leak = record {
  endpoint_id = text "gcp-se-1";
  checked_at = noon;
  reachable = true;
  static_ip_match = true;
  country_match = true;
  dns_leak = true;
  route_leak = false;
  tls_valid = true;
}

abbrev ready : Endpoint → EndpointRecord
ready e = record {
  endpoint = e;
  health = record { healthy = true; quarantined = false; checked_at = noon; failures = 0 };
}

abbrev paris : Endpoint
paris = record {
  id = text "aws-fr-1";
  country_code = text "FR";
  provider = text "aws";
  region = text "r";
}

abbrev berlin : Endpoint
berlin = record {
  id = text "gcp-de-1";
  country_code = text "DE";
  provider = text "gcp";
  region = text "r";
}

abbrev london : Endpoint
london = record {
  id = text "aws-gb-1";
  country_code = text "GB";
  provider = text "aws";
  region = text "r";
}

-- Three endpoints that passed a probe.
abbrev pub live : Registry
live =
    (text "aws-fr-1", ready paris)
    ∷ (text "gcp-de-1", ready berlin)
    ∷ (text "aws-gb-1", ready london)
    ∷ []

apart : (s t : Str) → str_eq s t ≡ false → s ≢ t
apart s t h = ground (arith, str_eq_iff s t)

live-IsValid : IsValid live
unfolding str_eq validate_endpoint validate_endpoint_id matches_endpoint_id matches_country to_upper
    is_blank runes_from is_space_rune decode_rune
live-IsValid = record {
  entries = ((refl, refl), ((refl, refl), ((refl, refl), tt)));
  distinct = ((apart _ _ refl, (apart _ _ refl, tt)), ((apart _ _ refl, tt), (tt, tt)));
  inhabited = cc;
}

lease_of : Result EgressError EgressLease → EgressLease
lease_of (ok l) = l
lease_of (err e) = record {
  id = [];
  job_id = [];
  platform = x;
  endpoint_id = [];
  country_code = [];
  issued_at = 0;
  expires_at = 0;
}

abbrev job : Str
job = text "job-00000001"

nostr_lease : EgressLease
unfolding lease_of
nostr_lease =
    lease_of (select counter live default_selection_policy job nostr (text "FR") later 0).0

nostr_leased :
    (select counter live default_selection_policy job nostr (text "FR") later 0).0 ≡ ok nostr_lease
unfolding nostr_lease select validate_job_id matches_job_id validate_platform check_previous str_eq
    matches_country select_checked select_rotating by_country snapshot sort_by str_lt eligible
    sub_time insert alternates add_time resolve add_endpoint contains draw_from group_from
    is_candidate new_lease random_index select_stable_x matches_endpoint_id validate_endpoint_id
    hex_digit hex_encode lookup insert_by lease_of draw_below draw_byte
nostr_leased = refl

x_lease : EgressLease
unfolding lease_of
x_lease = lease_of (select counter live default_selection_policy job x (text "DE") later 0).0

x_leased : (select counter live default_selection_policy job x (text "DE") later 0).0 ≡ ok x_lease
unfolding x_lease select validate_job_id matches_job_id validate_platform check_previous str_eq
    matches_country select_checked select_rotating by_country snapshot sort_by str_lt eligible
    sub_time insert alternates add_time resolve add_endpoint contains draw_from group_from
    is_candidate new_lease random_index select_stable_x matches_endpoint_id validate_endpoint_id
    hex_digit hex_encode lookup insert_by lease_of draw_below draw_byte
x_leased = refl

job_valid : validate_job_id job ≡ ok tt
unfolding validate_job_id matches_job_id
job_valid = refl

previous_valid : check_previous default_selection_policy (text "FR") ≡ ok tt
unfolding check_previous str_eq matches_country
previous_valid = refl

select_nostr-Grants_example :
    Grants default_selection_policy live job nostr later nostr_lease
    × (contains default_selection_policy.allowed_countries nostr_lease.country_code ≡ true)
    × (nostr_lease.country_code ≢ text "FR")
    × (ltb_ℤ
          (pos (length (by_country default_selection_policy later live)))
          default_selection_policy.min_healthy_countries
        ≡ false)
select_nostr-Grants_example =
    select_nostr-Grants counter live default_selection_policy job (text "FR") later 0 nostr_lease
      live-IsValid nostr_leased

select_x-Grants_example :
    Grants default_selection_policy live job x later x_lease
    × (x_lease.endpoint_id ≡ text "aws-fr-1")
    × (x_lease.country_code ≡ text "FR")
select_x-Grants_example =
    select_x-Grants counter live default_selection_policy job (text "DE") later 0 x_lease
      live-IsValid x_leased

select_nostr_total_example :
    (exits : List Str) × Distinct exits
    × ((c : Str) → Memᴰ c exits ↔ HasExit default_selection_policy later live c)
    × Served counter counter-IsReliable live default_selection_policy job (text "FR") later 0 exits
select_nostr_total_example =
    select_nostr_total counter counter-IsReliable live default_selection_policy job (text "FR")
      later 0 live-IsValid refl job_valid previous_valid

french_endpoint : Endpoint
french_endpoint = record {
  id = text "aws-fr-1";
  country_code = text "FR";
  provider = text "aws";
  region = text "eu-west-3";
}

french_found : resolve started (text "aws-fr-1") ≡ ok (french_endpoint, no_health)
unfolding french_endpoint resolve started lookup str_eq is_blank runes_from is_space_rune
    decode_rune
french_found = refl

new_registry_unchecked_example :
    IsValid started × (eligible no_health later (pos 90000000000) ≡ false)
new_registry_unchecked_example =
    new_registry_unchecked default_endpoint_catalog started (text "aws-fr-1") french_endpoint
      no_health later (pos 90000000000) started_new french_found

-- The leak is followed by a probe that passes.
abbrev leaked : List Probe
leaked = mark true later ∷ report leak ∷ mark true noon ∷ []

hard_failure_is_final_example : eligible (health_of leaked) later (pos 90000000000) ≡ false
hard_failure_is_final_example =
    hard_failure_is_final leaked (report leak) later (pos 90000000000) refl
      (Memᴰ.tail (Memᴰ.head refl))

abbrev recovered : List Probe
recovered = mark true noon ∷ mark false noon ∷ []

recovered-eligible : eligible (health_of recovered) later (pos 90000000000) ≡ true
unfolding eligible health_of after_probe marked sub_time
recovered-eligible = refl

eligible_needs_pass_example :
    (p : Probe) × (t : Time) × Memᴰ p recovered
    × (passed_at p ≡ some t)
    × (t ≤ later)
    × (leb_ℤ (sub_time later t) (pos 90000000000) ≡ true)
eligible_needs_pass_example =
    eligible_needs_pass recovered later (pos 90000000000) recovered-eligible

-- An executor that counts its calls.
abbrev counting : Executor ℕ
counting _ platform e n = (ok tt, n + 1)

abbrev pub broker : GuardedBroker ℕ
broker = record {
  executor = counting;
  max_health_age = pos 90000000000;
  enabled = true;
  goos = text "linux";
}

abbrev pub request : BrokerRequest
request = record { job_id = job; platform = nostr; endpoint_id = text "gcp-de-1" }

execute_fails_closed_example :
    ((e : EgressError) × (execute broker live request later 0 ≡ (err e, 0)))
    ⊎ ((e : Endpoint) × IsAdmitted broker live request later e
        × Answers broker live e (counting job nostr e 0).0 (execute broker live request later 0).0
        × ((execute broker live request later 0).1 ≡ (counting job nostr e 0).1))
execute_fails_closed_example = execute_fails_closed broker live request later 0

abbrev accepted : BrokerResult
accepted = record {
  accepted = true;
  dry_run = false;
  endpoint_id = text "gcp-de-1";
  message = text "namespace activation completed";
}

executed : (execute broker live request later 0).0 ≡ ok accepted
unfolding execute admit validate_request validate_job_id matches_job_id validate_platform
    validate_endpoint_id matches_endpoint_id resolve lookup str_eq eligible sub_time
executed = refl

dry_run-execute_example :
    (dry : BrokerResult) × (dry_run broker live request ≡ ok dry)
    × (dry.accepted ≡ true)
    × (dry.dry_run ≡ true)
    × (dry.endpoint_id ≡ text "gcp-de-1")
dry_run-execute_example = dry_run-execute broker live request later 0 accepted executed
