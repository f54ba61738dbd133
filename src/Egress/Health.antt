-- ===== src/Egress/Health.antt =====
-- internal/egress/health.go: probe reports and the monitor's round over all endpoints.
pub mod Quarantine
use nomadposting.Prelude.{
  ℕ, ◌+◌, ◌%◌, ◌^◌, Bool, true, false, not, ◌||◌, List, [], ◌∷◌, Option, none, some, Str, leb,
  Result, ok, err, ◌>>=◌, ◌>>◌, reject_if, or_fail, if◌then◌else◌,
}
use nomadposting.Prelude.Assoc.{Assoc, lookup, insert}
use nomadposting.Clock.{Time, is_zero}
use nomadposting.Egress.Types.{Endpoint, Health, EgressError, unknown_endpoint, no_probe_time}
use nomadposting.Egress.Registry.{EndpointRecord, Registry, next_failures, mark_probe, snapshot}

pub record ProbeReport : Type 0 where
  pub endpoint_id : Str
  pub checked_at : Time
  pub reachable : Bool
  pub static_ip_match : Bool
  pub country_match : Bool
  pub dns_leak : Bool
  pub route_leak : Bool
  pub tls_valid : Bool

abbrev pub hard_failure : ProbeReport → Bool
hard_failure p =
    not p.static_ip_match || not p.country_match || p.dns_leak || p.route_leak || not p.tls_valid

-- What `ApplyProbe` writes over a record's health.
unfoldable pub probed : Health → ProbeReport → Health
probed h p =
    if hard_failure p
    then record h {
      checked_at = p.checked_at;
      healthy = false;
      failures = next_failures h.failures;
      quarantined = true;
    }
    else if not p.reachable
    then record h {
      checked_at = p.checked_at;
      healthy = false;
      failures = next_failures h.failures;
      quarantined = leb 3 (next_failures h.failures) || h.quarantined;
    }
    else if not h.quarantined
    then record h { checked_at = p.checked_at; healthy = true; failures = 0 }
    else record h { checked_at = p.checked_at }

unfoldable pub apply_probe : Registry → ProbeReport → Result EgressError Registry
unfolding probed
apply_probe r p = do
  reject_if (is_zero p.checked_at) no_probe_time
  found ← or_fail (lookup p.endpoint_id r) unknown_endpoint
  ok (insert p.endpoint_id (record found { health = probed found.health p }) r)

-- `_ = call`: an error leaves the registry as it was.
abbrev pub ignoring : Registry → Result EgressError Registry → Registry
ignoring r (ok r') = r'
ignoring r (err e) = r

-- One endpoint of a round: what the prober answered for it, and the time of the answer.
unfoldable pub probe_one :
    (Endpoint → Option ProbeReport) → Time → Registry → EndpointRecord → Registry
probe_one probe now r item = elim (probe item.endpoint) [
  | none ↦ ignoring r (mark_probe r item.endpoint.id false now)
  | some report ↦ ignoring r (apply_probe r (record report { endpoint_id = item.endpoint.id }))
]

-- The loop of `probeAll` over what is left of the snapshot. The prober is outside: it answers with
-- a report or fails. `now` stands for the clock, which the code reads at each failure.
unfoldable pub probe_each :
    (Endpoint → Option ProbeReport) → (Str → Time) → Registry → List EndpointRecord → Registry
unfolding probe_one
probe_each probe now r [] = r
probe_each probe now r (item ∷ items) =
    probe_each probe now (probe_one probe (now item.endpoint.id) r item) items

unfoldable pub probe_all : (Endpoint → Option ProbeReport) → (Str → Time) → Registry → Registry
unfolding probe_each
probe_all probe now r = probe_each probe now r (snapshot r)
