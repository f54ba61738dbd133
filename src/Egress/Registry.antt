-- ===== src/Egress/Registry.antt =====
-- internal/egress/registry.go: the registry of endpoints. The mutex makes each method one step.
pub mod Valid
use nomadposting.Prelude.{
  ℕ, ◌+◌, ◌%◌, ◌^◌, Bool, true, false, ◌||◌, List, [], ◌∷◌, map, Option, none, some, Str, length,
  leb, ◌==◌, Result, ok, err, ◌>>=◌, ◌>>◌, reject_if, or_fail, if◌then◌else◌,
}
use nomadposting.Prelude.Assoc.{Assoc, lookup, insert}
use nomadposting.Prelude.Order.{sort_by}
use nomadposting.Clock.{Time}
use nomadposting.Egress.Types.{
  Endpoint, Health, no_health, EgressError, unknown_endpoint, duplicate_endpoint, empty_registry,
  validate_endpoint, validate_endpoint_id,
}

pub record EndpointRecord : Type 0 where
  pub endpoint : Endpoint
  pub health : Health

abbrev pub Registry : Type 0
Registry = Assoc EndpointRecord

abbrev is_present : Option EndpointRecord → Bool
is_present none = false
is_present (some r) = true

-- The loop of `NewRegistry` over the endpoints still to come.
unfoldable pub register_all : Registry → List Endpoint → Result EgressError Registry
register_all r [] = ok r
register_all r (e ∷ es) =
    let rest = register_all (insert e.id (record { endpoint = e; health = no_health }) r) es in
    do validate_endpoint e; reject_if (is_present (lookup e.id r)) duplicate_endpoint; rest

unfoldable pub new_registry : List Endpoint → Result EgressError Registry
unfolding register_all
new_registry endpoints = do
  r ← register_all [] endpoints
  reject_if (length r == 0) empty_registry
  ok r

-- An ID that is not well formed is reported as an unknown endpoint.
abbrev pub as_unknown : Result EgressError (Unit {0}) → Result EgressError (Unit {0})
as_unknown (ok u) = ok u
as_unknown (err e) = err unknown_endpoint

unfoldable pub resolve : Registry → Str → Result EgressError (Endpoint × Health)
resolve r id = do
  as_unknown (validate_endpoint_id id)
  found ← or_fail (lookup id r) unknown_endpoint
  ok (found.endpoint, found.health)

unfoldable pub set_health : Registry → Str → Health → Result EgressError Registry
set_health r id health = do
  found ← or_fail (lookup id r) unknown_endpoint
  ok (insert id (record found { health = health }) r)

-- `Failures++` on a uint32.
abbrev pub next_failures : ℕ → ℕ
next_failures n = (n + 1) % 2 ^ 32

-- What `MarkProbe` writes over a record's health.
unfoldable pub marked : Health → Bool → Time → Health
marked h healthy now =
    if healthy then record h { checked_at = now; healthy = true; failures = 0 } else record h {
      checked_at = now;
      healthy = false;
      failures = next_failures h.failures;
      quarantined = leb 3 (next_failures h.failures) || h.quarantined;
    }

unfoldable pub mark_probe : Registry → Str → Bool → Time → Result EgressError Registry
unfolding marked
mark_probe r id healthy now = do
  found ← or_fail (lookup id r) unknown_endpoint
  ok (insert id (record found { health = marked found.health healthy now }) r)

-- The records in the order of their endpoints' IDs.
unfoldable pub snapshot : Registry → List EndpointRecord
snapshot r = sort_by (λ item. item.endpoint.id) (map (λ e. e.1) r)
