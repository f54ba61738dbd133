-- ===== src/Scenarios/Wire.antt =====
-- A run of the broker's socket.
use nomadposting.Egress.Types.{eligible}
use nomadposting.Prelude.Assoc.{lookup}
use nomadposting.Egress.Registry.{resolve}
use nomadposting.Egress.Types.{matches_endpoint_id}
use nomadposting.Egress.Types.{validate_endpoint_id}
use nomadposting.Egress.Types.{validate_platform}
use nomadposting.Egress.Types.{matches_job_id}
use nomadposting.Egress.Types.{validate_job_id}
use nomadposting.Egress.Broker.{validate_request}
use nomadposting.Egress.Broker.{admit}
use nomadposting.Egress.Broker.{execute}
use nomadposting.Prelude.{
  str_eq, Bool, true, false, ◌≡◌, refl, List, [], ◌∷◌, ◌++◌, map, Option, some, Str, text,
}
use nomadposting.Clock.{sub_time, Time}
use nomadposting.Netbroker.{WireRequest, Connection, serve}
use nomadposting.Netbroker.Steps.{Activations, serve-Activations}
use nomadposting.Scenarios.Egress.{broker, live, request, later, noon}

-- A decoder that takes everything for the one request.
abbrev executing : Str → Option (WireRequest × Bool)
executing payload = some (record { operation = text "execute"; request = request }, true)

abbrev one_line : Connection
one_line = record { bytes = text "{}" ++ 10 ∷ []; broken = false }

abbrev arrivals : List (Connection × Time)
arrivals = (one_line, noon) ∷ (one_line, later) ∷ []

-- Both connections are served, and the network is changed twice.
two_activations : (serve broker live executing arrivals 0).1 ≡ 2
unfolding serve str_eq execute admit validate_request validate_job_id matches_job_id
    validate_platform validate_endpoint_id matches_endpoint_id resolve lookup eligible sub_time
two_activations = refl

serve-Activations_example :
    Activations broker live executing
      (map (λ c. c.1) arrivals)
      0
      (serve broker live executing arrivals 0).1
serve-Activations_example = serve-Activations broker live executing arrivals 0
