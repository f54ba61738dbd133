-- ===== src/Egress/Selector.antt =====
-- internal/egress/selector.go: the policy, and the choice of an exit at dispatch time.
pub mod Candidates
pub mod Countries
pub mod Choice
pub mod Total
use nomadposting.Prelude.{
  ℕ, ◌+◌, Bool, true, false, not, ◌&&◌, ◌||◌, List, [], ◌∷◌, ◌++◌, Option, none, some, Str, text,
  length, get_elem?, all, keep_if, str_eq, ◌==◌, ℤ, pos, negsuc, leb_ℤ, ltb_ℤ, Result, ok, err,
  reject_if, or_fail, if◌then◌else◌,
}
use nomadposting.Prelude.Assoc.{Assoc, lookup, insert, keys}
use nomadposting.Prelude.Order.{sort_by}
use nomadposting.Encoding.{hex_encode}
use nomadposting.Random.{Random, Draw, ◌>>=◌, ◌>>◌, lift, or_error}
use nomadposting.Clock.{Time, Duration, add_time}
use nomadposting.Egress.Types.{
  Platform, x, nostr, other, validate_platform, Endpoint, Health, eligible, EgressLease,
  EgressError, endpoint_not_healthy, insufficient_countries, no_eligible_alternate, bad_policy,
  bad_country, not_allowed, random_failed, validate_job_id, matches_country,
}
use nomadposting.Egress.Registry.{EndpointRecord, Registry, resolve, snapshot}

pub record SelectionPolicy : Type 0 where
  pub allowed_countries : List Str  -- a map to the empty struct
  pub min_healthy_countries : ℤ
  pub max_health_age : Duration
  pub lease_ttl : Duration
  pub stable_x_endpoint_id : Str

-- `_, ok := set[k]`.
unfoldable pub contains : List Str → Str → Bool
contains [] k = false
contains (j ∷ js) k = str_eq j k || contains js k

abbrev second : ℕ
second = 1000000000

abbrev pub default_selection_policy : SelectionPolicy
default_selection_policy = record {
  allowed_countries = text "FR" ∷ text "DE" ∷ text "GB" ∷ text "SE" ∷ text "CH" ∷ [];
  min_healthy_countries = pos 3;
  max_health_age = pos 90000000000;
  lease_ttl = pos 300000000000;
  stable_x_endpoint_id = text "aws-fr-1";
}

abbrev discard {ℓ} : {A : Type ℓ} → Result EgressError A → Result EgressError (Unit {0})
discard (ok a) = ok tt
discard (err e) = err e

-- `NewSelector` checks a policy against the registry; the selector then holds both. A nil registry
-- cannot be given here.
unfoldable pub new_selector : Registry → SelectionPolicy → Result EgressError SelectionPolicy
new_selector r p =
    let stable = resolve r p.stable_x_endpoint_id in
    if ltb_ℤ p.min_healthy_countries (pos 3)
    then err bad_policy
    else if leb_ℤ p.max_health_age (pos 0) || leb_ℤ p.lease_ttl (pos 0)
    then err bad_policy
    else if ltb_ℤ (pos (length p.allowed_countries)) p.min_healthy_countries
    then err bad_policy
    else if not (all matches_country p.allowed_countries)
    then err bad_policy
    else elim stable [ ok found ↦ ok p | err e ↦ err e ]

-- `byCountry[c] = append(byCountry[c], endpoint)`.
abbrev pub or_nil : Option (List Endpoint) → List Endpoint
or_nil none = []
or_nil (some es) = es

unfoldable pub add_endpoint : Endpoint → Assoc (List Endpoint) → Assoc (List Endpoint)
add_endpoint e m = insert e.country_code (or_nil (lookup e.country_code m) ++ e ∷ []) m

-- Whether an item of the snapshot takes part.
unfoldable pub is_candidate : SelectionPolicy → Time → EndpointRecord → Bool
unfolding contains
is_candidate p now item =
    contains p.allowed_countries item.endpoint.country_code
    && eligible item.health now p.max_health_age

-- The loop over what is left of the snapshot.
unfoldable pub group_from :
    SelectionPolicy → Time → Assoc (List Endpoint) → List EndpointRecord → Assoc (List Endpoint)
unfolding is_candidate add_endpoint
group_from p now m [] = m
group_from p now m (item ∷ items) =
    group_from p now (if is_candidate p now item then add_endpoint item.endpoint m else m) items

unfoldable pub by_country : SelectionPolicy → Time → Registry → Assoc (List Endpoint)
unfolding group_from
by_country p now r = group_from p now [] (snapshot r)

-- The countries to draw from: all but the previous one, sorted.
unfoldable pub alternates : Str → Assoc (List Endpoint) → List Str
alternates previous m = sort_by (λ c. c) (keep_if (λ c. not (str_eq c previous)) (keys m))

abbrev pub sorted_endpoints : List Endpoint → List Endpoint
sorted_endpoints = sort_by λ e. e.id

-- The checks of a previous country; the empty one stands for none.
unfoldable pub check_previous : SelectionPolicy → Str → Result EgressError (Unit {0})
unfolding contains
check_previous p previous =
    if str_eq previous []
    then ok tt
    else if not (matches_country previous)
    then err bad_country
    else reject_if (not (contains p.allowed_countries previous)) not_allowed

module _ {S : Type 0} (random : Random S) where
  unfoldable pub random_index : ℕ → Draw S EgressError ℕ
  random_index n s =
      if n == 0 then (err random_failed, s) else or_error random_failed (random.below n s)

  unfoldable pub new_lease :
      SelectionPolicy → Str → Platform → Endpoint → Time → Draw S EgressError EgressLease
  new_lease p job_id platform e now = do
    raw ← λ s. or_error random_failed (random.read 16 s)
    lift (
        ok (record {
          id = hex_encode raw;
          job_id = job_id;
          platform = platform;
          endpoint_id = e.id;
          country_code = e.country_code;
          issued_at = now;
          expires_at = add_time now p.lease_ttl;
        }))

  unfoldable pub select_stable_x :
      Registry → SelectionPolicy → Str → Time → Draw S EgressError EgressLease
  select_stable_x r p job_id now = do
    found ← lift (resolve r p.stable_x_endpoint_id)
    lift (reject_if (not (str_eq found.0.country_code (text "FR"))) bad_country)
    lift (reject_if (not (eligible found.1 now p.max_health_age)) endpoint_not_healthy)
    new_lease p job_id x found.0 now

  -- A draw from a sorted list. `randomIndex` stays below the length, so the read is in range; out
  -- of range the code would panic.
  unfoldable pub draw_from {ℓ} : {A : Type ℓ} → List A → Draw S EgressError A
  unfolding random_index
  draw_from xs = do i ← random_index (length xs); lift (or_fail (get_elem? xs i) random_failed)

  -- The branch for Nostr, on the eligible endpoints by country.
  unfoldable pub select_rotating :
      SelectionPolicy
      → Str
      → Platform
      → Str
      → Time
      → Assoc (List Endpoint)
      → Draw S EgressError EgressLease
  select_rotating p job_id platform previous now m = do
    lift (reject_if (ltb_ℤ (pos (length m)) p.min_healthy_countries) insufficient_countries)
    lift (reject_if (length (alternates previous m) == 0) no_eligible_alternate)
    country ← draw_from (alternates previous m)
    e ← draw_from (sorted_endpoints (or_nil (lookup country m)))
    new_lease p job_id platform e now

  -- `Select` after its checks.
  unfoldable pub select_checked :
      Registry → SelectionPolicy → Str → Platform → Str → Time → Draw S EgressError EgressLease
  select_checked r p job_id x previous now = select_stable_x r p job_id now
  select_checked r p job_id platform previous now =
      select_rotating p job_id platform previous now (by_country p now r)

  unfoldable pub select :
      Registry → SelectionPolicy → Str → Platform → Str → Time → Draw S EgressError EgressLease
  select r p job_id platform previous now = do
    lift (validate_job_id job_id)
    lift (validate_platform platform)
    lift (check_previous p previous)
    select_checked r p job_id platform previous now
