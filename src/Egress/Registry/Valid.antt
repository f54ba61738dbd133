-- ===== src/Egress/Registry/Valid.antt =====
-- The registry's invariant: each key is its endpoint's own ID, each endpoint is well formed, no ID
-- stands twice, and there is an endpoint at all.
use nomadposting.Prelude.{
  ◌≡◌, refl, sym, ◌∙◌, subst, ◌≢◌, ◌⊎◌, inl, inr, false, List, [], ◌∷◌, map, none, some, Str, All,
  ok, err, arith, Option-cases, Result-cases,
}
use nomadposting.Prelude.Assoc.{
  lookup, insert, keys, Distinct, All-insert, All-lookup, Distinct-insert, insert-ne-nil,
}
use nomadposting.Clock.{Time, Duration}
use nomadposting.Egress.Types.{
  Endpoint, Health, no_health, unknown_endpoint, validate_endpoint, validate_endpoint_id, eligible,
}
use nomadposting.Egress.Registry.{EndpointRecord, Registry, register_all, new_registry, resolve}

-- What holds of each entry.
abbrev pub EntryIsValid : Str × EndpointRecord → Type 0
EntryIsValid e = (e.0 ≡ e.1.endpoint.id) × (validate_endpoint e.1.endpoint ≡ ok tt)

pub record IsValid (r : Registry) : Type 0 where
  pub entries : All EntryIsValid r
  pub distinct : Distinct (keys r)
  pub inhabited : r ≢ []

-- The endpoints with their keys, without health.
abbrev pub endpoints : Registry → List (Str × Endpoint)
endpoints = map λ e. (e.0, e.1.endpoint)

-- A write of health at a registered ID.
pub endpoints-insert :
    (id : Str) (found : EndpointRecord) (h : Health) (r : Registry)
    → lookup id r ≡ some found
    → endpoints (insert id (record found { health = h }) r) ≡ endpoints r
unfolding lookup insert
endpoints-insert id found h [] e = cc
endpoints-insert id found h ((j, w) ∷ r) e = ground (arith, endpoints-insert id found h r)

pub insert_health-IsValid :
    (id : Str) (found : EndpointRecord) (h : Health) (r : Registry)
    → lookup id r ≡ some found
    → IsValid r
    → IsValid (insert id (record found { health = h }) r)
insert_health-IsValid id found h r e v =
    let entry = All-lookup EntryIsValid id found r v.entries e in
    record {
      entries = All-insert EntryIsValid id (record found { health = h }) r entry v.entries;
      distinct = Distinct-insert id (record found { health = h }) r v.distinct;
      inhabited = insert-ne-nil id (record found { health = h }) r;
    }

-- What the loop of `NewRegistry` keeps: valid entries, distinct keys, and no health yet.
record Fresh (r : Registry) : Type 0 where
  entries : All EntryIsValid r
  distinct : Distinct (keys r)
  unchecked : All (λ e. e.1.health ≡ no_health) r

insert-Fresh :
    (r : Registry) (e : Endpoint)
    → Fresh r
    → validate_endpoint e ≡ ok tt
    → Fresh (insert e.id (record { endpoint = e; health = no_health }) r)
insert-Fresh r e f v =
    let item : EndpointRecord = record { endpoint = e; health = no_health } in
    record {
      entries = All-insert EntryIsValid e.id item r (refl, v) f.entries;
      distinct = Distinct-insert e.id item r f.distinct;
      unchecked = All-insert (λ x. x.1.health ≡ no_health) e.id item r refl f.unchecked;
    }

register_all_inv :
    (r : Registry) (e : Endpoint) (es : List Endpoint) {r' : Registry}
    → register_all r (e ∷ es) ≡ ok r'
    → (validate_endpoint e ≡ ok tt)
      × (register_all (insert e.id (record { endpoint = e; health = no_health }) r) es ≡ ok r')
unfolding register_all
register_all_inv r e es h = ground arith

register_all-Fresh :
    (r : Registry) (es : List Endpoint) {r' : Registry}
    → Fresh r
    → register_all r es ≡ ok r'
    → Fresh r'
unfolding register_all
register_all-Fresh r [] f h = subst Fresh (ground arith) f
register_all-Fresh r (e ∷ es) f h =
    let (v, rest) = register_all_inv r e es h in
    register_all-Fresh (insert e.id (record { endpoint = e; health = no_health }) r) es
      (insert-Fresh r e f v) rest

new_registry_inv :
    (es : List Endpoint) {r : Registry}
    → new_registry es ≡ ok r
    → (register_all [] es ≡ ok r) × (r ≢ [])
unfolding new_registry
new_registry_inv es h = ground (arith, Result-cases (register_all [] es))

pub resolve_inv :
    (r : Registry) (id : Str) {e : Endpoint} {h : Health}
    → resolve r id ≡ ok (e, h)
    → (found : EndpointRecord) × (lookup id r ≡ some found)
      × (found.endpoint ≡ e)
      × (found.health ≡ h)
unfolding resolve
resolve_inv r id p = elim (Option-cases (lookup id r)) [
  | inl none_there ↦ absurd (ground arith)
  | inr (found, there) ↦ (found, there, ground arith, ground arith)
]

validate_endpoint-id :
    (e : Endpoint) → validate_endpoint e ≡ ok tt → validate_endpoint_id e.id ≡ ok tt
unfolding validate_endpoint
validate_endpoint-id e h = ground arith

no_health-eligible :
    (h : Health) (now : Time) (max_age : Duration) → h ≡ no_health → eligible h now max_age ≡ false
unfolding eligible
no_health-eligible h now max_age e = rw e

-- In a valid registry `Resolve` finds exactly the registered IDs: it returns the endpoint that was
-- registered under the ID, well formed and with that ID, or the error is `ErrUnknownEndpoint`.
pub resolve_registered :
    (r : Registry) (id : Str)
    → IsValid r
    → ((found : EndpointRecord) × (lookup id r ≡ some found)
        × (resolve r id ≡ ok (found.endpoint, found.health))
        × (found.endpoint.id ≡ id)
        × (validate_endpoint found.endpoint ≡ ok tt))
      ⊎ ((lookup id r ≡ none) × (resolve r id ≡ err unknown_endpoint))
unfolding resolve
resolve_registered r id v = elim (Option-cases (lookup id r)) [
  | inl missing ↦ inr (missing, ground arith)
  | inr (found, there) ↦
      let entry = All-lookup EntryIsValid id found r v.entries there in
      inl (found, there, ground (arith, validate_endpoint-id found.endpoint), sym entry.0, entry.1)
]

pub new_registry-IsValid : (es : List Endpoint) {r : Registry} → new_registry es ≡ ok r → IsValid r
new_registry-IsValid es h =
    let (built, full) = new_registry_inv es h in
    let f =
      register_all-Fresh [] es (record { entries = tt; distinct = tt; unchecked = tt }) built in
    record { entries = f.entries; distinct = f.distinct; inhabited = full }

-- A registry that `NewRegistry` builds is valid, and fails closed: until a probe is recorded, no
-- endpoint that `Resolve` finds is eligible, at any time and for any maximum age.
pub new_registry_unchecked :
    (es : List Endpoint) (r : Registry) (id : Str) (e : Endpoint) (h : Health) (now : Time)
    (max_age : Duration)
    → new_registry es ≡ ok r
    → resolve r id ≡ ok (e, h)
    → IsValid r × (eligible h now max_age ≡ false)
new_registry_unchecked es r id e h now max_age new p =
    let (built, _) = new_registry_inv es new in
    let f =
      register_all-Fresh [] es (record { entries = tt; distinct = tt; unchecked = tt }) built in
    let (found, there, _, health) = resolve_inv r id p in
    let fresh = All-lookup (λ x. x.1.health ≡ no_health) id found r f.unchecked there in
    (new_registry-IsValid es new, no_health-eligible h now max_age (sym health ∙ fresh))
