-- ===== src/Egress/Selector/Choice.antt =====
-- What a lease of `Select` promises, and when there is one.
use nomadposting.Prelude.{
  ℕ, ◌≡◌, sym, ap, ◌∙◌, subst, ◌≢◌, inl, inr, true, false, not, List, [], ◌∷◌, some, Str, text,
  str_eq, str_eq_iff, length, get_elem?, keep_if, All, All-get_elem?, pos, ltb_ℤ, ok, err,
  or_fail-eq-ok, arith, Bool-cases, Result-cases,
}
use nomadposting.Prelude.Assoc.{Assoc, lookup, keys}
use nomadposting.Prelude.Order.{All-sort_by}
use nomadposting.Random.{Random, >>=-eq-ok}
use nomadposting.Clock.{Time, add_time}
use nomadposting.Egress.Types.{
  Platform, x, nostr, Endpoint, Health, eligible, EgressLease, EgressError,
}
use nomadposting.Egress.Registry.{EndpointRecord, Registry, resolve}
use nomadposting.Egress.Registry.Valid.{IsValid, resolve_registered}
use nomadposting.Egress.Selector.{
  SelectionPolicy, contains, or_nil, is_candidate, by_country, alternates, sorted_endpoints,
  random_index, new_lease, draw_from, select_stable_x, select_rotating, select_checked, select,
}
use nomadposting.Egress.Selector.Candidates.{Candidate, or_nil-members, by_country-IsGroup}

-- A lease on an endpoint that is registered, eligible at the time of the choice, and carried with
-- its own country; it expires one TTL after the choice.
pub record Grants (p : SelectionPolicy) (r : Registry) (job_id : Str) (platform : Platform)
    (now : Time) (l : EgressLease) : Type 0 where
  pub item : EndpointRecord
  pub registered : lookup l.endpoint_id r ≡ some item
  pub located : item.endpoint.country_code ≡ l.country_code
  pub healthy : eligible item.health now p.max_health_age ≡ true
  pub for_job : l.job_id ≡ job_id
  pub for_platform : l.platform ≡ platform
  pub issued : l.issued_at ≡ now
  pub expires : l.expires_at ≡ add_time now p.lease_ttl

alternates-ne_previous :
    (previous : Str) (m : Assoc (List Endpoint)) → All (λ c. c ≢ previous) (alternates previous m)
unfolding alternates
alternates-ne_previous previous m =
    All-sort_by (λ c. c) (λ c. c ≢ previous) _ (ne_previous (keys m))
  where
    ne_previous :
        (ks : List Str) → All (λ c. c ≢ previous) (keep_if (λ c. not (str_eq c previous)) ks)
    ne_previous [] = tt
    ne_previous (k ∷ ks) = ground (arith, str_eq_iff k previous, ne_previous ks)

module _ {S : Type 0} (random : Random S) where
  draw_from_inv {ℓ} :
      {A : Type ℓ} (xs : List A) (s : S) {a : A}
      → (draw_from random xs s).0 ≡ ok a
      → (i : ℕ) × (get_elem? xs i ≡ some a)
  unfolding draw_from
  draw_from_inv xs s h =
      let (i, _, found) = >>=-eq-ok (random_index random (length xs)) _ s h in
      (i, or_fail-eq-ok _ _ found)

  new_lease_inv :
      (p : SelectionPolicy) (job_id : Str) (platform : Platform) (e : Endpoint) (now : Time) (s : S)
      {l : EgressLease}
      → (new_lease random p job_id platform e now s).0 ≡ ok l
      → (l.job_id ≡ job_id)
        × (l.platform ≡ platform)
        × (l.endpoint_id ≡ e.id)
        × (l.country_code ≡ e.country_code)
        × (l.issued_at ≡ now)
        × (l.expires_at ≡ add_time now p.lease_ttl)
  unfolding new_lease
  new_lease_inv p job_id platform e now s h = ground arith

  -- The two draws behind a lease for a rotating platform.
  select_rotating_inv :
      (p : SelectionPolicy) (job_id : Str) (platform : Platform) (previous : Str) (now : Time)
      (m : Assoc (List Endpoint)) (s : S) {l : EgressLease}
      → (select_rotating random p job_id platform previous now m s).0 ≡ ok l
      → (country : Str) × (e : Endpoint) × (s' : S) × ((i : ℕ) × (get_elem?
              (alternates previous m)
              i
            ≡ some country))
        × ((i : ℕ) × (get_elem? (sorted_endpoints (or_nil (lookup country m))) i ≡ some e))
        × ((new_lease random p job_id platform e now s').0 ≡ ok l)
  unfolding select_rotating
  select_rotating_inv p job_id platform previous now m s h =
      let drawn = draw_from random (alternates previous m) s in
      elim (Result-cases drawn.0) [
        | inl (_, e) ↦ absurd (ground arith)
        | inr (country, e) ↦
            let drawn' = draw_from random (sorted_endpoints (or_nil (lookup country m))) drawn.1 in
            elim (Result-cases drawn'.0) [
              | inl (_, e') ↦ absurd (ground arith)
              | inr (endpoint, e') ↦ (
                country,
                endpoint,
                drawn'.1,
                draw_from_inv _ _ e,
                draw_from_inv _ _ e',
                ground arith,
              )
            ]
      ]

  select_rotating_enough :
      (p : SelectionPolicy) (job_id : Str) (platform : Platform) (previous : Str) (now : Time)
      (m : Assoc (List Endpoint)) (s : S) {l : EgressLease}
      → (select_rotating random p job_id platform previous now m s).0 ≡ ok l
      → ltb_ℤ (pos (length m)) p.min_healthy_countries ≡ false
  unfolding select_rotating
  select_rotating_enough p job_id platform previous now m s h =
      elim (Bool-cases (ltb_ℤ (pos (length m)) p.min_healthy_countries)) [
        | inl few ↦ absurd (ground arith)
        | inr enough ↦ enough
      ]

  -- A lease on a candidate grants what it says.
  Candidate-Grants :
      (r : Registry) (p : SelectionPolicy) (job_id country : Str) (platform : Platform)
      (e : Endpoint) (now : Time) (s : S) {l : EgressLease}
      → Candidate p now r country e
      → (new_lease random p job_id platform e now s).0 ≡ ok l
      → Grants p r job_id platform now l
        × (contains p.allowed_countries l.country_code ≡ true)
        × (l.country_code ≡ country)
  unfolding is_candidate
  Candidate-Grants r p job_id country platform e now s {l} q made =
      let (for_job, for_platform, id, code, issued, expires) =
        new_lease_inv p job_id platform e now s made in
      let located : q.item.endpoint.country_code ≡ l.country_code =
        ap (λ (z : Endpoint). z.country_code) q.own ∙ sym code in
      (
        record {
          item = q.item;
          registered = ap (λ (z : Str). lookup z r) id ∙ q.registered;
          located = located;
          healthy = ground (arith, q.passes);
          for_job = for_job;
          for_platform = for_platform;
          issued = issued;
          expires = expires;
        },
        subst (λ z. contains p.allowed_countries z ≡ true) located (ground (arith, q.passes)),
        code ∙ q.located,
      )

  -- A lease for Nostr is on an endpoint whose country is allowed and differs from the previous one,
  -- registered and eligible at that instant, at a time when at least the required number of
  -- countries had such an endpoint.
  pub select_nostr-Grants :
      (r : Registry) (p : SelectionPolicy) (job_id previous : Str) (now : Time) (s : S)
      (l : EgressLease)
      → IsValid r
      → (select random r p job_id nostr previous now s).0 ≡ ok l
      → Grants p r job_id nostr now l
        × (contains p.allowed_countries l.country_code ≡ true)
        × (l.country_code ≢ previous)
        × (ltb_ℤ (pos (length (by_country p now r))) p.min_healthy_countries ≡ false)
  unfolding select select_checked
  select_nostr-Grants r p job_id previous now s l v h =
      let m = by_country p now r in
      let rotated : (select_rotating random p job_id nostr previous now m s).0 ≡ ok l =
        ground arith in
      let (country, e, s', (i, at), (j, at'), made) =
        select_rotating_inv p job_id nostr previous now m s rotated in
      let enough = select_rotating_enough p job_id nostr previous now m s rotated in
      let members = or_nil-members p now r country m (by_country-IsGroup p now r v).0 in
      let q =
        All-get_elem? (Candidate p now r country) _ j e
          (All-sort_by (λ z. z.id) (Candidate p now r country) _ members) at' in
      let apart =
        All-get_elem? (λ c. c ≢ previous) _ i country (alternates-ne_previous previous m) at in
      let (grants, allowed, code) = Candidate-Grants r p job_id country nostr e now s' q made in
      (grants, allowed, λ same. apart (sym code ∙ same), enough)

  select_stable_x_inv :
      (r : Registry) (p : SelectionPolicy) (job_id : Str) (now : Time) (s : S) (e : Endpoint)
      (h : Health) {l : EgressLease}
      → resolve r p.stable_x_endpoint_id ≡ ok (e, h)
      → (select_stable_x random r p job_id now s).0 ≡ ok l
      → (e.country_code ≡ text "FR")
        × (eligible h now p.max_health_age ≡ true)
        × ((new_lease random p job_id x e now s).0 ≡ ok l)
  unfolding select_stable_x
  select_stable_x_inv r p job_id now s e h found q =
      ground (arith, str_eq_iff e.country_code (text "FR"))

  select_stable_x-unknown :
      (r : Registry) (p : SelectionPolicy) (job_id : Str) (now : Time) (s : S) {e : EgressError}
      {l : EgressLease}
      → resolve r p.stable_x_endpoint_id ≡ err e
      → (select_stable_x random r p job_id now s).0 ≢ ok l
  unfolding select_stable_x
  select_stable_x-unknown r p job_id now s missing h = ground arith

  -- A lease for X is on the policy's stable endpoint, in France and eligible at that instant,
  -- whatever country was used before.
  pub select_x-Grants :
      (r : Registry) (p : SelectionPolicy) (job_id previous : Str) (now : Time) (s : S)
      (l : EgressLease)
      → IsValid r
      → (select random r p job_id x previous now s).0 ≡ ok l
      → Grants p r job_id x now l
        × (l.endpoint_id ≡ p.stable_x_endpoint_id)
        × (l.country_code ≡ text "FR")
  unfolding select select_checked
  select_x-Grants r p job_id previous now s l v h =
      let stable : (select_stable_x random r p job_id now s).0 ≡ ok l = ground arith in
      elim (resolve_registered r p.stable_x_endpoint_id v) [
        | inr (_, missing) ↦ absurd (select_stable_x-unknown r p job_id now s missing stable)
        | inl (found, there, resolved, own_id, _) ↦
            let (french, healthy, made) =
              select_stable_x_inv r p job_id now s found.endpoint found.health resolved stable in
            let (for_job, for_platform, id, code, issued, expires) =
              new_lease_inv p job_id x found.endpoint now s made in
            let own : l.endpoint_id ≡ p.stable_x_endpoint_id = id ∙ own_id in
            (
              record {
                item = found;
                registered = ap (λ (z : Str). lookup z r) own ∙ there;
                located = sym code;
                healthy = healthy;
                for_job = for_job;
                for_platform = for_platform;
                issued = issued;
                expires = expires;
              },
              own,
              code ∙ french,
            )
      ]
