-- ===== src/Egress/Selector/Total.antt =====
-- When `Select` finds an exit.
use mathlib.Core.List.{Memᴰ}
use nomadposting.Prelude.{
  ℕ, suc, ◌+◌, ◌≤◌, ◌<◌, ◌≡◌, refl, sym, ap, subst, ◌≢◌, ◌⊎◌, inl, inr, true, false, not, List, [],
  ◌∷◌, map, some, Str, str_eq, str_eq_iff, length, get_elem?, keep_if, All, All-keep_if,
  All-get_elem?, get_elem?-lt, pos, leb_ℤ, ltb_ℤ, ◌↔◌, ok, err, arith, Bool-cases, Result-cases,
}
use nomadposting.Prelude.Assoc.{Assoc, lookup, keys, Distinct, lookup-entries}
use nomadposting.Prelude.Order.{All-sort_by, length-sort_by}
use nomadposting.Random.{Random, IsReliable}
use nomadposting.Clock.{Time}
use nomadposting.Egress.Types.{
  nostr, Platform, Endpoint, EgressLease, insufficient_countries, validate_job_id,
  validate_platform,
}
use nomadposting.Egress.Registry.{Registry}
use nomadposting.Egress.Registry.Valid.{IsValid}
use nomadposting.Egress.Selector.{
  SelectionPolicy, or_nil, by_country, alternates, sorted_endpoints, check_previous, new_lease,
  draw_from, select_rotating, select_checked, select,
}
use nomadposting.Egress.Selector.Candidates.{IsGroup, by_country-IsGroup}
use nomadposting.Egress.Selector.Countries.{HasExit, keys-by_country}

keep-All : (k : Str) (ks : List Str) → All (λ j. k ≢ j) ks → keep_if (λ c. not (str_eq c k)) ks ≡ ks
keep-All k [] h = refl
keep-All k (j ∷ ks) h = ground (arith, str_eq_iff j k, keep-All k ks h.1)

-- Leaving one country out loses at most one.
length-keep_if :
    (k : Str) (ks : List Str)
    → Distinct ks
    → length ks ≤ length (keep_if (λ c. not (str_eq c k)) ks) + 1
length-keep_if k [] d = omega arith
length-keep_if k (j ∷ ks) d =
    ground (arith, str_eq_iff j k, keep-All j ks d.0, length-keep_if k ks d.1)

length-map {ℓ κ} :
    {A : Type ℓ} {B : Type κ} (f : A → B) (xs : List A) → length (map f xs) ≡ length xs
length-map f [] = refl
length-map f (x ∷ xs) = ap suc (length-map f xs)

length-alternates :
    (previous : Str) (m : Assoc (List Endpoint))
    → Distinct (keys m)
    → length m ≤ length (alternates previous m) + 1
unfolding alternates
length-alternates previous m d = omega (
  arith,
  length-sort_by (λ (c : Str). c) (keep_if (λ c. not (str_eq c previous)) (keys m)),
  length-keep_if previous (keys m) d,
  length-map (λ (e : Str × List Endpoint). e.0) m,
)

module _ (p : SelectionPolicy) (now : Time) (r : Registry) where
  -- Each key of `byCountry` has endpoints.
  keys-inhabited :
      (m n : Assoc (List Endpoint))
      → All (IsGroup p now r) n
      → All (λ e. lookup e.0 m ≡ some e.1) n
      → All (λ c. or_nil (lookup c m) ≢ []) (keys n)
  keys-inhabited m [] g h = tt
  keys-inhabited m (e ∷ n) g h =
      (subst (λ o. or_nil o ≢ []) (sym h.0) g.0.inhabited, keys-inhabited m n g.1 h.1)

  alternates-inhabited :
      (previous : Str) (m : Assoc (List Endpoint))
      → All (IsGroup p now r) m
      → Distinct (keys m)
      → All (λ c. or_nil (lookup c m) ≢ []) (alternates previous m)
  unfolding alternates
  alternates-inhabited previous m g d =
      All-sort_by (λ c. c) (λ c. or_nil (lookup c m) ≢ []) _
        (All-keep_if (λ c. or_nil (lookup c m) ≢ []) _ (keys m)
          (keys-inhabited m m g (lookup-entries m d)))

length-ne_nil {ℓ} : {A : Type ℓ} (xs : List A) → xs ≢ [] → 0 < length xs
length-ne_nil [] h = absurd (h refl)
length-ne_nil (x ∷ xs) h = omega arith

sorted-pos : (es : List Endpoint) → es ≢ [] → 0 < length (sorted_endpoints es)
sorted-pos es h = omega (arith, length-sort_by (λ (e : Endpoint). e.id) es, length-ne_nil es h)

module _ {S : Type 0} (random : Random S) (reliable : IsReliable random) where
  draw_from_total {ℓ} :
      {A : Type ℓ} (xs : List A) (s : S)
      → 0 < length xs
      → (a : A) × (i : ℕ) × ((draw_from random xs s).0 ≡ ok a) × (get_elem? xs i ≡ some a)
  unfolding draw_from
  draw_from_total xs s h =
      let (i, drawn) = reliable.draws (length xs) s h in
      let (a, found) = get_elem?-lt xs i (random.below_lt (length xs) s drawn) in
      (a, i, ground arith, found)

  new_lease_total :
      (p : SelectionPolicy) (job_id : Str) (platform : Platform) (e : Endpoint) (now : Time) (s : S)
      → (l : EgressLease) × ((new_lease random p job_id platform e now s).0 ≡ ok l)
  unfolding new_lease
  new_lease_total p job_id platform e now s =
      let (raw, drawn) = reliable.reads 16 s in
      elim (Result-cases (new_lease random p job_id platform e now s).0) [
        | inl (_, failed) ↦ absurd (ground arith)
        | inr (l, made) ↦ (l, made)
      ]

  select_rotating_total :
      (r : Registry) (p : SelectionPolicy) (job_id previous : Str) (now : Time) (s : S)
      (m : Assoc (List Endpoint))
      → All (IsGroup p now r) m
      → Distinct (keys m)
      → ltb_ℤ p.min_healthy_countries (pos 3) ≡ false
      → ((ltb_ℤ (pos (length m)) p.min_healthy_countries ≡ false)
          × ((l : EgressLease) × ((select_rotating random p job_id nostr previous now m s).0
                ≡ ok l)))
        ⊎ ((ltb_ℤ (pos (length m)) p.min_healthy_countries ≡ true)
            × ((select_rotating random p job_id nostr previous now m s).0
                ≡ err insufficient_countries))
  unfolding select_rotating
  select_rotating_total r p job_id previous now s m g d three =
      elim (Bool-cases (ltb_ℤ (pos (length m)) p.min_healthy_countries)) [
        | inl few ↦ inr (few, ground arith)
        | inr enough ↦
            let some_left : 0 < length (alternates previous m) =
              ground (arith, length-alternates previous m d) in
            let (country, i, drawn, at) = draw_from_total (alternates previous m) s some_left in
            let there =
              All-get_elem? (λ c. or_nil (lookup c m) ≢ []) _ i country
                (alternates-inhabited p now r previous m g d) at in
            let s' = (draw_from random (alternates previous m) s).1 in
            let (e, _, drawn', _) =
              draw_from_total (sorted_endpoints (or_nil (lookup country m))) s'
                (sorted-pos (or_nil (lookup country m)) there) in
            let (l, made) =
              new_lease_total p job_id nostr e now
                (draw_from random (sorted_endpoints (or_nil (lookup country m))) s').1 in
            inl (enough, (l, ground arith))
      ]

  -- What a request for Nostr ends with, when `exits` are the countries to choose from.
  pub data Served (r : Registry) (p : SelectionPolicy) (job_id previous : Str) (now : Time) (s : S)
      (exits : List Str) : Type 0 where
    leased :
        (l : EgressLease)
        → leb_ℤ p.min_healthy_countries (pos (length exits)) ≡ true
        → (select random r p job_id nostr previous now s).0 ≡ ok l
        → Served r p job_id previous now s exits
    too_few :
        ltb_ℤ (pos (length exits)) p.min_healthy_countries ≡ true
        → (select random r p job_id nostr previous now s).0 ≡ err insufficient_countries
        → Served r p job_id previous now s exits

  -- With a policy that requires at least three countries, a registered set of endpoints and a random
  -- source that does not fail, a well-formed request for Nostr gets a lease if at least as many
  -- countries as required have an exit, and `ErrInsufficientCountries` if fewer have. The countries
  -- counted are, each once, exactly those that the policy allows and in which a registered endpoint is
  -- eligible at that time. There is always an alternate to the previous country, and no draw is out
  -- of range.
  pub select_nostr_total :
      (r : Registry) (p : SelectionPolicy) (job_id previous : Str) (now : Time) (s : S)
      → IsValid r
      → ltb_ℤ p.min_healthy_countries (pos 3) ≡ false
      → validate_job_id job_id ≡ ok tt
      → check_previous p previous ≡ ok tt
      → (exits : List Str) × Distinct exits
        × ((c : Str) → Memᴰ c exits ↔ HasExit p now r c)
        × Served r p job_id previous now s exits
  unfolding select select_checked validate_platform
  select_nostr_total r p job_id previous now s v three job prev =
      let m = by_country p now r in
      let (g, d) = by_country-IsGroup p now r v in
      let counted = length-map (λ (e : Str × List Endpoint). e.0) m in
      (
        keys m,
        d,
        keys-by_country p now r v,
        elim (select_rotating_total r p job_id previous now s m g d three) [
          | inl (enough, (l, made)) ↦ leased l (ground (arith, counted)) (rw (job, prev) made)
          | inr (few, failed) ↦ too_few (ground (arith, counted)) (rw (job, prev) failed)
        ],
      )
