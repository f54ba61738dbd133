-- ===== src/Egress/Selector/Candidates.antt =====
-- What the map `byCountry` of `Select` holds.
use nomadposting.Prelude.{
  ◌≡◌, refl, subst, ◌≢◌, inl, inr, true, List, [], ◌∷◌, ◌++◌, map, some, Str, All, All-snoc,
  Option-cases, Bool-cases,
}
use nomadposting.Prelude.Assoc.{
  Assoc, lookup, keys, Distinct, lookup-entries, All-insert, All-lookup, Distinct-insert,
}
use nomadposting.Prelude.Order.{All-sort_by}
use nomadposting.Clock.{Time}
use nomadposting.Egress.Types.{Endpoint}
use nomadposting.Egress.Registry.{EndpointRecord, Registry, snapshot}
use nomadposting.Egress.Registry.Valid.{IsValid, EntryIsValid}
use nomadposting.Egress.Selector.{
  SelectionPolicy, or_nil, add_endpoint, is_candidate, group_from, by_country,
}

-- An item is what its endpoint's ID resolves to.
abbrev Registered : Registry → EndpointRecord → Type 0
Registered r item = lookup item.endpoint.id r ≡ some item

values-Registered :
    (r m : Registry)
    → All EntryIsValid m
    → All (λ e. lookup e.0 r ≡ some e.1) m
    → All (Registered r) (map (λ e. e.1) m)
values-Registered r [] v h = tt
values-Registered r (e ∷ m) v h =
    (subst (λ k. lookup k r ≡ some e.1) v.0.0 h.0, values-Registered r m v.1 h.1)

pub snapshot-Registered : (r : Registry) → IsValid r → All (Registered r) (snapshot r)
unfolding snapshot
snapshot-Registered r v =
    All-sort_by (λ item. item.endpoint.id) (Registered r) (map (λ e. e.1) r)
      (values-Registered r r v.entries (lookup-entries r v.distinct))

snoc-ne-nil : {A : Type 0} (xs : List A) (a : A) → xs ++ a ∷ [] ≢ []
snoc-ne-nil [] a e = cc
snoc-ne-nil (b ∷ xs) a e = cc

add_endpoint-Distinct :
    (e : Endpoint) (m : Assoc (List Endpoint))
    → Distinct (keys m)
    → Distinct (keys (add_endpoint e m))
unfolding add_endpoint
add_endpoint-Distinct e m d =
    Distinct-insert e.country_code (or_nil (lookup e.country_code m) ++ e ∷ []) m d

module _ (p : SelectionPolicy) (now : Time) (r : Registry) where
  -- An endpoint of a country: registered, in that country, allowed and eligible.
  pub record Candidate (country : Str) (e : Endpoint) : Type 0 where
    pub item : EndpointRecord
    pub registered : lookup e.id r ≡ some item
    pub own : item.endpoint ≡ e
    pub located : e.country_code ≡ country
    pub passes : is_candidate p now item ≡ true

  -- An entry of `byCountry`.
  pub record IsGroup (entry : Str × List Endpoint) : Type 0 where
    pub members : All (Candidate entry.0) entry.1
    pub inhabited : entry.1 ≢ []

  pub or_nil-members :
      (c : Str) (m : Assoc (List Endpoint))
      → All IsGroup m
      → All (Candidate c) (or_nil (lookup c m))
  or_nil-members c m h = elim (Option-cases (lookup c m)) [
    | inl e ↦ rw e tt
    | inr (es, e) ↦ rw e ((All-lookup IsGroup c es m h e).members)
  ]

  add_endpoint-IsGroup :
      (e : Endpoint) (m : Assoc (List Endpoint))
      → Candidate e.country_code e
      → All IsGroup m
      → All IsGroup (add_endpoint e m)
  unfolding add_endpoint
  add_endpoint-IsGroup e m q h =
      let c = e.country_code in
      All-insert IsGroup c (or_nil (lookup c m) ++ e ∷ []) m
        (record {
          members = All-snoc (Candidate c) (or_nil (lookup c m)) e (or_nil-members c m h) q;
          inhabited = snoc-ne-nil (or_nil (lookup c m)) e;
        })
        h

  group_from-IsGroup :
      (m : Assoc (List Endpoint)) (items : List EndpointRecord)
      → All (Registered r) items
      → All IsGroup m
      → Distinct (keys m)
      → All IsGroup (group_from p now m items) × Distinct (keys (group_from p now m items))
  unfolding group_from
  group_from-IsGroup m [] g h d = (h, d)
  group_from-IsGroup m (item ∷ items) g h d = elim (Bool-cases (is_candidate p now item)) [
    | inl y ↦
        let q : Candidate item.endpoint.country_code item.endpoint = record {
          item = item;
          registered = g.0;
          own = refl;
          located = refl;
          passes = y;
        } in
        rw y (
          group_from-IsGroup (add_endpoint item.endpoint m) items g.1
            (add_endpoint-IsGroup item.endpoint m q h) (add_endpoint-Distinct item.endpoint m d))
    | inr n ↦ rw n (group_from-IsGroup m items g.1 h d)
  ]

  -- Every entry of `byCountry` has a member, its members are candidates of its country, and no
  -- country stands twice.
  pub by_country-IsGroup :
      IsValid r → All IsGroup (by_country p now r) × Distinct (keys (by_country p now r))
  unfolding by_country
  by_country-IsGroup v = group_from-IsGroup [] (snapshot r) (snapshot-Registered r v) tt tt
