-- ===== src/Egress/Selector/Countries.antt =====
-- Which countries the map `byCountry` of `Select` has: those with an endpoint that may be used.
use mathlib.Core.List.{Memᴰ}
use mathlib.Core.List.Memᴰ
use nomadposting.Prelude.{
  ◌≡◌, refl, sym, ap, ◌∙◌, subst, ◌↔◌, inl, inr, Bool, true, List, [], ◌∷◌, map, some, Str, str_eq,
  str_eq_iff, str_lt, false, if◌then◌else◌, All, arith, Bool-cases,
}
use nomadposting.Prelude.Assoc.{Assoc, lookup, insert, keys}
use nomadposting.Prelude.Order.{insert_by, sort_by}
use nomadposting.Clock.{Time}
use nomadposting.Egress.Types.{Endpoint, eligible}
use nomadposting.Egress.Registry.{EndpointRecord, Registry, snapshot}
use nomadposting.Egress.Registry.Valid.{IsValid}
use nomadposting.Egress.Selector.{
  SelectionPolicy, contains, add_endpoint, is_candidate, group_from, by_country,
}
use nomadposting.Egress.Selector.Candidates.{IsGroup, by_country-IsGroup}

if_mem :
    {A : Type 0} {x : A} {xs ys : List A} (b : Bool)
    → Memᴰ x xs
    → Memᴰ x ys
    → Memᴰ x (if b then xs else ys)
if_mem true m n = m
if_mem false m n = n

module _ {A : Type 0} (key : A → Str) where
  Mem-insert_by_self : (x : A) (ys : List A) → Memᴰ x (insert_by key x ys)
  unfolding insert_by
  Mem-insert_by_self x [] = Memᴰ.head refl
  Mem-insert_by_self x (y ∷ ys) =
      if_mem (str_lt (key x) (key y)) (Memᴰ.head refl) (Memᴰ.tail (Mem-insert_by_self x ys))

  Mem-insert_by : (x : A) {y : A} (ys : List A) → Memᴰ y ys → Memᴰ y (insert_by key x ys)
  unfolding insert_by
  Mem-insert_by x [] m = Memᴰ.tail m
  Mem-insert_by x (z ∷ ys) (Memᴰ.head e) =
      if_mem (str_lt (key x) (key z)) (Memᴰ.tail (Memᴰ.head e)) (Memᴰ.head e)
  Mem-insert_by x (z ∷ ys) (Memᴰ.tail m) =
      if_mem (str_lt (key x) (key z)) (Memᴰ.tail (Memᴰ.tail m)) (Memᴰ.tail (Mem-insert_by x ys m))

  Mem-sort_by : {y : A} (xs : List A) → Memᴰ y xs → Memᴰ y (sort_by key xs)
  unfolding sort_by
  Mem-sort_by [] m = elim m [ ]
  Mem-sort_by (x ∷ xs) (Memᴰ.head e) =
      subst (λ y. Memᴰ y (insert_by key x (sort_by key xs))) (sym e)
        (Mem-insert_by_self x (sort_by key xs))
  Mem-sort_by (x ∷ xs) (Memᴰ.tail m) = Mem-insert_by x (sort_by key xs) (Mem-sort_by xs m)

contains-Mem : (js : List Str) (k : Str) → contains js k ≡ true → Memᴰ k js
unfolding contains
contains-Mem [] k h = cc
contains-Mem (j ∷ js) k h = elim (Bool-cases (str_eq j k)) [
  | inl e ↦ Memᴰ.head (sym ((str_eq_iff j k).0 e))
  | inr e ↦ Memᴰ.tail (contains-Mem js k (ground arith))
]

Mem-contains : (js : List Str) (k : Str) → Memᴰ k js → contains js k ≡ true
unfolding contains
Mem-contains [] k m = elim m [ ]
Mem-contains (j ∷ js) k (Memᴰ.head e) = ground (arith, str_eq_iff j k)
Mem-contains (j ∷ js) k (Memᴰ.tail m) = ground (arith, Mem-contains js k m)

module _ {V : Type 0} where
  lookup-Mem : (k : Str) (v : V) (m : Assoc V) → lookup k m ≡ some v → Memᴰ (k, v) m
  unfolding lookup
  lookup-Mem k v [] h = cc
  lookup-Mem k v ((j, w) ∷ m) h = elim (Bool-cases (str_eq j k)) [
    | inl e ↦
        let j_is : j ≡ k = (str_eq_iff j k).0 e in
        let w_is : w ≡ v = ground arith in Memᴰ.head (cc (j_is, w_is))
    | inr e ↦ Memᴰ.tail (lookup-Mem k v m (ground arith))
  ]

  Mem-keys-insert_self : (k : Str) (v : V) (m : Assoc V) → Memᴰ k (keys (insert k v m))
  unfolding insert
  Mem-keys-insert_self k v [] = Memᴰ.head refl
  Mem-keys-insert_self k v ((j, w) ∷ m) = elim (Bool-cases (str_eq j k)) [
    | inl e ↦ rw e (Memᴰ.head (sym ((str_eq_iff j k).0 e)))
    | inr e ↦ rw e (Memᴰ.tail (Mem-keys-insert_self k v m))
  ]

  Mem-keys-insert :
      (k : Str) (v : V) {c : Str} (m : Assoc V) → Memᴰ c (keys m) → Memᴰ c (keys (insert k v m))
  unfolding insert
  Mem-keys-insert k v [] t = elim t [ ]
  Mem-keys-insert k v ((j, w) ∷ m) (Memᴰ.head e) = elim (Bool-cases (str_eq j k)) [
    | inl same ↦ rw same (Memᴰ.head e)
    | inr other ↦ rw other (Memᴰ.head e)
  ]
  Mem-keys-insert k v ((j, w) ∷ m) (Memᴰ.tail t) = elim (Bool-cases (str_eq j k)) [
    | inl same ↦ rw same (Memᴰ.tail t)
    | inr other ↦ rw other (Memᴰ.tail (Mem-keys-insert k v m t))
  ]

module _ (p : SelectionPolicy) (now : Time) (r : Registry) where
  -- A country that the policy allows, with a registered endpoint that is eligible at that time.
  pub record HasExit (country : Str) : Type 0 where
    pub allowed : Memᴰ country p.allowed_countries
    pub id : Str
    pub item : EndpointRecord
    pub registered : lookup id r ≡ some item
    pub located : item.endpoint.country_code ≡ country
    pub usable : eligible item.health now p.max_health_age ≡ true

  grouped_before :
      {c : Str} (m : Assoc (List Endpoint)) (items : List EndpointRecord)
      → Memᴰ c (keys m)
      → Memᴰ c (keys (group_from p now m items))
  unfolding group_from add_endpoint
  grouped_before m [] h = h
  grouped_before m (item ∷ items) h = elim (Bool-cases (is_candidate p now item)) [
    | inl y ↦ rw y (
        grouped_before (add_endpoint item.endpoint m) items
          (Mem-keys-insert item.endpoint.country_code _ m h))
    | inr n ↦ rw n (grouped_before m items h)
  ]

  grouped :
      (m : Assoc (List Endpoint)) (items : List EndpointRecord) (item : EndpointRecord)
      → Memᴰ item items
      → is_candidate p now item ≡ true
      → Memᴰ item.endpoint.country_code (keys (group_from p now m items))
  unfolding group_from add_endpoint
  grouped m [] item t h = elim t [ ]
  grouped m (x ∷ items) item (Memᴰ.head e) h =
      let y : is_candidate p now x ≡ true = subst (λ z. is_candidate p now z ≡ true) e h in
      subst
        (λ (z : EndpointRecord).
          Memᴰ z.endpoint.country_code (keys (group_from p now m (x ∷ items))))
        (sym e)
        (rw y (
          grouped_before (add_endpoint x.endpoint m) items
            (Mem-keys-insert_self x.endpoint.country_code _ m)))
  grouped m (x ∷ items) item (Memᴰ.tail t) h =
      grouped (if is_candidate p now x then add_endpoint x.endpoint m else m) items item t h

  exit_listed : (c : Str) → HasExit c → Memᴰ c (keys (by_country p now r))
  unfolding by_country snapshot is_candidate
  exit_listed c h =
      let there : Memᴰ h.item (snapshot r) =
        Mem-sort_by (λ (item : EndpointRecord). item.endpoint.id) (map (λ e. e.1) r)
          (Memᴰ.map (λ (e : Str × EndpointRecord). e.1) (lookup-Mem h.id h.item r h.registered)) in
      let listed =
        Mem-contains p.allowed_countries h.item.endpoint.country_code
          (subst (λ x. Memᴰ x p.allowed_countries) (sym h.located) h.allowed) in
      subst (λ x. Memᴰ x (keys (by_country p now r))) h.located
        (grouped [] (snapshot r) h.item there (ground (arith, listed, h.usable)))

  group-HasExit : (c : Str) (es : List Endpoint) → IsGroup p now r (c, es) → HasExit c
  unfolding is_candidate
  group-HasExit c [] g = absurd (g.inhabited refl)
  group-HasExit c (e ∷ es) g =
      let q = g.members.0 in
      let at : q.item.endpoint.country_code ≡ c =
        ap (λ (x : Endpoint). x.country_code) q.own ∙ q.located in
      record {
        allowed =
            subst (λ x. Memᴰ x p.allowed_countries) at
              (contains-Mem p.allowed_countries q.item.endpoint.country_code
                (ground (arith, q.passes)));
        id = e.id;
        item = q.item;
        registered = q.registered;
        located = at;
        usable = ground (arith, q.passes);
      }

  listed_exit :
      (c : Str) (m : Assoc (List Endpoint)) → All (IsGroup p now r) m → Memᴰ c (keys m) → HasExit c
  listed_exit c [] g t = elim t [ ]
  listed_exit c ((k, es) ∷ m) g (Memᴰ.head e) = subst HasExit (sym e) (group-HasExit k es g.0)
  listed_exit c ((k, es) ∷ m) g (Memᴰ.tail t) = listed_exit c m g.1 t

  -- The keys of `byCountry` are the countries with an exit.
  pub keys-by_country : IsValid r → (c : Str) → Memᴰ c (keys (by_country p now r)) ↔ HasExit c
  keys-by_country v c =
      (λ m. listed_exit c (by_country p now r) (by_country-IsGroup p now r v).0 m, exit_listed c)
