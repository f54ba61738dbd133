-- ===== src/Egress/Health/Quarantine.antt =====
-- The health of one endpoint over its history of probes, newest first.
use mathlib.Core.List.{Memᴰ}
use nomadposting.Prelude.{
  ◌+◌, ◌≤◌, ◌<◌, ◌≡◌, refl, ap, ◌∙◌, subst, ◌⊎◌, inl, inr, Bool, true, false, not, ◌||◌, ◌&&◌, List,
  [], ◌∷◌, Option, none, some, Str, str_eq, str_eq_iff, leb_ℤ, if◌then◌else◌, arith, Option-cases,
  Bool-cases,
}
use mathlib.Core.Option
use nomadposting.Prelude.Assoc.{lookup, lookup-insert}
use nomadposting.Clock.{Time, Duration, is_zero, sub_time}
use nomadposting.Egress.Types.{Health, no_health, eligible}
use nomadposting.Egress.Registry.{EndpointRecord, Registry, marked, mark_probe}
use nomadposting.Egress.Registry.Valid.{IsValid, endpoints, insert_health-IsValid, endpoints-insert}
use nomadposting.Egress.Health.{ProbeReport, hard_failure, probed, apply_probe, ignoring}

-- One probe of an endpoint: a plain verdict for `MarkProbe`, or a report for `ApplyProbe`.
pub data Probe : Type 0 where
  mark : Bool → Time → Probe
  report : ProbeReport → Probe

-- A probe recorded for an endpoint, an error ignored, as `probeAll` does.
unfoldable pub record_probe : Registry → Str → Probe → Registry
record_probe r id (mark healthy now) = ignoring r (mark_probe r id healthy now)
record_probe r id (report p) = ignoring r (apply_probe r (record p { endpoint_id = id }))

-- What a probe does to the health of its own endpoint.
unfoldable pub after_probe : Health → Probe → Health
unfolding marked probed
after_probe h (mark healthy now) = marked h healthy now
after_probe h (report p) = if is_zero p.checked_at then h else probed h p

unfoldable pub health_of : List Probe → Health
unfolding after_probe
health_of [] = no_health
health_of (p ∷ ps) = after_probe (health_of ps) p

-- A recorded probe changes the health of its endpoint by `after_probe`, and of no other endpoint.
pub lookup-record_probe :
    (r : Registry) (id j : Str) (p : Probe)
    → lookup j (record_probe r id p) ≡ (
        if str_eq id j
        then Option.map
            (λ (x : EndpointRecord). record x { health = after_probe x.health p })
            (lookup j r)
        else lookup j r)
unfolding record_probe after_probe mark_probe apply_probe
lookup-record_probe r id j (mark healthy now) = elim (Option-cases (lookup id r)) [
  | inl e ↦ ground (arith, str_eq_iff id j)
  | inr (x, e) ↦ ground (
    arith,
    str_eq_iff id j,
    lookup-insert id j (record x { health = marked x.health healthy now }) r,
  )
]
lookup-record_probe r id j (report p) = elim (Option-cases (lookup id r)) [
  | inl e ↦ ground (arith, str_eq_iff id j)
  | inr (x, e) ↦
      ground
        (arith, str_eq_iff id j, lookup-insert id j (record x { health = probed x.health p }) r)
]

-- Recording a probe, whatever it says and whether or not the ID is registered, keeps the registry
-- valid and its endpoints as they were.
pub record_probe-IsValid :
    (r : Registry) (id : Str) (p : Probe)
    → IsValid r
    → IsValid (record_probe r id p) × (endpoints (record_probe r id p) ≡ endpoints r)
unfolding record_probe mark_probe apply_probe
record_probe-IsValid r id (mark healthy now) v = elim (Option-cases (lookup id r)) [
  | inl e ↦ rw e (v, refl)
  | inr (x, e) ↦
      let h = marked x.health healthy now in
      rw e (insert_health-IsValid id x h r e v, endpoints-insert id x h r e)
]
record_probe-IsValid r id (report p) v = elim (Option-cases (lookup id r)) [
  | inl e ↦ elim (Bool-cases (is_zero p.checked_at)) [
    | inl z ↦ rw z (v, refl)
    | inr z ↦ rw (z, e) (v, refl)
  ]
  | inr (x, e) ↦ elim (Bool-cases (is_zero p.checked_at)) [
    | inl z ↦ rw z (v, refl)
    | inr z ↦
        let h = probed x.health p in
        rw (z, e) (insert_health-IsValid id x h r e v, endpoints-insert id x h r e)
  ]
]

after_probe-quarantined :
    (h : Health) (p : Probe) → h.quarantined ≡ true → (after_probe h p).quarantined ≡ true
unfolding after_probe
after_probe-quarantined h (mark healthy now) q = ground arith
after_probe-quarantined h (report p) q = ground arith

abbrev pub is_hard : Probe → Bool
is_hard (mark healthy now) = false
is_hard (report p) =
    (not p.static_ip_match || not p.country_match || p.dns_leak || p.route_leak || not p.tls_valid)
    && not (is_zero p.checked_at)

after_probe-hard :
    (h : Health) (p : Probe) → is_hard p ≡ true → (after_probe h p).quarantined ≡ true
unfolding after_probe
after_probe-hard h (mark healthy now) q = cc
after_probe-hard h (report p) q = ground arith

quarantined-eligible :
    (h : Health) (now : Time) (max_age : Duration)
    → h.quarantined ≡ true
    → eligible h now max_age ≡ false
unfolding eligible
quarantined-eligible h now max_age q = ground arith

hard-quarantined :
    (ps : List Probe) (p : Probe) → is_hard p ≡ true → Memᴰ p ps → (health_of ps).quarantined ≡ true
unfolding health_of
hard-quarantined [] p hard m = elim m [ ]
hard-quarantined (q ∷ ps) p hard (Memᴰ.head e) =
    after_probe-hard (health_of ps) q (subst (λ z. is_hard z ≡ true) e hard)
hard-quarantined (q ∷ ps) p hard (Memᴰ.tail m) =
    after_probe-quarantined (health_of ps) q (hard-quarantined ps p hard m)

-- One dated report of a leak, an address, country or certificate mismatch makes an endpoint
-- ineligible for good: no later probe of either kind brings it back.
pub hard_failure_is_final :
    (ps : List Probe) (p : Probe) (now : Time) (max_age : Duration)
    → is_hard p ≡ true
    → Memᴰ p ps
    → eligible (health_of ps) now max_age ≡ false
hard_failure_is_final ps p now max_age hard m =
    quarantined-eligible (health_of ps) now max_age (hard-quarantined ps p hard m)

-- A probe that failed to reach the endpoint.
abbrev pub is_miss : Probe → Bool
is_miss (mark healthy now) = not healthy
is_miss (report p) = not (hard_failure p) && not p.reachable && not (is_zero p.checked_at)

after_probe-miss :
    (h : Health) (p : Probe)
    → is_miss p ≡ true
    → h.failures + 1 < 4294967296
    → ((after_probe h p).failures ≡ h.failures + 1)
      × ((3 ≤ h.failures + 1) → (after_probe h p).quarantined ≡ true)
unfolding after_probe
after_probe-miss h (mark healthy now) m b = ground arith
after_probe-miss h (report p) m b = ground arith

-- Three misses in a row quarantine an endpoint, from whatever health it had, and it is ineligible
-- from then on. The failure count must be three or more below the end of its uint32.
pub three_misses_quarantine :
    (h : Health) (p q r : Probe) (now : Time) (max_age : Duration)
    → h.failures + 3 < 4294967296
    → is_miss p ≡ true
    → is_miss q ≡ true
    → is_miss r ≡ true
    → ((after_probe (after_probe (after_probe h p) q) r).quarantined ≡ true)
      × (eligible (after_probe (after_probe (after_probe h p) q) r) now max_age ≡ false)
three_misses_quarantine h p q r now max_age b mp mq mr =
    let a = after_probe-miss h p mp (omega arith) in
    let c = after_probe-miss (after_probe h p) q mq (omega (arith, a.0)) in
    let d = after_probe-miss (after_probe (after_probe h p) q) r mr (omega (arith, a.0, c.0)) in
    let e = d.1 (omega (arith, a.0, c.0)) in (e, quarantined-eligible _ now max_age e)

-- The time of a probe that found nothing wrong.
abbrev pub passed_at : Probe → Option Time
passed_at (mark healthy now) = if healthy then some now else none
passed_at (report p) =
    if hard_failure p || not p.reachable || is_zero p.checked_at then none else some p.checked_at

after_probe-healthy :
    (h : Health) (p : Probe)
    → (after_probe h p).healthy ≡ true
    → (after_probe h p).quarantined ≡ false
    → (passed_at p ≡ some (after_probe h p).checked_at)
      ⊎ ((h.healthy ≡ true)
          × (h.quarantined ≡ false)
          × (h.checked_at ≡ (after_probe h p).checked_at))
unfolding after_probe
after_probe-healthy h (mark healthy now) a q = ground arith
after_probe-healthy h (report p) a q = ground arith

healthy_passed :
    (ps : List Probe)
    → (health_of ps).healthy ≡ true
    → (health_of ps).quarantined ≡ false
    → (p : Probe) × Memᴰ p ps × (passed_at p ≡ some (health_of ps).checked_at)
unfolding health_of
healthy_passed [] a q = cc
healthy_passed (p ∷ ps) a q = elim (after_probe-healthy (health_of ps) p a q) [
  | inl e ↦ (p, Memᴰ.head refl, e)
  | inr (a', q', e) ↦ let (p', m, e') = healthy_passed ps a' q' in (p', Memᴰ.tail m, e' ∙ ap some e)
]

pub eligible_inv :
    (h : Health) (now : Time) (max_age : Duration)
    → eligible h now max_age ≡ true
    → (h.healthy ≡ true)
      × (h.quarantined ≡ false)
      × (h.checked_at ≤ now)
      × (leb_ℤ (sub_time now h.checked_at) max_age ≡ true)
unfolding eligible sub_time
eligible_inv h now max_age e = ground arith

-- An endpoint is eligible only on the strength of a probe in its history that passed, that is not
-- dated in the future and is no older than the maximum age.
pub eligible_needs_pass :
    (ps : List Probe) (now : Time) (max_age : Duration)
    → eligible (health_of ps) now max_age ≡ true
    → (p : Probe) × (t : Time) × Memᴰ p ps
      × (passed_at p ≡ some t)
      × (t ≤ now)
      × (leb_ℤ (sub_time now t) max_age ≡ true)
eligible_needs_pass ps now max_age e =
    let (a, q, past, recent) = eligible_inv (health_of ps) now max_age e in
    let (p, m, at) = healthy_passed ps a q in (p, (health_of ps).checked_at, m, at, past, recent)
