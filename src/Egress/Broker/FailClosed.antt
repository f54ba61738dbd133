-- ===== src/Egress/Broker/FailClosed.antt =====
-- internal/egress/broker.go: when `Execute` reaches the executor.
use nomadposting.Prelude.{
  ◌≡◌, refl, sym, ◌⊎◌, inl, inr, true, false, text, str_eq_iff, Result, ok, err, arith,
  Result-cases,
}
use nomadposting.Clock.{Time}
use nomadposting.Egress.Types.{Endpoint, Health, eligible, EgressError, execution_disabled}
use nomadposting.Egress.Registry.{Registry, resolve}
use nomadposting.Egress.Broker.{
  BrokerRequest, BrokerResult, GuardedBroker, validate_request, disabled_executor, dry_run_message,
  dry_run, admit, activated, execute,
}

module _ {N : Type 0} (b : GuardedBroker N) (r : Registry) where
  -- What the broker has checked when it calls the executor.
  pub record IsAdmitted (q : BrokerRequest) (now : Time) (e : Endpoint) : Type 0 where
    pub health : Health
    pub well_formed : validate_request q ≡ ok tt
    pub registered : resolve r q.endpoint_id ≡ ok (e, health)
    pub switched_on : b.enabled ≡ true
    pub on_linux : b.goos ≡ text "linux"
    pub healthy : eligible health now b.max_health_age ≡ true

  admit-IsAdmitted :
      (q : BrokerRequest) (now : Time) (e : Endpoint) → admit b r q now ≡ ok e → IsAdmitted q now e
  unfolding admit
  admit-IsAdmitted q now e h = elim (Result-cases (resolve r q.endpoint_id)) [
    | inl (_, f) ↦ absurd (ground arith)
    | inr (found, f) ↦ record {
      health = found.1;
      well_formed = ground arith;
      registered = ground arith;
      switched_on = ground arith;
      on_linux = ground (arith, str_eq_iff b.goos (text "linux"));
      healthy = ground arith;
    }
  ]

  -- How the executor's answer becomes the broker's.
  abbrev pub Answers :
      Endpoint → Result EgressError (Unit {0}) → Result EgressError BrokerResult → Type 0
  Answers e (err f) answer = answer ≡ err f
  Answers e (ok done) answer =
      (res : BrokerResult) × (answer ≡ ok res)
      × (res.accepted ≡ true)
      × (res.dry_run ≡ false)
      × (res.endpoint_id ≡ e.id)

  answered_endpoint :
      (e : Endpoint) (a : Result EgressError (Unit {0})) (answer : Result EgressError BrokerResult)
      {res : BrokerResult}
      → Answers e a answer
      → answer ≡ ok res
      → res.endpoint_id ≡ e.id
  answered_endpoint e (err f) answer h p = absurd (ground arith)
  answered_endpoint e (ok done) answer h p = ground arith

  activated-Answers :
      (e : Endpoint) (a : Result EgressError (Unit {0}) × N)
      → Answers e a.0 (activated b r e a).0 × ((activated b r e a).1 ≡ a.1)
  activated-Answers e (err f, n) = (refl, refl)
  activated-Answers e (ok done, n) = ((_, refl, refl, refl, refl), refl)

  -- `Execute` returns an error and leaves the network alone, or it has made every check and hands
  -- the network to the executor once, for the job and platform of the request and the endpoint that
  -- the registry holds under the requested ID; the executor's error is then the broker's, and its
  -- success an accepted result for that endpoint.
  pub execute_fails_closed :
      (q : BrokerRequest) (now : Time) (n : N)
      → ((e : EgressError) × (execute b r q now n ≡ (err e, n)))
        ⊎ ((e : Endpoint) × IsAdmitted q now e
            × Answers e (b.executor q.job_id q.platform e n).0 (execute b r q now n).0
            × ((execute b r q now n).1 ≡ (b.executor q.job_id q.platform e n).1))
  unfolding execute
  execute_fails_closed q now n = elim (Result-cases (admit b r q now)) [
    | inl (e, refused) ↦ inl (e, rw refused)
    | inr (e, passed) ↦
        let (answers, left) = activated-Answers e (b.executor q.job_id q.platform e n) in
        inr (e, admit-IsAdmitted q now e passed, rw passed answers, rw passed left)
  ]

  -- A request that `Execute` accepts is one that `DryRun` accepts for the same endpoint, so a dry
  -- run never refuses what would be executed.
  pub dry_run-execute :
      (q : BrokerRequest) (now : Time) (n : N) (res : BrokerResult)
      → (execute b r q now n).0 ≡ ok res
      → (dry : BrokerResult) × (dry_run b r q ≡ ok dry)
        × (dry.accepted ≡ true)
        × (dry.dry_run ≡ true)
        × (dry.endpoint_id ≡ res.endpoint_id)
  unfolding dry_run
  dry_run-execute q now n res h = elim (execute_fails_closed q now n) [
    | inl (e, refused) ↦ absurd (ground arith)
    | inr (e, a, answers, _) ↦ (
      record { accepted = true; dry_run = true; endpoint_id = e.id; message = dry_run_message },
      rw (a.well_formed, a.registered),
      refl,
      refl,
      sym (
          answered_endpoint e (b.executor q.job_id q.platform e n).0 (execute b r q now n).0 answers
            h),
    )
  ]

-- With the executor that the program is built with, no request changes the network.
pub disabled_executor_inert :
    {N : Type 0} (b : GuardedBroker N) (r : Registry) (q : BrokerRequest) (now : Time) (n : N)
    → b.executor ≡ disabled_executor
    → (e : EgressError) × (execute b r q now n ≡ (err e, n))
unfolding execute
disabled_executor_inert b r q now n off = elim (Result-cases (admit b r q now)) [
  | inl (e, refused) ↦ (e, rw refused)
  | inr (e, passed) ↦ (execution_disabled, rw (passed, off))
]
