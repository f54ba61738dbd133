-- ===== src/Egress/Broker.antt =====
-- internal/egress/broker.go: the typed boundary to the privileged process. The executor is an
-- interface of the code; it acts on a network state `N` that nothing else here touches.
pub mod FailClosed
use nomadposting.Prelude.{
  ℕ, Bool, true, false, not, Str, String, text, length, leb_ℤ, pos, str_eq, Result, ok, err, ◌>>=◌,
  ◌>>◌, reject_if, if◌then◌else◌,
}
use nomadposting.Clock.{Time, Duration}
use nomadposting.Egress.Types.{
  Platform, validate_platform, validate_job_id, validate_endpoint_id, Endpoint, Health, eligible,
  EgressError, execution_disabled, endpoint_not_healthy, bad_broker,
}
use nomadposting.Egress.Registry.{Registry, resolve, snapshot}

pub record BrokerRequest : Type 0 where
  pub job_id : Str
  pub platform : Platform
  pub endpoint_id : Str

unfoldable pub validate_request : BrokerRequest → Result EgressError (Unit {0})
validate_request q = do
  validate_job_id q.job_id
  validate_platform q.platform
  validate_endpoint_id q.endpoint_id

pub record BrokerResult : Type 0 where
  pub accepted : Bool
  pub dry_run : Bool
  pub endpoint_id : Str
  pub message : Str

pub record BrokerStatus : Type 0 where
  pub platform_execution : Str
  pub execution_enabled : Bool
  pub registered_count : ℕ

-- `NamespaceExecutor.Activate`: it may change the network and may fail.
abbrev pub Executor : Type 0 → Type 0
Executor N = Str → Platform → Endpoint → N → Result EgressError (Unit {0}) × N

-- `DisabledNamespaceExecutor`.
abbrev pub disabled_executor : {N : Type 0} → Executor N
disabled_executor job platform e n = (err execution_disabled, n)

pub record GuardedBroker (N : Type 0) : Type 0 where
  pub executor : Executor N
  pub max_health_age : Duration
  pub enabled : Bool
  pub goos : Str  -- runtime.GOOS

unfoldable pub new_guarded_broker :
    {N : Type 0} → Executor N → Bool → Duration → Str → Result EgressError (GuardedBroker N)
new_guarded_broker executor enabled max_age goos = do
  reject_if (leb_ℤ max_age (pos 0)) bad_broker
  ok (record { executor = executor; max_health_age = max_age; enabled = enabled; goos = goos })

abbrev pub dry_run_message : Str
dry_run_message = text "registered request accepted; no network changes made"

module _ {N : Type 0} (b : GuardedBroker N) (r : Registry) where
  unfoldable pub status : BrokerStatus
  status = record {
    platform_execution = b.goos;
    execution_enabled = b.enabled;
    registered_count = length (snapshot r);
  }

  unfoldable pub dry_run : BrokerRequest → Result EgressError BrokerResult
  dry_run q = do
    validate_request q
    found ← resolve r q.endpoint_id
    ok (record {
      accepted = true;
      dry_run = true;
      endpoint_id = found.0.id;
      message = dry_run_message;
    })

  -- The checks of `Execute` before the executor is called.
  unfoldable pub admit : BrokerRequest → Time → Result EgressError Endpoint
  admit q now = do
    validate_request q
    found ← resolve r q.endpoint_id
    reject_if (not b.enabled) execution_disabled
    reject_if (not (str_eq b.goos (text "linux"))) execution_disabled
    reject_if (not (eligible found.1 now b.max_health_age)) endpoint_not_healthy
    ok found.0

  abbrev pub activated :
      Endpoint → Result EgressError (Unit {0}) × N → Result EgressError BrokerResult × N
  activated e (err failure, n) = (err failure, n)
  activated e (ok done, n) = (
    ok (record {
      accepted = true;
      dry_run = false;
      endpoint_id = e.id;
      message = text "namespace activation completed";
    }),
    n,
  )

  abbrev pub after_admission :
      BrokerRequest → Result EgressError Endpoint → N → Result EgressError BrokerResult × N
  after_admission q (err failure) n = (err failure, n)
  after_admission q (ok e) n = activated e (b.executor q.job_id q.platform e n)

  unfoldable pub execute : BrokerRequest → Time → N → Result EgressError BrokerResult × N
  execute q now n = after_admission q (admit q now) n
