-- ===== src/Tests/Reconcile.antt =====
-- A Kubernetes with one ProviderConfig, whose credentials Reconcile checks.
use crossplane_provider_slac.Base.{
  String, ◌≡◌, ◌↔◌, ◌⊎◌, refl, false, none, some, ◌==◌, if◌then◌else◌,
}
use crossplane_provider_slac.Base.Int.{pos}
use crossplane_provider_slac.Errors.{Error, ok, err, plain, wrap}
use crossplane_provider_slac.Runtime.{ready, status_true}
use crossplane_provider_slac.ProviderConfig.{
  Kube, ProviderConfig, extract_token, validate_token, credentials_source_secret, Secret,
}
use crossplane_provider_slac.ProviderConfig.Reconcile.{
  Reconciler, reconcile, get_failure, no_requeue,
}
use crossplane_provider_slac.ProviderConfig.Reconcile.Readiness.{
  Passes, KeepsStatus, before_credentials, IsReadError, IsStandardError, reconcile-ready,
  reconcile-error,
}
use crossplane_provider_slac.Tests.Fixtures.{
  test_runtime, test_runtime-IsLawful, no_kube, no_conditions,
}

abbrev Stored : Type 0
Stored = ProviderConfig test_runtime

abbrev credentials : Stored
credentials = record {
  meta = "default";
  credentials = record {
    source = credentials_source_secret;
    secret_ref = some (record { namespace = "ns"; name = "slack"; key = "token" });
  };
  poll_interval = none;
  conditions = no_conditions;
  users = pos 0;
}

abbrev secret : Secret
secret key = if key == "token" then some "xoxb-1" else none

-- The world is the stored ProviderConfig.
abbrev store : Kube test_runtime Stored
store = record no_kube {
  get_provider_config = λ name w. (ok w, w);
  get_secret = λ namespace name w. (ok secret, w);
}

abbrev reconciler : Reconciler test_runtime Stored
reconciler = record {
  kube = store;
  update_status = λ pc w. (ok tt, pc);
  standard_reconcile = λ name w. ((no_requeue, none), w);
  was_deleted = λ pc. false;
  is_not_found = λ e. false;
}

reconciler-KeepsStatus : KeepsStatus reconciler
reconciler-KeepsStatus name v w pc next reads same updates = (next, refl, refl)

credentials_pass : Passes reconciler "default" credentials no_requeue credentials
credentials_pass = record {
  first = credentials;
  reads = refl;
  lives = refl;
  delegates = refl;
  reads_again = refl;
}

reconcile-ready_example :
    ((reconcile reconciler "default" credentials).0 ≡ (no_requeue, none))
    × ((read : Stored) × ((store.get_provider_config "default"
            (reconcile reconciler "default" credentials).1).0
          ≡ ok read)
        × (((test_runtime.get_condition read.conditions ready).status ≡ status_true) ↔ (
            (token : String) × ((extract_token test_runtime store credentials
                (before_credentials reconciler "default" credentials)).0
              ≡ ok token)
            × (validate_token token ≡ none))))
reconcile-ready_example =
    reconcile-ready reconciler test_runtime-IsLawful reconciler-KeepsStatus "default" credentials
      no_requeue credentials credentials_pass refl

-- A Kubernetes that does not answer.
abbrev timeout : Error
timeout = plain "context deadline exceeded"

abbrev unreachable : Reconciler test_runtime Stored
unreachable = record reconciler {
  kube = record store { get_provider_config = λ name w. (err timeout, w) };
}

abbrev get_error : Error
get_error = wrap "cannot get ProviderConfig" timeout

unreachable_fails : (reconcile unreachable "default" credentials).0.1 ≡ some get_error
unfolding reconcile get_failure
unreachable_fails = refl

reconcile-error_example :
    IsReadError unreachable "default" get_error ⊎ IsStandardError unreachable "default" get_error
reconcile-error_example =
    reconcile-error unreachable "default" credentials get_error unreachable_fails
