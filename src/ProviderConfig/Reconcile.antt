-- ===== src/ProviderConfig/Reconcile.antt =====
-- internal/controller/providerconfig/setup.go: Reconcile of the ProviderConfig controller.
pub mod Readiness
use crossplane_provider_slac.Base.{
  ℕ, ◌*◌, String, Bool, true, false, Option, none, some, if◌then◌else◌,
}
use crossplane_provider_slac.Errors.{Error, Result, ok, err, wrap}
use crossplane_provider_slac.Act.{Act}
use crossplane_provider_slac.Runtime.{Runtime}
use crossplane_provider_slac.ProviderConfig.{
  ProviderConfig, Kube, extract_token, set_credential_condition,
}

-- The fields of reconcile.Result; the duration in nanoseconds.
pub record Outcome : Type 0 where
  pub requeue : Bool
  pub requeue_after : ℕ

abbrev pub no_requeue : Outcome
no_requeue = record { requeue = false; requeue_after = 0 }

abbrev pub short_wait : ℕ
short_wait = 30 * 1000000000

abbrev pub requeue_soon : Outcome
requeue_soon = record { requeue = false; requeue_after = short_wait }

abbrev pub err_get_pc : String
err_get_pc = "cannot get ProviderConfig"

-- An outcome and an error, which Go code returns both.
abbrev pub Reconciled : Type 0 → Type 0
Reconciled W = W → (Outcome × Option Error) × W

-- type reconciler struct: the Kubernetes client and its status writer, and the reconciler of
-- crossplane-runtime; with the runtime's meta.WasDeleted and the test of resource.IgnoreNotFound.
pub record Reconciler (R : Runtime) (W : Type 0) : Type 0 where
  pub kube : Kube R W
  pub update_status : ProviderConfig R → Act W (Unit {0})
  pub standard_reconcile : String → Reconciled W
  pub was_deleted : ProviderConfig R → Bool
  pub is_not_found : Error → Bool

module _ {R : Runtime} {W : Type 0} (r : Reconciler R W) where
  -- errors.Wrap(resource.IgnoreNotFound(err), errGetPC)
  unfoldable pub get_failure : Error → Option Error
  get_failure e = if r.is_not_found e then none else some (wrap err_get_pc e)

  -- After the status update.
  updated : Outcome → Result (Unit {0}) → Outcome × Option Error
  updated outcome (ok _) = (outcome, none)
  updated outcome (err e) = (requeue_soon, none)

  -- The ProviderConfig as it was read again: the credentials and the status.
  validated : Outcome → Result (ProviderConfig R) → Reconciled W
  unfolding get_failure updated
  validated outcome (err e) w = ((no_requeue, get_failure e), w)
  validated outcome (ok pc) w =
      let (token, w1) = extract_token R r.kube pc w in
      let (done, w2) = r.update_status (set_credential_condition R pc token) w1 in
      (updated outcome done, w2)

  -- After the standard reconciler.
  delegated : String → Outcome × Option Error → Reconciled W
  unfolding validated
  delegated name (outcome, some e) w = ((outcome, some e), w)
  delegated name (outcome, none) w =
      let (pc, w1) = r.kube.get_provider_config name w in validated outcome pc w1

  -- The ProviderConfig as it was read first.
  fetched : String → Result (ProviderConfig R) → Reconciled W
  unfolding get_failure delegated
  fetched name (err e) w = ((no_requeue, get_failure e), w)
  fetched name (ok pc) w =
      if r.was_deleted pc
      then r.standard_reconcile name w
      else (let (result, w1) = r.standard_reconcile name w in delegated name result w1)

  unfoldable pub reconcile : String → Reconciled W
  unfolding fetched
  reconcile name w = let (pc, w1) = r.kube.get_provider_config name w in fetched name pc w1
