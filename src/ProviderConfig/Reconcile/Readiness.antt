-- ===== src/ProviderConfig/Reconcile/Readiness.antt =====
-- What Reconcile of the ProviderConfig controller writes, and which errors it returns.
use crossplane_provider_slac.Base.{
  ◌≡◌, refl, ◌↔◌, ◌⊎◌, inl, inr, String, false, Option, none, some, Bool-cases,
}
use crossplane_provider_slac.Errors.{Error, Result, ok, err, wrap, Result-cases}
use crossplane_provider_slac.Runtime.{Runtime, IsLawful, ready, status_true}
use crossplane_provider_slac.ProviderConfig.{
  ProviderConfig, extract_token, set_credential_condition, validate_token,
}
use crossplane_provider_slac.ProviderConfig.Laws.{
  set_credential_condition-ready, set_credential_condition-keeps,
}
use crossplane_provider_slac.ProviderConfig.Reconcile.{
  Outcome, requeue_soon, Reconciler, err_get_pc, get_failure, updated, validated, delegated,
  fetched, reconcile,
}

module _ {R : Runtime} {W : Type 0} (r : Reconciler R W) where
  -- A status update that succeeds keeps the conditions: they are read again under the name that the
  -- resource, of the same metadata, was read under.
  abbrev pub KeepsStatus : Type 0
  KeepsStatus =
      (name : String) (v w : W) (pc next : ProviderConfig R)
      → (r.kube.get_provider_config name v).0 ≡ ok pc
      → next.meta ≡ pc.meta
      → (r.update_status next w).0 ≡ ok tt
      → (read : ProviderConfig R) × ((r.kube.get_provider_config name (r.update_status next w).1).0
          ≡ ok read)
        × (read.conditions ≡ next.conditions)

  -- Reconcile reads a ProviderConfig that is not deleted, the standard reconciler succeeds, and the
  -- ProviderConfig is read again.
  pub record Passes (name : String) (w : W) (outcome : Outcome) (again : ProviderConfig R)
      : Type 0 where
    pub first : ProviderConfig R
    pub reads : (r.kube.get_provider_config name w).0 ≡ ok first
    pub lives : r.was_deleted first ≡ false
    pub delegates :
        (r.standard_reconcile name (r.kube.get_provider_config name w).1).0 ≡ (outcome, none)
    pub reads_again :
        (r.kube.get_provider_config name
          (r.standard_reconcile name (r.kube.get_provider_config name w).1).1).0
        ≡ ok again

  -- The state in which the credentials are read.
  abbrev pub before_credentials : String → W → W
  before_credentials name w =
      (r.kube.get_provider_config name
        (r.standard_reconcile name (r.kube.get_provider_config name w).1).1).1

  abbrev pub with_credentials : String → W → ProviderConfig R → ProviderConfig R
  with_credentials name w pc =
      set_credential_condition R pc (extract_token R r.kube pc (before_credentials name w)).0

  -- The status update, with its next state.
  abbrev pub status_update : String → W → ProviderConfig R → Result (Unit {0}) × W
  status_update name w pc =
      r.update_status (with_credentials name w pc)
        (extract_token R r.kube pc (before_credentials name w)).1

  reconcile-Passes :
      (name : String) (w : W) (outcome : Outcome) (pc : ProviderConfig R)
      → Passes name w outcome pc
      → reconcile r name w
        ≡ (updated r outcome (status_update name w pc).0, (status_update name w pc).1)
  unfolding reconcile fetched delegated validated
  reconcile-Passes name w outcome pc p = rw (p.reads, p.lives, p.delegates, p.reads_again) refl

  -- If Reconcile passes a live ProviderConfig to the standard reconciler with success, reads it again
  -- and updates its status, and the update keeps the conditions, it returns what the standard
  -- reconciler returned; and the ProviderConfig that is read afterwards is Ready with status true
  -- exactly if a token could be extracted and the token is valid.
  pub reconcile-ready :
      IsLawful R
      → KeepsStatus
      → (name : String) (w : W) (outcome : Outcome) (pc : ProviderConfig R)
      → Passes name w outcome pc
      → (status_update name w pc).0 ≡ ok tt
      → ((reconcile r name w).0 ≡ (outcome, none))
        × ((read : ProviderConfig R) × ((r.kube.get_provider_config name (reconcile r name w).1).0
              ≡ ok read)
            × (((R.get_condition read.conditions ready).status ≡ status_true) ↔ (
                (token : String) × ((extract_token R r.kube pc (before_credentials name w)).0
                  ≡ ok token)
                × (validate_token token ≡ none))))
  unfolding updated
  reconcile-ready L keeps name w outcome pc p h =
      rw (reconcile-Passes name w outcome pc p, h)
        (let (read, e, c) =
            keeps name _ _ pc _ p.reads_again (set_credential_condition-keeps R L pc _).0 h in
          (refl, (read, e, rw c (set_credential_condition-ready R L pc _))))

  -- If the status update fails there, Reconcile returns no error, and asks to be called again after
  -- thirty seconds.
  reconcile_update_failed :
      (name : String) (w : W) (outcome : Outcome) (pc : ProviderConfig R) (e : Error)
      → Passes name w outcome pc
      → (status_update name w pc).0 ≡ err e
      → (reconcile r name w).0 ≡ (requeue_soon, none)
  unfolding updated
  reconcile_update_failed name w outcome pc e p h =
      rw (reconcile-Passes name w outcome pc p, h) refl

  -- A read of the ProviderConfig in some state that fails, but not as not found, and the error that
  -- is returned for it.
  abbrev pub IsReadError : String → Error → Type 0
  IsReadError name e =
      (x : Error) × (v : W) × ((r.kube.get_provider_config name v).0 ≡ err x)
      × (r.is_not_found x ≡ false)
      × (e ≡ wrap err_get_pc x)

  get_failure-eq-some :
      (name : String) (v : W) (x e : Error)
      → (r.kube.get_provider_config name v).0 ≡ err x
      → get_failure r x ≡ some e
      → IsReadError name e
  unfolding get_failure
  get_failure-eq-some name v x e h = elim (Bool-cases (r.is_not_found x)) [
    | inl n ↦ rw (get_failure, n) (λ f. cc)
    | inr n ↦ rw (get_failure, n) (λ f. (x, v, h, n, cc))
  ]

  -- The standard reconciler fails with the error in some state.
  abbrev pub IsStandardError : String → Error → Type 0
  IsStandardError name e = (v : W) × ((r.standard_reconcile name v).0.1 ≡ some e)

  updated-eq-none : (outcome : Outcome) (u : Result (Unit {0})) → (updated r outcome u).1 ≡ none
  unfolding updated
  updated-eq-none outcome (ok _) = refl
  updated-eq-none outcome (err e) = refl

  delegated-error :
      (name : String) (result : Outcome × Option Error) (v w : W) (e : Error)
      → (r.standard_reconcile name v).0 ≡ result
      → (delegated r name result w).0.1 ≡ some e
      → IsReadError name e ⊎ IsStandardError name e
  unfolding delegated validated
  delegated-error name (outcome, some x) v w e p = λ h. inr (v, rw p h)
  delegated-error name (outcome, none) v w e p =
      elim (Result-cases (r.kube.get_provider_config name w).0) [
        | inl (pc, q) ↦ rw (q, updated-eq-none outcome) (λ h. cc)
        | inr (x, q) ↦ rw q (λ h. inl (get_failure-eq-some name w x e q h))
      ]

  -- An error that Reconcile returns is that of the standard reconciler, or comes from a read of the
  -- ProviderConfig that failed but not as not found: a missing ProviderConfig, credentials that are
  -- missing or invalid, and a status update that fails are no errors.
  pub reconcile-error :
      (name : String) (w : W) (e : Error)
      → (reconcile r name w).0.1 ≡ some e
      → IsReadError name e ⊎ IsStandardError name e
  unfolding reconcile fetched
  reconcile-error name w e = elim (Result-cases (r.kube.get_provider_config name w).0) [
    | inr (x, q) ↦ rw q (λ h. inl (get_failure-eq-some name w x e q h))
    | inl (pc, q) ↦ elim (Bool-cases (r.was_deleted pc)) [
      | inl d ↦ rw (q, d) (λ h. inr (_, h))
      | inr d ↦ rw (q, d) (λ h. delegated-error name _ _ _ e refl h)
    ]
  ]
