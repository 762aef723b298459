-- ===== src/Runtime/Frame.antt =====
-- What a handler leaves of a resource, whatever Slack and Kubernetes do.
use crossplane_provider_slac.Base.{◌≡◌, ◌∙◌, inl, inr}
use crossplane_provider_slac.Errors.{Result, Result-cases}
use crossplane_provider_slac.Act.{Act, ◌>>=◌, attempt}
use crossplane_provider_slac.Runtime.{Runtime, ResourceSpec, Managed, Session, call}

module _ {R : Runtime} {P O : Type 0} where
  -- The desired state: the spec.
  abbrev pub desired : Managed R P O → ResourceSpec × P
  desired cr = (cr.spec, cr.for_provider)

  -- The desired state and the metadata, which have the external name.
  abbrev pub target : Managed R P O → (ResourceSpec × P) × R.Meta
  target cr = (desired cr, cr.meta)

module _ {C W X : Type 0} (view : C → X) where
  -- The handler leaves a view of the resource.
  abbrev pub Keeps : {A : Type 0} → Act (Session C W) A → Type 0
  Keeps m = (s : Session C W) → view (m s).1.cr ≡ view s.cr

  pub bind-Keeps :
      {A B : Type 0} (m : Act (Session C W) A) (f : A → Act (Session C W) B)
      → Keeps m
      → ((a : A) → Keeps (f a))
      → Keeps (m >>= f)
  bind-Keeps m f h k s = elim (Result-cases (m s).0) [
    | inl (a, e) ↦ rw e (k a (m s).1 ∙ h s)
    | inr (_, e) ↦ rw e (h s)
  ]

  -- A call, and what is done with its result.
  pub attempt-Keeps :
      {A B : Type 0} (m : Act W A) (f : Result A → Act (Session C W) B)
      → ((r : Result A) → Keeps (f r))
      → Keeps (attempt (call m) >>= f)
  attempt-Keeps m f k s = k (m s.world).0 (record s { world = (m s.world).1 })
