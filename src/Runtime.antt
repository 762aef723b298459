-- ===== src/Runtime.antt =====
-- What the controllers use of crossplane-runtime and of the Kubernetes client: parameters of the
-- model, with the documented laws that some theorems rely on.
pub mod Laws
pub mod Scheme
pub mod Frame
use crossplane_provider_slac.Base.{◌≡◌, ◌≢◌, String, Bool, true, false, Option, none, some, List}
use crossplane_provider_slac.Errors.{Error, Result, ok, err, plain}
use crossplane_provider_slac.Act.{Act}

-- xpv1.TypeReady, xpv1.TypeSynced
pub data ConditionType : Type 0 where
  ready synced : ConditionType

-- corev1.ConditionTrue, corev1.ConditionFalse
pub data ConditionStatus : Type 0 where
  status_true status_false status_unknown : ConditionStatus

-- The fields of xpv1.Condition that the program sets.
pub record Condition : Type 0 where
  pub kind : ConditionType
  pub status : ConditionStatus
  pub reason : String
  pub message : String

-- Object metadata and condition lists are opaque; the program reads and writes them only so.
pub record Runtime : Type 1 where
  pub Meta : Type 0
  pub Conditions : Type 0
  pub get_external_name : Meta → String
  pub set_external_name : Meta → String → Meta
  pub set_condition : Conditions → Condition → Conditions
  pub get_condition : Conditions → ConditionType → Condition
  pub available : Condition

-- The annotation reads back as written; a condition set replaces the one of its type only; and
-- Available() is Ready and true.
pub record IsLawful (R : Runtime) : Type 0 where
  pub get-set_external_name :
      (m : R.Meta) (n : String) → R.get_external_name (R.set_external_name m n) ≡ n
  pub get-set_condition :
      (cs : R.Conditions) (c : Condition) → R.get_condition (R.set_condition cs c) c.kind ≡ c
  pub get-set_condition_other :
      (cs : R.Conditions) (c : Condition) (k : ConditionType)
      → k ≢ c.kind
      → R.get_condition (R.set_condition cs c) k ≡ R.get_condition cs k
  pub available_kind : R.available.kind ≡ ready
  pub available_status : R.available.status ≡ status_true

-- xpv1.SecretReference
pub record SecretReference : Type 0 where
  pub name : String
  pub namespace : String

-- xpv1.ResourceSpec, the part of the spec that all kinds share. A reference is the name that it holds.
pub record ResourceSpec : Type 0 where
  pub provider_config_reference : Option String
  pub write_connection_secret_to_reference : Option SecretReference
  pub management_policies : List String
  pub deletion_policy : String

-- A managed resource: metadata, status.conditions, spec, spec.forProvider and status.atProvider.
pub record Managed (R : Runtime) (P O : Type 0) : Type 0 where
  pub meta : R.Meta
  pub conditions : R.Conditions
  pub spec : ResourceSpec
  pub for_provider : P
  pub at_provider : O

-- The state of a handler: the resource, which Go code changes through its pointer, and the world.
pub record Session (C W : Type 0) : Type 0 where
  pub cr : C
  pub world : W

-- The argument of a handler: `none` is a managed resource of another kind.
pub record Request (C W : Type 0) : Type 0 where
  pub object : Option C
  pub world : W

-- cr, ok := mg.(*T); if !ok { return errors.New(message) }
unfoldable pub as_kind : {C W A : Type 0} → String → Act (Session C W) A → Act (Request C W) A
as_kind message body q = elim q.object [
  | none ↦ (err (plain message), q)
  | some cr ↦
      let (r, s) = body (record { cr = cr; world = q.world }) in
      (r, record { object = some s.cr; world = s.world })
]

-- A call of the Slack or Kubernetes client inside a handler.
abbrev pub call : {C W A : Type 0} → Act W A → Act (Session C W) A
call m s = let (r, w) = m s.world in (r, record s { world = w })

abbrev pub modify : {C W : Type 0} → (C → C) → Act (Session C W) (Unit {0})
modify f s = (ok tt, record s { cr = f s.cr })

-- Reads the resource.
abbrev pub get : {C W : Type 0} → Act (Session C W) C
get s = (ok s.cr, s)

-- managed.ExternalObservation
pub record ExternalObservation : Type 0 where
  pub resource_exists : Bool
  pub resource_up_to_date : Bool

abbrev pub absent : ExternalObservation
absent = record { resource_exists = false; resource_up_to_date = false }

module _ {R : Runtime} {P O : Type 0} where
  abbrev pub external_name : Managed R P O → String
  external_name cr = R.get_external_name cr.meta

  abbrev pub with_external_name : String → Managed R P O → Managed R P O
  with_external_name n cr = record cr { meta = R.set_external_name cr.meta n }

  -- cr.SetConditions(c)
  abbrev pub with_condition : Condition → Managed R P O → Managed R P O
  with_condition c cr = record cr { conditions = R.set_condition cr.conditions c }

  abbrev pub with_observation : O → Managed R P O → Managed R P O
  with_observation o cr = record cr { at_provider = o }

  abbrev pub condition : Managed R P O → ConditionType → Condition
  condition cr k = R.get_condition cr.conditions k
