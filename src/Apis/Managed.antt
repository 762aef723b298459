-- ===== src/Apis/Managed.antt =====
-- apis/<kind>/v1alpha1/managed.go: the methods by which crossplane-runtime and the connectors read and
-- write a managed resource. Those of the six kinds differ in the type of the receiver.
use crossplane_provider_slac.Base.{String, Option, List, [], ◌∷◌}
use crossplane_provider_slac.Runtime.{
  Runtime, Managed, SecretReference, Condition, ConditionType, condition, with_condition,
}

-- resource.Managed, on the type C.
pub record ManagedObject (R : Runtime) (C : Type 0) : Type 0 where
  pub get_condition : C → ConditionType → Condition
  pub set_conditions : List Condition → C → C
  pub get_provider_config_reference : C → Option String
  pub set_provider_config_reference : Option String → C → C
  pub get_write_connection_secret_to_reference : C → Option SecretReference
  pub set_write_connection_secret_to_reference : Option SecretReference → C → C
  pub get_management_policies : C → List String
  pub set_management_policies : List String → C → C
  pub get_deletion_policy : C → String
  pub set_deletion_policy : String → C → C

module _ {R : Runtime} {P O : Type 0} where
  -- Status.SetConditions sets one condition after the other.
  abbrev pub set_conditions : List Condition → Managed R P O → Managed R P O
  set_conditions [] cr = cr
  set_conditions (c ∷ cs) cr = set_conditions cs (with_condition c cr)

  unfoldable pub get_provider_config_reference : Managed R P O → Option String
  get_provider_config_reference cr = cr.spec.provider_config_reference

  abbrev pub managed_object : ManagedObject R (Managed R P O)
  unfolding get_provider_config_reference
  managed_object = record {
    get_condition = condition;
    set_conditions = set_conditions;
    get_provider_config_reference = get_provider_config_reference;
    set_provider_config_reference =
        λ ref cr. record cr { spec = record cr.spec { provider_config_reference = ref } };
    get_write_connection_secret_to_reference = λ cr. cr.spec.write_connection_secret_to_reference;
    set_write_connection_secret_to_reference = λ ref cr. record cr {
      spec = record cr.spec { write_connection_secret_to_reference = ref };
    };
    get_management_policies = λ cr. cr.spec.management_policies;
    set_management_policies =
        λ p cr. record cr { spec = record cr.spec { management_policies = p } };
    get_deletion_policy = λ cr. cr.spec.deletion_policy;
    set_deletion_policy = λ p cr. record cr { spec = record cr.spec { deletion_policy = p } };
  }
