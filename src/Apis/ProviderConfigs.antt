-- ===== src/Apis/ProviderConfigs.antt =====
-- apis/v1alpha1: the types of providerconfig_types.go, and the methods of
-- providerconfig_interfaces.go, by which the standard reconciler of crossplane-runtime reads and
-- writes ProviderConfigs and their usages.
use crossplane_provider_slac.Base.{ℕ, String, Option, List, [], ◌∷◌}
use crossplane_provider_slac.Base.Int.{ℤ}
use crossplane_provider_slac.Runtime.{Runtime, Condition, ConditionType}
use crossplane_provider_slac.Apis.Items.{get_items_of}

-- xpv1.SecretKeySelector
pub record SecretKeySelector : Type 0 where
  pub namespace : String
  pub name : String
  pub key : String

-- type ProviderCredentials struct
pub record ProviderCredentials : Type 0 where
  pub source : String
  pub secret_ref : Option SecretKeySelector

-- A poll interval is in nanoseconds.
pub record ProviderConfig (R : Runtime) : Type 0 where
  pub meta : R.Meta
  pub credentials : ProviderCredentials
  pub poll_interval : Option ℤ
  pub conditions : R.Conditions
  pub users : ℤ

-- xpv1.TypedReference
pub record TypedReference : Type 0 where
  pub api_version : String
  pub kind : String
  pub name : String
  pub uid : String

-- ProviderConfigUsage, with the fields of xpv1.ProviderConfigUsage. A reference is the name that it
-- holds.
pub record ProviderConfigUsage (R : Runtime) : Type 0 where
  pub meta : R.Meta
  pub provider_config_reference : String
  pub resource_reference : TypedReference

pub record ProviderConfigUsageList (R : Runtime) : Type 0 where
  pub items : List (ProviderConfigUsage R)

module _ {R : Runtime} where
  unfoldable pub set_conditions : List Condition → ProviderConfig R → ProviderConfig R
  set_conditions [] pc = pc
  set_conditions (c ∷ cs) pc =
      set_conditions cs (record pc { conditions = R.set_condition pc.conditions c })

  unfoldable pub get_condition : ProviderConfig R → ConditionType → Condition
  get_condition pc k = R.get_condition pc.conditions k

  unfoldable pub set_users : ℤ → ProviderConfig R → ProviderConfig R
  set_users i pc = record pc { users = i }

  unfoldable pub get_users : ProviderConfig R → ℤ
  get_users pc = pc.users

  unfoldable pub get_provider_config_reference : ProviderConfigUsage R → String
  get_provider_config_reference u = u.provider_config_reference

  unfoldable pub set_provider_config_reference :
      String → ProviderConfigUsage R → ProviderConfigUsage R
  set_provider_config_reference ref u = record u { provider_config_reference = ref }

  unfoldable pub get_resource_reference : ProviderConfigUsage R → TypedReference
  get_resource_reference u = u.resource_reference

  unfoldable pub set_resource_reference :
      TypedReference → ProviderConfigUsage R → ProviderConfigUsage R
  set_resource_reference ref u = record u { resource_reference = ref }

  -- The pointers are the positions of the items.
  unfoldable pub get_items : ProviderConfigUsageList R → List ℕ
  unfolding get_items_of
  get_items l = get_items_of l.items
