-- ===== src/ProviderConfig.antt =====
-- internal/controller/providerconfig/providerconfig.go and apis/v1alpha1/providerconfig_types.go:
-- the bot token and the Ready condition of a ProviderConfig.
pub mod Laws
pub mod Reconcile
pub use crossplane_provider_slac.Apis.ProviderConfigs.{
  SecretKeySelector, ProviderCredentials, ProviderConfig,
}
use crossplane_provider_slac.Apis.ProviderConfigs.{set_conditions}
use text.Mathlib.Text.{starts_with}
use crossplane_provider_slac.Base.{
  String, ◌<>◌, Bool, true, false, not, Option, none, some, [], ◌∷◌, ◌==◌, if◌then◌else◌,
}
use crossplane_provider_slac.Base.Text.{value_or_empty}
use crossplane_provider_slac.Errors.{Error, Result, ok, err, plain, wrap, error_text}
use crossplane_provider_slac.Act.{Act, pure, fail, ◌>>=◌, ◌>>◌, attempt, or_wrap}
use crossplane_provider_slac.Runtime.{Runtime, Condition, ready, status_true, status_false}

-- The Data of a Kubernetes Secret.
abbrev pub Secret : Type 0
Secret = String → Option String

-- The reads of the Kubernetes client: objects by name, a secret by namespace and name. Of a
-- referenced resource only the metadata is used.
pub record Kube (R : Runtime) (W : Type 0) : Type 0 where
  pub get_provider_config : String → Act W (ProviderConfig R)
  pub get_secret : String → String → Act W Secret
  pub get_conversation : String → Act W R.Meta
  pub get_user_group : String → Act W R.Meta

abbrev pub credentials_source_secret : String
credentials_source_secret = "Secret"

abbrev pub err_get_secret : String
err_get_secret = "cannot get credentials secret"

abbrev pub err_secret_key_empty : String
err_secret_key_empty = "credentials secret key is empty"

abbrev pub err_invalid_token : String
err_invalid_token = "bot token must start with xoxb- prefix"

abbrev pub err_no_secret_ref : String
err_no_secret_ref = "spec.credentials.secretRef is required when source is Secret"

abbrev pub token_prefix : String
token_prefix = "xoxb-"

-- A nil error is `none`.
unfoldable pub validate_token : String → Option Error
validate_token token =
    if token == ""
    then some (plain err_secret_key_empty)
    else if not (starts_with token token_prefix)
    then some (plain err_invalid_token)
    else none

module _ (R : Runtime) {W : Type 0} (kube : Kube R W) where
  extract_by_ref : Option SecretKeySelector → Act W String
  extract_by_ref none = fail (plain err_no_secret_ref)
  extract_by_ref (some ref) = do
    secret ← or_wrap (kube.get_secret ref.namespace ref.name) (wrap err_get_secret)
    pure (value_or_empty (secret ref.key))

  unfoldable pub extract_token : ProviderConfig R → Act W String
  unfolding extract_by_ref
  extract_token pc =
      if not (pc.credentials.source == credentials_source_secret)
      then fail (plain err_no_secret_ref)
      else extract_by_ref pc.credentials.secret_ref

module _ (R : Runtime) where
  set_ready : ProviderConfig R → Condition → ProviderConfig R
  unfolding set_conditions
  set_ready pc c = set_conditions (c ∷ []) pc

  abbrev pub secret_not_found : Error → Condition
  secret_not_found e = record {
    kind = ready;
    status = status_false;
    reason = "SecretNotFound";
    message = error_text e;
  }

  abbrev pub invalid_credentials : Error → Condition
  invalid_credentials e = record {
    kind = ready;
    status = status_false;
    reason = "InvalidCredentials";
    message = "invalid bot token: " <> error_text e;
  }

  abbrev pub credentials_ready : Condition
  credentials_ready = record { kind = ready; status = status_true; reason = ""; message = "" }

  unfoldable pub set_credential_condition : ProviderConfig R → Result String → ProviderConfig R
  unfolding set_ready
  set_credential_condition pc (err e) = set_ready pc (secret_not_found e)
  set_credential_condition pc (ok token) = elim (validate_token token) [
    | some e ↦ set_ready pc (invalid_credentials e)
    | none ↦ set_ready pc credentials_ready
  ]
