-- ===== src/Pin/Frame.antt =====
-- What the handlers of the controller leave of a resource.
use crossplane_provider_slac.Base.{arith}
use crossplane_provider_slac.Errors.{Error}
use crossplane_provider_slac.Runtime.{Runtime}
use crossplane_provider_slac.Runtime.Frame.{desired, target, Keeps}
use crossplane_provider_slac.ProviderConfig.{Kube}
use crossplane_provider_slac.Slack.Api.{ClientApi}
use crossplane_provider_slac.Pin.{
  create, create_error, delete, delete_error, delete_parsed, observe, observe_error, observe_parsed,
  observed, set_channel_unavailable_condition, set_message_not_found_condition, update,
}

module _ (R : Runtime) {W : Type 0} (api : ClientApi W) (kube : Kube R W) where
  create_error-target : (e : Error) → Keeps target (create_error R api kube e)
  unfolding create_error set_channel_unavailable_condition set_message_not_found_condition
  create_error-target e s = ground arith

  pub observe-target : Keeps target (observe R api kube)
  unfolding observe observe_parsed observed observe_error set_channel_unavailable_condition
  observe-target s = ground arith

  pub create-desired : Keeps desired (create R api kube)
  unfolding create
  create-desired s = grind (arith, create_error-target)

  pub update-target : Keeps target (update R api kube)
  unfolding update
  update-target s = ground arith

  pub delete-target : Keeps target (delete R api kube)
  unfolding delete delete_parsed delete_error
  delete-target s = ground arith
