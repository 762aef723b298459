-- ===== src/Bookmark/Frame.antt =====
-- What the handlers of the controller leave of a resource.
use crossplane_provider_slac.Base.{String, arith}
use crossplane_provider_slac.Errors.{Error}
use crossplane_provider_slac.Runtime.{Runtime}
use crossplane_provider_slac.Runtime.Frame.{desired, target, Keeps}
use crossplane_provider_slac.ProviderConfig.{Kube}
use crossplane_provider_slac.Slack.Api.{ClientApi}
use crossplane_provider_slac.Bookmark.{
  channel_of, create, delete, delete_error, observe, observe_channel, observe_error, observed,
  refused, set_channel_unavailable_condition, update,
}

module _ (R : Runtime) {W : Type 0} (api : ClientApi W) (kube : Kube R W) where
  refused-target : (m : String) (e : Error) → Keeps target (refused R api kube m e)
  unfolding refused set_channel_unavailable_condition
  refused-target m e s = ground arith

  pub observe-target : Keeps target (observe R api kube)
  unfolding observe observe_channel observed observe_error set_channel_unavailable_condition
      channel_of
  observe-target s = ground arith

  pub create-desired : Keeps desired (create R api kube)
  unfolding create channel_of
  create-desired s = grind (arith, refused-target)

  pub update-target : Keeps target (update R api kube)
  unfolding update channel_of
  update-target s = grind (arith, refused-target)

  pub delete-target : Keeps target (delete R api kube)
  unfolding delete delete_error channel_of
  delete-target s = ground arith
