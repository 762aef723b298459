-- ===== src/ConversationMember/Frame.antt =====
-- What the handlers of the controller leave of a resource.
use crossplane_provider_slac.Base.{arith}
use crossplane_provider_slac.Runtime.{Runtime}
use crossplane_provider_slac.Runtime.Frame.{desired, target, Keeps}
use crossplane_provider_slac.ProviderConfig.{Kube}
use crossplane_provider_slac.Slack.Api.{ClientApi}
use crossplane_provider_slac.ConversationMember.{
  create, delete, delete_parsed, invited, kicked, observe, observe_parsed, observed, update,
}

module _ (R : Runtime) {W : Type 0} (api : ClientApi W) (kube : Kube R W) where
  pub observe-target : Keeps target (observe R api kube)
  unfolding observe observe_parsed observed
  observe-target s = ground arith

  pub create-desired : Keeps desired (create R api kube)
  unfolding create invited
  create-desired s = ground arith

  pub update-target : Keeps target (update R api kube)
  unfolding update
  update-target s = ground arith

  pub delete-target : Keeps target (delete R api kube)
  unfolding delete delete_parsed kicked
  delete-target s = ground arith
