-- ===== src/UserGroup/Frame.antt =====
-- What the handlers of the controller leave of a resource.
use crossplane_provider_slac.Base.{arith}
use crossplane_provider_slac.Runtime.{Runtime}
use crossplane_provider_slac.Runtime.Frame.{desired, target, Keeps}
use crossplane_provider_slac.Slack.Api.{ClientApi}
use crossplane_provider_slac.UserGroup.{
  create, delete, observe, observe_group, observe_named, observed, refused, update,
}

module _ (R : Runtime) {W : Type 0} (api : ClientApi W) where
  pub observe-target : Keeps target (observe R api)
  unfolding observe observe_named observe_group observed
  observe-target s = ground arith

  pub create-desired : Keeps desired (create R api)
  unfolding create refused
  create-desired s = ground arith

  pub update-target : Keeps target (update R api)
  unfolding update refused
  update-target s = ground arith

  pub delete-target : Keeps target (delete R api)
  unfolding delete
  delete-target s = ground arith
