-- ===== src/UserGroupMembers/Frame.antt =====
-- What the handlers of the controller leave of a resource.
use crossplane_provider_slac.Base.{String, arith}
use crossplane_provider_slac.Runtime.{Runtime}
use crossplane_provider_slac.Runtime.Frame.{desired, target, Keeps}
use crossplane_provider_slac.ProviderConfig.{Kube}
use crossplane_provider_slac.Slack.Api.{ClientApi}
use crossplane_provider_slac.UserGroupMembers.{
  create, delete, observe, observe_named, replace_members, report_unresolvable, resolve, update,
}

module _ (R : Runtime) {W : Type 0} (api : ClientApi W) where
  replace_members-target : (g : String) → Keeps target (replace_members R api g)
  unfolding replace_members resolve report_unresolvable
  replace_members-target g s = ground arith

  pub observe-target : Keeps target (observe R api)
  unfolding observe observe_named resolve report_unresolvable
  observe-target s = ground arith

  pub create-desired : (kube : Kube R W) → Keeps desired (create R api kube)
  unfolding create
  create-desired kube s = grind (arith, replace_members-target)

  pub update-target : Keeps target (update R api)
  unfolding update
  update-target s = grind (arith, replace_members-target)

  pub delete-target : Keeps target (delete R api)
  unfolding delete
  delete-target s = ground arith
