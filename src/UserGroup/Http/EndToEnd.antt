-- ===== src/UserGroup/Http/EndToEnd.antt =====
-- The user group controller over HTTP: what Observe reports after Create and Update.
use crossplane_provider_slac.Base.{ℕ, ◌≡◌, ◌≢◌, String, true, not, ◌||◌, ◌==◌, List}
use crossplane_provider_slac.Base.Int.{ℤ}
use crossplane_provider_slac.Base.Text.{value_or_empty}
use crossplane_provider_slac.Errors.{ok}
use crossplane_provider_slac.Runtime.{Runtime, IsLawful, external_name}
use crossplane_provider_slac.Slack.Types.{UserGroup}
use crossplane_provider_slac.Slack.Form.{Form}
use crossplane_provider_slac.Slack.Client.{Library, Client}
use crossplane_provider_slac.Slack.Client.Delivery.{Server, Delivery}
use crossplane_provider_slac.Slack.Client.Assembly.{slack_client}
use crossplane_provider_slac.UserGroup.{State, observe, create, update}
use crossplane_provider_slac.UserGroup.Remote.{find_group-First}
use crossplane_provider_slac.UserGroup.Lifecycle.{create-observe_group, update-observe_group}
use crossplane_provider_slac.UserGroup.Http.{KeepsGroups, At}
use crossplane_provider_slac.UserGroup.Http.Refinement.{slack_client-IsGroupStore}

module _ (R : Runtime) (L : IsLawful R) {W Request : Type 0} (lib : Library W Request)
    (c : Client W Request) (s : Server W)
    (delivers : (method : String) (form : Form) (w : W) → Delivery lib c s method form w)
    (bound : ℕ) (groups : W → List (UserGroup × ℤ)) (keeps : KeepsGroups s groups) where
  -- With the HTTP client, over a network that delivers Slack's answers, where Slack lists the groups,
  -- creates them with the fields of the form, a missing description being empty, and updates the
  -- fields that the form has: after an Update that succeeds, of an enabled group whose ID is the
  -- external name, the next Observe reports an existing resource. It is up to date exactly if the
  -- desired description is not empty or was what the group had already: a description that is to be
  -- cleared never is, as the client does not send an empty one.
  pub update-observe_group_http :
      (t : State R W) (g : UserGroup)
      → external_name t.cr ≢ ""
      → At (external_name t.cr) (groups t.world) g
      → g.is_enabled ≡ true
      → (update R (slack_client lib bound c) t).0 ≡ ok tt
      → (observe R (slack_client lib bound c) (update R (slack_client lib bound c) t).1).0
        ≡ ok (record {
          resource_exists = true;
          resource_up_to_date =
              not (value_or_empty t.cr.for_provider.description == "")
              || (value_or_empty t.cr.for_provider.description == g.description);
        })
  update-observe_group_http t g named at =
      update-observe_group R L (slack_client lib bound c) _
        (slack_client-IsGroupStore lib c s delivers groups keeps bound) t g named
        (find_group-First _ _ _ at)

  -- With the HTTP client, over a network that delivers Slack's answers, where Slack lists the groups
  -- and creates them enabled and with the fields of the form, a missing description being empty: after
  -- a Create that succeeds, the resource has an external name, and the next Observe reports an
  -- existing resource that is up to date.
  pub create-observe_group_http :
      (t : State R W)
      → (create R (slack_client lib bound c) t).0 ≡ ok tt
      → (external_name (create R (slack_client lib bound c) t).1.cr ≢ "")
        × ((observe R (slack_client lib bound c) (create R (slack_client lib bound c) t).1).0
            ≡ ok (record { resource_exists = true; resource_up_to_date = true }))
  create-observe_group_http =
      create-observe_group R L (slack_client lib bound c) _
        (slack_client-IsGroupStore lib c s delivers groups keeps bound)
