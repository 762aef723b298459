-- ===== src/Slack/Client/UserGroups.antt =====
-- internal/clients/slack/usergroups.go
pub mod Listed
pub mod Forms
use crossplane_provider_slac.Base.{String, some, List, []}
use crossplane_provider_slac.Base.Text.{join}
use crossplane_provider_slac.Errors.{Error, Result, ok, err}
use crossplane_provider_slac.Act.{Act, ◌>>=◌}
use crossplane_provider_slac.Slack.Types.{UserGroup, UserGroupParams}
use crossplane_provider_slac.Slack.Json
use crossplane_provider_slac.Slack.Json.{Json, field, members_of, list_of, string_of}
use crossplane_provider_slac.Slack.Json.Decode.{decode_user_group}
use crossplane_provider_slac.Slack.Form.{Form, set, set_given}
use crossplane_provider_slac.Slack.Client.{Library, Client, call_method}
use crossplane_provider_slac.Slack.Client.Conversations.{unmarshal, call_only}

-- The name and the handle, and the description unless it is empty.
unfoldable pub set_params : UserGroupParams → Form → Form
unfolding set_given
set_params p form =
    set_given "description" p.description (set "handle" p.handle (set "name" p.name form))

unfoldable pub group_form : String → Form
group_form id = set "usergroup" id []

unfoldable pub update_form : String → UserGroupParams → Form
unfolding set_params group_form
update_form id p = set_params p (group_form id)

unfoldable pub members_form : String → List String → Form
unfolding join group_form
members_form id users = set "users" (join "," users) (group_form id)

unfoldable pub group_of : Json → Result UserGroup
unfolding decode_user_group
group_of j = Json.bind (members_of j) λ ms. decode_user_group (field "usergroup" ms)

unfoldable pub groups_of : Json → Result (List UserGroup)
unfolding decode_user_group
groups_of j = Json.bind (members_of j) λ ms. list_of decode_user_group (field "usergroups" ms)

unfoldable pub users_of : Json → Result (List String)
users_of j = Json.bind (members_of j) λ ms. list_of string_of (field "users" ms)

module _ {W Request : Type 0} (lib : Library W Request) (c : Client W Request) where
  unfoldable pub create_user_group : UserGroupParams → Act W UserGroup
  unfolding set_params group_of unmarshal
  create_user_group p = do
    raw ← call_method lib c "usergroups.create" (some (set_params p []))
    unmarshal lib c group_of raw

  unfoldable pub list_user_groups : Act W (List UserGroup)
  unfolding groups_of unmarshal
  list_user_groups = do
    raw ← call_method lib c "usergroups.list" (some (set "include_disabled" "true" []))
    unmarshal lib c groups_of raw

  unfoldable pub update_user_group : String → UserGroupParams → Act W (Unit {0})
  unfolding update_form call_only
  update_user_group id p = call_only lib c "usergroups.update" (update_form id p)

  unfoldable pub disable_user_group : String → Act W (Unit {0})
  unfolding group_form call_only
  disable_user_group id = call_only lib c "usergroups.disable" (group_form id)

  unfoldable pub list_user_group_members : String → Act W (List String)
  unfolding group_form users_of unmarshal
  list_user_group_members id = do
    raw ← call_method lib c "usergroups.users.list" (some (group_form id))
    unmarshal lib c users_of raw

  unfoldable pub update_user_group_members : String → List String → Act W (Unit {0})
  unfolding members_form call_only
  update_user_group_members id users =
      call_only lib c "usergroups.users.update" (members_form id users)
