-- ===== src/UserGroup.antt =====
-- internal/controller/usergroup/usergroup.go and apis/usergroup/v1alpha1/types.go.
pub mod Frame
pub mod Service
pub mod Lifecycle
pub mod Http
pub mod Remote
use crossplane_provider_slac.Base.{
  String, ◌<>◌, code, Bool, true, false, ◌&&◌, ◌||◌, not, Option, none, some, List, [], ◌∷◌, ◌==◌,
  if◌then◌else◌,
}
use crossplane_provider_slac.Base.Int.{ℤ, pos}
use crossplane_provider_slac.Base.Text.{value_or_empty, cut}
use crossplane_provider_slac.Errors.{Error, Result, ok, err, wrap, plain, has_code, as_slack}
use crossplane_provider_slac.Act.{Act, pure, fail, ◌>>=◌, ◌>>◌, attempt, or_wrap}
use crossplane_provider_slac.Runtime.{
  Runtime, Condition, synced, status_false, Managed, Session, Request, as_kind, call, get, modify,
  ExternalObservation, absent, external_name, with_external_name, with_condition, with_observation,
}
use crossplane_provider_slac.ProviderConfig.{Kube}
use crossplane_provider_slac.Connector.{Connector, connect, resolve_id}
use crossplane_provider_slac.Slack.Api.{ClientApi}
use crossplane_provider_slac.Slack.Types.{UserGroup, UserGroupParams}

pub record UserGroupParameters : Type 0 where
  pub name : String
  pub handle : String
  pub description : Option String

pub record UserGroupObservation : Type 0 where
  pub id : String
  pub is_enabled : Bool
  pub created_by : String
  pub date_create : ℤ

abbrev pub err_not_user_group : String
err_not_user_group = "managed resource is not a UserGroup"

abbrev pub err_observe : String
err_observe = "cannot list user groups"

abbrev pub err_create : String
err_create = "cannot create user group"

abbrev pub err_update : String
err_update = "cannot update user group"

abbrev pub err_delete : String
err_delete = "cannot disable user group"

abbrev pub name_conflict : Condition
name_conflict = record {
  kind = synced;
  status = status_false;
  reason = "NameConflict";
  message = "user group name already exists";
}

unfoldable pub is_up_to_date : UserGroupParameters → UserGroup → Bool
is_up_to_date desired observed =
    if not (desired.name == observed.name)
    then false
    else if not (desired.handle == observed.handle)
    then false
    else if not (value_or_empty desired.description == observed.description)
    then false
    else true

-- The first group with the ID.
unfoldable pub find_group : String → List UserGroup → Option UserGroup
find_group id [] = none
find_group id (g ∷ gs) = if g.id == id then some g else find_group id gs

abbrev pub params_of : UserGroupParameters → UserGroupParams
params_of p = record {
  name = p.name;
  handle = p.handle;
  description = value_or_empty p.description;
}

abbrev pub Resource : Runtime → Type 0
Resource R = Managed R UserGroupParameters UserGroupObservation

abbrev pub State : Runtime → Type 0 → Type 0
State R W = Session (Resource R) W

module _ (R : Runtime) {W : Type 0} (api : ClientApi W) where
  observed : UserGroup → Act (State R W) ExternalObservation
  observed g = if not g.is_enabled then pure absent else do
    modify (
        with_observation (record {
          id = g.id;
          is_enabled = g.is_enabled;
          created_by = g.created_by;
          date_create = g.date_create;
        }))
    cr ← get
    modify (with_condition R.available)
    pure (record { resource_exists = true; resource_up_to_date = is_up_to_date cr.for_provider g })

  observe_group : Option UserGroup → Act (State R W) ExternalObservation
  unfolding observed
  observe_group none = pure absent
  observe_group (some g) = observed g

  observe_named : String → Act (State R W) ExternalObservation
  unfolding observe_group find_group
  observe_named name = do
    groups ← or_wrap (call api.list_user_groups) (wrap err_observe)
    observe_group (find_group name groups)

  unfoldable pub observe : Act (State R W) ExternalObservation
  unfolding observe_named
  observe = do
    cr ← get
    if external_name cr == "" then pure absent else observe_named (external_name cr)

  -- The condition on a taken name, and the error.
  refused : String → Error → Act (State R W) (Unit {0})
  refused message e =
      if has_code "name_already_exists" e
      then (do modify (with_condition name_conflict); fail (wrap message e))
      else fail (wrap message e)

  unfoldable pub create : Act (State R W) (Unit {0})
  unfolding refused
  create = do
    cr ← get
    r ← attempt (call (api.create_user_group (params_of cr.for_provider)))
    elim r [ ok g ↦ modify (with_external_name g.id) | err e ↦ refused err_create e ]

  unfoldable pub update : Act (State R W) (Unit {0})
  unfolding refused
  update = do
    cr ← get
    r ← attempt (call (api.update_user_group (external_name cr) (params_of cr.for_provider)))
    elim r [ ok _ ↦ pure tt | err e ↦ refused err_update e ]

  unfoldable pub delete : Act (State R W) (Unit {0})
  delete = do
    cr ← get
    if external_name cr == ""
        then pure tt
        else or_wrap (call (api.disable_user_group (external_name cr))) (wrap err_delete)

  unfoldable pub observe_managed : Act (Request (Resource R) W) ExternalObservation
  unfolding observe as_kind
  observe_managed = as_kind err_not_user_group observe

  unfoldable pub create_managed : Act (Request (Resource R) W) (Unit {0})
  unfolding create as_kind
  create_managed = as_kind err_not_user_group create

  unfoldable pub update_managed : Act (Request (Resource R) W) (Unit {0})
  unfolding update as_kind
  update_managed = as_kind err_not_user_group update

  unfoldable pub delete_managed : Act (Request (Resource R) W) (Unit {0})
  unfolding delete as_kind
  delete_managed = as_kind err_not_user_group delete

module _ (R : Runtime) {W : Type 0} (c : Connector R W (Resource R)) where
  unfoldable pub connect_managed : Act (Request (Resource R) W) (ClientApi W)
  unfolding connect as_kind
  connect_managed = as_kind err_not_user_group (connect R c)
