-- ===== src/UserGroupMembers.antt =====
-- internal/controller/usergroupmembers/usergroupmembers.go and apis/usergroupmembers/v1alpha1.
pub mod Frame
pub mod SetsEqual
pub mod Emails
pub mod Convergence
pub mod Http
pub mod Reports
use crossplane_provider_slac.Base.{
  String, ◌<>◌, code, Bool, true, false, ◌&&◌, ◌||◌, not, Option, none, some, List, [], ◌∷◌, ◌++◌,
  ◌==◌, if◌then◌else◌,
}
use crossplane_provider_slac.Base.Int.{ℤ, pos}
use crossplane_provider_slac.Base.Text.{value_or_empty, join}
use crossplane_provider_slac.Errors.{Error, Result, ok, err, wrap, plain, has_code, as_slack}
use crossplane_provider_slac.Act.{Act, pure, fail, ◌>>=◌, ◌>>◌, attempt, or_wrap}
use crossplane_provider_slac.Runtime.{
  Runtime, Condition, synced, status_false, Managed, Session, Request, as_kind, call, get, modify,
  ExternalObservation, absent, external_name, with_external_name, with_condition, with_observation,
}
use crossplane_provider_slac.ProviderConfig.{Kube}
use crossplane_provider_slac.Connector.{Connector, connect, resolve_id}
use crossplane_provider_slac.Slack.Api.{ClientApi}
use crossplane_provider_slac.Base.Lists.{length}
use crossplane_provider_slac.Errors.{SlackError, slack}
use crossplane_provider_slac.Slack.Types.{User}
use SetsEqual.{sets_equal}

pub record UserGroupMembersParameters : Type 0 where
  pub user_group_id : Option String
  pub user_group_ref : Option String
  pub user_emails : List String

pub record UserGroupMembersObservation : Type 0 where
  pub resolved_user_ids : List String
  pub member_count : ℤ

abbrev pub err_not_user_group_members : String
err_not_user_group_members = "managed resource is not a UserGroupMembers"

abbrev pub err_list_members : String
err_list_members = "cannot list user group members"

abbrev pub err_resolve_emails : String
err_resolve_emails = "cannot resolve user emails"

abbrev pub err_update_members : String
err_update_members = "cannot update user group members"

abbrev pub err_resolve_group_id : String
err_resolve_group_id = "cannot resolve user group ID"

abbrev pub Resource : Runtime → Type 0
Resource R = Managed R UserGroupMembersParameters UserGroupMembersObservation

abbrev pub State : Runtime → Type 0 → Type 0
State R W = Session (Resource R) W

-- ResolveUserGroupID, apis/usergroupmembers/v1alpha1/referencers.go
unfoldable pub resolve_user_group_id :
    (R : Runtime) {W : Type 0} → Kube R W → UserGroupMembersParameters → Act W String
unfolding resolve_id
resolve_user_group_id R kube p = resolve_id R kube.get_user_group p.user_group_id p.user_group_ref

-- isSlackError: a type assertion, which looks at no cause.
unfoldable pub slack_itself : Error → Option SlackError
slack_itself (slack e) = some e
slack_itself _ = none

pub record Resolution : Type 0 where
  pub resolved : List String
  pub unresolvable : List String

abbrev add_resolved : Resolution → String → Resolution
add_resolved r id = record r { resolved = r.resolved ++ (id ∷ []) }

abbrev add_unresolvable : Resolution → String → Resolution
add_unresolvable r email = record r { unresolvable = r.unresolvable ++ (email ∷ []) }

unfoldable pub is_users_not_found : Option SlackError → Bool
is_users_not_found none = false
is_users_not_found (some e) = e.code == "users_not_found"

-- What one round of the loop of resolveEmails does with the result of its lookup.
unfoldable pub classify : String → Resolution → Result (Option User) → Result Resolution
unfolding slack_itself is_users_not_found
classify email acc (err e) =
    if is_users_not_found (slack_itself e) then ok (add_unresolvable acc email) else err e
classify email acc (ok none) = ok (add_unresolvable acc email)
classify email acc (ok (some user)) =
    if not (user.id == "") then ok (add_resolved acc user.id) else ok (add_unresolvable acc email)

module _ {W : Type 0} (api : ClientApi W) where
  unfoldable pub resolve_loop : List String → Resolution → Act W Resolution
  resolve_loop [] acc = pure acc
  resolve_loop (email ∷ emails) acc = do
    r ← attempt (api.lookup_user_by_email email)
    acc' ← λ w. (classify email acc r, w)
    resolve_loop emails acc'

  unfoldable pub resolve_emails : List String → Act W Resolution
  unfolding resolve_loop
  resolve_emails emails = resolve_loop emails (record { resolved = []; unresolvable = [] })

-- joinStrings
unfoldable pub join_strings : List String → String
unfolding join
join_strings ss = join ", " ss

unfoldable pub is_empty : List String → Bool
is_empty [] = true
is_empty (x ∷ xs) = false

abbrev pub user_not_found : List String → Condition
user_not_found emails = record {
  kind = synced;
  status = status_false;
  reason = "UserNotFound";
  message = "cannot resolve email(s): " <> join_strings emails;
}

module _ (R : Runtime) {W : Type 0} (api : ClientApi W) where
  -- The lookup of the emails, with the condition on those that cannot be resolved.
  resolve : List String → Act (State R W) Resolution
  resolve emails = or_wrap (call (resolve_emails api emails)) (wrap err_resolve_emails)

  report_unresolvable : List String → Act (State R W) (Unit {0})
  unfolding is_empty
  report_unresolvable emails =
      if is_empty emails then pure tt else modify (with_condition (user_not_found emails))

  observe_named : String → Act (State R W) ExternalObservation
  unfolding resolve report_unresolvable
  observe_named name = do
    current ← or_wrap (call (api.list_user_group_members name)) (wrap err_list_members)
    cr ← get
    res ← resolve cr.for_provider.user_emails
    report_unresolvable res.unresolvable
    modify (
        with_observation
          (record { resolved_user_ids = current; member_count = pos (length current) }))
    if sets_equal res.resolved current && is_empty res.unresolvable
        then modify (with_condition R.available)
        else pure tt
    pure (record { resource_exists = true; resource_up_to_date = sets_equal res.resolved current })

  unfoldable pub observe : Act (State R W) ExternalObservation
  unfolding observe_named
  observe = do
    cr ← get
    if external_name cr == "" then pure absent else observe_named (external_name cr)

  -- The part that Create and Update share: resolve, report, and replace the members unless the
  -- list is empty.
  replace_members : String → Act (State R W) (Unit {0})
  unfolding resolve report_unresolvable
  replace_members group = do
    cr ← get
    res ← resolve cr.for_provider.user_emails
    report_unresolvable res.unresolvable
    if is_empty res.resolved
        then pure tt
        else or_wrap (call (api.update_user_group_members group res.resolved))
            (wrap err_update_members)

  unfoldable pub create : Kube R W → Act (State R W) (Unit {0})
  unfolding replace_members resolve_user_group_id
  create kube = do
    cr ← get
    group ←
        or_wrap (call (resolve_user_group_id R kube cr.for_provider)) (wrap err_resolve_group_id)
    modify (with_external_name group)
    replace_members group

  unfoldable pub update : Act (State R W) (Unit {0})
  unfolding replace_members
  update = do cr ← get; replace_members (external_name cr)

  unfoldable pub delete : Act (State R W) (Unit {0})
  delete = do
    cr ← get
    if external_name cr == ""
        then pure tt
        else or_wrap (call (api.update_user_group_members (external_name cr) []))
            (wrap err_update_members)

  unfoldable pub observe_managed : Act (Request (Resource R) W) ExternalObservation
  unfolding observe as_kind
  observe_managed = as_kind err_not_user_group_members observe

  unfoldable pub create_managed : Kube R W → Act (Request (Resource R) W) (Unit {0})
  unfolding create as_kind
  create_managed kube = as_kind err_not_user_group_members (create kube)

  unfoldable pub update_managed : Act (Request (Resource R) W) (Unit {0})
  unfolding update as_kind
  update_managed = as_kind err_not_user_group_members update

  unfoldable pub delete_managed : Act (Request (Resource R) W) (Unit {0})
  unfolding delete as_kind
  delete_managed = as_kind err_not_user_group_members delete

module _ (R : Runtime) {W : Type 0} (c : Connector R W (Resource R)) where
  unfoldable pub connect_managed : Act (Request (Resource R) W) (ClientApi W)
  unfolding connect as_kind
  connect_managed = as_kind err_not_user_group_members (connect R c)
