-- ===== src/ConversationMember.antt =====
-- internal/controller/conversationmember/conversationmember.go and apis/conversationmember/v1alpha1.
pub mod Frame
pub mod Service
pub mod Lifecycle
pub mod Http
use crossplane_provider_slac.Base.{
  String, ◌<>◌, code, Bool, true, false, ◌&&◌, ◌||◌, not, Option, none, some, List, [], ◌∷◌, ◌==◌,
  if◌then◌else◌,
}
use crossplane_provider_slac.Base.Int.{ℤ, pos}
use crossplane_provider_slac.Base.Text.{value_or_empty, cut}
use crossplane_provider_slac.Errors.{Error, Result, ok, err, wrap, plain, has_code, as_slack}
use crossplane_provider_slac.Act.{Act, pure, fail, ◌>>=◌, ◌>>◌, attempt, or_wrap}
use crossplane_provider_slac.Runtime.{
  Runtime, Condition, synced, status_false, Managed, Session, Request, as_kind, call, get, modify,
  ExternalObservation, absent, external_name, with_external_name, with_condition, with_observation,
}
use crossplane_provider_slac.ProviderConfig.{Kube}
use crossplane_provider_slac.Connector.{Connector, connect, resolve_id}
use crossplane_provider_slac.Slack.Api.{ClientApi}
use crossplane_provider_slac.Slack.Types.{User}

pub record ConversationMemberParameters : Type 0 where
  pub conversation_id : Option String
  pub conversation_ref : Option String
  pub user_email : Option String
  pub user_id : Option String

pub record ConversationMemberObservation : Type 0 where
  pub resolved_user_id : String
  pub channel_id : String

abbrev pub err_not_conversation_member : String
err_not_conversation_member = "managed resource is not a ConversationMember"

abbrev pub err_resolve_conv : String
err_resolve_conv = "cannot resolve conversation ID"

abbrev pub err_resolve_user : String
err_resolve_user = "cannot resolve user"

abbrev pub err_invite : String
err_invite = "cannot invite user to conversation"

abbrev pub err_kick : String
err_kick = "cannot remove user from conversation"

abbrev pub err_list_members : String
err_list_members = "cannot list conversation members"

unfoldable pub format_external_name : String → String → String
format_external_name channel user = channel <> ("/" <> user)

-- The texts before and after the first slash, if there is one.
unfoldable pub parse_external_name : String → Option (String × String)
unfolding cut
parse_external_name name = cut b'/' name

unfoldable pub is_member : String → List String → Bool
is_member user [] = false
is_member user (m ∷ ms) = if m == user then true else is_member user ms

abbrev pub Resource : Runtime → Type 0
Resource R = Managed R ConversationMemberParameters ConversationMemberObservation

abbrev pub State : Runtime → Type 0 → Type 0
State R W = Session (Resource R) W

-- ResolveConversationID, apis/conversationmember/v1alpha1/referencers.go
unfoldable pub resolve_conversation_id :
    (R : Runtime) {W : Type 0} → Kube R W → ConversationMemberParameters → Act W String
unfolding resolve_id
resolve_conversation_id R kube p =
    resolve_id R kube.get_conversation p.conversation_id p.conversation_ref

user_not_found : String → Error
user_not_found email = plain ("user not found for email " <> email)

abbrev pub user_required : Error
user_required = plain "one of userEmail or userId is required"

module _ {W : Type 0} (api : ClientApi W) where
  found_user : String → Option User → Act W String
  unfolding user_not_found
  found_user email none = fail (user_not_found email)
  found_user email (some user) = if user.id == "" then fail (user_not_found email) else pure user.id

  resolve_by_email : Option String → Act W String
  unfolding found_user
  resolve_by_email none = fail user_required
  resolve_by_email (some email) =
      if email == ""
      then fail user_required
      else do user ← api.lookup_user_by_email email; found_user email user

  by_id_or_email : Option String → Option String → Act W String
  unfolding resolve_by_email
  by_id_or_email none email = resolve_by_email email
  by_id_or_email (some id) email = if id == "" then resolve_by_email email else pure id

  unfoldable pub resolve_user_id : ConversationMemberParameters → Act W String
  unfolding by_id_or_email
  resolve_user_id p = by_id_or_email p.user_id p.user_email

module _ (R : Runtime) {W : Type 0} (api : ClientApi W) (kube : Kube R W) where
  observed : String → String → Bool → Act (State R W) ExternalObservation
  observed channel user false = pure absent
  observed channel user true = do
    modify (with_observation (record { resolved_user_id = user; channel_id = channel }))
    modify (with_condition R.available)
    pure (record { resource_exists = true; resource_up_to_date = true })

  observe_parsed : Option (String × String) → Act (State R W) ExternalObservation
  unfolding observed is_member
  observe_parsed none = pure absent
  observe_parsed (some (channel, user)) = do
    members ← or_wrap (call (api.get_conversation_members channel)) (wrap err_list_members)
    observed channel user (is_member user members)

  unfoldable pub observe : Act (State R W) ExternalObservation
  unfolding observe_parsed
  observe = do
    cr ← get
    if external_name cr == ""
        then pure absent
        else observe_parsed (parse_external_name (external_name cr))

  invited : String → String → Result (Unit {0}) → Act (State R W) (Unit {0})
  unfolding format_external_name
  invited channel user (ok _) = modify (with_external_name (format_external_name channel user))
  invited channel user (err e) =
      if has_code "already_in_channel" e
      then modify (with_external_name (format_external_name channel user))
      else fail (wrap err_invite e)

  unfoldable pub create : Act (State R W) (Unit {0})
  unfolding resolve_conversation_id resolve_user_id invited
  create = do
    cr ← get
    channel ←
        or_wrap (call (resolve_conversation_id R kube cr.for_provider)) (wrap err_resolve_conv)
    user ← or_wrap (call (resolve_user_id api cr.for_provider)) (wrap err_resolve_user)
    ignored ← attempt (call (api.join_conversation channel))
    r ← attempt (call (api.invite_to_conversation channel user))
    invited channel user r

  -- Membership is binary.
  unfoldable pub update : Act (State R W) (Unit {0})
  update = pure tt

  kicked : Result (Unit {0}) → Act (State R W) (Unit {0})
  kicked (ok _) = pure tt
  kicked (err e) =
      if has_code "not_in_channel" e || has_code "channel_not_found" e
      then pure tt
      else fail (wrap err_kick e)

  delete_parsed : Option (String × String) → Act (State R W) (Unit {0})
  unfolding kicked
  delete_parsed none = pure tt
  delete_parsed (some (channel, user)) = do
    r ← attempt (call (api.kick_from_conversation channel user))
    kicked r

  unfoldable pub delete : Act (State R W) (Unit {0})
  unfolding delete_parsed
  delete = do
    cr ← get
    if external_name cr == ""
        then pure tt
        else delete_parsed (parse_external_name (external_name cr))

  unfoldable pub observe_managed : Act (Request (Resource R) W) ExternalObservation
  unfolding observe as_kind
  observe_managed = as_kind err_not_conversation_member observe

  unfoldable pub create_managed : Act (Request (Resource R) W) (Unit {0})
  unfolding create as_kind
  create_managed = as_kind err_not_conversation_member create

  unfoldable pub delete_managed : Act (Request (Resource R) W) (Unit {0})
  unfolding delete as_kind
  delete_managed = as_kind err_not_conversation_member delete

module _ (R : Runtime) {W : Type 0} (c : Connector R W (Resource R)) where
  unfoldable pub connect_managed : Act (Request (Resource R) W) (ClientApi W)
  unfolding connect as_kind
  connect_managed = as_kind err_not_conversation_member (connect R c)
