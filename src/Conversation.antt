-- ===== src/Conversation.antt =====
-- internal/controller/conversation/conversation.go and apis/conversation/v1alpha1/types.go.
pub mod Frame
pub mod AutoLink
pub mod Service
pub mod Convergence
pub mod Lifecycle
pub mod Adoption
pub mod Archived
pub mod Remote
pub mod Http
use crossplane_provider_slac.Base.{
  String, code, Bool, true, false, ◌&&◌, ◌||◌, not, Option, none, some, nat_eq, ◌==◌, if◌then◌else◌,
}
use crossplane_provider_slac.Base.Int.{ℤ}
use crossplane_provider_slac.Base.Text.{value_or_empty}
use crossplane_provider_slac.Errors.{Error, Result, ok, err, wrap, has_code}
use crossplane_provider_slac.Act.{Act, pure, fail, ◌>>=◌, ◌>>◌, attempt, or_wrap}
use crossplane_provider_slac.Runtime.{
  Runtime, Condition, synced, status_false, Managed, Session, Request, as_kind, call, get, modify,
  ExternalObservation, absent, external_name, with_external_name, with_condition, with_observation,
}
use crossplane_provider_slac.Slack.Types.{Conversation}
use crossplane_provider_slac.Slack.Api.{ClientApi}
use crossplane_provider_slac.Connector.{Connector, connect}
use AutoLink.{strip_slack_auto_links}

pub record ConversationParameters : Type 0 where
  pub name : String
  pub is_private : Option Bool
  pub topic : Option String
  pub purpose : Option String

pub record ConversationObservation : Type 0 where
  pub id : String
  pub is_archived : Bool
  pub num_members : ℤ
  pub created : ℤ

abbrev pub err_not_conversation : String
err_not_conversation = "managed resource is not a Conversation"

abbrev pub err_observe : String
err_observe = "cannot get conversation info"

abbrev pub err_create : String
err_create = "cannot create conversation"

abbrev pub err_delete : String
err_delete = "cannot archive conversation"

abbrev pub err_rename : String
err_rename = "cannot rename conversation"

abbrev pub err_set_topic : String
err_set_topic = "cannot set conversation topic"

abbrev pub err_set_purpose : String
err_set_purpose = "cannot set conversation purpose"

abbrev pub err_update : String
err_update = "cannot update conversation"

abbrev pub err_join : String
err_join = "cannot join conversation"

abbrev pub not_found : Condition
not_found = record {
  kind = synced;
  status = status_false;
  reason = "NotFound";
  message = "channel not found in Slack";
}

abbrev pub name_conflict : Condition
name_conflict = record {
  kind = synced;
  status = status_false;
  reason = "NameConflict";
  message = "channel name is already taken";
}

unfoldable pub is_channel_id : String → Bool
is_channel_id String.[] = false
is_channel_id (String.◌∷◌ c s) =
    nat_eq (code c) b'C' || (nat_eq (code c) b'D' || nat_eq (code c) b'G')

unfoldable pub is_up_to_date : ConversationParameters → Conversation → Bool
is_up_to_date desired observed =
    if not (desired.name == observed.name)
    then false
    else if not (value_or_empty desired.topic == strip_slack_auto_links observed.topic.value)
    then false
    else if not (value_or_empty desired.purpose == strip_slack_auto_links observed.purpose.value)
    then false
    else true

pub is_set_true : Option Bool → Bool
is_set_true none = false
is_set_true (some b) = b

is_set : Option String → Bool
is_set none = false
is_set (some s) = not (s == "")

abbrev pub Resource : Runtime → Type 0
Resource R = Managed R ConversationParameters ConversationObservation

abbrev pub State : Runtime → Type 0 → Type 0
State R W = Session (Resource R) W

module _ (R : Runtime) {W : Type 0} (api : ClientApi W) where
  -- The channel ID to look at: an external name that is no channel ID is looked up and adopted.
  adopt : String → Act (State R W) (Option String)
  adopt name = if is_channel_id name then pure (some name) else do
    found ← or_wrap (call (api.find_conversation_by_name name)) (wrap err_observe)
    elim found [
      | none ↦ pure none
      | some conv ↦ do modify (with_external_name conv.id); pure (some conv.id)
    ]

  observed : Conversation → Act (State R W) ExternalObservation
  observed conv = if conv.is_archived then pure absent else do
    modify (
        with_observation (record {
          id = conv.id;
          is_archived = conv.is_archived;
          num_members = conv.num_members;
          created = conv.created;
        }))
    cr ← get
    modify (with_condition R.available)
    pure (record {
      resource_exists = true;
      resource_up_to_date = is_up_to_date cr.for_provider conv;
    })

  observe_error : Error → Act (State R W) ExternalObservation
  observe_error e =
      if has_code "channel_not_found" e
      then (do modify (with_condition not_found); pure absent)
      else fail (wrap err_observe e)

  observe_channel : String → Act (State R W) ExternalObservation
  unfolding observed observe_error
  observe_channel id = do
    r ← attempt (call (api.get_conversation_info id))
    elim r [ ok conv ↦ observed conv | err e ↦ observe_error e ]

  looked_up : Option String → Act (State R W) ExternalObservation
  unfolding observe_channel
  looked_up none = pure absent
  looked_up (some id) = observe_channel id

  observe_named : String → Act (State R W) ExternalObservation
  unfolding adopt looked_up
  observe_named name = do id ← adopt name; looked_up id

  unfoldable pub observe : Act (State R W) ExternalObservation
  unfolding observe_named
  observe = do
    cr ← get
    if external_name cr == "" then pure absent else observe_named (external_name cr)

  pub set_topic_if : Bool → String → Option String → Act (State R W) (Unit {0})
  set_topic_if needed id topic =
      if needed
      then or_wrap (call (api.set_conversation_topic id (value_or_empty topic)))
          (wrap err_set_topic)
      else pure tt

  pub set_purpose_if : Bool → String → Option String → Act (State R W) (Unit {0})
  set_purpose_if needed id purpose =
      if needed
      then or_wrap (call (api.set_conversation_purpose id (value_or_empty purpose)))
          (wrap err_set_purpose)
      else pure tt

  -- The name exists already: search and adopt.
  create_taken : String → Error → Act (State R W) (Unit {0})
  create_taken name e = do
    r ← attempt (call (api.find_conversation_by_name name))
    elim r [
      | ok (some found) ↦ modify (with_external_name found.id)
      | _ ↦ do modify (with_condition name_conflict); fail (wrap err_create e)
    ]

  create_error : String → Error → Act (State R W) (Unit {0})
  unfolding create_taken
  create_error name e =
      if has_code "name_taken" e then create_taken name e else fail (wrap err_create e)

  created : ConversationParameters → Conversation → Act (State R W) (Unit {0})
  unfolding set_topic_if set_purpose_if is_set
  created p conv = do
    modify (with_external_name conv.id)
    set_topic_if (is_set p.topic) conv.id p.topic
    set_purpose_if (is_set p.purpose) conv.id p.purpose

  unfoldable pub create : Act (State R W) (Unit {0})
  unfolding created create_error is_set_true
  create = do
    cr ← get
    r ← attempt (
        call
          (api.create_conversation cr.for_provider.name (is_set_true cr.for_provider.is_private)))
    elim r [ ok conv ↦ created cr.for_provider conv | err e ↦ create_error cr.for_provider.name e ]

  -- setNameConflictCondition
  set_name_conflict_condition : Error → Act (State R W) (Unit {0})
  set_name_conflict_condition e =
      if has_code "name_taken" e then modify (with_condition name_conflict) else pure tt

  rename_if : Bool → String → String → Act (State R W) (Unit {0})
  unfolding set_name_conflict_condition
  rename_if needed id name = if not needed then pure tt else do
    r ← attempt (call (api.rename_conversation id name))
    elim r [ ok _ ↦ pure tt | err e ↦ do set_name_conflict_condition e; fail (wrap err_rename e) ]

  -- The three comparisons of Update, each with its correction.
  align : Resource R → Conversation → Act (State R W) (Unit {0})
  unfolding rename_if set_topic_if set_purpose_if
  align cr conv = do
    rename_if (not (cr.for_provider.name == conv.name)) (external_name cr) cr.for_provider.name
    set_topic_if
        (not (value_or_empty cr.for_provider.topic == strip_slack_auto_links conv.topic.value))
        (external_name cr) cr.for_provider.topic
    set_purpose_if
        (not (value_or_empty cr.for_provider.purpose == strip_slack_auto_links conv.purpose.value))
        (external_name cr) cr.for_provider.purpose

  unfoldable pub update : Act (State R W) (Unit {0})
  unfolding align
  update = do
    cr ← get
    or_wrap (call (api.join_conversation (external_name cr))) (wrap err_join)
    conv ← or_wrap (call (api.get_conversation_info (external_name cr))) (wrap err_update)
    align cr conv

  delete_channel : String → Act (State R W) (Unit {0})
  delete_channel id = do
    r ← attempt (call (api.archive_conversation id))
    elim r [
      | ok _ ↦ pure tt
      | err e ↦ if has_code "channel_not_found" e then pure tt else fail (wrap err_delete e)
    ]

  unfoldable pub delete : Act (State R W) (Unit {0})
  unfolding delete_channel
  delete = do
    cr ← get
    if external_name cr == "" then pure tt else delete_channel (external_name cr)

  unfoldable pub observe_managed : Act (Request (Resource R) W) ExternalObservation
  unfolding observe as_kind
  observe_managed = as_kind err_not_conversation observe

  unfoldable pub create_managed : Act (Request (Resource R) W) (Unit {0})
  unfolding create as_kind
  create_managed = as_kind err_not_conversation create

  unfoldable pub update_managed : Act (Request (Resource R) W) (Unit {0})
  unfolding update as_kind
  update_managed = as_kind err_not_conversation update

  unfoldable pub delete_managed : Act (Request (Resource R) W) (Unit {0})
  unfolding delete as_kind
  delete_managed = as_kind err_not_conversation delete

module _ (R : Runtime) {W : Type 0} (c : Connector R W (Resource R)) where
  unfoldable pub connect_managed : Act (Request (Resource R) W) (ClientApi W)
  unfolding connect as_kind
  connect_managed = as_kind err_not_conversation (connect R c)
