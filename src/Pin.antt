-- ===== src/Pin.antt =====
-- internal/controller/pin/pin.go and apis/pin/v1alpha1.
pub mod Frame
pub mod Service
pub mod Lifecycle
pub mod Http
use crossplane_provider_slac.Base.{
  String, ◌<>◌, code, Bool, true, false, ◌&&◌, ◌||◌, not, Option, none, some, List, [], ◌∷◌, ◌==◌,
  if◌then◌else◌,
}
use crossplane_provider_slac.Base.Int.{ℤ, pos}
use crossplane_provider_slac.Base.Text.{value_or_empty, cut}
use crossplane_provider_slac.Errors.{Error, Result, ok, err, wrap, plain, has_code, as_slack}
use crossplane_provider_slac.Act.{Act, pure, fail, ◌>>=◌, ◌>>◌, attempt, or_wrap}
use crossplane_provider_slac.Runtime.{
  Runtime, Condition, synced, status_false, Managed, Session, Request, as_kind, call, get, modify,
  ExternalObservation, absent, external_name, with_external_name, with_condition, with_observation,
}
use crossplane_provider_slac.ProviderConfig.{Kube}
use crossplane_provider_slac.Connector.{Connector, connect, resolve_id}
use crossplane_provider_slac.Slack.Api.{ClientApi}
use crossplane_provider_slac.Slack.Types.{Pin}

pub record ConversationPinParameters : Type 0 where
  pub conversation_id : Option String
  pub conversation_ref : Option String
  pub message_timestamp : String

pub record ConversationPinObservation : Type 0 where
  pub channel_id : String
  pub pinned_at : ℤ

abbrev pub err_not_pin : String
err_not_pin = "managed resource is not a ConversationPin"

abbrev pub err_resolve_conv : String
err_resolve_conv = "cannot resolve conversation ID"

abbrev pub err_observe : String
err_observe = "cannot list pins"

abbrev pub err_create : String
err_create = "cannot add pin"

abbrev pub err_delete : String
err_delete = "cannot remove pin"

-- isChannelUnavailable
unfoldable pub is_channel_unavailable : Error → Bool
unfolding as_slack
is_channel_unavailable e = elim (as_slack e) [
  | none ↦ false
  | some s ↦ s.code == "channel_not_found" || s.code == "is_archived"
]

-- isMessageNotFound
unfoldable pub is_message_not_found : Error → Bool
unfolding as_slack
is_message_not_found e = elim (as_slack e) [ none ↦ false | some s ↦ s.code == "message_not_found" ]

unfoldable pub format_external_name : String → String → String
format_external_name channel ts = channel <> (":" <> ts)

pair_or_empty : Option (String × String) → String × String
pair_or_empty none = ("", "")
pair_or_empty (some p) = p

-- strings.SplitN(name, ":", 2) has two parts exactly when there is a colon.
unfoldable pub parse_external_name : String → String × String
unfolding cut pair_or_empty
parse_external_name name = pair_or_empty (cut b':' name)

-- The first pin of the message.
unfoldable pub find_pin : String → List Pin → Option Pin
find_pin ts [] = none
find_pin ts (p ∷ ps) = if p.message.ts == ts then some p else find_pin ts ps

abbrev pub Resource : Runtime → Type 0
Resource R = Managed R ConversationPinParameters ConversationPinObservation

abbrev pub State : Runtime → Type 0 → Type 0
State R W = Session (Resource R) W

-- ResolveConversationID, apis/pin/v1alpha1/referencers.go
unfoldable pub resolve_conversation_id :
    (R : Runtime) {W : Type 0} → Kube R W → ConversationPinParameters → Act W String
unfolding resolve_id
resolve_conversation_id R kube p =
    resolve_id R kube.get_conversation p.conversation_id p.conversation_ref

module _ (R : Runtime) {W : Type 0} (api : ClientApi W) (kube : Kube R W) where
  set_channel_unavailable_condition : Error → Act (State R W) (Unit {0})
  unfolding as_slack
  set_channel_unavailable_condition e = elim (as_slack e) [
    | none ↦ pure tt
    | some s ↦ modify (
        with_condition (record {
          kind = synced;
          status = status_false;
          reason = "ChannelUnavailable";
          message = s.message;
        }))
  ]

  set_message_not_found_condition : Error → Act (State R W) (Unit {0})
  unfolding as_slack
  set_message_not_found_condition e = elim (as_slack e) [
    | none ↦ pure tt
    | some s ↦ modify (
        with_condition (record {
          kind = synced;
          status = status_false;
          reason = "MessageNotFound";
          message = s.message;
        }))
  ]

  observed : String → Option Pin → Act (State R W) ExternalObservation
  observed channel none = pure absent
  observed channel (some p) = do
    modify (with_observation (record { channel_id = channel; pinned_at = p.created }))
    modify (with_condition R.available)
    pure (record { resource_exists = true; resource_up_to_date = true })

  observe_error : Error → Act (State R W) ExternalObservation
  unfolding set_channel_unavailable_condition is_channel_unavailable
  observe_error e =
      if is_channel_unavailable e
      then (do set_channel_unavailable_condition e; pure absent)
      else fail (wrap err_observe e)

  observe_parsed : String × String → Act (State R W) ExternalObservation
  unfolding observed observe_error find_pin
  observe_parsed (channel, ts) = if channel == "" || ts == "" then pure absent else do
    r ← attempt (call (api.list_pins channel))
    elim r [ ok pins ↦ observed channel (find_pin ts pins) | err e ↦ observe_error e ]

  unfoldable pub observe : Act (State R W) ExternalObservation
  unfolding observe_parsed
  observe = do
    cr ← get
    if external_name cr == ""
        then pure absent
        else observe_parsed (parse_external_name (external_name cr))

  create_error : Error → Act (State R W) (Unit {0})
  unfolding set_channel_unavailable_condition set_message_not_found_condition is_channel_unavailable
      is_message_not_found
  create_error e = do
    if is_channel_unavailable e then set_channel_unavailable_condition e else pure tt
    if is_message_not_found e then set_message_not_found_condition e else pure tt
    fail (wrap err_create e)

  unfoldable pub create : Act (State R W) (Unit {0})
  unfolding create_error resolve_conversation_id format_external_name
  create = do
    cr ← get
    channel ←
        or_wrap (call (resolve_conversation_id R kube cr.for_provider)) (wrap err_resolve_conv)
    r ← attempt (call (api.add_pin channel cr.for_provider.message_timestamp))
    elim r [
      | ok _ ↦
          modify
            (with_external_name (format_external_name channel cr.for_provider.message_timestamp))
      | err e ↦ create_error e
    ]

  -- Pins are immutable.
  unfoldable pub update : Act (State R W) (Unit {0})
  update = pure tt

  delete_error : Error → Act (State R W) (Unit {0})
  unfolding is_channel_unavailable
  delete_error e =
      if is_channel_unavailable e
      then pure tt
      else if has_code "no_pin" e
      then pure tt
      else fail (wrap err_delete e)

  delete_parsed : String × String → Act (State R W) (Unit {0})
  unfolding delete_error
  delete_parsed (channel, ts) = if channel == "" || ts == "" then pure tt else do
    r ← attempt (call (api.remove_pin channel ts))
    elim r [ ok _ ↦ pure tt | err e ↦ delete_error e ]

  unfoldable pub delete : Act (State R W) (Unit {0})
  unfolding delete_parsed
  delete = do
    cr ← get
    if external_name cr == ""
        then pure tt
        else delete_parsed (parse_external_name (external_name cr))

  unfoldable pub observe_managed : Act (Request (Resource R) W) ExternalObservation
  unfolding observe as_kind
  observe_managed = as_kind err_not_pin observe

  unfoldable pub create_managed : Act (Request (Resource R) W) (Unit {0})
  unfolding create as_kind
  create_managed = as_kind err_not_pin create

  unfoldable pub delete_managed : Act (Request (Resource R) W) (Unit {0})
  unfolding delete as_kind
  delete_managed = as_kind err_not_pin delete

module _ (R : Runtime) {W : Type 0} (c : Connector R W (Resource R)) where
  unfoldable pub connect_managed : Act (Request (Resource R) W) (ClientApi W)
  unfolding connect as_kind
  connect_managed = as_kind err_not_pin (connect R c)
