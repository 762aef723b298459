-- ===== src/Bookmark.antt =====
-- internal/controller/bookmark/bookmark.go and apis/bookmark/v1alpha1.
pub mod Frame
pub mod Service
pub mod Lifecycle
pub mod Http
use crossplane_provider_slac.Base.{
  String, ◌<>◌, code, Bool, true, false, ◌&&◌, ◌||◌, not, Option, none, some, List, [], ◌∷◌, ◌==◌,
  if◌then◌else◌,
}
use crossplane_provider_slac.Base.Int.{ℤ, pos}
use crossplane_provider_slac.Base.Text.{value_or_empty, cut}
use crossplane_provider_slac.Errors.{Error, Result, ok, err, wrap, plain, has_code, as_slack}
use crossplane_provider_slac.Act.{Act, pure, fail, ◌>>=◌, ◌>>◌, attempt, or_wrap}
use crossplane_provider_slac.Runtime.{
  Runtime, Condition, synced, status_false, Managed, Session, Request, as_kind, call, get, modify,
  ExternalObservation, absent, external_name, with_external_name, with_condition, with_observation,
}
use crossplane_provider_slac.ProviderConfig.{Kube}
use crossplane_provider_slac.Connector.{Connector, connect, resolve_id}
use crossplane_provider_slac.Slack.Api.{ClientApi}
use crossplane_provider_slac.Slack.Types.{Bookmark, BookmarkParams}

pub record ConversationBookmarkParameters : Type 0 where
  pub conversation_id : Option String
  pub conversation_ref : Option String
  pub title : String
  pub kind : String
  pub link : String

pub record ConversationBookmarkObservation : Type 0 where
  pub id : String
  pub channel_id : String
  pub date_created : ℤ

abbrev pub err_not_bookmark : String
err_not_bookmark = "managed resource is not a ConversationBookmark"

abbrev pub err_resolve_conv : String
err_resolve_conv = "cannot resolve conversation ID"

abbrev pub err_observe : String
err_observe = "cannot list bookmarks"

abbrev pub err_create : String
err_create = "cannot add bookmark"

abbrev pub err_update : String
err_update = "cannot edit bookmark"

abbrev pub err_delete : String
err_delete = "cannot remove bookmark"

-- isChannelUnavailable
unfoldable pub is_channel_unavailable : Error → Bool
unfolding as_slack
is_channel_unavailable e = elim (as_slack e) [
  | none ↦ false
  | some s ↦ s.code == "channel_not_found" || s.code == "is_archived"
]

unfoldable pub is_up_to_date : ConversationBookmarkParameters → Bookmark → Bool
is_up_to_date desired observed =
    if not (desired.title == observed.title)
    then false
    else if not (desired.link == observed.link)
    then false
    else true

-- The first bookmark with the ID.
unfoldable pub find_bookmark : String → List Bookmark → Option Bookmark
find_bookmark id [] = none
find_bookmark id (b ∷ bs) = if b.id == id then some b else find_bookmark id bs

abbrev pub Resource : Runtime → Type 0
Resource R = Managed R ConversationBookmarkParameters ConversationBookmarkObservation

abbrev pub State : Runtime → Type 0 → Type 0
State R W = Session (Resource R) W

-- ResolveConversationID, apis/bookmark/v1alpha1/referencers.go
unfoldable pub resolve_conversation_id :
    (R : Runtime) {W : Type 0} → Kube R W → ConversationBookmarkParameters → Act W String
unfolding resolve_id
resolve_conversation_id R kube p =
    resolve_id R kube.get_conversation p.conversation_id p.conversation_ref

module _ (R : Runtime) {W : Type 0} (api : ClientApi W) (kube : Kube R W) where
  set_channel_unavailable_condition : Error → Act (State R W) (Unit {0})
  unfolding as_slack
  set_channel_unavailable_condition e = elim (as_slack e) [
    | none ↦ pure tt
    | some s ↦ modify (
        with_condition (record {
          kind = synced;
          status = status_false;
          reason = "ChannelUnavailable";
          message = s.message;
        }))
  ]

  channel_of : Resource R → Act (State R W) String
  unfolding resolve_conversation_id
  channel_of cr =
      or_wrap (call (resolve_conversation_id R kube cr.for_provider)) (wrap err_resolve_conv)

  observed : Option Bookmark → Act (State R W) ExternalObservation
  observed none = pure absent
  observed (some b) = do
    modify (
        with_observation
          (record { id = b.id; channel_id = b.channel_id; date_created = b.date_created }))
    cr ← get
    modify (with_condition R.available)
    pure (record { resource_exists = true; resource_up_to_date = is_up_to_date cr.for_provider b })

  observe_error : Error → Act (State R W) ExternalObservation
  unfolding set_channel_unavailable_condition is_channel_unavailable
  observe_error e =
      if is_channel_unavailable e
      then (do set_channel_unavailable_condition e; pure absent)
      else fail (wrap err_observe e)

  observe_channel : String → String → Act (State R W) ExternalObservation
  unfolding observed observe_error find_bookmark
  observe_channel name channel = if channel == "" then pure absent else do
    r ← attempt (call (api.list_bookmarks channel))
    elim r [ ok bs ↦ observed (find_bookmark name bs) | err e ↦ observe_error e ]

  unfoldable pub observe : Act (State R W) ExternalObservation
  unfolding observe_channel channel_of
  observe = do
    cr ← get
    if external_name cr == ""
        then pure absent
        else do channel ← channel_of cr; observe_channel (external_name cr) channel

  refused : String → Error → Act (State R W) (Unit {0})
  unfolding set_channel_unavailable_condition is_channel_unavailable
  refused message e =
      if is_channel_unavailable e
      then (do set_channel_unavailable_condition e; fail (wrap message e))
      else fail (wrap message e)

  unfoldable pub create : Act (State R W) (Unit {0})
  unfolding channel_of refused
  create = do
    cr ← get
    channel ← channel_of cr
    r ← attempt (
        call (
          api.add_bookmark channel (record {
            title = cr.for_provider.title;
            kind = cr.for_provider.kind;
            link = cr.for_provider.link;
          })))
    elim r [ ok b ↦ modify (with_external_name b.id) | err e ↦ refused err_create e ]

  unfoldable pub update : Act (State R W) (Unit {0})
  unfolding channel_of refused
  update = do
    cr ← get
    channel ← channel_of cr
    r ← attempt (
        call (
          api.edit_bookmark channel (external_name cr)
            (record { title = cr.for_provider.title; kind = ""; link = cr.for_provider.link })))
    elim r [ ok _ ↦ pure tt | err e ↦ refused err_update e ]

  delete_error : Error → Act (State R W) (Unit {0})
  unfolding is_channel_unavailable
  delete_error e =
      if is_channel_unavailable e
      then pure tt
      else if has_code "bookmark_not_found" e
      then pure tt
      else fail (wrap err_delete e)

  unfoldable pub delete : Act (State R W) (Unit {0})
  unfolding channel_of delete_error
  delete = do
    cr ← get
    if external_name cr == "" then pure tt else do
      channel ← channel_of cr
      r ← attempt (call (api.remove_bookmark channel (external_name cr)))
      elim r [ ok _ ↦ pure tt | err e ↦ delete_error e ]

  unfoldable pub observe_managed : Act (Request (Resource R) W) ExternalObservation
  unfolding observe as_kind
  observe_managed = as_kind err_not_bookmark observe

  unfoldable pub create_managed : Act (Request (Resource R) W) (Unit {0})
  unfolding create as_kind
  create_managed = as_kind err_not_bookmark create

  unfoldable pub update_managed : Act (Request (Resource R) W) (Unit {0})
  unfolding update as_kind
  update_managed = as_kind err_not_bookmark update

  unfoldable pub delete_managed : Act (Request (Resource R) W) (Unit {0})
  unfolding delete as_kind
  delete_managed = as_kind err_not_bookmark delete

module _ (R : Runtime) {W : Type 0} (c : Connector R W (Resource R)) where
  unfoldable pub connect_managed : Act (Request (Resource R) W) (ClientApi W)
  unfolding connect as_kind
  connect_managed = as_kind err_not_bookmark (connect R c)
