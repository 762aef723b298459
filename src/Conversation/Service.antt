-- ===== src/Conversation/Service.antt =====
-- What Slack promises of channels, as far as the Conversation controller relies on it.
use crossplane_provider_slac.Base.{String, ◌≡◌, ◌≢◌, Bool, true, false, Option, none, some}
use crossplane_provider_slac.Errors.{Error, ok, err, has_code}
use crossplane_provider_slac.Slack.Types.{Conversation}
use crossplane_provider_slac.Slack.Api.{ClientApi}
use crossplane_provider_slac.Conversation.{is_channel_id}

-- A channel as Slack keeps it. Slack may store a text with links in another form than it was given.
pub record Channel : Type 0 where
  pub name : String
  pub topic : String
  pub purpose : String
  pub archived : Bool

abbrev pub channel_of : Conversation → Channel
channel_of c = record {
  name = c.name;
  topic = c.topic.value;
  purpose = c.purpose.value;
  archived = c.is_archived;
}

abbrev pub new_channel : String → Channel
new_channel name = record { name = name; topic = ""; purpose = ""; archived = false }

-- `view` is Slack's table of channels, by channel ID, and `stored` the form in which it keeps texts.
pub record IsChannelService {W : Type 0} (api : ClientApi W) (view : W → String → Option Channel)
    (stored : String → String) : Type 0 where
  pub info_found :
      (id : String) (w : W) (ch : Channel)
      → view w id ≡ some ch
      → (c : Conversation) × ((api.get_conversation_info id w).0 ≡ ok c) × (channel_of c ≡ ch)
  pub info_missing :
      (id : String) (w : W)
      → view w id ≡ none
      → (e : Error) × ((api.get_conversation_info id w).0 ≡ err e)
        × (has_code "channel_not_found" e ≡ true)
  pub info_keeps : (id : String) (w : W) → view (api.get_conversation_info id w).1 id ≡ view w id
  pub join_keeps : (id : String) (w : W) → view (api.join_conversation id w).1 id ≡ view w id
  pub creates :
      (name : String) (private : Bool) (w : W) (c : Conversation)
      → (api.create_conversation name private w).0 ≡ ok c
      → (c.is_private ≡ private)
        × (c.id ≢ "")
        × (is_channel_id c.id ≡ true)
        × (view (api.create_conversation name private w).1 c.id ≡ some (new_channel name))
  pub renames :
      (id name : String) (w : W) (ch : Channel)
      → view w id ≡ some ch
      → (api.rename_conversation id name w).0 ≡ ok tt
      → view (api.rename_conversation id name w).1 id ≡ some (record ch { name = name })
  pub sets_topic :
      (id topic : String) (w : W) (ch : Channel)
      → view w id ≡ some ch
      → (api.set_conversation_topic id topic w).0 ≡ ok tt
      → view (api.set_conversation_topic id topic w).1 id
        ≡ some (record ch { topic = stored topic })
  pub sets_purpose :
      (id purpose : String) (w : W) (ch : Channel)
      → view w id ≡ some ch
      → (api.set_conversation_purpose id purpose w).0 ≡ ok tt
      → view (api.set_conversation_purpose id purpose w).1 id
        ≡ some (record ch { purpose = stored purpose })
  pub archives :
      (id : String) (w : W) (ch : Channel)
      → view w id ≡ some ch
      → (api.archive_conversation id w).0 ≡ ok tt
      → view (api.archive_conversation id w).1 id ≡ some (record ch { archived = true })
  pub archives_missing :
      (id : String) (w : W) → view w id ≡ none → view (api.archive_conversation id w).1 id ≡ none
  pub archive_not_found :
      (id : String) (w : W) (e : Error)
      → (api.archive_conversation id w).0 ≡ err e
      → has_code "channel_not_found" e ≡ true
      → view w id ≡ none
