-- ===== src/Conversation/Http.antt =====
-- The API of Slack for channels, as the methods of internal/clients/slack/conversations.go use it.
pub mod Refinement
pub mod EndToEnd
use crossplane_provider_slac.Base.{
  ℕ, ◌≡◌, refl, ◌≢◌, ap, sym, ◌∙◌, String, Bool, true, false, Option, none, some, Bool-cases,
  if◌then◌else◌, inl, inr,
}
use crossplane_provider_slac.Errors.{ok, has_code}
use crossplane_provider_slac.Slack.Types.{Conversation}
use crossplane_provider_slac.Slack.Json.{Json, members_of, field, same_key, string_of, bool_of}
use crossplane_provider_slac.Slack.Json.Encode.{
  channel_answer, error_answer, IsSmall, decode_conversation_json,
}
use crossplane_provider_slac.Slack.Form.{Form, get, set}
use crossplane_provider_slac.Slack.Client.{Library, Client, accepted, refused}
use crossplane_provider_slac.Slack.Client.Conversations.{
  call_only, channel_of, unmarshal, create_form, channel_form, create_conversation,
  get_conversation_info, rename_conversation, set_conversation_topic, set_conversation_purpose,
  archive_conversation, join_conversation,
}
use crossplane_provider_slac.Slack.Client.Conversations.Info.{
  AnswersInfo, get_conversation_info_answered, get_conversation_info_refused,
}
use crossplane_provider_slac.Slack.Client.Delivery.{
  Server, Delivery, call_method_delivered, call_only_delivered, call_only-is_ok, call_only-world,
  outcome-eq-err,
}
use crossplane_provider_slac.Slack.Client.Assembly.{slack_client}
use crossplane_provider_slac.Conversation.{is_channel_id}
use crossplane_provider_slac.Conversation.Service
use crossplane_provider_slac.Conversation.Service.{Channel, new_channel, IsChannelService}

-- What Slack keeps of channels, by the methods and the forms of its API: `view` is its table of
-- channels, and `stored` the form in which it keeps texts.
pub record KeepsChannels {W : Type 0} (s : Server W) (view : W → String → Option Channel)
    (stored : String → String) : Type 0 where
  pub info_found :
      (form : Form) (id : String) (w : W) (ch : Channel)
      → get "channel" form ≡ some id
      → view w id ≡ some ch
      → (c : Conversation) × ((s.answer "conversations.info" form w).0 ≡ channel_answer c)
        × IsSmall c
        × (Service.channel_of c ≡ ch)
  pub info_missing :
      (form : Form) (id : String) (w : W)
      → get "channel" form ≡ some id
      → view w id ≡ none
      → (s.answer "conversations.info" form w).0 ≡ error_answer "channel_not_found"
  pub info_keeps :
      (form : Form) (id : String) (w : W)
      → view (s.answer "conversations.info" form w).1 id ≡ view w id
  pub join_keeps :
      (form : Form) (id : String) (w : W)
      → get "channel" form ≡ some id
      → view (s.answer "conversations.join" form w).1 id ≡ view w id
  pub creates :
      (form : Form) (name : String) (private : Bool) (w : W)
      → get "name" form ≡ some name
      → get "is_private" form ≡ some (if private then "true" else "false")
      → (s.envelope "conversations.create" form w).is_ok ≡ true
      → (c : Conversation) × ((s.answer "conversations.create" form w).0 ≡ channel_answer c)
        × IsSmall c
        × (c.is_private ≡ private)
        × (c.id ≢ "")
        × (is_channel_id c.id ≡ true)
        × (view (s.answer "conversations.create" form w).1 c.id ≡ some (new_channel name))
  pub renames :
      (form : Form) (id name : String) (w : W) (ch : Channel)
      → get "channel" form ≡ some id
      → get "name" form ≡ some name
      → view w id ≡ some ch
      → (s.envelope "conversations.rename" form w).is_ok ≡ true
      → view (s.answer "conversations.rename" form w).1 id ≡ some (record ch { name = name })
  pub sets_topic :
      (form : Form) (id topic : String) (w : W) (ch : Channel)
      → get "channel" form ≡ some id
      → get "topic" form ≡ some topic
      → view w id ≡ some ch
      → (s.envelope "conversations.setTopic" form w).is_ok ≡ true
      → view (s.answer "conversations.setTopic" form w).1 id
        ≡ some (record ch { topic = stored topic })
  pub sets_purpose :
      (form : Form) (id purpose : String) (w : W) (ch : Channel)
      → get "channel" form ≡ some id
      → get "purpose" form ≡ some purpose
      → view w id ≡ some ch
      → (s.envelope "conversations.setPurpose" form w).is_ok ≡ true
      → view (s.answer "conversations.setPurpose" form w).1 id
        ≡ some (record ch { purpose = stored purpose })
  pub archives :
      (form : Form) (id : String) (w : W) (ch : Channel)
      → get "channel" form ≡ some id
      → view w id ≡ some ch
      → (s.envelope "conversations.archive" form w).is_ok ≡ true
      → view (s.answer "conversations.archive" form w).1 id ≡ some (record ch { archived = true })
  pub archives_missing :
      (form : Form) (id : String) (w : W)
      → view w id ≡ none
      → view (s.answer "conversations.archive" form w).1 id ≡ none
  pub archive_not_found :
      (form : Form) (id : String) (w : W)
      → get "channel" form ≡ some id
      → (s.envelope "conversations.archive" form w).is_ok ≡ false
      → (s.envelope "conversations.archive" form w).error ≡ "channel_not_found"
      → view w id ≡ none
