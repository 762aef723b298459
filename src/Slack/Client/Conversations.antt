-- ===== src/Slack/Client/Conversations.antt =====
-- internal/clients/slack/conversations.go, but for the two methods that read page by page.
pub mod Info
use crossplane_provider_slac.Base.{String, Bool, true, false, some, [], if◌then◌else◌}
use crossplane_provider_slac.Errors.{Error, Result, ok, err, wrap}
use crossplane_provider_slac.Act.{Act, pure, ◌>>=◌, or_wrap}
use crossplane_provider_slac.Slack.Types.{Conversation}
use crossplane_provider_slac.Slack.Json
use crossplane_provider_slac.Slack.Json.{Json, field, members_of}
use crossplane_provider_slac.Slack.Json.Decode.{decode_conversation}
use crossplane_provider_slac.Slack.Form.{Form, set}
use crossplane_provider_slac.Slack.Client.{Library, Client, call_method}

-- The channel of an answer.
unfoldable pub channel_of : Json → Result Conversation
unfolding decode_conversation
channel_of j = Json.bind (members_of j) λ ms. decode_conversation (field "channel" ms)

unfoldable pub create_form : String → Bool → Form
create_form name is_private =
    set "is_private" (if is_private then "true" else "false") (set "name" name [])

unfoldable pub channel_form : String → Form
channel_form channel = set "channel" channel []

module _ {W Request : Type 0} (lib : Library W Request) (c : Client W Request) where
  -- json.Unmarshal(raw, &resp)
  unfoldable pub unmarshal : {A : Type 0} → (Json → Result A) → String → Act W A
  unmarshal decode text w = (Json.bind (lib.parse_json text) decode, w)

  -- A call whose answer is not read.
  unfoldable pub call_only : String → Form → Act W (Unit {0})
  call_only method params = do raw ← call_method lib c method (some params); pure tt

  unfoldable pub create_conversation : String → Bool → Act W Conversation
  unfolding create_form channel_of unmarshal
  create_conversation name is_private = do
    raw ← call_method lib c "conversations.create" (some (create_form name is_private))
    or_wrap (unmarshal channel_of raw) (wrap "parsing conversations.create response")

  unfoldable pub get_conversation_info : String → Act W Conversation
  unfolding channel_form channel_of unmarshal
  get_conversation_info channel = do
    raw ← call_method lib c "conversations.info" (some (channel_form channel))
    or_wrap (unmarshal channel_of raw) (wrap "parsing conversations.info response")

  unfoldable pub rename_conversation : String → String → Act W (Unit {0})
  unfolding call_only
  rename_conversation channel name =
      call_only "conversations.rename" (set "name" name (channel_form channel))

  unfoldable pub set_conversation_topic : String → String → Act W (Unit {0})
  unfolding call_only
  set_conversation_topic channel topic =
      call_only "conversations.setTopic" (set "topic" topic (channel_form channel))

  unfoldable pub set_conversation_purpose : String → String → Act W (Unit {0})
  unfolding call_only
  set_conversation_purpose channel purpose =
      call_only "conversations.setPurpose" (set "purpose" purpose (channel_form channel))

  unfoldable pub archive_conversation : String → Act W (Unit {0})
  unfolding call_only
  archive_conversation channel = call_only "conversations.archive" (channel_form channel)

  unfoldable pub join_conversation : String → Act W (Unit {0})
  unfolding call_only
  join_conversation channel = call_only "conversations.join" (channel_form channel)

  unfoldable pub invite_to_conversation : String → String → Act W (Unit {0})
  unfolding call_only
  invite_to_conversation channel user =
      call_only "conversations.invite" (set "users" user (channel_form channel))

  unfoldable pub kick_from_conversation : String → String → Act W (Unit {0})
  unfolding call_only
  kick_from_conversation channel user =
      call_only "conversations.kick" (set "user" user (channel_form channel))
