-- ===== src/Slack/Client/Conversations/Info.antt =====
-- internal/clients/slack/conversations.go: GetConversationInfo over the answers of Slack.
use crossplane_provider_slac.Base.{◌≡◌, refl, String, some}
use crossplane_provider_slac.Errors.{ok, err}
use crossplane_provider_slac.Slack.Types.{Conversation}
use crossplane_provider_slac.Slack.Json.{Json, members_of, field, same_key, string_of, bool_of}
use crossplane_provider_slac.Slack.Json.Encode.{
  channel_answer, error_answer, IsSmall, decode_conversation_json,
}
use crossplane_provider_slac.Slack.Client.{
  Library, Client, decode_envelope, accepted, check_answer, refused,
}
use crossplane_provider_slac.Slack.Client.Laws.{Answers, call_method_answered}
use crossplane_provider_slac.Slack.Client.Conversations.{
  channel_form, channel_of, get_conversation_info, unmarshal,
}

module _ {W Request : Type 0} (lib : Library W Request) (c : Client W Request) where
  -- Slack answers conversations.info for a channel with the JSON value.
  pub record AnswersInfo (id : String) (w : W) (answer : Json) (after : W) : Type 0 where
    pub text : String
    pub answers : Answers lib c "conversations.info" (some (channel_form id)) w text after
    pub parses : lib.parse_json text ≡ ok answer

  pub get_conversation_info_answered :
      (id : String) (w after : W) (conv : Conversation)
      → AnswersInfo id w (channel_answer conv) after
      → IsSmall conv
      → get_conversation_info lib c id w ≡ (ok conv, after)
  unfolding get_conversation_info check_answer accepted decode_envelope channel_of members_of field
      same_key string_of bool_of unmarshal
  get_conversation_info_answered id w after conv a s =
      rw
        (
          call_method_answered lib c "conversations.info" (some (channel_form id)) w after a.text
              a.answers,
          a.parses,
          a.parses,
          decode_conversation_json conv s,
        )
        refl

  pub get_conversation_info_refused :
      (id code : String) (w after : W)
      → AnswersInfo id w (error_answer code) after
      → get_conversation_info lib c id w ≡ (err (refused "conversations.info" code), after)
  unfolding get_conversation_info check_answer accepted decode_envelope members_of field same_key
      string_of bool_of
  get_conversation_info_refused id code w after a =
      rw
        (
          call_method_answered lib c "conversations.info" (some (channel_form id)) w after a.text
              a.answers,
          a.parses,
        )
        refl
