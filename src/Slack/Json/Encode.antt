-- ===== src/Slack/Json/Encode.antt =====
-- The JSON that Slack's documentation gives for the objects of internal/clients/slack/types.go, as a
-- reference for the decoding.
use crossplane_provider_slac.Base.{◌≡◌, refl, String, true, false, List, [], ◌∷◌, map}
use crossplane_provider_slac.Base.Int.{ℤ}
use crossplane_provider_slac.Errors.{ok}
use crossplane_provider_slac.Slack.Types.{Conversation, UserGroup}
use crossplane_provider_slac.Slack.Json.{
  Json, boolean, number, string, array, object, Items, nil, cons, end, member, items, same_key,
  field, members_of, string_of, bool_of, int64_of, is_int64, read_all,
}
use crossplane_provider_slac.Slack.Json.Decode.{
  decode_topic, decode_conversation, decode_user_group,
}

abbrev pub topic_json : String → Json
topic_json value = object (member "value" (string value) (member "creator" (string "U1") end))

abbrev pub conversation_json : Conversation → Json
conversation_json c = object (
    member "id" (string c.id) (
      member "name" (string c.name) (
        member "is_channel" (boolean true) (
          member "is_private" (boolean c.is_private) (
            member "is_archived" (boolean c.is_archived) (
              member "created" (number c.created) (
                member "topic" (topic_json c.topic.value) (
                  member "purpose" (topic_json c.purpose.value)
                    (member "num_members" (number c.num_members) end)))))))))

-- The answer of conversations.create and conversations.info.
abbrev pub channel_answer : Conversation → Json
channel_answer c = object (member "ok" (boolean true) (member "channel" (conversation_json c) end))

-- The answer of a method that fails.
abbrev pub error_answer : String → Json
error_answer code = object (member "ok" (boolean false) (member "error" (string code) end))

abbrev pub array_of : List Json → Items
array_of [] = nil
array_of (v ∷ vs) = cons v (array_of vs)

-- A page of conversations.list.
abbrev pub channels_answer : List Conversation → String → Json
channels_answer cs next = object (
    member "ok" (boolean true) (
      member "channels" (array (array_of (map conversation_json cs)))
        (member "response_metadata" (object (member "next_cursor" (string next) end)) end)))

-- A user group, whose `is_usergroup` is the field IsEnabled, with the date at which it was disabled.
abbrev pub user_group_json : UserGroup × ℤ → Json
user_group_json (g, date_delete) = object (
    member "id" (string g.id) (
      member "is_usergroup" (boolean g.is_enabled) (
        member "name" (string g.name) (
          member "description" (string g.description) (
            member "handle" (string g.handle) (
              member "date_create" (number g.date_create) (
                member "date_delete" (number date_delete)
                  (member "created_by" (string g.created_by) end))))))))

-- A page of conversations.members.
abbrev pub members_answer : List String → String → Json
members_answer ids next = object (
    member "ok" (boolean true) (
      member "members" (array (array_of (map string ids)))
        (member "response_metadata" (object (member "next_cursor" (string next) end)) end)))

-- The answer of usergroups.list.
abbrev pub user_groups_answer : List (UserGroup × ℤ) → Json
user_groups_answer gs = object (
    member "ok" (boolean true)
      (member "usergroups" (array (array_of (map user_group_json gs))) end))

-- The integers of a conversation fit into an int64.
pub record IsSmall (c : Conversation) : Type 0 where
  pub num_members : is_int64 c.num_members ≡ true
  pub created : is_int64 c.created ≡ true

pub decode_conversation_json :
    (c : Conversation) → IsSmall c → decode_conversation (conversation_json c) ≡ ok c
unfolding decode_conversation decode_topic members_of field same_key string_of bool_of int64_of
decode_conversation_json c s = rw (s.num_members, s.created) refl

-- All the conversations of a list are small.
pub data AllSmall : List Conversation → Type 0 where
  none_left : AllSmall []
  one_more :
      (c : Conversation) (cs : List Conversation) → IsSmall c → AllSmall cs → AllSmall (c ∷ cs)

pub read_all_conversations :
    (cs : List Conversation)
    → AllSmall cs
    → read_all decode_conversation (items (array_of (map conversation_json cs))) ≡ ok cs
unfolding read_all
read_all_conversations _ none_left = refl
read_all_conversations _ (one_more c cs s all) =
    rw (decode_conversation_json c s, read_all_conversations cs all) refl

-- The dates of creation fit into an int64.
pub data DatesSmall : List (UserGroup × ℤ) → Type 0 where
  no_dates : DatesSmall []
  one_date :
      (g : UserGroup) (d : ℤ) (gs : List (UserGroup × ℤ))
      → is_int64 g.date_create ≡ true
      → DatesSmall gs
      → DatesSmall ((g, d) ∷ gs)

pub decode_user_group_json :
    (g : UserGroup) (d : ℤ)
    → is_int64 g.date_create ≡ true
    → decode_user_group (user_group_json (g, d)) ≡ ok g
unfolding decode_user_group members_of field same_key string_of bool_of int64_of
decode_user_group_json g d s = rw s refl

pub read_all_groups :
    (gs : List (UserGroup × ℤ))
    → DatesSmall gs
    → read_all decode_user_group (items (array_of (map user_group_json gs)))
      ≡ ok (map (λ p. p.0) gs)
unfolding read_all
read_all_groups _ no_dates = refl
read_all_groups _ (one_date g d gs s all) =
    rw (decode_user_group_json g d s, read_all_groups gs all) refl

pub read_all_strings :
    (ids : List String) → read_all string_of (items (array_of (map string ids))) ≡ ok ids
unfolding read_all string_of
read_all_strings [] = refl
read_all_strings (id ∷ ids) = rw (read_all_strings ids) refl
