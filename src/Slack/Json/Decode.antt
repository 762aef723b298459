-- ===== src/Slack/Json/Decode.antt =====
-- internal/clients/slack/types.go: the fields of the structs by their JSON tags.
use crossplane_provider_slac.Errors.{Result, ok}
use crossplane_provider_slac.Slack.Json.{
  Json, ◌>>=◌, field, members_of, string_of, bool_of, int64_of,
}
use crossplane_provider_slac.Slack.Types.{
  Topic, Conversation, Bookmark, Message, UserGroup, UserProfile, User,
}

unfoldable pub decode_topic : Json → Result Topic
decode_topic j = do
  ms ← members_of j
  value ← string_of (field "value" ms)
  ok (record { value = value })

unfoldable pub decode_conversation : Json → Result Conversation
unfolding decode_topic
decode_conversation j = do
  ms ← members_of j
  id ← string_of (field "id" ms)
  name ← string_of (field "name" ms)
  is_private ← bool_of (field "is_private" ms)
  is_archived ← bool_of (field "is_archived" ms)
  topic ← decode_topic (field "topic" ms)
  purpose ← decode_topic (field "purpose" ms)
  num_members ← int64_of (field "num_members" ms)
  created ← int64_of (field "created" ms)
  ok (record {
    id = id;
    name = name;
    is_private = is_private;
    is_archived = is_archived;
    topic = topic;
    purpose = purpose;
    num_members = num_members;
    created = created;
  })

unfoldable pub decode_bookmark : Json → Result Bookmark
decode_bookmark j = do
  ms ← members_of j
  id ← string_of (field "id" ms)
  channel_id ← string_of (field "channel_id" ms)
  title ← string_of (field "title" ms)
  kind ← string_of (field "type" ms)
  link ← string_of (field "link" ms)
  date_created ← int64_of (field "date_created" ms)
  ok (record {
    id = id;
    channel_id = channel_id;
    title = title;
    kind = kind;
    link = link;
    date_created = date_created;
  })

unfoldable pub decode_message : Json → Result Message
decode_message j = do ms ← members_of j; ts ← string_of (field "ts" ms); ok (record { ts = ts })

unfoldable pub decode_user_group : Json → Result UserGroup
decode_user_group j = do
  ms ← members_of j
  id ← string_of (field "id" ms)
  name ← string_of (field "name" ms)
  handle ← string_of (field "handle" ms)
  description ← string_of (field "description" ms)
  is_enabled ← bool_of (field "is_usergroup" ms)
  created_by ← string_of (field "created_by" ms)
  date_create ← int64_of (field "date_create" ms)
  ok (record {
    id = id;
    name = name;
    handle = handle;
    description = description;
    is_enabled = is_enabled;
    created_by = created_by;
    date_create = date_create;
  })

unfoldable pub decode_profile : Json → Result UserProfile
decode_profile j = do
  ms ← members_of j
  email ← string_of (field "email" ms)
  ok (record { email = email })

unfoldable pub decode_user : Json → Result User
unfolding decode_profile
decode_user j = do
  ms ← members_of j
  id ← string_of (field "id" ms)
  profile ← decode_profile (field "profile" ms)
  ok (record { id = id; profile = profile })
