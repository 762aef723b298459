-- ===== src/Slack/Client/Bookmarks/Answered.antt =====
-- internal/clients/slack/bookmarks.go: ListBookmarks and AddBookmark over the answers of Slack.
use crossplane_provider_slac.Base.{◌≡◌, refl, String, true, some, List, [], ◌∷◌, map}
use crossplane_provider_slac.Errors.{ok, err}
use crossplane_provider_slac.Slack.Types.{Bookmark, BookmarkParams}
use crossplane_provider_slac.Slack.Json.{
  Json, boolean, number, string, array, object, end, member, items, members_of, field, same_key,
  string_of, bool_of, int64_of, is_int64, list_of, read_all,
}
use crossplane_provider_slac.Slack.Json.Decode.{decode_bookmark}
use crossplane_provider_slac.Slack.Json.Encode.{array_of, error_answer}
use crossplane_provider_slac.Slack.Form.{Form}
use crossplane_provider_slac.Slack.Client.{
  Library, Client, decode_envelope, accepted, check_answer, refused,
}
use crossplane_provider_slac.Slack.Client.Laws.{Answers, call_method_answered}
use crossplane_provider_slac.Slack.Client.Conversations.{unmarshal}
use crossplane_provider_slac.Slack.Client.Bookmarks.{
  bookmark_of, bookmarks_of, add_form, list_form, add_bookmark, list_bookmarks,
}

-- The JSON that Slack's documentation gives for a bookmark.
abbrev pub bookmark_json : Bookmark → Json
bookmark_json b = object (
    member "id" (string b.id) (
      member "channel_id" (string b.channel_id) (
        member "title" (string b.title) (
          member "link" (string b.link) (
            member "emoji" (string "") (
              member "type" (string b.kind)
                (member "date_created" (number b.date_created) end)))))))

-- The answer of bookmarks.add.
abbrev pub bookmark_answer : Bookmark → Json
bookmark_answer b = object (member "ok" (boolean true) (member "bookmark" (bookmark_json b) end))

-- The answer of bookmarks.list.
abbrev pub bookmarks_answer : List Bookmark → Json
bookmarks_answer bs =
    object (
      member "ok" (boolean true) (member "bookmarks" (array (array_of (map bookmark_json bs))) end))

-- The dates fit into an int64.
pub data DatesSmall : List Bookmark → Type 0 where
  no_bookmarks : DatesSmall []
  one_bookmark :
      (b : Bookmark) (rest : List Bookmark)
      → is_int64 b.date_created ≡ true
      → DatesSmall rest
      → DatesSmall (b ∷ rest)

decode_bookmark_json :
    (b : Bookmark) → is_int64 b.date_created ≡ true → decode_bookmark (bookmark_json b) ≡ ok b
unfolding decode_bookmark members_of field same_key string_of int64_of
decode_bookmark_json b s = rw s refl

read_all_bookmarks :
    (bs : List Bookmark)
    → DatesSmall bs
    → read_all decode_bookmark (items (array_of (map bookmark_json bs))) ≡ ok bs
unfolding read_all
read_all_bookmarks _ no_bookmarks = refl
read_all_bookmarks _ (one_bookmark b rest s all) =
    rw (decode_bookmark_json b s, read_all_bookmarks rest all) refl

module _ {W Request : Type 0} (lib : Library W Request) (c : Client W Request) where
  -- Slack answers a method and a form with the JSON value.
  pub record AnswersJson (method : String) (form : Form) (w : W) (answer : Json) (after : W)
      : Type 0 where
    pub text : String
    pub answers : Answers lib c method (some form) w text after
    pub parses : lib.parse_json text ≡ ok answer

  pub list_bookmarks_answered :
      (channel : String) (w after : W) (bs : List Bookmark)
      → AnswersJson "bookmarks.list" (list_form channel) w (bookmarks_answer bs) after
      → DatesSmall bs
      → list_bookmarks lib c channel w ≡ (ok bs, after)
  unfolding list_bookmarks check_answer accepted decode_envelope bookmarks_of members_of field
      same_key string_of bool_of list_of unmarshal
  list_bookmarks_answered channel w after bs a small =
      rw
        (
          call_method_answered lib c "bookmarks.list" (some (list_form channel)) w after a.text
              a.answers,
          a.parses,
          a.parses,
          read_all_bookmarks bs small,
        )
        refl

  pub list_bookmarks_refused :
      (channel code : String) (w after : W)
      → AnswersJson "bookmarks.list" (list_form channel) w (error_answer code) after
      → list_bookmarks lib c channel w ≡ (err (refused "bookmarks.list" code), after)
  unfolding list_bookmarks check_answer accepted decode_envelope members_of field same_key string_of
      bool_of
  list_bookmarks_refused channel code w after a =
      rw
        (
          call_method_answered lib c "bookmarks.list" (some (list_form channel)) w after a.text
              a.answers,
          a.parses,
        )
        refl

  pub add_bookmark_answered :
      (channel : String) (p : BookmarkParams) (w after : W) (b : Bookmark)
      → AnswersJson "bookmarks.add" (add_form channel p) w (bookmark_answer b) after
      → is_int64 b.date_created ≡ true
      → add_bookmark lib c channel p w ≡ (ok b, after)
  unfolding add_bookmark check_answer accepted decode_envelope bookmark_of members_of field same_key
      string_of bool_of unmarshal
  add_bookmark_answered channel p w after b a small =
      rw
        (
          call_method_answered lib c "bookmarks.add" (some (add_form channel p)) w after a.text
              a.answers,
          a.parses,
          a.parses,
          decode_bookmark_json b small,
        )
        refl
