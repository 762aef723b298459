-- ===== src/Slack/Client/Bookmarks.antt =====
-- internal/clients/slack/bookmarks.go
pub mod Answered
use crossplane_provider_slac.Base.{String, some, List, []}
use crossplane_provider_slac.Errors.{Result, wrap}
use crossplane_provider_slac.Act.{Act, ◌>>=◌, or_wrap}
use crossplane_provider_slac.Slack.Types.{Bookmark, BookmarkParams}
use crossplane_provider_slac.Slack.Json
use crossplane_provider_slac.Slack.Json.{Json, field, members_of, list_of}
use crossplane_provider_slac.Slack.Json.Decode.{decode_bookmark}
use crossplane_provider_slac.Slack.Form.{Form, set, set_given}
use crossplane_provider_slac.Slack.Client.{Library, Client, call_method}
use crossplane_provider_slac.Slack.Client.Conversations.{unmarshal, call_only}

unfoldable pub add_form : String → BookmarkParams → Form
add_form channel p =
    set "link" p.link (set "type" p.kind (set "title" p.title (set "channel_id" channel [])))

unfoldable pub list_form : String → Form
list_form channel = set "channel_id" channel []

unfoldable pub bookmark_form : String → String → Form
bookmark_form channel id = set "bookmark_id" id (set "channel_id" channel [])

-- An empty title or link is not sent.
unfoldable pub edit_form : String → String → BookmarkParams → Form
unfolding bookmark_form set_given
edit_form channel id p =
    set_given "link" p.link (set_given "title" p.title (bookmark_form channel id))

unfoldable pub bookmark_of : Json → Result Bookmark
unfolding decode_bookmark
bookmark_of j = Json.bind (members_of j) λ ms. decode_bookmark (field "bookmark" ms)

unfoldable pub bookmarks_of : Json → Result (List Bookmark)
unfolding decode_bookmark
bookmarks_of j = Json.bind (members_of j) λ ms. list_of decode_bookmark (field "bookmarks" ms)

module _ {W Request : Type 0} (lib : Library W Request) (c : Client W Request) where
  unfoldable pub add_bookmark : String → BookmarkParams → Act W Bookmark
  unfolding add_form bookmark_of unmarshal
  add_bookmark channel p = do
    raw ← call_method lib c "bookmarks.add" (some (add_form channel p))
    or_wrap (unmarshal lib c bookmark_of raw) (wrap "parsing bookmarks.add response")

  unfoldable pub list_bookmarks : String → Act W (List Bookmark)
  unfolding bookmarks_of unmarshal list_form
  list_bookmarks channel = do
    raw ← call_method lib c "bookmarks.list" (some (list_form channel))
    or_wrap (unmarshal lib c bookmarks_of raw) (wrap "parsing bookmarks.list response")

  unfoldable pub edit_bookmark : String → String → BookmarkParams → Act W (Unit {0})
  unfolding edit_form call_only
  edit_bookmark channel id p = call_only lib c "bookmarks.edit" (edit_form channel id p)

  unfoldable pub remove_bookmark : String → String → Act W (Unit {0})
  unfolding bookmark_form call_only
  remove_bookmark channel id = call_only lib c "bookmarks.remove" (bookmark_form channel id)
