-- ===== src/Bookmark/Http.antt =====
-- The API of Slack for bookmarks, as the methods of internal/clients/slack/bookmarks.go use it.
pub mod Refinement
use crossplane_provider_slac.Base.{◌≡◌, ◌≢◌, String, true, false, Option, none, some, List, ◌⊎◌}
use crossplane_provider_slac.Slack.Types.{Bookmark}
use crossplane_provider_slac.Slack.Form.{Form, get}
use crossplane_provider_slac.Slack.Json.{is_int64}
use crossplane_provider_slac.Slack.Json.Encode.{error_answer}
use crossplane_provider_slac.Slack.Client.Delivery.{Server, IsUnavailable}
use crossplane_provider_slac.Slack.Client.Bookmarks.Answered.{
  bookmark_answer, bookmarks_answer, DatesSmall,
}
use crossplane_provider_slac.Bookmark.{find_bookmark}

-- A bookmark of the list has this ID, title and link.
pub record Holds (id title link : String) (found : Option (List Bookmark)) : Type 0 where
  pub bookmarks : List Bookmark
  pub held : Bookmark
  pub there : found ≡ some bookmarks
  pub finds : find_bookmark id bookmarks ≡ some held
  pub titled : held.title ≡ title
  pub linked : held.link ≡ link

-- What Slack keeps of bookmarks, by the methods and the forms of its API: `bookmarks` are those of a
-- channel, and a channel that is missing or archived has `none`.
pub record KeepsBookmarks {W : Type 0} (s : Server W)
    (bookmarks : W → String → Option (List Bookmark)) : Type 0 where
  pub lists :
      (form : Form) (channel : String) (w : W) (bs : List Bookmark)
      → get "channel_id" form ≡ some channel
      → bookmarks w channel ≡ some bs
      → ((s.answer "bookmarks.list" form w).0 ≡ bookmarks_answer bs) × DatesSmall bs
  pub lists_unavailable :
      (form : Form) (channel : String) (w : W)
      → get "channel_id" form ≡ some channel
      → bookmarks w channel ≡ none
      → (code : String) × ((s.answer "bookmarks.list" form w).0 ≡ error_answer code)
        × IsUnavailable code
  pub adds :
      (form : Form) (channel kind title link : String) (w : W)
      → get "channel_id" form ≡ some channel
      → get "type" form ≡ some kind
      → get "title" form ≡ some title
      → get "link" form ≡ some link
      → (s.envelope "bookmarks.add" form w).is_ok ≡ true
      → (b : Bookmark) × ((s.answer "bookmarks.add" form w).0 ≡ bookmark_answer b)
        × (is_int64 b.date_created ≡ true)
        × (b.id ≢ "")
        × (b.kind ≡ kind)
        × Holds b.id title link (bookmarks (s.answer "bookmarks.add" form w).1 channel)
  pub edits :
      (form : Form) (channel id title link : String) (w : W)
      → get "channel_id" form ≡ some channel
      → get "bookmark_id" form ≡ some id
      → get "title" form ≡ some title
      → get "link" form ≡ some link
      → (s.envelope "bookmarks.edit" form w).is_ok ≡ true
      → Holds id title link (bookmarks (s.answer "bookmarks.edit" form w).1 channel)
  pub removes :
      (form : Form) (channel id : String) (w : W)
      → get "channel_id" form ≡ some channel
      → get "bookmark_id" form ≡ some id
      → ((s.envelope "bookmarks.remove" form w).is_ok ≡ true)
        ⊎ (((s.envelope "bookmarks.remove" form w).is_ok ≡ false)
            × ((s.envelope "bookmarks.remove" form w).error ≡ "bookmark_not_found"))
      → (bs : List Bookmark) × (bookmarks (s.answer "bookmarks.remove" form w).1 channel ≡ some bs)
        × (find_bookmark id bs ≡ none)
  pub unavailable :
      (form : Form) (channel : String) (w : W)
      → get "channel_id" form ≡ some channel
      → (s.envelope "bookmarks.remove" form w).is_ok ≡ false
      → IsUnavailable (s.envelope "bookmarks.remove" form w).error
      → bookmarks (s.answer "bookmarks.remove" form w).1 channel ≡ none
