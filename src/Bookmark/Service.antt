-- ===== src/Bookmark/Service.antt =====
-- What Slack promises of bookmarks, as far as the bookmark controller relies on it.
use crossplane_provider_slac.Base.{String, ◌≡◌, ◌≢◌, true, Option, none, some, List}
use crossplane_provider_slac.Errors.{Error, ok, err, has_code}
use crossplane_provider_slac.Slack.Api.{ClientApi}
use crossplane_provider_slac.Slack.Types.{Bookmark, BookmarkParams}
use crossplane_provider_slac.Bookmark.{find_bookmark, is_channel_unavailable}

-- `bookmarks` is Slack's list of bookmarks of a channel; a channel that is missing or archived has
-- `none`.
pub record IsBookmarkService {W : Type 0} (api : ClientApi W)
    (bookmarks : W → String → Option (List Bookmark)) : Type 0 where
  pub lists :
      (channel : String) (w : W) (bs : List Bookmark)
      → bookmarks w channel ≡ some bs
      → (api.list_bookmarks channel w).0 ≡ ok bs
  pub lists_unavailable :
      (channel : String) (w : W)
      → bookmarks w channel ≡ none
      → (e : Error) × ((api.list_bookmarks channel w).0 ≡ err e) × (is_channel_unavailable e ≡ true)
  pub adds :
      (channel : String) (p : BookmarkParams) (w : W) (b : Bookmark)
      → (api.add_bookmark channel p w).0 ≡ ok b
      → (b.id ≢ "")
        × (b.kind ≡ p.kind)
        × (bs : List Bookmark) × (h : Bookmark) × (bookmarks
              (api.add_bookmark channel p w).1
              channel
            ≡ some bs)
        × (find_bookmark b.id bs ≡ some h)
        × (h.title ≡ p.title)
        × (h.link ≡ p.link)
  pub edits :
      (channel id : String) (p : BookmarkParams) (w : W)
      → p.title ≢ ""
      → p.link ≢ ""
      → (api.edit_bookmark channel id p w).0 ≡ ok tt
      → (bs : List Bookmark) × (h : Bookmark) × (bookmarks
            (api.edit_bookmark channel id p w).1
            channel
          ≡ some bs)
        × (find_bookmark id bs ≡ some h)
        × (h.title ≡ p.title)
        × (h.link ≡ p.link)
  pub removes :
      (channel id : String) (w : W)
      → (api.remove_bookmark channel id w).0 ≡ ok tt
      → (bs : List Bookmark) × (bookmarks (api.remove_bookmark channel id w).1 channel ≡ some bs)
        × (find_bookmark id bs ≡ none)
  pub not_found :
      (channel id : String) (w : W) (e : Error)
      → (api.remove_bookmark channel id w).0 ≡ err e
      → has_code "bookmark_not_found" e ≡ true
      → (bs : List Bookmark) × (bookmarks (api.remove_bookmark channel id w).1 channel ≡ some bs)
        × (find_bookmark id bs ≡ none)
  pub unavailable :
      (channel id : String) (w : W) (e : Error)
      → (api.remove_bookmark channel id w).0 ≡ err e
      → is_channel_unavailable e ≡ true
      → bookmarks (api.remove_bookmark channel id w).1 channel ≡ none
