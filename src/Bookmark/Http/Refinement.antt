-- ===== src/Bookmark/Http/Refinement.antt =====
-- The HTTP client as the service of bookmarks that the bookmark controller relies on.
use crossplane_provider_slac.Base.{
  ℕ, ◌≡◌, refl, ◌≢◌, ap, sym, ◌∙◌, String, true, false, Option, some, List, ◌⊎◌, inl, inr,
  Bool-cases, arith,
}
use crossplane_provider_slac.Base.Text.{==-eq-false}
use crossplane_provider_slac.Errors.{Error, ok, as_slack, has_code}
use crossplane_provider_slac.Slack.Types.{Bookmark, BookmarkParams}
use crossplane_provider_slac.Slack.Form.{Form, get, set, set_given}
use crossplane_provider_slac.Slack.Json.{Json}
use crossplane_provider_slac.Slack.Client.{Library, Client, accepted, refused}
use crossplane_provider_slac.Slack.Client.Delivery.{
  IsUnavailable, Server, Delivery, call_method_delivered, call_only-is_ok, call_only-world,
  call_only-eq-err,
}
use crossplane_provider_slac.Slack.Client.Assembly.{slack_client}
use crossplane_provider_slac.Slack.Client.Bookmarks.{
  add_form, list_form, bookmark_form, edit_form, add_bookmark, edit_bookmark, remove_bookmark,
}
use crossplane_provider_slac.Slack.Client.Bookmarks.Answered.{
  AnswersJson, list_bookmarks_answered, list_bookmarks_refused, add_bookmark_answered,
}
use crossplane_provider_slac.Bookmark.{is_channel_unavailable}
use crossplane_provider_slac.Bookmark.Service.{IsBookmarkService}
use crossplane_provider_slac.Bookmark.Http.{KeepsBookmarks}

-- The errors of the client that the controller takes for a channel that is not available.
unavailable-refused :
    (method code : String)
    → IsUnavailable code
    → is_channel_unavailable (refused method code) ≡ true
unfolding is_channel_unavailable as_slack
unavailable-refused method code (inl e) = rw e refl
unavailable-refused method code (inr e) = rw e refl

unavailable-has_code :
    (e : Error)
    → is_channel_unavailable e ≡ true
    → (has_code "channel_not_found" e ≡ true) ⊎ (has_code "is_archived" e ≡ true)
unfolding is_channel_unavailable has_code
unavailable-has_code e h = ground arith

ok-eq : {a b : Bookmark} → ok a ≡ ok b → a ≡ b
ok-eq p = cc

module _ {W Request : Type 0} (lib : Library W Request) (c : Client W Request) (s : Server W)
    (delivers : (method : String) (form : Form) (w : W) → Delivery lib c s method form w) where
  json_of :
      (method : String) (form : Form) (w : W) (j : Json)
      → (s.answer method form w).0 ≡ j
      → AnswersJson lib c method form w j (s.answer method form w).1
  json_of method form w j e =
      let d = delivers method form w in
      record { text = d.text; answers = d.answers; parses = d.parses ∙ ap ok e }

  refused_bookmark :
      (channel : String) (p : BookmarkParams) (w : W) (b : Bookmark)
      → (s.envelope "bookmarks.add" (add_form channel p) w).is_ok ≡ false
      → (add_bookmark lib c channel p w).0 ≢ ok b
  unfolding add_bookmark accepted
  refused_bookmark channel p w b o =
      rw (call_method_delivered lib c s delivers "bookmarks.add" (add_form channel p) w, o)
        (λ done. cc)

  -- An edit sends the title and the link, which are not empty.
  edit_form-fields :
      (channel id : String) (p : BookmarkParams)
      → p.title ≢ ""
      → p.link ≢ ""
      → (get "channel_id" (edit_form channel id p) ≡ some channel)
        × (get "bookmark_id" (edit_form channel id p) ≡ some id)
        × (get "title" (edit_form channel id p) ≡ some p.title)
        × (get "link" (edit_form channel id p) ≡ some p.link)
  unfolding edit_form bookmark_form set_given set get
  edit_form-fields channel id p t l = rw (==-eq-false t, ==-eq-false l) (refl, refl, refl, refl)

  -- If the network delivers Slack's answers, and Slack keeps the bookmarks of its channels by the
  -- methods and the forms of its API, then the HTTP client is a service of bookmarks as the bookmark
  -- controller relies on it: its forms carry what the calls were given, where an edit has a title and
  -- a link that are not empty; its bookmarks are those that Slack answers; and its errors carry the
  -- codes of the answers.
  pub slack_client-IsBookmarkService :
      (bound : ℕ) (bookmarks : W → String → Option (List Bookmark))
      → KeepsBookmarks s bookmarks
      → IsBookmarkService (slack_client lib bound c) bookmarks
  unfolding list_form add_form bookmark_form set get edit_bookmark remove_bookmark
  slack_client-IsBookmarkService bound bookmarks keeps = record {
    lists = λ channel w bs found.
        let (e, small) = keeps.lists (list_form channel) channel w bs refl found in
        ap (λ r. r.0)
          (list_bookmarks_answered lib c channel w _ bs
            (json_of "bookmarks.list" (list_form channel) w _ e) small);
    lists_unavailable = λ channel w gone.
        let (code, e, closed) = keeps.lists_unavailable (list_form channel) channel w refl gone in
        (
          refused "bookmarks.list" code,
          ap (λ r. r.0)
              (list_bookmarks_refused lib c channel code w _
                (json_of "bookmarks.list" (list_form channel) w _ e)),
          unavailable-refused "bookmarks.list" code closed,
        );
    adds = λ channel p w b done.
        elim (Bool-cases (s.envelope "bookmarks.add" (add_form channel p) w).is_ok) [
          | inl o ↦
              let (made, e, small, ne, kind, h) =
                keeps.adds (add_form channel p) channel p.kind p.title p.link w refl refl refl refl
                  o in
              let run =
                add_bookmark_answered lib c channel p w _ made
                  (json_of "bookmarks.add" (add_form channel p) w _ e) small in
              let same : made ≡ b = ok-eq (ap (λ r. r.0) (sym run) ∙ done) in
              rw (← same, run) (ne, kind, h.bookmarks, h.held, h.there, h.finds, h.titled, h.linked)
          | inr o ↦ absurd (refused_bookmark channel p w b o done)
        ];
    edits = λ channel id p w t l done.
        let form = edit_form channel id p in
        let (fc, fi, ft, fl) = edit_form-fields channel id p t l in
        let h =
          keeps.edits form channel id p.title p.link w fc fi ft fl
            (call_only-is_ok lib c s delivers "bookmarks.edit" form w done) in
        rw (call_only-world lib c s delivers "bookmarks.edit" form w)
          (h.bookmarks, h.held, h.there, h.finds, h.titled, h.linked);
    removes = λ channel id w done.
        let form = bookmark_form channel id in
        rw (call_only-world lib c s delivers "bookmarks.remove" form w) (
          keeps.removes form channel id w refl refl
            (inl (call_only-is_ok lib c s delivers "bookmarks.remove" form w done)));
    not_found = λ channel id w e failed code.
        let form = bookmark_form channel id in
        rw (call_only-world lib c s delivers "bookmarks.remove" form w) (
          keeps.removes form channel id w refl refl (
            inr (
              call_only-eq-err lib c s delivers "bookmarks.remove" "bookmark_not_found" form w e
                failed code)));
    unavailable = λ channel id w e failed code.
        let form = bookmark_form channel id in
        rw (call_only-world lib c s delivers "bookmarks.remove" form w)
          (elim (unavailable-has_code e code) [
            | inl found ↦
                let (o, x) =
                  call_only-eq-err lib c s delivers "bookmarks.remove" "channel_not_found" form w e
                    failed found in
                keeps.unavailable form channel w refl o (inl x)
            | inr found ↦
                let (o, x) =
                  call_only-eq-err lib c s delivers "bookmarks.remove" "is_archived" form w e failed
                    found in
                keeps.unavailable form channel w refl o (inr x)
          ]);
  }
