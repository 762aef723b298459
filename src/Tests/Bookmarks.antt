-- ===== src/Tests/Bookmarks.antt =====
-- The bookmark controller over HTTP, on a Slack with one channel.
use mathlib.Core.Bool.{false≢true, and-eq-true_iff}
use text.Mathlib.TextLemmas.{cons-ne-nil}
use crossplane_provider_slac.Base.{
  ◌≡◌, ◌≢◌, refl, sym, ◌∙◌, String, Bool, true, false, ◌||◌, Option, none, some, List, ◌==◌, ◌⊎◌,
  eq_iff, if◌then◌else◌, Bool-cases, inl, inr,
}
use crossplane_provider_slac.Slack.Types.{Bookmark}
use crossplane_provider_slac.Slack.Json.{is_int64}
use crossplane_provider_slac.Slack.Form.{get}
use crossplane_provider_slac.Slack.Client.Delivery.{IsUnavailable}
use crossplane_provider_slac.Slack.Client.Assembly.{slack_client}
use crossplane_provider_slac.Slack.Client.Bookmarks.Answered.{bookmark_answer, bookmarks_answer}
use crossplane_provider_slac.Bookmark.{find_bookmark}
use crossplane_provider_slac.Bookmark.Service.{IsBookmarkService}
use crossplane_provider_slac.Bookmark.Http.{Holds, KeepsBookmarks}
use crossplane_provider_slac.Bookmark.Http.Refinement.{slack_client-IsBookmarkService}
use crossplane_provider_slac.Tests.Backend.{url_of, library_of, bot_of, server_of, delivered_by}
use crossplane_provider_slac.Tests.BookmarkServer.{
  docs, kept, Reply, reply_json, code_of, done, unknown, is_docs, body_for, respond, value_in,
  title_in, title_of, backend, view, view-eq-some, view-eq-none, kept-DatesSmall,
}

abbrev at_url : String → String → String → String → String → Bool → Reply × Bool
at_url method channel id title link w = respond (url_of method) (body_for channel id title link) w

docs-Holds :
    (title link : String) → is_docs title link ≡ true → Holds "B1" title link (some (kept true))
unfolding find_bookmark
docs-Holds title link h =
    let (t, l) = (and-eq-true_iff (title == "Docs") (link == "https://docs")).0 h in
    record {
      bookmarks = kept true;
      held = docs;
      there = refl;
      finds = refl;
      titled = rw ((eq_iff title "Docs").0 t) refl;
      linked = rw ((eq_iff link "https://docs").0 l) refl;
    }

-- What an addition answers and leaves, if it is accepted.
added :
    (channel id title link : String) (w : Bool)
    → (code_of (at_url "bookmarks.add" channel id title link w).0 == "") ≡ true
    → (b : Bookmark) × (reply_json (at_url "bookmarks.add" channel id title link w).0
        ≡ bookmark_answer b)
      × (is_int64 b.date_created ≡ true)
      × (b.id ≢ "")
      × (b.kind ≡ "link")
      × Holds b.id title link (view (at_url "bookmarks.add" channel id title link w).1 channel)
added channel id title link w = elim (Bool-cases (channel == "C1")) [
  | inr e ↦ rw e (λ o. absurd (false≢true o))
  | inl e ↦ elim (Bool-cases (id == "B1")) [
    | inl f ↦ elim (Bool-cases (is_docs title link)) [
      | inl g ↦ rw (e, f, g) (λ o. absurd (false≢true o))
      | inr g ↦ rw (e, f, g) (λ o. absurd (false≢true o))
    ]
    | inr f ↦ elim (Bool-cases (is_docs title link)) [
      | inl g ↦
          rw (e, f, g) (λ o. (docs, refl, refl, cons-ne-nil "B" "1", refl, docs-Holds title link g))
      | inr g ↦ rw (e, f, g) (λ o. absurd (false≢true o))
    ]
  ]
]

added_other :
    (channel id link : String) (w : Bool)
    → (code_of (at_url "bookmarks.add" channel id "" link w).0 == "") ≡ false
added_other channel id link w = elim (Bool-cases (channel == "C1")) [
  | inr e ↦ rw e refl
  | inl e ↦ elim (Bool-cases (id == "B1")) [ inl f ↦ rw (e, f) refl | inr f ↦ rw (e, f) refl ]
]

-- The type of a bookmark that is added is that of the request, where it is a link.
added_of_kind :
    (channel id kind title link : String) (w : Bool)
    → (code_of (at_url "bookmarks.add" channel id (title_of (some kind) title) link w).0 == "")
      ≡ true
    → (b : Bookmark) × (reply_json
          (at_url "bookmarks.add" channel id (title_of (some kind) title) link w).0
        ≡ bookmark_answer b)
      × (is_int64 b.date_created ≡ true)
      × (b.id ≢ "")
      × (b.kind ≡ kind)
      × Holds b.id title link
          (view (at_url "bookmarks.add" channel id (title_of (some kind) title) link w).1 channel)
added_of_kind channel id kind title link w = elim (Bool-cases (kind == "link")) [
  | inl e ↦ rw (e, (eq_iff kind "link").0 e) (added channel id title link w)
  | inr e ↦ rw e (λ o. absurd (false≢true (sym (added_other channel id link w) ∙ o)))
]

edited_there :
    (title link : String)
    → is_docs title link ≡ true
    → (w : Bool) → (code_of (if w then done else unknown) == "") ≡ true
    → Holds "B1" title link (some (kept w))
edited_there title link g true o = docs-Holds title link g
edited_there title link g false o = absurd (false≢true o)

-- What an edit leaves, if it is accepted.
edited :
    (channel id title link : String) (w : Bool)
    → (code_of (at_url "bookmarks.edit" channel id title link w).0 == "") ≡ true
    → Holds id title link (view (at_url "bookmarks.edit" channel id title link w).1 channel)
edited channel id title link w = elim (Bool-cases (channel == "C1")) [
  | inr e ↦ rw e (λ o. absurd (false≢true o))
  | inl e ↦ elim (Bool-cases (id == "B1")) [
    | inr f ↦ elim (Bool-cases (is_docs title link)) [
      | inl g ↦ rw (e, f, g) (λ o. absurd (false≢true o))
      | inr g ↦ rw (e, f, g) (λ o. absurd (false≢true o))
    ]
    | inl f ↦ elim (Bool-cases (is_docs title link)) [
      | inr g ↦ rw (e, f, g) (λ o. absurd (false≢true o))
      | inl g ↦
          rw ((eq_iff channel "C1").0 e, (eq_iff id "B1").0 f, g) (edited_there title link g w)
    ]
  ]
]

edited_other :
    (channel id link : String) (w : Bool)
    → (code_of (at_url "bookmarks.edit" channel id "" link w).0 == "") ≡ false
edited_other channel id link w = elim (Bool-cases (channel == "C1")) [
  | inr e ↦ rw e refl
  | inl e ↦ elim (Bool-cases (id == "B1")) [ inl f ↦ rw (e, f) refl | inr f ↦ rw (e, f) refl ]
]

edited_of_kind :
    (channel id : String) (kind : Option String) (title link : String) (w : Bool)
    → (code_of (at_url "bookmarks.edit" channel id (title_of kind title) link w).0 == "") ≡ true
    → Holds id title link
        (view (at_url "bookmarks.edit" channel id (title_of kind title) link w).1 channel)
edited_of_kind channel id none title link w = edited channel id title link w
edited_of_kind channel id (some kind) title link w = elim (Bool-cases (kind == "link")) [
  | inl e ↦ rw e (edited channel id title link w)
  | inr e ↦ rw e (λ o. absurd (false≢true (sym (edited_other channel id link w) ∙ o)))
]

-- A request that is accepted, or refused for want of the bookmark.
accepted_or_unknown :
    (code : String)
    → ((code == "") ≡ true) ⊎ (((code == "") ≡ false) × (code ≡ "bookmark_not_found"))
    → (code == "" || code == "bookmark_not_found") ≡ true
accepted_or_unknown code (inl e) = rw e refl
accepted_or_unknown code (inr (e, f)) = rw f refl

removed :
    (channel id title link : String) (w : Bool)
    → (code_of (at_url "bookmarks.remove" channel id title link w).0 == ""
        || code_of (at_url "bookmarks.remove" channel id title link w).0 == "bookmark_not_found")
      ≡ true
    → (bs : List Bookmark) × (view (at_url "bookmarks.remove" channel id title link w).1 channel
        ≡ some bs)
      × (find_bookmark id bs ≡ none)
unfolding find_bookmark
removed channel id title link w = elim (Bool-cases (channel == "C1")) [
  | inr e ↦ rw e (λ o. absurd (false≢true o))
  | inl e ↦ elim (Bool-cases (id == "B1")) [
    | inr f ↦ elim (Bool-cases (is_docs title link)) [
      | inl g ↦ rw (e, f, g) (λ o. absurd (false≢true o))
      | inr g ↦ rw (e, f, g) (λ o. absurd (false≢true o))
    ]
    | inl f ↦ elim (Bool-cases (is_docs title link)) [
      | inl g ↦ rw (e, f, g) (λ o. absurd (false≢true o))
      | inr g ↦ rw ((eq_iff channel "C1").0 e, f, g) (λ o. (kept false, refl, refl))
    ]
  ]
]

unavailable_code :
    (code : String)
    → IsUnavailable code
    → (code == "channel_not_found" || code == "is_archived") ≡ true
unavailable_code code (inl e) = rw e refl
unavailable_code code (inr e) = rw e refl

left_open :
    {A : Type 0} (w : Bool)
    → (code_of (if w then done else unknown) == "channel_not_found"
        || code_of (if w then done else unknown) == "is_archived")
      ≡ true
    → A
left_open true o = absurd (false≢true o)
left_open false o = absurd (false≢true o)

kept_closed :
    (channel id title link : String) (w : Bool)
    → (code_of (at_url "bookmarks.remove" channel id title link w).0 == "channel_not_found"
        || code_of (at_url "bookmarks.remove" channel id title link w).0 == "is_archived")
      ≡ true
    → view (at_url "bookmarks.remove" channel id title link w).1 channel ≡ none
kept_closed channel id title link w = elim (Bool-cases (channel == "C1")) [
  | inr e ↦ rw e (λ o. refl)
  | inl e ↦ elim (Bool-cases (id == "B1")) [
    | inr f ↦ elim (Bool-cases (is_docs title link)) [
      | inl g ↦ rw (e, f, g) (λ o. absurd (false≢true o))
      | inr g ↦ rw (e, f, g) (λ o. absurd (false≢true o))
    ]
    | inl f ↦ elim (Bool-cases (is_docs title link)) [
      | inl g ↦ rw (e, f, g) (λ o. absurd (false≢true o))
      | inr g ↦ rw (e, f, g) (left_open w)
    ]
  ]
]

listed_answer :
    (channel id title link : String) (w : Bool)
    → (channel == "C1") ≡ true
    → reply_json (at_url "bookmarks.list" channel id title link w).0 ≡ bookmarks_answer (kept w)
listed_answer channel id title link w e = elim (Bool-cases (id == "B1")) [
  | inl f ↦ elim (Bool-cases (is_docs title link)) [
    | inl g ↦ rw (e, f, g) refl
    | inr g ↦ rw (e, f, g) refl
  ]
  | inr f ↦ elim (Bool-cases (is_docs title link)) [
    | inl g ↦ rw (e, f, g) refl
    | inr g ↦ rw (e, f, g) refl
  ]
]

kept-bookmarks : KeepsBookmarks (server_of backend) view
kept-bookmarks = record {
  lists = λ form channel w bs g found.
      let (e, same) = view-eq-some w channel found in
      (
        rw (g, ← same)
            (listed_answer channel (value_in "bookmark_id" form) (title_in form)
              (value_in "link" form) w e),
        rw (← same) (kept-DatesSmall w),
      );
  lists_unavailable = λ form channel w g gone.
      ("channel_not_found", rw (g, view-eq-none w channel gone) refl, inl refl);
  adds = λ form channel kind title link w g k t l o.
      rw (g, k, t, l)
        (added_of_kind channel (value_in "bookmark_id" form) kind title link w
          (rw (g, k, t, l) at o));
  edits = λ form channel id title link w g i t l o.
      rw (g, i, t, l)
        (edited_of_kind channel id (get "type" form) title link w (rw (g, i, t, l) at o));
  removes = λ form channel id w g i o.
      rw (g, i)
        (removed channel id (title_in form) (value_in "link" form) w
          (accepted_or_unknown _ (rw (g, i) at o)));
  unavailable = λ form channel w g o refused. rw g (
      kept_closed channel (value_in "bookmark_id" form) (title_in form) (value_in "link" form) w
        (unavailable_code _ (rw g at refused)));
}

slack_client-IsBookmarkService_example :
    IsBookmarkService (slack_client (library_of backend) 5 (bot_of backend)) view
slack_client-IsBookmarkService_example =
    slack_client-IsBookmarkService (library_of backend) (bot_of backend) (server_of backend)
      (delivered_by backend) 5 view kept-bookmarks
