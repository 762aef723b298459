-- ===== src/Tests/Bookmark.antt =====
-- A Slack with bookmarks by channel, and the bookmark controller on it.
use text.Mathlib.TextLemmas.{cons-ne-nil}
use crossplane_provider_slac.Base.{
  String, ◌≡◌, ◌≢◌, refl, sym, ap, ◌∙◌, true, false, Option, none, some, List, [], ◌∷◌, ◌==◌,
  eq_refl, if◌then◌else◌, Bool-cases, Option-cases, inl, inr,
}
use crossplane_provider_slac.Errors.{Error, Result, ok, err, has_code}
use crossplane_provider_slac.Runtime.{absent}
use crossplane_provider_slac.Slack.Api.{ClientApi}
use crossplane_provider_slac.Tests.Fixtures.{
  test_runtime, test_runtime-IsLawful, no_api, no_kube, refusal, Table, put, session,
}
use crossplane_provider_slac.Base.Int.{pos}
use crossplane_provider_slac.Slack.Types.{Bookmark, BookmarkParams}
use crossplane_provider_slac.Bookmark.{
  State, observe, delete, find_bookmark, is_channel_unavailable, ConversationBookmarkParameters,
  resolve_conversation_id,
}
use crossplane_provider_slac.Bookmark.Service.{IsBookmarkService}
use crossplane_provider_slac.Bookmark.Lifecycle.{Names, delete-observe_bookmark}

abbrev World : Type 0
World = Table (List Bookmark)

abbrev bookmark : String → String → BookmarkParams → Bookmark
bookmark channel id p = record {
  id = id;
  channel_id = channel;
  title = p.title;
  kind = p.kind;
  link = p.link;
  date_created = pos 0;
}

without : String → List Bookmark → List Bookmark
without id [] = []
without id (b ∷ bs) = if b.id == id then without id bs else b ∷ without id bs

-- Calls on a channel, with Slack's answer for one that is missing.
abbrev at_channel :
    {A : Type 0}
    → World
    → Option (List Bookmark)
    → (List Bookmark → Result A × World)
    → Result A × World
at_channel w none f = (err (refusal "channel_not_found"), w)
at_channel w (some bs) f = f bs

abbrev test_slack : ClientApi World
test_slack = record no_api {
  add_bookmark = λ channel p w.
      at_channel w (w channel)
        (λ bs. (ok (bookmark channel "B1" p), put channel (bookmark channel "B1" p ∷ bs) w));
  list_bookmarks = λ channel w. at_channel w (w channel) (λ bs. (ok bs, w));
  edit_bookmark = λ channel id p w.
      at_channel w (w channel)
        (λ bs. (ok tt, put channel (bookmark channel id p ∷ without id bs) w));
  remove_bookmark =
      λ channel id w. at_channel w (w channel) (λ bs. (ok tt, put channel (without id bs) w));
}

put-eq : (channel : String) (bs : List Bookmark) (w : World) → put channel bs w channel ≡ some bs
put-eq channel bs w = rw (eq_refl channel) refl

find-without : (id : String) (bs : List Bookmark) → find_bookmark id (without id bs) ≡ none
unfolding find_bookmark without
find-without id [] = refl
find-without id (b ∷ bs) = elim (Bool-cases (b.id == id)) [
  | inl e ↦ rw e (find-without id bs)
  | inr e ↦ rw (e, e) (find-without id bs)
]

find_first : (b : Bookmark) (bs : List Bookmark) → find_bookmark b.id (b ∷ bs) ≡ some b
unfolding find_bookmark
find_first b bs = rw (eq_refl b.id) refl

missing_code : is_channel_unavailable (refusal "channel_not_found") ≡ true
unfolding is_channel_unavailable
missing_code = refl

ok-eq : {b c : Bookmark} → ok b ≡ ok c → b ≡ c
ok-eq h = cc

adds :
    (channel : String) (p : BookmarkParams) (w : World) (b : Bookmark)
    → (test_slack.add_bookmark channel p w).0 ≡ ok b
    → (b.id ≢ "")
      × (b.kind ≡ p.kind)
      × (bs : List Bookmark) × (h : Bookmark) × ((test_slack.add_bookmark channel p w).1 channel
          ≡ some bs)
      × (find_bookmark b.id bs ≡ some h)
      × (h.title ≡ p.title)
      × (h.link ≡ p.link)
adds channel p w b = elim (Option-cases (w channel)) [
  | inl v ↦ rw v (λ done. cc)
  | inr (bs, v) ↦
      let c = bookmark channel "B1" p in
      rw v (λ done. rw (← ok-eq done) (
        cons-ne-nil "B" "1",
        refl,
        c ∷ bs,
        c,
        put-eq channel (c ∷ bs) w,
        find_first c bs,
        refl,
        refl,
      ))
]

edits :
    (channel id : String) (p : BookmarkParams) (w : World)
    → (test_slack.edit_bookmark channel id p w).0 ≡ ok tt
    → (bs : List Bookmark) × (h : Bookmark) × ((test_slack.edit_bookmark channel id p w).1 channel
        ≡ some bs)
      × (find_bookmark id bs ≡ some h)
      × (h.title ≡ p.title)
      × (h.link ≡ p.link)
edits channel id p w = elim (Option-cases (w channel)) [
  | inl v ↦ rw v (λ done. cc)
  | inr (bs, v) ↦
      let c = bookmark channel id p in
      let cs = without id bs in
      rw v (λ done. (c ∷ cs, c, put-eq channel (c ∷ cs) w, find_first c cs, refl, refl))
]

removes :
    (channel id : String) (w : World)
    → (test_slack.remove_bookmark channel id w).0 ≡ ok tt
    → (bs : List Bookmark) × ((test_slack.remove_bookmark channel id w).1 channel ≡ some bs)
      × (find_bookmark id bs ≡ none)
removes channel id w = elim (Option-cases (w channel)) [
  | inl v ↦ rw v (λ done. cc)
  | inr (bs, v) ↦
      rw v (λ done. (without id bs, put-eq channel (without id bs) w, find-without id bs))
]

-- The only refusal of a removal is that of a missing channel.
remove-err :
    (channel id : String) (w : World) (e : Error)
    → (test_slack.remove_bookmark channel id w).0 ≡ err e
    → (w channel ≡ none)
      × ((test_slack.remove_bookmark channel id w).1 channel ≡ none)
      × (refusal "channel_not_found" ≡ e)
remove-err channel id w e = elim (Option-cases (w channel)) [
  | inl v ↦ rw v (λ failed. (refl, v, cc))
  | inr (bs, v) ↦ rw v (λ failed. cc)
]

other_code : has_code "bookmark_not_found" (refusal "channel_not_found") ≡ false
unfolding has_code
other_code = refl

true-ne-false : true ≢ false
true-ne-false h = cc

test_slack-IsBookmarkService : IsBookmarkService test_slack (λ w channel. w channel)
test_slack-IsBookmarkService = record {
  lists = λ channel w bs v. rw v refl;
  lists_unavailable = λ channel w v. (refusal "channel_not_found", rw v refl, missing_code);
  adds = adds;
  edits = λ channel id p w titled linked done. edits channel id p w done;
  removes = removes;
  not_found = λ channel id w e failed code. absurd (
      true-ne-false (
        sym code
        ∙ ap (has_code "bookmark_not_found") (sym (remove-err channel id w e failed).2)
        ∙ other_code));
  unavailable = λ channel id w e failed code. (remove-err channel id w e failed).1;
}

abbrev desired : ConversationBookmarkParameters
desired = record {
  conversation_id = some "C1";
  conversation_ref = none;
  title = "Docs";
  kind = "link";
  link = "https://a.b";
}

abbrev named : String → State test_runtime World
named name =
    session name desired (record { id = ""; channel_id = ""; date_created = pos 0 })
      (put "C1" (bookmark "C1" "B0" (record { title = "Old"; kind = "link"; link = "x" }) ∷ [])
        (λ id. none))

Names-c1 : Names test_runtime {W = World} no_kube desired "C1"
unfolding resolve_conversation_id
Names-c1 w = refl

delete_b0-ok : (delete test_runtime test_slack no_kube (named "B0")).0 ≡ ok tt
unfolding delete
delete_b0-ok = refl

delete-observe_bookmark_example :
    (observe test_runtime test_slack no_kube
      (delete test_runtime test_slack no_kube (named "B0")).1).0
    ≡ ok absent
delete-observe_bookmark_example =
    delete-observe_bookmark test_runtime test_runtime-IsLawful test_slack no_kube
      (λ w channel. w channel) test_slack-IsBookmarkService (named "B0") "C1" Names-c1
      (cons-ne-nil "C" "1") (cons-ne-nil "B" "0") delete_b0-ok
