-- ===== src/Tests/BookmarkServer.antt =====
-- A Slack with one channel behind HTTP, which takes one bookmark.
use crossplane_provider_slac.Base.{
  ◌≡◌, refl, String, Bool, true, false, ◌&&◌, Option, none, some, List, [], ◌∷◌, ◌==◌,
  if◌then◌else◌, Bool-cases, inl, inr,
}
use crossplane_provider_slac.Base.Int.{pos}
use crossplane_provider_slac.Base.Text.{value_or_empty}
use crossplane_provider_slac.Errors.{Result, ok}
use crossplane_provider_slac.Slack.Types.{Bookmark}
use crossplane_provider_slac.Slack.Json.{
  Json, object, member, boolean, end, members_of, field, same_key, bool_of, string_of,
}
use crossplane_provider_slac.Slack.Json.Encode.{error_answer}
use crossplane_provider_slac.Slack.Form.{Form, get}
use crossplane_provider_slac.Slack.Client.{Envelope, decode_envelope}
use crossplane_provider_slac.Slack.Client.Bookmarks.Answered.{
  bookmark_answer, bookmarks_answer, DatesSmall, no_bookmarks, one_bookmark,
}
use crossplane_provider_slac.Tests.Backend.{Backend}

abbrev pub docs : Bookmark
docs = record {
  id = "B1";
  channel_id = "C1";
  title = "Docs";
  kind = "link";
  link = "https://docs";
  date_created = pos 1700000000;
}

abbrev pub kept : Bool → List Bookmark
kept w = if w then docs ∷ [] else []

pub data Reply : Type 0 where
  listed : Bool → Reply
  made done missing unknown restricted : Reply

abbrev pub reply_json : Reply → Json
reply_json (listed w) = bookmarks_answer (kept w)
reply_json made = bookmark_answer docs
reply_json done = object (member "ok" (boolean true) end)
reply_json missing = error_answer "channel_not_found"
reply_json unknown = error_answer "bookmark_not_found"
reply_json restricted = error_answer "restricted_action"

abbrev pub reply_text : Reply → String
reply_text (listed w) = if w then "one" else "none"
reply_text made = "made"
reply_text done = "done"
reply_text missing = "missing"
reply_text unknown = "unknown"
reply_text restricted = "restricted"

abbrev pub parse : String → Result Json
parse text =
    if text == "one"
    then ok (reply_json (listed true))
    else if text == "none"
    then ok (reply_json (listed false))
    else if text == "made"
    then ok (reply_json made)
    else if text == "done"
    then ok (reply_json done)
    else if text == "missing"
    then ok (reply_json missing)
    else if text == "unknown"
    then ok (reply_json unknown)
    else ok (reply_json restricted)

pub parse-reply_text : (r : Reply) → parse (reply_text r) ≡ ok (reply_json r)
parse-reply_text (listed true) = refl
parse-reply_text (listed false) = refl
parse-reply_text made = refl
parse-reply_text done = refl
parse-reply_text missing = refl
parse-reply_text unknown = refl
parse-reply_text restricted = refl

abbrev pub code_of : Reply → String
code_of missing = "channel_not_found"
code_of unknown = "bookmark_not_found"
code_of restricted = "restricted_action"
code_of _ = ""

abbrev pub reply_envelope : Reply → Envelope
reply_envelope r = record { is_ok = code_of r == ""; error = code_of r }

pub decode-reply_json : (r : Reply) → decode_envelope (reply_json r) ≡ ok (reply_envelope r)
unfolding decode_envelope members_of field same_key bool_of string_of
decode-reply_json (listed w) = refl
decode-reply_json made = refl
decode-reply_json done = refl
decode-reply_json missing = refl
decode-reply_json unknown = refl
decode-reply_json restricted = refl

-- The title and the link that this Slack takes.
abbrev pub is_docs : String → String → Bool
is_docs title link = title == "Docs" && link == "https://docs"

-- The body of a request says which of the known values it names.
abbrev pub body_for : String → String → String → String → String
body_for channel id title link =
    if channel == "C1"
    then (if id == "B1"
        then (if is_docs title link then "edit" else "id")
        else if is_docs title link
        then "add"
        else "channel")
    else "none"

abbrev pub respond : String → String → Bool → Reply × Bool
respond url body w =
    if url == "https://slack.com/api/bookmarks.list"
    then (if body == "none" then missing else listed w, w)
    else if url == "https://slack.com/api/bookmarks.add"
    then (if body == "add" then (made, true) else (restricted, w))
    else if url == "https://slack.com/api/bookmarks.edit"
    then (if body == "edit" then (if w then done else unknown, w) else (restricted, w))
    else if url == "https://slack.com/api/bookmarks.remove"
    then (if body == "id"
        then (if w then done else unknown, false)
        else (if body == "none" then missing else restricted, w))
    else (restricted, w)

abbrev pub value_in : String → Form → String
value_in key form = value_or_empty (get key form)

abbrev pub title_of : Option String → String → String
title_of none title = title
title_of (some kind) title = if kind == "link" then title else ""

-- The title, where the type is not another one than a link.
abbrev pub title_in : Form → String
title_in form = title_of (get "type" form) (value_in "title" form)

abbrev pub backend : Backend Bool Reply
backend = record {
  body_of = λ form.
      body_for (value_in "channel_id" form) (value_in "bookmark_id" form) (title_in form)
        (value_in "link" form);
  respond = respond;
  json = reply_json;
  text = reply_text;
  parse = parse;
  parse-text = parse-reply_text;
  envelope = reply_envelope;
  decode-json = decode-reply_json;
}

abbrev pub view : Bool → String → Option (List Bookmark)
view w channel = if channel == "C1" then some (kept w) else none

pub view-eq-some :
    (w : Bool) (channel : String) {bs : List Bookmark}
    → view w channel ≡ some bs
    → ((channel == "C1") ≡ true) × (kept w ≡ bs)
view-eq-some w channel = elim (Bool-cases (channel == "C1")) [
  | inl e ↦ rw e (λ found. (refl, some-eq found))
  | inr e ↦ rw e (λ found. cc)
]
  where
    some-eq : {a b : List Bookmark} → some a ≡ some b → a ≡ b
    some-eq p = cc

pub view-eq-none : (w : Bool) (channel : String) → view w channel ≡ none → (channel == "C1") ≡ false
view-eq-none w channel = elim (Bool-cases (channel == "C1")) [
  | inl e ↦ rw e (λ gone. cc)
  | inr e ↦ rw e (λ gone. refl)
]

pub kept-DatesSmall : (w : Bool) → DatesSmall (kept w)
kept-DatesSmall true = one_bookmark docs [] refl no_bookmarks
kept-DatesSmall false = no_bookmarks
