-- ===== src/Tests/MemberServer.antt =====
-- A Slack with one channel behind HTTP, whose members come in two pages: one user is always there, and
-- one can be invited and removed.
use text.Mathlib.TextLemmas.{cons-ne-nil}
use crossplane_provider_slac.Base.{
  ◌≡◌, refl, String, Bool, true, false, Option, none, some, List, [], ◌∷◌, ◌==◌, eq_iff,
  if◌then◌else◌, Bool-cases, inl, inr,
}
use crossplane_provider_slac.Base.Text.{value_or_empty}
use crossplane_provider_slac.Errors.{Result, ok}
use crossplane_provider_slac.Slack.Json.{
  Json, object, member, boolean, end, members_of, field, same_key, bool_of, string_of,
}
use crossplane_provider_slac.Slack.Json.Encode.{error_answer, members_answer}
use crossplane_provider_slac.Slack.Form.{Form, get, set, set_given}
use crossplane_provider_slac.Slack.Client.{Envelope, decode_envelope}
use crossplane_provider_slac.Slack.Client.Pages.{members_form, with_cursor}
use crossplane_provider_slac.Slack.Client.Pages.Listing.{Chain, last_page, page_before}
use crossplane_provider_slac.ConversationMember.Http.{Answered}
use crossplane_provider_slac.Tests.Backend.{Backend, server_of}

abbrev pub second : Bool → List String
second w = if w then "U2" ∷ [] else []

pub data Reply : Type 0 where
  first_page : Reply
  second_page : Bool → Reply
  done missing already absent restricted : Reply

abbrev pub reply_json : Reply → Json
reply_json first_page = members_answer ("U1" ∷ []) "p2"
reply_json (second_page w) = members_answer (second w) ""
reply_json done = object (member "ok" (boolean true) end)
reply_json missing = error_answer "channel_not_found"
reply_json already = error_answer "already_in_channel"
reply_json absent = error_answer "not_in_channel"
reply_json restricted = error_answer "restricted_action"

abbrev pub reply_text : Reply → String
reply_text first_page = "first"
reply_text (second_page w) = if w then "full" else "empty"
reply_text done = "done"
reply_text missing = "missing"
reply_text already = "already"
reply_text absent = "absent"
reply_text restricted = "restricted"

abbrev pub parse : String → Result Json
parse text =
    if text == "first"
    then ok (reply_json first_page)
    else if text == "full"
    then ok (reply_json (second_page true))
    else if text == "empty"
    then ok (reply_json (second_page false))
    else if text == "done"
    then ok (reply_json done)
    else if text == "missing"
    then ok (reply_json missing)
    else if text == "already"
    then ok (reply_json already)
    else if text == "absent"
    then ok (reply_json absent)
    else ok (reply_json restricted)

pub parse-reply_text : (r : Reply) → parse (reply_text r) ≡ ok (reply_json r)
parse-reply_text first_page = refl
parse-reply_text (second_page true) = refl
parse-reply_text (second_page false) = refl
parse-reply_text done = refl
parse-reply_text missing = refl
parse-reply_text already = refl
parse-reply_text absent = refl
parse-reply_text restricted = refl

abbrev pub code_of : Reply → String
code_of missing = "channel_not_found"
code_of already = "already_in_channel"
code_of absent = "not_in_channel"
code_of restricted = "restricted_action"
code_of _ = ""

abbrev pub reply_envelope : Reply → Envelope
reply_envelope r = record { is_ok = code_of r == ""; error = code_of r }

pub decode-reply_json : (r : Reply) → decode_envelope (reply_json r) ≡ ok (reply_envelope r)
unfolding decode_envelope members_of field same_key bool_of string_of
decode-reply_json first_page = refl
decode-reply_json (second_page w) = refl
decode-reply_json done = refl
decode-reply_json missing = refl
decode-reply_json already = refl
decode-reply_json absent = refl
decode-reply_json restricted = refl

-- The body of a request says which of the known values it names.
abbrev pub body_for : String → String → String → String → String
body_for channel cursor users user =
    if channel == "C1"
    then (if cursor == "p2"
        then "second"
        else if users == "U2"
        then "users"
        else if user == "U2"
        then "user"
        else "channel")
    else "none"

abbrev pub respond : String → String → Bool → Reply × Bool
respond url body w =
    if url == "https://slack.com/api/conversations.members"
    then (
      if body == "none" then missing else if body == "second" then second_page w else first_page,
      w,
    )
    else if url == "https://slack.com/api/conversations.invite"
    then (if body == "users" then (if w then already else done, true) else (restricted, w))
    else if url == "https://slack.com/api/conversations.kick"
    then (if body == "user"
        then (if w then done else absent, false)
        else (if body == "none" then missing else restricted, w))
    else (restricted, w)

abbrev pub value_in : String → Form → String
value_in key form = value_or_empty (get key form)

abbrev pub backend : Backend Bool Reply
backend = record {
  body_of = λ form.
      body_for (value_in "channel" form) (value_in "cursor" form) (value_in "users" form)
        (value_in "user" form);
  respond = respond;
  json = reply_json;
  text = reply_text;
  parse = parse;
  parse-text = parse-reply_text;
  envelope = reply_envelope;
  decode-json = decode-reply_json;
}

abbrev pub view : Bool → String → Option (List String)
view w channel = if channel == "C1" then some ("U1" ∷ second w) else none

pub view-eq-some :
    (w : Bool) (channel : String) {us : List String}
    → view w channel ≡ some us
    → (channel ≡ "C1") × ("U1" ∷ second w ≡ us)
view-eq-some w channel = elim (Bool-cases (channel == "C1")) [
  | inl e ↦ rw e (λ found. ((eq_iff channel "C1").0 e, some-eq found))
  | inr e ↦ rw e (λ found. cc)
]
  where
    some-eq : {a b : List String} → some a ≡ some b → a ≡ b
    some-eq p = cc

pub view-eq-none : (w : Bool) (channel : String) → view w channel ≡ none → (channel == "C1") ≡ false
view-eq-none w channel = elim (Bool-cases (channel == "C1")) [
  | inl e ↦ rw e (λ gone. cc)
  | inr e ↦ rw e (λ gone. refl)
]

pub pages_of :
    (w : Bool) → Chain (Answered (server_of backend) "C1") "" w (("U1" ∷ []) ∷ second w ∷ [])
unfolding members_form with_cursor set get set_given
pages_of w =
    page_before "" w ("U1" ∷ []) "p2" w (second w ∷ []) (record { answer = refl; goes_on = refl })
      (cons-ne-nil "p" "2")
      (last_page "p2" w (second w) w (record { answer = refl; goes_on = refl }))
