-- ===== src/Tests/MembersServer.antt =====
-- A Slack with one user group and two users behind HTTP.
use crossplane_provider_slac.Base.{
  ◌≡◌, refl, String, Bool, true, false, ◌&&◌, Option, none, some, List, [], ◌∷◌, ◌==◌,
  if◌then◌else◌,
}
use crossplane_provider_slac.Base.Text.{value_or_empty}
use crossplane_provider_slac.Errors.{Result, ok}
use crossplane_provider_slac.Slack.Types.{User}
use crossplane_provider_slac.Slack.Json.{
  Json, object, member, boolean, end, members_of, field, same_key, bool_of, string_of,
}
use crossplane_provider_slac.Slack.Json.Encode.{error_answer}
use crossplane_provider_slac.Slack.Form.{Form, get}
use crossplane_provider_slac.Slack.Client.{Envelope, decode_envelope}
use crossplane_provider_slac.UserGroupMembers.Http.{users_answer, lookup_answer}
use crossplane_provider_slac.Tests.Backend.{Backend}
use crossplane_provider_slac.Tests.Flags.{flagged, flag, behind}

abbrev pub book : String → Option User
book email =
    if email == "a@x.y"
    then some (record { id = "U1"; profile = record { email = "a@x.y" } })
    else if email == "b@x.y"
    then some (record { id = "U2"; profile = record { email = "b@x.y" } })
    else none

-- The group has the first user, or both.
abbrev pub stored : Bool → List String
stored true = "U2" ∷ "U1" ∷ []
stored false = "U1" ∷ []

abbrev pub members : Bool → String → Option (List String)
members w group = if group == "S1" then some (stored w) else none

pub data Reply : Type 0 where
  listed : Bool → Reply
  user_a user_b unknown done missing : Reply

abbrev pub reply_json : Reply → Json
reply_json (listed w) = users_answer (stored w)
reply_json user_a = lookup_answer (book "a@x.y")
reply_json user_b = lookup_answer (book "b@x.y")
reply_json unknown = lookup_answer none
reply_json done = object (member "ok" (boolean true) end)
reply_json missing = error_answer "no_such_subteam"

abbrev pub reply_text : Reply → String
reply_text (listed w) = if w then "both" else "one"
reply_text user_a = "a"
reply_text user_b = "b"
reply_text unknown = "unknown"
reply_text done = "done"
reply_text missing = "missing"

abbrev pub parse : String → Result Json
parse text =
    if text == "both"
    then ok (reply_json (listed true))
    else if text == "one"
    then ok (reply_json (listed false))
    else if text == "a"
    then ok (reply_json user_a)
    else if text == "b"
    then ok (reply_json user_b)
    else if text == "unknown"
    then ok (reply_json unknown)
    else if text == "done"
    then ok (reply_json done)
    else ok (reply_json missing)

pub parse-reply_text : (r : Reply) → parse (reply_text r) ≡ ok (reply_json r)
parse-reply_text (listed true) = refl
parse-reply_text (listed false) = refl
parse-reply_text user_a = refl
parse-reply_text user_b = refl
parse-reply_text unknown = refl
parse-reply_text done = refl
parse-reply_text missing = refl

abbrev pub code_of : Reply → String
code_of unknown = "users_not_found"
code_of missing = "no_such_subteam"
code_of _ = ""

abbrev pub reply_envelope : Reply → Envelope
reply_envelope r = record { is_ok = code_of r == ""; error = code_of r }

pub decode-reply_json : (r : Reply) → decode_envelope (reply_json r) ≡ ok (reply_envelope r)
unfolding decode_envelope members_of field same_key bool_of string_of
decode-reply_json (listed w) = refl
decode-reply_json user_a = refl
decode-reply_json user_b = refl
decode-reply_json unknown = refl
decode-reply_json done = refl
decode-reply_json missing = refl

-- The body of a request says which of the known values it names.
abbrev pub body_for : String → String → String → String
body_for email group users =
    flagged (email == "a@x.y")
      (flagged (email == "b@x.y") (flagged (group == "S1") (flagged (users == "U2,U1") "")))

abbrev pub respond : String → String → Bool → Reply × Bool
respond url body w =
    if url == "https://slack.com/api/users.lookupByEmail"
    then (if flag body then user_a else if flag (behind body) then user_b else unknown, w)
    else if url == "https://slack.com/api/usergroups.users.list"
    then (if flag (behind (behind body)) then listed w else missing, w)
    else if url == "https://slack.com/api/usergroups.users.update"
    then (if flag (behind (behind body)) && flag (behind (behind (behind body)))
        then (done, true)
        else (missing, w))
    else (missing, w)

abbrev pub value_in : String → Form → String
value_in key form = value_or_empty (get key form)

abbrev pub backend : Backend Bool Reply
backend = record {
  body_of =
      λ form. body_for (value_in "email" form) (value_in "usergroup" form) (value_in "users" form);
  respond = respond;
  json = reply_json;
  text = reply_text;
  parse = parse;
  parse-text = parse-reply_text;
  envelope = reply_envelope;
  decode-json = decode-reply_json;
}
