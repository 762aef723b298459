-- ===== src/Tests/GroupServer.antt =====
-- A Slack with at most one user group behind HTTP.
use crossplane_provider_slac.Base.{
  ◌≡◌, refl, String, Bool, true, ◌&&◌, Option, none, some, List, [], ◌∷◌, ◌==◌, if◌then◌else◌,
}
use crossplane_provider_slac.Base.Int.{ℤ, pos}
use crossplane_provider_slac.Base.Text.{value_or_empty}
use crossplane_provider_slac.Errors.{Result, ok}
use crossplane_provider_slac.Slack.Types.{UserGroup}
use crossplane_provider_slac.Slack.Json.{
  Json, object, member, boolean, end, members_of, field, same_key, bool_of, string_of,
}
use crossplane_provider_slac.Slack.Json.Encode.{error_answer, user_groups_answer}
use crossplane_provider_slac.Slack.Form.{Form, get}
use crossplane_provider_slac.Slack.Client.{Envelope, decode_envelope}
use crossplane_provider_slac.UserGroup.Http.{user_group_answer}
use crossplane_provider_slac.Tests.Backend.{Backend}

abbrev pub group : String → String → String → UserGroup
group name handle description = record {
  id = "S1";
  name = name;
  handle = handle;
  description = description;
  is_enabled = true;
  created_by = "U1";
  date_create = pos 0;
}

-- No group, one of another name, the wanted one, and the other one under the wanted name.
pub data Stored : Type 0 where
  nothing old team renamed : Stored

abbrev pub stored : Stored → List (UserGroup × ℤ)
stored nothing = []
stored old = (group "Old" "old" "text", pos 0) ∷ []
stored team = (group "Team" "team" "", pos 0) ∷ []
stored renamed = (group "Team" "team" "text", pos 0) ∷ []

pub data Reply : Type 0 where
  listed : Stored → Reply
  made done restricted : Reply

abbrev pub reply_json : Reply → Json
reply_json (listed w) = user_groups_answer (stored w)
reply_json made = user_group_answer (group "Team" "team" "", pos 0)
reply_json done = object (member "ok" (boolean true) end)
reply_json restricted = error_answer "permission_denied"

abbrev pub reply_text : Reply → String
reply_text (listed nothing) = "nothing"
reply_text (listed old) = "old"
reply_text (listed team) = "team"
reply_text (listed renamed) = "renamed"
reply_text made = "made"
reply_text done = "done"
reply_text restricted = "restricted"

abbrev pub parse : String → Result Json
parse text =
    if text == "nothing"
    then ok (reply_json (listed nothing))
    else if text == "old"
    then ok (reply_json (listed old))
    else if text == "team"
    then ok (reply_json (listed team))
    else if text == "renamed"
    then ok (reply_json (listed renamed))
    else if text == "made"
    then ok (reply_json made)
    else if text == "done"
    then ok (reply_json done)
    else ok (reply_json restricted)

pub parse-reply_text : (r : Reply) → parse (reply_text r) ≡ ok (reply_json r)
parse-reply_text (listed nothing) = refl
parse-reply_text (listed old) = refl
parse-reply_text (listed team) = refl
parse-reply_text (listed renamed) = refl
parse-reply_text made = refl
parse-reply_text done = refl
parse-reply_text restricted = refl

abbrev pub code_of : Reply → String
code_of restricted = "permission_denied"
code_of _ = ""

abbrev pub reply_envelope : Reply → Envelope
reply_envelope r = record { is_ok = code_of r == ""; error = code_of r }

pub decode-reply_json : (r : Reply) → decode_envelope (reply_json r) ≡ ok (reply_envelope r)
unfolding decode_envelope members_of field same_key bool_of string_of
decode-reply_json (listed w) = refl
decode-reply_json made = refl
decode-reply_json done = refl
decode-reply_json restricted = refl

abbrev pub is_team : String → String → Bool
is_team name handle = name == "Team" && handle == "team"

-- The body of a request says which of the known values it names.
abbrev pub body_for : String → String → String → Option String → String
body_for id name handle none =
    if is_team name handle then (if id == "S1" then "edit" else "new") else "other"
body_for id name handle (some description) = "other"

abbrev pub rename : Stored → Reply × Stored
rename nothing = (restricted, nothing)
rename old = (done, renamed)
rename team = (done, team)
rename renamed = (done, renamed)

abbrev pub respond : String → String → Stored → Reply × Stored
respond url body w =
    if url == "https://slack.com/api/usergroups.list"
    then (listed w, w)
    else if url == "https://slack.com/api/usergroups.create"
    then (if body == "new" then (made, team) else (restricted, w))
    else if url == "https://slack.com/api/usergroups.update"
    then (if body == "edit" then rename w else (restricted, w))
    else (restricted, w)

abbrev pub value_in : String → Form → String
value_in key form = value_or_empty (get key form)

abbrev pub backend : Backend Stored Reply
backend = record {
  body_of = λ form.
      body_for (value_in "usergroup" form) (value_in "name" form) (value_in "handle" form)
        (get "description" form);
  respond = respond;
  json = reply_json;
  text = reply_text;
  parse = parse;
  parse-text = parse-reply_text;
  envelope = reply_envelope;
  decode-json = decode-reply_json;
}
