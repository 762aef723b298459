-- ===== src/Tests/Server.antt =====
-- A Slack with at most one channel behind HTTP.
use crossplane_provider_slac.Base.{◌≡◌, refl, String, Bool, true, false, ◌&&◌, ◌==◌, if◌then◌else◌}
use crossplane_provider_slac.Base.Int.{pos}
use crossplane_provider_slac.Base.Text.{value_or_empty}
use crossplane_provider_slac.Errors.{Result, ok}
use crossplane_provider_slac.Slack.Types.{Conversation}
use crossplane_provider_slac.Slack.Json.{
  Json, object, member, boolean, end, members_of, field, same_key, bool_of, string_of,
}
use crossplane_provider_slac.Slack.Json.Encode.{channel_answer, error_answer}
use crossplane_provider_slac.Slack.Form.{Form, get}
use crossplane_provider_slac.Slack.Client.{Library, Client, Envelope, decode_envelope}
use crossplane_provider_slac.Slack.Client.Delivery.{Server, Delivery}
use crossplane_provider_slac.Tests.Flags.{flagged, flag, behind}
use crossplane_provider_slac.Tests.Backend.{Backend, library_of, bot_of, server_of, delivered_by}

-- The channel as it is: whether it has been renamed, has a topic, has a purpose, and is archived.
abbrev pub kept_channel : Bool → Bool → Bool → Bool → Conversation
kept_channel renamed topic purpose archived = record {
  id = "C1";
  name = if renamed then "random" else "general";
  is_private = false;
  is_archived = archived;
  topic = record { value = if topic then "News" else "" };
  purpose = record { value = if purpose then "Talk" else "" };
  num_members = pos 2;
  created = pos 1700000000;
}

pub data World : Type 0 where
  nothing : World
  present : (renamed topic purpose archived : Bool) → World

pub data Reply : Type 0 where
  info : (renamed topic purpose archived : Bool) → Reply
  done missing restricted : Reply

abbrev pub reply_json : Reply → Json
reply_json (info r t p a) = channel_answer (kept_channel r t p a)
reply_json done = object (member "ok" (boolean true) end)
reply_json missing = error_answer "channel_not_found"
reply_json restricted = error_answer "restricted_action"

abbrev pub reply_text : Reply → String
reply_text (info r t p a) = flagged r (flagged t (flagged p (flagged a "")))
reply_text done = "done"
reply_text missing = "missing"
reply_text restricted = "restricted"

abbrev pub parse : String → Result Json
parse text =
    if text == "done"
    then ok (reply_json done)
    else if text == "missing"
    then ok (reply_json missing)
    else if text == "restricted"
    then ok (reply_json restricted)
    else ok (
        reply_json (
          info (flag text) (flag (behind text)) (flag (behind (behind text)))
            (flag (behind (behind (behind text))))))

pub parse-reply_text : (r : Reply) → parse (reply_text r) ≡ ok (reply_json r)
parse-reply_text (info true true true true) = refl
parse-reply_text (info true true true false) = refl
parse-reply_text (info true true false true) = refl
parse-reply_text (info true true false false) = refl
parse-reply_text (info true false true true) = refl
parse-reply_text (info true false true false) = refl
parse-reply_text (info true false false true) = refl
parse-reply_text (info true false false false) = refl
parse-reply_text (info false true true true) = refl
parse-reply_text (info false true true false) = refl
parse-reply_text (info false true false true) = refl
parse-reply_text (info false true false false) = refl
parse-reply_text (info false false true true) = refl
parse-reply_text (info false false true false) = refl
parse-reply_text (info false false false true) = refl
parse-reply_text (info false false false false) = refl
parse-reply_text done = refl
parse-reply_text missing = refl
parse-reply_text restricted = refl

abbrev pub code_of : Reply → String
code_of missing = "channel_not_found"
code_of restricted = "restricted_action"
code_of _ = ""

abbrev pub reply_envelope : Reply → Envelope
reply_envelope r = record { is_ok = code_of r == ""; error = code_of r }

pub decode-reply_json : (r : Reply) → decode_envelope (reply_json r) ≡ ok (reply_envelope r)
unfolding decode_envelope members_of field same_key bool_of string_of
decode-reply_json (info r t p a) = refl
decode-reply_json done = refl
decode-reply_json missing = refl
decode-reply_json restricted = refl

abbrev pub shown : World → Reply × World
shown nothing = (missing, nothing)
shown (present r t p a) = (info r t p a, present r t p a)

abbrev pub made : World → Reply × World
made nothing = (info false false false false, present false false false false)
made (present r t p a) = (restricted, present r t p a)

abbrev pub renamed_to : Bool → World → Reply × World
renamed_to renamed nothing = (missing, nothing)
renamed_to renamed (present r t p a) = (done, present renamed t p a)

abbrev pub with_topic : World → Reply × World
with_topic nothing = (missing, nothing)
with_topic (present r t p a) = (done, present r true p a)

abbrev pub with_purpose : World → Reply × World
with_purpose nothing = (missing, nothing)
with_purpose (present r t p a) = (done, present r t true a)

abbrev pub archived : World → Reply × World
archived nothing = (missing, nothing)
archived (present r t p a) = (done, present r t p true)

-- The body of a request says which of the known values it names.
abbrev pub body_for : String → String → String → String → String → String
body_for channel name topic purpose private = flagged (channel == "C1") (
    flagged (name == "general") (
      flagged (name == "random") (
        flagged (topic == "News") (flagged (purpose == "Talk") (flagged (private == "false") "")))))

-- What Slack does with a method, given what the body says.
abbrev pub act : String → Bool → Bool → Bool → Bool → Bool → Bool → World → Reply × World
act url c1 general random news talk open_to_all w =
    if url == "https://slack.com/api/conversations.info"
    then (if c1 then shown w else (missing, w))
    else if url == "https://slack.com/api/conversations.create"
    then (if general && open_to_all then made w else (restricted, w))
    else if url == "https://slack.com/api/conversations.rename"
    then (if c1
        then (if general
            then renamed_to false w
            else if random
            then renamed_to true w
            else (restricted, w))
        else (missing, w))
    else if url == "https://slack.com/api/conversations.setTopic"
    then (if c1 then (if news then with_topic w else (restricted, w)) else (missing, w))
    else if url == "https://slack.com/api/conversations.setPurpose"
    then (if c1 then (if talk then with_purpose w else (restricted, w)) else (missing, w))
    else if url == "https://slack.com/api/conversations.archive"
    then (if c1 then archived w else (missing, w))
    else (done, w)

abbrev pub respond : String → String → World → Reply × World
respond url body w =
    let b1 = behind body in
    let b2 = behind b1 in
    let b3 = behind b2 in
    let b4 = behind b3 in
    act url (flag body) (flag b1) (flag b2) (flag b3) (flag b4) (flag (behind b4)) w

abbrev pub value_in : String → Form → String
value_in key form = value_or_empty (get key form)

abbrev pub backend : Backend World Reply
backend = record {
  body_of = λ form.
      body_for (value_in "channel" form) (value_in "name" form) (value_in "topic" form)
        (value_in "purpose" form) (value_in "is_private" form);
  respond = respond;
  json = reply_json;
  text = reply_text;
  parse = parse;
  parse-text = parse-reply_text;
  envelope = reply_envelope;
  decode-json = decode-reply_json;
}

abbrev pub slack : Library World (String × String)
slack = library_of backend

abbrev pub bot : Client World (String × String)
bot = bot_of backend

abbrev pub server : Server World
server = server_of backend

pub delivered :
    (method : String) (form : Form) (w : World) → Delivery slack bot server method form w
delivered = delivered_by backend
