-- ===== src/Tests/PinServer.antt =====
-- A Slack with one channel and one message behind HTTP, which can be pinned.
use crossplane_provider_slac.Base.{
  ◌≡◌, refl, String, Bool, true, false, Option, none, some, List, [], ◌∷◌, ◌==◌, if◌then◌else◌,
  Bool-cases, inl, inr,
}
use crossplane_provider_slac.Base.Int.{pos}
use crossplane_provider_slac.Base.Text.{value_or_empty}
use crossplane_provider_slac.Errors.{Result, ok}
use crossplane_provider_slac.Slack.Json.{
  Json, object, member, boolean, end, members_of, field, same_key, bool_of, string_of,
}
use crossplane_provider_slac.Slack.Json.Encode.{error_answer}
use crossplane_provider_slac.Slack.Form.{get}
use crossplane_provider_slac.Slack.Client.{Envelope, decode_envelope}
use crossplane_provider_slac.Slack.Client.Pins.{PinItem}
use crossplane_provider_slac.Slack.Client.Pins.Listed.{pins_answer, DatesSmall, no_pins, one_pin}
use crossplane_provider_slac.Tests.Backend.{Backend}

abbrev pub item : PinItem
item = record { message = record { ts = "1.2" }; created = pos 1700000000 }

abbrev pub pinned : Bool → List PinItem
pinned w = if w then item ∷ [] else []

pub data Reply : Type 0 where
  items : Bool → Reply
  done missing unpinned restricted : Reply

abbrev pub reply_json : Reply → Json
reply_json (items b) = pins_answer "C1" (pinned b)
reply_json done = object (member "ok" (boolean true) end)
reply_json missing = error_answer "channel_not_found"
reply_json unpinned = error_answer "no_pin"
reply_json restricted = error_answer "restricted_action"

abbrev pub reply_text : Reply → String
reply_text (items b) = if b then "one" else "none"
reply_text done = "done"
reply_text missing = "missing"
reply_text unpinned = "unpinned"
reply_text restricted = "restricted"

abbrev pub parse : String → Result Json
parse text =
    if text == "one"
    then ok (reply_json (items true))
    else if text == "none"
    then ok (reply_json (items false))
    else if text == "done"
    then ok (reply_json done)
    else if text == "missing"
    then ok (reply_json missing)
    else if text == "unpinned"
    then ok (reply_json unpinned)
    else ok (reply_json restricted)

pub parse-reply_text : (r : Reply) → parse (reply_text r) ≡ ok (reply_json r)
parse-reply_text (items true) = refl
parse-reply_text (items false) = refl
parse-reply_text done = refl
parse-reply_text missing = refl
parse-reply_text unpinned = refl
parse-reply_text restricted = refl

abbrev pub reply_envelope : Reply → Envelope
reply_envelope (items b) = record { is_ok = true; error = "" }
reply_envelope done = record { is_ok = true; error = "" }
reply_envelope missing = record { is_ok = false; error = "channel_not_found" }
reply_envelope unpinned = record { is_ok = false; error = "no_pin" }
reply_envelope restricted = record { is_ok = false; error = "restricted_action" }

pub decode-reply_json : (r : Reply) → decode_envelope (reply_json r) ≡ ok (reply_envelope r)
unfolding decode_envelope members_of field same_key bool_of string_of
decode-reply_json (items b) = refl
decode-reply_json done = refl
decode-reply_json missing = refl
decode-reply_json unpinned = refl
decode-reply_json restricted = refl

-- The body of a request says whether it names the channel and the message.
abbrev pub body_for : String → String → String
body_for channel ts =
    if channel == "C1" then (if ts == "1.2" then "both" else "channel") else "none"

abbrev pub respond : String → String → Bool → Reply × Bool
respond url body w =
    if url == "https://slack.com/api/pins.list"
    then (if body == "none" then missing else items w, w)
    else if url == "https://slack.com/api/pins.add"
    then (if body == "both" then (done, true) else (restricted, w))
    else if url == "https://slack.com/api/pins.remove"
    then (if body == "both"
        then (if w then done else unpinned, false)
        else (if body == "none" then missing else restricted, w))
    else (restricted, w)

abbrev pub backend : Backend Bool Reply
backend = record {
  body_of = λ form.
      body_for (value_or_empty (get "channel" form)) (value_or_empty (get "timestamp" form));
  respond = respond;
  json = reply_json;
  text = reply_text;
  parse = parse;
  parse-text = parse-reply_text;
  envelope = reply_envelope;
  decode-json = decode-reply_json;
}

abbrev pub view : Bool → String → Option (List PinItem)
view w channel = if channel == "C1" then some (pinned w) else none

pub view-eq-some :
    (w : Bool) (channel : String) {pins : List PinItem}
    → view w channel ≡ some pins
    → ((channel == "C1") ≡ true) × (pinned w ≡ pins)
view-eq-some w channel = elim (Bool-cases (channel == "C1")) [
  | inl e ↦ rw e (λ found. (refl, some-eq found))
  | inr e ↦ rw e (λ found. cc)
]
  where
    some-eq : {a b : List PinItem} → some a ≡ some b → a ≡ b
    some-eq p = cc

pub view-eq-none : (w : Bool) (channel : String) → view w channel ≡ none → (channel == "C1") ≡ false
view-eq-none w channel = elim (Bool-cases (channel == "C1")) [
  | inl e ↦ rw e (λ gone. cc)
  | inr e ↦ rw e (λ gone. refl)
]

pub pinned-DatesSmall : (w : Bool) → DatesSmall (pinned w)
pinned-DatesSmall true = one_pin item [] refl no_pins
pinned-DatesSmall false = no_pins
