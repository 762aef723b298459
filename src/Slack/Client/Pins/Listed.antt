-- ===== src/Slack/Client/Pins/Listed.antt =====
-- internal/clients/slack/pins.go: ListPins over the answers of Slack.
use crossplane_provider_slac.Base.{◌≡◌, refl, String, true, some, List, [], ◌∷◌, map}
use crossplane_provider_slac.Errors.{ok, err}
use crossplane_provider_slac.Slack.Json.{
  Json, boolean, number, string, array, object, end, member, items, members_of, field, same_key,
  string_of, bool_of, int64_of, is_int64, list_of, read_all,
}
use crossplane_provider_slac.Slack.Json.Decode.{decode_message}
use crossplane_provider_slac.Slack.Json.Encode.{array_of, error_answer}
use crossplane_provider_slac.Slack.Client.{
  Library, Client, decode_envelope, accepted, check_answer, refused,
}
use crossplane_provider_slac.Slack.Client.Laws.{Answers, call_method_answered}
use crossplane_provider_slac.Slack.Client.Conversations.{unmarshal}
use crossplane_provider_slac.Slack.Client.Pins.{
  PinItem, decode_item, items_of, list_form, pin_in, list_pins,
}

-- The JSON that Slack's documentation gives for a pinned message.
abbrev pub item_json : String → PinItem → Json
item_json channel item = object (
    member "type" (string "message") (
      member "created" (number item.created) (
        member "created_by" (string "U1") (
          member "channel" (string channel) (
            member "message"
              (object (
                member "type" (string "message") (
                  member "user" (string "U1")
                    (member "text" (string "pinned") (member "ts" (string item.message.ts) end)))))
              end)))))

-- The answer of pins.list.
abbrev pub pins_answer : String → List PinItem → Json
pins_answer channel pins = object (
    member "ok" (boolean true)
      (member "items" (array (array_of (map (item_json channel) pins))) end))

-- The dates fit into an int64.
pub data DatesSmall : List PinItem → Type 0 where
  no_pins : DatesSmall []
  one_pin :
      (item : PinItem) (rest : List PinItem)
      → is_int64 item.created ≡ true
      → DatesSmall rest
      → DatesSmall (item ∷ rest)

decode_item_json :
    (channel : String) (item : PinItem)
    → is_int64 item.created ≡ true
    → decode_item (item_json channel item) ≡ ok item
unfolding decode_item decode_message members_of field same_key string_of int64_of
decode_item_json channel item s = rw s refl

read_all_items :
    (channel : String) (pins : List PinItem)
    → DatesSmall pins
    → read_all decode_item (items (array_of (map (item_json channel) pins))) ≡ ok pins
unfolding read_all
read_all_items channel _ no_pins = refl
read_all_items channel _ (one_pin item rest s all) =
    rw (decode_item_json channel item s, read_all_items channel rest all) refl

module _ {W Request : Type 0} (lib : Library W Request) (c : Client W Request) where
  -- Slack answers pins.list for a channel with the JSON value.
  pub record AnswersPins (channel : String) (w : W) (answer : Json) (after : W) : Type 0 where
    pub text : String
    pub answers : Answers lib c "pins.list" (some (list_form channel)) w text after
    pub parses : lib.parse_json text ≡ ok answer

  pub list_pins_answered :
      (channel : String) (w after : W) (pins : List PinItem)
      → AnswersPins channel w (pins_answer channel pins) after
      → DatesSmall pins
      → list_pins lib c channel w ≡ (ok (map (pin_in channel) pins), after)
  unfolding list_pins check_answer accepted decode_envelope items_of members_of field same_key
      string_of bool_of list_of unmarshal
  list_pins_answered channel w after pins a small =
      rw
        (
          call_method_answered lib c "pins.list" (some (list_form channel)) w after a.text
              a.answers,
          a.parses,
          a.parses,
          read_all_items channel pins small,
        )
        refl

  pub list_pins_refused :
      (channel code : String) (w after : W)
      → AnswersPins channel w (error_answer code) after
      → list_pins lib c channel w ≡ (err (refused "pins.list" code), after)
  unfolding list_pins check_answer accepted decode_envelope members_of field same_key string_of
      bool_of
  list_pins_refused channel code w after a =
      rw
        (
          call_method_answered lib c "pins.list" (some (list_form channel)) w after a.text
              a.answers,
          a.parses,
        )
        refl
