-- ===== src/Slack/Client/Pins.antt =====
-- internal/clients/slack/pins.go
pub mod Listed
use crossplane_provider_slac.Base.{String, some, List, [], map}
use crossplane_provider_slac.Base.Int.{ℤ}
use crossplane_provider_slac.Errors.{Result, ok, wrap}
use crossplane_provider_slac.Act.{Act, pure, ◌>>=◌, or_wrap}
use crossplane_provider_slac.Slack.Types.{Pin, Message}
use crossplane_provider_slac.Slack.Json
use crossplane_provider_slac.Slack.Json.{Json, field, members_of, list_of, int64_of}
use crossplane_provider_slac.Slack.Json.Decode.{decode_message}
use crossplane_provider_slac.Slack.Form.{Form, set}
use crossplane_provider_slac.Slack.Client.{Library, Client, call_method}
use crossplane_provider_slac.Slack.Client.Conversations.{unmarshal, call_only}

-- An item of pins.list.
pub record PinItem : Type 0 where
  pub message : Message
  pub created : ℤ

unfoldable pub decode_item : Json → Result PinItem
unfolding decode_message
decode_item j = Json.bind (members_of j) λ ms.
    Json.bind (decode_message (field "message" ms)) λ message.
      Json.bind (int64_of (field "created" ms))
        λ created. ok (record { message = message; created = created })

unfoldable pub items_of : Json → Result (List PinItem)
unfolding decode_item
items_of j = Json.bind (members_of j) λ ms. list_of decode_item (field "items" ms)

unfoldable pub pin_form : String → String → Form
pin_form channel ts = set "timestamp" ts (set "channel" channel [])

unfoldable pub list_form : String → Form
list_form channel = set "channel" channel []

unfoldable pub pin_in : String → PinItem → Pin
pin_in channel item = record { channel = channel; message = item.message; created = item.created }

module _ {W Request : Type 0} (lib : Library W Request) (c : Client W Request) where
  unfoldable pub add_pin : String → String → Act W (Unit {0})
  unfolding pin_form call_only
  add_pin channel ts = call_only lib c "pins.add" (pin_form channel ts)

  unfoldable pub list_pins : String → Act W (List Pin)
  unfolding items_of unmarshal pin_in list_form
  list_pins channel = do
    raw ← call_method lib c "pins.list" (some (list_form channel))
    items ← or_wrap (unmarshal lib c items_of raw) (wrap "parsing pins.list response")
    pure (map (pin_in channel) items)

  unfoldable pub remove_pin : String → String → Act W (Unit {0})
  unfolding pin_form call_only
  remove_pin channel ts = call_only lib c "pins.remove" (pin_form channel ts)
