-- ===== src/Pin/Http.antt =====
-- The API of Slack for pins, as the methods of internal/clients/slack/pins.go use it.
pub mod Refinement
use crossplane_provider_slac.Base.{◌≡◌, String, true, false, Option, none, some, List, ◌⊎◌, map}
use crossplane_provider_slac.Slack.Form.{Form, get}
use crossplane_provider_slac.Slack.Json.Encode.{error_answer}
use crossplane_provider_slac.Slack.Client.Delivery.{Server, IsUnavailable}
use crossplane_provider_slac.Slack.Client.Pins.{PinItem, pin_in}
use crossplane_provider_slac.Slack.Client.Pins.Listed.{pins_answer, DatesSmall}
use crossplane_provider_slac.Pin.{find_pin}

-- What Slack keeps of pins, by the methods and the forms of its API: `items` are the pins of a
-- channel, and a channel that is missing or archived has `none`.
pub record KeepsPins {W : Type 0} (s : Server W) (items : W → String → Option (List PinItem))
    : Type 0 where
  pub lists :
      (form : Form) (channel : String) (w : W) (pins : List PinItem)
      → get "channel" form ≡ some channel
      → items w channel ≡ some pins
      → ((s.answer "pins.list" form w).0 ≡ pins_answer channel pins) × DatesSmall pins
  pub lists_unavailable :
      (form : Form) (channel : String) (w : W)
      → get "channel" form ≡ some channel
      → items w channel ≡ none
      → (code : String) × ((s.answer "pins.list" form w).0 ≡ error_answer code) × IsUnavailable code
  pub adds :
      (form : Form) (channel ts : String) (w : W)
      → get "channel" form ≡ some channel
      → get "timestamp" form ≡ some ts
      → (s.envelope "pins.add" form w).is_ok ≡ true
      → (pins : List PinItem) × (item : PinItem) × (items (s.answer "pins.add" form w).1 channel
          ≡ some pins)
        × (find_pin ts (map (pin_in channel) pins) ≡ some (pin_in channel item))
  pub removes :
      (form : Form) (channel ts : String) (w : W)
      → get "channel" form ≡ some channel
      → get "timestamp" form ≡ some ts
      → (s.envelope "pins.remove" form w).is_ok ≡ true
      → (pins : List PinItem) × (items (s.answer "pins.remove" form w).1 channel ≡ some pins)
        × (find_pin ts (map (pin_in channel) pins) ≡ none)
  pub no_pin :
      (form : Form) (channel ts : String) (w : W)
      → get "channel" form ≡ some channel
      → get "timestamp" form ≡ some ts
      → (s.envelope "pins.remove" form w).is_ok ≡ false
      → (s.envelope "pins.remove" form w).error ≡ "no_pin"
      → (pins : List PinItem) × (items (s.answer "pins.remove" form w).1 channel ≡ some pins)
        × (find_pin ts (map (pin_in channel) pins) ≡ none)
  pub unavailable :
      (form : Form) (channel : String) (w : W)
      → get "channel" form ≡ some channel
      → (s.envelope "pins.remove" form w).is_ok ≡ false
      → IsUnavailable (s.envelope "pins.remove" form w).error
      → items (s.answer "pins.remove" form w).1 channel ≡ none
