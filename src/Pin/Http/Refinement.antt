-- ===== src/Pin/Http/Refinement.antt =====
-- The HTTP client as the service of pins that the pin controller relies on.
use crossplane_provider_slac.Base.{String, Option, none, some, List, map}
use crossplane_provider_slac.Slack.Types.{Pin}
use crossplane_provider_slac.Slack.Form.{Form}
use crossplane_provider_slac.Slack.Json.{Json}
use crossplane_provider_slac.Slack.Client.{Client}
use crossplane_provider_slac.Slack.Client.Delivery.{Delivery}
use crossplane_provider_slac.Slack.Client.Pins.{PinItem, pin_in}

abbrev pub listed : String → Option (List PinItem) → Option (List Pin)
listed channel none = none
listed channel (some items) = some (map (pin_in channel) items)
