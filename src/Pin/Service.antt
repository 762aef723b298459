-- ===== src/Pin/Service.antt =====
-- What Slack promises of pins, as far as the pin controller relies on it.
use crossplane_provider_slac.Base.{String, ◌≡◌, true, Option, none, some, List}
use crossplane_provider_slac.Errors.{Error, ok, err, has_code}
use crossplane_provider_slac.Slack.Api.{ClientApi}
use crossplane_provider_slac.Slack.Types.{Pin}
use crossplane_provider_slac.Pin.{find_pin, is_channel_unavailable}

-- `pins` is Slack's list of pins of a channel; a channel that is missing or archived has `none`.
pub record IsPinService {W : Type 0} (api : ClientApi W) (pins : W → String → Option (List Pin))
    : Type 0 where
  pub lists :
      (channel : String) (w : W) (ps : List Pin)
      → pins w channel ≡ some ps
      → (api.list_pins channel w).0 ≡ ok ps
  pub lists_unavailable :
      (channel : String) (w : W)
      → pins w channel ≡ none
      → (e : Error) × ((api.list_pins channel w).0 ≡ err e) × (is_channel_unavailable e ≡ true)
  pub adds :
      (channel ts : String) (w : W)
      → (api.add_pin channel ts w).0 ≡ ok tt
      → (ps : List Pin) × (p : Pin) × (pins (api.add_pin channel ts w).1 channel ≡ some ps)
        × (find_pin ts ps ≡ some p)
  pub removes :
      (channel ts : String) (w : W)
      → (api.remove_pin channel ts w).0 ≡ ok tt
      → (ps : List Pin) × (pins (api.remove_pin channel ts w).1 channel ≡ some ps)
        × (find_pin ts ps ≡ none)
  pub no_pin :
      (channel ts : String) (w : W) (e : Error)
      → (api.remove_pin channel ts w).0 ≡ err e
      → has_code "no_pin" e ≡ true
      → (ps : List Pin) × (pins (api.remove_pin channel ts w).1 channel ≡ some ps)
        × (find_pin ts ps ≡ none)
  pub unavailable :
      (channel ts : String) (w : W) (e : Error)
      → (api.remove_pin channel ts w).0 ≡ err e
      → is_channel_unavailable e ≡ true
      → pins (api.remove_pin channel ts w).1 channel ≡ none
