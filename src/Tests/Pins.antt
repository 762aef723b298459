-- ===== src/Tests/Pins.antt =====
-- The pin controller over HTTP, on a Slack with one channel and one message.
use crossplane_provider_slac.Base.{String, Bool}
use crossplane_provider_slac.Tests.Backend.{url_of}
use crossplane_provider_slac.Tests.PinServer.{Reply, body_for, respond}

abbrev at_url : String → String → String → Bool → Reply × Bool
at_url method channel ts w = respond (url_of method) (body_for channel ts) w
