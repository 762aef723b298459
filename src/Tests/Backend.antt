-- ===== src/Tests/Backend.antt =====
-- A Slack behind HTTP, made of its answers to a URL and a body.
use crossplane_provider_slac.Base.{◌≡◌, refl, String, ◌<>◌, none, []}
use crossplane_provider_slac.Base.Text.{value_or_empty}
use crossplane_provider_slac.Errors.{Result, ok}
use crossplane_provider_slac.Slack.Json.{Json}
use crossplane_provider_slac.Slack.Form.{Form}
use crossplane_provider_slac.Slack.Client.{
  Library, Client, Envelope, decode_envelope, new_client, prepared, encoded,
}
use crossplane_provider_slac.Slack.Client.Delivery.{Server, Delivery}

pub record Backend (W Reply : Type 0) : Type 0 where
  pub body_of : Form → String
  pub respond : String → String → W → Reply × W
  pub json : Reply → Json
  pub text : Reply → String
  pub parse : String → Result Json
  pub parse-text : (r : Reply) → parse (text r) ≡ ok (json r)
  pub envelope : Reply → Envelope
  pub decode-json : (r : Reply) → decode_envelope (json r) ≡ ok (envelope r)

abbrev pub url_of : String → String
url_of method = "https://slack.com/api" <> ("/" <> method)

module _ {W Reply : Type 0} (b : Backend W Reply) where
  abbrev pub library_of : Library W (String × String)
  library_of = record {
    default_http = record {
      send = λ req w.
          let (r, w1) = b.respond req.0 req.1 w in
          (ok (record { status = 200; retry_after = ""; body = b.text r }), w1);
      clone = λ req. req;
      close = λ resp w. w;
      sleep = λ d w. (ok tt, w);
      random_below = λ limit w. (0, w);
      parse_int = λ text. none;
    };
    new_request = λ url text. ok (url, value_or_empty text);
    set_header = λ name value req. req;
    set_get_body = λ text req. req;
    encode = b.body_of;
    read_all = λ resp w. (ok resp.body, w);
    parse_json = b.parse;
  }

  abbrev pub bot_of : Client W (String × String)
  bot_of = new_client library_of "xoxb-1" []

  abbrev pub server_of : Server W
  server_of = record {
    answer = λ method form w.
        let (r, w1) = b.respond (url_of method) (b.body_of form) w in (b.json r, w1);
    envelope = λ method form w. b.envelope (b.respond (url_of method) (b.body_of form) w).0;
    enveloped = λ method form w. b.decode-json (b.respond (url_of method) (b.body_of form) w).0;
  }

  pub delivered_by :
      (method : String) (form : Form) (w : W) → Delivery library_of bot_of server_of method form w
  unfolding new_client prepared encoded
  delivered_by method form w = record {
    text = b.text (b.respond (url_of method) (b.body_of form) w).0;
    answers = record {
      req = _;
      resp = record {
        status = 200;
        retry_after = "";
        body = b.text (b.respond (url_of method) (b.body_of form) w).0;
      };
      builds = refl;
      sends = refl;
      status = refl;
      reads = refl;
      closes = refl;
    };
    parses = b.parse-text (b.respond (url_of method) (b.body_of form) w).0;
  }
