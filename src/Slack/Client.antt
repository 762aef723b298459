-- ===== src/Slack/Client.antt =====
-- internal/clients/slack/client.go: the client's options and Do, over the libraries that it calls.
pub mod Conversations
pub mod Pages
pub mod Bookmarks
pub mod Pins
pub mod UserGroups
pub mod Users
pub mod Assembly
pub mod Laws
pub mod Delivery
pub mod Requests
use crossplane_provider_slac.Base.{
  String, ◌<>◌, Bool, true, false, Option, none, some, List, [], ◌∷◌, ◌==◌, if◌then◌else◌,
}
use crossplane_provider_slac.Errors.{
  Error, SlackError, slack, retriable, wrap, Result, ok, err, is_network_error,
}
use crossplane_provider_slac.Act.{Act, pure, fail, ◌>>=◌, ◌>>◌, attempt, or_wrap}
use crossplane_provider_slac.Slack.Retry.{Response, Http, closed, do_with_retry}
use crossplane_provider_slac.Slack.Json
use crossplane_provider_slac.Slack.Json.{Json, field, members_of, string_of, bool_of}
use crossplane_provider_slac.Slack.Form.{Form}

-- The Go library: the default HTTP client, http.NewRequestWithContext for a POST to an address with a
-- body, Header.Set, the GetBody hook with the body it gives (`none` is http.NoBody), url.Values.Encode, io.ReadAll and the parsing of JSON.
pub record Library (W Request : Type 0) : Type 0 where
  pub default_http : Http W Request
  pub new_request : String → Option String → Result Request
  pub set_header : String → String → Request → Request
  pub set_get_body : Option String → Request → Request
  pub encode : Form → String
  pub read_all : Response → Act W String
  pub parse_json : String → Result Json

pub record Client (W Request : Type 0) : Type 0 where
  pub http_client : Http W Request
  pub token : String
  pub base_url : String

abbrev pub default_base_url : String
default_base_url = "https://slack.com/api"

abbrev pub ClientOption : Type 0 → Type 0 → Type 0
ClientOption W Request = Client W Request → Client W Request

module _ {W Request : Type 0} where
  abbrev pub with_base_url : String → ClientOption W Request
  with_base_url url c = record c { base_url = url }

  abbrev pub with_http_client : Http W Request → ClientOption W Request
  with_http_client http c = record c { http_client = http }

  abbrev pub apply_options : List (ClientOption W Request) → Client W Request → Client W Request
  apply_options [] c = c
  apply_options (opt ∷ opts) c = apply_options opts (opt c)

-- The envelope of every answer.
pub record Envelope : Type 0 where
  pub is_ok : Bool
  pub error : String

unfoldable pub decode_envelope : Json → Result Envelope
decode_envelope j = Json.bind (members_of j) λ ms. Json.bind (bool_of (field "ok" ms)) λ is_ok.
    Json.bind (string_of (field "error" ms)) λ error. ok (record { is_ok = is_ok; error = error })

abbrev pub refused : String → String → Error
refused method code =
    slack
      (record { code = code; message = "slack API " <> (method <> (" returned error: " <> code)) })

unfoldable pub accepted : String → String → Result Envelope → Result String
accepted method text (err e) = err (wrap ("parsing response for " <> method) e)
accepted method text (ok envelope) =
    if envelope.is_ok then ok text else err (refused method envelope.error)

unfoldable pub execution_failure : String → Error → Error
unfolding is_network_error
execution_failure method e =
    if is_network_error (some e)
    then retriable (wrap ("executing request for " <> method) e)
    else wrap ("executing request for " <> method) e

module _ {W Request : Type 0} (lib : Library W Request) where
  unfoldable pub new_client : String → List (ClientOption W Request) → Client W Request
  new_client token opts =
      apply_options opts
        (record { http_client = lib.default_http; token = token; base_url = default_base_url })

  -- The text of an answer, checked.
  unfoldable pub check_answer : String → String → Result String
  unfolding accepted decode_envelope
  check_answer method text = accepted method text (Json.bind (lib.parse_json text) decode_envelope)

  unfoldable pub encoded : Option Form → Option String
  encoded none = none
  encoded (some params) = some (lib.encode params)

  unless_empty : String → Option String
  unless_empty text = if text == "" then none else some text

  -- The body that the hook gives.
  body_again : Option Form → Option String
  unfolding unless_empty
  body_again none = none
  body_again (some params) = unless_empty (lib.encode params)

  -- The headers and the hook of a request.
  unfoldable pub prepared : Client W Request → Option Form → Request → Request
  unfolding body_again
  prepared c params req = lib.set_get_body (body_again params) (
      lib.set_header "Content-Type" "application/x-www-form-urlencoded"
        (lib.set_header "Authorization" ("Bearer " <> c.token) req))

  checked : String → Result String → Act W String
  unfolding check_answer
  checked method (err e) w = (err (wrap ("reading response body for " <> method) e), w)
  checked method (ok text) w = (check_answer method text, w)

  -- Reads and closes the body, and checks the answer.
  answered : Client W Request → String → Response → Act W String
  unfolding checked closed
  answered c method resp = do
    text ← attempt (lib.read_all resp)
    closed c.http_client resp
    checked method text

  send_request : Client W Request → String → Request → Act W String
  unfolding answered execution_failure
  send_request c method req = do
    resp ← or_wrap (do_with_retry c.http_client req) (execution_failure method)
    answered c method resp

  send_built : Client W Request → String → Option Form → Result Request → Act W String
  unfolding send_request prepared
  send_built c method params (err e) = fail (wrap ("building request for " <> method) e)
  send_built c method params (ok req) = send_request c method (prepared c params req)

  unfoldable pub call_method : Client W Request → String → Option Form → Act W String
  unfolding send_built encoded
  call_method c method params =
      send_built c method params (lib.new_request (c.base_url <> ("/" <> method)) (encoded params))
