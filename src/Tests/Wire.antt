-- ===== src/Tests/Wire.antt =====
-- A Slack that answers each request by the next of some texts, over which the HTTP client runs.
use crossplane_provider_slac.Base.{ℕ, suc, refl, String, ◌<>◌, Option, none, some, [], ◌∷◌}
use crossplane_provider_slac.Errors.{Result, ok}
use crossplane_provider_slac.Slack.Retry.{Response, Http}
use crossplane_provider_slac.Slack.Json.{Json}
use crossplane_provider_slac.Slack.Form.{Form}
use crossplane_provider_slac.Slack.Client.{Library, Client, new_client}
use crossplane_provider_slac.Slack.Client.Laws.{Answers}

-- A request is its address and its body; the world counts the requests.
abbrev pub Post : Type 0
Post = String × String

abbrev pub server : (ℕ → Result Response) → Http ℕ Post
server answer = record {
  send = λ req n. (answer n, suc n);
  clone = λ req. req;
  close = λ resp n. n;
  sleep = λ d n. (ok tt, n);
  random_below = λ limit n. (0, n);
  parse_int = λ text. none;
}

abbrev pub body_of : Option String → String
body_of none = ""
body_of (some text) = text

abbrev pub encode : Form → String
encode [] = ""
encode ((k, v) ∷ form) = k <> ("=" <> (v <> ("&" <> encode form)))

abbrev pub library : (ℕ → Result Response) → (String → Result Json) → Library ℕ Post
library answer parse = record {
  default_http = server answer;
  new_request = λ url body. ok (url, body_of body);
  set_header = λ name value req. req;
  set_get_body = λ body req. req;
  encode = encode;
  read_all = λ resp n. (ok resp.body, n);
  parse_json = parse;
}

abbrev pub text_response : String → Result Response
text_response text = ok (record { status = 200; retry_after = ""; body = text })

abbrev pub client : (ℕ → Result Response) → (String → Result Json) → Client ℕ Post
client answer parse = new_client (library answer parse) "xoxb-1" []

-- Every request has the same answer.
abbrev pub constant : Json → Library ℕ Post
constant j = library (λ n. text_response "answer") (λ text. ok j)

abbrev pub constant_client : Json → Client ℕ Post
constant_client j = client (λ n. text_response "answer") (λ text. ok j)

pub constant-Answers :
    (j : Json) (method : String) (params : Option Form) (n : ℕ)
    → Answers (constant j) (constant_client j) method params n "answer" (suc n)
unfolding new_client
constant-Answers j method params n = record {
  req = _;
  resp = record { status = 200; retry_after = ""; body = "answer" };
  builds = refl;
  sends = refl;
  status = refl;
  reads = refl;
  closes = refl;
}
