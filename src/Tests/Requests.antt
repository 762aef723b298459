-- ===== src/Tests/Requests.antt =====
-- A world that lists the requests that were sent, where Slack limits the rate of the first ones.
use crossplane_provider_slac.Base.{
  ◌≡◌, refl, String, Option, none, some, List, [], ◌∷◌, ◌==◌, eq_refl, if◌then◌else◌,
}
use crossplane_provider_slac.Base.Text.{==-eq-false}
use crossplane_provider_slac.Errors.{ok}
use crossplane_provider_slac.Slack.Json.{null}
use crossplane_provider_slac.Slack.Retry.{Http, Response}
use crossplane_provider_slac.Slack.Retry.Invariant.{Keeps}
use crossplane_provider_slac.Slack.Client.{Library, Client, call_method}
use crossplane_provider_slac.Slack.Client.Requests.{HasHeaders, IsOwn, call_method-keeps}

record Post : Type 0 where
  url : String
  headers : String → Option String

abbrev World : Type 0
World = List Post

abbrev limited : List Post → Response
limited [] = record { status = 429; retry_after = "1"; body = "" }
limited (p ∷ ps) = record { status = 200; retry_after = ""; body = "{}" }

abbrev wire : Http World Post
wire = record {
  send = λ req w. (ok (limited w), req ∷ w);
  clone = λ req. req;
  close = λ resp w. w;
  sleep = λ d w. (ok tt, w);
  random_below = λ limit w. (0, w);
  parse_int = λ text. none;
}

abbrev library : Library World Post
library = record {
  default_http = wire;
  new_request = λ url body. ok (record { url = url; headers = λ name. none });
  set_header = λ name value req. record req {
    headers = λ other. if other == name then some value else req.headers other;
  };
  set_get_body = λ body req. req;
  encode = λ form. "";
  read_all = λ resp w. (ok resp.body, w);
  parse_json = λ text. ok null;
}

abbrev bot : Client World Post
bot = record { http_client = wire; token = "xoxb-1"; base_url = "https://slack.test" }

ok-eq : {a b : Post} → ok a ≡ ok b → a ≡ b
ok-eq p = cc

library-HasHeaders : HasHeaders library
library-HasHeaders = record {
  address = λ req. req.url;
  canonical = λ name. name;
  two_names = λ h. cc;
  header = λ name req. req.headers name;
  address-new = λ url body req e. rw (← ok-eq e) refl;
  address-set = λ name value req. refl;
  address-hook = λ body req. refl;
  header-set = λ name value req. rw (eq_refl name) refl;
  header-set_other = λ name other value req h. rw (==-eq-false h) refl;
  header-hook = λ name body req. refl;
}

-- All the requests that were sent are the client's own.
abbrev AllOwn : World → Type 0
AllOwn [] = Unit {0}
AllOwn (p ∷ ps) = IsOwn library bot library-HasHeaders "pins.add" p × AllOwn ps

wire-Keeps : Keeps wire (IsOwn library bot library-HasHeaders "pins.add") AllOwn
wire-Keeps = record {
  sends = λ req w own all. (own, all);
  clones = λ req own. own;
  closes = λ resp w all. all;
  sleeps = λ d w all. all;
  randoms = λ n w all. all;
}

call_method-keeps_example : AllOwn (call_method library bot "pins.add" none []).1
call_method-keeps_example =
    call_method-keeps library bot library-HasHeaders "pins.add" AllOwn wire-Keeps
      (λ resp w all. all) none [] tt
