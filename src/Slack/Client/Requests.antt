-- ===== src/Slack/Client/Requests.antt =====
-- internal/clients/slack/client.go: which requests Do sends.
use crossplane_provider_slac.Base.{◌≡◌, ◌∙◌, ◌≢◌, String, ◌<>◌, Option, some, inl, inr}
use crossplane_provider_slac.Errors.{ok, Result-cases}
use crossplane_provider_slac.Act.{or_wrap}
use crossplane_provider_slac.Slack.Retry.{Response, do_with_retry}
use crossplane_provider_slac.Slack.Retry.Invariant.{
  Keeps, >>=-keeps, closed-keeps, do_with_retry-keeps,
}
use crossplane_provider_slac.Slack.Form.{Form}
use crossplane_provider_slac.Slack.Client.{
  Library, Client, call_method, send_built, send_request, answered, checked, encoded, prepared,
  execution_failure,
}

-- What is read of a request: its address and its headers. Names of headers are compared in their
-- canonical form, in which the two that the client sets differ; setting a header or the hook leaves
-- the address and the other headers alone.
pub record HasHeaders {W Request : Type 0} (lib : Library W Request) : Type 0 where
  pub address : Request → String
  pub canonical : String → String
  pub two_names : canonical "Authorization" ≢ canonical "Content-Type"
  pub header : String → Request → Option String
  pub address-new :
      (url : String) (body : Option String) (req : Request)
      → lib.new_request url body ≡ ok req
      → address req ≡ url
  pub address-set :
      (name value : String) (req : Request) → address (lib.set_header name value req) ≡ address req
  pub address-hook :
      (body : Option String) (req : Request) → address (lib.set_get_body body req) ≡ address req
  pub header-set :
      (name value : String) (req : Request)
      → header name (lib.set_header name value req) ≡ some value
  pub header-set_other :
      (name other value : String) (req : Request)
      → canonical other ≢ canonical name
      → header other (lib.set_header name value req) ≡ header other req
  pub header-hook :
      (name : String) (body : Option String) (req : Request)
      → header name (lib.set_get_body body req) ≡ header name req

module _ {W Request : Type 0} (lib : Library W Request) (c : Client W Request)
    (H : HasHeaders lib) where
  -- A request to the method's address under the client's base address, with the client's token.
  pub IsOwn : String → Request → Type 0
  IsOwn method req =
      (H.address req ≡ c.base_url <> ("/" <> method))
      × (H.header "Authorization" req ≡ some ("Bearer " <> c.token))

  prepared-IsOwn :
      (method : String) (params : Option Form) (body : Option String) (req : Request)
      → lib.new_request (c.base_url <> ("/" <> method)) body ≡ ok req
      → IsOwn method (prepared lib c params req)
  unfolding IsOwn prepared
  prepared-IsOwn method params body req e = (
    H.address-hook _ _ ∙ H.address-set _ _ _ ∙ H.address-set _ _ _ ∙ H.address-new _ body req e,
    H.header-hook _ _ _ ∙ H.header-set_other _ _ _ _ H.two_names ∙ H.header-set _ _ _,
  )

  module _ (method : String) (Inv : W → Type 0) (K : Keeps c.http_client (IsOwn method) Inv)
      (reads : (resp : Response) (w : W) → Inv w → Inv (lib.read_all resp w).1) where
    answered-keeps : (resp : Response) (w : W) → Inv w → Inv (answered lib c method resp w).1
    unfolding answered checked
    answered-keeps resp w i = elim (Result-cases (lib.read_all resp w).0) [
      | inl (text, e) ↦
          rw e (closed-keeps c.http_client (IsOwn method) Inv K resp _ (reads resp w i))
      | inr (x, e) ↦ rw e (closed-keeps c.http_client (IsOwn method) Inv K resp _ (reads resp w i))
    ]

    -- Every request that Do sends goes to the method's address under the base address and carries the
    -- token: an invariant of the world that sending such requests keeps, and that reading and closing
    -- answers, waiting and drawing random numbers keep, is kept by Do, however it ends.
    pub call_method-keeps :
        (params : Option Form) (w : W) → Inv w → Inv (call_method lib c method params w).1
    unfolding call_method send_built send_request
    call_method-keeps params w i =
        elim (Result-cases (lib.new_request (c.base_url <> ("/" <> method)) (encoded lib params))) [
          | inl (req, e) ↦ rw e (
              >>=-keeps Inv
                (or_wrap (do_with_retry c.http_client (prepared lib c params req))
                  (execution_failure method))
                (answered lib c method) w
                (do_with_retry-keeps c.http_client (IsOwn method) Inv K (prepared lib c params req)
                  w (prepared-IsOwn method params _ req e) i)
                answered-keeps)
          | inr (x, e) ↦ rw e i
        ]
