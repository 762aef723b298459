-- ===== src/Errors.antt =====
-- internal/clients/slack/errors.go: the errors that the program builds and inspects, and results.
-- `wrap` is fmt.Errorf("message: %w", cause) and crossplane-runtime's errors.Wrap, which both unwrap
-- to their cause.
pub mod Laws
use crossplane_provider_slac.Base.{
  ◌≡◌, ◌≢◌, refl, ◌⊎◌, inl, inr, String, ◌<>◌, Bool, true, false, ◌||◌, Option, none, some, ◌==◌,
  if◌then◌else◌,
}

-- type SlackError struct
pub record SlackError : Type 0 where
  pub code : String
  pub message : String

-- The four families of errors that `IsNetworkError` looks for.
pub data NetworkKind : Type 0 where
  net_error op_error dns_error syscall_error : NetworkKind

pub data Error : Type 0 where
  slack : SlackError → Error
  retriable : Error → Error
  wrap : String → Error → Error
  network : NetworkKind → String → Error
  plain : String → Error

-- func (e *SlackError) Error, func (e *RetriableError) Error, and the texts of the other errors.
unfoldable pub error_text : Error → String
error_text (slack e) = "slack: " <> (e.code <> (": " <> e.message))
error_text (retriable e) = "retriable: " <> error_text e
error_text (wrap message e) = message <> (": " <> error_text e)
error_text (network kind message) = message
error_text (plain message) = message

-- func (e *RetriableError) Unwrap, and the cause of a wrapped error.
unfoldable pub unwrap : Error → Option Error
unwrap (retriable e) = some e
unwrap (wrap message e) = some e
unwrap _ = none

-- errors.As(err, &slackErr): the first *SlackError of the chain.
unfoldable pub as_slack : Error → Option SlackError
as_slack (slack e) = some e
as_slack (retriable e) = as_slack e
as_slack (wrap message e) = as_slack e
as_slack (network kind message) = none
as_slack (plain message) = none

-- errors.As(err, &re) for *RetriableError.
unfoldable pub has_retriable : Error → Bool
has_retriable (retriable e) = true
has_retriable (wrap message e) = has_retriable e
has_retriable (slack e) = false
has_retriable (network kind message) = false
has_retriable (plain message) = false

-- func (e *SlackError) IsRetriable
unfoldable pub is_retriable : SlackError → Bool
is_retriable e =
    e.code == "internal_error" || (e.code == "fatal_error" || e.code == "request_timeout")

unfoldable pub slack_is_retriable : Option SlackError → Bool
slack_is_retriable none = false
slack_is_retriable (some e) = is_retriable e

-- func IsRetriableError; nil is `none`.
unfoldable pub is_retriable_error : Option Error → Bool
unfolding slack_is_retriable
is_retriable_error none = false
is_retriable_error (some e) = if has_retriable e then true else slack_is_retriable (as_slack e)

unfoldable pub has_network : Error → Bool
has_network (network kind message) = true
has_network (retriable e) = has_network e
has_network (wrap message e) = has_network e
has_network (slack e) = false
has_network (plain message) = false

-- func IsNetworkError
unfoldable pub is_network_error : Option Error → Bool
unfolding has_network
is_network_error none = false
is_network_error (some e) = has_network e

-- errors.As(err, &slackErr) && slackErr.Code == code
unfoldable pub has_code : String → Error → Bool
unfolding as_slack
has_code code e = elim (as_slack e) [ none ↦ false | some s ↦ s.code == code ]

pub data Result (A : Type 0) : Type 0 where
  ok : A → Result A
  err : Error → Result A

-- To split on a computed result and keep the equation.
pub Result-cases :
    {A : Type 0} (r : Result A) → ((a : A) × (r ≡ ok a)) ⊎ ((e : Error) × (r ≡ err e))
Result-cases (ok a) = inl (a, refl)
Result-cases (err e) = inr (e, refl)

pub err-ne-ok : {A : Type 0} {r : Result A} {e : Error} {a : A} → r ≡ err e → r ≢ ok a
err-ne-ok p q = cc
