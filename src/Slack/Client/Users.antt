-- ===== src/Slack/Client/Users.antt =====
-- internal/clients/slack/users.go
use crossplane_provider_slac.Base.{String, Option, some, []}
use crossplane_provider_slac.Errors.{Result}
use crossplane_provider_slac.Act.{Act, pure, ◌>>=◌}
use crossplane_provider_slac.Slack.Types.{User}
use crossplane_provider_slac.Slack.Json
use crossplane_provider_slac.Slack.Json.{Json, field, members_of}
use crossplane_provider_slac.Slack.Json.Decode.{decode_user}
use crossplane_provider_slac.Slack.Form.{set}
use crossplane_provider_slac.Slack.Client.{Library, Client, call_method}
use crossplane_provider_slac.Slack.Client.Conversations.{unmarshal}

unfoldable pub user_of : Json → Result User
unfolding decode_user
user_of j = Json.bind (members_of j) λ ms. decode_user (field "user" ms)

module _ {W Request : Type 0} (lib : Library W Request) (c : Client W Request) where
  -- The pointer that is returned is never nil.
  unfoldable pub lookup_user_by_email : String → Act W (Option User)
  unfolding user_of unmarshal
  lookup_user_by_email email = do
    raw ← call_method lib c "users.lookupByEmail" (some (set "email" email []))
    user ← unmarshal lib c user_of raw
    pure (some user)
