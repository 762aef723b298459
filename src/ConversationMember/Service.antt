-- ===== src/ConversationMember/Service.antt =====
-- What Slack promises of channel members, as far as the membership controller relies on it.
use crossplane_provider_slac.Base.{String, ◌≡◌, true, false, Option, none, some, List}
use crossplane_provider_slac.Errors.{Error, ok, err, has_code}
use crossplane_provider_slac.Slack.Api.{ClientApi}
use crossplane_provider_slac.ConversationMember.{is_member}

-- `members` is Slack's list of members of a channel, `none` for a channel that is missing.
pub record IsMemberService {W : Type 0} (api : ClientApi W)
    (members : W → String → Option (List String)) : Type 0 where
  pub lists :
      (channel : String) (w : W) (us : List String)
      → members w channel ≡ some us
      → (api.get_conversation_members channel w).0 ≡ ok us
  pub lists_missing :
      (channel : String) (w : W)
      → members w channel ≡ none
      → (e : Error) × ((api.get_conversation_members channel w).0 ≡ err e)
        × (has_code "channel_not_found" e ≡ true)
  pub invites :
      (channel user : String) (w : W)
      → (api.invite_to_conversation channel user w).0 ≡ ok tt
      → (us : List String) × (members (api.invite_to_conversation channel user w).1 channel
          ≡ some us)
        × (is_member user us ≡ true)
  pub already_in_channel :
      (channel user : String) (w : W) (e : Error)
      → (api.invite_to_conversation channel user w).0 ≡ err e
      → has_code "already_in_channel" e ≡ true
      → (us : List String) × (members (api.invite_to_conversation channel user w).1 channel
          ≡ some us)
        × (is_member user us ≡ true)
  pub kicks :
      (channel user : String) (w : W)
      → (api.kick_from_conversation channel user w).0 ≡ ok tt
      → (us : List String) × (members (api.kick_from_conversation channel user w).1 channel
          ≡ some us)
        × (is_member user us ≡ false)
  pub not_in_channel :
      (channel user : String) (w : W) (e : Error)
      → (api.kick_from_conversation channel user w).0 ≡ err e
      → has_code "not_in_channel" e ≡ true
      → (us : List String) × (members (api.kick_from_conversation channel user w).1 channel
          ≡ some us)
        × (is_member user us ≡ false)
  pub channel_not_found :
      (channel user : String) (w : W) (e : Error)
      → (api.kick_from_conversation channel user w).0 ≡ err e
      → has_code "channel_not_found" e ≡ true
      → members (api.kick_from_conversation channel user w).1 channel ≡ none
