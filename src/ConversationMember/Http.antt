-- ===== src/ConversationMember/Http.antt =====
-- The API of Slack for the members of a channel, as the methods of
-- internal/clients/slack/conversations.go use it.
pub mod Refinement
use crossplane_provider_slac.Base.{ℕ, ◌≤◌, ◌≡◌, String, true, false, Option, none, some, List, ◌⊎◌}
use crossplane_provider_slac.Base.Lists.{length}
use crossplane_provider_slac.Slack.Form.{Form, get}
use crossplane_provider_slac.Slack.Json.Encode.{error_answer, members_answer}
use crossplane_provider_slac.Slack.Client.Delivery.{Server}
use crossplane_provider_slac.Slack.Client.Pages.{members_form}
use crossplane_provider_slac.Slack.Client.Pages.Listing.{Chain, concat}
use crossplane_provider_slac.ConversationMember.{is_member}

-- The server answers the request for the page at a cursor with these IDs and the next cursor.
pub record Answered {W : Type 0} (s : Server W) (channel cursor : String) (w : W)
    (ids : List String) (next : String) (after : W) : Type 0 where
  pub answer :
      (s.answer "conversations.members" (members_form channel cursor) w).0 ≡ members_answer ids next
  pub goes_on : (s.answer "conversations.members" (members_form channel cursor) w).1 ≡ after

-- What Slack keeps of the members of channels, by the methods and the forms of its API: `members` are
-- the members of a channel, and a channel that is missing has `none`. The members come in pages, of
-- which the last one alone gives no next cursor, and whose number is within the bound.
pub record KeepsMembers {W : Type 0} (s : Server W) (bound : ℕ)
    (members : W → String → Option (List String)) : Type 0 where
  pub lists :
      (channel : String) (w : W) (us : List String)
      → members w channel ≡ some us
      → (pages : List (List String)) × Chain (Answered s channel) "" w pages
        × (length pages ≤ bound)
        × (concat pages ≡ us)
  pub lists_missing :
      (form : Form) (channel : String) (w : W)
      → get "channel" form ≡ some channel
      → members w channel ≡ none
      → (s.answer "conversations.members" form w).0 ≡ error_answer "channel_not_found"
  pub invites :
      (form : Form) (channel user : String) (w : W)
      → get "channel" form ≡ some channel
      → get "users" form ≡ some user
      → ((s.envelope "conversations.invite" form w).is_ok ≡ true)
        ⊎ (((s.envelope "conversations.invite" form w).is_ok ≡ false)
            × ((s.envelope "conversations.invite" form w).error ≡ "already_in_channel"))
      → (us : List String) × (members (s.answer "conversations.invite" form w).1 channel ≡ some us)
        × (is_member user us ≡ true)
  pub kicks :
      (form : Form) (channel user : String) (w : W)
      → get "channel" form ≡ some channel
      → get "user" form ≡ some user
      → ((s.envelope "conversations.kick" form w).is_ok ≡ true)
        ⊎ (((s.envelope "conversations.kick" form w).is_ok ≡ false)
            × ((s.envelope "conversations.kick" form w).error ≡ "not_in_channel"))
      → (us : List String) × (members (s.answer "conversations.kick" form w).1 channel ≡ some us)
        × (is_member user us ≡ false)
  pub kick_missing :
      (form : Form) (channel : String) (w : W)
      → get "channel" form ≡ some channel
      → (s.envelope "conversations.kick" form w).is_ok ≡ false
      → (s.envelope "conversations.kick" form w).error ≡ "channel_not_found"
      → members (s.answer "conversations.kick" form w).1 channel ≡ none
