-- ===== src/Slack/Client/Pages.antt =====
-- internal/clients/slack/conversations.go: the two methods that read page by page. Their loops have
-- no bound; here a number bounds the pages, and `unfinished` stands for a loop that has not ended
-- within it.
pub mod Listing
pub mod Served
use crossplane_provider_slac.Base.{
  ℕ, zero, suc, String, Bool, true, false, Option, none, some, List, [], ◌∷◌, ◌++◌, ◌==◌,
  if◌then◌else◌,
}
use crossplane_provider_slac.Errors.{Error, Result, ok, err, wrap, plain}
use crossplane_provider_slac.Act.{Act, pure, fail, ◌>>=◌, or_wrap}
use crossplane_provider_slac.Slack.Types.{Conversation}
use crossplane_provider_slac.Slack.Json
use crossplane_provider_slac.Slack.Json.{Json, field, members_of, string_of, list_of}
use crossplane_provider_slac.Slack.Json.Decode.{decode_conversation}
use crossplane_provider_slac.Slack.Form.{Form, set, set_given}
use crossplane_provider_slac.Slack.Client.{Library, Client, call_method}
use crossplane_provider_slac.Slack.Client.Conversations.{unmarshal}

-- A page of a list, and where the next one begins.
pub record Page (A : Type 0) : Type 0 where
  pub entries : List A
  pub next_cursor : String

unfoldable pub page_of : {A : Type 0} → String → (Json → Result A) → Json → Result (Page A)
page_of key decode j = Json.bind (members_of j) λ ms.
    Json.bind (list_of decode (field key ms)) λ entries.
      Json.bind (members_of (field "response_metadata" ms)) λ metadata.
        Json.bind (string_of (field "next_cursor" metadata))
          λ next. ok (record { entries = entries; next_cursor = next })

unfoldable pub with_cursor : String → Form → Form
unfolding set_given
with_cursor cursor form = set_given "cursor" cursor form

unfoldable pub list_form : String → Form
unfolding with_cursor
list_form cursor = with_cursor cursor (set "exclude_archived" "false" (set "limit" "200" []))

unfoldable pub members_form : String → String → Form
unfolding with_cursor
members_form channel cursor = with_cursor cursor (set "limit" "200" (set "channel" channel []))

-- The first channel of the name.
unfoldable pub find_named : String → List Conversation → Option Conversation
find_named name [] = none
find_named name (c ∷ cs) = if c.name == name then some c else find_named name cs

abbrev pub unfinished : Error
unfinished = plain "the list has more pages"

module _ {W : Type 0} where
  -- Returns the channel that was found, or goes on.
  found_or : Option Conversation → Act W (Option Conversation) → Act W (Option Conversation)
  found_or (some c) next = pure (some c)
  found_or none next = next

  -- The loop of FindConversationByName.
  unfoldable pub find_in_pages :
      (String → Act W (Page Conversation)) → ℕ → String → String → Act W (Option Conversation)
  unfolding find_named found_or
  find_in_pages read zero name cursor = fail unfinished
  find_in_pages read (suc n) name cursor = do
    page ← read cursor
    found_or (find_named name page.entries)
        (if page.next_cursor == "" then pure none else find_in_pages read n name page.next_cursor)

  -- The loop of GetConversationMembers.
  unfoldable pub collect_pages :
      {A : Type 0} → (String → Act W (Page A)) → ℕ → List A → String → Act W (List A)
  collect_pages read zero acc cursor = fail unfinished
  collect_pages read (suc n) acc cursor = do
    page ← read cursor
    if page.next_cursor == ""
        then pure (acc ++ page.entries)
        else collect_pages read n (acc ++ page.entries) page.next_cursor

module _ {W Request : Type 0} (lib : Library W Request) (c : Client W Request) where
  unfoldable pub list_page : String → Act W (Page Conversation)
  unfolding list_form page_of unmarshal decode_conversation
  list_page cursor = do
    raw ← call_method lib c "conversations.list" (some (list_form cursor))
    or_wrap (unmarshal lib c (page_of "channels" decode_conversation) raw)
        (wrap "parsing conversations.list response")

  unfoldable pub members_page : String → String → Act W (Page String)
  unfolding members_form page_of unmarshal
  members_page channel cursor = do
    raw ← call_method lib c "conversations.members" (some (members_form channel cursor))
    or_wrap (unmarshal lib c (page_of "members" string_of) raw)
        (wrap "parsing conversations.members response")

  unfoldable pub find_conversation_by_name : ℕ → String → Act W (Option Conversation)
  unfolding find_in_pages list_page
  find_conversation_by_name bound name = find_in_pages list_page bound name ""

  unfoldable pub get_conversation_members : ℕ → String → Act W (List String)
  unfolding collect_pages members_page
  get_conversation_members bound channel = collect_pages (members_page channel) bound [] ""
