-- ===== src/Slack/Client/Pages/Served.antt =====
-- internal/clients/slack/conversations.go: FindConversationByName and GetConversationMembers over the
-- answers of Slack.
use crossplane_provider_slac.Base.{
  ℕ, ◌≤◌, ◌≡◌, refl, sym, ◌∙◌, String, Option, none, some, List, [], ◌∷◌, ◌==◌, eq_iff, Bool-cases,
  if◌then◌else◌, inl, inr,
}
use mathlib.Core.Bool.{false≢true}
use crossplane_provider_slac.Slack.Form.{Form, get, set, set_given}
use crossplane_provider_slac.Base.Lists.{length, First, nowhere, here, further}
use crossplane_provider_slac.Errors.{ok}
use crossplane_provider_slac.Slack.Types.{Conversation}
use crossplane_provider_slac.Slack.Json.{members_of, field, same_key, string_of, bool_of, list_of}
use crossplane_provider_slac.Slack.Json.Encode.{
  channels_answer, AllSmall, read_all_conversations, members_answer, read_all_strings,
}
use crossplane_provider_slac.Slack.Client.{Library, Client, decode_envelope, accepted, check_answer}
use crossplane_provider_slac.Slack.Client.Laws.{Answers, call_method_answered}
use crossplane_provider_slac.Slack.Client.Conversations.{unmarshal}
use crossplane_provider_slac.Slack.Client.Pages.{
  page_of, with_cursor, list_form, find_named, list_page, find_conversation_by_name, members_form,
  members_page, get_conversation_members,
}
use crossplane_provider_slac.Slack.Client.Pages.Listing.{
  concat, Chain, Chain-Serves, find_in_pages-concat, collect_pages-concat,
}

-- The form asks for the page at a cursor, where the first page has none, of all the channels, those that
-- are archived included.
pub record AsksPage (cursor : String) (form : Form) : Type 0 where
  pub at_cursor : get "cursor" form ≡ (if cursor == "" then none else some cursor)
  pub all_of_them : get "exclude_archived" form ≡ some "false"

list_form-AsksPage : (cursor : String) → AsksPage cursor (list_form cursor)
unfolding list_form with_cursor set_given set get
list_form-AsksPage cursor = elim (Bool-cases (cursor == "")) [
  | inl e ↦ record { at_cursor = rw e refl; all_of_them = rw e refl }
  | inr e ↦ record { at_cursor = rw e refl; all_of_them = rw e refl }
]

-- The search finds the first channel of the name.
find_named-First :
    (name : String) (cs : List Conversation) → First (λ c. c.name ≡ name) cs (find_named name cs)
unfolding find_named
find_named-First name [] = nowhere
find_named-First name (c ∷ cs) = elim (Bool-cases (c.name == name)) [
  | inl e ↦ rw e (here c cs ((eq_iff c.name name).0 e))
  | inr e ↦ rw e (
      further c cs _ (λ p. false≢true (sym e ∙ (eq_iff c.name name).1 p))
        (find_named-First name cs))
]

module _ {W Request : Type 0} (lib : Library W Request) (c : Client W Request) where
  -- Slack answers every request for the page at a cursor, archived channels included, with these
  -- channels and the next cursor.
  pub record AnswersPage (cursor : String) (w : W) (cs : List Conversation) (next : String)
      (after : W) : Type 0 where
    pub text : String
    pub answers :
        (form : Form)
        → AsksPage cursor form
        → Answers lib c "conversations.list" (some form) w text after
    pub parses : lib.parse_json text ≡ ok (channels_answer cs next)
    pub small : AllSmall cs

  list_page_answered :
      (cursor next : String) (w after : W) (cs : List Conversation)
      → AnswersPage cursor w cs next after
      → list_page lib c cursor w ≡ (ok (record { entries = cs; next_cursor = next }), after)
  unfolding list_page check_answer accepted decode_envelope page_of members_of field same_key
      string_of bool_of list_of unmarshal
  list_page_answered cursor next w after cs a =
      rw
        (
          call_method_answered lib c "conversations.list" (some (list_form cursor)) w after a.text
              (a.answers (list_form cursor) (list_form-AsksPage cursor)),
          a.parses,
          a.parses,
          read_all_conversations cs a.small,
        )
        refl

  -- Slack answers the requests from a cursor on with these pages.
  abbrev pub AnswersPages : String → W → List (List Conversation) → Type 0
  AnswersPages = Chain AnswersPage

  -- If Slack answers the requests of FindConversationByName with pages of channels, of which the last
  -- one alone gives no next cursor, and their number is within the bound on the loop, the method
  -- returns the first channel of all the pages together whose name is the given one, or none if there
  -- is none. The answer to a request depends on the cursor that it sends, which the first one does not,
  -- and on its asking for archived channels too.
  pub find_conversation_by_name-pages :
      (bound : ℕ) (name : String) (w : W) (pages : List (List Conversation))
      → AnswersPages "" w pages
      → length pages ≤ bound
      → (found : Option Conversation) × ((find_conversation_by_name lib c bound name w).0
          ≡ ok found)
        × First (λ channel. channel.name ≡ name) (concat pages) found
  unfolding find_conversation_by_name
  find_conversation_by_name-pages bound name w pages a le = (
    find_named name (concat pages),
    find_in_pages-concat (list_page lib c) name "" w pages bound
        (Chain-Serves AnswersPage (list_page lib c)
          (λ cursor v cs next after. list_page_answered cursor next v after cs) "" w pages a)
        le,
    find_named-First name (concat pages),
  )

  -- Slack answers the request for the page at a cursor of a channel's members with these IDs and the
  -- next cursor.
  pub record AnswersMembers (channel cursor : String) (w : W) (ids : List String) (next : String)
      (after : W) : Type 0 where
    pub text : String
    pub answers :
        Answers lib c "conversations.members" (some (members_form channel cursor)) w text after
    pub parses : lib.parse_json text ≡ ok (members_answer ids next)

  members_page_answered :
      (channel cursor next : String) (w after : W) (ids : List String)
      → AnswersMembers channel cursor w ids next after
      → members_page lib c channel cursor w
        ≡ (ok (record { entries = ids; next_cursor = next }), after)
  unfolding members_page check_answer accepted decode_envelope page_of members_of field same_key
      string_of bool_of list_of unmarshal
  members_page_answered channel cursor next w after ids a =
      rw
        (
          call_method_answered lib c "conversations.members" (some (members_form channel cursor)) w
              after a.text a.answers,
          a.parses,
          a.parses,
          read_all_strings ids,
        )
        refl

  -- If Slack answers the requests of GetConversationMembers with pages of user IDs, of which the last
  -- one alone gives no next cursor, and their number is within the bound on the loop, the method
  -- returns the IDs of all the pages, in order.
  pub get_conversation_members-pages :
      (bound : ℕ) (channel : String) (w : W) (pages : List (List String))
      → Chain (AnswersMembers channel) "" w pages
      → length pages ≤ bound
      → (get_conversation_members lib c bound channel w).0 ≡ ok (concat pages)
  unfolding get_conversation_members
  get_conversation_members-pages bound channel w pages a le =
      collect_pages-concat (members_page lib c channel) "" w pages bound
        (Chain-Serves (AnswersMembers channel) (members_page lib c channel)
          (λ cursor v ids next after. members_page_answered channel cursor next v after ids) "" w
          pages a)
        le
