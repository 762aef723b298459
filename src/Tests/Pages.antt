-- ===== src/Tests/Pages.antt =====
-- The theorems on lists that are read page by page, over the test Slack.
use crossplane_provider_slac.Base.{
  ℕ, ◌≡◌, Option, refl, String, List, [], ◌∷◌, ◌==◌, nat_eq, if◌then◌else◌, arith,
}
use crossplane_provider_slac.Base.Lists.{First}
use crossplane_provider_slac.Errors.{Result, ok}
use crossplane_provider_slac.Slack.Types.{Conversation}
use crossplane_provider_slac.Slack.Retry.{Response}
use crossplane_provider_slac.Slack.Json.{Json}
use crossplane_provider_slac.Slack.Json.Encode.{channels_answer, AllSmall, none_left, one_more}
use crossplane_provider_slac.Slack.Client.{new_client}
use crossplane_provider_slac.Slack.Client.Pages.{find_conversation_by_name}
use crossplane_provider_slac.Slack.Client.Pages.Listing.{concat, last_page, page_before}
use crossplane_provider_slac.Slack.Client.Pages.Served.{
  AnswersPages, find_conversation_by_name-pages,
}
use crossplane_provider_slac.Tests.Wire.{library, client, text_response}
use crossplane_provider_slac.Tests.Remote.{channel, channel-IsSmall}

-- Two pages of one channel each.
abbrev paged : ℕ → Result Response
paged n = if nat_eq n 0 then text_response "first" else text_response "second"

abbrev parse_page : String → Result Json
parse_page text =
    if text == "first"
    then ok (channels_answer (channel "C1" "general" ∷ []) "dGVhbTpDMQ==")
    else ok (channels_answer (channel "C2" "random" ∷ []) "")

abbrev pages : List (List Conversation)
pages = (channel "C1" "general" ∷ []) ∷ (channel "C2" "random" ∷ []) ∷ []

page_alone : (id name : String) → AllSmall (channel id name ∷ [])
page_alone id name = one_more (channel id name) [] (channel-IsSmall id name) none_left

pages_answered : AnswersPages (library paged parse_page) (client paged parse_page) "" 0 pages
unfolding new_client
pages_answered =
    page_before "" 0 (channel "C1" "general" ∷ []) "dGVhbTpDMQ==" 1
      ((channel "C2" "random" ∷ []) ∷ [])
      (record {
        text = "first";
        answers = λ form asks. record {
          req = _;
          resp = record { status = 200; retry_after = ""; body = "first" };
          builds = refl;
          sends = refl;
          status = refl;
          reads = refl;
          closes = refl;
        };
        parses = refl;
        small = page_alone "C1" "general";
      })
      (λ h. cc)
      (last_page "dGVhbTpDMQ==" 1 (channel "C2" "random" ∷ []) 2 (record {
        text = "second";
        answers = λ form asks. record {
          req = _;
          resp = record { status = 200; retry_after = ""; body = "second" };
          builds = refl;
          sends = refl;
          status = refl;
          reads = refl;
          closes = refl;
        };
        parses = refl;
        small = page_alone "C2" "random";
      }))

find_conversation_by_name-pages_example :
    (found : Option Conversation) × ((find_conversation_by_name
        (library paged parse_page)
        (client paged parse_page)
        2
        "random"
        0).0
      ≡ ok found)
    × First (λ channel. channel.name ≡ "random") (concat pages) found
find_conversation_by_name-pages_example =
    find_conversation_by_name-pages (library paged parse_page) (client paged parse_page) 2 "random"
      0 pages pages_answered (omega arith)
