-- ===== src/Tests/Composition.antt =====
-- The theorems on controllers over the HTTP client, over the test Slack.
use crossplane_provider_slac.Base.{
  ℕ, ◌≡◌, ◌≢◌, refl, ◌⊎◌, String, true, false, none, some, List, [], ◌∷◌,
}
use crossplane_provider_slac.Base.Lists.{here}
use crossplane_provider_slac.Base.Int.{ℤ, pos}
use crossplane_provider_slac.Errors.{Error, ok, err, has_code}
use crossplane_provider_slac.Slack.Api.{ClientApi}
use crossplane_provider_slac.Runtime.{absent, ready, synced, status_true, condition}
use crossplane_provider_slac.Slack.Types.{UserGroup}
use crossplane_provider_slac.Slack.Json.{Json}
use crossplane_provider_slac.Slack.Json.Encode.{
  channel_answer, error_answer, user_groups_answer, no_dates, one_date,
}
use crossplane_provider_slac.Slack.Client.Assembly.{slack_client}
use crossplane_provider_slac.Slack.Client.Conversations.Info.{AnswersInfo}
use crossplane_provider_slac.Slack.Client.UserGroups.Listed.{AnswersGroups}
use crossplane_provider_slac.Conversation
use crossplane_provider_slac.Conversation.{
  ConversationParameters, ConversationObservation, is_channel_id, is_up_to_date, not_found,
}
use crossplane_provider_slac.Conversation.Remote.{
  HasChannel, observe-channel_answer, observe-error_answer,
}
use crossplane_provider_slac.UserGroup
use crossplane_provider_slac.UserGroup.{UserGroupParameters, UserGroupObservation, find_group}
use crossplane_provider_slac.UserGroup.Remote.{observe-groups_answer}
use crossplane_provider_slac.Tests.Fixtures.{test_runtime, test_runtime-IsLawful, session}
use crossplane_provider_slac.Tests.Wire.{constant, constant_client, constant-Answers}
use crossplane_provider_slac.Tests.Remote.{channel, channel-IsSmall}

abbrev desired : ConversationParameters
desired = record { name = "general"; is_private = none; topic = none; purpose = none }

abbrev unobserved : ConversationObservation
unobserved = record { id = ""; is_archived = false; num_members = pos 0; created = pos 0 }

abbrev before : Conversation.State test_runtime ℕ
before = session "C1" desired unobserved 0

before-HasChannel : HasChannel test_runtime before
unfolding is_channel_id
before-HasChannel = record { named = λ h. cc; is_id = refl }

info_answered : (j : Json) → AnswersInfo (constant j) (constant_client j) "C1" 0 j 1
info_answered j = record {
  text = "answer";
  answers = constant-Answers j "conversations.info" _ 0;
  parses = refl;
}

abbrev api : Json → ClientApi ℕ
api j = slack_client (constant j) 5 (constant_client j)

observe-channel_answer_example :
    ((Conversation.observe test_runtime (api (channel_answer (channel "C1" "general"))) before).0
      ≡ ok (record {
        resource_exists = true;
        resource_up_to_date = is_up_to_date desired (channel "C1" "general");
      }))
    × ((Conversation.observe test_runtime
          (api (channel_answer (channel "C1" "general")))
          before).1.cr.at_provider
        ≡ record { id = "C1"; is_archived = false; num_members = pos 2; created = pos 1700000000 })
    × ((condition
          (Conversation.observe test_runtime
            (api (channel_answer (channel "C1" "general")))
            before).1.cr
          ready).status
        ≡ status_true)
observe-channel_answer_example =
    observe-channel_answer test_runtime test_runtime-IsLawful
      (constant (channel_answer (channel "C1" "general"))) 5
      (constant_client (channel_answer (channel "C1" "general"))) before (channel "C1" "general") 1
      before-HasChannel (info_answered (channel_answer (channel "C1" "general")))
      (channel-IsSmall "C1" "general") refl

abbrev lost : String
lost = "channel_not_found"

observe-error_answer_example :
    ((lost ≡ "channel_not_found")
      × ((Conversation.observe test_runtime (api (error_answer lost)) before).0 ≡ ok absent)
      × (condition (Conversation.observe test_runtime (api (error_answer lost)) before).1.cr synced
          ≡ not_found))
    ⊎ ((lost ≢ "channel_not_found")
        × ((e : Error) × ((Conversation.observe test_runtime (api (error_answer lost)) before).0
              ≡ err e)
            × (has_code lost e ≡ true)))
observe-error_answer_example =
    observe-error_answer test_runtime test_runtime-IsLawful (constant (error_answer lost)) 5
      (constant_client (error_answer lost)) before lost 1 before-HasChannel
      (info_answered (error_answer lost))

-- A group that was disabled, as Slack lists it.
abbrev disabled_group : UserGroup
disabled_group = record {
  id = "S1";
  name = "Ops";
  handle = "ops";
  description = "";
  is_enabled = true;
  created_by = "U1";
  date_create = pos 1700000000;
}

abbrev groups : List (UserGroup × ℤ)
groups = (disabled_group, pos 1710000000) ∷ []

abbrev group_wanted : UserGroupParameters
group_wanted = record { name = "Ops"; handle = "ops"; description = none }

abbrev before_group : UserGroup.State test_runtime ℕ
before_group =
    session "S1" group_wanted
      (record { id = ""; is_enabled = false; created_by = ""; date_create = pos 0 }) 0

groups_answered :
    AnswersGroups
      (constant (user_groups_answer groups))
      (constant_client (user_groups_answer groups))
      0
      groups
      1
groups_answered = record {
  text = "answer";
  answers = constant-Answers (user_groups_answer groups) "usergroups.list" _ 0;
  parses = refl;
  small = one_date disabled_group (pos 1710000000) [] refl no_dates;
}

observe-groups_answer_example :
    (UserGroup.observe test_runtime (api (user_groups_answer groups)) before_group).0
    ≡ ok (record { resource_exists = true; resource_up_to_date = true })
observe-groups_answer_example =
    observe-groups_answer test_runtime (constant (user_groups_answer groups)) 5
      (constant_client (user_groups_answer groups)) before_group groups 1 (some disabled_group)
      (λ h. cc) groups_answered (here disabled_group [] refl)
