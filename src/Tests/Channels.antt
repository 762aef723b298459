-- ===== src/Tests/Channels.antt =====
-- The Conversation controller over HTTP, on a Slack with one channel.
use crossplane_provider_slac.Base.{◌≡◌, refl, false, none}
use crossplane_provider_slac.Base.Int.{pos}
use crossplane_provider_slac.Errors.{ok}
use crossplane_provider_slac.Slack.Form.{get, set}
use crossplane_provider_slac.Slack.Client.Delivery.{call_only_delivered}
use crossplane_provider_slac.Slack.Client.Conversations.{archive_conversation, channel_form}
use crossplane_provider_slac.Slack.Client.Assembly.{slack_client}
use crossplane_provider_slac.Conversation.Service.{IsChannelService}
use crossplane_provider_slac.Conversation.Http.Refinement.{slack_client-IsChannelService}
use crossplane_provider_slac.Conversation.Http.EndToEnd.{delete-observe_http}
use crossplane_provider_slac.Conversation.Remote.{HasChannel}
use crossplane_provider_slac.Conversation.{State, observe, delete, is_channel_id}
use crossplane_provider_slac.Runtime.{absent}
use crossplane_provider_slac.Tests.Fixtures.{test_runtime, test_runtime-IsLawful, session}
use crossplane_provider_slac.Tests.Server.{World, present, slack, bot, server, delivered}
use crossplane_provider_slac.Tests.ChannelReads.{view}
use crossplane_provider_slac.Tests.ChannelWrites.{kept-all}

slack_client-IsChannelService_example :
    IsChannelService (slack_client slack 5 bot) view (λ text. text)
slack_client-IsChannelService_example =
    slack_client-IsChannelService slack bot server delivered 5 view (λ text. text) kept-all

abbrev managed : State test_runtime World
managed =
    session "C1" (record { name = "general"; is_private = none; topic = none; purpose = none })
      (record { id = "C1"; is_archived = false; num_members = pos 2; created = pos 1700000000 })
      (present false false false false)

managed-HasChannel : HasChannel test_runtime managed
unfolding is_channel_id
managed-HasChannel = record { named = λ h. cc; is_id = refl }

archived_over_http : (delete test_runtime (slack_client slack 5 bot) managed).0 ≡ ok tt
unfolding delete archive_conversation channel_form set get
archived_over_http =
    rw
      (call_only_delivered slack bot server delivered "conversations.archive" (channel_form "C1")
        (present false false false false))
      refl

delete-observe_http_example :
    (observe test_runtime
      (slack_client slack 5 bot)
      (delete test_runtime (slack_client slack 5 bot) managed).1).0
    ≡ ok absent
delete-observe_http_example =
    delete-observe_http test_runtime test_runtime-IsLawful slack bot server delivered 5 view
      (λ text. text) kept-all managed managed-HasChannel archived_over_http
