-- ===== src/Conversation/Http/EndToEnd.antt =====
-- The Conversation controller over HTTP, from one call to the next.
use crossplane_provider_slac.Base.{ℕ, ◌≡◌, String, Option}
use crossplane_provider_slac.Errors.{ok}
use crossplane_provider_slac.Runtime.{Runtime, IsLawful, absent}
use crossplane_provider_slac.Slack.Form.{Form}
use crossplane_provider_slac.Slack.Client.{Library, Client}
use crossplane_provider_slac.Slack.Client.Delivery.{Server, Delivery}
use crossplane_provider_slac.Slack.Client.Assembly.{slack_client}
use crossplane_provider_slac.Conversation.{State, observe, delete}
use crossplane_provider_slac.Conversation.Service.{Channel}
use crossplane_provider_slac.Conversation.Remote.{HasChannel}
use crossplane_provider_slac.Conversation.Lifecycle.{delete-observe_channel}
use crossplane_provider_slac.Conversation.Http.{KeepsChannels}
use crossplane_provider_slac.Conversation.Http.Refinement.{slack_client-IsChannelService}

-- Where the external name is a channel ID, the network delivers Slack's answers, and Slack keeps its
-- channels by the methods and the forms of its API: after a Delete over HTTP that succeeds, the next
-- Observe over HTTP reports that the resource does not exist.
pub delete-observe_http :
    (R : Runtime) (L : IsLawful R) {W Request : Type 0} (lib : Library W Request)
    (c : Client W Request) (s : Server W)
    → ((method : String) (form : Form) (w : W) → Delivery lib c s method form w)
    → (bound : ℕ) (view : W → String → Option Channel) (stored : String → String)
    → KeepsChannels s view stored
    → (t : State R W) → HasChannel R t
    → (delete R (slack_client lib bound c) t).0 ≡ ok tt
    → (observe R (slack_client lib bound c) (delete R (slack_client lib bound c) t).1).0 ≡ ok absent
delete-observe_http R L lib c s delivers bound view stored keeps t h done =
    delete-observe_channel R L (slack_client lib bound c) view stored
      (slack_client-IsChannelService lib c s delivers bound view stored keeps) t h.named h.is_id
      done
