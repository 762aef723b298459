-- ===== src/Conversation/Remote.antt =====
-- internal/controller/conversation/conversation.go over internal/clients/slack: what Observe makes of
-- an answer of Slack.
use crossplane_provider_slac.Base.{
  ℕ, ◌≡◌, refl, ◌≢◌, ap, ◌∙◌, String, true, false, ◌==◌, eq_iff, Bool-cases, inl, inr, ◌⊎◌, eq_refl,
}
use crossplane_provider_slac.Base.Text.{==-eq-false}
use crossplane_provider_slac.Errors.{Error, ok, err, has_code, as_slack, wrap}
use crossplane_provider_slac.Runtime.{
  Runtime, IsLawful, ready, synced, status_true, external_name, absent, condition,
}
use crossplane_provider_slac.Runtime.Laws.{ready-available}
use crossplane_provider_slac.Slack.Types.{Conversation}
use crossplane_provider_slac.Slack.Json.Encode.{channel_answer, error_answer, IsSmall}
use crossplane_provider_slac.Slack.Client.{Library, Client, refused}
use crossplane_provider_slac.Slack.Client.Conversations.Info.{
  AnswersInfo, get_conversation_info_answered, get_conversation_info_refused,
}
use crossplane_provider_slac.Slack.Client.Assembly.{slack_client}
use crossplane_provider_slac.Conversation.{
  State, is_channel_id, is_up_to_date, not_found, err_observe, observe, observe_named, looked_up,
  adopt, observe_channel, observed, observe_error,
}

-- The resource has a channel ID as its external name.
pub record HasChannel (R : Runtime) {W : Type 0} (s : State R W) : Type 0 where
  pub named : external_name s.cr ≢ ""
  pub is_id : is_channel_id (external_name s.cr) ≡ true

module _ (R : Runtime) (L : IsLawful R) {W Request : Type 0} (lib : Library W Request) (bound : ℕ)
    (c : Client W Request) where
  -- Observe with the HTTP client: if Slack answers conversations.info for the channel ID that is the
  -- external name with a channel that is not archived, whose integers fit into an int64, Observe
  -- reports a resource that exists and that is up to date exactly as isUpToDate says of that channel;
  -- the status has the channel's fields, and Ready is true.
  pub observe-channel_answer :
      (s : State R W) (conv : Conversation) (after : W)
      → HasChannel R s
      → AnswersInfo lib c (external_name s.cr) s.world (channel_answer conv) after
      → IsSmall conv
      → conv.is_archived ≡ false
      → ((observe R (slack_client lib bound c) s).0
          ≡ ok (record {
            resource_exists = true;
            resource_up_to_date = is_up_to_date s.cr.for_provider conv;
          }))
        × ((observe R (slack_client lib bound c) s).1.cr.at_provider ≡ record {
          id = conv.id;
          is_archived = false;
          num_members = conv.num_members;
          created = conv.created;
        })
        × ((condition (observe R (slack_client lib bound c) s).1.cr ready).status ≡ status_true)
  unfolding observe observe_named looked_up adopt observe_channel observed
  observe-channel_answer s conv after h a small lives =
      rw
        (
          ==-eq-false h.named,
          h.is_id,
          get_conversation_info_answered lib c _ _ after conv a small,
          lives,
        )
        (refl, refl, ap (λ x. x.status) (ready-available L s.cr.conditions) ∙ L.available_status)

  -- Observe with the HTTP client: if Slack answers conversations.info for the channel ID that is the
  -- external name with an error code, Observe reports an absent resource and the condition NotFound
  -- if the code is channel_not_found, and returns an error that carries the code otherwise.
  pub observe-error_answer :
      (s : State R W) (code : String) (after : W)
      → HasChannel R s
      → AnswersInfo lib c (external_name s.cr) s.world (error_answer code) after
      → ((code ≡ "channel_not_found")
          × ((observe R (slack_client lib bound c) s).0 ≡ ok absent)
          × (condition (observe R (slack_client lib bound c) s).1.cr synced ≡ not_found))
        ⊎ ((code ≢ "channel_not_found")
            × ((e : Error) × ((observe R (slack_client lib bound c) s).0 ≡ err e)
                × (has_code code e ≡ true)))
  unfolding observe observe_named looked_up adopt observe_channel observe_error has_code as_slack
  observe-error_answer s code after h a =
      rw (==-eq-false h.named, h.is_id, get_conversation_info_refused lib c _ code _ after a)
        (elim (Bool-cases (code == "channel_not_found")) [
          | inl e ↦ inl (
            (eq_iff code "channel_not_found").0 e,
            rw e refl,
            rw e (L.get-set_condition s.cr.conditions not_found),
          )
          | inr e ↦ inr (
            λ same. let t = (eq_iff code "channel_not_found").1 same in cc t,
            (wrap err_observe (refused "conversations.info" code), rw e refl, eq_refl code),
          )
        ])
