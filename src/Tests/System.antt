-- ===== src/Tests/System.antt =====
-- A Conversation and a pin under the calls of their controllers.
use crossplane_provider_slac.Base.{◌≡◌, refl, true, false, none, some, List, [], ◌∷◌, map}
use crossplane_provider_slac.Base.Int.{pos}
use crossplane_provider_slac.Errors.{ok}
use crossplane_provider_slac.Slack.Api.{ClientApi}
use crossplane_provider_slac.Conversation.{is_channel_id}
use crossplane_provider_slac.System.{
  Resource, System, Event, handled, elsewhere, observes, creates, updates, deletes, run,
}
use crossplane_provider_slac.System.Invariants.{desired_of, run-desired}
use crossplane_provider_slac.System.Targets.{meta_of, all_settled, run-meta}
use crossplane_provider_slac.Tests.Fixtures.{test_runtime, no_api, no_kube, session}
use crossplane_provider_slac.Tests.Server.{kept_channel}

-- The world counts the pins that have been added.
abbrev slack_of_pins : ClientApi (List (Unit {0}))
slack_of_pins = record no_api {
  get_conversation_info = λ id w. (ok (kept_channel false false false false), w);
  add_pin = λ channel ts w. (ok tt, tt ∷ w);
  list_pins = λ channel w. (ok [], w);
}

abbrev both : System test_runtime (List (Unit {0}))
both = record {
  resources =
      Resource.conversation
        (session {W = Unit {0}} "C1"
          (record { name = "general"; is_private = none; topic = none; purpose = none })
          (record { id = ""; is_archived = false; num_members = pos 0; created = pos 0 }) tt).cr
      ∷ Resource.pin
          (session {W = Unit {0}} ""
            (record {
              conversation_id = some "C1";
              conversation_ref = none;
              message_timestamp = "1.2";
            })
            (record { channel_id = ""; pinned_at = pos 0 }) tt).cr
      ∷ [];
  world = [];
}

abbrev events : List (Event (List (Unit {0})))
events =
    handled 0 observes
    ∷ handled 1 creates
    ∷ elsewhere (λ w. [])
    ∷ handled 1 observes
    ∷ handled 0 updates
    ∷ []

run-desired_example :
    map desired_of (run test_runtime slack_of_pins no_kube events both).resources
    ≡ map desired_of both.resources
run-desired_example = run-desired test_runtime slack_of_pins no_kube events both

abbrev looks : List (Event (List (Unit {0})))
looks = handled 0 observes ∷ handled 1 deletes ∷ elsewhere (λ w. []) ∷ handled 0 deletes ∷ []

both_settled : all_settled both.resources ≡ true
unfolding is_channel_id
both_settled = refl

run-meta_example :
    map meta_of (run test_runtime slack_of_pins no_kube looks both).resources
    ≡ map meta_of both.resources
run-meta_example = run-meta test_runtime slack_of_pins no_kube looks both both_settled refl
