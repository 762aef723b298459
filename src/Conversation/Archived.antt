-- ===== src/Conversation/Archived.antt =====
-- internal/controller/conversation/conversation.go: the name of a channel that is archived.
use crossplane_provider_slac.Base.{String, ◌≡◌, ◌≢◌, refl, true, Option, some}
use crossplane_provider_slac.Errors.{Error, ok, err, has_code}
use crossplane_provider_slac.Runtime.{Runtime, IsLawful, external_name, absent}
use crossplane_provider_slac.Slack.Api.{ClientApi}
use crossplane_provider_slac.Slack.Types.{Conversation}
use crossplane_provider_slac.Conversation.{
  State, is_channel_id, observe, create, create_error, create_taken,
}
use crossplane_provider_slac.Conversation.Service.{Channel, IsChannelService}
use crossplane_provider_slac.Conversation.Adoption.{tried, create-adopt}
use crossplane_provider_slac.Conversation.Lifecycle.{observe-archived}

module _ (R : Runtime) (L : IsLawful R) {W : Type 0} (api : ClientApi W)
    (view : W → String → Option Channel) (stored : String → String)
    (S : IsChannelService api view stored) where
  -- The world after Create has tried and has searched.
  abbrev pub searched : State R W → W
  searched s = (api.find_conversation_by_name s.cr.for_provider.name (tried R L api s).1).1

  create_world :
      (s : State R W) (e : Error) (found : Conversation)
      → (tried R L api s).0 ≡ err e
      → has_code "name_taken" e ≡ true
      → (api.find_conversation_by_name s.cr.for_provider.name (tried R L api s).1).0
        ≡ ok (some found)
      → (create R api s).1.world ≡ searched s
  unfolding create create_error create_taken
  create_world s e found failed taken hit = rw (failed, taken, hit) refl

  -- If the name is taken and the search finds a channel that is archived, Create succeeds and takes
  -- the channel over, but the next Observe reports that the resource does not exist.
  pub create-archived :
      (s : State R W) (e : Error) (found : Conversation) (ch : Channel)
      → (tried R L api s).0 ≡ err e
      → has_code "name_taken" e ≡ true
      → (api.find_conversation_by_name s.cr.for_provider.name (tried R L api s).1).0
        ≡ ok (some found)
      → found.id ≢ ""
      → is_channel_id found.id ≡ true
      → view (searched s) found.id ≡ some ch
      → ch.archived ≡ true
      → ((create R api s).0 ≡ ok tt)
        × (external_name (create R api s).1.cr ≡ found.id)
        × ((observe R api (create R api s).1).0 ≡ ok absent)
  create-archived s e found ch failed taken hit ne is_id seen gone =
      let (done, named) = create-adopt R L api s e found failed taken hit in
      let world = create_world s e found failed taken hit in
      (
        done,
        named,
        observe-archived R L api view stored S (create R api s).1 ch (rw named ne) (rw named is_id)
            (rw (named, world) seen) gone,
      )
