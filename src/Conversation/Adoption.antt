-- ===== src/Conversation/Adoption.antt =====
-- How the Conversation controller takes over a channel that exists already, and which conditions
-- and external names its handlers leave behind.
use crossplane_provider_slac.Base.{
  String, ◌≡◌, ◌≢◌, refl, ap, ◌∙◌, Bool, true, false, Option, none, some, inl, inr,
}
use crossplane_provider_slac.Base.Text.{==-eq-false}
use crossplane_provider_slac.Errors.{Error, Result, ok, err, wrap, Result-cases, has_code}
use crossplane_provider_slac.Act.{Act, ◌>>◌}
use crossplane_provider_slac.Runtime.{
  Runtime, IsLawful, synced, external_name, with_external_name, condition,
}
use crossplane_provider_slac.Slack.Api.{ClientApi}
use crossplane_provider_slac.Slack.Types.{Conversation}
use crossplane_provider_slac.Conversation.{
  State, is_channel_id, is_set_true, observe, create, created, err_create, name_conflict, is_set,
  ConversationParameters, set_topic_if, set_purpose_if,
}

module _ (R : Runtime) {W : Type 0} (api : ClientApi W) where
  set_topic_if-cr :
      (needed : Bool) (id : String) (topic : Option String) (s : State R W)
      → (set_topic_if R api needed id topic s).1.cr ≡ s.cr
  unfolding set_topic_if
  set_topic_if-cr false id topic s = refl
  set_topic_if-cr true id topic s = refl

  set_purpose_if-cr :
      (needed : Bool) (id : String) (purpose : Option String) (s : State R W)
      → (set_purpose_if R api needed id purpose s).1.cr ≡ s.cr
  unfolding set_purpose_if
  set_purpose_if-cr false id purpose s = refl
  set_purpose_if-cr true id purpose s = refl

  >>-cr :
      (m k : Act (State R W) (Unit {0})) (s : State R W)
      → ((t : State R W) → (m t).1.cr ≡ t.cr)
      → ((t : State R W) → (k t).1.cr ≡ t.cr)
      → ((m >> k) s).1.cr ≡ s.cr
  >>-cr m k s hm hk = elim (Result-cases (m s).0) [
    | inl (_, e) ↦ rw e (hk (m s).1 ∙ hm s)
    | inr (_, e) ↦ rw e (hm s)
  ]

  created-cr :
      (p : ConversationParameters) (conv : Conversation) (s : State R W)
      → (created R api p conv s).1.cr ≡ with_external_name conv.id s.cr
  unfolding created
  created-cr p conv s =
      >>-cr (set_topic_if R api (is_set p.topic) conv.id p.topic)
        (set_purpose_if R api (is_set p.purpose) conv.id p.purpose)
        (record s { cr = with_external_name conv.id s.cr })
        (set_topic_if-cr (is_set p.topic) conv.id p.topic)
        (set_purpose_if-cr (is_set p.purpose) conv.id p.purpose)

module _ (R : Runtime) (L : IsLawful R) {W : Type 0} (api : ClientApi W) where
  -- A resource whose external name is a channel's name is observed as one whose external name is
  -- the ID of the channel that the search finds. That ID looks like a channel ID.
  pub observe-adopt :
      (s : State R W) (conv : Conversation)
      → external_name s.cr ≢ ""
      → is_channel_id (external_name s.cr) ≡ false
      → (api.find_conversation_by_name (external_name s.cr) s.world).0 ≡ ok (some conv)
      → conv.id ≢ ""
      → is_channel_id conv.id ≡ true
      → observe R api s
        ≡ observe R api (record {
          cr = with_external_name conv.id s.cr;
          world = (api.find_conversation_by_name (external_name s.cr) s.world).1;
        })
  unfolding observe
  observe-adopt s conv named by_name found given is_id =
      rw
        (
          ==-eq-false named,
          by_name,
          found,
          L.get-set_external_name s.cr.meta conv.id,
          ==-eq-false given,
          is_id,
        )
        refl

  -- Once Slack has created the channel, its ID is the external name, whatever becomes of the topic
  -- and the purpose.
  create-external_name :
      (s : State R W) (conv : Conversation)
      → (api.create_conversation s.cr.for_provider.name
          (is_set_true s.cr.for_provider.is_private)
          s.world).0
        ≡ ok conv
      → external_name (create R api s).1.cr ≡ conv.id
  unfolding create
  create-external_name s conv e = rw e (
      ap external_name (created-cr R api s.cr.for_provider conv _)
      ∙ L.get-set_external_name s.cr.meta conv.id)

  -- The attempt of Create to create the channel.
  abbrev pub tried : State R W → Result Conversation × W
  tried s =
      api.create_conversation s.cr.for_provider.name (is_set_true s.cr.for_provider.is_private)
        s.world

  -- If the name is taken and the search finds the channel, Create succeeds with the ID of that
  -- channel as the external name.
  pub create-adopt :
      (s : State R W) (e : Error) (found : Conversation)
      → (tried s).0 ≡ err e
      → has_code "name_taken" e ≡ true
      → (api.find_conversation_by_name s.cr.for_provider.name (tried s).1).0 ≡ ok (some found)
      → ((create R api s).0 ≡ ok tt) × (external_name (create R api s).1.cr ≡ found.id)
  unfolding create
  create-adopt s e found failed taken hit =
      rw (failed, taken, hit) (refl, L.get-set_external_name s.cr.meta found.id)

  -- If the name is taken and the search finds no channel, Create fails with Slack's error, reports
  -- the conflict in the Synced condition and leaves the external name.
  create-conflict :
      (s : State R W) (e : Error)
      → (tried s).0 ≡ err e
      → has_code "name_taken" e ≡ true
      → (api.find_conversation_by_name s.cr.for_provider.name (tried s).1).0 ≡ ok none
      → ((create R api s).0 ≡ err (wrap err_create e))
        × (condition (create R api s).1.cr synced ≡ name_conflict)
        × (external_name (create R api s).1.cr ≡ external_name s.cr)
  unfolding create
  create-conflict s e failed taken miss =
      rw (failed, taken, miss) (refl, L.get-set_condition s.cr.conditions name_conflict, refl)
