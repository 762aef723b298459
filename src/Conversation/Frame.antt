-- ===== src/Conversation/Frame.antt =====
-- What the handlers of the controller leave of a resource.
use crossplane_provider_slac.Base.{
  String, Bool, Option, none, some, not, true, ◌≡◌, refl, ap, ◌==◌, ◌||◌, arith, Bool-cases, inl,
  inr,
}
use crossplane_provider_slac.Act.{◌>>◌}
use crossplane_provider_slac.Base.Text.{value_or_empty}
use crossplane_provider_slac.Conversation.AutoLink.{strip_slack_auto_links}
use crossplane_provider_slac.Runtime.{Runtime, external_name, with_external_name}
use crossplane_provider_slac.Runtime.Frame.{desired, target, Keeps, bind-Keeps}
use crossplane_provider_slac.Slack.Types.{Conversation}
use crossplane_provider_slac.Slack.Api.{ClientApi}
use crossplane_provider_slac.Conversation.{
  ConversationParameters, adopt, is_channel_id, is_set, observe, observe_named, looked_up, State,
  Resource, align, create, create_error, create_taken, created, delete, delete_channel,
  observe_channel, observe_error, observed, rename_if, set_name_conflict_condition, set_purpose_if,
  set_topic_if, update,
}

module _ (R : Runtime) {W : Type 0} (api : ClientApi W) where
  set_topic_if-target :
      (b : Bool) (id : String) (t : Option String) → Keeps target (set_topic_if R api b id t)
  unfolding set_topic_if
  set_topic_if-target b id t s = ground arith

  set_purpose_if-target :
      (b : Bool) (id : String) (t : Option String) → Keeps target (set_purpose_if R api b id t)
  unfolding set_purpose_if
  set_purpose_if-target b id t s = ground arith

  rename_if-target : (b : Bool) (id name : String) → Keeps target (rename_if R api b id name)
  unfolding rename_if set_name_conflict_condition
  rename_if-target b id name s = ground arith

  observe_channel-target : (id : String) → Keeps target (observe_channel R api id)
  unfolding observe_channel observed observe_error
  observe_channel-target id s = ground arith

  created-desired :
      (p : ConversationParameters) (conv : Conversation) → Keeps desired (created R api p conv)
  unfolding created
  created-desired p conv s =
      ap (λ x. x.0)
        (bind-Keeps target (set_topic_if R api (is_set p.topic) conv.id p.topic)
          (λ _. set_purpose_if R api (is_set p.purpose) conv.id p.purpose)
          (set_topic_if-target (is_set p.topic) conv.id p.topic)
          (λ _. set_purpose_if-target (is_set p.purpose) conv.id p.purpose)
          (record s { cr = with_external_name conv.id s.cr }))

  corrections-target :
      (renames topics purposes : Bool) (id name : String) (topic purpose : Option String)
      → Keeps target (
          rename_if R api renames id name
          >> (set_topic_if R api topics id topic >> set_purpose_if R api purposes id purpose))
  corrections-target renames topics purposes id name topic purpose =
      bind-Keeps target (rename_if R api renames id name)
        (λ _. set_topic_if R api topics id topic >> set_purpose_if R api purposes id purpose)
        (rename_if-target renames id name)
        (λ _.
          bind-Keeps target (set_topic_if R api topics id topic)
            (λ _. set_purpose_if R api purposes id purpose) (set_topic_if-target topics id topic)
            (λ _. set_purpose_if-target purposes id purpose))

  align-target : (cr : Resource R) (conv : Conversation) → Keeps target (align R api cr conv)
  unfolding align
  align-target cr conv =
      corrections-target (not (cr.for_provider.name == conv.name))
        (not (value_or_empty cr.for_provider.topic == strip_slack_auto_links conv.topic.value))
        (not (value_or_empty cr.for_provider.purpose == strip_slack_auto_links conv.purpose.value))
        (external_name cr) cr.for_provider.name cr.for_provider.topic cr.for_provider.purpose

  adopt-desired : (name : String) → Keeps desired (adopt R api name)
  unfolding adopt
  adopt-desired name s = ground arith

  looked_up-desired : (id : Option String) → Keeps desired (looked_up R api id)
  unfolding looked_up
  looked_up-desired none s = refl
  looked_up-desired (some id) s = ap (λ x. x.0) (observe_channel-target id s)

  pub observe-desired : Keeps desired (observe R api)
  unfolding observe observe_named
  observe-desired s = elim (Bool-cases (external_name s.cr == "")) [
    | inl e ↦ rw e refl
    | inr e ↦ rw e (
        bind-Keeps desired (adopt R api (external_name s.cr)) (looked_up R api)
          (adopt-desired (external_name s.cr)) looked_up-desired s)
  ]

  -- An Observe of a resource without an external name, or with one that is a channel ID, leaves the
  -- metadata.
  pub observe-target :
      (s : State R W)
      → (external_name s.cr == "" || is_channel_id (external_name s.cr)) ≡ true
      → target (observe R api s).1.cr ≡ target s.cr
  unfolding observe observe_named looked_up adopt
  observe-target s h = elim (Bool-cases (external_name s.cr == "")) [
    | inl e ↦ rw e refl
    | inr e ↦ let is_id = rw e at h in rw (e, is_id) (observe_channel-target (external_name s.cr) s)
  ]

  pub create-desired : Keeps desired (create R api)
  unfolding create create_error create_taken
  create-desired s = grind (arith, created-desired)

  pub update-target : Keeps target (update R api)
  unfolding update
  update-target s = grind (arith, align-target)

  pub delete-target : Keeps target (delete R api)
  unfolding delete delete_channel
  delete-target s = ground arith
