-- ===== src/Conversation/Lifecycle.antt =====
-- The Conversation controller against Slack: what Observe reports after Create and after Delete.
use crossplane_provider_slac.Base.{
  String, ◌≡◌, ◌≢◌, refl, sym, ap, ◌∙◌, true, false, Option, none, some, eq_iff, arith,
  if◌then◌else◌, Bool-cases, Option-cases, inl, inr,
}
use crossplane_provider_slac.Base.Text.{==-eq-false, value_or_empty}
use crossplane_provider_slac.Errors.{ok, Result-cases, has_code}
use crossplane_provider_slac.Act.{Act, >>=-eq-ok}
use crossplane_provider_slac.Runtime.{Runtime, IsLawful, external_name, with_external_name, absent}
use crossplane_provider_slac.Slack.Types.{Conversation}
use crossplane_provider_slac.Slack.Api.{ClientApi}
use crossplane_provider_slac.Conversation.{
  State, is_channel_id, is_set, is_set_true, observe, create, delete, created, set_topic_if,
  set_purpose_if, ConversationParameters, delete_channel,
}
use crossplane_provider_slac.Conversation.AutoLink.{strip_slack_auto_links}
use crossplane_provider_slac.Conversation.Service.{Channel, new_channel, IsChannelService}
use crossplane_provider_slac.Conversation.Convergence.{
  Agrees, ReadsBack, observe-found, set_topic_if-view, set_purpose_if-view,
}

-- A new channel with the topic and the purpose that the spec sets.
furnished : (String → String) → ConversationParameters → Channel
furnished stored p =
    let ch1 : Channel =
      if is_set p.topic
      then record (new_channel p.name) { topic = stored (value_or_empty p.topic) }
      else new_channel p.name in
    if is_set p.purpose then record ch1 { purpose = stored (value_or_empty p.purpose) } else ch1

is_set-eq-false : (t : Option String) → is_set t ≡ false → value_or_empty t ≡ ""
unfolding is_set
is_set-eq-false none h = refl
is_set-eq-false (some t) h = ground (arith, eq_iff t "")

strip-empty : strip_slack_auto_links "" ≡ ""
unfolding strip_slack_auto_links
strip-empty = refl

furnished_text :
    (stored : String → String) (t : Option String)
    → strip_slack_auto_links (stored (value_or_empty t)) ≡ value_or_empty t
    → strip_slack_auto_links (if is_set t then stored (value_or_empty t) else "") ≡ value_or_empty t
furnished_text stored t back = elim (Bool-cases (is_set t)) [
  | inl e ↦ rw e back
  | inr e ↦ rw (e, is_set-eq-false t e) strip-empty
]

furnished-fields :
    (stored : String → String) (p : ConversationParameters)
    → furnished stored p ≡ record {
      name = p.name;
      topic = if is_set p.topic then stored (value_or_empty p.topic) else "";
      purpose = if is_set p.purpose then stored (value_or_empty p.purpose) else "";
      archived = false;
    }
unfolding furnished
furnished-fields stored p = ground arith

furnished-Agrees :
    (stored : String → String) (p : ConversationParameters)
    → ReadsBack stored p
    → Agrees p (furnished stored p) × ((furnished stored p).archived ≡ false)
furnished-Agrees stored p back =
    rw (furnished-fields stored p)
      ((refl, furnished_text stored p.topic back.0, furnished_text stored p.purpose back.1), refl)

module _ (R : Runtime) (L : IsLawful R) {W : Type 0} (api : ClientApi W)
    (view : W → String → Option Channel) (stored : String → String)
    (S : IsChannelService api view stored) where
  created-view :
      (p : ConversationParameters) (c : Conversation) (s : State R W)
      → view s.world c.id ≡ some (new_channel p.name)
      → (created R api p c s).0 ≡ ok tt
      → ((created R api p c s).1.cr ≡ with_external_name c.id s.cr)
        × (view (created R api p c s).1.world c.id ≡ some (furnished stored p))
  unfolding created furnished
  created-view p c s v done =
      let s0 : State R W = record s { cr = with_external_name c.id s.cr } in
      let m2 : Act (State R W) (Unit {0}) = set_topic_if R api (is_set p.topic) c.id p.topic in
      let m3 : Act (State R W) (Unit {0}) =
        set_purpose_if R api (is_set p.purpose) c.id p.purpose in
      let (_, p2, q2) = >>=-eq-ok m2 (λ _. m3) s0 done in
      let (cr2, v2) =
        set_topic_if-view R api view stored S (is_set p.topic) c.id p.topic s0 _ v p2 in
      let (cr3, v3) =
        set_purpose_if-view R api view stored S (is_set p.purpose) c.id p.purpose (m2 s0).1 _ v2
          (ap (λ r. r.0) (sym q2) ∙ done) in
      rw q2 (cr3 ∙ cr2, v3)

  create-created :
      (s : State R W) (c : Conversation)
      → (api.create_conversation s.cr.for_provider.name
          (is_set_true s.cr.for_provider.is_private)
          s.world).0
        ≡ ok c
      → create R api s
        ≡ created R api s.cr.for_provider c (record s {
          world =
              (api.create_conversation s.cr.for_provider.name
                (is_set_true s.cr.for_provider.is_private)
                s.world).1;
        })
  unfolding create
  create-created s c e = rw e refl

  -- Where Slack creates the channel and Create succeeds, and the form in which Slack stores the
  -- desired topic and purpose is stripped back to them: the external name is the channel's ID, and
  -- the next Observe reports an existing resource that is up to date.
  pub create-observe_channel :
      (s : State R W) (c : Conversation)
      → (api.create_conversation s.cr.for_provider.name
          (is_set_true s.cr.for_provider.is_private)
          s.world).0
        ≡ ok c
      → ReadsBack stored s.cr.for_provider
      → (create R api s).0 ≡ ok tt
      → (external_name (create R api s).1.cr ≡ c.id)
        × ((observe R api (create R api s).1).0
            ≡ ok (record { resource_exists = true; resource_up_to_date = true }))
  create-observe_channel s c e back done =
      let p = s.cr.for_provider in
      let s1 : State R W = record s {
        world = (api.create_conversation p.name (is_set_true p.is_private) s.world).1;
      } in
      let (_, ne, is_id, v) = S.creates p.name (is_set_true p.is_private) s.world c e in
      let q = create-created s c e in
      let (same, v') = created-view p c s1 v (ap (λ r. r.0) (sym q) ∙ done) in
      let (agrees, live) = furnished-Agrees stored p back in
      let named = ap external_name same ∙ L.get-set_external_name s.cr.meta c.id in
      rw q (
        named,
        observe-found R api view stored S (created R api p c s1).1 (furnished stored p)
            (rw named ne) (rw named is_id) (rw named v') live (rw same agrees),
      )

  observe-missing :
      (t : State R W)
      → external_name t.cr ≢ ""
      → is_channel_id (external_name t.cr) ≡ true
      → view t.world (external_name t.cr) ≡ none
      → (observe R api t).0 ≡ ok absent
  unfolding observe
  observe-missing t named is_id v =
      let (e, p, k) = S.info_missing _ t.world v in rw (==-eq-false named, is_id, p, k) refl

  pub observe-archived :
      (t : State R W) (ch : Channel)
      → external_name t.cr ≢ ""
      → is_channel_id (external_name t.cr) ≡ true
      → view t.world (external_name t.cr) ≡ some ch
      → ch.archived ≡ true
      → (observe R api t).0 ≡ ok absent
  unfolding observe
  observe-archived t ch named is_id v gone =
      let (c, e, k) = S.info_found _ t.world ch v in
      rw (==-eq-false named, is_id, e, ap (λ (d : Channel). d.archived) k ∙ gone) refl

  -- Where the external name is a channel ID: however Delete came to succeed, because Slack archived
  -- the channel or because it has none of that ID, the next Observe reports that the resource does
  -- not exist.
  pub delete-observe_channel :
      (s : State R W)
      → external_name s.cr ≢ ""
      → is_channel_id (external_name s.cr) ≡ true
      → (delete R api s).0 ≡ ok tt
      → (observe R api (delete R api s).1).0 ≡ ok absent
  unfolding delete
  delete-observe_channel s named is_id =
      let id = external_name s.cr in
      let t : State R W = record s { world = (api.archive_conversation id s.world).1 } in
      let missing = λ (v : view s.world id ≡ none).
        observe-missing t named is_id (S.archives_missing id s.world v) in
      rw (==-eq-false named) (elim (Result-cases (api.archive_conversation id s.world).0) [
        | inl (_, e) ↦
            rw (e, delete_channel)
              (λ done. elim (Option-cases (view s.world id)) [
                | inl v ↦ missing v
                | inr (ch, v) ↦ observe-archived t _ named is_id (S.archives id s.world ch v e) refl
              ])
        | inr (e, p) ↦
            rw (p, delete_channel)
              (elim (Bool-cases (has_code "channel_not_found" e)) [
                | inl k ↦ rw k (λ done. missing (S.archive_not_found id s.world e p k))
                | inr k ↦ rw k (λ done. cc)
              ])
      ])
