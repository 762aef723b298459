-- ===== src/Conversation/Convergence.antt =====
-- The Conversation controller against Slack: what one handler does, the next Observe sees.
use crossplane_provider_slac.Base.{
  ◌↔◌, String, ◌≡◌, ◌≢◌, refl, sym, ap, subst, ◌∙◌, Bool, true, false, not, Option, some, ◌==◌,
  eq_iff, arith, if◌then◌else◌, Bool-cases, inl, inr,
}
use crossplane_provider_slac.Base.Text.{==-eq-false, value_or_empty}
use crossplane_provider_slac.Errors.{Result, ok, wrap, Result-cases, has_code}
use crossplane_provider_slac.Act.{Act, ◌>>=◌, ◌>>◌, or_wrap, wrap_result-eq-ok, >>=-eq-ok}
use crossplane_provider_slac.Runtime.{Runtime, external_name, call}
use crossplane_provider_slac.Slack.Types.{Conversation}
use crossplane_provider_slac.Slack.Api.{ClientApi}
use crossplane_provider_slac.Conversation.{
  State, is_channel_id, is_up_to_date, observe, update, align, rename_if, set_topic_if,
  set_purpose_if, ConversationParameters, err_join, err_update,
}
use crossplane_provider_slac.Conversation.AutoLink.{strip_slack_auto_links}
use crossplane_provider_slac.Conversation.Service.{Channel, channel_of, IsChannelService}

-- Whether a channel is as the spec wants it.
abbrev pub Agrees : ConversationParameters → Channel → Type 0
Agrees p ch =
    (ch.name ≡ p.name)
    × (strip_slack_auto_links ch.topic ≡ value_or_empty p.topic)
    × (strip_slack_auto_links ch.purpose ≡ value_or_empty p.purpose)

is_up_to_date-Agrees :
    (p : ConversationParameters) (c : Conversation)
    → (is_up_to_date p c ≡ true) ↔ Agrees p (channel_of c)
unfolding is_up_to_date
is_up_to_date-Agrees p c = ground (
  arith,
  eq_iff p.name c.name,
  eq_iff (value_or_empty p.topic) (strip_slack_auto_links c.topic.value),
  eq_iff (value_or_empty p.purpose) (strip_slack_auto_links c.purpose.value),
)

-- Slack's form of the desired texts is stripped to the desired texts.
abbrev pub ReadsBack : (String → String) → ConversationParameters → Type 0
ReadsBack stored p =
    (strip_slack_auto_links (stored (value_or_empty p.topic)) ≡ value_or_empty p.topic)
    × (strip_slack_auto_links (stored (value_or_empty p.purpose)) ≡ value_or_empty p.purpose)

-- The channel after the corrections that Update finds necessary.
corrected : (String → String) → ConversationParameters → Channel → Channel
corrected stored p ch =
    let ch1 : Channel = if not (p.name == ch.name) then record ch { name = p.name } else ch in
    let ch2 : Channel =
      if not (value_or_empty p.topic == strip_slack_auto_links ch.topic)
      then record ch1 { topic = stored (value_or_empty p.topic) }
      else ch1 in
    if not (value_or_empty p.purpose == strip_slack_auto_links ch.purpose)
    then record ch2 { purpose = stored (value_or_empty p.purpose) }
    else ch2

corrected-Agrees :
    (stored : String → String) (p : ConversationParameters) (ch : Channel)
    → ReadsBack stored p
    → Agrees p (corrected stored p ch) × ((corrected stored p ch).archived ≡ ch.archived)
unfolding corrected
corrected-Agrees stored p ch back = ground (
  arith,
  eq_iff p.name ch.name,
  eq_iff (value_or_empty p.topic) (strip_slack_auto_links ch.topic),
  eq_iff (value_or_empty p.purpose) (strip_slack_auto_links ch.purpose),
)

module _ (R : Runtime) {W : Type 0} (api : ClientApi W) (view : W → String → Option Channel)
    (stored : String → String) (S : IsChannelService api view stored) where
  pub observe-found :
      (s : State R W) (ch : Channel)
      → external_name s.cr ≢ ""
      → is_channel_id (external_name s.cr) ≡ true
      → view s.world (external_name s.cr) ≡ some ch
      → ch.archived ≡ false
      → Agrees s.cr.for_provider ch
      → (observe R api s).0 ≡ ok (record { resource_exists = true; resource_up_to_date = true })
  unfolding observe is_up_to_date
  observe-found s ch named is_id v live agrees =
      let (c, e, k) = S.info_found _ s.world ch v in
      rw
        (
          ==-eq-false named,
          is_id,
          e,
          ap (λ (d : Channel). d.archived) k ∙ live,
          (is_up_to_date-Agrees s.cr.for_provider c).1
              (subst (Agrees s.cr.for_provider) (sym k) agrees),
        )
        refl

  rename_if-view :
      (needed : Bool) (id name : String) (s : State R W) (ch : Channel)
      → view s.world id ≡ some ch
      → (rename_if R api needed id name s).0 ≡ ok tt
      → ((rename_if R api needed id name s).1.cr ≡ s.cr)
        × (view (rename_if R api needed id name s).1.world id
            ≡ some (if needed then record ch { name = name } else ch))
  unfolding rename_if
  rename_if-view false id name s ch v = λ done. (refl, v)
  rename_if-view true id name s ch v =
      elim (Result-cases (api.rename_conversation id name s.world).0) [
        | inl (_, e) ↦ rw e (λ done. (refl, S.renames id name s.world ch v e))
        | inr (e, p) ↦ rw p (elim (Bool-cases (has_code "name_taken" e)) [
          | inl k ↦ rw k (λ done. cc)
          | inr k ↦ rw k (λ done. cc)
        ])
      ]

  pub set_topic_if-view :
      (needed : Bool) (id : String) (topic : Option String) (s : State R W) (ch : Channel)
      → view s.world id ≡ some ch
      → (set_topic_if R api needed id topic s).0 ≡ ok tt
      → ((set_topic_if R api needed id topic s).1.cr ≡ s.cr)
        × (view (set_topic_if R api needed id topic s).1.world id
            ≡ some (if needed then record ch { topic = stored (value_or_empty topic) } else ch))
  unfolding set_topic_if
  set_topic_if-view false id topic s ch v done = (refl, v)
  set_topic_if-view true id topic s ch v done =
      (refl, S.sets_topic id _ s.world ch v (wrap_result-eq-ok _ _ done))

  pub set_purpose_if-view :
      (needed : Bool) (id : String) (purpose : Option String) (s : State R W) (ch : Channel)
      → view s.world id ≡ some ch
      → (set_purpose_if R api needed id purpose s).0 ≡ ok tt
      → ((set_purpose_if R api needed id purpose s).1.cr ≡ s.cr)
        × (view (set_purpose_if R api needed id purpose s).1.world id
            ≡ some (if needed then record ch { purpose = stored (value_or_empty purpose) } else ch))
  unfolding set_purpose_if
  set_purpose_if-view false id purpose s ch v done = (refl, v)
  set_purpose_if-view true id purpose s ch v done =
      (refl, S.sets_purpose id _ s.world ch v (wrap_result-eq-ok _ _ done))

  align-view :
      (s : State R W) (c : Conversation)
      → ReadsBack stored s.cr.for_provider
      → view s.world (external_name s.cr) ≡ some (channel_of c)
      → (align R api s.cr c s).0 ≡ ok tt
      → ((align R api s.cr c s).1.cr ≡ s.cr)
        × (view (align R api s.cr c s).1.world (external_name s.cr)
            ≡ some (corrected stored s.cr.for_provider (channel_of c)))
  unfolding align corrected
  align-view s c back v done =
      let p = s.cr.for_provider in
      let id = external_name s.cr in
      let named = not (p.name == c.name) in
      let topical = not (value_or_empty p.topic == strip_slack_auto_links c.topic.value) in
      let purposed = not (value_or_empty p.purpose == strip_slack_auto_links c.purpose.value) in
      let m1 : Act (State R W) (Unit {0}) = rename_if R api named id p.name in
      let m2 : Act (State R W) (Unit {0}) = set_topic_if R api topical id p.topic in
      let m3 : Act (State R W) (Unit {0}) = set_purpose_if R api purposed id p.purpose in
      let (_, p1, q1) = >>=-eq-ok m1 (λ _. m2 >> m3) s done in
      let (cr1, v1) = rename_if-view named id p.name s (channel_of c) v p1 in
      let s1 = (m1 s).1 in
      let (_, p2, q2) = >>=-eq-ok m2 (λ _. m3) s1 (ap (λ r. r.0) (sym q1) ∙ done) in
      let (cr2, v2) = set_topic_if-view topical id p.topic s1 _ v1 p2 in
      let (cr3, v3) =
        set_purpose_if-view purposed id p.purpose (m2 s1).1 _ v2
          (ap (λ r. r.0) (sym (q1 ∙ q2)) ∙ done) in
      rw (q1 ∙ q2) (cr3 ∙ cr2 ∙ cr1, v3)

  ok-channel_of :
      (r : Result Conversation) (c c' : Conversation) (ch : Channel)
      → r ≡ ok c
      → channel_of c ≡ ch
      → r ≡ ok c'
      → channel_of c' ≡ ch
  ok-channel_of r c c' ch e k e' = cc

  update-view :
      (s : State R W) (ch : Channel)
      → ReadsBack stored s.cr.for_provider
      → view s.world (external_name s.cr) ≡ some ch
      → (update R api s).0 ≡ ok tt
      → ((update R api s).1.cr ≡ s.cr)
        × (view (update R api s).1.world (external_name s.cr)
            ≡ some (corrected stored s.cr.for_provider ch))
  unfolding update
  update-view s ch back v done =
      let id = external_name s.cr in
      let join : Act (State R W) (Unit {0}) =
        or_wrap (call (api.join_conversation id)) (wrap err_join) in
      let info : Act (State R W) Conversation =
        or_wrap (call (api.get_conversation_info id)) (wrap err_update) in
      let (_, _, q1) = >>=-eq-ok join (λ _. info >>= align R api s.cr) s done in
      let s1 = (join s).1 in
      let v1 : view s1.world id ≡ some ch = S.join_keeps id s.world ∙ v in
      let (c, p2, q2) = >>=-eq-ok info (align R api s.cr) s1 (ap (λ r. r.0) (sym q1) ∙ done) in
      let (c0, e0, k0) = S.info_found id s1.world ch v1 in
      let k = ok-channel_of _ c0 c ch e0 k0 (wrap_result-eq-ok _ _ p2) in
      let v2 : view (info s1).1.world id ≡ some (channel_of c) =
        S.info_keeps id s1.world ∙ v1 ∙ ap some (sym k) in
      let aligned = align-view (info s1).1 c back v2 (ap (λ r. r.0) (sym (q1 ∙ q2)) ∙ done) in
      rw (q1 ∙ q2, ← k) aligned

  -- Where the resource has a channel ID for its external name, the channel exists and is not
  -- archived, and the form in which Slack stores the desired topic and purpose is stripped back to
  -- them: after an Update that succeeds, Observe reports an existing resource that is up to date.
  pub update-observe_channel :
      (s : State R W) (ch : Channel)
      → external_name s.cr ≢ ""
      → is_channel_id (external_name s.cr) ≡ true
      → view s.world (external_name s.cr) ≡ some ch
      → ch.archived ≡ false
      → ReadsBack stored s.cr.for_provider
      → (update R api s).0 ≡ ok tt
      → (observe R api (update R api s).1).0
        ≡ ok (record { resource_exists = true; resource_up_to_date = true })
  update-observe_channel s ch named is_id v live back done =
      let (same, v') = update-view s ch back v done in
      let (agrees, archived) = corrected-Agrees stored s.cr.for_provider ch back in
      observe-found (update R api s).1 (corrected stored s.cr.for_provider ch) (rw (same) named)
        (rw (same) is_id) (rw (same) v') (archived ∙ live) (rw (same) agrees)
