-- ===== src/Tests/ChannelWrites.antt =====
-- What the test Slack with a channel does on calls that change it: the laws of its API.
use crossplane_provider_slac.Base.{
  ◌≡◌, ◌≢◌, refl, sym, ap, eq_iff, String, Bool, true, false, none, some, ◌==◌, if◌then◌else◌,
  Bool-cases, inl, inr,
}
use crossplane_provider_slac.Slack.Json.Encode.{IsSmall, channel_answer}
use crossplane_provider_slac.Conversation.Service.{Channel, new_channel}
use crossplane_provider_slac.Conversation.Http.{KeepsChannels}
use crossplane_provider_slac.Conversation.{is_channel_id}
use crossplane_provider_slac.Tests.Server.{
  kept_channel, World, nothing, present, restricted, reply_json, code_of, made, renamed_to,
  with_topic, with_purpose, archived, value_in, server,
}
use crossplane_provider_slac.Slack.Types.{Conversation}
use mathlib.Core.Bool.{false≢true}
use text.Mathlib.TextLemmas.{cons-ne-nil}
use crossplane_provider_slac.Tests.ChannelReads.{
  kept, view, small, some-eq, at_url, at_url-act, viewed, info_found, info_missing, info_world,
  join_world,
}

made_there :
    (private : Bool) (w : World)
    → (code_of
          (if (if private then "true" else "false") == "false" then made w else (restricted, w)).0
        == "")
      ≡ true
    → (c : Conversation) × (reply_json
          (if (if private then "true" else "false") == "false" then made w else (restricted, w)).0
        ≡ channel_answer c)
      × IsSmall c
      × (c.is_private ≡ private)
      × (c.id ≢ "")
      × (is_channel_id c.id ≡ true)
      × (view
            (if (if private then "true" else "false") == "false" then made w else (restricted, w)).1
            c.id
          ≡ some (new_channel "general"))
unfolding is_channel_id
made_there true w o = absurd (false≢true o)
made_there false (present r t p a) o = absurd (false≢true o)
made_there false nothing o = (
  kept_channel false false false false,
  refl,
  small false false false false,
  refl,
  cons-ne-nil "C" "1",
  refl,
  refl,
)

created :
    (id name topic purpose : String) (private : Bool) (w : World)
    → (code_of
          (at_url "conversations.create" id name topic purpose
            (if private then "true" else "false")
            w).0
        == "")
      ≡ true
    → (c : Conversation) × (reply_json
          (at_url "conversations.create" id name topic purpose
            (if private then "true" else "false")
            w).0
        ≡ channel_answer c)
      × IsSmall c
      × (c.is_private ≡ private)
      × (c.id ≢ "")
      × (is_channel_id c.id ≡ true)
      × (view
            (at_url "conversations.create" id name topic purpose
              (if private then "true" else "false")
              w).1
            c.id
          ≡ some (new_channel name))
created id name topic purpose private w = elim (Bool-cases (name == "general")) [
  | inl e ↦ rw (at_url-act, (eq_iff name "general").0 e) (made_there private w)
  | inr e ↦ rw (at_url-act, e) (λ o. absurd (false≢true o))
]

renamed_there :
    (to_random : Bool) (w : World) (ch : Channel)
    → kept w ≡ some ch
    → kept (renamed_to to_random w).1
      ≡ some (record ch { name = if to_random then "random" else "general" })
renamed_there b nothing ch v = cc
renamed_there b (present r t p a) ch v = rw (← some-eq v) refl

renamed :
    (id name topic purpose private : String) (w : World) (ch : Channel)
    → view w id ≡ some ch
    → (code_of (at_url "conversations.rename" id name topic purpose private w).0 == "") ≡ true
    → view (at_url "conversations.rename" id name topic purpose private w).1 id
      ≡ some (record ch { name = name })
renamed id name topic purpose private w ch v =
    let (e, there) = viewed w id ch v in
    elim (Bool-cases (name == "general")) [
      | inl f ↦
          rw (at_url-act, e, (eq_iff name "general").0 f) (λ o. renamed_there false w ch there)
      | inr f ↦ elim (Bool-cases (name == "random")) [
        | inl g ↦
            rw (at_url-act, e, (eq_iff name "random").0 g) (λ o. renamed_there true w ch there)
        | inr g ↦ rw (at_url-act, e, f, g) (λ o. absurd (false≢true o))
      ]
    ]

topic_there :
    (w : World) (ch : Channel)
    → kept w ≡ some ch
    → kept (with_topic w).1 ≡ some (record ch { topic = "News" })
topic_there nothing ch v = cc
topic_there (present r t p a) ch v = rw (← some-eq v) refl

topic_set :
    (id name topic purpose private : String) (w : World) (ch : Channel)
    → view w id ≡ some ch
    → (code_of (at_url "conversations.setTopic" id name topic purpose private w).0 == "") ≡ true
    → view (at_url "conversations.setTopic" id name topic purpose private w).1 id
      ≡ some (record ch { topic = topic })
topic_set id name topic purpose private w ch v =
    let (e, there) = viewed w id ch v in
    elim (Bool-cases (topic == "News")) [
      | inl f ↦ rw (at_url-act, e, (eq_iff topic "News").0 f) (λ o. topic_there w ch there)
      | inr f ↦ rw (at_url-act, e, f) (λ o. absurd (false≢true o))
    ]

purpose_there :
    (w : World) (ch : Channel)
    → kept w ≡ some ch
    → kept (with_purpose w).1 ≡ some (record ch { purpose = "Talk" })
purpose_there nothing ch v = cc
purpose_there (present r t p a) ch v = rw (← some-eq v) refl

purpose_set :
    (id name topic purpose private : String) (w : World) (ch : Channel)
    → view w id ≡ some ch
    → (code_of (at_url "conversations.setPurpose" id name topic purpose private w).0 == "") ≡ true
    → view (at_url "conversations.setPurpose" id name topic purpose private w).1 id
      ≡ some (record ch { purpose = purpose })
purpose_set id name topic purpose private w ch v =
    let (e, there) = viewed w id ch v in
    elim (Bool-cases (purpose == "Talk")) [
      | inl f ↦ rw (at_url-act, e, (eq_iff purpose "Talk").0 f) (λ o. purpose_there w ch there)
      | inr f ↦ rw (at_url-act, e, f) (λ o. absurd (false≢true o))
    ]

archived_there :
    (w : World) (ch : Channel)
    → kept w ≡ some ch
    → kept (archived w).1 ≡ some (record ch { archived = true })
archived_there nothing ch v = cc
archived_there (present r t p a) ch v = rw (← some-eq v) refl

archived_set :
    (id name topic purpose private : String) (w : World) (ch : Channel)
    → view w id ≡ some ch
    → view (at_url "conversations.archive" id name topic purpose private w).1 id
      ≡ some (record ch { archived = true })
archived_set id name topic purpose private w ch v =
    let (e, there) = viewed w id ch v in rw (at_url-act, e) (archived_there w ch there)

archived_nothing : (w : World) → kept w ≡ none → kept (archived w).1 ≡ none
archived_nothing nothing v = refl
archived_nothing (present r t p a) v = cc

archived_missing :
    (channel id name topic purpose private : String) (w : World)
    → view w id ≡ none
    → view (at_url "conversations.archive" channel name topic purpose private w).1 id ≡ none
archived_missing channel id name topic purpose private w = elim (Bool-cases (id == "C1")) [
  | inr e ↦ rw (at_url-act, e) (λ v. refl)
  | inl e ↦ elim (Bool-cases (channel == "C1")) [
    | inl f ↦ rw (at_url-act, e, f) (archived_nothing w)
    | inr f ↦ rw (at_url-act, e, f) (λ v. v)
  ]
]

archive_refused : (w : World) → (code_of (archived w).0 == "") ≡ false → kept w ≡ none
archive_refused nothing o = refl
archive_refused (present r t p a) o = absurd (false≢true (sym o))

not_there :
    (id name topic purpose private : String) (w : World)
    → (code_of (at_url "conversations.archive" id name topic purpose private w).0 == "") ≡ false
    → view w id ≡ none
not_there id name topic purpose private w = elim (Bool-cases (id == "C1")) [
  | inl e ↦ rw (at_url-act, e) (archive_refused w)
  | inr e ↦ rw e (λ o. refl)
]

pub kept-all : KeepsChannels server view (λ text. text)
unfolding at_url
kept-all = record {
  info_found = λ form id w ch g v. rw g (info_found id _ _ _ _ w ch v);
  info_missing = λ form id w g v. rw g (info_missing id _ _ _ _ w v);
  info_keeps = λ form id w.
      ap (λ x. view x id)
        (info_world (value_in "channel" form) (value_in "name" form) (value_in "topic" form)
          (value_in "purpose" form) (value_in "is_private" form) w);
  join_keeps = λ form id w g.
      ap (λ x. view x id)
        (join_world (value_in "channel" form) (value_in "name" form) (value_in "topic" form)
          (value_in "purpose" form) (value_in "is_private" form) w);
  creates = λ form name private w g p o.
      rw (g, p)
        (created (value_in "channel" form) name (value_in "topic" form) (value_in "purpose" form)
          private w (rw (g, p) at o));
  renames = λ form id name w ch g n v o. rw (g, n) (renamed id name _ _ _ w ch v (rw (g, n) at o));
  sets_topic =
      λ form id topic w ch g t v o. rw (g, t) (topic_set id _ topic _ _ w ch v (rw (g, t) at o));
  sets_purpose = λ form id purpose w ch g p v o.
      rw (g, p) (purpose_set id _ _ purpose _ w ch v (rw (g, p) at o));
  archives = λ form id w ch g v o. rw g (archived_set id _ _ _ _ w ch v);
  archives_missing = λ form id w v. archived_missing (value_in "channel" form) id _ _ _ _ w v;
  archive_not_found = λ form id w g o code. not_there id _ _ _ _ w (rw g at o);
}
