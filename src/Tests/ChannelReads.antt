-- ===== src/Tests/ChannelReads.antt =====
-- What the test Slack with a channel answers to reads.
use crossplane_provider_slac.Base.{
  ◌≡◌, refl, String, Bool, true, Option, none, some, ◌==◌, if◌then◌else◌, Bool-cases, inl, inr,
}
use crossplane_provider_slac.Slack.Json.Encode.{IsSmall, channel_answer, error_answer}
use crossplane_provider_slac.Conversation.Service.{Channel, channel_of}
use crossplane_provider_slac.Tests.Flags.{flagged, flag-flagged, behind-flagged}
use crossplane_provider_slac.Tests.Backend.{url_of}
use crossplane_provider_slac.Tests.Server.{
  kept_channel, World, nothing, present, Reply, reply_json, shown, body_for, act, respond,
}
use crossplane_provider_slac.Slack.Types.{Conversation}

abbrev pub kept : World → Option Channel
kept nothing = none
kept (present r t p a) = some (channel_of (kept_channel r t p a))

abbrev pub view : World → String → Option Channel
view w id = if id == "C1" then kept w else none

pub small : (r t p a : Bool) → IsSmall (kept_channel r t p a)
small r t p a = record { num_members = refl; created = refl }

pub some-eq : {a b : Channel} → some a ≡ some b → a ≡ b
some-eq p = cc

-- What is read from a body is what was written into it.
respond-act :
    (url : String) (a b c d e f : Bool) (w : World)
    → respond url (flagged a (flagged b (flagged c (flagged d (flagged e (flagged f "")))))) w
      ≡ act url a b c d e f w
respond-act url a b c d e f w =
    rw
      (
        flag-flagged a,
        behind-flagged a,
        flag-flagged b,
        behind-flagged b,
        flag-flagged c,
        behind-flagged c,
        flag-flagged d,
        behind-flagged d,
        flag-flagged e,
        behind-flagged e,
        flag-flagged f,
      )
      refl

unfoldable pub at_url : String → String → String → String → String → String → World → Reply × World
at_url method channel name topic purpose private w =
    respond (url_of method) (body_for channel name topic purpose private) w

pub at_url-act :
    (method channel name topic purpose private : String) (w : World)
    → at_url method channel name topic purpose private w
      ≡ act
          (url_of method)
          (channel == "C1")
          (name == "general")
          (name == "random")
          (topic == "News")
          (purpose == "Talk")
          (private == "false")
          w
unfolding at_url
at_url-act method channel name topic purpose private w =
    respond-act (url_of method) (channel == "C1") (name == "general") (name == "random")
      (topic == "News") (purpose == "Talk") (private == "false") w

shown_there :
    (w : World) (ch : Channel)
    → kept w ≡ some ch
    → (c : Conversation) × (reply_json (shown w).0 ≡ channel_answer c)
      × IsSmall c
      × (channel_of c ≡ ch)
shown_there nothing ch v = cc
shown_there (present r t p a) ch v = (kept_channel r t p a, refl, small r t p a, some-eq v)

shown_missing :
    (w : World) → kept w ≡ none → reply_json (shown w).0 ≡ error_answer "channel_not_found"
shown_missing nothing v = refl
shown_missing (present r t p a) v = cc

shown-world : (w : World) → (shown w).1 ≡ w
shown-world nothing = refl
shown-world (present r t p a) = refl

pub viewed :
    (w : World) (id : String) (ch : Channel)
    → view w id ≡ some ch
    → ((id == "C1") ≡ true) × (kept w ≡ some ch)
viewed w id ch = elim (Bool-cases (id == "C1")) [
  | inl e ↦ rw e (λ v. (refl, v))
  | inr e ↦ rw e (λ v. cc)
]

pub info_found :
    (id name topic purpose private : String) (w : World) (ch : Channel)
    → view w id ≡ some ch
    → (c : Conversation) × (reply_json
          (at_url "conversations.info" id name topic purpose private w).0
        ≡ channel_answer c)
      × IsSmall c
      × (channel_of c ≡ ch)
info_found id name topic purpose private w ch v =
    let (e, there) = viewed w id ch v in rw (at_url-act, e) (shown_there w ch there)

pub info_missing :
    (id name topic purpose private : String) (w : World)
    → view w id ≡ none
    → reply_json (at_url "conversations.info" id name topic purpose private w).0
      ≡ error_answer "channel_not_found"
info_missing id name topic purpose private w = elim (Bool-cases (id == "C1")) [
  | inl e ↦ rw (at_url-act, e) (shown_missing w)
  | inr e ↦ rw (at_url-act, e) (λ v. refl)
]

pub info_world :
    (id name topic purpose private : String) (w : World)
    → (at_url "conversations.info" id name topic purpose private w).1 ≡ w
info_world id name topic purpose private w = elim (Bool-cases (id == "C1")) [
  | inl e ↦ rw (at_url-act, e) (shown-world w)
  | inr e ↦ rw (at_url-act, e) refl
]

pub join_world :
    (id name topic purpose private : String) (w : World)
    → (at_url "conversations.join" id name topic purpose private w).1 ≡ w
join_world id name topic purpose private w = rw at_url-act refl
