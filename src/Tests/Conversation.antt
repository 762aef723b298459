-- ===== src/Tests/Conversation.antt =====
-- A Slack with channels, which writes links in angle brackets, and the Conversation controller on it.
use text.Mathlib.TextLemmas.{cons-ne-nil}
use crossplane_provider_slac.Base.{
  String, ◌≡◌, ◌≢◌, refl, Bool, true, false, Option, none, some, List, [], ◌∷◌, ◌==◌, eq_refl,
  if◌then◌else◌, Bool-cases, Option-cases, inl, inr,
}
use crossplane_provider_slac.Base.Text.{has_char}
use crossplane_provider_slac.Errors.{Error, Result, ok, err, has_code}
use crossplane_provider_slac.Act.{Act}
use crossplane_provider_slac.Runtime.{external_name, absent}
use crossplane_provider_slac.Slack.Api.{ClientApi}
use crossplane_provider_slac.Tests.Fixtures.{
  test_runtime, test_runtime-IsLawful, no_api, refusal, Table, put, session,
}
use crossplane_provider_slac.Base.Int.{pos}
use crossplane_provider_slac.Slack.Types.{Conversation}
use crossplane_provider_slac.Conversation.{
  is_set_true, State, is_channel_id, observe, create, update, delete, ConversationParameters,
  ConversationObservation,
}
use crossplane_provider_slac.Conversation.AutoLink.{strip_slack_auto_links}
use crossplane_provider_slac.Conversation.AutoLink.Laws.{
  Segment, words, link, labelled, strip-encoded_all,
}
use crossplane_provider_slac.Conversation.Service.{Channel, new_channel, IsChannelService}
use crossplane_provider_slac.Conversation.Convergence.{update-observe_channel}
use crossplane_provider_slac.Conversation.Lifecycle.{create-observe_channel, delete-observe_channel}
use crossplane_provider_slac.Conversation.Adoption.{observe-adopt}
use crossplane_provider_slac.Conversation.Archived.{create-archived}

unfoldable stored : String → String
stored s = if s == "https://a.b" then "<https://a.b>" else s

abbrev World : Type 0
World = Table Channel

abbrev conversation : String → Channel → Conversation
conversation id ch = record {
  id = id;
  name = ch.name;
  is_private = false;
  is_archived = ch.archived;
  topic = record { value = ch.topic };
  purpose = record { value = ch.purpose };
  num_members = pos 1;
  created = pos 0;
}

-- Changes a channel that there is.
abbrev edit_found :
    String → (Channel → Channel) → World → Option Channel → Result (Unit {0}) × World
edit_found id f w none = (err (refusal "channel_not_found"), w)
edit_found id f w (some ch) = (ok tt, put id (f ch) w)

abbrev edit : String → (Channel → Channel) → Act World (Unit {0})
edit id f w = edit_found id f w (w id)

abbrev info_found : String → World → Option Channel → Result Conversation × World
info_found id w none = (err (refusal "channel_not_found"), w)
info_found id w (some ch) = (ok (conversation id ch), w)

abbrev slack_of : (String → Act World (Option Conversation)) → ClientApi World
slack_of find = record no_api {
  create_conversation = λ name private w.
      if name == "taken" then (err (refusal "name_taken"), w) else (
        ok (record (conversation "C1" (new_channel name)) { is_private = private }),
        put "C1" (new_channel name) w,
      );
  get_conversation_info = λ id w. info_found id w (w id);
  find_conversation_by_name = find;
  rename_conversation = λ id name. edit id (λ ch. record ch { name = name });
  set_conversation_topic = λ id t. edit id (λ ch. record ch { topic = stored t });
  set_conversation_purpose = λ id t. edit id (λ ch. record ch { purpose = stored t });
  archive_conversation = λ id. edit id (λ ch. record ch { archived = true });
  join_conversation = λ id w. (ok tt, w);
}

abbrev finds_none : String → Act World (Option Conversation)
finds_none name w = (ok none, w)

abbrev test_slack : ClientApi World
test_slack = slack_of finds_none

put-eq : {A : Type 0} (id : String) (a : A) (t : Table A) → put id a t id ≡ some a
put-eq id a t = rw (eq_refl id) refl

edit-eq :
    (id : String) (f : Channel → Channel) (w : World) (ch : Channel)
    → w id ≡ some ch
    → (edit id f w).1 id ≡ some (f ch)
edit-eq id f w ch v = rw v (put-eq id (f ch) w)

has_not_found : has_code "channel_not_found" (refusal "channel_not_found") ≡ true
unfolding has_code
has_not_found = refl

info_keeps : (id : String) (w : World) → (test_slack.get_conversation_info id w).1 id ≡ w id
info_keeps id w = elim (Option-cases (w id)) [ inl v ↦ rw v v | inr (ch, v) ↦ rw v v ]

ok-eq : {a c : Conversation} → ok a ≡ ok c → a ≡ c
ok-eq h = cc

creates :
    (name : String) (private : Bool) (w : World) (c : Conversation)
    → (test_slack.create_conversation name private w).0 ≡ ok c
    → (c.is_private ≡ private)
      × (c.id ≢ "")
      × (is_channel_id c.id ≡ true)
      × ((test_slack.create_conversation name private w).1 c.id ≡ some (new_channel name))
unfolding is_channel_id
creates name private w c = elim (Bool-cases (name == "taken")) [
  | inl e ↦ rw e (λ done. cc)
  | inr e ↦ rw e (λ done.
      rw (← ok-eq done) (refl, cons-ne-nil "C" "1", refl, put-eq "C1" (new_channel name) w))
]

not_found :
    (id : String) (w : World) (e : Error)
    → (test_slack.archive_conversation id w).0 ≡ err e
    → w id ≡ none
not_found id w e = elim (Option-cases (w id)) [
  | inl v ↦ λ done. v
  | inr (ch, v) ↦ rw v (λ done. cc)
]

slack_of-IsChannelService :
    (find : String → Act World (Option Conversation))
    → IsChannelService (slack_of find) (λ w. w) stored
slack_of-IsChannelService find = record {
  info_found = λ id w ch v. (conversation id ch, rw v refl, refl);
  info_missing = λ id w v. (refusal "channel_not_found", rw v refl, has_not_found);
  info_keeps = λ id w. info_keeps id w;
  join_keeps = λ id w. refl;
  creates = creates;
  renames = λ id name w ch v done. edit-eq id (λ ch. record ch { name = name }) w ch v;
  sets_topic = λ id t w ch v done. edit-eq id (λ ch. record ch { topic = stored t }) w ch v;
  sets_purpose = λ id t w ch v done. edit-eq id (λ ch. record ch { purpose = stored t }) w ch v;
  archives = λ id w ch v done. edit-eq id (λ ch. record ch { archived = true }) w ch v;
  archives_missing = λ id w v. rw (v, v) refl;
  archive_not_found = λ id w e failed k. not_found id w e failed;
}

test_slack-IsChannelService : IsChannelService test_slack (λ w. w) stored
test_slack-IsChannelService = slack_of-IsChannelService finds_none

abbrev Session0 : Type 0
Session0 = State test_runtime World

abbrev desired : ConversationParameters
desired = record { name = "news"; is_private = none; topic = some "https://a.b"; purpose = none }

abbrev no_observation : ConversationObservation
no_observation = record { id = ""; is_archived = false; num_members = pos 0; created = pos 0 }

abbrev old_channel : Channel
old_channel = record { name = "old"; topic = "x"; purpose = "y"; archived = false }

abbrev named : String → Session0
named name = session name desired no_observation (put "C1" old_channel (λ id. none))

abbrev fresh : Session0
fresh = session "" desired no_observation (λ id. none)

news_reads_back :
    (strip_slack_auto_links (stored "https://a.b") ≡ "https://a.b")
    × (strip_slack_auto_links (stored "") ≡ "")
unfolding strip_slack_auto_links stored
news_reads_back = (refl, refl)

c1_is_id : is_channel_id "C1" ≡ true
unfolding is_channel_id
c1_is_id = refl

update_c1-ok : (update test_runtime test_slack (named "C1")).0 ≡ ok tt
unfolding update strip_slack_auto_links stored
update_c1-ok = refl

update-observe_channel_example :
    (observe test_runtime test_slack (update test_runtime test_slack (named "C1")).1).0
    ≡ ok (record { resource_exists = true; resource_up_to_date = true })
update-observe_channel_example =
    update-observe_channel test_runtime test_slack (λ w. w) stored test_slack-IsChannelService
      (named "C1") old_channel (cons-ne-nil "C" "1") c1_is_id refl refl news_reads_back update_c1-ok

create-fresh-ok : (create test_runtime test_slack fresh).0 ≡ ok tt
unfolding create stored
create-fresh-ok = refl

create-observe_channel_example :
    (external_name (create test_runtime test_slack fresh).1.cr ≡ "C1")
    × ((observe test_runtime test_slack (create test_runtime test_slack fresh).1).0
        ≡ ok (record { resource_exists = true; resource_up_to_date = true }))
create-observe_channel_example =
    create-observe_channel test_runtime test_runtime-IsLawful test_slack (λ w. w) stored
      test_slack-IsChannelService fresh
      (record (conversation "C1" (new_channel "news")) { is_private = is_set_true none }) refl
      news_reads_back create-fresh-ok

delete_c1-ok : (delete test_runtime test_slack (named "C1")).0 ≡ ok tt
unfolding delete
delete_c1-ok = refl

delete-observe_channel_example :
    (observe test_runtime test_slack (delete test_runtime test_slack (named "C1")).1).0 ≡ ok absent
delete-observe_channel_example =
    delete-observe_channel test_runtime test_runtime-IsLawful test_slack (λ w. w) stored
      test_slack-IsChannelService (named "C1") (cons-ne-nil "C" "1") c1_is_id delete_c1-ok

-- A Slack in which the search finds the old channel.
abbrev finding : ClientApi World
finding = slack_of (λ name w. (ok (some (conversation "C1" old_channel)), w))

old_is_no_id : is_channel_id "old" ≡ false
unfolding is_channel_id
old_is_no_id = refl

observe-adopt_example :
    observe test_runtime finding (named "old") ≡ observe test_runtime finding (named "C1")
observe-adopt_example =
    observe-adopt test_runtime test_runtime-IsLawful finding (named "old")
      (conversation "C1" old_channel) (cons-ne-nil "o" "ld") old_is_no_id refl (cons-ne-nil "C" "1")
      c1_is_id

taken_code : has_code "name_taken" (refusal "name_taken") ≡ true
unfolding has_code
taken_code = refl

abbrev message : List Segment
message = words "see " ∷ link "https://a.b" ∷ words " or " ∷ labelled "https://c.d" "c" ∷ []

strip-encoded_all_example :
    strip_slack_auto_links "see <https://a.b> or <https://c.d|c>" ≡ "see https://a.b or https://c.d"
unfolding has_char
strip-encoded_all_example = strip-encoded_all message (
  refl,
  (
    (cons-ne-nil "h" "ttps://a.b", refl, refl),
    (refl, (((cons-ne-nil "h" "ttps://c.d", refl, refl), refl), tt)),
  ),
)

strip_url :
    strip_slack_auto_links "see <https://a.b/c|a>, <<x> or <|y> <z"
    ≡ "see https://a.b/c, <x or <|y> <z"
unfolding strip_slack_auto_links
strip_url = refl

-- A Slack in which the search finds a channel that is archived.
abbrev archived_channel : Channel
archived_channel = record old_channel { archived = true }

abbrev finding_archived : ClientApi World
finding_archived = slack_of (λ name w. (ok (some (conversation "C1" archived_channel)), w))

abbrev taken_by_archived : Session0
taken_by_archived =
    session "" (record desired { name = "taken" }) no_observation
      (put "C1" archived_channel (λ id. none))

create-archived_example :
    ((create test_runtime finding_archived taken_by_archived).0 ≡ ok tt)
    × (external_name (create test_runtime finding_archived taken_by_archived).1.cr ≡ "C1")
    × ((observe test_runtime finding_archived
          (create test_runtime finding_archived taken_by_archived).1).0
        ≡ ok absent)
create-archived_example =
    create-archived test_runtime test_runtime-IsLawful finding_archived (λ w. w) stored
      (slack_of-IsChannelService (λ name w. (ok (some (conversation "C1" archived_channel)), w)))
      taken_by_archived (refusal "name_taken") (conversation "C1" archived_channel) archived_channel
      refl taken_code refl (cons-ne-nil "C" "1") c1_is_id refl refl
