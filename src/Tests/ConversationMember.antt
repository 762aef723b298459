-- ===== src/Tests/ConversationMember.antt =====
-- A Slack with members by channel, and the membership controller on it.
use crossplane_provider_slac.Base.{
  String, ◌≡◌, ◌≢◌, refl, ap, ◌∙◌, true, false, Option, none, some, List, [], ◌∷◌, ◌==◌, eq_iff,
  eq_refl, ◌⊎◌, if◌then◌else◌, Bool-cases, Option-cases, inl, inr,
}
use crossplane_provider_slac.Base.Text.{has_char}
use crossplane_provider_slac.Errors.{Error, Result, ok, err, wrap, has_code}
use crossplane_provider_slac.Runtime.{external_name, absent}
use crossplane_provider_slac.Slack.Api.{ClientApi}
use crossplane_provider_slac.Tests.Fixtures.{
  test_runtime, test_runtime-IsLawful, no_api, no_kube, refusal, Table, put, session,
}
use crossplane_provider_slac.ConversationMember.{
  State, observe, create, delete, is_member, resolve_conversation_id, resolve_user_id,
  format_external_name, parse_external_name, err_list_members,
}
use crossplane_provider_slac.ConversationMember.Service.{IsMemberService}
use crossplane_provider_slac.ConversationMember.Lifecycle.{
  create-observe_member, delete-observe_member,
}

abbrev World : Type 0
World = Table (List String)

without : String → List String → List String
without user [] = []
without user (u ∷ us) = if u == user then without user us else u ∷ without user us

-- Calls on a channel, with Slack's answer for one that is missing.
abbrev at_channel :
    {A : Type 0}
    → World
    → Option (List String)
    → (List String → Result A × World)
    → Result A × World
at_channel w none f = (err (refusal "channel_not_found"), w)
at_channel w (some us) f = f us

abbrev test_slack : ClientApi World
test_slack = record no_api {
  join_conversation = λ channel w. (ok tt, w);
  invite_to_conversation =
      λ channel user w. at_channel w (w channel) (λ us. (ok tt, put channel (user ∷ us) w));
  get_conversation_members = λ channel w. at_channel w (w channel) (λ us. (ok us, w));
  kick_from_conversation =
      λ channel user w. at_channel w (w channel) (λ us. (ok tt, put channel (without user us) w));
}

put-eq : (channel : String) (us : List String) (w : World) → put channel us w channel ≡ some us
put-eq channel us w = rw (eq_refl channel) refl

is_member-without : (user : String) (us : List String) → is_member user (without user us) ≡ false
unfolding is_member without
is_member-without user [] = refl
is_member-without user (u ∷ us) = elim (Bool-cases (u == user)) [
  | inl e ↦ rw e (is_member-without user us)
  | inr e ↦ rw (e, e) (is_member-without user us)
]

is_member_first : (user : String) (us : List String) → is_member user (user ∷ us) ≡ true
unfolding is_member
is_member_first user us = rw (eq_refl user) refl

missing_code : has_code "channel_not_found" (refusal "channel_not_found") ≡ true
unfolding has_code
missing_code = refl

invites :
    (channel user : String) (w : World)
    → (test_slack.invite_to_conversation channel user w).0 ≡ ok tt
    → (us : List String) × ((test_slack.invite_to_conversation channel user w).1 channel ≡ some us)
      × (is_member user us ≡ true)
invites channel user w = elim (Option-cases (w channel)) [
  | inl v ↦ rw v (λ done. cc)
  | inr (us, v) ↦ rw v (λ done. (user ∷ us, put-eq channel (user ∷ us) w, is_member_first user us))
]

kicks :
    (channel user : String) (w : World)
    → (test_slack.kick_from_conversation channel user w).0 ≡ ok tt
    → (us : List String) × ((test_slack.kick_from_conversation channel user w).1 channel ≡ some us)
      × (is_member user us ≡ false)
kicks channel user w = elim (Option-cases (w channel)) [
  | inl v ↦ rw v (λ done. cc)
  | inr (us, v) ↦
      rw v
        (λ done. (without user us, put-eq channel (without user us) w, is_member-without user us))
]

-- The only refusals are those of a missing channel.
invite-err :
    (channel user : String) (w : World) (e : Error)
    → (test_slack.invite_to_conversation channel user w).0 ≡ err e
    → refusal "channel_not_found" ≡ e
invite-err channel user w e = elim (Option-cases (w channel)) [
  | inl v ↦ rw v (λ failed. cc)
  | inr (us, v) ↦ rw v (λ failed. cc)
]

kick-err :
    (channel user : String) (w : World) (e : Error)
    → (test_slack.kick_from_conversation channel user w).0 ≡ err e
    → ((test_slack.kick_from_conversation channel user w).1 channel ≡ none)
      × (refusal "channel_not_found" ≡ e)
kick-err channel user w e = elim (Option-cases (w channel)) [
  | inl v ↦ rw v (λ failed. (v, cc))
  | inr (us, v) ↦ rw v (λ failed. cc)
]

other_code :
    (code : String) (e : Error)
    → refusal "channel_not_found" ≡ e
    → has_code code e ≡ true
    → "channel_not_found" ≡ code
unfolding has_code
other_code code e same k = (eq_iff "channel_not_found" code).0 (ap (has_code code) same ∙ k)

abbrev missing_name : String
missing_name = "channel_not_found"

already-ne : missing_name ≢ "already_in_channel"
already-ne h = cc

absent-ne : missing_name ≢ "not_in_channel"
absent-ne h = cc

test_slack-IsMemberService : IsMemberService test_slack (λ w channel. w channel)
test_slack-IsMemberService = record {
  lists = λ channel w us v. rw v refl;
  lists_missing = λ channel w v. (refusal "channel_not_found", rw v refl, missing_code);
  invites = invites;
  already_in_channel = λ channel user w e failed k.
      absurd (already-ne (other_code _ e (invite-err channel user w e failed) k));
  kicks = kicks;
  not_in_channel = λ channel user w e failed k.
      absurd (absent-ne (other_code _ e (kick-err channel user w e failed).1 k));
  channel_not_found = λ channel user w e failed k. (kick-err channel user w e failed).0;
}

abbrev named : String → State test_runtime World
named name =
    session name
      (record {
        conversation_id = some "C1";
        conversation_ref = none;
        user_email = none;
        user_id = some "U1";
      })
      (record { resolved_user_id = ""; channel_id = "" }) (put "C1" ("U2" ∷ "U3" ∷ []) (λ id. none))

no_slash : has_char b'/' "C1" ≡ false
unfolding has_char
no_slash = refl

parse_u1 : parse_external_name "C1/U1" ≡ some ("C1", "U1")
unfolding parse_external_name
parse_u1 = refl

parse_u3 : parse_external_name "C1/U3" ≡ some ("C1", "U3")
unfolding parse_external_name
parse_u3 = refl

resolves_c1 :
    (resolve_conversation_id test_runtime no_kube (named "").cr.for_provider (named "").world).0
    ≡ ok "C1"
unfolding resolve_conversation_id
resolves_c1 = refl

resolves_u1 :
    (resolve_user_id test_slack
      (named "").cr.for_provider
      (resolve_conversation_id test_runtime no_kube
        (named "").cr.for_provider
        (named "").world).1).0
    ≡ ok "U1"
unfolding resolve_user_id
resolves_u1 = refl

create_u1-ok : (create test_runtime test_slack no_kube (named "")).0 ≡ ok tt
unfolding create
create_u1-ok = refl

create-observe_member_example :
    (external_name (create test_runtime test_slack no_kube (named "")).1.cr
      ≡ format_external_name "C1" "U1")
    × ((observe test_runtime test_slack no_kube
          (create test_runtime test_slack no_kube (named "")).1).0
        ≡ ok (record { resource_exists = true; resource_up_to_date = true }))
create-observe_member_example =
    create-observe_member test_runtime test_slack no_kube (λ w channel. w channel)
      test_slack-IsMemberService test_runtime-IsLawful (named "") "C1" "U1" resolves_c1 resolves_u1
      no_slash create_u1-ok

-- A membership of a channel that is gone.
abbrev orphan : State test_runtime World
orphan = record (named "C1/U1") { world = λ id. none }

delete-orphan-ok : (delete test_runtime test_slack no_kube orphan).0 ≡ ok tt
unfolding delete parse_external_name has_code
delete-orphan-ok = refl

delete-observe_member_example :
    ((observe test_runtime test_slack no_kube (delete test_runtime test_slack no_kube orphan).1).0
      ≡ ok absent)
    ⊎ (((delete test_runtime test_slack no_kube orphan).1.world "C1" ≡ none)
        × ((e : Error) × ((observe test_runtime test_slack no_kube
                (delete test_runtime test_slack no_kube orphan).1).0
              ≡ err (wrap err_list_members e))
            × (has_code "channel_not_found" e ≡ true)))
delete-observe_member_example =
    delete-observe_member test_runtime test_slack no_kube (λ w channel. w channel)
      test_slack-IsMemberService orphan "C1" "U1" parse_u1 delete-orphan-ok
