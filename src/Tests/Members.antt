-- ===== src/Tests/Members.antt =====
-- The ConversationMember controller over HTTP, on a Slack with one channel.
use mathlib.Core.Bool.{false≢true}
use mathlib.Core.List.{append-nil}
use crossplane_provider_slac.Base.{
  ◌≡◌, refl, ap, ◌∙◌, String, Bool, true, false, none, some, List, [], ◌∷◌, ◌==◌, ◌⊎◌, eq_iff,
  eq_refl, ◌||◌, if◌then◌else◌, Bool-cases, inl, inr, arith,
}
use crossplane_provider_slac.Slack.Client.Assembly.{slack_client}
use crossplane_provider_slac.ConversationMember.{is_member}
use crossplane_provider_slac.ConversationMember.Service.{IsMemberService}
use crossplane_provider_slac.ConversationMember.Http.{KeepsMembers}
use crossplane_provider_slac.ConversationMember.Http.Refinement.{slack_client-IsMemberService}
use crossplane_provider_slac.Tests.Backend.{url_of, library_of, bot_of, server_of, delivered_by}
use crossplane_provider_slac.Tests.MemberServer.{
  second, Reply, code_of, body_for, respond, value_in, backend, view, view-eq-some, view-eq-none,
  pages_of, done, absent,
}

-- A request that is accepted, or refused with one code.
accepted_or :
    (expected code : String)
    → ((code == "") ≡ true) ⊎ (((code == "") ≡ false) × (code ≡ expected))
    → (code == "" || code == expected) ≡ true
accepted_or expected code (inl e) = rw e refl
accepted_or expected code (inr (e, f)) = rw (e, f) (eq_refl expected)

abbrev at_url : String → String → String → String → String → Bool → Reply × Bool
at_url method channel cursor users user w =
    respond (url_of method) (body_for channel cursor users user) w

after_invite :
    (channel cursor users user : String) (w : Bool)
    → (code_of (at_url "conversations.invite" channel cursor users user w).0 == ""
        || code_of (at_url "conversations.invite" channel cursor users user w).0
          == "already_in_channel")
      ≡ true
    → (us : List String) × (view
          (at_url "conversations.invite" channel cursor users user w).1
          channel
        ≡ some us)
      × (is_member users us ≡ true)
unfolding is_member
after_invite channel cursor users user w = elim (Bool-cases (channel == "C1")) [
  | inr e ↦ rw e (λ o. absurd (false≢true o))
  | inl e ↦ elim (Bool-cases (cursor == "p2")) [
    | inl f ↦ rw (e, f) (λ o. absurd (false≢true o))
    | inr f ↦ elim (Bool-cases (users == "U2")) [
      | inl g ↦
          rw (f, (eq_iff channel "C1").0 e, (eq_iff users "U2").0 g)
            (λ o. ("U1" ∷ second true, refl, refl))
      | inr g ↦ elim (Bool-cases (user == "U2")) [
        | inl h ↦ rw (e, f, g, h) (λ o. absurd (false≢true o))
        | inr h ↦ rw (e, f, g, h) (λ o. absurd (false≢true o))
      ]
    ]
  ]
]

after_kick :
    (channel cursor users user : String) (w : Bool)
    → (code_of (at_url "conversations.kick" channel cursor users user w).0 == ""
        || code_of (at_url "conversations.kick" channel cursor users user w).0 == "not_in_channel")
      ≡ true
    → (us : List String) × (view (at_url "conversations.kick" channel cursor users user w).1 channel
        ≡ some us)
      × (is_member user us ≡ false)
unfolding is_member
after_kick channel cursor users user w = elim (Bool-cases (channel == "C1")) [
  | inr e ↦ rw e (λ o. absurd (false≢true o))
  | inl e ↦ elim (Bool-cases (cursor == "p2")) [
    | inl f ↦ rw (e, f) (λ o. absurd (false≢true o))
    | inr f ↦ elim (Bool-cases (users == "U2")) [
      | inl g ↦ rw (e, f, g) (λ o. absurd (false≢true o))
      | inr g ↦ elim (Bool-cases (user == "U2")) [
        | inl h ↦
            rw (f, g, (eq_iff channel "C1").0 e, (eq_iff user "U2").0 h)
              (λ o. ("U1" ∷ second false, refl, refl))
        | inr h ↦ rw (e, f, g, h) (λ o. absurd (false≢true o))
      ]
    ]
  ]
]

kept_open :
    (channel cursor users user : String) (w : Bool)
    → (code_of (at_url "conversations.kick" channel cursor users user w).0 == "channel_not_found")
      ≡ true
    → view (at_url "conversations.kick" channel cursor users user w).1 channel ≡ none
kept_open channel cursor users user w = elim (Bool-cases (channel == "C1")) [
  | inr e ↦ rw e (λ o. refl)
  | inl e ↦ elim (Bool-cases (cursor == "p2")) [
    | inl f ↦ rw (e, f) (λ o. absurd (false≢true o))
    | inr f ↦ elim (Bool-cases (users == "U2")) [
      | inl g ↦ rw (e, f, g) (λ o. absurd (false≢true o))
      | inr g ↦ elim (Bool-cases (user == "U2")) [
        | inl h ↦ rw (e, f, g, h) (left w)
        | inr h ↦ rw (e, f, g, h) (λ o. absurd (false≢true o))
      ]
    ]
  ]
]
  where
    left :
        {A : Type 0} (w : Bool)
        → (code_of (if w then done else absent) == "channel_not_found") ≡ true
        → A
    left true o = absurd (false≢true o)
    left false o = absurd (false≢true o)

kept-members : KeepsMembers (server_of backend) 2 view
kept-members = record {
  lists = λ channel w us found.
      let (e, same) = view-eq-some w channel found in
      (
        ("U1" ∷ []) ∷ second w ∷ [],
        rw e (pages_of w),
        omega arith,
        ap (λ xs. "U1" ∷ xs) (append-nil (second w)) ∙ same,
      );
  lists_missing = λ form channel w g gone. rw (g, view-eq-none w channel gone) refl;
  invites = λ form channel user w g n o.
      rw (g, n)
        (after_invite channel (value_in "cursor" form) user (value_in "user" form) w
          (accepted_or "already_in_channel" _ (rw (g, n) at o)));
  kicks = λ form channel user w g n o.
      rw (g, n)
        (after_kick channel (value_in "cursor" form) (value_in "users" form) user w
          (accepted_or "not_in_channel" _ (rw (g, n) at o)));
  kick_missing = λ form channel w g o code.
      let refused = rw g at code in
      rw g (
        kept_open channel (value_in "cursor" form) (value_in "users" form) (value_in "user" form) w
          ((eq_iff _ "channel_not_found").1 refused));
}

slack_client-IsMemberService_example :
    IsMemberService (slack_client (library_of backend) 2 (bot_of backend)) view
slack_client-IsMemberService_example =
    slack_client-IsMemberService (library_of backend) (bot_of backend) (server_of backend)
      (delivered_by backend) 1 view kept-members
