-- ===== src/Tests/GroupMembers.antt =====
-- The controller of a group's members over HTTP, on a Slack with one group.
use mathlib.Core.List.{Perm, Nodup, Pairwise, not-mem-nil, mem-cons}
use mathlib.Core.List.Perm
use mathlib.Core.Logic.Or
use mathlib.Core.Bool.{false≢true}
use mathlib.Core.HLevel.{⊥_prop}
use text.Mathlib.TextLemmas.{cons-ne-nil}
use crossplane_provider_slac.Base.{
  ◌≡◌, ◌≢◌, refl, ◌∙◌, String, Bool, true, false, none, some, List, [], ◌∷◌, ◌==◌, eq_iff,
  Bool-cases, inl, inr,
}
use crossplane_provider_slac.Base.Int.{pos}
use crossplane_provider_slac.Base.Text.{join, has_char}
use crossplane_provider_slac.Base.Text.Joining.{split, NoneHas}
use crossplane_provider_slac.Errors.{ok}
use crossplane_provider_slac.Slack.Form.{get, set}
use crossplane_provider_slac.Slack.Client.Delivery.{call_only_delivered}
use crossplane_provider_slac.Slack.Client.Assembly.{slack_client}
use crossplane_provider_slac.Slack.Client.UserGroups.{
  update_user_group_members, members_form, group_form,
}
use crossplane_provider_slac.UserGroupMembers.{State, observe, update, is_empty}
use crossplane_provider_slac.UserGroupMembers.Emails.{resolve_emails-found}
use crossplane_provider_slac.UserGroupMembers.Http.{
  KeepsMembers, users_answer, lookup_answer, looked_up,
}
use crossplane_provider_slac.UserGroupMembers.Http.Refinement.{slack_client-IsGroupService}
use crossplane_provider_slac.UserGroupMembers.Http.EndToEnd.{
  update-observe_members_http, looked_up-NoneStops,
}
use crossplane_provider_slac.Tests.Fixtures.{test_runtime, session}
use crossplane_provider_slac.Tests.Backend.{url_of, library_of, bot_of, server_of, delivered_by}
use crossplane_provider_slac.Tests.Flags.{flag-flagged, behind-flagged}
use crossplane_provider_slac.Tests.MembersServer.{
  reply_json, code_of, book, stored, members, body_for, respond, value_in, backend,
}

members-eq-some :
    (w : Bool) (group : String) {ids : List String}
    → members w group ≡ some ids
    → ((group == "S1") ≡ true) × (stored w ≡ ids)
members-eq-some w group = elim (Bool-cases (group == "S1")) [
  | inl e ↦ rw e (λ found. (refl, some-eq found))
  | inr e ↦ rw e (λ found. cc)
]
  where
    some-eq : {a b : List String} → some a ≡ some b → a ≡ b
    some-eq p = cc

-- The answer to a request for the group's members.
listed_answer :
    (email users : String) (w : Bool)
    → reply_json (respond (url_of "usergroups.users.list") (body_for email "S1" users) w).0
      ≡ users_answer (stored w)
listed_answer email users w =
    rw (behind-flagged (email == "a@x.y"), behind-flagged (email == "b@x.y")) refl

found_answer :
    (email group users : String) (w : Bool)
    → reply_json (respond (url_of "users.lookupByEmail") (body_for email group users) w).0
      ≡ lookup_answer (book email)
found_answer email group users w =
    rw
      (
        flag-flagged (email == "a@x.y"),
        behind-flagged (email == "a@x.y"),
        flag-flagged (email == "b@x.y"),
      )
      (elim (Bool-cases (email == "a@x.y")) [
        | inl e ↦ rw e refl
        | inr e ↦ elim (Bool-cases (email == "b@x.y")) [
          | inl f ↦ rw (e, f) refl
          | inr f ↦ rw (e, f) refl
        ]
      ])

two : split b',' "U2,U1" ≡ "U2" ∷ "U1" ∷ []
unfolding split
two = refl

replaced :
    (email group users : String) (w : Bool)
    → (code_of (respond (url_of "usergroups.users.update") (body_for email group users) w).0 == "")
      ≡ true
    → (ids : List String) × (members
          (respond (url_of "usergroups.users.update") (body_for email group users) w).1
          group
        ≡ some ids)
      × Perm (split b',' users) ids
replaced email group users w =
    rw
      (
        behind-flagged (email == "a@x.y"),
        behind-flagged (email == "b@x.y"),
        flag-flagged (group == "S1"),
        behind-flagged (group == "S1"),
        flag-flagged (users == "U2,U1"),
      )
      (elim (Bool-cases (group == "S1")) [
        | inr e ↦ rw e (λ o. absurd (false≢true o))
        | inl e ↦ elim (Bool-cases (users == "U2,U1")) [
          | inr f ↦ rw (e, f) (λ o. absurd (false≢true o))
          | inl f ↦
              rw ((eq_iff group "S1").0 e, (eq_iff users "U2,U1").0 f, two)
                (λ o. (stored true, refl, Perm.refl (stored true)))
        ]
      ])

kept-members : KeepsMembers (server_of backend) members book
kept-members = record {
  lists = λ form group ids w g found.
      let (e, same) = members-eq-some w group found in
      rw (g, (eq_iff group "S1").0 e, ← same)
        (listed_answer (value_in "email" form) (value_in "users" form) w);
  lists_keeps = λ form w. refl;
  finds = λ form email w e.
      rw e (found_answer email (value_in "usergroup" form) (value_in "users" form) w);
  finds_keeps = λ form w. refl;
  replaces = λ form group sent w g u once o.
      rw (g, u) (replaced (value_in "email" form) group sent w (rw (g, u) at o));
}

abbrev emails : List String
emails = "b@x.y" ∷ "a@x.y" ∷ []

abbrev before : State test_runtime Bool
before =
    session "S1" (record { user_group_id = some "S1"; user_group_ref = none; user_emails = emails })
      (record { resolved_user_ids = []; member_count = pos 0 }) false

two_users : ◌≢◌ {A = String} "U2" "U1"
two_users h = false≢true ((eq_iff "U2" "U1").1 h)

once : Nodup {A = String} ("U2" ∷ "U1" ∷ [])
once =
    Pairwise.cons
      (λ a m q. Or.elim ⊥_prop (mem-cons.0 m) (λ e. two_users (q ∙ e)) (λ n. not-mem-nil n))
      (Pairwise.cons (λ a m. absurd (not-mem-nil m)) Pairwise.nil)

plain_ids : NoneHas b',' ("U2" ∷ "U1" ∷ [])
unfolding has_char
plain_ids = (refl, (refl, tt))

update_both-ok :
    (update test_runtime (slack_client (library_of backend) 5 (bot_of backend)) before).0 ≡ ok tt
unfolding update is_empty update_user_group_members members_form group_form join set get
update_both-ok =
    let service =
      slack_client-IsGroupService (library_of backend) (bot_of backend) (server_of backend)
        (delivered_by backend) 5 members book kept-members in
    rw
      (
        resolve_emails-found (slack_client (library_of backend) 5 (bot_of backend))
            (λ email. looked_up (book email)) service.answers emails false
            (looked_up-NoneStops book emails),
        call_only_delivered (library_of backend) (bot_of backend) (server_of backend)
            (delivered_by backend) "usergroups.users.update" (members_form "S1" ("U2" ∷ "U1" ∷ [])),
      )
      refl

update-observe_members_http_example :
    (observe test_runtime
      (slack_client (library_of backend) 5 (bot_of backend))
      (update test_runtime (slack_client (library_of backend) 5 (bot_of backend)) before).1).0
    ≡ ok (record { resource_exists = true; resource_up_to_date = true })
update-observe_members_http_example =
    update-observe_members_http test_runtime (library_of backend) (bot_of backend)
      (server_of backend) (delivered_by backend) 5 members book kept-members before
      (cons-ne-nil "S" "1") (λ h. cc) plain_ids once update_both-ok
