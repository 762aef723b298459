-- ===== src/Tests/UserGroups.antt =====
-- The user group controller over HTTP, on a Slack with at most one group.
use mathlib.Core.Bool.{false≢true, and-eq-true_iff}
use text.Mathlib.TextLemmas.{cons-ne-nil}
use crossplane_provider_slac.Base.{
  ◌≡◌, ◌≢◌, refl, String, true, false, Option, none, some, ◌==◌, eq_iff, Bool-cases, inl, inr, [],
}
use crossplane_provider_slac.Base.Int.{ℤ, pos}
use crossplane_provider_slac.Base.Lists.{here}
use crossplane_provider_slac.Errors.{ok}
use crossplane_provider_slac.Runtime.{external_name}
use crossplane_provider_slac.Slack.Types.{UserGroup, UserGroupParams}
use crossplane_provider_slac.Slack.Form.{get, set, set_given}
use crossplane_provider_slac.Slack.Json.{is_int64}
use crossplane_provider_slac.Slack.Json.Encode.{DatesSmall, no_dates, one_date}
use crossplane_provider_slac.Slack.Client.Delivery.{call_only_delivered}
use crossplane_provider_slac.Slack.Client.Assembly.{slack_client}
use crossplane_provider_slac.Slack.Client.UserGroups.{
  update_user_group, update_form, set_params, group_form,
}
use crossplane_provider_slac.UserGroup.{State, observe, create, update, UserGroupParameters}
use crossplane_provider_slac.UserGroup.{find_group}
use crossplane_provider_slac.UserGroup.Remote.{find_group-First}
use crossplane_provider_slac.UserGroup.Http.{KeepsGroups, At, sent_or, user_group_answer}
use crossplane_provider_slac.UserGroup.Http.Refinement.{created_group}
use crossplane_provider_slac.UserGroup.Http.EndToEnd.{
  update-observe_group_http, create-observe_group_http,
}
use crossplane_provider_slac.Tests.Fixtures.{test_runtime, test_runtime-IsLawful, session}
use crossplane_provider_slac.Tests.Backend.{url_of, library_of, bot_of, server_of, delivered_by}
use crossplane_provider_slac.Tests.GroupServer.{
  Stored, nothing, old, team, renamed, stored, group, Reply, reply_json, code_of, rename, is_team,
  body_for, respond, value_in, backend,
}

abbrev at_url : String → String → String → String → Option String → Stored → Reply × Stored
at_url method id name handle description w =
    respond (url_of method) (body_for id name handle description) w

stored-DatesSmall : (w : Stored) → DatesSmall (stored w)
stored-DatesSmall nothing = no_dates
stored-DatesSmall old = one_date (group "Old" "old" "text") (pos 0) [] refl no_dates
stored-DatesSmall team = one_date (group "Team" "team" "") (pos 0) [] refl no_dates
stored-DatesSmall renamed = one_date (group "Team" "team" "text") (pos 0) [] refl no_dates

-- What a creation answers and leaves, if it is accepted.
created :
    (id name handle : String) (description : Option String) (w : Stored)
    → (code_of (at_url "usergroups.create" id name handle description w).0 == "") ≡ true
    → (g : UserGroup) × (d : ℤ) × (reply_json
          (at_url "usergroups.create" id name handle description w).0
        ≡ user_group_answer (g, d))
      × (is_int64 g.date_create ≡ true)
      × (g.id ≢ "")
      × (h : UserGroup) × At g.id
          (stored (at_url "usergroups.create" id name handle description w).1)
          h
      × (h.is_enabled ≡ true)
      × (h.name ≡ name)
      × (h.handle ≡ handle)
      × (h.description ≡ sent_or "" description)
created id name handle (some description) w = λ o. absurd (false≢true o)
created id name handle none w = elim (Bool-cases (is_team name handle)) [
  | inr e ↦ rw e (λ o. absurd (false≢true o))
  | inl e ↦ elim (Bool-cases (id == "S1")) [
    | inl f ↦ rw (e, f) (λ o. absurd (false≢true o))
    | inr f ↦
        let (n, h) = (and-eq-true_iff (name == "Team") (handle == "team")).0 e in
        let g = group "Team" "team" "" in
        rw (e, f)
          (λ o. (
            g,
            pos 0,
            refl,
            refl,
            cons-ne-nil "S" "1",
            g,
            here g [] refl,
            refl,
            rw ((eq_iff name "Team").0 n) refl,
            rw ((eq_iff handle "team").0 h) refl,
            refl,
          ))
  ]
]

some-eq : {g h : UserGroup} → some g ≡ some h → g ≡ h
some-eq p = cc

-- What an update leaves of the group, if it is accepted.
renamed_there :
    (w : Stored) (g : UserGroup)
    → At "S1" (stored w) g
    → (code_of (rename w).0 == "") ≡ true
    → At "S1" (stored (rename w).1) (record g { name = "Team"; handle = "team" })
unfolding find_group
renamed_there nothing g at o = absurd (false≢true o)
renamed_there old g at o =
    let e : group "Old" "old" "text" ≡ g = some-eq (find_group-First "S1" _ _ at) in
    rw (← e) (here (group "Team" "team" "text") [] refl)
renamed_there team g at o =
    let e : group "Team" "team" "" ≡ g = some-eq (find_group-First "S1" _ _ at) in
    rw (← e) (here (group "Team" "team" "") [] refl)
renamed_there renamed g at o =
    let e : group "Team" "team" "text" ≡ g = some-eq (find_group-First "S1" _ _ at) in
    rw (← e) (here (group "Team" "team" "text") [] refl)

edited :
    (id name handle : String) (description : Option String) (w : Stored) (g : UserGroup)
    → At id (stored w) g
    → (code_of (at_url "usergroups.update" id name handle description w).0 == "") ≡ true
    → At id
        (stored (at_url "usergroups.update" id name handle description w).1)
        (record g { name = name; handle = handle; description = sent_or g.description description })
edited id name handle (some description) w g at = λ o. absurd (false≢true o)
edited id name handle none w g at = elim (Bool-cases (is_team name handle)) [
  | inr e ↦ rw e (λ o. absurd (false≢true o))
  | inl e ↦ elim (Bool-cases (id == "S1")) [
    | inr f ↦ rw (e, f) (λ o. absurd (false≢true o))
    | inl f ↦
        let (n, h) = (and-eq-true_iff (name == "Team") (handle == "team")).0 e in
        let same = (eq_iff id "S1").0 f in
        rw (e, same, (eq_iff name "Team").0 n, (eq_iff handle "team").0 h)
          (renamed_there w g (rw same at at))
  ]
]

kept-groups : KeepsGroups (server_of backend) stored
kept-groups = record {
  lists = λ form w g. (refl, stored-DatesSmall w);
  creates = λ form name handle w n h o.
      rw (n, h)
        (created (value_in "usergroup" form) name handle (get "description" form) w
          (rw (n, h) at o));
  updates = λ form id name handle w g i n h there o.
      rw (i, n, h) (edited id name handle (get "description" form) w g there (rw (i, n, h) at o));
}

abbrev desired : UserGroupParameters
desired = record { name = "Team"; handle = "team"; description = none }

abbrev at_state : String → Stored → State test_runtime Stored
at_state name w =
    session name desired
      (record { id = ""; is_enabled = false; created_by = ""; date_create = pos 0 }) w

abbrev wanted : UserGroupParams
wanted = record { name = "Team"; handle = "team"; description = "" }

update_old-ok :
    (update test_runtime
      (slack_client (library_of backend) 5 (bot_of backend))
      (at_state "S1" old)).0
    ≡ ok tt
unfolding update update_user_group update_form set_params group_form set_given set get
update_old-ok =
    rw
      (call_only_delivered (library_of backend) (bot_of backend) (server_of backend)
        (delivered_by backend) "usergroups.update" (update_form "S1" wanted) old)
      refl

-- The description is to be cleared, and stays.
update-observe_group_http_example :
    (observe test_runtime
      (slack_client (library_of backend) 5 (bot_of backend))
      (update test_runtime
        (slack_client (library_of backend) 5 (bot_of backend))
        (at_state "S1" old)).1).0
    ≡ ok (record { resource_exists = true; resource_up_to_date = false })
update-observe_group_http_example =
    update-observe_group_http test_runtime test_runtime-IsLawful (library_of backend)
      (bot_of backend) (server_of backend) (delivered_by backend) 5 stored kept-groups
      (at_state "S1" old) (group "Old" "old" "text") (cons-ne-nil "S" "1")
      (here (group "Old" "old" "text") [] refl) refl update_old-ok

create_new-ok :
    (create test_runtime
      (slack_client (library_of backend) 5 (bot_of backend))
      (at_state "" nothing)).0
    ≡ ok tt
unfolding create set_params set_given set get
create_new-ok =
    rw
      (created_group (library_of backend) (bot_of backend) (server_of backend)
        (delivered_by backend) wanted nothing (group "Team" "team" "") (pos 0) refl refl refl)
      refl

create-observe_group_http_example :
    (external_name
        (create test_runtime
          (slack_client (library_of backend) 5 (bot_of backend))
          (at_state "" nothing)).1.cr
      ≢ "")
    × ((observe test_runtime
          (slack_client (library_of backend) 5 (bot_of backend))
          (create test_runtime
            (slack_client (library_of backend) 5 (bot_of backend))
            (at_state "" nothing)).1).0
        ≡ ok (record { resource_exists = true; resource_up_to_date = true }))
create-observe_group_http_example =
    create-observe_group_http test_runtime test_runtime-IsLawful (library_of backend)
      (bot_of backend) (server_of backend) (delivered_by backend) 5 stored kept-groups
      (at_state "" nothing) create_new-ok
