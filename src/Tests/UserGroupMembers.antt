-- ===== src/Tests/UserGroupMembers.antt =====
-- A Slack with user groups and a directory of three users, and the controller of a group's members.
use mathlib.Core.List.{Perm}
use crossplane_provider_slac.Base.{
  String, ◌≡◌, ◌↔◌, refl, true, Option, none, some, List, [], ◌∷◌, ◌==◌, if◌then◌else◌,
}
use crossplane_provider_slac.Errors.{Result, ok, err, plain}
use crossplane_provider_slac.Slack.Api.{ClientApi}
use crossplane_provider_slac.Tests.Fixtures.{no_api, refusal, Table, put}
use crossplane_provider_slac.Slack.Types.{User}
use crossplane_provider_slac.UserGroupMembers.{
  Resolution, classify, is_users_not_found, slack_itself, resolve_emails,
}
use crossplane_provider_slac.UserGroupMembers.SetsEqual.{sets_equal}
use crossplane_provider_slac.UserGroupMembers.SetsEqual.Sorted.{sets_equal-perm}
use crossplane_provider_slac.UserGroupMembers.Emails.{NoneStops, resolve_emails-found}

abbrev World : Type 0
World = Table (List String)

abbrev user : String → String → User
user id email = record { id = id; profile = record { email = email } }

abbrev directory : String → Result (Option User)
directory email =
    if email == "a@x.y"
    then ok (some (user "U1" email))
    else if email == "b@x.y"
    then ok (some (user "U2" email))
    else if email == "down@x.y"
    then err (plain "no route to host")
    else err (refusal "users_not_found")

abbrev members_or_refusal : Option (List String) → Result (List String)
members_or_refusal none = err (refusal "no_such_subteam")
members_or_refusal (some ids) = ok ids

abbrev update_known :
    String → List String → World → Option (List String) → Result (Unit {0}) × World
update_known g ids w none = (err (refusal "no_such_subteam"), w)
update_known g ids w (some old) = (ok tt, put g ids w)

abbrev test_slack : ClientApi World
test_slack = record no_api {
  list_user_group_members = λ g w. (members_or_refusal (w g), w);
  lookup_user_by_email = λ email w. (directory email, w);
  update_user_group_members = λ g ids w. update_known g ids w (w g);
}

abbrev both : List String
both = "b@x.y" ∷ "nobody@x.y" ∷ "a@x.y" ∷ []

none_stops : NoneStops directory both
unfolding is_users_not_found slack_itself
none_stops = (refl, (refl, (refl, tt)))

resolve_emails-found_example :
    (resolve_emails test_slack both (λ id. none)).0
    ≡ ok (record { resolved = "U2" ∷ "U1" ∷ []; unresolvable = "nobody@x.y" ∷ [] })
resolve_emails-found_example =
    resolve_emails-found test_slack directory (λ email w. refl) both (λ id. none) none_stops

abbrev resolved_both : Resolution
resolved_both = record { resolved = "U2" ∷ "U1" ∷ []; unresolvable = "nobody@x.y" ∷ [] }

resolves_both : (resolve_emails test_slack both (λ id. none)).0 ≡ ok resolved_both
unfolding resolve_emails classify
resolves_both = refl

abbrev ba : List String
ba = "b" ∷ "a" ∷ []

abbrev ab : List String
ab = "a" ∷ "b" ∷ []

sets_equal-perm_example : (sets_equal ba ab ≡ true) ↔ Perm ba ab
sets_equal-perm_example = sets_equal-perm ba ab
