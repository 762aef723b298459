-- ===== src/UserGroupMembers/Reports.antt =====
-- The conditions that the controller of a group's members leaves on its resource.
use crossplane_provider_slac.Base.{
  String, ◌≡◌, ◌≢◌, refl, ◌&&◌, Option, some, List, [], ◌∷◌, arith, if◌then◌else◌,
}
use crossplane_provider_slac.Base.Text.{==-eq-false}
use crossplane_provider_slac.Errors.{Result, ok}
use crossplane_provider_slac.Runtime.{Runtime, IsLawful, external_name, condition, synced, ready}
use crossplane_provider_slac.Runtime.Laws.{ready-available, ready_of_synced}
use crossplane_provider_slac.Slack.Types.{User}
use crossplane_provider_slac.Slack.Api.{ClientApi}
use crossplane_provider_slac.UserGroupMembers.{State, is_empty, observe, update, user_not_found}
use crossplane_provider_slac.UserGroupMembers.SetsEqual.{sets_equal}
use crossplane_provider_slac.UserGroupMembers.Emails.{
  found_ids, lost_emails, NoneStops, resolve_emails-found,
}
use crossplane_provider_slac.UserGroupMembers.Convergence.{IsGroupService, resolve_emails_keeps}

module _ (R : Runtime) (L : IsLawful R) {W : Type 0} (api : ClientApi W)
    (members : W → String → Option (List String)) (directory : String → Result (Option User))
    (S : IsGroupService api members directory) where
  -- Where no email is resolved, there is at least one, and no lookup fails otherwise than with
  -- users_not_found: Update succeeds, leaves the members as they are, and reports the unresolvable
  -- emails in the Synced condition.
  update_unresolved :
      (s : State R W) (email : String) (emails : List String)
      → NoneStops directory s.cr.for_provider.user_emails
      → found_ids directory s.cr.for_provider.user_emails ≡ []
      → lost_emails directory s.cr.for_provider.user_emails ≡ email ∷ emails
      → ((update R api s).0 ≡ ok tt)
        × (members (update R api s).1.world ≡ members s.world)
        × (condition (update R api s).1.cr synced ≡ user_not_found (email ∷ emails))
  unfolding update is_empty
  update_unresolved s email emails h none_found lost =
      rw (resolve_emails-found api directory S.answers _ s.world h, none_found, lost)
        (refl, resolve_emails_keeps api members directory S _ s.world, L.get-set_condition _ _)

  -- Where the resource has an external name and no lookup fails otherwise than with
  -- users_not_found: Observe sets the Available condition exactly when the members are those wanted
  -- and every email was resolved; otherwise Ready is as it was.
  observe_ready :
      (s : State R W) (ids : List String)
      → external_name s.cr ≢ ""
      → NoneStops directory s.cr.for_provider.user_emails
      → members s.world (external_name s.cr) ≡ some ids
      → condition (observe R api s).1.cr ready ≡ (
          if sets_equal (found_ids directory s.cr.for_provider.user_emails) ids
            && is_empty (lost_emails directory s.cr.for_provider.user_emails)
          then R.available
          else condition s.cr ready)
  unfolding observe
  observe_ready s ids named h v =
      rw (==-eq-false named, S.lists _ ids _ v, resolve_emails-found api directory S.answers _ _ h)
        (ground (
          arith,
          ready-available L s.cr.conditions,
          ready_of_synced L s.cr.conditions (user_not_found (lost s)) refl,
        ))
    where
      lost : State R W → List String
      lost s = lost_emails directory s.cr.for_provider.user_emails
