-- ===== src/UserGroupMembers/Convergence.antt =====
-- The controller of a group's members against a group service that keeps the list it is given.
use mathlib.Core.List.{Perm, Nodup}
use mathlib.Core.List.Perm
use crossplane_provider_slac.Base.{
  String, ◌≡◌, ◌≢◌, refl, some, ◌∙◌, true, false, Option, List, [], ◌∷◌, ◌==◌, arith, Bool-cases,
  inl, inr,
}
use crossplane_provider_slac.Base.Text.{==-eq-false}
use crossplane_provider_slac.Base.Text.Joining.{NoneHas}
use crossplane_provider_slac.Errors.{Result, ok, Result-cases}
use crossplane_provider_slac.Act.{wrap_result-eq-ok}
use crossplane_provider_slac.Runtime.{Runtime, external_name}
use crossplane_provider_slac.Slack.Types.{User}
use crossplane_provider_slac.Slack.Api.{ClientApi}
use crossplane_provider_slac.UserGroupMembers.{
  State, Resolution, classify, resolve_loop, resolve_emails, is_empty, observe, update,
}
use crossplane_provider_slac.UserGroupMembers.SetsEqual.{sets_equal}
use crossplane_provider_slac.UserGroupMembers.SetsEqual.Sorted.{sets_equal-perm}
use crossplane_provider_slac.UserGroupMembers.Emails.{
  found_ids, lost_emails, NoneStops, resolve_emails-found,
}

-- A service of user groups and users: `members` is what it stores of a group, with `none` for a group
-- that is missing, and no read changes it. Where a list without repetition, which is not empty and
-- whose IDs have no comma, is accepted, the group's members are those of the list; nothing is said of
-- another list.
pub record IsGroupService {W : Type 0} (api : ClientApi W)
    (members : W → String → Option (List String)) (directory : String → Result (Option User))
    : Type 0 where
  pub lists :
      (g : String) (ids : List String) (w : W)
      → members w g ≡ some ids
      → (api.list_user_group_members g w).0 ≡ ok ids
  pub lists_keeps : (g : String) (w : W) → members (api.list_user_group_members g w).1 ≡ members w
  pub answers : (email : String) (w : W) → (api.lookup_user_by_email email w).0 ≡ directory email
  pub answers_keeps :
      (email : String) (w : W) → members (api.lookup_user_by_email email w).1 ≡ members w
  pub replaces :
      (g : String) (ids : List String) (w : W)
      → ids ≢ []
      → NoneHas b',' ids
      → Nodup ids
      → (api.update_user_group_members g ids w).0 ≡ ok tt
      → (stored : List String) × (members (api.update_user_group_members g ids w).1 g ≡ some stored)
        × Perm ids stored

module _ {W : Type 0} (api : ClientApi W) (members : W → String → Option (List String))
    (directory : String → Result (Option User)) (S : IsGroupService api members directory) where
  resolve_loop_keeps :
      (emails : List String) (acc : Resolution) (w : W)
      → members (resolve_loop api emails acc w).1 ≡ members w
  unfolding resolve_loop
  resolve_loop_keeps [] acc w = refl
  resolve_loop_keeps (email ∷ emails) acc w =
      elim (Result-cases (classify email acc (api.lookup_user_by_email email w).0)) [
        | inl (acc', p) ↦ rw p (resolve_loop_keeps emails acc' _ ∙ S.answers_keeps email w)
        | inr (e, p) ↦ rw p (S.answers_keeps email w)
      ]

  pub resolve_emails_keeps :
      (emails : List String) (w : W) → members (resolve_emails api emails w).1 ≡ members w
  unfolding resolve_emails
  resolve_emails_keeps emails w = resolve_loop_keeps emails _ w

is_empty-false : (xs : List String) → xs ≢ [] → is_empty xs ≡ false
unfolding is_empty
is_empty-false [] h = absurd (h refl)
is_empty-false (x ∷ xs) h = refl

module _ (R : Runtime) {W : Type 0} (api : ClientApi W)
    (members : W → String → Option (List String)) (directory : String → Result (Option User))
    (S : IsGroupService api members directory) where
  -- What Observe reports of a named resource.
  observe-found :
      (s : State R W) (ids : List String)
      → (external_name s.cr == "") ≡ false
      → NoneStops directory s.cr.for_provider.user_emails
      → members s.world (external_name s.cr) ≡ some ids
      → (observe R api s).0
        ≡ ok (record {
          resource_exists = true;
          resource_up_to_date = sets_equal (found_ids directory s.cr.for_provider.user_emails) ids;
        })
  unfolding observe
  observe-found s ids named h v =
      rw (named, S.lists _ ids _ v, resolve_emails-found api directory S.answers _ _ h)
        (ground arith)

  -- What Update leaves behind when the desired list is not empty.
  update-found :
      (s : State R W)
      → NoneStops directory s.cr.for_provider.user_emails
      → found_ids directory s.cr.for_provider.user_emails ≢ []
      → NoneHas b',' (found_ids directory s.cr.for_provider.user_emails)
      → Nodup (found_ids directory s.cr.for_provider.user_emails)
      → (update R api s).0 ≡ ok tt
      → ((update R api s).1.cr.meta ≡ s.cr.meta)
        × ((update R api s).1.cr.for_provider ≡ s.cr.for_provider)
        × (stored : List String) × (members (update R api s).1.world (external_name s.cr)
            ≡ some stored)
        × Perm (found_ids directory s.cr.for_provider.user_emails) stored
  unfolding update
  update-found s h some_found plain once =
      rw (resolve_emails-found api directory S.answers _ s.world h, is_empty-false _ some_found)
        (elim (Bool-cases (is_empty (lost_emails directory s.cr.for_provider.user_emails))) [
          | inl e ↦ rw e (λ done.
              let (ids, v, p) =
                S.replaces _ _ _ some_found plain once (wrap_result-eq-ok _ _ done) in
              (refl, refl, ids, v, p))
          | inr e ↦ rw e (λ done.
              let (ids, v, p) =
                S.replaces _ _ _ some_found plain once (wrap_result-eq-ok _ _ done) in
              (refl, refl, ids, v, p))
        ])

  observe-agrees :
      (t : State R W) (stored : List String)
      → (external_name t.cr == "") ≡ false
      → NoneStops directory t.cr.for_provider.user_emails
      → members t.world (external_name t.cr) ≡ some stored
      → Perm (found_ids directory t.cr.for_provider.user_emails) stored
      → (observe R api t).0 ≡ ok (record { resource_exists = true; resource_up_to_date = true })
  observe-agrees t stored named h v p =
      observe-found t stored named h v ∙ rw ((sets_equal-perm _ _).1 p)

  -- Where the resource has an external name, no lookup fails otherwise than with users_not_found,
  -- at least one email is resolved, no two are of one user and no ID has a comma: an Update that succeeds is seen
  -- as up to date by the next Observe, in a service that stores a list without repetition in any order.
  pub update-observe_members :
      (s : State R W)
      → external_name s.cr ≢ ""
      → NoneStops directory s.cr.for_provider.user_emails
      → found_ids directory s.cr.for_provider.user_emails ≢ []
      → NoneHas b',' (found_ids directory s.cr.for_provider.user_emails)
      → Nodup (found_ids directory s.cr.for_provider.user_emails)
      → (update R api s).0 ≡ ok tt
      → (observe R api (update R api s).1).0
        ≡ ok (record { resource_exists = true; resource_up_to_date = true })
  update-observe_members s named h some_found plain once done =
      let (m, p, stored, v, same) = update-found s h some_found plain once done in
      observe-agrees (update R api s).1 stored (rw (m, external_name) (==-eq-false named)) (rw p h)
        (rw (m, external_name) v) (rw p same)

  -- A resource with an external name whose emails name one user twice is never up to date against a
  -- service that lists each member once. No lookup fails otherwise than with users_not_found.
  pub observe_twice :
      (s : State R W) (ids : List String)
      → external_name s.cr ≢ ""
      → NoneStops directory s.cr.for_provider.user_emails
      → members s.world (external_name s.cr) ≡ some ids
      → ¬ Nodup (found_ids directory s.cr.for_provider.user_emails)
      → Nodup ids
      → (observe R api s).0 ≡ ok (record { resource_exists = true; resource_up_to_date = false })
  observe_twice s ids named h v twice once = observe-found s ids (==-eq-false named) h v ∙ rw differ
    where
      differ : sets_equal (found_ids directory s.cr.for_provider.user_emails) ids ≡ false
      differ = elim (Bool-cases _) [
        | inl same ↦ absurd (twice (Perm.nodup (Perm.symm ((sets_equal-perm _ _).0 same)) once))
        | inr e ↦ e
      ]
