-- ===== src/UserGroup/Lifecycle.antt =====
-- The user group controller against Slack: what Observe reports after Create and Update.
use crossplane_provider_slac.Base.{
  String, ◌≡◌, ◌≢◌, refl, ◌∙◌, Bool, true, not, ◌||◌, some, List, ◌==◌, eq_refl, arith, Bool-cases,
  inl, inr,
}
use crossplane_provider_slac.Base.Text.{==-eq-false, value_or_empty}
use crossplane_provider_slac.Errors.{Error, ok, Result-cases, has_code}
use crossplane_provider_slac.Runtime.{Runtime, IsLawful, external_name}
use crossplane_provider_slac.Slack.Api.{ClientApi}
use crossplane_provider_slac.Slack.Types.{UserGroup}
use crossplane_provider_slac.UserGroup.{
  State, observe, create, update, refused, is_up_to_date, find_group, params_of,
  UserGroupParameters,
}
use crossplane_provider_slac.UserGroup.Service.{IsGroupStore, kept}

is_up_to_date-eq :
    (p : UserGroupParameters) (g : UserGroup) (b : Bool)
    → g.name ≡ p.name
    → g.handle ≡ p.handle
    → (value_or_empty p.description == g.description) ≡ b
    → is_up_to_date p g ≡ b
unfolding is_up_to_date
is_up_to_date-eq p g b n h d = rw (n, h, d, eq_refl p.name, eq_refl p.handle) (ground arith)

-- A text that is sent is what is stored; an empty one leaves what was stored.
==-kept : (new old : String) → (new == kept new old) ≡ (not (new == "") || (new == old))
==-kept new old = elim (Bool-cases (new == "")) [ inl e ↦ rw e refl | inr e ↦ rw e (eq_refl new) ]

module _ (R : Runtime) (L : IsLawful R) {W : Type 0} (api : ClientApi W)
    (groups : W → List UserGroup) (S : IsGroupStore api groups) where
  observe-found :
      (t : State R W) (name : String) (g : UserGroup)
      → external_name t.cr ≡ name
      → name ≢ ""
      → find_group name (groups t.world) ≡ some g
      → g.is_enabled ≡ true
      → (observe R api t).0
        ≡ ok (record {
          resource_exists = true;
          resource_up_to_date = is_up_to_date t.cr.for_provider g;
        })
  unfolding observe
  observe-found t name g n named f on = rw (n, ==-eq-false named, S.lists t.world, f, on) refl

  refused-ne-ok :
      (message : String) (e : Error) (t : State R W) → (refused R api message e t).0 ≢ ok tt
  unfolding refused
  refused-ne-ok message e t = elim (Bool-cases (has_code "name_already_exists" e)) [
    | inl k ↦ rw k (λ h. cc)
    | inr k ↦ rw k (λ h. cc)
  ]

  -- After a Create that succeeds, the resource has an external name, and the next Observe reports
  -- an existing resource that is up to date.
  pub create-observe_group :
      (s : State R W)
      → (create R api s).0 ≡ ok tt
      → (external_name (create R api s).1.cr ≢ "")
        × ((observe R api (create R api s).1).0
            ≡ ok (record { resource_exists = true; resource_up_to_date = true }))
  unfolding create
  create-observe_group s =
      let p = s.cr.for_provider in
      elim (Result-cases (api.create_user_group (params_of p) s.world).0) [
        | inl (g, e) ↦
            let (ne, h, f, on, n, k, d) = S.creates (params_of p) s.world g e in
            let named = L.get-set_external_name s.cr.meta g.id in
            let fresh =
              is_up_to_date-eq p h true n k (rw d (eq_refl (value_or_empty p.description))) in
            rw e (λ done. (rw named ne, observe-found _ g.id h named ne f on ∙ rw fresh refl))
        | inr (e, q) ↦ rw q (λ done. absurd (refused-ne-ok _ e _ done))
      ]

  -- After an Update that succeeds, of an enabled group whose ID is the external name, the next
  -- Observe reports an existing resource; it is up to date exactly if the desired description is
  -- not empty or was what the group had already: a description that is to be cleared never is.
  pub update-observe_group :
      (s : State R W) (g : UserGroup)
      → external_name s.cr ≢ ""
      → find_group (external_name s.cr) (groups s.world) ≡ some g
      → g.is_enabled ≡ true
      → (update R api s).0 ≡ ok tt
      → (observe R api (update R api s).1).0
        ≡ ok (record {
          resource_exists = true;
          resource_up_to_date =
              not (value_or_empty s.cr.for_provider.description == "")
              || (value_or_empty s.cr.for_provider.description == g.description);
        })
  unfolding update
  update-observe_group s g named f on =
      let p = s.cr.for_provider in
      let id = external_name s.cr in
      elim (Result-cases (api.update_user_group id (params_of p) s.world).0) [
        | inl (_, e) ↦
            let f' = S.updates id (params_of p) s.world g f e in
            let g' : UserGroup = record g {
              name = p.name;
              handle = p.handle;
              description = kept (value_or_empty p.description) g.description;
            } in
            let fresh =
              is_up_to_date-eq p g' _ refl refl
                (==-kept (value_or_empty p.description) g.description) in
            rw e (λ done. observe-found _ id _ refl named f' on ∙ rw fresh refl)
        | inr (e, q) ↦ rw q (λ done. absurd (refused-ne-ok _ e _ done))
      ]
