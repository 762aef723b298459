-- ===== src/UserGroup/Remote.antt =====
-- internal/controller/usergroup/usergroup.go over internal/clients/slack: what Observe makes of an
-- answer of Slack.
use crossplane_provider_slac.Base.{
  ℕ, ◌≡◌, refl, ◌≢◌, sym, ◌∙◌, subst, eq_iff, Option, none, some, List, map, [], ◌∷◌, ◌==◌, ◌&&◌,
  eq_refl, Bool-cases, inl, inr, String, false, arith,
}
use crossplane_provider_slac.Base.Text.{==-eq-false, value_or_empty}
use crossplane_provider_slac.Base.Lists.{First, nowhere, here, further}
use mathlib.Core.Bool.{false≢true}
use crossplane_provider_slac.Base.Int.{ℤ}
use crossplane_provider_slac.Errors.{ok}
use crossplane_provider_slac.Runtime.{Runtime, external_name, ExternalObservation}
use crossplane_provider_slac.Slack.Types.{UserGroup}
use crossplane_provider_slac.Slack.Api.{ClientApi}
use crossplane_provider_slac.Slack.Client.{Library, Client}
use crossplane_provider_slac.Slack.Client.UserGroups.Listed.{
  AnswersGroups, list_user_groups_answered,
}
use crossplane_provider_slac.Slack.Client.Assembly.{slack_client}
use crossplane_provider_slac.UserGroup.{
  State, UserGroupParameters, is_up_to_date, find_group, observe, observe_named, observe_group,
  observed,
}

-- What is reported of the first group with the ID: it exists if it is enabled, and is up to date if
-- its name, handle and description are then those that are wanted.
abbrev pub reported : UserGroupParameters → Option UserGroup → ExternalObservation
reported p none = record { resource_exists = false; resource_up_to_date = false }
reported p (some g) = record {
  resource_exists = g.is_enabled;
  resource_up_to_date =
      g.is_enabled
      && (p.name == g.name
          && (p.handle == g.handle && value_or_empty p.description == g.description));
}

pub find_group-First :
    (id : String) (gs : List UserGroup) (o : Option UserGroup)
    → First (λ g. g.id ≡ id) gs o
    → find_group id gs ≡ o
unfolding find_group
find_group-First id _ _ nowhere = refl
find_group-First id _ _ (here g gs p) = rw (p, eq_refl id) refl
find_group-First id _ _ (further g gs o n f) = rw (==-eq-false n) (find_group-First id gs o f)

pub First-find_group :
    (id : String) (gs : List UserGroup) (g : UserGroup)
    → find_group id gs ≡ some g
    → First (λ h. h.id ≡ id) gs (some g)
unfolding find_group
First-find_group id [] g = λ v. cc
First-find_group id (h ∷ gs) g = elim (Bool-cases (h.id == id)) [
  | inl e ↦
      rw e
        (λ v. subst (λ o. First (λ x. x.id ≡ id) (h ∷ gs) o) v (here h gs ((eq_iff h.id id).0 e)))
  | inr e ↦ rw e (λ v.
      further h gs (some g) (λ p. false≢true (sym e ∙ (eq_iff h.id id).1 p))
        (First-find_group id gs g v))
]

up_to_date :
    (p : UserGroupParameters) (g : UserGroup)
    → is_up_to_date p g ≡ (
        p.name == g.name && (p.handle == g.handle && value_or_empty p.description == g.description))
unfolding is_up_to_date
up_to_date p g = ground arith

module _ (R : Runtime) {W Request : Type 0} (lib : Library W Request) (bound : ℕ)
    (c : Client W Request) where
  observe_group-reported :
      (api : ClientApi W) (o : Option UserGroup) (s : State R W)
      → (observe_group R api o s).0 ≡ ok (reported s.cr.for_provider o)
  unfolding observe_group observed
  observe_group-reported api none s = refl
  observe_group-reported api (some g) s = elim (Bool-cases g.is_enabled) [
    | inl e ↦ simp (e, up_to_date s.cr.for_provider g) refl
    | inr e ↦ rw e refl
  ]

  -- Observe with the HTTP client: if Slack answers usergroups.list with groups, their dates of
  -- creation within an int64, and the external name is not empty, Observe looks at the first group
  -- whose ID is the external name. It reports that it exists exactly if there is one and its JSON field
  -- is_usergroup is true, whatever the date_delete at which it was disabled, and that it is up to date
  -- exactly if, moreover, its name, its handle and its description are the desired ones, of which a
  -- description that is not set is the empty one.
  pub observe-groups_answer :
      (s : State R W) (gs : List (UserGroup × ℤ)) (after : W) (found : Option UserGroup)
      → external_name s.cr ≢ ""
      → AnswersGroups lib c s.world gs after
      → First (λ g. g.id ≡ external_name s.cr) (map (λ p. p.0) gs) found
      → (observe R (slack_client lib bound c) s).0 ≡ ok (reported s.cr.for_provider found)
  unfolding observe observe_named
  observe-groups_answer s gs after found named a first =
      rw
        (
          ==-eq-false named,
          list_user_groups_answered lib c _ after gs a,
          find_group-First (external_name s.cr) _ found first,
        )
        (observe_group-reported (slack_client lib bound c) _ (record s { world = after }))
