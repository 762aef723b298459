-- ===== src/Slack/Client/UserGroups/Forms.antt =====
-- internal/clients/slack/usergroups.go: what the forms say to Slack.
use crossplane_provider_slac.Base.{
  ◌≡◌, refl, String, Option, none, some, List, ◌∷◌, ◌==◌, if◌then◌else◌, Bool-cases, inl, inr,
}
use crossplane_provider_slac.Base.Text.Joining.{split, NoneHas, split-join}
use crossplane_provider_slac.Slack.Types.{UserGroupParams}
use crossplane_provider_slac.Slack.Form.{set, set_given, get}
use crossplane_provider_slac.Slack.Client.UserGroups.{
  set_params, group_form, update_form, members_form,
}

-- The value of a key, unless it is empty.
abbrev pub unless_empty : String → Option String
unless_empty v = if v == "" then none else some v

-- UpdateUserGroup sends the ID, the name and the handle as they are given, and the description
-- unless it is empty.
update_form-get :
    (id : String) (p : UserGroupParams)
    → (get "usergroup" (update_form id p) ≡ some id)
      × (get "name" (update_form id p) ≡ some p.name)
      × (get "handle" (update_form id p) ≡ some p.handle)
      × (get "description" (update_form id p) ≡ unless_empty p.description)
unfolding update_form set_params group_form set set_given get
update_form-get id p = elim (Bool-cases (p.description == "")) [
  | inl e ↦ rw e (refl, refl, refl, refl)
  | inr e ↦ rw e (refl, refl, refl, refl)
]

-- A list of user IDs that is not empty, none of which has a comma, is got back by splitting the
-- value that UpdateUserGroupMembers sends as users at its commas.
pub members_form-split :
    (id user : String) (users : List String)
    → NoneHas b',' (user ∷ users)
    → (sent : String) × (get "users" (members_form id (user ∷ users)) ≡ some sent)
      × (split b',' sent ≡ user ∷ users)
unfolding members_form group_form set get
members_form-split id user users h = (_, refl, split-join b',' "," user users refl h)
