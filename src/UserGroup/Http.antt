-- ===== src/UserGroup/Http.antt =====
-- The API of Slack for user groups, as the methods of internal/clients/slack/usergroups.go use it.
pub mod Refinement
pub mod EndToEnd
use crossplane_provider_slac.Base.{◌≡◌, ◌≢◌, String, true, Option, none, some, List, map}
use crossplane_provider_slac.Base.Int.{ℤ}
use crossplane_provider_slac.Base.Lists.{First}
use crossplane_provider_slac.Base.Text.{value_or_empty}
use crossplane_provider_slac.Slack.Types.{UserGroup}
use crossplane_provider_slac.Slack.Form.{Form, get}
use crossplane_provider_slac.Slack.Json.{Json, object, member, boolean, end, is_int64}
use crossplane_provider_slac.Slack.Json.Encode.{user_group_json, user_groups_answer, DatesSmall}
use crossplane_provider_slac.Slack.Client.Delivery.{Server}

-- The answer of usergroups.create: a group that is not disabled.
abbrev pub user_group_answer : UserGroup × ℤ → Json
user_group_answer g =
    object (member "ok" (boolean true) (member "usergroup" (user_group_json g) end))

-- The first group of the list with the ID.
abbrev pub At : String → List (UserGroup × ℤ) → UserGroup → Type 0
At id gs g = First (λ h. h.id ≡ id) (map (λ p. p.0) gs) (some g)

-- A key that is not in the form leaves what is stored.
abbrev pub sent_or : String → Option String → String
sent_or old none = old
sent_or old (some new) = new

-- What Slack keeps of user groups, by the methods and the forms of its API: `groups` is its list of the
-- groups, those that are disabled included, with the dates at which they were.
pub record KeepsGroups {W : Type 0} (s : Server W) (groups : W → List (UserGroup × ℤ))
    : Type 0 where
  pub lists :
      (form : Form) (w : W)
      → get "include_disabled" form ≡ some "true"
      → ((s.answer "usergroups.list" form w).0 ≡ user_groups_answer (groups w))
        × DatesSmall (groups w)
  pub creates :
      (form : Form) (name handle : String) (w : W)
      → get "name" form ≡ some name
      → get "handle" form ≡ some handle
      → (s.envelope "usergroups.create" form w).is_ok ≡ true
      → (g : UserGroup) × (d : ℤ) × ((s.answer "usergroups.create" form w).0
          ≡ user_group_answer (g, d))
        × (is_int64 g.date_create ≡ true)
        × (g.id ≢ "")
        × (h : UserGroup) × At g.id (groups (s.answer "usergroups.create" form w).1) h
        × (h.is_enabled ≡ true)
        × (h.name ≡ name)
        × (h.handle ≡ handle)
        × (h.description ≡ sent_or "" (get "description" form))
  pub updates :
      (form : Form) (id name handle : String) (w : W) (g : UserGroup)
      → get "usergroup" form ≡ some id
      → get "name" form ≡ some name
      → get "handle" form ≡ some handle
      → At id (groups w) g
      → (s.envelope "usergroups.update" form w).is_ok ≡ true
      → At id (groups (s.answer "usergroups.update" form w).1) (record g {
        name = name;
        handle = handle;
        description = sent_or g.description (get "description" form);
      })
