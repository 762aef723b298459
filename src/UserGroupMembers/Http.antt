-- ===== src/UserGroupMembers/Http.antt =====
-- The API of Slack for the members of user groups, as the methods of internal/clients/slack/usergroups.go
-- and users.go use it.
pub mod Refinement
pub mod EndToEnd
use mathlib.Core.List.{Perm, Nodup}
use crossplane_provider_slac.Base.{◌≡◌, String, true, Option, none, some, List, map}
use crossplane_provider_slac.Base.Text.Joining.{split}
use crossplane_provider_slac.Errors.{Result, ok, err}
use crossplane_provider_slac.Slack.Types.{User}
use crossplane_provider_slac.Slack.Form.{Form, get}
use crossplane_provider_slac.Slack.Json.{Json, object, member, boolean, string, array, end}
use crossplane_provider_slac.Slack.Json.Encode.{array_of, error_answer}
use crossplane_provider_slac.Slack.Client.{refused}
use crossplane_provider_slac.Slack.Client.Delivery.{Server}

-- The answer of usergroups.users.list.
abbrev pub users_answer : List String → Json
users_answer ids =
    object (member "ok" (boolean true) (member "users" (array (array_of (map string ids))) end))

-- The JSON that Slack's documentation gives for a user, as far as the client reads it.
abbrev pub user_json : User → Json
user_json u = object (
    member "id" (string u.id)
      (member "profile" (object (member "email" (string u.profile.email) end)) end))

-- The answer of users.lookupByEmail, from an entry of the directory.
abbrev pub lookup_answer : Option User → Json
lookup_answer none = error_answer "users_not_found"
lookup_answer (some u) = object (member "ok" (boolean true) (member "user" (user_json u) end))

-- What the client makes of an entry of the directory.
abbrev pub looked_up : Option User → Result (Option User)
looked_up none = err (refused "users.lookupByEmail" "users_not_found")
looked_up (some u) = ok (some u)

-- What Slack keeps of the members of groups, by the methods and the forms of its API: `book` is the
-- directory of users by email, and `members` are those of a group, with `none` for one that is missing.
-- The IDs of a list are separated by commas.
pub record KeepsMembers {W : Type 0} (s : Server W) (members : W → String → Option (List String))
    (book : String → Option User) : Type 0 where
  pub lists :
      (form : Form) (group : String) (ids : List String) (w : W)
      → get "usergroup" form ≡ some group
      → members w group ≡ some ids
      → (s.answer "usergroups.users.list" form w).0 ≡ users_answer ids
  pub lists_keeps :
      (form : Form) (w : W) → members (s.answer "usergroups.users.list" form w).1 ≡ members w
  pub finds :
      (form : Form) (email : String) (w : W)
      → get "email" form ≡ some email
      → (s.answer "users.lookupByEmail" form w).0 ≡ lookup_answer (book email)
  pub finds_keeps :
      (form : Form) (w : W) → members (s.answer "users.lookupByEmail" form w).1 ≡ members w
  pub replaces :
      (form : Form) (group sent : String) (w : W)
      → get "usergroup" form ≡ some group
      → get "users" form ≡ some sent
      → Nodup (split b',' sent)
      → (s.envelope "usergroups.users.update" form w).is_ok ≡ true
      → (stored : List String) × (members (s.answer "usergroups.users.update" form w).1 group
          ≡ some stored)
        × Perm (split b',' sent) stored
