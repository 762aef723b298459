-- ===== src/UserGroupMembers/Http/EndToEnd.antt =====
-- The controller of a group's members over HTTP: what Observe reports after Update.
use mathlib.Core.List.{Nodup}
use crossplane_provider_slac.Base.{
  ℕ, ◌≡◌, refl, ◌≢◌, String, true, Option, List, [], ◌∷◌, Option-cases, inl, inr,
}
use crossplane_provider_slac.Base.Text.Joining.{NoneHas}
use crossplane_provider_slac.Errors.{ok}
use crossplane_provider_slac.Runtime.{Runtime, external_name}
use crossplane_provider_slac.Slack.Types.{User}
use crossplane_provider_slac.Slack.Form.{Form}
use crossplane_provider_slac.Slack.Client.{Library, Client}
use crossplane_provider_slac.Slack.Client.Delivery.{Server, Delivery}
use crossplane_provider_slac.Slack.Client.Assembly.{slack_client}
use crossplane_provider_slac.UserGroupMembers.{
  State, observe, update, is_users_not_found, slack_itself,
}
use crossplane_provider_slac.UserGroupMembers.Emails.{found_ids, NoneStops}
use crossplane_provider_slac.UserGroupMembers.Convergence.{update-observe_members}
use crossplane_provider_slac.UserGroupMembers.Http.{KeepsMembers, looked_up}
use crossplane_provider_slac.UserGroupMembers.Http.Refinement.{slack_client-IsGroupService}

-- The IDs of the emails that the directory knows, in order.
abbrev pub known_ids : (String → Option User) → List String → List String
known_ids book emails = found_ids (λ email. looked_up (book email)) emails

-- Slack's directory stops no resolution.
pub looked_up-NoneStops :
    (book : String → Option User) (emails : List String)
    → NoneStops (λ email. looked_up (book email)) emails
unfolding is_users_not_found slack_itself
looked_up-NoneStops book [] = tt
looked_up-NoneStops book (email ∷ emails) = elim (Option-cases (book email)) [
  | inl e ↦ (rw e refl, looked_up-NoneStops book emails)
  | inr (u, e) ↦ (rw e refl, looked_up-NoneStops book emails)
]

module _ (R : Runtime) {W Request : Type 0} (lib : Library W Request) (c : Client W Request)
    (s : Server W)
    (delivers : (method : String) (form : Form) (w : W) → Delivery lib c s method form w)
    (bound : ℕ) (members : W → String → Option (List String)) (book : String → Option User)
    (keeps : KeepsMembers s members book) where
  -- With the HTTP client, over a network that delivers Slack's answers, where Slack finds users by
  -- email, lists the members of a group, and stores, in any order, a list of IDs separated by commas
  -- that it accepts and that has no repetition: where the resource has an external name, at least one
  -- email is resolved, no two are of one user and no ID has a comma, an Update that succeeds is seen
  -- as up to date by the next Observe.
  pub update-observe_members_http :
      (t : State R W)
      → external_name t.cr ≢ ""
      → known_ids book t.cr.for_provider.user_emails ≢ []
      → NoneHas b',' (known_ids book t.cr.for_provider.user_emails)
      → Nodup (known_ids book t.cr.for_provider.user_emails)
      → (update R (slack_client lib bound c) t).0 ≡ ok tt
      → (observe R (slack_client lib bound c) (update R (slack_client lib bound c) t).1).0
        ≡ ok (record { resource_exists = true; resource_up_to_date = true })
  update-observe_members_http t named =
      update-observe_members R (slack_client lib bound c) members (λ email. looked_up (book email))
        (slack_client-IsGroupService lib c s delivers bound members book keeps) t named
        (looked_up-NoneStops book t.cr.for_provider.user_emails)
