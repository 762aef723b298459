-- ===== src/UserGroup/Service.antt =====
-- What the Slack client and Slack promise of user groups, as far as the user group controller relies on
-- it.
use crossplane_provider_slac.Base.{String, ◌≡◌, ◌≢◌, true, some, List, ◌==◌, if◌then◌else◌}
use crossplane_provider_slac.Errors.{ok}
use crossplane_provider_slac.Slack.Api.{ClientApi}
use crossplane_provider_slac.Slack.Types.{UserGroup, UserGroupParams}
use crossplane_provider_slac.UserGroup.{find_group}

-- UpdateUserGroup does not send an empty text, and what is not sent stays as it is.
abbrev pub kept : String → String → String
kept new old = if new == "" then old else new

-- `groups` is Slack's list of the groups, those that are disabled included.
pub record IsGroupStore {W : Type 0} (api : ClientApi W) (groups : W → List UserGroup)
    : Type 0 where
  pub lists : (w : W) → (api.list_user_groups w).0 ≡ ok (groups w)
  pub creates :
      (p : UserGroupParams) (w : W) (g : UserGroup)
      → (api.create_user_group p w).0 ≡ ok g
      → (g.id ≢ "")
        × (h : UserGroup) × (find_group g.id (groups (api.create_user_group p w).1) ≡ some h)
        × (h.is_enabled ≡ true)
        × (h.name ≡ p.name)
        × (h.handle ≡ p.handle)
        × (h.description ≡ p.description)
  pub updates :
      (id : String) (p : UserGroupParams) (w : W) (g : UserGroup)
      → find_group id (groups w) ≡ some g
      → (api.update_user_group id p w).0 ≡ ok tt
      → find_group id (groups (api.update_user_group id p w).1)
        ≡ some (record g {
          name = p.name;
          handle = p.handle;
          description = kept p.description g.description;
        })
