-- ===== src/Setup.antt =====
-- internal/controller/<kind>/setup.go and internal/features/features.go: the registration of the
-- controllers.
pub mod Programs
use crossplane_provider_slac.Base.{
  ℕ, String, Bool, true, false, not, Option, none, some, if◌then◌else◌,
}
use crossplane_provider_slac.Errors.{Error, Result, ok, err}
use crossplane_provider_slac.Act.{Act, pure}
use crossplane_provider_slac.Runtime.{Runtime, Managed}
use crossplane_provider_slac.Runtime.Scheme.{SchemeLibrary}
use crossplane_provider_slac.Apis.{
  Kind, conversation, conversation_bookmark, conversation_pin, conversation_member, user_group,
  user_group_members, KindApi, api_of, conversation_api, bookmark_api, pin_api,
  conversation_member_api, user_group_api, user_group_members_api,
}
use crossplane_provider_slac.ProviderConfig.{ProviderConfig, Kube}
use crossplane_provider_slac.ProviderConfig.Reconcile.{Reconciled, reconcile}
use crossplane_provider_slac.Connector.{Connector}
use crossplane_provider_slac.Slack.Client.{Library}
use crossplane_provider_slac.Slack.Client.Assembly.{new_fn}
use crossplane_provider_slac.Conversation.{ConversationParameters, ConversationObservation}
use crossplane_provider_slac.UserGroup.{UserGroupParameters, UserGroupObservation}
use crossplane_provider_slac.UserGroupMembers.{
  UserGroupMembersParameters, UserGroupMembersObservation,
}
use crossplane_provider_slac.Bookmark.{
  ConversationBookmarkParameters, ConversationBookmarkObservation,
}
use crossplane_provider_slac.Pin.{ConversationPinParameters, ConversationPinObservation}
use crossplane_provider_slac.ConversationMember.{
  ConversationMemberParameters, ConversationMemberObservation,
}

abbrev pub Flag : Type 0
Flag = String

abbrev pub enable_alpha_conversation : Flag
enable_alpha_conversation = "EnableAlphaConversation"

abbrev pub enable_alpha_conversation_bookmark : Flag
enable_alpha_conversation_bookmark = "EnableAlphaConversationBookmark"

abbrev pub enable_alpha_conversation_pin : Flag
enable_alpha_conversation_pin = "EnableAlphaConversationPin"

abbrev pub enable_alpha_user_group : Flag
enable_alpha_user_group = "EnableAlphaUserGroup"

abbrev pub enable_alpha_user_group_members : Flag
enable_alpha_user_group_members = "EnableAlphaUserGroupMembers"

abbrev pub enable_alpha_conversation_member : Flag
enable_alpha_conversation_member = "EnableAlphaConversationMember"

-- The manager of controller-runtime with its Kubernetes client, and what crossplane-runtime makes of
-- it: the usage tracker, the names and the reconcilers of controllers, and the standard reconciler of
-- ProviderConfigs. A controller is completed for the type of a kind. The Boolean is the option WithManagementPolicies.
pub record Manager (R : Runtime) (S : SchemeLibrary) (W Options Handler : Type 0) : Type 1 where
  pub kube : Kube R W
  pub update_status : ProviderConfig R → Act W (Unit {0})
  pub was_deleted : ProviderConfig R → Bool
  pub is_not_found : Error → Bool
  pub track : {P O : Type 0} → Managed R P O → Act W (Unit {0})
  pub controller_name : String → String
  pub provider_config_name : String
  pub new_reconciler :
      {P O : Type 0} → S.GroupVersionKind → Bool → String → Connector R W (Managed R P O) → Handler
  pub standard_reconciler : String → String → Reconciled W
  pub complete : String → Options → Kind → Handler → Act W (Unit {0})
  pub complete_provider_config : String → Options → (String → Reconciled W) → Act W (Unit {0})

-- f != nil && !f.Enabled(flag), and the setup behind it.
unfoldable pub gated :
    {W : Type 0} → Flag → Act W (Unit {0}) → Option (Flag → Bool) → Act W (Unit {0})
gated flag setup none = setup
gated flag setup (some enabled) = if not (enabled flag) then pure tt else setup

module _ {R : Runtime} {S : SchemeLibrary} {W Options Handler Request : Type 0}
    (m : Manager R S W Options Handler) (lib : Library W Request) (bound : ℕ) where
  -- The connector of a managed resource's reconciler.
  abbrev pub external_connector : {P O : Type 0} → Connector R W (Managed R P O)
  external_connector = record { kube = m.kube; track = m.track; new_fn = new_fn lib bound }

  -- The body that the setup functions share.
  register : (P O : Type 0) → Kind → KindApi S → Bool → Options → Act W (Unit {0})
  register P O kind api policies o =
      let name = m.controller_name api.group_kind in
      m.complete name o kind
        (m.new_reconciler api.group_version_kind policies name (external_connector {P = P} {O = O}))

  unfoldable pub setup_conversation : Options → Act W (Unit {0})
  unfolding register conversation_api
  setup_conversation o =
      register ConversationParameters ConversationObservation conversation (conversation_api S)
        false o

  unfoldable pub setup_user_group : Options → Act W (Unit {0})
  unfolding register user_group_api
  setup_user_group o =
      register UserGroupParameters UserGroupObservation user_group (user_group_api S) false o

  unfoldable pub setup_user_group_members : Options → Act W (Unit {0})
  unfolding register user_group_members_api
  setup_user_group_members o =
      register UserGroupMembersParameters UserGroupMembersObservation user_group_members
        (user_group_members_api S) false o

  unfoldable pub setup_conversation_bookmark : Options → Act W (Unit {0})
  unfolding register bookmark_api
  setup_conversation_bookmark o =
      register ConversationBookmarkParameters ConversationBookmarkObservation conversation_bookmark
        (bookmark_api S) false o

  unfoldable pub setup_conversation_pin : Options → Act W (Unit {0})
  unfolding register pin_api
  setup_conversation_pin o =
      register ConversationPinParameters ConversationPinObservation conversation_pin (pin_api S)
        false o

  unfoldable pub setup_conversation_member : Options → Act W (Unit {0})
  unfolding register conversation_member_api
  setup_conversation_member o =
      register ConversationMemberParameters ConversationMemberObservation conversation_member
        (conversation_member_api S) true o

  -- internal/controller/providerconfig/setup.go
  unfoldable pub setup_provider_config : Options → Act W (Unit {0})
  unfolding reconcile
  setup_provider_config o = m.complete_provider_config m.provider_config_name o (
      reconcile (record {
        kube = m.kube;
        update_status = m.update_status;
        standard_reconcile = m.standard_reconciler m.provider_config_name;
        was_deleted = m.was_deleted;
        is_not_found = m.is_not_found;
      }))

  -- The SetupGated functions.
  unfoldable pub setup_gated : Kind → Options → Option (Flag → Bool) → Act W (Unit {0})
  unfolding gated setup_conversation setup_user_group setup_user_group_members
      setup_conversation_bookmark setup_conversation_pin setup_conversation_member
  setup_gated conversation o f = gated enable_alpha_conversation (setup_conversation o) f
  setup_gated conversation_bookmark o f =
      gated enable_alpha_conversation_bookmark (setup_conversation_bookmark o) f
  setup_gated conversation_pin o f =
      gated enable_alpha_conversation_pin (setup_conversation_pin o) f
  setup_gated conversation_member o f =
      gated enable_alpha_conversation_member (setup_conversation_member o) f
  setup_gated user_group o f = gated enable_alpha_user_group (setup_user_group o) f
  setup_gated user_group_members o f =
      gated enable_alpha_user_group_members (setup_user_group_members o) f
