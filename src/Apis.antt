-- ===== src/Apis.antt =====
-- apis/v1alpha1 and apis/<kind>/v1alpha1: the group versions and kinds of groupversion_info.go, and
-- the types that the init functions register.
pub mod Recognized
pub mod Managed
pub mod Objects
pub mod ProviderConfigs
pub mod Items
use crossplane_provider_slac.Base.{String, Option, List, [], ◌∷◌}
use crossplane_provider_slac.Runtime.Scheme.{GroupVersion, SchemeLibrary}

-- The kinds of the managed resources.
pub data Kind : Type 0 where
  conversation conversation_bookmark conversation_pin conversation_member user_group
        user_group_members :
      Kind

-- SchemeGroupVersion, SchemeBuilder and AddToScheme of a package.
pub record PackageApi (S : SchemeLibrary) : Type 0 where
  pub scheme_group_version : GroupVersion
  pub scheme_builder : S.Builder
  pub add_to_scheme : S.Scheme → Option S.Scheme

-- A package with one kind, and the names of that kind.
pub record KindApi (S : SchemeLibrary) : Type 0 where
  pub package_of : PackageApi S
  pub kind : String
  pub group_kind : String
  pub group_version_kind : S.GroupVersionKind

abbrev pub version : String
version = "v1alpha1"

module _ (S : SchemeLibrary) where
  -- The calls of Register in the init function, each with the names of its types.
  abbrev pub register_all : List (List String) → S.Builder → S.Builder
  register_all [] b = b
  register_all (names ∷ calls) b = register_all calls (S.register b names)

  abbrev pub package_api : String → List (List String) → PackageApi S
  package_api group calls =
      let gv : GroupVersion = record { group = group; version = version } in
      let builder : S.Builder = register_all calls (S.builder gv) in
      record {
        scheme_group_version = gv;
        scheme_builder = builder;
        add_to_scheme = S.add_to_scheme builder;
      }

  abbrev pub kind_api : String → String → List (List String) → KindApi S
  kind_api group kind calls =
      let types : PackageApi S = package_api group calls in
      record {
        package_of = types;
        kind = kind;
        group_kind = S.group_kind_text group kind;
        group_version_kind = S.with_kind types.scheme_group_version kind;
      }

  unfoldable pub provider_config_api : PackageApi S
  provider_config_api = package_api "slack.crossplane.io" (
      ("ProviderConfig" ∷ "ProviderConfigList" ∷ [])
      ∷ ("ProviderConfigUsage" ∷ "ProviderConfigUsageList" ∷ [])
      ∷ [])

  unfoldable pub conversation_api : KindApi S
  conversation_api =
      kind_api "conversation.slack.crossplane.io" "Conversation"
        (("Conversation" ∷ "ConversationList" ∷ []) ∷ [])

  unfoldable pub bookmark_api : KindApi S
  bookmark_api =
      kind_api "bookmark.slack.crossplane.io" "ConversationBookmark"
        (("ConversationBookmark" ∷ "ConversationBookmarkList" ∷ []) ∷ [])

  unfoldable pub pin_api : KindApi S
  pin_api =
      kind_api "pin.slack.crossplane.io" "ConversationPin"
        (("ConversationPin" ∷ "ConversationPinList" ∷ []) ∷ [])

  unfoldable pub conversation_member_api : KindApi S
  conversation_member_api =
      kind_api "conversationmember.slack.crossplane.io" "ConversationMember"
        (("ConversationMember" ∷ "ConversationMemberList" ∷ []) ∷ [])

  unfoldable pub user_group_api : KindApi S
  user_group_api =
      kind_api "usergroup.slack.crossplane.io" "UserGroup"
        (("UserGroup" ∷ "UserGroupList" ∷ []) ∷ [])

  unfoldable pub user_group_members_api : KindApi S
  user_group_members_api =
      kind_api "usergroupmembers.slack.crossplane.io" "UserGroupMembers"
        (("UserGroupMembers" ∷ "UserGroupMembersList" ∷ []) ∷ [])

  -- The names by which the controllers refer to their kinds.
  abbrev pub api_of : Kind → KindApi S
  api_of conversation = conversation_api
  api_of conversation_bookmark = bookmark_api
  api_of conversation_pin = pin_api
  api_of conversation_member = conversation_member_api
  api_of user_group = user_group_api
  api_of user_group_members = user_group_members_api

  -- The kinds of apis/v1alpha1, which has no names for them.
  abbrev pub provider_config_kind : String → S.GroupVersionKind
  provider_config_kind name = S.with_kind provider_config_api.scheme_group_version name
