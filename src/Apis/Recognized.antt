-- ===== src/Apis/Recognized.antt =====
-- What a scheme recognizes after the packages of API types have been added to it.
use mathlib.Core.List.{Memᴰ}
use crossplane_provider_slac.Base.{◌≡◌, refl, subst, ◌∙◌, String, true, Option, some, List, ◌∷◌}
use crossplane_provider_slac.Runtime.Scheme.{GroupVersion, SchemeLibrary, IsSchemeLawful}
use crossplane_provider_slac.Apis.{
  Kind, conversation, conversation_bookmark, conversation_pin, conversation_member, user_group,
  user_group_members, provider_config_api, conversation_api, bookmark_api, pin_api,
  conversation_member_api, user_group_api, user_group_members_api, api_of, provider_config_kind,
}

module _ (S : SchemeLibrary) (L : IsSchemeLawful S) where
  -- Every scheme that an addition gives recognizes the kind.
  abbrev pub Adds : (S.Scheme → Option S.Scheme) → S.GroupVersionKind → Type 0
  Adds add k = (s t : S.Scheme) → add s ≡ some t → S.recognizes t k ≡ true

  register-Adds :
      (b : S.Builder) (gv : GroupVersion) (names : List String) (name : String)
      → L.version_of b ≡ gv
      → Memᴰ name names
      → Adds (S.add_to_scheme (S.register b names)) (S.with_kind gv name)
  register-Adds b gv names name v mem s t done =
      subst (λ x. S.recognizes t (S.with_kind x name) ≡ true) v
        (L.registers b names name s t mem done)

  -- The first type of the one call of Register in a package.
  first-Adds :
      (gv : GroupVersion) (name : String) (names : List String)
      → Adds (S.add_to_scheme (S.register (S.builder gv) (name ∷ names))) (S.with_kind gv name)
  first-Adds gv name names =
      register-Adds (S.builder gv) gv (name ∷ names) name (L.version-builder gv) (Memᴰ.head refl)

  -- Adding a kind's package makes the scheme recognize the kind by the name that its controller
  -- uses.
  pub api_of-Adds :
      (k : Kind)
      → Adds
          (S.add_to_scheme (api_of S k).package_of.scheme_builder)
          (api_of S k).group_version_kind
  unfolding conversation_api bookmark_api pin_api conversation_member_api user_group_api
      user_group_members_api
  api_of-Adds conversation = first-Adds _ "Conversation" _
  api_of-Adds conversation_bookmark = first-Adds _ "ConversationBookmark" _
  api_of-Adds conversation_pin = first-Adds _ "ConversationPin" _
  api_of-Adds conversation_member = first-Adds _ "ConversationMember" _
  api_of-Adds user_group = first-Adds _ "UserGroup" _
  api_of-Adds user_group_members = first-Adds _ "UserGroupMembers" _

  pub provider_config-Adds :
      Adds
        (S.add_to_scheme (provider_config_api S).scheme_builder)
        (provider_config_kind S "ProviderConfig")
  unfolding provider_config_api
  provider_config-Adds = L.registers_also _ _ _ (first-Adds _ "ProviderConfig" _)

  pub provider_config_usage-Adds :
      Adds
        (S.add_to_scheme (provider_config_api S).scheme_builder)
        (provider_config_kind S "ProviderConfigUsage")
  unfolding provider_config_api
  provider_config_usage-Adds =
      register-Adds _ _ _ "ProviderConfigUsage" (L.version-register _ _ ∙ L.version-builder _)
        (Memᴰ.head refl)
