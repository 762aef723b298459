-- ===== src/Setup/Programs/Started.antt =====
-- cmd/provider-conversation/main.go and cmd/provider-usergroup/main.go: the state in which the
-- manager is started.
use mathlib.Core.List.{append_assoc}
use crossplane_provider_slac.Base.{
  ℕ, ◌≡◌, refl, ap, ◌∙◌, Bool, true, ◌&&◌, Option, some, List, [], ◌∷◌, ◌++◌, map, Option-cases,
  inl, inr,
}
use crossplane_provider_slac.Errors.{ok}
use crossplane_provider_slac.Runtime.{Runtime}
use crossplane_provider_slac.Runtime.Scheme.{SchemeLibrary, IsSchemeLawful}
use crossplane_provider_slac.Slack.Client.{Library}
use crossplane_provider_slac.Apis.{
  Kind, conversation, conversation_bookmark, conversation_pin, conversation_member, user_group,
  user_group_members, api_of, provider_config_kind, provider_config_api, conversation_api,
  bookmark_api, pin_api, conversation_member_api, user_group_api, user_group_members_api,
}
use crossplane_provider_slac.Apis.Recognized
use crossplane_provider_slac.Apis.Recognized.{
  api_of-Adds, provider_config-Adds, provider_config_usage-Adds,
}
use crossplane_provider_slac.Setup.{
  Manager, register, setup_conversation, setup_conversation_bookmark, setup_conversation_pin,
  setup_conversation_member, setup_user_group, setup_user_group_members,
}
use crossplane_provider_slac.Setup.Programs.{
  Host, Flags, manager_options, add_all, provider_conversation, provider_usergroup,
}
use crossplane_provider_slac.Setup.Programs.Registered.{
  Registers, adds_none, adds_one, program-Starts,
}

abbrev pub conversation_kinds : List Kind
conversation_kinds =
    conversation ∷ conversation_bookmark ∷ conversation_pin ∷ conversation_member ∷ []

abbrev pub user_group_kinds : List Kind
user_group_kinds = user_group ∷ user_group_members ∷ []

module _ (S : SchemeLibrary) where
  abbrev pub recognizes_all : S.Scheme → List S.GroupVersionKind → Bool
  recognizes_all scheme [] = true
  recognizes_all scheme (k ∷ ks) = S.recognizes scheme k && recognizes_all scheme ks

  -- The kinds of the resources, and those that every connection reads and writes.
  abbrev pub needed : List Kind → List S.GroupVersionKind
  needed kinds =
      provider_config_kind S "ProviderConfig"
      ∷ provider_config_kind S "ProviderConfigUsage"
      ∷ map (λ k. (api_of S k).group_version_kind) kinds

module _ (S : SchemeLibrary) (L : IsSchemeLawful S) where
  add_all-keeps :
      (bs : List S.Builder) (k : S.GroupVersionKind) (s t : S.Scheme)
      → S.recognizes s k ≡ true
      → add_all (map S.add_to_scheme bs) s ≡ some t
      → S.recognizes t k ≡ true
  add_all-keeps [] k s t known = λ done. rw (← (some-eq done)) known
    where
      some-eq : {a b : S.Scheme} → some a ≡ some b → a ≡ b
      some-eq p = cc
  add_all-keeps (b ∷ bs) k s t known = elim (Option-cases (S.add_to_scheme b s)) [
    | inl e ↦ rw e (λ done. cc)
    | inr (u, e) ↦ rw e (add_all-keeps bs k u t (L.adds_only b k s u e known))
  ]

  -- What one of the builders adds is recognized at the end.
  add_all-recognizes :
      (before after : List S.Builder) (b : S.Builder) (k : S.GroupVersionKind) (s t : S.Scheme)
      → Recognized.Adds S L (S.add_to_scheme b) k
      → add_all (map S.add_to_scheme (before ++ (b ∷ after))) s ≡ some t
      → S.recognizes t k ≡ true
  add_all-recognizes [] after b k s t adds = elim (Option-cases (S.add_to_scheme b s)) [
    | inl e ↦ rw e (λ done. cc)
    | inr (u, e) ↦ rw e (add_all-keeps after k u t (adds s u e))
  ]
  add_all-recognizes (c ∷ before) after b k s t adds = elim (Option-cases (S.add_to_scheme c s)) [
    | inl e ↦ rw e (λ done. cc)
    | inr (u, e) ↦ rw e (add_all-recognizes before after b k u t adds)
  ]

  abbrev builder_of : Kind → S.Builder
  builder_of k = (api_of S k).package_of.scheme_builder

  abbrev builds : List S.Builder → Option S.Scheme
  builds bs = add_all (S.client_go_add_to_scheme ∷ map S.add_to_scheme bs) S.new_scheme

  builds-recognizes :
      (before after : List S.Builder) (b : S.Builder) (k : S.GroupVersionKind) (scheme : S.Scheme)
      → Recognized.Adds S L (S.add_to_scheme b) k
      → builds (before ++ (b ∷ after)) ≡ some scheme
      → S.recognizes scheme k ≡ true
  builds-recognizes before after b k scheme adds =
      elim (Option-cases (S.client_go_add_to_scheme S.new_scheme)) [
        | inl e ↦ rw e (λ done. cc)
        | inr (u, e) ↦ rw e (add_all-recognizes before after b k u scheme adds)
      ]

  kinds-recognized :
      (before : List S.Builder) (after : List Kind) (scheme : S.Scheme)
      → builds (before ++ map builder_of after) ≡ some scheme
      → recognizes_all S scheme (map (λ k. (api_of S k).group_version_kind) after) ≡ true
  kinds-recognized before [] scheme done = refl
  kinds-recognized before (k ∷ after) scheme done =
      rw
        (
          builds-recognizes before (map builder_of after) (builder_of k) _ scheme
              (api_of-Adds S L k) done,
          kinds-recognized (before ++ (builder_of k ∷ [])) after scheme
              (ap builds (append_assoc before (builder_of k ∷ []) (map builder_of after)) ∙ done),
        )
        refl

  -- A scheme of ProviderConfigs and of some kinds recognizes what the controllers of these kinds
  -- need.
  needed-recognized :
      (kinds : List Kind) (scheme : S.Scheme)
      → builds ((provider_config_api S).scheme_builder ∷ map builder_of kinds) ≡ some scheme
      → recognizes_all S scheme (needed S kinds) ≡ true
  needed-recognized kinds scheme done =
      let b = (provider_config_api S).scheme_builder in
      rw
        (
          builds-recognizes [] (map builder_of kinds) b _ scheme (provider_config-Adds S L) done,
          builds-recognizes [] (map builder_of kinds) b _ scheme (provider_config_usage-Adds S L)
              done,
          kinds-recognized (b ∷ []) kinds scheme done,
        )
        refl

module _ {R : Runtime} {S : SchemeLibrary} {W Options Handler Request : Type 0}
    (L : IsSchemeLawful S) (host : Host S W Options) (m : Manager R S W Options Handler)
    (lib : Library W Request) (bound : ℕ) (flags : Flags) (registered : W → List Kind)
    (scheme_of : W → S.Scheme) (laws : Registers host m registered scheme_of) where
  -- If provider-conversation ends without an error, it has started the manager, in a state in which
  -- exactly the controllers of Conversation, ConversationBookmark, ConversationPin and
  -- ConversationMember had been registered by it, in this order; its result is that of the manager;
  -- and the manager's scheme recognizes ProviderConfig, ProviderConfigUsage and each of the four
  -- kinds, by the names that their controllers use. This holds if building a manager registers
  -- nothing and sets its scheme, completing a controller registers its kind and keeps the scheme, and
  -- a scheme recognizes what has been registered with a builder that was added to it.
  pub provider_conversation-registers :
      (w : W)
      → (provider_conversation host m lib bound flags w).0 ≡ ok tt
      → (scheme : S.Scheme) × (recognizes_all S scheme (needed S conversation_kinds) ≡ true)
        × (v : W) × (registered v ≡ registered w ++ conversation_kinds)
        × (scheme_of v ≡ scheme)
        × (provider_conversation host m lib bound flags w ≡ host.start v)
  unfolding provider_conversation setup_conversation setup_conversation_bookmark
      setup_conversation_pin setup_conversation_member register provider_config_api conversation_api
      bookmark_api pin_api conversation_member_api
  provider_conversation-registers w done =
      let (scheme, built, (v, e, x, r)) =
        program-Starts host m registered scheme_of laws _
          (λ scheme. manager_options scheme "provider-conversation.slack.crossplane.io" flags)
          (setup_conversation m lib bound host.no_options
            ∷ setup_conversation_bookmark m lib bound host.no_options
            ∷ setup_conversation_pin m lib bound host.no_options
            ∷ setup_conversation_member m lib bound host.no_options
            ∷ [])
          conversation_kinds w (λ scheme. refl)
          (adds_one _ _ _ _ (laws.completes _ _ _ _) (
            adds_one _ _ _ _ (laws.completes _ _ _ _) (
              adds_one _ _ _ _ (laws.completes _ _ _ _)
                (adds_one _ _ _ _ (laws.completes _ _ _ _) adds_none))))
          done in
      (scheme, needed-recognized S L conversation_kinds scheme built, v, e, x, r)

  -- The same of provider-usergroup, with UserGroup and UserGroupMembers.
  provider_usergroup-registers :
      (w : W)
      → (provider_usergroup host m lib bound flags w).0 ≡ ok tt
      → (scheme : S.Scheme) × (recognizes_all S scheme (needed S user_group_kinds) ≡ true)
        × (v : W) × (registered v ≡ registered w ++ user_group_kinds)
        × (scheme_of v ≡ scheme)
        × (provider_usergroup host m lib bound flags w ≡ host.start v)
  unfolding provider_usergroup setup_user_group setup_user_group_members register
      provider_config_api user_group_api user_group_members_api
  provider_usergroup-registers w done =
      let (scheme, built, (v, e, x, r)) =
        program-Starts host m registered scheme_of laws _
          (λ scheme. manager_options scheme "provider-usergroup.slack.crossplane.io" flags)
          (setup_user_group m lib bound host.no_options
            ∷ setup_user_group_members m lib bound host.no_options
            ∷ [])
          user_group_kinds w (λ scheme. refl)
          (adds_one _ _ _ _ (laws.completes _ _ _ _)
            (adds_one _ _ _ _ (laws.completes _ _ _ _) adds_none))
          done in
      (scheme, needed-recognized S L user_group_kinds scheme built, v, e, x, r)
