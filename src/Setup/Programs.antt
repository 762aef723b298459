-- ===== src/Setup/Programs.antt =====
-- cmd/family-provider/main.go, cmd/provider-conversation/main.go and cmd/provider-usergroup/main.go: a
-- program that ends with an error exits with status 1. Flags are parsed and logs are written outside
-- of the model.
pub mod Registered
pub mod Started
use crossplane_provider_slac.Base.{ℕ, String, Bool, Option, none, some, List, [], ◌∷◌}
use crossplane_provider_slac.Errors.{Error, Result, ok, err, plain}
use crossplane_provider_slac.Act.{Act, pure, fail, ◌>>=◌, ◌>>◌}
use crossplane_provider_slac.Runtime.{Runtime}
use crossplane_provider_slac.Runtime.Scheme.{SchemeLibrary}
use crossplane_provider_slac.Apis.{
  provider_config_api, conversation_api, bookmark_api, pin_api, conversation_member_api,
  user_group_api, user_group_members_api,
}
use crossplane_provider_slac.Slack.Client.{Library}
use crossplane_provider_slac.Setup.{
  Manager, setup_conversation, setup_conversation_bookmark, setup_conversation_pin,
  setup_conversation_member, setup_user_group, setup_user_group_members, setup_provider_config,
}

-- The flags -sync-period, in nanoseconds, and -leader-election.
pub record Flags : Type 0 where
  pub sync_period : ℕ
  pub leader_election : Bool

-- ctrl.Options, as the programs fill it.
pub record ManagerOptions (S : SchemeLibrary) : Type 0 where
  pub scheme : S.Scheme
  pub leader_election : Bool
  pub leader_election_id : String
  pub sync_period : ℕ

-- utilruntime.Must panics where the scheme cannot be built. This ends the program too, so that it is
-- an error here.
abbrev pub must : {W A : Type 0} → Option A → Act W A
must none = fail (plain "panic")
must (some a) = pure a

abbrev pub manager_options : {S : SchemeLibrary} → S.Scheme → String → Flags → ManagerOptions S
manager_options scheme id flags = record {
  scheme = scheme;
  leader_election = flags.leader_election;
  leader_election_id = id;
  sync_period = flags.sync_period;
}

-- ctrl.NewManager and the manager's Start, with the empty controller.Options.
pub record Host (S : SchemeLibrary) (W Options : Type 0) : Type 0 where
  pub new_manager : ManagerOptions S → Act W (Unit {0})
  pub start : Act W (Unit {0})
  pub no_options : Options

-- The calls of AddToScheme, on one scheme.
abbrev pub add_all : {Scheme : Type 0} → List (Scheme → Option Scheme) → Scheme → Option Scheme
add_all [] scheme = some scheme
add_all (add ∷ adds) scheme = and_then (add scheme) (add_all adds)
  where
    and_then : {A : Type 0} → Option A → (A → Option A) → Option A
    and_then none f = none
    and_then (some a) f = f a

module _ {R : Runtime} {S : SchemeLibrary} {W Options Handler Request : Type 0}
    (host : Host S W Options) (m : Manager R S W Options Handler) (lib : Library W Request)
    (bound : ℕ) (flags : Flags) where
  unfoldable pub family_provider : Act W (Unit {0})
  unfolding provider_config_api setup_provider_config
  family_provider = do
    scheme ← must (
        add_all (S.client_go_add_to_scheme ∷ (provider_config_api S).add_to_scheme ∷ [])
          S.new_scheme)
    host.new_manager (manager_options scheme "family-provider.slack.crossplane.io" flags)
    setup_provider_config m lib bound host.no_options
    host.start

  unfoldable pub provider_conversation : Act W (Unit {0})
  unfolding provider_config_api conversation_api bookmark_api pin_api conversation_member_api
      setup_conversation setup_conversation_bookmark setup_conversation_pin
      setup_conversation_member
  provider_conversation = do
    scheme ← must (
        add_all
          (S.client_go_add_to_scheme
            ∷ (provider_config_api S).add_to_scheme
            ∷ (conversation_api S).package_of.add_to_scheme
            ∷ (bookmark_api S).package_of.add_to_scheme
            ∷ (pin_api S).package_of.add_to_scheme
            ∷ (conversation_member_api S).package_of.add_to_scheme
            ∷ [])
          S.new_scheme)
    host.new_manager (manager_options scheme "provider-conversation.slack.crossplane.io" flags)
    setup_conversation m lib bound host.no_options
    setup_conversation_bookmark m lib bound host.no_options
    setup_conversation_pin m lib bound host.no_options
    setup_conversation_member m lib bound host.no_options
    host.start

  unfoldable pub provider_usergroup : Act W (Unit {0})
  unfolding provider_config_api user_group_api user_group_members_api setup_user_group
      setup_user_group_members
  provider_usergroup = do
    scheme ← must (
        add_all
          (S.client_go_add_to_scheme
            ∷ (provider_config_api S).add_to_scheme
            ∷ (user_group_api S).package_of.add_to_scheme
            ∷ (user_group_members_api S).package_of.add_to_scheme
            ∷ [])
          S.new_scheme)
    host.new_manager (manager_options scheme "provider-usergroup.slack.crossplane.io" flags)
    setup_user_group m lib bound host.no_options
    setup_user_group_members m lib bound host.no_options
    host.start
