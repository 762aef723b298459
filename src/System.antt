-- ===== src/System.antt =====
-- The six controllers at work together: resources of all kinds, one Slack, and calls of the handlers
-- in any order, as the reconcilers of crossplane-runtime make them.
pub mod Invariants
pub mod Targets
use crossplane_provider_slac.Base.{ℕ, zero, suc, String, Bool, List, [], ◌∷◌}
use crossplane_provider_slac.Act.{Act, pure}
use crossplane_provider_slac.Runtime.{Runtime, Managed, Session, ExternalObservation}
use crossplane_provider_slac.ProviderConfig.{Kube}
use crossplane_provider_slac.Slack.Api.{ClientApi}
use crossplane_provider_slac.Conversation
use crossplane_provider_slac.UserGroup
use crossplane_provider_slac.UserGroupMembers
use crossplane_provider_slac.Bookmark
use crossplane_provider_slac.Pin
use crossplane_provider_slac.ConversationMember

-- managed.ExternalClient, which the external struct of each controller implements.
pub record ExternalClient (R : Runtime) (W P O : Type 0) : Type 0 where
  pub observe : Act (Session (Managed R P O) W) ExternalObservation
  pub create : Act (Session (Managed R P O) W) (Unit {0})
  pub update : Act (Session (Managed R P O) W) (Unit {0})
  pub delete : Act (Session (Managed R P O) W) (Unit {0})
  pub disconnect : Act W (Unit {0})

pub data Call : Type 0 where
  observes creates updates deletes disconnects : Call

-- A resource of any kind.
pub data Resource (R : Runtime) : Type 0 where
  conversation : Conversation.Resource R → Resource R
  user_group : UserGroup.Resource R → Resource R
  user_group_members : UserGroupMembers.Resource R → Resource R
  bookmark : Bookmark.Resource R → Resource R
  pin : Pin.Resource R → Resource R
  conversation_member : ConversationMember.Resource R → Resource R

-- The resources that exist, and Slack with Kubernetes.
pub record System (R : Runtime) (W : Type 0) : Type 0 where
  pub resources : List (Resource R)
  pub world : W

-- A handler is called with the resource at a position, or somebody else changes the world.
pub data Event (W : Type 0) : Type 0 where
  handled : ℕ → Call → Event W
  elsewhere : (W → W) → Event W

-- What a call leaves. Its result goes to the reconciler, which may make any call next.
unfoldable pub after :
    {R : Runtime} {W P O : Type 0}
    → ExternalClient R W P O
    → Call
    → Session (Managed R P O) W
    → Session (Managed R P O) W
after client observes s = (client.observe s).1
after client creates s = (client.create s).1
after client updates s = (client.update s).1
after client deletes s = (client.delete s).1
after client disconnects s = record s { world = (client.disconnect s.world).1 }

-- The Disconnect methods.
abbrev pub disconnect : {W : Type 0} → Act W (Unit {0})
disconnect = pure tt

module _ (R : Runtime) {W : Type 0} (api : ClientApi W) (kube : Kube R W) where
  abbrev pub conversation_external :
      ExternalClient R W Conversation.ConversationParameters Conversation.ConversationObservation
  conversation_external = record {
    observe = Conversation.observe R api;
    create = Conversation.create R api;
    update = Conversation.update R api;
    delete = Conversation.delete R api;
    disconnect = disconnect;
  }

  abbrev pub user_group_external :
      ExternalClient R W UserGroup.UserGroupParameters UserGroup.UserGroupObservation
  user_group_external = record {
    observe = UserGroup.observe R api;
    create = UserGroup.create R api;
    update = UserGroup.update R api;
    delete = UserGroup.delete R api;
    disconnect = disconnect;
  }

  abbrev pub user_group_members_external :
      ExternalClient R W UserGroupMembers.UserGroupMembersParameters
        UserGroupMembers.UserGroupMembersObservation
  user_group_members_external = record {
    observe = UserGroupMembers.observe R api;
    create = UserGroupMembers.create R api kube;
    update = UserGroupMembers.update R api;
    delete = UserGroupMembers.delete R api;
    disconnect = disconnect;
  }

  abbrev pub bookmark_external :
      ExternalClient R W Bookmark.ConversationBookmarkParameters
        Bookmark.ConversationBookmarkObservation
  bookmark_external = record {
    observe = Bookmark.observe R api kube;
    create = Bookmark.create R api kube;
    update = Bookmark.update R api kube;
    delete = Bookmark.delete R api kube;
    disconnect = disconnect;
  }

  abbrev pub pin_external :
      ExternalClient R W Pin.ConversationPinParameters Pin.ConversationPinObservation
  pin_external = record {
    observe = Pin.observe R api kube;
    create = Pin.create R api kube;
    update = Pin.update R api kube;
    delete = Pin.delete R api kube;
    disconnect = disconnect;
  }

  abbrev pub conversation_member_external :
      ExternalClient R W ConversationMember.ConversationMemberParameters
        ConversationMember.ConversationMemberObservation
  conversation_member_external = record {
    observe = ConversationMember.observe R api kube;
    create = ConversationMember.create R api kube;
    update = ConversationMember.update R api kube;
    delete = ConversationMember.delete R api kube;
    disconnect = disconnect;
  }

  -- One call, with the resource and the world that it leaves.
  unfoldable pub handle : Call → Resource R → W → Resource R × W
  unfolding after
  handle call (conversation cr) w =
      let s = after conversation_external call (record { cr = cr; world = w }) in
      (conversation s.cr, s.world)
  handle call (user_group cr) w =
      let s = after user_group_external call (record { cr = cr; world = w }) in
      (user_group s.cr, s.world)
  handle call (user_group_members cr) w =
      let s = after user_group_members_external call (record { cr = cr; world = w }) in
      (user_group_members s.cr, s.world)
  handle call (bookmark cr) w =
      let s = after bookmark_external call (record { cr = cr; world = w }) in
      (bookmark s.cr, s.world)
  handle call (pin cr) w =
      let s = after pin_external call (record { cr = cr; world = w }) in (pin s.cr, s.world)
  handle call (conversation_member cr) w =
      let s = after conversation_member_external call (record { cr = cr; world = w }) in
      (conversation_member s.cr, s.world)

  -- A call with the resource at a position; beyond the last resource nothing happens.
  unfoldable pub handle_at : ℕ → Call → List (Resource R) → W → List (Resource R) × W
  unfolding handle
  handle_at i call [] w = ([], w)
  handle_at zero call (r ∷ rs) w = let (r1, w1) = handle call r w in (r1 ∷ rs, w1)
  handle_at (suc i) call (r ∷ rs) w = let (rs1, w1) = handle_at i call rs w in (r ∷ rs1, w1)

  unfoldable pub step : Event W → System R W → System R W
  unfolding handle_at
  step (handled i call) s =
      let (rs, w) = handle_at i call s.resources s.world in record { resources = rs; world = w }
  step (elsewhere change) s = record s { world = change s.world }

  unfoldable pub run : List (Event W) → System R W → System R W
  unfolding step
  run [] s = s
  run (e ∷ es) s = run es (step e s)
