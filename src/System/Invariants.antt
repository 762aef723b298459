-- ===== src/System/Invariants.antt =====
-- What no sequence of calls of the handlers changes, whatever Slack answers.
use crossplane_provider_slac.Base.{ℕ, zero, suc, ◌≡◌, refl, ap, ◌∙◌, List, [], ◌∷◌, map}
use crossplane_provider_slac.Runtime.{Runtime, ResourceSpec, Managed, Session}
use crossplane_provider_slac.Runtime.Frame.{desired, Keeps}
use crossplane_provider_slac.ProviderConfig.{Kube}
use crossplane_provider_slac.Slack.Api.{ClientApi}
use crossplane_provider_slac.Conversation.{ConversationParameters}
use crossplane_provider_slac.Conversation.Frame as ConversationFrame
use crossplane_provider_slac.UserGroup.{UserGroupParameters}
use crossplane_provider_slac.UserGroup.Frame as UserGroupFrame
use crossplane_provider_slac.UserGroupMembers.{UserGroupMembersParameters}
use crossplane_provider_slac.UserGroupMembers.Frame as UserGroupMembersFrame
use crossplane_provider_slac.Bookmark.{ConversationBookmarkParameters}
use crossplane_provider_slac.Bookmark.Frame as BookmarkFrame
use crossplane_provider_slac.Pin.{ConversationPinParameters}
use crossplane_provider_slac.Pin.Frame as PinFrame
use crossplane_provider_slac.ConversationMember.{ConversationMemberParameters}
use crossplane_provider_slac.ConversationMember.Frame as ConversationMemberFrame
use crossplane_provider_slac.System.{
  ExternalClient, Call, observes, creates, updates, deletes, disconnects, Resource, System, Event,
  handled, elsewhere, after, handle, handle_at, step, run, conversation_external,
  user_group_external, user_group_members_external, bookmark_external, pin_external,
  conversation_member_external,
}

-- The desired state of a resource: its kind, its spec and the parameters of its kind.
pub data Desired : Type 0 where
  conversation_desired : ResourceSpec × ConversationParameters → Desired
  user_group_desired : ResourceSpec × UserGroupParameters → Desired
  user_group_members_desired : ResourceSpec × UserGroupMembersParameters → Desired
  bookmark_desired : ResourceSpec × ConversationBookmarkParameters → Desired
  pin_desired : ResourceSpec × ConversationPinParameters → Desired
  conversation_member_desired : ResourceSpec × ConversationMemberParameters → Desired

module _ {R : Runtime} where
  abbrev pub desired_of : Resource R → Desired
  desired_of (Resource.conversation cr) = conversation_desired (desired cr)
  desired_of (Resource.user_group cr) = user_group_desired (desired cr)
  desired_of (Resource.user_group_members cr) = user_group_members_desired (desired cr)
  desired_of (Resource.bookmark cr) = bookmark_desired (desired cr)
  desired_of (Resource.pin cr) = pin_desired (desired cr)
  desired_of (Resource.conversation_member cr) = conversation_member_desired (desired cr)

-- Every handler leaves the desired state.
record KeepsDesired {R : Runtime} {W P O : Type 0} (client : ExternalClient R W P O) : Type 0 where
  observe : Keeps desired client.observe
  create : Keeps desired client.create
  update : Keeps desired client.update
  delete : Keeps desired client.delete

module _ {R : Runtime} {W P O : Type 0} (client : ExternalClient R W P O)
    (k : KeepsDesired client) where
  after-desired :
      (call : Call) (s : Session (Managed R P O) W)
      → desired (after client call s).cr ≡ desired s.cr
  unfolding after
  after-desired observes s = k.observe s
  after-desired creates s = k.create s
  after-desired updates s = k.update s
  after-desired deletes s = k.delete s
  after-desired disconnects s = refl

module _ (R : Runtime) {W : Type 0} (api : ClientApi W) (kube : Kube R W) where
  conversation-KeepsDesired : KeepsDesired (conversation_external R api kube)
  conversation-KeepsDesired = record {
    observe = ConversationFrame.observe-desired R api;
    create = ConversationFrame.create-desired R api;
    update = λ s. ap (λ x. x.0) (ConversationFrame.update-target R api s);
    delete = λ s. ap (λ x. x.0) (ConversationFrame.delete-target R api s);
  }

  user_group-KeepsDesired : KeepsDesired (user_group_external R api kube)
  user_group-KeepsDesired = record {
    observe = λ s. ap (λ x. x.0) (UserGroupFrame.observe-target R api s);
    create = UserGroupFrame.create-desired R api;
    update = λ s. ap (λ x. x.0) (UserGroupFrame.update-target R api s);
    delete = λ s. ap (λ x. x.0) (UserGroupFrame.delete-target R api s);
  }

  user_group_members-KeepsDesired : KeepsDesired (user_group_members_external R api kube)
  user_group_members-KeepsDesired = record {
    observe = λ s. ap (λ x. x.0) (UserGroupMembersFrame.observe-target R api s);
    create = UserGroupMembersFrame.create-desired R api kube;
    update = λ s. ap (λ x. x.0) (UserGroupMembersFrame.update-target R api s);
    delete = λ s. ap (λ x. x.0) (UserGroupMembersFrame.delete-target R api s);
  }

  bookmark-KeepsDesired : KeepsDesired (bookmark_external R api kube)
  bookmark-KeepsDesired = record {
    observe = λ s. ap (λ x. x.0) (BookmarkFrame.observe-target R api kube s);
    create = BookmarkFrame.create-desired R api kube;
    update = λ s. ap (λ x. x.0) (BookmarkFrame.update-target R api kube s);
    delete = λ s. ap (λ x. x.0) (BookmarkFrame.delete-target R api kube s);
  }

  pin-KeepsDesired : KeepsDesired (pin_external R api kube)
  pin-KeepsDesired = record {
    observe = λ s. ap (λ x. x.0) (PinFrame.observe-target R api kube s);
    create = PinFrame.create-desired R api kube;
    update = λ s. ap (λ x. x.0) (PinFrame.update-target R api kube s);
    delete = λ s. ap (λ x. x.0) (PinFrame.delete-target R api kube s);
  }

  conversation_member-KeepsDesired : KeepsDesired (conversation_member_external R api kube)
  conversation_member-KeepsDesired = record {
    observe = λ s. ap (λ x. x.0) (ConversationMemberFrame.observe-target R api kube s);
    create = ConversationMemberFrame.create-desired R api kube;
    update = λ s. ap (λ x. x.0) (ConversationMemberFrame.update-target R api kube s);
    delete = λ s. ap (λ x. x.0) (ConversationMemberFrame.delete-target R api kube s);
  }

  handle-desired :
      (call : Call) (r : Resource R) (w : W)
      → desired_of (handle R api kube call r w).0 ≡ desired_of r
  unfolding handle
  handle-desired call (Resource.conversation cr) w =
      ap conversation_desired
        (after-desired _ conversation-KeepsDesired call (record { cr = cr; world = w }))
  handle-desired call (Resource.user_group cr) w =
      ap user_group_desired
        (after-desired _ user_group-KeepsDesired call (record { cr = cr; world = w }))
  handle-desired call (Resource.user_group_members cr) w =
      ap user_group_members_desired
        (after-desired _ user_group_members-KeepsDesired call (record { cr = cr; world = w }))
  handle-desired call (Resource.bookmark cr) w =
      ap bookmark_desired
        (after-desired _ bookmark-KeepsDesired call (record { cr = cr; world = w }))
  handle-desired call (Resource.pin cr) w =
      ap pin_desired (after-desired _ pin-KeepsDesired call (record { cr = cr; world = w }))
  handle-desired call (Resource.conversation_member cr) w =
      ap conversation_member_desired
        (after-desired _ conversation_member-KeepsDesired call (record { cr = cr; world = w }))

  handle_at-desired :
      (i : ℕ) (call : Call) (rs : List (Resource R)) (w : W)
      → map desired_of (handle_at R api kube i call rs w).0 ≡ map desired_of rs
  unfolding handle_at
  handle_at-desired i call [] w = refl
  handle_at-desired zero call (r ∷ rs) w = ap (λ d. d ∷ map desired_of rs) (handle-desired call r w)
  handle_at-desired (suc i) call (r ∷ rs) w =
      ap (λ ds. desired_of r ∷ ds) (handle_at-desired i call rs w)

  step-desired :
      (e : Event W) (s : System R W)
      → map desired_of (step R api kube e s).resources ≡ map desired_of s.resources
  unfolding step
  step-desired (handled i call) s = handle_at-desired i call s.resources s.world
  step-desired (elsewhere change) s = refl

  -- Whatever Slack and Kubernetes answer and however their state changes, no sequence of calls of
  -- the handlers, with resources of any kinds in any order, changes the kind, the spec or the
  -- parameters of any resource.
  pub run-desired :
      (es : List (Event W)) (s : System R W)
      → map desired_of (run R api kube es s).resources ≡ map desired_of s.resources
  unfolding run
  run-desired [] s = refl
  run-desired (e ∷ es) s = run-desired es (step R api kube e s) ∙ step-desired e s
