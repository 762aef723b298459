-- ===== src/System/Targets.antt =====
-- The metadata of resources, with their external names, over sequences of calls without a Create.
use crossplane_provider_slac.Base.{
  ℕ, zero, suc, ◌≡◌, refl, ap, ◌∙◌, Bool, true, false, not, ◌==◌, ◌&&◌, ◌||◌, List, [], ◌∷◌, map,
}
use mathlib.Core.Bool.{and-eq-true_iff}
use crossplane_provider_slac.Runtime.{Runtime, Managed, Session}
use crossplane_provider_slac.Runtime.Frame.{target, Keeps}
use crossplane_provider_slac.ProviderConfig.{Kube}
use crossplane_provider_slac.Slack.Api.{ClientApi}
use crossplane_provider_slac.Conversation.{is_channel_id}
use crossplane_provider_slac.Conversation.Frame as ConversationFrame
use crossplane_provider_slac.UserGroup.Frame as UserGroupFrame
use crossplane_provider_slac.UserGroupMembers.Frame as UserGroupMembersFrame
use crossplane_provider_slac.Bookmark.Frame as BookmarkFrame
use crossplane_provider_slac.Pin.Frame as PinFrame
use crossplane_provider_slac.ConversationMember.Frame as ConversationMemberFrame
use crossplane_provider_slac.System.{
  ExternalClient, Call, observes, creates, updates, deletes, disconnects, Resource, System, Event,
  handled, elsewhere, after, handle, handle_at, step, run, conversation_external,
  user_group_external, user_group_members_external, bookmark_external, pin_external,
  conversation_member_external,
}

abbrev is_create : Call → Bool
is_create creates = true
is_create _ = false

abbrev pub no_creates : {W : Type 0} → List (Event W) → Bool
no_creates [] = true
no_creates (handled i call ∷ es) = not (is_create call) && no_creates es
no_creates (elsewhere change ∷ es) = no_creates es

-- There is no external name yet, or it is a channel ID.
abbrev pub is_channel_name : (R : Runtime) → R.Meta → Bool
is_channel_name R m = R.get_external_name m == "" || is_channel_id (R.get_external_name m)

module _ {R : Runtime} where
  abbrev pub meta_of : Resource R → R.Meta
  meta_of (Resource.conversation cr) = cr.meta
  meta_of (Resource.user_group cr) = cr.meta
  meta_of (Resource.user_group_members cr) = cr.meta
  meta_of (Resource.bookmark cr) = cr.meta
  meta_of (Resource.pin cr) = cr.meta
  meta_of (Resource.conversation_member cr) = cr.meta

  -- A Conversation with another external name than a channel ID is still to be adopted.
  abbrev pub is_settled : Resource R → Bool
  is_settled (Resource.conversation cr) = is_channel_name R cr.meta
  is_settled _ = true

  abbrev pub all_settled : List (Resource R) → Bool
  all_settled [] = true
  all_settled (r ∷ rs) = is_settled r && all_settled rs

-- The handlers but Create leave the metadata, Observe where the test holds of them.
record KeepsMeta {R : Runtime} {W P O : Type 0} (client : ExternalClient R W P O)
    (settled : R.Meta → Bool) : Type 0 where
  observe :
      (s : Session (Managed R P O) W)
      → settled s.cr.meta ≡ true
      → target (client.observe s).1.cr ≡ target s.cr
  update : Keeps target client.update
  delete : Keeps target client.delete

module _ {R : Runtime} {W P O : Type 0} (client : ExternalClient R W P O) (settled : R.Meta → Bool)
    (k : KeepsMeta client settled) where
  after-meta :
      (call : Call) (s : Session (Managed R P O) W)
      → settled s.cr.meta ≡ true
      → not (is_create call) ≡ true
      → (after client call s).cr.meta ≡ s.cr.meta
  unfolding after
  after-meta observes s h _ = ap (λ x. x.1) (k.observe s h)
  after-meta creates s h other = cc
  after-meta updates s h _ = ap (λ x. x.1) (k.update s)
  after-meta deletes s h _ = ap (λ x. x.1) (k.delete s)
  after-meta disconnects s h _ = refl

module _ (R : Runtime) {W : Type 0} (api : ClientApi W) (kube : Kube R W) where
  conversation-KeepsMeta : KeepsMeta (conversation_external R api kube) (is_channel_name R)
  conversation-KeepsMeta = record {
    observe = ConversationFrame.observe-target R api;
    update = ConversationFrame.update-target R api;
    delete = ConversationFrame.delete-target R api;
  }

  user_group-KeepsMeta : KeepsMeta (user_group_external R api kube) (λ m. true)
  user_group-KeepsMeta = record {
    observe = λ s h. UserGroupFrame.observe-target R api s;
    update = UserGroupFrame.update-target R api;
    delete = UserGroupFrame.delete-target R api;
  }

  user_group_members-KeepsMeta : KeepsMeta (user_group_members_external R api kube) (λ m. true)
  user_group_members-KeepsMeta = record {
    observe = λ s h. UserGroupMembersFrame.observe-target R api s;
    update = UserGroupMembersFrame.update-target R api;
    delete = UserGroupMembersFrame.delete-target R api;
  }

  bookmark-KeepsMeta : KeepsMeta (bookmark_external R api kube) (λ m. true)
  bookmark-KeepsMeta = record {
    observe = λ s h. BookmarkFrame.observe-target R api kube s;
    update = BookmarkFrame.update-target R api kube;
    delete = BookmarkFrame.delete-target R api kube;
  }

  pin-KeepsMeta : KeepsMeta (pin_external R api kube) (λ m. true)
  pin-KeepsMeta = record {
    observe = λ s h. PinFrame.observe-target R api kube s;
    update = PinFrame.update-target R api kube;
    delete = PinFrame.delete-target R api kube;
  }

  conversation_member-KeepsMeta : KeepsMeta (conversation_member_external R api kube) (λ m. true)
  conversation_member-KeepsMeta = record {
    observe = λ s h. ConversationMemberFrame.observe-target R api kube s;
    update = ConversationMemberFrame.update-target R api kube;
    delete = ConversationMemberFrame.delete-target R api kube;
  }

  handle-meta :
      (call : Call) (r : Resource R) (w : W)
      → is_settled r ≡ true
      → not (is_create call) ≡ true
      → meta_of (handle R api kube call r w).0 ≡ meta_of r
  unfolding handle
  handle-meta call (Resource.conversation cr) w h other =
      after-meta _ _ conversation-KeepsMeta call (record { cr = cr; world = w }) h other
  handle-meta call (Resource.user_group cr) w h other =
      after-meta _ _ user_group-KeepsMeta call (record { cr = cr; world = w }) h other
  handle-meta call (Resource.user_group_members cr) w h other =
      after-meta _ _ user_group_members-KeepsMeta call (record { cr = cr; world = w }) h other
  handle-meta call (Resource.bookmark cr) w h other =
      after-meta _ _ bookmark-KeepsMeta call (record { cr = cr; world = w }) h other
  handle-meta call (Resource.pin cr) w h other =
      after-meta _ _ pin-KeepsMeta call (record { cr = cr; world = w }) h other
  handle-meta call (Resource.conversation_member cr) w h other =
      after-meta _ _ conversation_member-KeepsMeta call (record { cr = cr; world = w }) h other

  handle-is_settled :
      (call : Call) (r : Resource R) (w : W)
      → is_settled r ≡ true
      → not (is_create call) ≡ true
      → is_settled (handle R api kube call r w).0 ≡ true
  unfolding handle
  handle-is_settled call (Resource.conversation cr) w h other =
      ap (is_channel_name R) (handle-meta call (Resource.conversation cr) w h other) ∙ h
  handle-is_settled call (Resource.user_group cr) w h other = refl
  handle-is_settled call (Resource.user_group_members cr) w h other = refl
  handle-is_settled call (Resource.bookmark cr) w h other = refl
  handle-is_settled call (Resource.pin cr) w h other = refl
  handle-is_settled call (Resource.conversation_member cr) w h other = refl

  -- A call leaves the metadata, and what is settled.
  handle_at-meta :
      (i : ℕ) (call : Call) (rs : List (Resource R)) (w : W)
      → all_settled rs ≡ true
      → not (is_create call) ≡ true
      → (map meta_of (handle_at R api kube i call rs w).0 ≡ map meta_of rs)
        × (all_settled (handle_at R api kube i call rs w).0 ≡ true)
  unfolding handle_at
  handle_at-meta i call [] w h other = (refl, refl)
  handle_at-meta zero call (r ∷ rs) w h other =
      let (p, q) = (and-eq-true_iff (is_settled r) (all_settled rs)).0 h in
      (
        ap (λ m. m ∷ map meta_of rs) (handle-meta call r w p other),
        rw (handle-is_settled call r w p other, q) refl,
      )
  handle_at-meta (suc i) call (r ∷ rs) w h other =
      let (p, q) = (and-eq-true_iff (is_settled r) (all_settled rs)).0 h in
      let (e, t) = handle_at-meta i call rs w q other in
      (ap (λ ms. meta_of r ∷ ms) e, rw (p, t) refl)

  -- Where every Conversation has no external name yet or a channel ID as its external name: whatever
  -- Slack and Kubernetes answer and however their state changes, no sequence of calls of the handlers
  -- without a Create changes the metadata of any resource, in which the external name stands.
  pub run-meta :
      (es : List (Event W)) (s : System R W)
      → all_settled s.resources ≡ true
      → no_creates es ≡ true
      → map meta_of (run R api kube es s).resources ≡ map meta_of s.resources
  unfolding run step
  run-meta [] s h none = refl
  run-meta (handled i call ∷ es) s h none =
      let (other, rest) = (and-eq-true_iff (not (is_create call)) (no_creates es)).0 none in
      let (e, t) = handle_at-meta i call s.resources s.world h other in
      run-meta es (step R api kube (handled i call) s) t rest ∙ e
  run-meta (elsewhere change ∷ es) s h none =
      run-meta es (step R api kube (elsewhere change) s) h none
