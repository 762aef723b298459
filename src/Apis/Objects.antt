-- ===== src/Apis/Objects.antt =====
-- apis/<kind>/v1alpha1/managed.go: each of the kinds is a managed resource.
use crossplane_provider_slac.Base.{ℕ, List}
use crossplane_provider_slac.Runtime.{Runtime}
use crossplane_provider_slac.Apis.Items.{get_items_of}
use crossplane_provider_slac.Apis.Managed.{ManagedObject, managed_object}
use crossplane_provider_slac.Conversation
use crossplane_provider_slac.UserGroup
use crossplane_provider_slac.UserGroupMembers
use crossplane_provider_slac.Bookmark
use crossplane_provider_slac.Pin
use crossplane_provider_slac.ConversationMember

module _ (R : Runtime) where
  abbrev pub conversation_object : ManagedObject R (Conversation.Resource R)
  conversation_object = managed_object

  abbrev pub user_group_object : ManagedObject R (UserGroup.Resource R)
  user_group_object = managed_object

  abbrev pub user_group_members_object : ManagedObject R (UserGroupMembers.Resource R)
  user_group_members_object = managed_object

  abbrev pub bookmark_object : ManagedObject R (Bookmark.Resource R)
  bookmark_object = managed_object

  abbrev pub pin_object : ManagedObject R (Pin.Resource R)
  pin_object = managed_object

  abbrev pub conversation_member_object : ManagedObject R (ConversationMember.Resource R)
  conversation_member_object = managed_object

  -- The pointers of ConversationMemberList are the positions of the items.
  unfoldable pub get_member_items : List (ConversationMember.Resource R) → List ℕ
  unfolding get_items_of
  get_member_items items = get_items_of items
