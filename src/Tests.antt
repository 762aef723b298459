-- ===== src/Tests.antt =====
-- Runs of the model on concrete inputs: a runtime, a Kubernetes client and a Slack for each
-- controller that keep the laws the theorems ask for.
mod Fixtures
mod Conversation
mod Bookmark
mod Pin
mod ConversationMember
mod UserGroupMembers
mod Access
mod Retry
mod Reconcile
mod Programs
mod Wire
mod Remote
mod Pages
mod Composition
mod Backend
mod Flags
mod Server
mod PinServer
mod Pins
mod BookmarkServer
mod GroupServer
mod MembersServer
mod GroupMembers
mod UserGroups
mod Bookmarks
mod MemberServer
mod Members
mod System
mod ChannelReads
mod ChannelWrites
mod Channels
mod Requests
