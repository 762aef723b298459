-- ===== src/Slack/Client/Assembly.antt =====
-- internal/clients/slack/client.go: var _ ClientAPI = (*Client)(nil), the methods as the interface
-- that the controllers take.
use crossplane_provider_slac.Base.{ℕ, String, []}
use crossplane_provider_slac.Slack.Api.{ClientApi}
use crossplane_provider_slac.Slack.Client.{Library, Client, new_client}
use crossplane_provider_slac.Slack.Client.Conversations
use crossplane_provider_slac.Slack.Client.Pages
use crossplane_provider_slac.Slack.Client.Bookmarks
use crossplane_provider_slac.Slack.Client.Pins
use crossplane_provider_slac.Slack.Client.UserGroups
use crossplane_provider_slac.Slack.Client.Users

-- The number bounds the pages that a list is read in.
abbrev pub slack_client :
    {W Request : Type 0} → Library W Request → ℕ → Client W Request → ClientApi W
slack_client lib bound c = record {
  create_conversation = Conversations.create_conversation lib c;
  get_conversation_info = Conversations.get_conversation_info lib c;
  rename_conversation = Conversations.rename_conversation lib c;
  set_conversation_topic = Conversations.set_conversation_topic lib c;
  set_conversation_purpose = Conversations.set_conversation_purpose lib c;
  archive_conversation = Conversations.archive_conversation lib c;
  join_conversation = Conversations.join_conversation lib c;
  invite_to_conversation = Conversations.invite_to_conversation lib c;
  kick_from_conversation = Conversations.kick_from_conversation lib c;
  find_conversation_by_name = Pages.find_conversation_by_name lib c bound;
  get_conversation_members = Pages.get_conversation_members lib c bound;
  add_bookmark = Bookmarks.add_bookmark lib c;
  list_bookmarks = Bookmarks.list_bookmarks lib c;
  edit_bookmark = Bookmarks.edit_bookmark lib c;
  remove_bookmark = Bookmarks.remove_bookmark lib c;
  add_pin = Pins.add_pin lib c;
  list_pins = Pins.list_pins lib c;
  remove_pin = Pins.remove_pin lib c;
  create_user_group = UserGroups.create_user_group lib c;
  list_user_groups = UserGroups.list_user_groups lib c;
  update_user_group = UserGroups.update_user_group lib c;
  disable_user_group = UserGroups.disable_user_group lib c;
  list_user_group_members = UserGroups.list_user_group_members lib c;
  update_user_group_members = UserGroups.update_user_group_members lib c;
  lookup_user_by_email = Users.lookup_user_by_email lib c;
}

-- The newFn of the connectors: slack.NewClient(token).
abbrev pub new_fn : {W Request : Type 0} → Library W Request → ℕ → String → ClientApi W
new_fn lib bound token = slack_client lib bound (new_client lib token [])
