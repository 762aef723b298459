-- ===== src/Slack/Api.antt =====
-- type ClientAPI interface, internal/clients/slack/client.go: the calls that the controllers make,
-- over the state `W` of all that the calls reach. A pointer result that a caller tests for nil is an
-- `Option`.
use crossplane_provider_slac.Base.{String, Bool, Option, List}
use crossplane_provider_slac.Act.{Act}
use crossplane_provider_slac.Slack.Types.{
  Conversation, Bookmark, BookmarkParams, Pin, UserGroup, UserGroupParams, User,
}

pub record ClientApi (W : Type 0) : Type 0 where
  pub create_conversation : String → Bool → Act W Conversation
  pub get_conversation_info : String → Act W Conversation
  pub find_conversation_by_name : String → Act W (Option Conversation)
  pub rename_conversation : String → String → Act W (Unit {0})
  pub set_conversation_topic : String → String → Act W (Unit {0})
  pub set_conversation_purpose : String → String → Act W (Unit {0})
  pub archive_conversation : String → Act W (Unit {0})
  pub join_conversation : String → Act W (Unit {0})
  pub invite_to_conversation : String → String → Act W (Unit {0})
  pub kick_from_conversation : String → String → Act W (Unit {0})
  pub get_conversation_members : String → Act W (List String)
  pub add_bookmark : String → BookmarkParams → Act W Bookmark
  pub list_bookmarks : String → Act W (List Bookmark)
  pub edit_bookmark : String → String → BookmarkParams → Act W (Unit {0})
  pub remove_bookmark : String → String → Act W (Unit {0})
  pub add_pin : String → String → Act W (Unit {0})
  pub list_pins : String → Act W (List Pin)
  pub remove_pin : String → String → Act W (Unit {0})
  pub create_user_group : UserGroupParams → Act W UserGroup
  pub list_user_groups : Act W (List UserGroup)
  pub update_user_group : String → UserGroupParams → Act W (Unit {0})
  pub disable_user_group : String → Act W (Unit {0})
  pub list_user_group_members : String → Act W (List String)
  pub update_user_group_members : String → List String → Act W (Unit {0})
  pub lookup_user_by_email : String → Act W (Option User)
