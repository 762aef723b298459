-- ===== src/Slack/Types.antt =====
-- internal/clients/slack/types.go
use crossplane_provider_slac.Base.{String, Bool}
use crossplane_provider_slac.Base.Int.{ℤ}

pub record Topic : Type 0 where
  pub value : String

pub record Conversation : Type 0 where
  pub id : String
  pub name : String
  pub is_private : Bool
  pub is_archived : Bool
  pub topic : Topic
  pub purpose : Topic
  pub num_members : ℤ
  pub created : ℤ

pub record Bookmark : Type 0 where
  pub id : String
  pub channel_id : String
  pub title : String
  pub kind : String
  pub link : String
  pub date_created : ℤ

pub record BookmarkParams : Type 0 where
  pub title : String
  pub kind : String
  pub link : String

pub record Message : Type 0 where
  pub ts : String

pub record Pin : Type 0 where
  pub channel : String
  pub message : Message
  pub created : ℤ

pub record UserGroup : Type 0 where
  pub id : String
  pub name : String
  pub handle : String
  pub description : String
  pub is_enabled : Bool
  pub created_by : String
  pub date_create : ℤ

pub record UserGroupParams : Type 0 where
  pub name : String
  pub handle : String
  pub description : String

pub record UserProfile : Type 0 where
  pub email : String

pub record User : Type 0 where
  pub id : String
  pub profile : UserProfile
