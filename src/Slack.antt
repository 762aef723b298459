-- ===== src/Slack.antt =====
-- internal/clients/slack: the data of the Slack Web API and its client.
pub mod Types
pub mod Api
pub mod Retry
pub mod Json
pub mod Form
pub mod Client
