-- ===== src/Slack/Client/UserGroups/Listed.antt =====
-- internal/clients/slack/usergroups.go: ListUserGroups over the answers of Slack.
use crossplane_provider_slac.Base.{◌≡◌, refl, String, some, List, [], map}
use crossplane_provider_slac.Base.Int.{ℤ}
use crossplane_provider_slac.Errors.{ok}
use crossplane_provider_slac.Slack.Types.{UserGroup}
use crossplane_provider_slac.Slack.Json.{members_of, field, same_key, string_of, bool_of, list_of}
use crossplane_provider_slac.Slack.Json.Encode.{user_groups_answer, DatesSmall, read_all_groups}
use crossplane_provider_slac.Slack.Form.{set}
use crossplane_provider_slac.Slack.Client.{Library, Client, decode_envelope, accepted, check_answer}
use crossplane_provider_slac.Slack.Client.Laws.{Answers, call_method_answered}
use crossplane_provider_slac.Slack.Client.Conversations.{unmarshal}
use crossplane_provider_slac.Slack.Client.UserGroups.{groups_of, list_user_groups}

module _ {W Request : Type 0} (lib : Library W Request) (c : Client W Request) where
  -- Slack answers usergroups.list with these groups and the dates at which they were disabled.
  pub record AnswersGroups (w : W) (gs : List (UserGroup × ℤ)) (after : W) : Type 0 where
    pub text : String
    pub answers :
        Answers lib c "usergroups.list" (some (set "include_disabled" "true" [])) w text after
    pub parses : lib.parse_json text ≡ ok (user_groups_answer gs)
    pub small : DatesSmall gs

  pub list_user_groups_answered :
      (w after : W) (gs : List (UserGroup × ℤ))
      → AnswersGroups w gs after
      → list_user_groups lib c w ≡ (ok (map (λ p. p.0) gs), after)
  unfolding list_user_groups check_answer accepted decode_envelope groups_of members_of field
      same_key string_of bool_of list_of unmarshal
  list_user_groups_answered w after gs a =
      rw
        (
          call_method_answered lib c "usergroups.list" (some (set "include_disabled" "true" [])) w
              after a.text a.answers,
          a.parses,
          a.parses,
          read_all_groups gs a.small,
        )
        refl
