-- ===== src/ConversationMember/Http/Refinement.antt =====
-- The HTTP client as the service of members that the ConversationMember controller relies on.
use crossplane_provider_slac.Base.{
  ℕ, suc, ◌≡◌, refl, ap, subst, ◌∙◌, String, Option, some, List, inl, inr,
}
use crossplane_provider_slac.Errors.{ok, err, has_code, as_slack}
use crossplane_provider_slac.Slack.Form.{Form, get, set}
use crossplane_provider_slac.Slack.Json.{members_of, field, same_key, string_of, bool_of}
use crossplane_provider_slac.Slack.Json.Encode.{error_answer}
use crossplane_provider_slac.Slack.Client.{
  Library, Client, decode_envelope, accepted, check_answer, refused,
}
use crossplane_provider_slac.Slack.Client.Laws.{Answers, call_method_answered}
use crossplane_provider_slac.Slack.Client.Conversations.{
  channel_form, invite_to_conversation, kick_from_conversation,
}
use crossplane_provider_slac.Slack.Client.Delivery.{
  Server, Delivery, call_only-is_ok, call_only-world, call_only-eq-err,
}
use crossplane_provider_slac.Slack.Client.Pages.{
  members_form, members_page, with_cursor, collect_pages, get_conversation_members,
}
use crossplane_provider_slac.Slack.Client.Pages.Listing.{Chain-map}
use crossplane_provider_slac.Slack.Client.Pages.Served.{
  AnswersMembers, get_conversation_members-pages,
}
use crossplane_provider_slac.Slack.Client.Assembly.{slack_client}
use crossplane_provider_slac.ConversationMember.Service.{IsMemberService}
use crossplane_provider_slac.ConversationMember.Http.{Answered, KeepsMembers}

module _ {W Request : Type 0} (lib : Library W Request) (c : Client W Request) (s : Server W)
    (delivers : (method : String) (form : Form) (w : W) → Delivery lib c s method form w) where
  members_of_page :
      (channel cursor : String) (w : W) (ids : List String) (next : String) (after : W)
      → Answered s channel cursor w ids next after
      → AnswersMembers lib c channel cursor w ids next after
  members_of_page channel cursor w ids next after a =
      let d = delivers "conversations.members" (members_form channel cursor) w in
      record {
        text = d.text;
        answers =
            subst
              (λ v.
                Answers lib c "conversations.members" (some (members_form channel cursor)) w d.text
                  v)
              a.goes_on d.answers;
        parses = d.parses ∙ ap ok a.answer;
      }

  -- A missing channel is reported at the first page.
  members_refused :
      (bound : ℕ) (channel code : String) (w : W)
      → (s.answer "conversations.members" (members_form channel "") w).0 ≡ error_answer code
      → (get_conversation_members lib c (suc bound) channel w).0
        ≡ err (refused "conversations.members" code)
  unfolding get_conversation_members collect_pages members_page check_answer accepted
      decode_envelope members_of field same_key string_of bool_of
  members_refused bound channel code w e =
      let d = delivers "conversations.members" (members_form channel "") w in
      rw
        (
          call_method_answered lib c "conversations.members" (some (members_form channel "")) w _
              d.text d.answers,
          d.parses,
          e,
        )
        refl

  -- If the network delivers Slack's answers, and Slack keeps the members of its channels by the
  -- methods and the forms of its API, in at least one page and as many as the bound allows, then the
  -- HTTP client is a service of members as the ConversationMember controller relies on it: it reads
  -- all the pages, its forms carry what the calls were given, and its errors carry the codes of the
  -- answers.
  pub slack_client-IsMemberService :
      (bound : ℕ) (members : W → String → Option (List String))
      → KeepsMembers s (suc bound) members
      → IsMemberService (slack_client lib (suc bound) c) members
  unfolding has_code as_slack channel_form set get members_form with_cursor invite_to_conversation
      kick_from_conversation
  slack_client-IsMemberService bound members keeps = record {
    lists = λ channel w us found.
        let (pages, chain, le, same) = keeps.lists channel w us found in
        get_conversation_members-pages lib c (suc bound) channel w pages
          (Chain-map (Answered s channel) (AnswersMembers lib c channel) (members_of_page channel)
            "" w pages chain)
          le
        ∙ ap ok same;
    lists_missing = λ channel w gone. (
      refused "conversations.members" "channel_not_found",
      members_refused bound channel "channel_not_found" w
          (keeps.lists_missing (members_form channel "") channel w refl gone),
      refl,
    );
    invites = λ channel user w done.
        let form = set "users" user (channel_form channel) in
        rw (call_only-world lib c s delivers "conversations.invite" form w) (
          keeps.invites form channel user w refl refl
            (inl (call_only-is_ok lib c s delivers "conversations.invite" form w done)));
    already_in_channel = λ channel user w e failed code.
        let form = set "users" user (channel_form channel) in
        rw (call_only-world lib c s delivers "conversations.invite" form w) (
          keeps.invites form channel user w refl refl (
            inr (
              call_only-eq-err lib c s delivers "conversations.invite" "already_in_channel" form w e
                failed code)));
    kicks = λ channel user w done.
        let form = set "user" user (channel_form channel) in
        rw (call_only-world lib c s delivers "conversations.kick" form w) (
          keeps.kicks form channel user w refl refl
            (inl (call_only-is_ok lib c s delivers "conversations.kick" form w done)));
    not_in_channel = λ channel user w e failed code.
        let form = set "user" user (channel_form channel) in
        rw (call_only-world lib c s delivers "conversations.kick" form w) (
          keeps.kicks form channel user w refl refl (
            inr (
              call_only-eq-err lib c s delivers "conversations.kick" "not_in_channel" form w e
                failed code)));
    channel_not_found = λ channel user w e failed code.
        let form = set "user" user (channel_form channel) in
        let (o, x) =
          call_only-eq-err lib c s delivers "conversations.kick" "channel_not_found" form w e failed
            code in
        rw (call_only-world lib c s delivers "conversations.kick" form w)
          (keeps.kick_missing form channel w refl o x);
  }
