-- ===== src/Conversation/Http/Refinement.antt =====
-- The HTTP client as the service of channels that the Conversation controller relies on.
use crossplane_provider_slac.Base.{
  ℕ, ◌≡◌, refl, ◌≢◌, ap, sym, ◌∙◌, String, Bool, true, false, Option, Bool-cases, inl, inr,
}
use crossplane_provider_slac.Errors.{ok, has_code}
use crossplane_provider_slac.Slack.Types.{Conversation}
use crossplane_provider_slac.Slack.Json.{Json, members_of, field, same_key, string_of, bool_of}
use crossplane_provider_slac.Slack.Json.Encode.{channel_answer, IsSmall, decode_conversation_json}
use crossplane_provider_slac.Slack.Form.{Form, get, set}
use crossplane_provider_slac.Slack.Client.{Library, Client, accepted, refused}
use crossplane_provider_slac.Slack.Client.Conversations.{
  call_only, channel_of, unmarshal, create_form, channel_form, create_conversation,
  get_conversation_info, rename_conversation, set_conversation_topic, set_conversation_purpose,
  archive_conversation, join_conversation,
}
use crossplane_provider_slac.Slack.Client.Conversations.Info.{
  AnswersInfo, get_conversation_info_answered, get_conversation_info_refused,
}
use crossplane_provider_slac.Slack.Client.Delivery.{
  Server, Delivery, call_method_delivered, call_only_delivered, call_only-is_ok, call_only-world,
  outcome-eq-err,
}
use crossplane_provider_slac.Slack.Client.Assembly.{slack_client}
use crossplane_provider_slac.Conversation.Service.{Channel, IsChannelService}
use crossplane_provider_slac.Conversation.Http.{KeepsChannels}

module _ {W Request : Type 0} (lib : Library W Request) (c : Client W Request) (s : Server W)
    (delivers : (method : String) (form : Form) (w : W) → Delivery lib c s method form w) where
  abbrev accepts :
      (method : String) (form : Form) (w : W)
      → (call_only lib c method form w).0 ≡ ok tt
      → (s.envelope method form w).is_ok ≡ true
  accepts = call_only-is_ok lib c s delivers

  abbrev world :
      (method : String) (form : Form) (w : W)
      → (call_only lib c method form w).1 ≡ (s.answer method form w).1
  world = call_only-world lib c s delivers

  ok-eq : {a b : Conversation} → ok a ≡ ok b → a ≡ b
  ok-eq p = cc

  info_of :
      (id : String) (w : W) (j : Json)
      → (s.answer "conversations.info" (channel_form id) w).0 ≡ j
      → AnswersInfo lib c id w j (s.answer "conversations.info" (channel_form id) w).1
  info_of id w j e =
      let d = delivers "conversations.info" (channel_form id) w in
      record { text = d.text; answers = d.answers; parses = d.parses ∙ ap ok e }

  created_conversation :
      (name : String) (private : Bool) (w : W) (conv : Conversation)
      → (s.envelope "conversations.create" (create_form name private) w).is_ok ≡ true
      → (s.answer "conversations.create" (create_form name private) w).0 ≡ channel_answer conv
      → IsSmall conv
      → create_conversation lib c name private w
        ≡ (ok conv, (s.answer "conversations.create" (create_form name private) w).1)
  unfolding create_conversation accepted channel_of members_of field same_key string_of bool_of
      unmarshal
  created_conversation name private w conv o e small =
      let d = delivers "conversations.create" (create_form name private) w in
      rw
        (
          call_method_delivered lib c s delivers "conversations.create" (create_form name private)
              w,
          o,
          d.parses,
          e,
          decode_conversation_json conv small,
        )
        refl

  refused_conversation :
      (name : String) (private : Bool) (w : W) (conv : Conversation)
      → (s.envelope "conversations.create" (create_form name private) w).is_ok ≡ false
      → (create_conversation lib c name private w).0 ≢ ok conv
  unfolding create_conversation accepted
  refused_conversation name private w conv o =
      rw
        (
          call_method_delivered lib c s delivers "conversations.create" (create_form name private)
              w,
          o,
        )
        (λ done. cc)

  info-world :
      (id : String) (w : W)
      → (get_conversation_info lib c id w).1 ≡ (s.answer "conversations.info" (channel_form id) w).1
  unfolding get_conversation_info accepted unmarshal
  info-world id w =
      rw (call_method_delivered lib c s delivers "conversations.info" (channel_form id) w)
        (elim (Bool-cases (s.envelope "conversations.info" (channel_form id) w).is_ok) [
          | inl e ↦ rw e refl
          | inr e ↦ rw e refl
        ])

  -- If the network delivers Slack's answers, and Slack keeps its channels by the methods and the forms
  -- of its API, then the HTTP client is a service of channels as the Conversation controller relies on
  -- it: its forms carry what the calls were given, and its errors and results are those of the answers.
  pub slack_client-IsChannelService :
      (bound : ℕ) (view : W → String → Option Channel) (stored : String → String)
      → KeepsChannels s view stored
      → IsChannelService (slack_client lib bound c) view stored
  unfolding set get channel_form create_form rename_conversation set_conversation_topic
      set_conversation_purpose archive_conversation join_conversation has_code
  slack_client-IsChannelService bound view stored keeps = record {
    info_found = λ id w ch found.
        let (conv, e, small, same) = keeps.info_found (channel_form id) id w ch refl found in
        (
          conv,
          ap (λ r. r.0) (get_conversation_info_answered lib c id w _ conv (info_of id w _ e) small),
          same,
        );
    info_missing = λ id w gone.
        let e = keeps.info_missing (channel_form id) id w refl gone in
        (
          refused "conversations.info" "channel_not_found",
          ap (λ r. r.0)
              (get_conversation_info_refused lib c id "channel_not_found" w _ (info_of id w _ e)),
          refl,
        );
    info_keeps = λ id w. rw (info-world id w) (keeps.info_keeps (channel_form id) id w);
    join_keeps = λ id w.
        rw (world "conversations.join" (channel_form id) w)
          (keeps.join_keeps (channel_form id) id w refl);
    creates = λ name private w conv done.
        elim (Bool-cases (s.envelope "conversations.create" (create_form name private) w).is_ok) [
          | inl o ↦
              let (made, e, small, kind, ne, is_id, seen) =
                keeps.creates (create_form name private) name private w refl refl o in
              let run = created_conversation name private w made o e small in
              let same : made ≡ conv = ok-eq (ap (λ r. r.0) (sym run) ∙ done) in
              rw (← same, run) (kind, ne, is_id, seen)
          | inr o ↦ absurd (refused_conversation name private w conv o done)
        ];
    renames = λ id name w ch found done.
        let form = set "name" name (channel_form id) in
        rw (world "conversations.rename" form w) (
          keeps.renames form id name w ch refl refl found
            (accepts "conversations.rename" form w done));
    sets_topic = λ id topic w ch found done.
        let form = set "topic" topic (channel_form id) in
        rw (world "conversations.setTopic" form w) (
          keeps.sets_topic form id topic w ch refl refl found
            (accepts "conversations.setTopic" form w done));
    sets_purpose = λ id purpose w ch found done.
        let form = set "purpose" purpose (channel_form id) in
        rw (world "conversations.setPurpose" form w) (
          keeps.sets_purpose form id purpose w ch refl refl found
            (accepts "conversations.setPurpose" form w done));
    archives = λ id w ch found done. rw (world "conversations.archive" (channel_form id) w) (
        keeps.archives (channel_form id) id w ch refl found
          (accepts "conversations.archive" (channel_form id) w done));
    archives_missing = λ id w gone.
        rw (world "conversations.archive" (channel_form id) w)
          (keeps.archives_missing (channel_form id) id w gone);
    archive_not_found = λ id w e failed code.
        let (o, x) =
          outcome-eq-err "conversations.archive" "channel_not_found"
            (s.envelope "conversations.archive" (channel_form id) w) e
            (ap (λ r. r.0)
                (sym (
                  call_only_delivered lib c s delivers "conversations.archive" (channel_form id) w))
              ∙ failed)
            code in
        keeps.archive_not_found (channel_form id) id w refl o x;
  }
