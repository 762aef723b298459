-- ===== src/Tests/Remote.antt =====
-- The theorems on the HTTP client, over the test Slack.
use crossplane_provider_slac.Base.{◌≡◌, refl, ◌⊎◌, String, true, false, none, some, ◌==◌, ◌||◌}
use crossplane_provider_slac.Base.Int.{pos}
use crossplane_provider_slac.Slack.Types.{Conversation}
use crossplane_provider_slac.Errors.{Error, ok, err, has_code, is_retriable_error}
use crossplane_provider_slac.Slack.Json.{members_of, bool_of, field, same_key, string_of}
use crossplane_provider_slac.Slack.Json.Encode.{error_answer, IsSmall}
use crossplane_provider_slac.Slack.Client.{Envelope, decode_envelope, call_method}
use crossplane_provider_slac.Slack.Client.Laws.{IsEnvelope, call_method_envelope}
use crossplane_provider_slac.Tests.Wire.{constant, constant_client, constant-Answers}

abbrev archived_already : Envelope
archived_already = record { is_ok = false; error = "already_archived" }

is_archived_already :
    IsEnvelope (constant (error_answer "already_archived")) "answer" archived_already
unfolding decode_envelope members_of bool_of field same_key string_of
is_archived_already = refl

call_method_envelope_example :
    ((false ≡ true)
      × ((call_method
            (constant (error_answer "already_archived"))
            (constant_client (error_answer "already_archived"))
            "conversations.archive"
            none
            3).0
          ≡ ok "answer"))
    ⊎ ((false ≡ false)
        × ((e : Error) × ((call_method
                (constant (error_answer "already_archived"))
                (constant_client (error_answer "already_archived"))
                "conversations.archive"
                none
                3).0
              ≡ err e)
            × (has_code "already_archived" e ≡ true)
            × (is_retriable_error (some e) ≡ (
                "already_archived" == "internal_error"
                || ("already_archived" == "fatal_error"
                    || "already_archived" == "request_timeout")))))
call_method_envelope_example =
    call_method_envelope (constant (error_answer "already_archived"))
      (constant_client (error_answer "already_archived")) "conversations.archive" none 3 4 "answer"
      archived_already
      (constant-Answers (error_answer "already_archived") "conversations.archive" none 3)
      is_archived_already

abbrev pub channel : String → String → Conversation
channel id name = record {
  id = id;
  name = name;
  is_private = false;
  is_archived = false;
  topic = record { value = "" };
  purpose = record { value = "" };
  num_members = pos 2;
  created = pos 1700000000;
}

pub channel-IsSmall : (id name : String) → IsSmall (channel id name)
channel-IsSmall id name = record { num_members = refl; created = refl }
