-- ===== src/Tests/Pin.antt =====
-- A Slack with pins by channel, and the pin controller on it.
use text.Mathlib.TextLemmas.{cons-ne-nil}
use crossplane_provider_slac.Base.{
  String, ◌≡◌, ◌≢◌, refl, sym, ap, ◌∙◌, true, false, Option, none, some, List, [], ◌∷◌, ◌==◌,
  eq_refl, if◌then◌else◌, Bool-cases, Option-cases, inl, inr,
}
use crossplane_provider_slac.Base.Text.{cut}
use crossplane_provider_slac.Errors.{Error, Result, ok, err, has_code}
use crossplane_provider_slac.Runtime.{absent}
use crossplane_provider_slac.Slack.Api.{ClientApi}
use crossplane_provider_slac.Tests.Fixtures.{
  test_runtime, no_api, no_kube, refusal, Table, put, session,
}
use crossplane_provider_slac.Base.Int.{pos}
use crossplane_provider_slac.Slack.Types.{Pin}
use crossplane_provider_slac.Pin.{
  State, observe, delete, find_pin, is_channel_unavailable, parse_external_name,
}
use crossplane_provider_slac.Pin.Service.{IsPinService}
use crossplane_provider_slac.Pin.Lifecycle.{delete-observe_pin}

abbrev World : Type 0
World = Table (List Pin)

abbrev pin : String → String → Pin
pin channel ts = record { channel = channel; message = record { ts = ts }; created = pos 0 }

without : String → List Pin → List Pin
without ts [] = []
without ts (p ∷ ps) = if p.message.ts == ts then without ts ps else p ∷ without ts ps

-- Calls on a channel, with Slack's answer for one that is missing.
abbrev at_channel :
    {A : Type 0} → World → Option (List Pin) → (List Pin → Result A × World) → Result A × World
at_channel w none f = (err (refusal "channel_not_found"), w)
at_channel w (some ps) f = f ps

abbrev test_slack : ClientApi World
test_slack = record no_api {
  add_pin =
      λ channel ts w. at_channel w (w channel) (λ ps. (ok tt, put channel (pin channel ts ∷ ps) w));
  list_pins = λ channel w. at_channel w (w channel) (λ ps. (ok ps, w));
  remove_pin =
      λ channel ts w. at_channel w (w channel) (λ ps. (ok tt, put channel (without ts ps) w));
}

put-eq : (channel : String) (ps : List Pin) (w : World) → put channel ps w channel ≡ some ps
put-eq channel ps w = rw (eq_refl channel) refl

find-without : (ts : String) (ps : List Pin) → find_pin ts (without ts ps) ≡ none
unfolding find_pin without
find-without ts [] = refl
find-without ts (p ∷ ps) = elim (Bool-cases (p.message.ts == ts)) [
  | inl e ↦ rw e (find-without ts ps)
  | inr e ↦ rw (e, e) (find-without ts ps)
]

find_first : (p : Pin) (ps : List Pin) → find_pin p.message.ts (p ∷ ps) ≡ some p
unfolding find_pin
find_first p ps = rw (eq_refl p.message.ts) refl

missing_code : is_channel_unavailable (refusal "channel_not_found") ≡ true
unfolding is_channel_unavailable
missing_code = refl

adds :
    (channel ts : String) (w : World)
    → (test_slack.add_pin channel ts w).0 ≡ ok tt
    → (ps : List Pin) × (p : Pin) × ((test_slack.add_pin channel ts w).1 channel ≡ some ps)
      × (find_pin ts ps ≡ some p)
adds channel ts w = elim (Option-cases (w channel)) [
  | inl v ↦ rw v (λ done. cc)
  | inr (ps, v) ↦
      let p = pin channel ts in
      rw v (λ done. (p ∷ ps, p, put-eq channel (p ∷ ps) w, find_first p ps))
]

removes :
    (channel ts : String) (w : World)
    → (test_slack.remove_pin channel ts w).0 ≡ ok tt
    → (ps : List Pin) × ((test_slack.remove_pin channel ts w).1 channel ≡ some ps)
      × (find_pin ts ps ≡ none)
removes channel ts w = elim (Option-cases (w channel)) [
  | inl v ↦ rw v (λ done. cc)
  | inr (ps, v) ↦
      rw v (λ done. (without ts ps, put-eq channel (without ts ps) w, find-without ts ps))
]

-- The only refusal of a removal is that of a missing channel.
remove-err :
    (channel ts : String) (w : World) (e : Error)
    → (test_slack.remove_pin channel ts w).0 ≡ err e
    → ((test_slack.remove_pin channel ts w).1 channel ≡ none) × (refusal "channel_not_found" ≡ e)
remove-err channel ts w e = elim (Option-cases (w channel)) [
  | inl v ↦ rw v (λ failed. (v, cc))
  | inr (ps, v) ↦ rw v (λ failed. cc)
]

other_code : has_code "no_pin" (refusal "channel_not_found") ≡ false
unfolding has_code
other_code = refl

true-ne-false : true ≢ false
true-ne-false h = cc

test_slack-IsPinService : IsPinService test_slack (λ w channel. w channel)
test_slack-IsPinService = record {
  lists = λ channel w ps v. rw v refl;
  lists_unavailable = λ channel w v. (refusal "channel_not_found", rw v refl, missing_code);
  adds = adds;
  removes = removes;
  no_pin = λ channel ts w e failed code. absurd (
      true-ne-false (
        sym code ∙ ap (has_code "no_pin") (sym (remove-err channel ts w e failed).1) ∙ other_code));
  unavailable = λ channel ts w e failed code. (remove-err channel ts w e failed).0;
}

abbrev named : String → State test_runtime World
named name =
    session name
      (record { conversation_id = some "C1"; conversation_ref = none; message_timestamp = "1.2" })
      (record { channel_id = ""; pinned_at = pos 0 }) (put "C1" (pin "C1" "1.2" ∷ []) (λ id. none))

cut_name : cut b':' "C1:1.2" ≡ some ("C1", "1.2")
unfolding cut
cut_name = refl

delete_pin-ok : (delete test_runtime test_slack no_kube (named "C1:1.2")).0 ≡ ok tt
unfolding delete parse_external_name
delete_pin-ok = refl

delete-observe_pin_example :
    (observe test_runtime test_slack no_kube
      (delete test_runtime test_slack no_kube (named "C1:1.2")).1).0
    ≡ ok absent
delete-observe_pin_example =
    delete-observe_pin test_runtime test_slack no_kube (λ w channel. w channel)
      test_slack-IsPinService (named "C1:1.2") "C1" "1.2" cut_name (cons-ne-nil "C" "1")
      (cons-ne-nil "1" ".2") delete_pin-ok
