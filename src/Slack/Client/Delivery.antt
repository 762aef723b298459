-- ===== src/Slack/Client/Delivery.antt =====
-- internal/clients/slack/client.go over a Slack that is a function of the method and the form.
use crossplane_provider_slac.Base.{
  ◌≡◌, refl, sym, ap, ◌∙◌, subst, eq_iff, String, true, false, some, if◌then◌else◌, Bool-cases, ◌⊎◌,
  inl, inr,
}
use crossplane_provider_slac.Errors.{has_code, as_slack, Error, Result, ok, err}
use crossplane_provider_slac.Slack.Json.{Json}
use crossplane_provider_slac.Slack.Form.{Form}
use crossplane_provider_slac.Slack.Client.{
  Library, Client, Envelope, decode_envelope, accepted, check_answer, refused, call_method,
}
use crossplane_provider_slac.Slack.Client.Laws.{Answers, call_method_answered}
use crossplane_provider_slac.Slack.Client.Conversations.{call_only}

-- Slack's answer to a method and a form, with the next state. Every answer is an envelope.
pub record Server (W : Type 0) : Type 0 where
  pub answer : String → Form → W → Json × W
  pub envelope : String → Form → W → Envelope
  pub enveloped :
      (method : String) (form : Form) (w : W)
      → decode_envelope (answer method form w).0 ≡ ok (envelope method form w)

-- The network delivers every answer at once, and the text of the answer parses to it.
pub record Delivery {W Request : Type 0} (lib : Library W Request) (c : Client W Request)
    (s : Server W) (method : String) (form : Form) (w : W) : Type 0 where
  pub text : String
  pub answers : Answers lib c method (some form) w text (s.answer method form w).1
  pub parses : lib.parse_json text ≡ ok (s.answer method form w).0

-- The codes for a channel that is missing or archived.
abbrev pub IsUnavailable : String → Type 0
IsUnavailable code = (code ≡ "channel_not_found") ⊎ (code ≡ "is_archived")

-- The outcome of a call whose answer is not read.
abbrev pub outcome : String → Envelope → Result (Unit {0})
outcome method e = if e.is_ok then ok tt else err (refused method e.error)

outcome-eq-ok : (method : String) (e : Envelope) → outcome method e ≡ ok tt → e.is_ok ≡ true
outcome-eq-ok method e h = elim (Bool-cases e.is_ok) [
  | inl p ↦ p
  | inr p ↦ let failed = rw p at h in cc failed
]

pub outcome-eq-err :
    (method code : String) (e : Envelope) (x : Error)
    → outcome method e ≡ err x
    → has_code code x ≡ true
    → (e.is_ok ≡ false) × (e.error ≡ code)
unfolding has_code as_slack
outcome-eq-err method code e x h found = elim (Bool-cases e.is_ok) [
  | inl p ↦ let succeeded = rw p at h in cc succeeded
  | inr p ↦
      let failed = rw p at h in
      let same : refused method e.error ≡ x = cc failed in
      (p, (eq_iff e.error code).0 (subst (λ y. has_code code y ≡ true) (sym same) found))
]

module _ {W Request : Type 0} (lib : Library W Request) (c : Client W Request) (s : Server W)
    (delivers : (method : String) (form : Form) (w : W) → Delivery lib c s method form w) where
  -- What the call of a method gives, up to the text.
  pub call_method_delivered :
      (method : String) (form : Form) (w : W)
      → call_method lib c method (some form) w ≡ (
        accepted method (delivers method form w).text (ok (s.envelope method form w)),
        (s.answer method form w).1,
      )
  unfolding check_answer
  call_method_delivered method form w =
      let d = delivers method form w in
      rw
        (
          call_method_answered lib c method (some form) w _ d.text d.answers,
          d.parses,
          s.enveloped method form w,
        )
        refl

  pub call_only_delivered :
      (method : String) (form : Form) (w : W)
      → call_only lib c method form w
        ≡ (outcome method (s.envelope method form w), (s.answer method form w).1)
  unfolding call_only accepted
  call_only_delivered method form w =
      rw (call_method_delivered method form w) (elim (Bool-cases (s.envelope method form w).is_ok) [
        | inl e ↦ rw e refl
        | inr e ↦ rw e refl
      ])

  pub call_only-is_ok :
      (method : String) (form : Form) (w : W)
      → (call_only lib c method form w).0 ≡ ok tt
      → (s.envelope method form w).is_ok ≡ true
  call_only-is_ok method form w done =
      outcome-eq-ok method (s.envelope method form w)
        (ap (λ r. r.0) (sym (call_only_delivered method form w)) ∙ done)

  pub call_only-world :
      (method : String) (form : Form) (w : W)
      → (call_only lib c method form w).1 ≡ (s.answer method form w).1
  call_only-world method form w = ap (λ r. r.1) (call_only_delivered method form w)

  -- The code of an error of a call whose answer is not read is that of the answer.
  pub call_only-eq-err :
      (method code : String) (form : Form) (w : W) (e : Error)
      → (call_only lib c method form w).0 ≡ err e
      → has_code code e ≡ true
      → ((s.envelope method form w).is_ok ≡ false) × ((s.envelope method form w).error ≡ code)
  call_only-eq-err method code form w e failed found =
      outcome-eq-err method code (s.envelope method form w) e
        (ap (λ r. r.0) (sym (call_only_delivered method form w)) ∙ failed) found
