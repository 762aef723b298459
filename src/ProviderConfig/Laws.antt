-- ===== src/ProviderConfig/Laws.antt =====
-- Which tokens are valid, and which ProviderConfigs become Ready.
use text.Mathlib.Text.{starts_with}
use text.Mathlib.TextEquality.{starts_with_iff}
use text.Mathlib.TextLemmas.{cons-append, cons-ne-nil}
use crossplane_provider_slac.Base.{
  String, ◌<>◌, ◌≡◌, ◌≢◌, ◌↔◌, refl, sym, ◌∙◌, Option, none, some, ◌==◌, eq_iff, Bool-cases,
  Option-cases, inl, inr,
}
use crossplane_provider_slac.Base.Text.{==-eq-false, value_or_empty}
use crossplane_provider_slac.Errors.{Error, Result, ok, err, Result-cases}
use crossplane_provider_slac.Runtime.{Runtime, IsLawful, synced, ready, status_true}
use crossplane_provider_slac.ProviderConfig.{
  Kube, ProviderConfig, validate_token, extract_token, set_credential_condition, token_prefix,
  secret_not_found, invalid_credentials, credentials_ready, set_ready, extract_by_ref,
  SecretKeySelector, credentials_source_secret,
}

prefixed-ne : (token : String) → (rest : String) × (token_prefix <> rest ≡ token) → token ≢ ""
prefixed-ne token (rest, p) e =
    cons-ne-nil "x" ("oxb-" <> rest) (sym (cons-append "x" "oxb-" rest) ∙ p ∙ e)

-- A token is valid exactly if it is the prefix xoxb- and any further text.
validate_token-eq-none :
    (token : String)
    → (validate_token token ≡ none) ↔ ((rest : String) × (token_prefix <> rest ≡ token))
unfolding validate_token
validate_token-eq-none token = (
  elim (Bool-cases (token == "")) [
    | inl e ↦ rw e (λ done. cc)
    | inr e ↦ elim (Bool-cases (starts_with token token_prefix)) [
      | inl p ↦ λ done. (starts_with_iff token token_prefix).0 p
      | inr p ↦ rw (e, p) (λ done. cc)
    ]
  ],
  λ (p : (rest : String) × (token_prefix <> rest ≡ token)).
      rw (==-eq-false (prefixed-ne token p), (starts_with_iff token token_prefix).1 p) refl,
)

no_token :
    {token t : String} (e : Error)
    → validate_token token ≡ some e
    → ok token ≡ ok t
    → ¬ (validate_token t ≡ none)
no_token e v q u = cc

module _ (R : Runtime) (L : IsLawful R) where
  -- Ready is true after SetCredentialCondition exactly if a token was extracted and it is valid.
  pub set_credential_condition-ready :
      (pc : ProviderConfig R) (r : Result String)
      → ((R.get_condition (set_credential_condition R pc r).conditions ready).status ≡ status_true)
        ↔ ((token : String) × (r ≡ ok token) × (validate_token token ≡ none))
  unfolding set_credential_condition set_ready
  set_credential_condition-ready pc (err e) =
      (rw (L.get-set_condition pc.conditions (secret_not_found R e)) (λ h. cc), λ h. cc)
  set_credential_condition-ready pc (ok token) = elim (Option-cases (validate_token token)) [
    | inl v ↦ (
      λ h. (token, refl, v),
      λ h.
          rw (set_credential_condition, v, L.get-set_condition pc.conditions (credentials_ready R))
            refl,
    )
    | inr (e, v) ↦
        rw
          (set_credential_condition, v, L.get-set_condition pc.conditions (invalid_credentials R e))
          (λ h. cc, λ h. let (t, q, u) = h in absurd (no_token e v q u))
  ]

  -- SetCredentialCondition leaves the metadata, the credentials and every condition but Ready as
  -- they are.
  pub set_credential_condition-keeps :
      (pc : ProviderConfig R) (r : Result String)
      → ((set_credential_condition R pc r).meta ≡ pc.meta)
        × ((set_credential_condition R pc r).credentials ≡ pc.credentials)
        × (R.get_condition (set_credential_condition R pc r).conditions synced
            ≡ R.get_condition pc.conditions synced)
  unfolding set_credential_condition set_ready
  set_credential_condition-keeps pc (err e) =
      (refl, refl, L.get-set_condition_other pc.conditions (secret_not_found R e) synced (λ h. cc))
  set_credential_condition-keeps pc (ok token) = elim (Option-cases (validate_token token)) [
    | inl v ↦
        rw (set_credential_condition, v)
          (
            refl,
            refl,
            L.get-set_condition_other pc.conditions (credentials_ready R) synced (λ h. cc),
          )
    | inr (e, v) ↦
        rw (set_credential_condition, v)
          (
            refl,
            refl,
            L.get-set_condition_other pc.conditions (invalid_credentials R e) synced (λ h. cc),
          )
  ]

module _ (R : Runtime) where
  -- What the token is read from, and what is read.
  IsRead : {W : Type 0} → Kube R W → Option SecretKeySelector → W → String → Type 0
  IsRead kube o w token =
      (ref : SecretKeySelector) × (secret : String → Option String) × (o ≡ some ref)
      × ((kube.get_secret ref.namespace ref.name w).0 ≡ ok secret)
      × (value_or_empty (secret ref.key) ≡ token)

  extract_by_ref_sound :
      {W : Type 0} (kube : Kube R W) (o : Option SecretKeySelector) (w : W) (token : String)
      → (extract_by_ref R kube o w).0 ≡ ok token
      → IsRead kube o w token
  unfolding extract_by_ref IsRead
  extract_by_ref_sound kube none w token = λ done. cc
  extract_by_ref_sound kube (some ref) w token =
      elim (Result-cases (kube.get_secret ref.namespace ref.name w).0) [
        | inl (secret, e) ↦ rw e (λ done. (ref, secret, refl, e, cc))
        | inr (_, e) ↦ rw e (λ done. cc)
      ]

  extract_by_ref_complete :
      {W : Type 0} (kube : Kube R W) (o : Option SecretKeySelector) (w : W) (token : String)
      → IsRead kube o w token
      → (extract_by_ref R kube o w).0 ≡ ok token
  unfolding extract_by_ref IsRead
  extract_by_ref_complete kube o w token (ref, secret, p, e, v) = rw (p, e, v) refl

  -- ExtractToken succeeds exactly if the source is Secret, there is a reference, and the secret can
  -- be read; the token is what stands under the key, or empty.
  extract_token-eq-ok :
      {W : Type 0} (kube : Kube R W) (pc : ProviderConfig R) (w : W) (token : String)
      → ((extract_token R kube pc w).0 ≡ ok token) ↔ (
          (pc.credentials.source ≡ credentials_source_secret)
          × IsRead kube pc.credentials.secret_ref w token)
  unfolding extract_token
  extract_token-eq-ok kube pc w token = (
    elim (Bool-cases (pc.credentials.source == credentials_source_secret)) [
      | inl e ↦ rw e (λ done. (
        (eq_iff pc.credentials.source credentials_source_secret).0 e,
        extract_by_ref_sound kube pc.credentials.secret_ref w token done,
      ))
      | inr e ↦ rw e (λ done. cc)
    ],
    λ (h : (pc.credentials.source ≡ credentials_source_secret)
          × IsRead kube pc.credentials.secret_ref w token).
        rw ((eq_iff pc.credentials.source credentials_source_secret).1 h.0)
          (extract_by_ref_complete kube pc.credentials.secret_ref w token h.1),
  )
