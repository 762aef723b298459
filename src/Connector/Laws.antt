-- ===== src/Connector/Laws.antt =====
-- When Connect succeeds, and where a resolved ID comes from.
use crossplane_provider_slac.Base.{
  String, ◌≡◌, ◌≢◌, refl, Option, none, some, ◌==◌, ◌⊎◌, Bool-cases, Option-cases, inl, inr,
}
use crossplane_provider_slac.Errors.{ok, Result-cases}
use crossplane_provider_slac.Act.{Act}
use crossplane_provider_slac.Runtime.{Runtime, Managed, Session}
use crossplane_provider_slac.Apis.Managed.{get_provider_config_reference}
use crossplane_provider_slac.ProviderConfig.{ProviderConfig, validate_token, extract_token}
use crossplane_provider_slac.Slack.Api.{ClientApi}
use crossplane_provider_slac.Connector.{
  Connector, connect, resolve_id, resolve_ref, connect_to, checked,
}

module _ (R : Runtime) {W P O : Type 0} (c : Connector R W (Managed R P O)) where
  connect_to-eq-ok :
      (ref : Option String) (s : Session (Managed R P O) W) (client : ClientApi W)
      → (connect_to R c ref s).0 ≡ ok client
      → (name : String) × (pc : ProviderConfig R) × (token : String) × (ref ≡ some name)
        × ((c.kube.get_provider_config name s.world).0 ≡ ok pc)
        × ((extract_token R c.kube pc (c.kube.get_provider_config name s.world).1).0 ≡ ok token)
        × (validate_token token ≡ none)
        × (client ≡ c.new_fn token)
  unfolding connect_to checked
  connect_to-eq-ok none s client = λ done. cc
  connect_to-eq-ok (some name) s client =
      elim (Result-cases (c.kube.get_provider_config name s.world).0) [
        | inr (_, f) ↦ rw f (λ done. cc)
        | inl (pc, f) ↦
            let w = (c.kube.get_provider_config name s.world).1 in
            elim (Result-cases (extract_token R c.kube pc w).0) [
              | inr (_, g) ↦ rw (f, g) (λ done. cc)
              | inl (token, g) ↦ elim (Option-cases (validate_token token)) [
                | inr (_, h) ↦ rw (f, g, h) (λ done. cc)
                | inl h ↦ rw (f, g, h) (λ done. (name, pc, token, refl, f, g, h, cc))
              ]
            ]
      ]

  -- If Connect succeeds, the resource names a ProviderConfig, Connect has tracked its usage, read it
  -- and extracted a token from it that is valid, and the client is the one for that token.
  pub connect-eq-ok :
      (s : Session (Managed R P O) W) (client : ClientApi W)
      → (connect R c s).0 ≡ ok client
      → (name : String) × (pc : ProviderConfig R) × (token : String)
        × (get_provider_config_reference s.cr ≡ some name)
        × ((c.track s.cr s.world).0 ≡ ok tt)
        × ((c.kube.get_provider_config name (c.track s.cr s.world).1).0 ≡ ok pc)
        × ((extract_token R c.kube pc
              (c.kube.get_provider_config name (c.track s.cr s.world).1).1).0
            ≡ ok token)
        × (validate_token token ≡ none)
        × (client ≡ c.new_fn token)
  unfolding connect
  connect-eq-ok s client = elim (Result-cases (c.track s.cr s.world).0) [
    | inr (_, e) ↦ rw e (λ done. cc)
    | inl (_, e) ↦ rw e (λ done.
        let (name, pc, token, n, f, g, h, k) =
          connect_to-eq-ok (get_provider_config_reference s.cr) _ client done in
        (name, pc, token, n, refl, f, g, h, k))
  ]

module _ (R : Runtime) {W : Type 0} (read : String → Act W R.Meta) where
  ok-injective : {v : String} → ok "" ≡ ok v → v ≡ ""
  ok-injective h = cc

  resolve_ref-eq-ok :
      (ref : Option String) (w : W) (v : String)
      → (resolve_ref R read ref w).0 ≡ ok v
      → v ≢ ""
      → (name : String) × (m : R.Meta) × (ref ≡ some name)
        × ((read name w).0 ≡ ok m)
        × (R.get_external_name m ≡ v)
  unfolding resolve_ref
  resolve_ref-eq-ok none w v = λ done given. absurd (given (ok-injective done))
  resolve_ref-eq-ok (some name) w v = elim (Bool-cases (name == "")) [
    | inl e ↦ rw e (λ done given. absurd (given (ok-injective done)))
    | inr e ↦ elim (Result-cases (read name w).0) [
      | inl (m, p) ↦ rw (e, p) (λ done given. (name, m, refl, p, cc))
      | inr (_, p) ↦ rw (e, p) (λ done given. cc)
    ]
  ]

  -- A resolved ID that is not empty is the one in the spec, or the external name of the resource that
  -- the spec refers to.
  resolve_id-eq-ok :
      (id ref : Option String) (w : W) (v : String)
      → (resolve_id R read id ref w).0 ≡ ok v
      → v ≢ ""
      → (id ≡ some v)
        ⊎ ((name : String) × (m : R.Meta) × (ref ≡ some name)
            × ((read name w).0 ≡ ok m)
            × (R.get_external_name m ≡ v))
  unfolding resolve_id
  resolve_id-eq-ok none ref w v = λ done given. inr (resolve_ref-eq-ok ref w v done given)
  resolve_id-eq-ok (some id) ref w v = elim (Bool-cases (id == "")) [
    | inl e ↦ rw e (λ done given. inr (resolve_ref-eq-ok ref w v done given))
    | inr e ↦ rw e (λ done given. inl cc)
  ]
