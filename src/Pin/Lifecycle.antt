-- ===== src/Pin/Lifecycle.antt =====
-- The pin controller against Slack: external names, and what Observe reports after Create and Delete.
use text.Mathlib.TextLemmas.{nil-append, cons-append}
use crossplane_provider_slac.Base.{
  String, ◌≡◌, ◌≢◌, refl, true, false, Option, none, some, List, arith, ◌⊎◌, Bool-cases, inl, inr,
}
use crossplane_provider_slac.Base.Text.{==-eq-false, has_char, cut, cut-append, cut-ne}
use crossplane_provider_slac.Errors.{Error, ok, Result-cases, has_code}
use crossplane_provider_slac.Runtime.{Runtime, external_name, absent}
use crossplane_provider_slac.ProviderConfig.{Kube}
use crossplane_provider_slac.Slack.Api.{ClientApi}
use crossplane_provider_slac.Slack.Types.{Pin}
use crossplane_provider_slac.Pin.{
  State, observe, observe_error, delete, delete_error, format_external_name, parse_external_name,
  find_pin, is_channel_unavailable,
}
use crossplane_provider_slac.Pin.Service.{IsPinService}

cut-format :
    (channel ts : String)
    → has_char b':' channel ≡ false
    → cut b':' (format_external_name channel ts) ≡ some (channel, ts)
unfolding format_external_name
cut-format channel ts h = rw (cons-append, nil-append) (cut-append b':' ":" channel ts refl h)

-- A composite external name is parsed back into the channel and the timestamp that it was made of,
-- if the channel's ID has no colon.
pub parse-format_pin :
    (channel ts : String)
    → has_char b':' channel ≡ false
    → parse_external_name (format_external_name channel ts) ≡ (channel, ts)
unfolding parse_external_name
parse-format_pin channel ts h = rw (cut-format channel ts h) refl

parse-cut :
    (name channel ts : String)
    → cut b':' name ≡ some (channel, ts)
    → parse_external_name name ≡ (channel, ts)
unfolding parse_external_name
parse-cut name channel ts c = rw c refl

module _ (R : Runtime) {W : Type 0} (api : ClientApi W) (kube : Kube R W)
    (pins : W → String → Option (List Pin)) (S : IsPinService api pins) where
  observe-missing :
      (t : State R W) (channel ts : String) (ps : List Pin)
      → cut b':' (external_name t.cr) ≡ some (channel, ts)
      → channel ≢ ""
      → ts ≢ ""
      → pins t.world channel ≡ some ps
      → find_pin ts ps ≡ none
      → (observe R api kube t).0 ≡ ok absent
  unfolding observe
  observe-missing t channel ts ps c h k v f =
      rw
        (
          ==-eq-false (cut-ne _ _ c),
          parse-cut _ channel ts c,
          ==-eq-false h,
          ==-eq-false k,
          S.lists channel t.world ps v,
          parse-cut _ channel ts c,
          f,
        )
        refl

  observe_error-absent :
      (e : Error) (t : State R W)
      → is_channel_unavailable e ≡ true
      → (observe_error R api kube e t).0 ≡ ok absent
  unfolding observe_error
  observe_error-absent e t k = ground arith

  observe-unavailable :
      (t : State R W) (channel ts : String)
      → cut b':' (external_name t.cr) ≡ some (channel, ts)
      → channel ≢ ""
      → ts ≢ ""
      → pins t.world channel ≡ none
      → (observe R api kube t).0 ≡ ok absent
  unfolding observe
  observe-unavailable t channel ts c h k v =
      let (e, p, u) = S.lists_unavailable channel t.world v in
      rw (==-eq-false (cut-ne _ _ c), parse-cut _ channel ts c, ==-eq-false h, ==-eq-false k, p)
        (observe_error-absent e _ u)

  -- The errors that Delete takes for success.
  delete_error-ok :
      (e : Error) (t : State R W)
      → (delete_error R api kube e t).0 ≡ ok tt
      → ((is_channel_unavailable e ≡ true) × ((delete_error R api kube e t).1 ≡ t))
        ⊎ ((has_code "no_pin" e ≡ true) × ((delete_error R api kube e t).1 ≡ t))
  unfolding delete_error
  delete_error-ok e t = elim (Bool-cases (is_channel_unavailable e)) [
    | inl u ↦ rw u (λ done. inl (refl, refl))
    | inr u ↦ rw u (elim (Bool-cases (has_code "no_pin" e)) [
      | inl n ↦ rw n (λ done. inr (refl, refl))
      | inr n ↦ rw n (λ done. cc)
    ])
  ]

  -- However Delete came to succeed, the next Observe reports that the pin does not exist. The
  -- external name is a pair whose parts are not empty.
  pub delete-observe_pin :
      (s : State R W) (channel ts : String)
      → cut b':' (external_name s.cr) ≡ some (channel, ts)
      → channel ≢ ""
      → ts ≢ ""
      → (delete R api kube s).0 ≡ ok tt
      → (observe R api kube (delete R api kube s).1).0 ≡ ok absent
  unfolding delete
  delete-observe_pin s channel ts c h k =
      let t : State R W = record s { world = (api.remove_pin channel ts s.world).1 } in
      rw (==-eq-false (cut-ne _ _ c), parse-cut _ channel ts c, ==-eq-false h, ==-eq-false k)
        (elim (Result-cases (api.remove_pin channel ts s.world).0) [
          | inl (_, e) ↦
              let (ps, v, f) = S.removes channel ts s.world e in
              rw e (λ done. observe-missing t channel ts ps c h k v f)
          | inr (e, p) ↦ rw p (λ done. elim (delete_error-ok e t done) [
            | inl (u, same) ↦
                rw same
                  (observe-unavailable t channel ts c h k (S.unavailable channel ts s.world e p u))
            | inr (n, same) ↦
                let (ps, v, f) = S.no_pin channel ts s.world e p n in
                rw same (observe-missing t channel ts ps c h k v f)
          ])
        ])
