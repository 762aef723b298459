-- ===== src/Bookmark/Lifecycle.antt =====
-- The bookmark controller against Slack: what Observe reports after Create, Update and Delete.
use crossplane_provider_slac.Base.{
  String, ◌≡◌, ◌≢◌, refl, true, Option, none, some, List, ◌⊎◌, Bool-cases, Option-cases, inl, inr,
}
use crossplane_provider_slac.Base.Text.{==-eq-false}
use crossplane_provider_slac.Errors.{Error, ok, Result-cases, has_code, as_slack}
use crossplane_provider_slac.Runtime.{Runtime, IsLawful, external_name, absent}
use crossplane_provider_slac.ProviderConfig.{Kube}
use crossplane_provider_slac.Slack.Api.{ClientApi}
use crossplane_provider_slac.Slack.Types.{Bookmark}
use crossplane_provider_slac.Bookmark.{
  State, observe, delete, set_channel_unavailable_condition, find_bookmark, observe_error,
  delete_error, is_channel_unavailable, resolve_conversation_id, ConversationBookmarkParameters,
}
use crossplane_provider_slac.Bookmark.Service.{IsBookmarkService}

-- The spec names the channel: the ID is in it, or its reference resolves to the ID in every state.
abbrev pub Names :
    (R : Runtime) {W : Type 0} → Kube R W → ConversationBookmarkParameters → String → Type 0
Names R {W} kube p channel = (w : W) → resolve_conversation_id R kube p w ≡ (ok channel, w)

module _ (R : Runtime) (L : IsLawful R) {W : Type 0} (api : ClientApi W) (kube : Kube R W)
    (bookmarks : W → String → Option (List Bookmark)) (S : IsBookmarkService api bookmarks) where
  observe-missing :
      (t : State R W) (channel : String) (bs : List Bookmark)
      → external_name t.cr ≢ ""
      → resolve_conversation_id R kube t.cr.for_provider t.world ≡ (ok channel, t.world)
      → channel ≢ ""
      → bookmarks t.world channel ≡ some bs
      → find_bookmark (external_name t.cr) bs ≡ none
      → (observe R api kube t).0 ≡ ok absent
  unfolding observe
  observe-missing t channel bs named r given v f =
      rw (==-eq-false named, r, ==-eq-false given, S.lists channel t.world bs v, f) refl

  observe_error-absent :
      (e : Error) (t : State R W)
      → is_channel_unavailable e ≡ true
      → (observe_error R api kube e t).0 ≡ ok absent
  unfolding observe_error
  observe_error-absent e t k = elim (Option-cases (as_slack e)) [
    | inl a ↦ rw (k, set_channel_unavailable_condition, a) refl
    | inr (_, a) ↦ rw (k, set_channel_unavailable_condition, a) refl
  ]

  observe-unavailable :
      (t : State R W) (channel : String)
      → external_name t.cr ≢ ""
      → resolve_conversation_id R kube t.cr.for_provider t.world ≡ (ok channel, t.world)
      → channel ≢ ""
      → bookmarks t.world channel ≡ none
      → (observe R api kube t).0 ≡ ok absent
  unfolding observe
  observe-unavailable t channel named r given v =
      let (e, p, u) = S.lists_unavailable channel t.world v in
      rw (==-eq-false named, r, ==-eq-false given, p) (observe_error-absent e _ u)

  -- The errors that Delete takes for success.
  delete_error-ok :
      (e : Error) (t : State R W)
      → (delete_error R api kube e t).0 ≡ ok tt
      → ((is_channel_unavailable e ≡ true) ⊎ (has_code "bookmark_not_found" e ≡ true))
        × ((delete_error R api kube e t).1 ≡ t)
  unfolding delete_error
  delete_error-ok e t = elim (Bool-cases (is_channel_unavailable e)) [
    | inl u ↦ rw u (λ done. (inl refl, refl))
    | inr u ↦ rw u (elim (Bool-cases (has_code "bookmark_not_found" e)) [
      | inl n ↦ rw n (λ done. (inr refl, refl))
      | inr n ↦ rw n (λ done. cc)
    ])
  ]

  -- However Delete came to succeed, because Slack removed the bookmark, has no such bookmark or has
  -- no such channel, the next Observe reports that the resource does not exist. The resource has an
  -- external name, and its spec names a channel whose ID is not empty.
  pub delete-observe_bookmark :
      (s : State R W) (channel : String)
      → Names R kube s.cr.for_provider channel
      → channel ≢ ""
      → external_name s.cr ≢ ""
      → (delete R api kube s).0 ≡ ok tt
      → (observe R api kube (delete R api kube s).1).0 ≡ ok absent
  unfolding delete
  delete-observe_bookmark s channel r given named =
      let id = external_name s.cr in
      let t : State R W = record s { world = (api.remove_bookmark channel id s.world).1 } in
      rw (==-eq-false named, r s.world)
        (elim (Result-cases (api.remove_bookmark channel id s.world).0) [
          | inl (_, e) ↦
              let (bs, v, f) = S.removes channel id s.world e in
              rw e (λ done. observe-missing t channel bs named (r _) given v f)
          | inr (e, p) ↦ rw p (λ done.
              let (why, same) = delete_error-ok e t done in
              rw same (elim why [
                | inl u ↦
                    observe-unavailable t channel named (r _) given
                      (S.unavailable channel id s.world e p u)
                | inr n ↦
                    let (bs, v, f) = S.not_found channel id s.world e p n in
                    observe-missing t channel bs named (r _) given v f
              ]))
        ])
