-- ===== src/ConversationMember/Lifecycle.antt =====
-- The membership controller against Slack: external names, and what Observe reports after Create and
-- Delete.
use text.Mathlib.TextLemmas.{nil-append, cons-append}
use crossplane_provider_slac.Base.{
  String, ◌≡◌, ◌≢◌, refl, ap, ◌∙◌, Bool, true, false, Option, none, some, List, ◌⊎◌, Bool-cases,
  inl, inr,
}
use crossplane_provider_slac.Base.Text.{==-eq-false, has_char, cut-append, cut-ne}
use crossplane_provider_slac.Errors.{Error, ok, err, wrap, Result-cases, has_code}
use crossplane_provider_slac.Runtime.{Runtime, IsLawful, external_name, with_external_name, absent}
use crossplane_provider_slac.ProviderConfig.{Kube}
use crossplane_provider_slac.Slack.Api.{ClientApi}
use crossplane_provider_slac.ConversationMember.{
  State, observe, create, delete, invited, resolve_conversation_id, resolve_user_id, kicked,
  err_list_members, format_external_name, parse_external_name, is_member,
}
use crossplane_provider_slac.ConversationMember.Service.{IsMemberService}

-- A composite external name is parsed back into the channel and the user that it was made of, if
-- the channel's ID has no slash.
pub parse-format_member :
    (channel user : String)
    → has_char b'/' channel ≡ false
    → parse_external_name (format_external_name channel user) ≡ some (channel, user)
unfolding parse_external_name format_external_name
parse-format_member channel user h =
    rw (cons-append, nil-append) (cut-append b'/' "/" channel user refl h)

parse-ne : (name : String) {p : String × String} → parse_external_name name ≡ some p → name ≢ ""
unfolding parse_external_name
parse-ne name e = cut-ne _ name e

module _ (R : Runtime) {W : Type 0} (api : ClientApi W) (kube : Kube R W)
    (members : W → String → Option (List String)) (S : IsMemberService api members) where
  -- Where the external name is a pair of channel and user and Slack has the channel, Observe
  -- reports exactly whether the channel lists the user.
  observe-is_member :
      (t : State R W) (channel user : String) (us : List String)
      → parse_external_name (external_name t.cr) ≡ some (channel, user)
      → members t.world channel ≡ some us
      → (observe R api kube t).0
        ≡ ok (record {
          resource_exists = is_member user us;
          resource_up_to_date = is_member user us;
        })
  unfolding observe
  observe-is_member t channel user us c v =
      rw (==-eq-false (parse-ne _ c), c, S.lists channel t.world us v)
        (elim (Bool-cases (is_member user us)) [ inl e ↦ rw e refl | inr e ↦ rw e refl ])

  observe-listed :
      (t : State R W) (channel user : String) (us : List String)
      → parse_external_name (external_name t.cr) ≡ some (channel, user)
      → members t.world channel ≡ some us
      → (b : Bool) → is_member user us ≡ b
      → (observe R api kube t).0 ≡ ok (record { resource_exists = b; resource_up_to_date = b })
  observe-listed t channel user us c v b f = rw (← f) (observe-is_member t channel user us c v)

  -- After a Create that succeeds, be it that the user was invited or was a member already, the
  -- external name is the pair of channel and user, and the next Observe finds the membership. The
  -- channel's ID has no slash.
  pub create-observe_member :
      IsLawful R
      → (s : State R W) (channel user : String)
      → (resolve_conversation_id R kube s.cr.for_provider s.world).0 ≡ ok channel
      → (resolve_user_id api s.cr.for_provider
          (resolve_conversation_id R kube s.cr.for_provider s.world).1).0
        ≡ ok user
      → has_char b'/' channel ≡ false
      → (create R api kube s).0 ≡ ok tt
      → (external_name (create R api kube s).1.cr ≡ format_external_name channel user)
        × ((observe R api kube (create R api kube s).1).0
            ≡ ok (record { resource_exists = true; resource_up_to_date = true }))
  unfolding create invited
  create-observe_member L s channel user r q plain_id =
      let w0 = (resolve_conversation_id R kube s.cr.for_provider s.world).1 in
      let w = (api.join_conversation channel (resolve_user_id api s.cr.for_provider w0).1).1 in
      let name = format_external_name channel user in
      let w' = (api.invite_to_conversation channel user w).1 in
      let t : State R W = record s { cr = with_external_name name s.cr; world = w' } in
      let named = L.get-set_external_name s.cr.meta name in
      let seen =
        λ (us : List String) (v : members w' channel ≡ some us) (f : is_member user us ≡ true).
          observe-listed t channel user us
            (ap parse_external_name named ∙ parse-format_member channel user plain_id) v true f in
      rw (r, q)
        (elim (Result-cases (api.invite_to_conversation channel user w).0) [
          | inl (_, e) ↦
              let (us, v, f) = S.invites channel user w e in rw e (λ done. (named, seen us v f))
          | inr (e, p) ↦ elim (Bool-cases (has_code "already_in_channel" e)) [
            | inl k ↦
                let (us, v, f) = S.already_in_channel channel user w e p k in
                rw (p, k) (λ done. (named, seen us v f))
            | inr k ↦ rw (p, k) (λ done. cc)
          ]
        ])

  observe-channel_missing :
      (t : State R W) (channel user : String)
      → parse_external_name (external_name t.cr) ≡ some (channel, user)
      → members t.world channel ≡ none
      → (e : Error) × ((observe R api kube t).0 ≡ err (wrap err_list_members e))
        × (has_code "channel_not_found" e ≡ true)
  unfolding observe
  observe-channel_missing t channel user c v =
      let (e, p, k) = S.lists_missing channel t.world v in
      (e, rw (==-eq-false (parse-ne _ c), c, p) refl, k)

  -- Where the external name is a pair of channel and user: after a Delete that succeeds, the next
  -- Observe reports that the membership does not exist, or Slack has no such channel; then Observe
  -- fails with channel_not_found, and does not report an absence.
  pub delete-observe_member :
      (s : State R W) (channel user : String)
      → parse_external_name (external_name s.cr) ≡ some (channel, user)
      → (delete R api kube s).0 ≡ ok tt
      → ((observe R api kube (delete R api kube s).1).0 ≡ ok absent)
        ⊎ ((members (delete R api kube s).1.world channel ≡ none)
            × ((e : Error) × ((observe R api kube (delete R api kube s).1).0
                  ≡ err (wrap err_list_members e))
                × (has_code "channel_not_found" e ≡ true)))
  unfolding delete kicked
  delete-observe_member s channel user c =
      let t : State R W = record s {
        world = (api.kick_from_conversation channel user s.world).1;
      } in
      let left =
        λ (us : List String) (v : members t.world channel ≡ some us)
            (f : is_member user us ≡ false).
          observe-listed t channel user us c v false f in
      rw (==-eq-false (parse-ne _ c), c)
        (elim (Result-cases (api.kick_from_conversation channel user s.world).0) [
          | inl (_, e) ↦
              let (us, v, f) = S.kicks channel user s.world e in rw e (λ done. inl (left us v f))
          | inr (e, p) ↦ elim (Bool-cases (has_code "not_in_channel" e)) [
            | inl k ↦
                let (us, v, f) = S.not_in_channel channel user s.world e p k in
                rw (p, k) (λ done. inl (left us v f))
            | inr k ↦ elim (Bool-cases (has_code "channel_not_found" e)) [
              | inl m ↦
                  let v = S.channel_not_found channel user s.world e p m in
                  rw (p, k, m) (λ done. inr (v, observe-channel_missing t channel user c v))
              | inr m ↦ rw (p, k, m) (λ done. cc)
            ]
          ]
        ])
