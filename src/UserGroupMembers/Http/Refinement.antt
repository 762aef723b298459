-- ===== src/UserGroupMembers/Http/Refinement.antt =====
-- The HTTP client as the service of groups that the controller of a group's members relies on.
use mathlib.Core.List.{Nodup, Perm}
use crossplane_provider_slac.Base.{
  ℕ, ◌≡◌, refl, ◌≢◌, ap, sym, ◌∙◌, subst, String, Option, none, some, List, [], ◌∷◌, Bool-cases,
  inl, inr,
}
use crossplane_provider_slac.Base.Text.Joining.{NoneHas}
use crossplane_provider_slac.Errors.{ok, Result-cases}
use crossplane_provider_slac.Slack.Types.{User}
use crossplane_provider_slac.Slack.Form.{Form, get, set}
use crossplane_provider_slac.Slack.Json
use crossplane_provider_slac.Slack.Json.{
  Json, members_of, field, same_key, string_of, bool_of, list_of,
}
use crossplane_provider_slac.Slack.Json.Decode.{decode_user, decode_profile}
use crossplane_provider_slac.Slack.Json.Encode.{read_all_strings}
use crossplane_provider_slac.Slack.Client.{Library, Client, accepted, decode_envelope, check_answer}
use crossplane_provider_slac.Slack.Client.Laws.{call_method_answered}
use crossplane_provider_slac.Slack.Client.Delivery.{
  Server, Delivery, call_method_delivered, call_only-is_ok, call_only-world,
}
use crossplane_provider_slac.Slack.Client.Assembly.{slack_client}
use crossplane_provider_slac.Slack.Client.Conversations.{unmarshal}
use crossplane_provider_slac.Slack.Client.Users.{user_of, lookup_user_by_email}
use crossplane_provider_slac.Slack.Client.UserGroups.{
  group_form, members_form, users_of, list_user_group_members, update_user_group_members,
}
use crossplane_provider_slac.Slack.Client.UserGroups.Forms.{members_form-split}
use crossplane_provider_slac.UserGroupMembers.Convergence.{IsGroupService}
use crossplane_provider_slac.UserGroupMembers.Http.{
  KeepsMembers, users_answer, lookup_answer, looked_up,
}

module _ {W Request : Type 0} (lib : Library W Request) (c : Client W Request) (s : Server W)
    (delivers : (method : String) (form : Form) (w : W) → Delivery lib c s method form w) where
  listed :
      (g : String) (ids : List String) (w : W)
      → (s.answer "usergroups.users.list" (group_form g) w).0 ≡ users_answer ids
      → (list_user_group_members lib c g w).0 ≡ ok ids
  unfolding list_user_group_members check_answer accepted decode_envelope users_of members_of field
      same_key string_of bool_of list_of unmarshal
  listed g ids w e =
      let d = delivers "usergroups.users.list" (group_form g) w in
      let p = d.parses ∙ ap ok e in
      rw
        (
          call_method_answered lib c "usergroups.users.list" (some (group_form g)) w _ d.text
              d.answers,
          p,
          p,
          read_all_strings ids,
        )
        refl

  listed-world :
      (g : String) (w : W)
      → (list_user_group_members lib c g w).1
        ≡ (s.answer "usergroups.users.list" (group_form g) w).1
  unfolding list_user_group_members accepted unmarshal
  listed-world g w =
      rw (call_method_delivered lib c s delivers "usergroups.users.list" (group_form g) w)
        (elim (Bool-cases (s.envelope "usergroups.users.list" (group_form g) w).is_ok) [
          | inl e ↦ rw e refl
          | inr e ↦ rw e refl
        ])

  found :
      (email : String) (o : Option User) (w : W)
      → (s.answer "users.lookupByEmail" (set "email" email []) w).0 ≡ lookup_answer o
      → (lookup_user_by_email lib c email w).0 ≡ looked_up o
  unfolding lookup_user_by_email check_answer accepted decode_envelope user_of decode_user
      decode_profile members_of field same_key string_of bool_of unmarshal
  found email none w e =
      let d = delivers "users.lookupByEmail" (set "email" email []) w in
      let p = d.parses ∙ ap ok e in
      rw
        (
          call_method_answered lib c "users.lookupByEmail" (some (set "email" email [])) w _ d.text
              d.answers,
          p,
        )
        refl
  found email (some u) w e =
      let d = delivers "users.lookupByEmail" (set "email" email []) w in
      let p = d.parses ∙ ap ok e in
      rw
        (
          call_method_answered lib c "users.lookupByEmail" (some (set "email" email [])) w _ d.text
              d.answers,
          p,
          p,
        )
        refl

  found-world :
      (email : String) (w : W)
      → (lookup_user_by_email lib c email w).1
        ≡ (s.answer "users.lookupByEmail" (set "email" email []) w).1
  unfolding lookup_user_by_email accepted unmarshal
  found-world email w =
      rw (call_method_delivered lib c s delivers "users.lookupByEmail" (set "email" email []) w)
        (elim (Bool-cases (s.envelope "users.lookupByEmail" (set "email" email []) w).is_ok) [
          | inl e ↦
              let d = delivers "users.lookupByEmail" (set "email" email []) w in
              rw e (elim (Result-cases (Json.bind (lib.parse_json d.text) user_of)) [
                | inl (u, q) ↦ rw q refl
                | inr (x, q) ↦ rw q refl
              ])
          | inr e ↦ rw e refl
        ])

  replaced :
      (bound : ℕ) (members : W → String → Option (List String)) (book : String → Option User)
      → KeepsMembers s members book
      → (g : String) (ids : List String) (w : W) → ids ≢ []
      → NoneHas b',' ids
      → Nodup ids
      → (update_user_group_members lib c g ids w).0 ≡ ok tt
      → (stored : List String) × (members (update_user_group_members lib c g ids w).1 g
          ≡ some stored)
        × Perm ids stored
  unfolding group_form members_form set get update_user_group_members
  replaced bound members book keeps g [] w ne plain once = absurd (ne refl)
  replaced bound members book keeps g (id ∷ ids) w ne plain once = λ done.
      let form = members_form g (id ∷ ids) in
      let (sent, e, parts) = members_form-split g id ids plain in
      let (stored, v, p) =
        keeps.replaces form g sent w refl e (subst Nodup (sym parts) once)
          (call_only-is_ok lib c s delivers "usergroups.users.update" form w done) in
      (
        stored,
        rw (call_only-world lib c s delivers "usergroups.users.update" form w) v,
        subst (λ xs. Perm xs stored) parts p,
      )

  -- The HTTP client is a service of groups, where Slack keeps their members by the forms of its API.
  pub slack_client-IsGroupService :
      (bound : ℕ) (members : W → String → Option (List String)) (book : String → Option User)
      → KeepsMembers s members book
      → IsGroupService (slack_client lib bound c) members (λ email. looked_up (book email))
  unfolding group_form members_form set get update_user_group_members
  slack_client-IsGroupService bound members book keeps = record {
    lists = λ g ids w v. listed g ids w (keeps.lists (group_form g) g ids w refl v);
    lists_keeps = λ g w. rw (listed-world g w) (keeps.lists_keeps (group_form g) w);
    answers =
        λ email w. found email (book email) w (keeps.finds (set "email" email []) email w refl);
    answers_keeps =
        λ email w. rw (found-world email w) (keeps.finds_keeps (set "email" email []) w);
    replaces = replaced bound members book keeps;
  }
