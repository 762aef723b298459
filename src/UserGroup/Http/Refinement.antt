-- ===== src/UserGroup/Http/Refinement.antt =====
-- The HTTP client as the store of user groups that the user group controller relies on.
use crossplane_provider_slac.Base.{
  ℕ, ◌≡◌, refl, ◌≢◌, ap, sym, ◌∙◌, String, true, false, some, List, [], map, ◌==◌, eq_iff,
  Bool-cases, inl, inr,
}
use crossplane_provider_slac.Base.Int.{ℤ}
use crossplane_provider_slac.Errors.{ok}
use crossplane_provider_slac.Slack.Types.{UserGroup, UserGroupParams}
use crossplane_provider_slac.Slack.Form.{Form, get, set, set_given}
use crossplane_provider_slac.Slack.Json.{is_int64, members_of, field, same_key, string_of, bool_of}
use crossplane_provider_slac.Slack.Json.Encode.{decode_user_group_json}
use crossplane_provider_slac.Slack.Client.{Library, Client, accepted}
use crossplane_provider_slac.Slack.Client.Delivery.{
  Server, Delivery, call_method_delivered, call_only-is_ok, call_only-world,
}
use crossplane_provider_slac.Slack.Client.Assembly.{slack_client}
use crossplane_provider_slac.Slack.Client.Conversations.{unmarshal}
use crossplane_provider_slac.Slack.Client.UserGroups.{
  set_params, group_form, update_form, group_of, create_user_group, update_user_group,
}
use crossplane_provider_slac.Slack.Client.UserGroups.Listed.{
  AnswersGroups, list_user_groups_answered,
}
use crossplane_provider_slac.UserGroup.Remote.{find_group-First, First-find_group}
use crossplane_provider_slac.UserGroup.Service.{IsGroupStore, kept}
use crossplane_provider_slac.UserGroup.Http.{KeepsGroups, user_group_answer, sent_or}

-- The description is sent unless it is empty.
update_form-description :
    (id old : String) (p : UserGroupParams)
    → sent_or old (get "description" (update_form id p)) ≡ kept p.description old
unfolding update_form set_params group_form set set_given get
update_form-description id old p = elim (Bool-cases (p.description == "")) [
  | inl e ↦ rw e refl
  | inr e ↦ rw e refl
]

update_form-fields :
    (id : String) (p : UserGroupParams)
    → (get "usergroup" (update_form id p) ≡ some id)
      × (get "name" (update_form id p) ≡ some p.name)
      × (get "handle" (update_form id p) ≡ some p.handle)
unfolding update_form set_params group_form set set_given get
update_form-fields id p = elim (Bool-cases (p.description == "")) [
  | inl e ↦ rw e (refl, refl, refl)
  | inr e ↦ rw e (refl, refl, refl)
]

create_form-fields :
    (p : UserGroupParams)
    → (get "name" (set_params p []) ≡ some p.name)
      × (get "handle" (set_params p []) ≡ some p.handle)
      × (sent_or "" (get "description" (set_params p [])) ≡ p.description)
unfolding set_params set set_given get
create_form-fields p = elim (Bool-cases (p.description == "")) [
  | inl e ↦ rw e (refl, refl, sym ((eq_iff p.description "").0 e))
  | inr e ↦ rw e (refl, refl, refl)
]

ok-eq : {a b : UserGroup} → ok a ≡ ok b → a ≡ b
ok-eq p = cc

module _ {W Request : Type 0} (lib : Library W Request) (c : Client W Request) (s : Server W)
    (delivers : (method : String) (form : Form) (w : W) → Delivery lib c s method form w) where
  pub created_group :
      (p : UserGroupParams) (w : W) (g : UserGroup) (d : ℤ)
      → (s.envelope "usergroups.create" (set_params p []) w).is_ok ≡ true
      → (s.answer "usergroups.create" (set_params p []) w).0 ≡ user_group_answer (g, d)
      → is_int64 g.date_create ≡ true
      → create_user_group lib c p w ≡ (ok g, (s.answer "usergroups.create" (set_params p []) w).1)
  unfolding create_user_group accepted group_of members_of field same_key string_of bool_of
      unmarshal
  created_group p w g d o e small =
      let x = delivers "usergroups.create" (set_params p []) w in
      rw
        (
          call_method_delivered lib c s delivers "usergroups.create" (set_params p []) w,
          o,
          x.parses,
          e,
          decode_user_group_json g d small,
        )
        refl

  refused_group :
      (p : UserGroupParams) (w : W) (g : UserGroup)
      → (s.envelope "usergroups.create" (set_params p []) w).is_ok ≡ false
      → (create_user_group lib c p w).0 ≢ ok g
  unfolding create_user_group accepted
  refused_group p w g o =
      rw (call_method_delivered lib c s delivers "usergroups.create" (set_params p []) w, o)
        (λ done. cc)

  module _ (groups : W → List (UserGroup × ℤ)) (keeps : KeepsGroups s groups) where
    groups_of_list :
        (w : W)
        → AnswersGroups lib c w
            (groups w)
            (s.answer "usergroups.list" (set "include_disabled" "true" []) w).1
    unfolding set get
    groups_of_list w =
        let d = delivers "usergroups.list" (set "include_disabled" "true" []) w in
        let (e, small) = keeps.lists (set "include_disabled" "true" []) w refl in
        record { text = d.text; answers = d.answers; parses = d.parses ∙ ap ok e; small = small }

    -- The HTTP client is a store of groups, where Slack keeps them by the forms of its API.
    pub slack_client-IsGroupStore :
        (bound : ℕ) → IsGroupStore (slack_client lib bound c) (λ w. map (λ p. p.0) (groups w))
    unfolding update_user_group
    slack_client-IsGroupStore bound = record {
      lists = λ w. ap (λ r. r.0) (list_user_groups_answered lib c w _ _ (groups_of_list w));
      creates = λ p w g done.
          elim (Bool-cases (s.envelope "usergroups.create" (set_params p []) w).is_ok) [
            | inl o ↦
                let (fn, fh, fd) = create_form-fields p in
                let (made, d, e, small, ne, h, at, on, n, k, t) =
                  keeps.creates (set_params p []) p.name p.handle w fn fh o in
                let run = created_group p w made d o e small in
                let same : made ≡ g = ok-eq (ap (λ r. r.0) (sym run) ∙ done) in
                rw (← same, run) (ne, h, find_group-First _ _ _ at, on, n, k, t ∙ fd)
            | inr o ↦ absurd (refused_group p w g o done)
          ];
      updates = λ id p w g at done.
          let form = update_form id p in
          let (fi, fn, fh) = update_form-fields id p in
          let stored =
            keeps.updates form id p.name p.handle w g fi fn fh (First-find_group id _ g at)
              (call_only-is_ok lib c s delivers "usergroups.update" form w done) in
          rw (call_only-world lib c s delivers "usergroups.update" form w)
            (find_group-First _ _ _ stored ∙ rw (update_form-description id g.description p) refl);
    }
