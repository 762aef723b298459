-- ===== src/UserGroupMembers/Emails.antt =====
-- resolveEmails against a directory of users.
use mathlib.Core.List.{append-nil, append_assoc}
use crossplane_provider_slac.Base.{
  inl, inr, ℕ, String, ◌+◌, ◌≡◌, refl, ◌∙◌, Bool, true, false, not, Option, none, some, List, [],
  ◌∷◌, ◌++◌, ◌==◌, arith, if◌then◌else◌,
}
use crossplane_provider_slac.Base.Lists.{length, length-append}
use crossplane_provider_slac.Errors.{Error, Result, ok, err, Result-cases}
use crossplane_provider_slac.Slack.Types.{User}
use crossplane_provider_slac.Slack.Api.{ClientApi}
use crossplane_provider_slac.UserGroupMembers.{
  Resolution, slack_itself, is_users_not_found, classify, resolve_loop, resolve_emails,
}

-- The error that ends the resolution, if the answer is one.
abbrev pub stops : Result (Option User) → Bool
stops (err e) = not (is_users_not_found (slack_itself e))
stops (ok user) = false

-- The ID that an answer contributes, if it does.
abbrev pub ids_of : Result (Option User) → List String
ids_of (ok (some user)) = if user.id == "" then [] else user.id ∷ []
ids_of _ = []

-- The email that an answer leaves unresolved, if it does.
abbrev pub lost_of : String → Result (Option User) → List String
lost_of email (ok (some user)) = if user.id == "" then email ∷ [] else []
lost_of email _ = email ∷ []

classify-extends :
    (email : String) (acc : Resolution) (r : Result (Option User))
    → stops r ≡ false
    → classify email acc r
      ≡ ok (record {
        resolved = acc.resolved ++ ids_of r;
        unresolvable = acc.unresolvable ++ lost_of email r;
      })
unfolding classify
classify-extends email acc (err e) h = ground (arith, append-nil acc.resolved)
classify-extends email acc (ok none) h = ground (arith, append-nil acc.resolved)
classify-extends email acc (ok (some user)) h =
    ground (arith, append-nil acc.resolved, append-nil acc.unresolvable)

module _ (directory : String → Result (Option User)) where
  -- The IDs of the emails that the directory knows, in order.
  abbrev pub found_ids : List String → List String
  found_ids [] = []
  found_ids (email ∷ emails) = ids_of (directory email) ++ found_ids emails

  abbrev pub lost_emails : List String → List String
  lost_emails [] = []
  lost_emails (email ∷ emails) = lost_of email (directory email) ++ lost_emails emails

  abbrev pub NoneStops : List String → Type 0
  NoneStops [] = Unit
  NoneStops (email ∷ emails) = (stops (directory email) ≡ false) × NoneStops emails

module _ {W : Type 0} (api : ClientApi W) (directory : String → Result (Option User))
    (answers : (email : String) (w : W)
      → (api.lookup_user_by_email email w).0 ≡ directory email) where
  resolve_loop-found :
      (emails : List String) (acc : Resolution) (w : W)
      → NoneStops directory emails
      → (resolve_loop api emails acc w).0
        ≡ ok (record {
          resolved = acc.resolved ++ found_ids directory emails;
          unresolvable = acc.unresolvable ++ lost_emails directory emails;
        })
  unfolding resolve_loop
  resolve_loop-found [] acc w h = rw (append-nil, append-nil) refl
  resolve_loop-found (email ∷ emails) acc w h =
      rw (answers email w, classify-extends email acc (directory email) h.0)
        (resolve_loop-found emails _ _ h.1 ∙ rw (append_assoc, append_assoc) refl)

  -- If each lookup answers from a directory that the lookups do not change, and no answer is an error
  -- other than users_not_found, then resolveEmails returns the IDs of the known emails and the list
  -- of the others, both in the order of the emails.
  pub resolve_emails-found :
      (emails : List String) (w : W)
      → NoneStops directory emails
      → (resolve_emails api emails w).0
        ≡ ok (record {
          resolved = found_ids directory emails;
          unresolvable = lost_emails directory emails;
        })
  unfolding resolve_emails
  resolve_emails-found emails w h = resolve_loop-found emails _ w h

  resolve_loop-stops :
      (before after : List String) (email : String) (acc : Resolution) (w : W) (e : Error)
      → NoneStops directory before
      → directory email ≡ err e
      → stops (err e) ≡ true
      → (resolve_loop api (before ++ (email ∷ after)) acc w).0 ≡ err e
  unfolding resolve_loop classify
  resolve_loop-stops [] after email acc w e h d s = rw (answers email w, d) (ground arith)
  resolve_loop-stops (b ∷ before) after email acc w e h d s =
      rw (answers b w, classify-extends b acc (directory b) h.0)
        (resolve_loop-stops before after email _ _ e h.1 d s)

  -- An answer that is an error other than users_not_found ends the resolution with that error,
  -- whatever emails follow.
  resolve_emails-stops :
      (before after : List String) (email : String) (w : W) (e : Error)
      → NoneStops directory before
      → directory email ≡ err e
      → stops (err e) ≡ true
      → (resolve_emails api (before ++ (email ∷ after)) w).0 ≡ err e
  unfolding resolve_emails
  resolve_emails-stops before after email w e h d s =
      resolve_loop-stops before after email _ w e h d s

-- What the loop has sorted out so far.
abbrev total : Resolution → ℕ
total r = length r.resolved + length r.unresolvable

classify-total :
    (email : String) (acc acc' : Resolution) (r : Result (Option User))
    → classify email acc r ≡ ok acc'
    → total acc' ≡ total acc + 1
unfolding classify
classify-total email acc acc' (err e) h =
    ground (arith, length-append acc.unresolvable (email ∷ []))
classify-total email acc acc' (ok none) h =
    ground (arith, length-append acc.unresolvable (email ∷ []))
classify-total email acc acc' (ok (some user)) h =
    ground (
      arith,
      length-append acc.unresolvable (email ∷ []),
      length-append acc.resolved (user.id ∷ []),
    )

module _ {W : Type 0} (api : ClientApi W) where
  resolve_loop-total :
      (emails : List String) (acc r : Resolution) (w : W)
      → (resolve_loop api emails acc w).0 ≡ ok r
      → total r ≡ total acc + length emails
  unfolding resolve_loop
  resolve_loop-total [] acc r w h = ground arith
  resolve_loop-total (email ∷ emails) acc r w h =
      elim (Result-cases (classify email acc (api.lookup_user_by_email email w).0)) [
        | inl (acc', p) ↦ omega (
          arith,
          resolve_loop-total emails acc' r (api.lookup_user_by_email email w).1 (rw p at h),
          classify-total email acc acc' (api.lookup_user_by_email email w).0 p,
        )
        | inr (e, p) ↦ let stopped = rw p at h in cc stopped
      ]

  -- Whatever the lookups answer, a resolution that succeeds puts each email on exactly one side: the
  -- resolved IDs and the unresolvable emails are as many as the emails.
  pub resolve_emails-total :
      (emails : List String) (r : Resolution) (w : W)
      → (resolve_emails api emails w).0 ≡ ok r
      → length r.resolved + length r.unresolvable ≡ length emails
  unfolding resolve_emails
  resolve_emails-total emails r w h = omega (arith, resolve_loop-total emails _ r w h)
