-- ===== src/Slack/Client/Pages/Listing.antt =====
-- Reading a list page by page gives what the whole list gives, once the pages come to an end.
use mathlib.Core.List.{append_assoc, append-nil}
use crossplane_provider_slac.Base.{
  ℕ, zero, suc, ◌≤◌, ◌≡◌, ◌≢◌, refl, ap, ◌∙◌, String, none, some, List, [], ◌∷◌, ◌++◌, Option-cases,
  inl, inr, arith,
}
use crossplane_provider_slac.Base.Lists.{length}
use crossplane_provider_slac.Base.Text.{==-eq-false}
use crossplane_provider_slac.Errors.{ok}
use crossplane_provider_slac.Act.{Act}
use crossplane_provider_slac.Slack.Types.{Conversation}
use crossplane_provider_slac.Slack.Client.Pages.{Page, find_named, find_in_pages, collect_pages}

abbrev pub concat : {A : Type 0} → List (List A) → List A
concat [] = []
concat (xs ∷ xss) = xs ++ concat xss

-- `Serves read cursor w pages`: reading from `cursor` on, in the state `w`, yields the pages, of which
-- the last one alone has no next cursor.
pub data Serves {W A : Type 0} (read : String → Act W (Page A))
    : String → W → List (List A) → Type 0 where
  last :
      (cursor : String) (w : W) (page : Page A)
      → (read cursor w).0 ≡ ok page
      → page.next_cursor ≡ ""
      → Serves read cursor w (page.entries ∷ [])
  more :
      (cursor : String) (w : W) (page : Page A) (rest : List (List A))
      → (read cursor w).0 ≡ ok page
      → page.next_cursor ≢ ""
      → Serves read page.next_cursor (read cursor w).1 rest
      → Serves read cursor w (page.entries ∷ rest)

-- `Chain Answered cursor w pages`: the requests from `cursor` on, in the state `w`, are answered by the
-- pages, of which the last one alone gives no next cursor. `Answered cursor w entries next after` is one
-- answer.
pub data Chain {W A : Type 0} (Answered : String → W → List A → String → W → Type 0)
    : String → W → List (List A) → Type 0 where
  last_page :
      (cursor : String) (w : W) (entries : List A) (after : W)
      → Answered cursor w entries "" after
      → Chain Answered cursor w (entries ∷ [])
  page_before :
      (cursor : String) (w : W) (entries : List A) (next : String) (after : W)
      (rest : List (List A))
      → Answered cursor w entries next after
      → next ≢ ""
      → Chain Answered next after rest
      → Chain Answered cursor w (entries ∷ rest)

-- A chain of answers of one kind is one of another.
pub Chain-map :
    {W A : Type 0} (P Q : String → W → List A → String → W → Type 0)
    → ((cursor : String) (w : W) (entries : List A) (next : String) (after : W)
        → P cursor w entries next after
        → Q cursor w entries next after)
    → (cursor : String) (w : W) (pages : List (List A)) → Chain P cursor w pages
    → Chain Q cursor w pages
Chain-map P Q f cursor w _ (last_page _ _ entries after a) =
    last_page cursor w entries after (f cursor w entries "" after a)
Chain-map P Q f cursor w _ (page_before _ _ entries next after rest a h s) =
    page_before cursor w entries next after rest (f cursor w entries next after a) h
      (Chain-map P Q f next after rest s)

pub Chain-Serves :
    {W A : Type 0} (Answered : String → W → List A → String → W → Type 0)
    (read : String → Act W (Page A))
    → ((cursor : String) (w : W) (entries : List A) (next : String) (after : W)
        → Answered cursor w entries next after
        → read cursor w ≡ (ok (record { entries = entries; next_cursor = next }), after))
    → (cursor : String) (w : W) (pages : List (List A)) → Chain Answered cursor w pages
    → Serves read cursor w pages
Chain-Serves Answered read reads cursor w _ (last_page _ _ entries after a) =
    last cursor w (record { entries = entries; next_cursor = "" })
      (ap (λ r. r.0) (reads cursor w entries "" after a)) refl
Chain-Serves Answered read reads cursor w _ (page_before _ _ entries next after rest a h s) =
    let e = reads cursor w entries next after a in
    more cursor w (record { entries = entries; next_cursor = next }) rest (ap (λ r. r.0) e) h
      (rw e (Chain-Serves Answered read reads next after rest s))

find_named-append :
    (name : String) (xs ys : List Conversation)
    → find_named name xs ≡ none
    → find_named name (xs ++ ys) ≡ find_named name ys
unfolding find_named
find_named-append name [] ys h = refl
find_named-append name (x ∷ xs) ys h = ground (arith, find_named-append name xs ys)

find_named-append_some :
    (name : String) (xs ys : List Conversation) (c : Conversation)
    → find_named name xs ≡ some c
    → find_named name (xs ++ ys) ≡ some c
unfolding find_named
find_named-append_some name [] ys c h = cc
find_named-append_some name (x ∷ xs) ys c h = ground (arith, find_named-append_some name xs ys c)

module _ {W : Type 0} (read : String → Act W (Page Conversation)) where
  -- The search of FindConversationByName, over as many pages as there are at least, finds what a
  -- search of all the pages together finds: the first channel of the name, or none.
  pub find_in_pages-concat :
      (name cursor : String) (w : W) (pages : List (List Conversation)) (bound : ℕ)
      → Serves read cursor w pages
      → length pages ≤ bound
      → (find_in_pages read bound name cursor w).0 ≡ ok (find_named name (concat pages))
  unfolding find_in_pages
  find_in_pages-concat name cursor w pages zero (last _ _ page e h) le = absurd (omega (arith, le))
  find_in_pages-concat name cursor w pages zero (more _ _ page rest e h s) le =
      absurd (omega (arith, le))
  find_in_pages-concat name cursor w pages (suc n) (last _ _ page e h) le =
      rw (append-nil page.entries) (elim (Option-cases (find_named name page.entries)) [
        | inl m ↦ rw (e, m, h) refl
        | inr (c, m) ↦ rw (e, m) refl
      ])
  find_in_pages-concat name cursor w pages (suc n) (more _ _ page rest e h s) le =
      elim (Option-cases (find_named name page.entries)) [
        | inl m ↦
            rw (e, m, ==-eq-false h, find_named-append name page.entries (concat rest) m)
              (find_in_pages-concat name page.next_cursor _ rest n s (omega (arith, le)))
        | inr (c, m) ↦ rw (e, m, find_named-append_some name page.entries (concat rest) c m) refl
      ]

module _ {W A : Type 0} (read : String → Act W (Page A)) where
  collect_pages-append :
      (acc : List A) (cursor : String) (w : W) (pages : List (List A)) (bound : ℕ)
      → Serves read cursor w pages
      → length pages ≤ bound
      → (collect_pages read bound acc cursor w).0 ≡ ok (acc ++ concat pages)
  unfolding collect_pages
  collect_pages-append acc cursor w pages zero (last _ _ page e h) le = absurd (omega (arith, le))
  collect_pages-append acc cursor w pages zero (more _ _ page rest e h s) le =
      absurd (omega (arith, le))
  collect_pages-append acc cursor w pages (suc n) (last _ _ page e h) le =
      rw (e, h, append-nil page.entries) refl
  collect_pages-append acc cursor w pages (suc n) (more _ _ page rest e h s) le =
      rw (e, ==-eq-false h)
        (collect_pages-append (acc ++ page.entries) page.next_cursor _ rest n s (omega (arith, le))
          ∙ rw (append_assoc acc page.entries (concat rest)) refl)

  -- The members that GetConversationMembers collects, over as many pages as there are at least, are
  -- those of all the pages, in order.
  pub collect_pages-concat :
      (cursor : String) (w : W) (pages : List (List A)) (bound : ℕ)
      → Serves read cursor w pages
      → length pages ≤ bound
      → (collect_pages read bound [] cursor w).0 ≡ ok (concat pages)
  collect_pages-concat cursor w pages bound s le = collect_pages-append [] cursor w pages bound s le
