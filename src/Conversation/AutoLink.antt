-- ===== src/Conversation/AutoLink.antt =====
-- stripSlackAutoLinks, internal/controller/conversation/conversation.go: every match of
-- <([^|>]+)(?:\|[^>]*)?> is replaced by its group, from left to right.
pub mod Laws
use crossplane_provider_slac.Base.{
  ℕ, zero, suc, ◌+◌, ◌≡◌, refl, Bool, true, false, ◌||◌, Option, none, some, String, ◌<>◌, code,
  nat_eq, if◌then◌else◌,
}

-- Characters that [^|>] excludes.
ends_group : ℕ → Bool
ends_group k = nat_eq k b'|' || nat_eq k b'>'

-- The longest run of [^|>] and the text behind it.
span_group : String → String × String
unfolding ends_group
span_group String.[] = ("", "")
span_group (String.◌∷◌ c s) =
    let (run, rest) = span_group s in
    if ends_group (code c) then ("", String.◌∷◌ c s) else (String.◌∷◌ c run, rest)

-- How many characters [^>]*> takes.
skip_label : String → Option ℕ
skip_label String.[] = none
skip_label (String.◌∷◌ c s) =
    let rest = skip_label s in
    if nat_eq (code c) b'>' then some 1 else elim rest [ none ↦ none | some n ↦ some (suc n) ]

-- How many characters (?:\|[^>]*)?> takes.
close_link : String → Option ℕ
unfolding skip_label
close_link String.[] = none
close_link (String.◌∷◌ c s) =
    if nat_eq (code c) b'>'
    then some 1
    else if nat_eq (code c) b'|'
    then elim (skip_label s) [ none ↦ none | some n ↦ some (suc n) ]
    else none

length : String → ℕ
length String.[] = 0
length (String.◌∷◌ c s) = suc (length s)

-- The group of a match that begins just before `s`, and how much of `s` the match takes.
group_of : String → Option ℕ → Option (String × ℕ)
unfolding length
group_of String.[] closing = none
group_of (String.◌∷◌ c run) none = none
group_of (String.◌∷◌ c run) (some n) = some (String.◌∷◌ c run, length (String.◌∷◌ c run) + n)

link_at : String → Option (String × ℕ)
unfolding span_group close_link group_of
link_at s = let (run, rest) = span_group s in group_of run (close_link rest)

-- The characters of a match that are not yet passed are counted down.
strip_from : ℕ → String → String
unfolding link_at
strip_from n String.[] = ""
strip_from (suc n) (String.◌∷◌ c s) = strip_from n s
strip_from zero (String.◌∷◌ c s) = elim (if nat_eq (code c) b'<' then link_at s else none) [
  | none ↦ String.◌∷◌ c (strip_from zero s)
  | some (group, n) ↦ group <> strip_from n s
]

unfoldable pub strip_slack_auto_links : String → String
unfolding strip_from
strip_slack_auto_links s = strip_from 0 s
