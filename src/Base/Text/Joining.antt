-- ===== src/Base/Text/Joining.antt =====
-- Texts that are joined by a separator, and split again.
use Prim.Native.Char.{Char}
use text.Mathlib.TextLemmas.{nil-append, cons-append, append-nil, append_assoc}
use crossplane_provider_slac.Base.{
  ℕ, ◌≡◌, refl, sym, String, ◌<>◌, code, true, false, nat_eq, List, [], ◌∷◌, if◌then◌else◌,
  Bool-cases, inl, inr,
}
use crossplane_provider_slac.Base.Text.{join, join_loop, has_char}

abbrev push : Char → List String → List String
push c [] = []
push c (t ∷ ts) = String.◌∷◌ c t ∷ ts

-- The texts between the occurrences of an ASCII character.
unfoldable pub split : ℕ → String → List String
split k String.[] = "" ∷ []
split k (String.◌∷◌ c s) =
    let rest = split k s in if nat_eq (code c) k then "" ∷ rest else push c rest

split_single : (k : ℕ) (a : String) → has_char k a ≡ false → split k a ≡ a ∷ []
unfolding split has_char
split_single k String.[] h = refl
split_single k (String.◌∷◌ c a) h = elim (Bool-cases (nat_eq (code c) k)) [
  | inl e ↦ let found = rw e at h in cc
  | inr e ↦ rw (e, split_single k a (rw e at h)) refl
]

split-append :
    (k : ℕ) (c : Char) (a b : String)
    → nat_eq (code c) k ≡ true
    → has_char k a ≡ false
    → split k (a <> String.◌∷◌ c b) ≡ a ∷ split k b
unfolding split has_char
split-append k c String.[] b e h = rw (nil-append, e) refl
split-append k c (String.◌∷◌ d a) b e h = elim (Bool-cases (nat_eq (code d) k)) [
  | inl f ↦ let found = rw f at h in cc
  | inr f ↦ rw (cons-append, f, split-append k c a b e (rw f at h)) refl
]

-- The texts, each behind a separator.
abbrev behind : String → List String → String
behind sep [] = ""
behind sep (s ∷ ss) = sep <> (s <> behind sep ss)

join_loop-behind :
    (sep acc : String) (ss : List String) → join_loop sep acc false ss ≡ acc <> behind sep ss
unfolding join_loop
join_loop-behind sep acc [] = sym (append-nil acc)
join_loop-behind sep acc (s ∷ ss) =
    rw
      (
        join_loop-behind sep ((acc <> sep) <> s) ss,
        append_assoc (acc <> sep) s (behind sep ss),
        append_assoc acc sep (s <> behind sep ss),
      )
      refl

join-behind : (sep s : String) (ss : List String) → join sep (s ∷ ss) ≡ s <> behind sep ss
unfolding join join_loop
join-behind sep s ss = rw (nil-append, join_loop-behind sep s ss) refl

-- The character occurs in none of the texts.
abbrev pub NoneHas : ℕ → List String → Type 0
NoneHas k [] = Unit
NoneHas k (s ∷ ss) = (has_char k s ≡ false) × NoneHas k ss

split-behind :
    (k : ℕ) (c : Char) (s : String) (ss : List String)
    → nat_eq (code c) k ≡ true
    → NoneHas k (s ∷ ss)
    → split k (s <> behind (String.◌∷◌ c "") ss) ≡ s ∷ ss
split-behind k c s [] e (h, _) = rw (append-nil s) (split_single k s h)
split-behind k c s (t ∷ ss) e (h, hs) =
    rw
      (
        cons-append,
        nil-append,
        split-append k c s (t <> behind (String.◌∷◌ c "") ss) e h,
        split-behind k c t ss e hs,
      )
      refl

-- Texts that do not have the separator are got back from their join.
pub split-join :
    (k : ℕ) (c : Char) (s : String) (ss : List String)
    → nat_eq (code c) k ≡ true
    → NoneHas k (s ∷ ss)
    → split k (join (String.◌∷◌ c "") (s ∷ ss)) ≡ s ∷ ss
split-join k c s ss e h = rw (join-behind (String.◌∷◌ c "") s ss) (split-behind k c s ss e h)
