-- ===== src/Base/Text.antt =====
-- Go strings as native texts. A Go string of this program holds UTF-8 text; where the source looks
-- at a byte, that byte is ASCII, and comparing code points in order agrees with comparing bytes.
pub mod Joining
use Prim.Native.Nat.{ℕ}
use Prim.Native.Char.{Char, code}
use Prim.Native.String.{String, ◌++◌ as ◌<>◌}
use mathlib.Core.Path.{◌≡◌}
use mathlib.Core.Logic.{◌≢◌}
use mathlib.Core.Bool.{Bool, true, false, ◌||◌}
use mathlib.Core.Option.{Option, none, some}
use mathlib.Core.List.{List, [], ◌∷◌}
use native.Mathlib.Omega.{arith}
use text.Mathlib.Text.{◌==◌}
use text.Mathlib.TextEquality.{eq_iff}
use text.Mathlib.TextLemmas.{nil-append, cons-append, cons-ne-nil}
use crossplane_provider_slac.Base.{nat_eq, if◌then◌else◌}

-- `*s` with the empty string for nil.
abbrev pub value_or_empty : Option String → String
value_or_empty none = ""
value_or_empty (some s) = s

-- Whether an ASCII character occurs in a text.
unfoldable pub has_char : ℕ → String → Bool
has_char k String.[] = false
has_char k (String.◌∷◌ c s) = nat_eq (code c) k || has_char k s

-- The text before and after the first occurrence of an ASCII character.
unfoldable pub cut : ℕ → String → Option (String × String)
cut k String.[] = none
cut k (String.◌∷◌ c s) =
    let rest = cut k s in
    if nat_eq (code c) k
    then some ("", s)
    else elim rest [ none ↦ none | some (a, b) ↦ some (String.◌∷◌ c a, b) ]

pub cut-append :
    (k : ℕ) (c : Char) (a b : String)
    → code c ≡ k
    → has_char k a ≡ false
    → cut k (a <> String.◌∷◌ c b) ≡ some (a, b)
unfolding cut has_char
cut-append k c String.[] b e h = rw nil-append (ground arith)
cut-append k c (String.◌∷◌ d a) b e h = rw cons-append (ground (arith, cut-append k c a b e))

-- What is cut is not empty.
pub cut-ne : (k : ℕ) (s : String) {p : String × String} → cut k s ≡ some p → s ≢ ""
unfolding cut
cut-ne k String.[] h e = cc
cut-ne k (String.◌∷◌ c s) h e = cons-ne-nil c s e

-- for i, s := range ss { if i > 0 { result += sep }; result += s }
unfoldable pub join_loop : String → String → Bool → List String → String
join_loop sep acc first [] = acc
join_loop sep acc first (s ∷ ss) = join_loop sep ((if first then acc else acc <> sep) <> s) false ss

unfoldable pub join : String → List String → String
unfolding join_loop
join sep ss = join_loop sep "" true ss

pub ==-eq-false : {s t : String} → s ≢ t → (s == t) ≡ false
==-eq-false {s} {t} h = ground (arith, eq_iff s t)
