-- ===== src/Base/Lists.antt =====
-- Lists measured by native numbers.
use crossplane_provider_slac.Base.{Option, none, some, ℕ, suc, ◌+◌, ◌≡◌, List, [], ◌∷◌, ◌++◌, arith}

module _ {ℓ} {A : Type ℓ} where
  abbrev pub length : List A → ℕ
  length [] = 0
  length (x ∷ xs) = suc (length xs)

  pub length-append : (xs ys : List A) → length (xs ++ ys) ≡ length xs + length ys
  length-append [] ys = omega arith
  length-append (x ∷ xs) ys = omega (arith, length-append xs ys)

-- `First P xs o`: `o` is the first entry of `xs` with the property, or `none` if there is none.
pub data First {A : Type 0} (P : A → Type 0) : List A → Option A → Type 0 where
  nowhere : First P [] none
  here : (x : A) (xs : List A) → P x → First P (x ∷ xs) (some x)
  further : (x : A) (xs : List A) (o : Option A) → (P x → ⊥) → First P xs o → First P (x ∷ xs) o
