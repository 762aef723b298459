-- ===== src/Act.antt =====
-- Calls with effects: a function from a state to a result and the next state. `attempt` hands the
-- result to the caller as a value, which is how Go code reads `x, err := f()`.
use crossplane_provider_slac.Base.{◌≡◌, refl, inl, inr}
use crossplane_provider_slac.Errors.{Error, Result, ok, err, Result-cases}

abbrev pub Act : Type 0 → Type 0 → Type 0
Act S A = S → Result A × S

abbrev pub pure : {S A : Type 0} → A → Act S A
pure a s = (ok a, s)

abbrev pub fail : {S A : Type 0} → Error → Act S A
fail e s = (err e, s)

abbrev pub continue_with : {S A B : Type 0} → Result A × S → (A → Act S B) → Result B × S
continue_with (ok a, s) f = f a s
continue_with (err e, s) f = (err e, s)

infixl 5 ◌>>=◌ ◌>>◌
abbrev pub ◌>>=◌ : {S A B : Type 0} → Act S A → (A → Act S B) → Act S B
◌>>=◌ m f s = continue_with (m s) f

abbrev pub ◌>>◌ : {S B : Type 0} → Act S (Unit {0}) → Act S B → Act S B
m >> k = m >>= λ _. k

abbrev pub attempt : {S A : Type 0} → Act S A → Act S (Result A)
attempt m s = let (r, s') = m s in (ok r, s')

abbrev pub wrap_result : {A : Type 0} → (Error → Error) → Result A → Result A
wrap_result f (ok a) = ok a
wrap_result f (err e) = err (f e)

-- if err != nil { return wrap(err) }
abbrev pub or_wrap : {S A : Type 0} → Act S A → (Error → Error) → Act S A
or_wrap m f s = let (r, s') = m s in (wrap_result f r, s')

-- A wrapped call has succeeded exactly if the call has.
pub wrap_result-eq-ok :
    {A : Type 0} (f : Error → Error) (r : Result A) {a : A} → wrap_result f r ≡ ok a → r ≡ ok a
wrap_result-eq-ok f (ok a) h = h
wrap_result-eq-ok f (err e) h = cc

-- A chain of two calls has succeeded exactly if both have, one after the other.
pub >>=-eq-ok :
    {S A B : Type 0} (m : Act S A) (f : A → Act S B) (s : S) {b : B}
    → ((m >>= f) s).0 ≡ ok b
    → (a : A) × ((m s).0 ≡ ok a) × ((m >>= f) s ≡ f a (m s).1)
>>=-eq-ok m f s h = elim (Result-cases (m s).0) [
  | inl (a, p) ↦ (a, p, rw p refl)
  | inr (e, p) ↦ let failed = rw p at h in cc failed
]
