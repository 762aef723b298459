-- ===== src/Apis/Items.antt =====
-- GetItems of apis/v1alpha1/providerconfig_interfaces.go and of
-- apis/conversationmember/v1alpha1/zz_generated.managedlist.go: pointers to the items of a list.
use crossplane_provider_slac.Base.{
  ℕ, zero, suc, ◌≡◌, refl, ap, ◌∙◌, Option, none, some, List, [], ◌∷◌, map,
}

module _ {A : Type 0} where
  -- items[i] = &l.Items[i], for each i from a position on.
  pointers_from : ℕ → List A → List ℕ
  pointers_from i [] = []
  pointers_from i (x ∷ xs) = i ∷ pointers_from (suc i) xs

  unfoldable pub get_items_of : List A → List ℕ
  unfolding pointers_from
  get_items_of items = pointers_from 0 items

  -- What a pointer points to.
  unfoldable pub load : List A → ℕ → Option A
  load [] i = none
  load (x ∷ xs) zero = some x
  load (x ∷ xs) (suc i) = load xs i

  -- A write through a pointer.
  unfoldable pub store : ℕ → A → List A → List A
  store i y [] = []
  store zero y (x ∷ xs) = y ∷ xs
  store (suc i) y (x ∷ xs) = x ∷ store i y xs

  load-pointers_from :
      (x : A) (xs ys : List A) (i : ℕ)
      → map (load (x ∷ xs)) (pointers_from (suc i) ys) ≡ map (load xs) (pointers_from i ys)
  unfolding pointers_from load
  load-pointers_from x xs [] i = refl
  load-pointers_from x xs (y ∷ ys) i = ap (λ r. load xs i ∷ r) (load-pointers_from x xs ys (suc i))

  -- The pointers point to the items, in their order.
  load-get_items_of : (items : List A) → map (load items) (get_items_of items) ≡ map some items
  unfolding get_items_of pointers_from load
  load-get_items_of [] = refl
  load-get_items_of (x ∷ xs) =
      ap (λ r. some x ∷ r) (load-pointers_from x xs xs 0 ∙ load-get_items_of xs)

  pointers_from-store :
      (i k : ℕ) (y : A) (items : List A) → pointers_from k (store i y items) ≡ pointers_from k items
  unfolding pointers_from store
  pointers_from-store i k y [] = refl
  pointers_from-store zero k y (x ∷ xs) = refl
  pointers_from-store (suc i) k y (x ∷ xs) = ap (λ r. k ∷ r) (pointers_from-store i (suc k) y xs)

  -- A write through a pointer leaves the pointers as they are.
  get_items_of-store :
      (i : ℕ) (y : A) (items : List A) → get_items_of (store i y items) ≡ get_items_of items
  unfolding get_items_of
  get_items_of-store i y items = pointers_from-store i 0 y items
