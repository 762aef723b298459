-- ===== src/UserGroupMembers/SetsEqual/Sorted.antt =====
-- Sorting permutes, and forgets the order of its argument; so `sets_equal` decides permutation.
use mathlib.Core.Logic.{∥∥₁_elim}
use mathlib.Core.List.{Perm, Permᴰ}
use mathlib.Core.List.Perm
use native.Mathlib.Nat.{ℕ_set}
use text.Mathlib.TextEquality.{IsScalar-prop}
use crossplane_provider_slac.Base.{
  String, true, ◌≡◌, refl, ap, ◌∙◌, ◌↔◌, List, [], ◌∷◌, suc, arith, eq_iff, eq_refl,
}
use crossplane_provider_slac.Base.Lists.{length}
use crossplane_provider_slac.UserGroupMembers.SetsEqual.{
  insert_sorted, sort_strings, same_items, sets_equal,
}
use crossplane_provider_slac.UserGroupMembers.SetsEqual.Order.{
  text_le_total, text_le_antisymm, text_le_trans,
}

insert_sorted-perm : (x : String) (xs : List String) → Perm (insert_sorted x xs) (x ∷ xs)
unfolding insert_sorted
insert_sorted-perm x [] = Perm.refl _
insert_sorted-perm x (y ∷ ys) =
    let rest = Perm.trans (Perm.cons y (insert_sorted-perm x ys)) (Perm.swap x y ys) in
    ground (arith, rest, Perm.refl (x ∷ y ∷ ys))

pub sort_strings-perm : (xs : List String) → Perm (sort_strings xs) xs
unfolding sort_strings
sort_strings-perm [] = Perm.refl _
sort_strings-perm (x ∷ xs) =
    Perm.trans (insert_sorted-perm x (sort_strings xs)) (Perm.cons x (sort_strings-perm xs))

-- Two insertions can be made in either order.
insert_sorted_comm :
    (x y : String) (xs : List String)
    → insert_sorted x (insert_sorted y xs) ≡ insert_sorted y (insert_sorted x xs)
unfolding insert_sorted
insert_sorted_comm x y [] = ground (arith, text_le_total x y, text_le_antisymm x y)
insert_sorted_comm x y (z ∷ zs) = ground (
  arith,
  text_le_total x y,
  text_le_antisymm x y,
  text_le_trans x y z,
  text_le_trans y x z,
  text_le_total x z,
  text_le_total y z,
  insert_sorted_comm x y zs,
)

sort_strings-Permᴰ : {xs ys : List String} → Permᴰ xs ys → sort_strings xs ≡ sort_strings ys
unfolding sort_strings
sort_strings-Permᴰ Permᴰ.nil = refl
sort_strings-Permᴰ (Permᴰ.cons e p) = cc (e, sort_strings-Permᴰ p)
sort_strings-Permᴰ (Permᴰ.swap {a} {b} {l} e f) = cc (e, f, insert_sorted_comm a b (sort_strings l))
sort_strings-Permᴰ (Permᴰ.trans p q) = sort_strings-Permᴰ p ∙ sort_strings-Permᴰ q

length-Permᴰ : {xs ys : List String} → Permᴰ xs ys → length xs ≡ length ys
length-Permᴰ Permᴰ.nil = refl
length-Permᴰ (Permᴰ.cons e p) = ap suc (length-Permᴰ p)
length-Permᴰ (Permᴰ.swap e f) = refl
length-Permᴰ (Permᴰ.trans p q) = length-Permᴰ p ∙ length-Permᴰ q

length-perm : {xs ys : List String} → Perm xs ys → length xs ≡ length ys
length-perm p = ∥∥₁_elim p (ℕ_set _ _) length-Permᴰ

List-set : IsSet (List String)
List-set = hlevel IsScalar-prop

sort_strings_of_perm : {xs ys : List String} → Perm xs ys → sort_strings xs ≡ sort_strings ys
sort_strings_of_perm p = ∥∥₁_elim p (List-set _ _) sort_strings-Permᴰ

same_items-eq : (xs ys : List String) → same_items xs ys ≡ true → length xs ≡ length ys → xs ≡ ys
unfolding same_items
same_items-eq [] [] h e = refl
same_items-eq [] (y ∷ ys) h e = absurd (omega arith)
same_items-eq (x ∷ xs) [] h e = cc
same_items-eq (x ∷ xs) (y ∷ ys) h e = ground (arith, eq_iff x y, same_items-eq xs ys)

same_items_refl : (xs : List String) → same_items xs xs ≡ true
unfolding same_items
same_items_refl [] = refl
same_items_refl (x ∷ xs) = ground (arith, eq_refl x, same_items_refl xs)

-- Two slices count as equal exactly when one is a permutation of the other: repeated strings must
-- be repeated equally often in both.
pub sets_equal-perm : (a b : List String) → (sets_equal a b ≡ true) ↔ Perm a b
unfolding sets_equal
sets_equal-perm a b = (to_perm, of_perm)
  where
    same_length : (xs : List String) → length (sort_strings xs) ≡ length xs
    same_length xs = length-perm (sort_strings-perm xs)

    to_perm : sets_equal a b ≡ true → Perm a b
    to_perm h =
        let sorted : sort_strings a ≡ sort_strings b =
          same_items-eq (sort_strings a) (sort_strings b) (ground arith)
            (ground (arith, same_length a, same_length b)) in
        Perm.trans (Perm.symm (sort_strings-perm a)) (rw sorted (sort_strings-perm b))

    of_perm : Perm a b → sets_equal a b ≡ true
    of_perm p =
        ground (arith, length-perm p, sort_strings_of_perm p, same_items_refl (sort_strings b))
