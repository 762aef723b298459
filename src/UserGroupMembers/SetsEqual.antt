-- ===== src/UserGroupMembers/SetsEqual.antt =====
-- setsEqual, internal/controller/usergroupmembers/usergroupmembers.go, with sort.Strings.
pub mod Order
pub mod Sorted
use crossplane_provider_slac.Base.{
  String, code, Bool, true, false, not, List, [], ◌∷◌, ltb, nat_eq, ◌==◌, if◌then◌else◌,
}
use crossplane_provider_slac.Base.Lists.{length}

-- The order of Go's strings.
pub text_le : String → String → Bool
text_le String.[] t = true
text_le (String.◌∷◌ c s) String.[] = false
text_le (String.◌∷◌ c s) (String.◌∷◌ d t) =
    let rest = text_le s t in
    if ltb (code c) (code d) then true else if ltb (code d) (code c) then false else rest

insert_sorted : String → List String → List String
unfolding text_le
insert_sorted x [] = x ∷ []
insert_sorted x (y ∷ ys) =
    let rest = insert_sorted x ys in if text_le x y then x ∷ y ∷ ys else y ∷ rest

-- sort.Strings: the strings in increasing order.
pub sort_strings : List String → List String
unfolding insert_sorted
sort_strings [] = []
sort_strings (x ∷ xs) = insert_sorted x (sort_strings xs)

-- The loop over the indices of both slices, which have one length.
same_items : List String → List String → Bool
same_items [] ys = true
same_items (x ∷ xs) [] = false
same_items (x ∷ xs) (y ∷ ys) = let rest = same_items xs ys in if not (x == y) then false else rest

unfoldable pub sets_equal : List String → List String → Bool
unfolding sort_strings same_items
sets_equal a b =
    if not (nat_eq (length a) (length b))
    then false
    else same_items (sort_strings a) (sort_strings b)
