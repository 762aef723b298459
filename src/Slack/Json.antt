-- ===== src/Slack/Json.antt =====
-- What the client relies on of encoding/json: the values, and how they are read into the fields of a
-- struct. A key is found whatever the case of its ASCII letters; a field that is missing or null
-- keeps its zero value; a value of another type is an error, whose text is shortened here. Objects
-- name each key once.
pub mod Decode
pub mod Encode
use crossplane_provider_slac.Base.{
  ℕ, zero, suc, ◌+◌, ◌^◌, String, Bool, true, false, ◌&&◌, Option, none, some, List, [], ◌∷◌, ◌==◌,
  code, ltb, if◌then◌else◌, nat_eq,
}
use crossplane_provider_slac.Base.Int.{ℤ, pos, negsuc}
use crossplane_provider_slac.Errors.{Error, plain, Result, ok, err}

-- `other_number` is a number that is no integer.
mutual
  pub data Json : Type 0 where
    null : Json
    boolean : Bool → Json
    number : ℤ → Json
    other_number : String → Json
    string : String → Json
    array : Items → Json
    object : Members → Json

  pub data Items : Type 0 where
    nil : Items
    cons : Json → Items → Items

  pub data Members : Type 0 where
    end : Members
    member : String → Json → Members → Members

abbrev pub mismatch : Error
mismatch = plain "json: cannot unmarshal value into Go struct field"

abbrev pub bind : {A B : Type 0} → Result A → (A → Result B) → Result B
bind (ok a) f = f a
bind (err e) f = err e

infixl 5 ◌>>=◌
abbrev pub ◌>>=◌ : {A B : Type 0} → Result A → (A → Result B) → Result B
r >>= f = bind r f

abbrev pub items : Items → List Json
items nil = []
items (cons v vs) = v ∷ items vs

-- An ASCII letter in lower case.
lower : ℕ → ℕ
lower c = if ltb 64 c && ltb c 91 then c + 32 else c

unfoldable pub same_key : String → String → Bool
unfolding lower
same_key String.[] String.[] = true
same_key String.[] (String.◌∷◌ d t) = false
same_key (String.◌∷◌ c s) String.[] = false
same_key (String.◌∷◌ c s) (String.◌∷◌ d t) =
    let rest = same_key s t in if nat_eq (lower (code c)) (lower (code d)) then rest else false

-- The value of a field; null counts as missing.
unfoldable pub field : String → Members → Json
unfolding same_key
field key end = null
field key (member k v ms) = if same_key k key then v else field key ms

-- A struct: an object, or null for its zero value.
unfoldable pub members_of : Json → Result Members
members_of null = ok end
members_of (object ms) = ok ms
members_of _ = err mismatch

unfoldable pub string_of : Json → Result String
string_of null = ok ""
string_of (string s) = ok s
string_of _ = err mismatch

unfoldable pub bool_of : Json → Result Bool
bool_of null = ok false
bool_of (boolean b) = ok b
bool_of _ = err mismatch

abbrev pub is_int64 : ℤ → Bool
is_int64 (pos n) = ltb n (2 ^ 63)
is_int64 (negsuc n) = ltb n (2 ^ 63)

unfoldable pub int64_of : Json → Result ℤ
int64_of null = ok (pos 0)
int64_of (number n) = if is_int64 n then ok n else err mismatch
int64_of _ = err mismatch

module _ {A : Type 0} (read : Json → Result A) where
  unfoldable pub read_all : List Json → Result (List A)
  read_all [] = ok []
  read_all (v ∷ vs) = do a ← read v; as' ← read_all vs; ok (a ∷ as')

  unfoldable pub list_of : Json → Result (List A)
  unfolding read_all
  list_of null = ok []
  list_of (array vs) = read_all (items vs)
  list_of _ = err mismatch
