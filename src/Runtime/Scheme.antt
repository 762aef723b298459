-- ===== src/Runtime/Scheme.antt =====
-- What the packages of API types and the programs use of apimachinery's schemes and of the scheme
-- builder of controller-runtime: parameters of the model, with the documented laws.
use mathlib.Core.List.{Memᴰ}
use crossplane_provider_slac.Base.{◌≡◌, String, Bool, true, Option, some, List}

-- schema.GroupVersion
pub record GroupVersion : Type 0 where
  pub group : String
  pub version : String

-- A Go type is registered by its name. Adding to a scheme gives `none` where it returns an error.
pub record SchemeLibrary : Type 1 where
  pub GroupVersionKind : Type 0
  pub Builder : Type 0
  pub Scheme : Type 0
  pub group_kind_text : String → String → String
  pub with_kind : GroupVersion → String → GroupVersionKind
  pub builder : GroupVersion → Builder
  pub register : Builder → List String → Builder
  pub add_to_scheme : Builder → Scheme → Option Scheme
  pub client_go_add_to_scheme : Scheme → Option Scheme
  pub new_scheme : Scheme
  pub recognizes : Scheme → GroupVersionKind → Bool

-- A builder keeps its group version; adding it makes the scheme recognize the types that have been
-- registered, under their names and that group version; and no addition makes it forget.
pub record IsSchemeLawful (S : SchemeLibrary) : Type 0 where
  pub version_of : S.Builder → GroupVersion
  pub version-builder : (gv : GroupVersion) → version_of (S.builder gv) ≡ gv
  pub version-register :
      (b : S.Builder) (names : List String) → version_of (S.register b names) ≡ version_of b
  pub registers :
      (b : S.Builder) (names : List String) (name : String) (s t : S.Scheme)
      → Memᴰ name names
      → S.add_to_scheme (S.register b names) s ≡ some t
      → S.recognizes t (S.with_kind (version_of b) name) ≡ true
  pub registers_also :
      (b : S.Builder) (names : List String) (k : S.GroupVersionKind)
      → ((s t : S.Scheme) → S.add_to_scheme b s ≡ some t → S.recognizes t k ≡ true)
      → (s t : S.Scheme) → S.add_to_scheme (S.register b names) s ≡ some t
      → S.recognizes t k ≡ true
  pub adds_only :
      (b : S.Builder) (k : S.GroupVersionKind) (s t : S.Scheme)
      → S.add_to_scheme b s ≡ some t
      → S.recognizes s k ≡ true
      → S.recognizes t k ≡ true
