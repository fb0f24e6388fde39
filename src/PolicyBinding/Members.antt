-- ===== src/PolicyBinding/Members.antt =====
-- How the policy binding reconciler recognises the identity of a binding.
use minio_operator_ext.Base.{
  String, ◌++◌, ◌≡◌, inl, inr, refl, true, List, [], ◌∷◌, arith, Bool-cases, Bool, not, ◌&&◌, ◌||◌,
  ◌==◌, string_eq, if◌then◌else◌,
}
use minio_operator_ext.Api.{PolicyMapping}
use minio_operator_ext.PolicyBinding.{user_dn, is_mapped}
use text.Mathlib.Text.{starts_with}
use text.Mathlib.TextPositions.{starts_with-append}
use mathlib.Core.List.{◌++◌ as append}

if_not : (a b t : Bool) (x y : String) → t ≡ true → (if a && b && not t then x else y) ≡ y
if_not a b t x y e = grind (arith)

-- The mappings of two pages are searched like one list.
pub is_mapped-append :
    (group user : String) (l m : List PolicyMapping)
    → is_mapped group user (append l m) ≡ (is_mapped group user l || is_mapped group user m)
unfolding is_mapped
is_mapped-append group user [] m = refl
is_mapped-append group user (pm ∷ l) m = grind (arith, is_mapped-append group user l m)

user_dn-prefixed : (base u : String) → starts_with u "cn=" ≡ true → user_dn base u ≡ u
unfolding user_dn
user_dn-prefixed base u e =
    if_not (not (u == "")) (not (base == "")) (starts_with u "cn=") ("cn=" ++ u ++ "," ++ base) u e

-- A name that was completed by the base is not completed again.
pub user_dn-user_dn : (base u : String) → user_dn base (user_dn base u) ≡ user_dn base u
unfolding user_dn
user_dn-user_dn base u =
    elim (Bool-cases (not (u == "") && not (base == "") && not (starts_with u "cn="))) [
      | inl t ↦ rw t (
          user_dn-prefixed base ("cn=" ++ u ++ "," ++ base)
            (starts_with-append "cn=" (u ++ "," ++ base)))
      | inr f ↦ rw (f, f) refl
    ]
