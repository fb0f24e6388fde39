-- ===== src/Policy/Order.antt =====
-- The order of strings by which the hashes sort, and that sorting forgets the order of a list.
use Prim.Native.Char.{Char, code}
use text.Mathlib.TextEquality.{codes_equal}
use mathlib.Core.HLevel.{hedberg}
use mathlib.Core.Logic.{∥∥₁_elim}
use mathlib.Core.List.{Perm, Permᴰ}
use mathlib.Core.List.Permᴰ
use minio_operator_ext.Base.{
  String, ◌≡◌, refl, true, false, List, [], ◌∷◌, ltb, arith, ◌∙◌, string-discrete,
}
use minio_operator_ext.Policy.Hash.{text_leb, insert, sort}

pub text_leb-total : (a b : String) → text_leb a b ≡ false → text_leb b a ≡ true
unfolding text_leb
text_leb-total String.[] b e = cc
text_leb-total (String.◌∷◌ c s) String.[] e = refl
text_leb-total (String.◌∷◌ c s) (String.◌∷◌ d t) e = grind (arith, text_leb-total s t)

text_leb_trans : (a b c : String) → text_leb a b ≡ true → text_leb b c ≡ true → text_leb a c ≡ true
unfolding text_leb
text_leb_trans String.[] b c p q = refl
text_leb_trans (String.◌∷◌ x s) String.[] c p q = cc
text_leb_trans (String.◌∷◌ x s) (String.◌∷◌ y t) String.[] p q = cc
text_leb_trans (String.◌∷◌ x s) (String.◌∷◌ y t) (String.◌∷◌ z u) p q =
    grind (arith, text_leb_trans s t u)

codes_between : (c d : Char) → ltb (code c) (code d) ≡ false → ltb (code d) (code c) ≡ false → c ≡ d
codes_between c d p q = codes_equal c d (grind arith)

text_leb-antisym : (a b : String) → text_leb a b ≡ true → text_leb b a ≡ true → a ≡ b
unfolding text_leb
text_leb-antisym String.[] String.[] p q = refl
text_leb-antisym String.[] (String.◌∷◌ d t) p q = cc
text_leb-antisym (String.◌∷◌ c s) String.[] p q = cc
text_leb-antisym (String.◌∷◌ c s) (String.◌∷◌ d t) p q =
    grind (arith, codes_between c d, text_leb-antisym s t)

insert-insert : (x y : String) (l : List String) → insert x (insert y l) ≡ insert y (insert x l)
unfolding insert
insert-insert x y [] = grind (arith, text_leb-total x y, text_leb-antisym x y)
insert-insert x y (z ∷ l) = grind (
  arith,
  insert-insert x y l,
  text_leb-total x y,
  text_leb-antisym x y,
  text_leb_trans x y z,
  text_leb_trans y x z,
)

sort-Permᴰ : {l m : List String} → Permᴰ l m → sort l ≡ sort m
unfolding sort
sort-Permᴰ Permᴰ.nil = refl
sort-Permᴰ (Permᴰ.cons e d) = rw e (rw (sort-Permᴰ d) refl)
sort-Permᴰ (Permᴰ.swap {a} {b} {l = l} e f) = rw⁻¹ e (rw⁻¹ f (insert-insert a b (sort l)))
sort-Permᴰ (Permᴰ.trans d d') = sort-Permᴰ d ∙ sort-Permᴰ d'

pub sort-Perm : (l m : List String) → Perm l m → sort l ≡ sort m
sort-Perm l m p =
    ∥∥₁_elim p (mathlib.Core.List.is_set (hedberg string-discrete) (sort l) (sort m)) sort-Permᴰ
