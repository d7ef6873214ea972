-- ===== src/Base/Sort/Laws.antt =====
-- What `sort.Strings` returns depends only on which texts it is given, where they are distinct.
use mathlib.Core.Path.{◌≡◌, refl, ap, sym, ◌∙◌}
use mathlib.Core.Bool.{true, false, ◌||◌}
use mathlib.Core.Logic.{inl, inr}
use mathlib.Core.List.{List, [], ◌∷◌}
use Prim.Native.String.{String}
use native.Mathlib.Omega.{arith}
use text.Mathlib.Text.{◌==◌}
use text.Mathlib.TextEquality.{eq_iff}
use text.Mathlib.TextPositions.{eq_refl}
use flink_on_k8s_operator.Base.Tests.{Bool-cases}
use flink_on_k8s_operator.Base.Lists.{All}
use flink_on_k8s_operator.Base.Dict.{contains, AreDistinct}
use flink_on_k8s_operator.Base.Sort.{
  str_lt, str_lt_irrefl, str_lt_trans, str_lt_total, insert_sorted, sort_strings,
}

abbrev IsBelow : String → List String → Type 0
IsBelow k = All (λ j. str_lt k j ≡ true)

-- Strictly ascending.
abbrev pub IsSorted : List String → Type 0
IsSorted [] = Unit
IsSorted (k ∷ ks) = IsBelow k ks × IsSorted ks

contains-insert_sorted :
    (k j : String) (ks : List String) → contains j (insert_sorted k ks) ≡ (k == j || contains j ks)
unfolding contains insert_sorted
contains-insert_sorted k j [] = refl
contains-insert_sorted k j (i ∷ ks) = ground (arith, contains-insert_sorted k j ks)

pub contains-sort_strings :
    (j : String) (ks : List String) → contains j (sort_strings ks) ≡ contains j ks
unfolding sort_strings contains
contains-sort_strings j [] = refl
contains-sort_strings j (k ∷ ks) =
    rw (contains-insert_sorted k j (sort_strings ks), contains-sort_strings j ks)

IsBelow-trans : (k j : String) (ks : List String) → str_lt k j ≡ true → IsBelow j ks → IsBelow k ks
IsBelow-trans k j [] h below = tt
IsBelow-trans k j (i ∷ ks) h (p, below) = (str_lt_trans k j i h p, IsBelow-trans k j ks h below)

IsBelow-insert_sorted :
    (i k : String) (ks : List String)
    → str_lt i k ≡ true
    → IsBelow i ks
    → IsBelow i (insert_sorted k ks)
unfolding insert_sorted
IsBelow-insert_sorted i k [] h below = (h, tt)
IsBelow-insert_sorted i k (j ∷ ks) h (p, below) =
    ground (arith, IsBelow-insert_sorted i k ks h below)

insert_sorted-IsSorted :
    (k : String) (ks : List String)
    → contains k ks ≡ false
    → IsSorted ks
    → IsSorted (insert_sorted k ks)
unfolding insert_sorted contains
insert_sorted-IsSorted k [] fresh s = (tt, tt)
insert_sorted-IsSorted k (j ∷ ks) fresh (below, s) = elim (Bool-cases (str_lt j k)) [
  | inl less ↦
      rw less
        (IsBelow-insert_sorted j k ks less below, insert_sorted-IsSorted k ks (ground arith) s)
  | inr not_less ↦ elim (Bool-cases (str_lt k j)) [
    | inl less ↦ rw not_less ((less, IsBelow-trans k j ks less below), (below, s))
    | inr neither ↦ cc (fresh, (eq_iff j k).1 (str_lt_total j k not_less neither))
  ]
]

pub sort_strings-IsSorted : (ks : List String) → AreDistinct ks → IsSorted (sort_strings ks)
unfolding sort_strings
sort_strings-IsSorted [] h = tt
sort_strings-IsSorted (k ∷ ks) (fresh, h) =
    insert_sorted-IsSorted k (sort_strings ks) (contains-sort_strings k ks ∙ fresh)
      (sort_strings-IsSorted ks h)

IsBelow-contains :
    (k j : String) (ks : List String) → IsBelow k ks → contains j ks ≡ true → str_lt k j ≡ true
unfolding contains
IsBelow-contains k j [] below h = cc
IsBelow-contains k j (i ∷ ks) (p, below) h =
    ground (arith, eq_iff i j, IsBelow-contains k j ks below)

not_contained : (k : String) (ks : List String) → IsBelow k ks → contains k ks ≡ false
not_contained k ks below = elim (Bool-cases (contains k ks)) [
  | inl c ↦ cc (IsBelow-contains k k ks below c, str_lt_irrefl k)
  | inr n ↦ n
]

contains_head : (k : String) (ks : List String) → contains k (k ∷ ks) ≡ true
unfolding contains
contains_head k ks = rw (eq_refl k)

heads :
    (x y : String) (xs ys : List String)
    → IsBelow x xs
    → IsBelow y ys
    → contains x (y ∷ ys) ≡ true
    → contains y (x ∷ xs) ≡ true
    → x ≡ y
unfolding contains
heads x y xs ys below below' h k = elim (Bool-cases (x == y)) [
  | inl e ↦ (eq_iff x y).0 e
  | inr n ↦ ground (
    arith,
    eq_iff x y,
    eq_iff y x,
    IsBelow-contains x y xs below,
    IsBelow-contains y x ys below',
    str_lt_trans x y x,
    str_lt_irrefl x,
  )
]

SameTexts-tail :
    (x k : String) (xs ys : List String)
    → IsBelow x xs
    → IsBelow x ys
    → contains k (x ∷ xs) ≡ contains k (x ∷ ys)
    → contains k xs ≡ contains k ys
unfolding contains
SameTexts-tail x k xs ys below below' h =
    ground (arith, eq_iff x k, not_contained x xs below, not_contained x ys below')

-- Ascending lists of the same texts are equal.
pub IsSorted-eq :
    (xs ys : List String)
    → IsSorted xs
    → IsSorted ys
    → ((k : String) → contains k xs ≡ contains k ys)
    → xs ≡ ys
IsSorted-eq [] [] s t h = refl
IsSorted-eq [] (y ∷ ys) s t h = unfold contains in cc (contains_head y ys, h y)
IsSorted-eq (x ∷ xs) [] s t h = unfold contains in cc (contains_head x xs, h x)
IsSorted-eq (x ∷ xs) (y ∷ ys) (below, s) (below', t) h =
    let e : x ≡ y =
      heads x y xs ys below below' (cc (h x, contains_head x xs)) (cc (h y, contains_head y ys)) in
    let below'' : IsBelow x ys = rw e below' in
    let same : (k : String) → contains k (x ∷ xs) ≡ contains k (x ∷ ys) =
      λ k. h k ∙ ap (λ z. contains k (z ∷ ys)) (sym e) in
    cc (e, IsSorted-eq xs ys s t (λ k. SameTexts-tail x k xs ys below below'' (same k)))

-- Distinct texts are sorted into one list, in whatever order they are given.
pub sort_strings_unique :
    (xs ys : List String)
    → AreDistinct xs
    → AreDistinct ys
    → ((k : String) → contains k xs ≡ contains k ys)
    → sort_strings xs ≡ sort_strings ys
sort_strings_unique xs ys d d' h =
    IsSorted-eq (sort_strings xs) (sort_strings ys) (sort_strings-IsSorted xs d)
      (sort_strings-IsSorted ys d')
      λ k. contains-sort_strings k xs ∙ h k ∙ sym (contains-sort_strings k ys)
