-- ===== src/Base/Sorted.antt =====
-- `sorted` on texts, and `sorted(set(...))`: ascending, and settled by the members alone.
use package.intent_engineer.Base.Tests.{if◌then◌else◌, Bool-cases}
use package.intent_engineer.Base.Lists.{All}
use package.intent_engineer.Base.Text.{text_le, text_le_total, text_le_trans, text_le_antisymm}
use package.intent_engineer.Base.Texts.{elem, dedup, elem-dedup, Distinct, Distinct-dedup}
use Prim.Native.String.{String}
use mathlib.Core.Path.{◌≡◌, refl, sym, ap₂, subst, ◌∙◌}
use mathlib.Core.Logic.{inl, inr}
use mathlib.Core.Bool.{true, false, ◌||◌}
use mathlib.Core.List.{List, [], ◌∷◌}
use native.Mathlib.Omega.{arith}
use text.Mathlib.Text.{◌==◌}
use text.Mathlib.TextEquality.{eq_iff}
use text.Mathlib.TextPositions.{eq_refl}

unfoldable pub insert_sorted : String → List String → List String
insert_sorted x [] = x ∷ []
insert_sorted x (y ∷ ys) = if text_le x y then x ∷ y ∷ ys else y ∷ insert_sorted x ys

-- `sorted(xs)`
unfoldable pub sort : List String → List String
unfolding insert_sorted
sort [] = []
sort (x ∷ xs) = insert_sorted x (sort xs)

-- `sorted(set(xs))`
unfoldable pub sorted_set : List String → List String
unfolding sort dedup
sorted_set xs = sort (dedup xs)

-- Each text is at most those behind it.
abbrev pub IsAscending : List String → Type 0
IsAscending [] = Unit
IsAscending (x ∷ xs) = All (λ y. text_le x y ≡ true) xs × IsAscending xs

elem-insert_sorted :
    (k x : String) (xs : List String) → elem k (insert_sorted x xs) ≡ (x == k || elem k xs)
unfolding insert_sorted
elem-insert_sorted k x [] = refl
elem-insert_sorted k x (y ∷ ys) = ground (arith, elem-insert_sorted k x ys)

pub elem-sort : (k : String) (xs : List String) → elem k (sort xs) ≡ elem k xs
unfolding sort
elem-sort k [] = refl
elem-sort k (x ∷ xs) = ground (arith, elem-insert_sorted k x (sort xs), elem-sort k xs)

pub elem-sorted_set : (k : String) (xs : List String) → elem k (sorted_set xs) ≡ elem k xs
unfolding sorted_set
elem-sorted_set k xs = elem-sort k (dedup xs) ∙ elem-dedup k xs

All-le_trans :
    (x y : String) (ys : List String)
    → text_le x y ≡ true
    → All (λ z. text_le y z ≡ true) ys
    → All (λ z. text_le x z ≡ true) ys
All-le_trans x y [] h a = tt
All-le_trans x y (z ∷ zs) h a = (text_le_trans x y z h a.0, All-le_trans x y zs h a.1)

All-insert_sorted :
    (w x : String) (xs : List String)
    → text_le w x ≡ true
    → All (λ y. text_le w y ≡ true) xs
    → All (λ y. text_le w y ≡ true) (insert_sorted x xs)
unfolding insert_sorted
All-insert_sorted w x [] h a = (h, tt)
All-insert_sorted w x (y ∷ ys) h a = ground (arith, All-insert_sorted w x ys h a.1)

insert_sorted-IsAscending :
    (x : String) (xs : List String) → IsAscending xs → IsAscending (insert_sorted x xs)
unfolding insert_sorted
insert_sorted-IsAscending x [] a = (tt, tt)
insert_sorted-IsAscending x (y ∷ ys) a = elim (Bool-cases (text_le x y)) [
  | inl le ↦ rw le ((le, All-le_trans x y ys le a.0), a)
  | inr gt ↦
      rw gt
        (All-insert_sorted y x ys (text_le_total x y gt) a.0, insert_sorted-IsAscending x ys a.1)
]

pub sort-IsAscending : (xs : List String) → IsAscending (sort xs)
unfolding sort
sort-IsAscending [] = tt
sort-IsAscending (x ∷ xs) = insert_sorted-IsAscending x (sort xs) (sort-IsAscending xs)

Distinct-insert_sorted :
    (x : String) (xs : List String)
    → elem x xs ≡ false
    → Distinct xs
    → Distinct (insert_sorted x xs)
unfolding insert_sorted
Distinct-insert_sorted x [] n d = (refl, tt)
Distinct-insert_sorted x (y ∷ ys) n d =
    ground (arith, Distinct-insert_sorted x ys, elem-insert_sorted y x ys, eq_iff x y, eq_iff y x)

pub Distinct-sort : (xs : List String) → Distinct xs → Distinct (sort xs)
unfolding sort
Distinct-sort [] d = tt
Distinct-sort (x ∷ xs) d =
    Distinct-insert_sorted x (sort xs) (elem-sort x xs ∙ d.0) (Distinct-sort xs d.1)

pub Distinct-sorted_set : (xs : List String) → Distinct (sorted_set xs)
unfolding sorted_set
Distinct-sorted_set xs = Distinct-sort (dedup xs) (Distinct-dedup xs)

elem_of_All_le :
    (x k : String) (ys : List String)
    → All (λ y. text_le x y ≡ true) ys
    → elem k ys ≡ true
    → text_le x k ≡ true
elem_of_All_le x k [] a h = cc
elem_of_All_le x k (y ∷ ys) a h = ground (arith, eq_iff y k, elem_of_All_le x k ys a.1)

text_le_refl : (s : String) → text_le s s ≡ true
text_le_refl s = elim (Bool-cases (text_le s s)) [ inl le ↦ le | inr gt ↦ text_le_total s s gt ]

head_le :
    (x k : String) (xs : List String)
    → IsAscending (x ∷ xs)
    → elem k (x ∷ xs) ≡ true
    → text_le x k ≡ true
head_le x k xs a h = elim (Bool-cases (x == k)) [
  | inl same ↦ subst (λ y. text_le x y ≡ true) ((eq_iff x k).0 same) (text_le_refl x)
  | inr other ↦ elem_of_All_le x k xs a.0 (rw other at h)
]

-- Ascending lists without repetition that hold the same texts are one list.
pub ascending_ext :
    (xs ys : List String)
    → IsAscending xs
    → IsAscending ys
    → Distinct xs
    → Distinct ys
    → ((k : String) → elem k xs ≡ elem k ys)
    → xs ≡ ys
ascending_ext [] [] a b d e h = refl
ascending_ext [] (y ∷ ys) a b d e h = ground (arith, h y, eq_refl y)
ascending_ext (x ∷ xs) [] a b d e h = ground (arith, h x, eq_refl x)
ascending_ext (x ∷ xs) (y ∷ ys) a b d e h = ap₂ ◌∷◌ same (ascending_ext xs ys a.1 b.1 d.1 e.1 tails)
  where
    same : x ≡ y
    same =
        text_le_antisymm x y (head_le x y xs a (ground (arith, h y, eq_refl y)))
          (head_le y x ys b (ground (arith, h x, eq_refl x)))

    tails : (k : String) → elem k xs ≡ elem k ys
    tails k = elim (Bool-cases (x == k)) [
      | inl e' ↦ ground (arith, same, h k, d.0, e.0, (eq_iff x k).0 e')
      | inr n ↦ ground (arith, same, h k, n)
    ]

-- `sorted(set(...))` depends on nothing but the members.
pub sorted_set_ext :
    (xs ys : List String) → ((k : String) → elem k xs ≡ elem k ys) → sorted_set xs ≡ sorted_set ys
unfolding sorted_set
sorted_set_ext xs ys h =
    ascending_ext (sorted_set xs) (sorted_set ys) (sort-IsAscending (dedup xs))
      (sort-IsAscending (dedup ys)) (Distinct-sorted_set xs) (Distinct-sorted_set ys)
      (λ k. elem-sorted_set k xs ∙ h k ∙ sym (elem-sorted_set k ys))

pub sort-sorted_set : (xs : List String) → sort (sorted_set xs) ≡ sorted_set xs
unfolding sorted_set
sort-sorted_set xs =
    let ys = sort (dedup xs) in
    ascending_ext (sort ys) ys (sort-IsAscending ys) (sort-IsAscending (dedup xs))
      (Distinct-sort ys (Distinct-sorted_set xs)) (Distinct-sorted_set xs) (λ k. elem-sort k ys)
