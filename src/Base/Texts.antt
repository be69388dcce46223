-- ===== src/Base/Texts.antt =====
-- Lists of texts as Python's tuples and sets use them.
use package.intent_engineer.Base.Tests.{if◌then◌else◌, Bool-cases}
use package.intent_engineer.Base.Lists.{any, keep_if}
use Prim.Native.Nat.{ℕ, suc, ◌≤◌, ◌<◌}
use Prim.Native.String.{String}
use mathlib.Core.Path.{◌≡◌, refl, subst}
use mathlib.Core.Logic.{◌↔◌, inl, inr}
use mathlib.Core.Bool.{Bool, true, false, not, ◌&&◌, ◌||◌}
use mathlib.Core.List.{List, [], ◌∷◌, ◌++◌}
use native.Mathlib.Omega.{arith}
use text.Mathlib.Text.{◌==◌}
use text.Mathlib.TextEquality.{eq_iff}
use text.Mathlib.TextPositions.{eq_refl}

-- `k in xs`
abbrev pub elem : String → List String → Bool
elem k [] = false
elem k (x ∷ xs) = x == k || elem k xs

-- `xs.count(k)`
abbrev pub count : String → List String → ℕ
count k [] = 0
count k (x ∷ xs) = if x == k then suc (count k xs) else count k xs

-- `xs` without `k`
abbrev pub remove : String → List String → List String
remove k [] = []
remove k (x ∷ xs) = if x == k then remove k xs else x ∷ remove k xs

-- `dict.fromkeys(xs)`: each text once, where it first stands.
unfoldable pub dedup : List String → List String
dedup [] = []
dedup (x ∷ xs) = x ∷ remove x (dedup xs)

-- `not set(xs).isdisjoint(ys)`
abbrev pub intersects : List String → List String → Bool
intersects xs ys = any (λ x. elem x ys) xs

-- `len(xs) == len(set(xs))`
abbrev pub is_distinct : List String → Bool
is_distinct [] = true
is_distinct (x ∷ xs) = not (elem x xs) && is_distinct xs

-- No text stands twice.
abbrev pub Distinct : List String → Type 0
Distinct [] = Unit
Distinct (x ∷ xs) = (elem x xs ≡ false) × Distinct xs

pub is_distinct_iff : (xs : List String) → (is_distinct xs ≡ true) ↔ Distinct xs
is_distinct_iff [] = (λ h. tt, λ h. refl)
is_distinct_iff (x ∷ xs) = ground (arith, is_distinct_iff xs)

pub elem-append : (k : String) (xs ys : List String) → elem k (xs ++ ys) ≡ (elem k xs || elem k ys)
elem-append k [] ys = refl
elem-append k (x ∷ xs) ys = ground (arith, elem-append k xs ys)

pub elem-remove :
    (k j : String) (xs : List String) → elem k (remove j xs) ≡ (if j == k then false else elem k xs)
elem-remove k j [] = ground arith
elem-remove k j (x ∷ xs) = ground (arith, elem-remove k j xs, eq_iff x k, eq_iff x j, eq_iff j k)

pub elem-dedup : (k : String) (xs : List String) → elem k (dedup xs) ≡ elem k xs
unfolding dedup
elem-dedup k [] = refl
elem-dedup k (x ∷ xs) = ground (arith, elem-dedup k xs, elem-remove k x (dedup xs))

Distinct-remove : (k : String) (xs : List String) → Distinct xs → Distinct (remove k xs)
Distinct-remove k [] d = tt
Distinct-remove k (x ∷ xs) d = ground (arith, Distinct-remove k xs d.1, elem-remove x k xs)

pub Distinct-dedup : (xs : List String) → Distinct (dedup xs)
unfolding dedup
Distinct-dedup [] = tt
Distinct-dedup (x ∷ xs) = (
  ground (arith, elem-remove x x (dedup xs), eq_refl x),
  Distinct-remove x (dedup xs) (Distinct-dedup xs),
)

pub elem-keep_if :
    (test : String → Bool) (k : String) (xs : List String)
    → elem k (keep_if test xs) ≡ (elem k xs && test k)
elem-keep_if test k [] = refl
elem-keep_if test k (x ∷ xs) = elim (Bool-cases (x == k)) [
  | inl same ↦
      rw (← (eq_iff x k).0 same, eq_refl x) (ground (arith, elem-keep_if test x xs, eq_refl x))
  | inr other ↦ ground (arith, other, elem-keep_if test k xs)
]

pub nil_of_elem : (xs : List String) → ((k : String) → elem k xs ≡ false) → xs ≡ []
nil_of_elem [] h = refl
nil_of_elem (x ∷ xs) h = ground (arith, h x, eq_refl x)

pub count-eq-zero : (k : String) (xs : List String) → elem k xs ≡ false → count k xs ≡ 0
count-eq-zero k [] h = refl
count-eq-zero k (x ∷ xs) h = ground (arith, count-eq-zero k xs)

elem_of_count : (k : String) (xs : List String) → elem k xs ≡ true → 0 < count k xs
elem_of_count k [] h = cc
elem_of_count k (x ∷ xs) h = ground (arith, elem_of_count k xs)

pub count-le-one : (k : String) (xs : List String) → Distinct xs → count k xs ≤ 1
count-le-one k [] d = omega arith
count-le-one k (x ∷ xs) d = elim (Bool-cases (x == k)) [
  | inl same ↦
      ground
        (arith, same, count-eq-zero k xs (subst (λ j. elem j xs ≡ false) ((eq_iff x k).0 same) d.0))
  | inr other ↦ ground (arith, other, count-le-one k xs d.1)
]

pub Distinct-of_count : (xs : List String) → ((k : String) → count k xs ≤ 1) → Distinct xs
Distinct-of_count [] h = tt
Distinct-of_count (x ∷ xs) h = (
  elim (Bool-cases (elem x xs)) [
    | inl twice ↦ absurd (ground (arith, h x, eq_refl x, elem_of_count x xs twice))
    | inr once ↦ once
  ],
  Distinct-of_count xs (λ k. ground (arith, h k)),
)

-- No text stands in both lists.
abbrev pub Apart : List String → List String → Type 0
Apart xs ys = (k : String) → elem k xs ≡ true → elem k ys ≡ false

pub intersects_iff : (xs ys : List String) → (intersects xs ys ≡ false) ↔ Apart xs ys
intersects_iff [] ys = (λ h k e. cc, λ h. refl)
intersects_iff (x ∷ xs) ys = (
  λ h k e. elim (Bool-cases (x == k)) [
    | inl same ↦ subst (λ j. elem j ys ≡ false) ((eq_iff x k).0 same) (ground arith)
    | inr other ↦ (intersects_iff xs ys).0 (ground arith) k (ground arith)
  ],
  λ h. ground (arith, h x, eq_refl x, (intersects_iff xs ys).1 (λ k e. h k (ground arith))),
)
