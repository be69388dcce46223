-- ===== src/Base/Dict/Pairs.antt =====
-- Python's `dict` with pairs of texts for keys.
use package.intent_engineer.Base.Tests.{if◌then◌else◌, Bool-cases}
use package.intent_engineer.Base.Text.{text_le}
use Prim.Native.String.{String}
use mathlib.Core.Path.{◌≡◌, refl, ap}
use mathlib.Core.Logic.{inl, inr}
use mathlib.Core.Bool.{Bool, true, ◌&&◌}
use mathlib.Core.Option.{Option, none, some}
use mathlib.Core.List.{List, [], ◌∷◌}
use native.Mathlib.Omega.{arith}
use text.Mathlib.Text.{◌==◌}
use text.Mathlib.TextEquality.{eq_iff}
use text.Mathlib.TextPositions.{eq_refl}

abbrev pub Key : Type 0
Key = String × String

abbrev pub same_key : Key → Key → Bool
same_key a b = a.0 == b.0 && a.1 == b.1

-- `a <= b`, for pairs
abbrev pub key_le : Key → Key → Bool
key_le a b = if a.0 == b.0 then text_le a.1 b.1 else text_le a.0 b.0

abbrev pub PairDict {ℓ} : Type ℓ → Type ℓ
PairDict Value = List (Key × Value)

pub same_key-eq : (a b : Key) → same_key a b ≡ true → a ≡ b
same_key-eq (a, b) (c, d) h =
    let first : a ≡ c = (eq_iff a c).0 (ground arith) in
    let second : b ≡ d = (eq_iff b d).0 (ground arith) in cc

pub same_key_refl : (a : Key) → same_key a a ≡ true
same_key_refl (a, b) = ground (arith, eq_refl a, eq_refl b)

module _ {ℓ} {V : Type ℓ} where
  -- `d.get(key)`
  abbrev pub lookup_pair : Key → PairDict V → Option V
  lookup_pair key [] = none
  lookup_pair key ((j, v) ∷ rest) = if same_key j key then some v else lookup_pair key rest

  -- `d[key] = v`
  abbrev pub insert_pair : Key → V → PairDict V → PairDict V
  insert_pair key v [] = (key, v) ∷ []
  insert_pair key v ((j, w) ∷ d) =
      let rest = insert_pair key v d in if same_key j key then (j, v) ∷ d else (j, w) ∷ rest

  abbrev pub insert_by_key : Key → V → PairDict V → PairDict V
  insert_by_key key v [] = (key, v) ∷ []
  insert_by_key key v ((j, w) ∷ d) =
      let rest = insert_by_key key v d in
      if key_le key j then (key, v) ∷ (j, w) ∷ d else (j, w) ∷ rest

  -- `sorted(d)`
  abbrev pub sort_by_key : PairDict V → PairDict V
  sort_by_key [] = []
  sort_by_key ((key, v) ∷ d) = insert_by_key key v (sort_by_key d)

  pub lookup_pair-insert_pair :
      (key other : Key) (v : V) (d : PairDict V)
      → lookup_pair other (insert_pair key v d)
        ≡ (if same_key key other then some v else lookup_pair other d)
  lookup_pair-insert_pair key other v [] = refl
  lookup_pair-insert_pair key other v ((j, w) ∷ d) = elim (Bool-cases (same_key j key)) [
    | inl same ↦
        let agree : same_key j other ≡ same_key key other =
          ap (λ k. same_key k other) (same_key-eq j key same) in
        rw same (rw agree (ground arith))
    | inr differs ↦ elim (Bool-cases (same_key key other)) [
      | inl named ↦
          let agree : same_key j key ≡ same_key j other =
            ap (same_key j) (same_key-eq key other named) in
          rw (differs, ← agree, differs) (lookup_pair-insert_pair key other v d)
      | inr unnamed ↦ ground (arith, differs, unnamed, lookup_pair-insert_pair key other v d)
    ]
  ]
