-- ===== src/Base/Dict/Keyed.antt =====
-- Dicts whose entries stand under their own names, `{item.id: item for item in items}`.
use package.intent_engineer.Base.Tests.{if◌then◌else◌, Bool-cases, Option-cases}
use package.intent_engineer.Base.Texts.{elem}
use package.intent_engineer.Base.Sorted.{sort, elem-sort}
use package.intent_engineer.Base.Dict.{
  Dict, lookup, contains, insert, keys, index_onto, find_last, pick, sorted_values, elem-keys,
}
use Prim.Native.String.{String}
use mathlib.Core.Path.{◌≡◌, refl, sym, ap, ◌∙◌}
use mathlib.Core.Logic.{inl, inr}
use mathlib.Core.Bool.{true}
use mathlib.Core.Option.{none, some}
use mathlib.Core.List.{List, [], ◌∷◌, map}
use native.Mathlib.Omega.{arith}
use text.Mathlib.Text.{◌==◌}
use text.Mathlib.TextEquality.{eq_iff}
use text.Mathlib.TextPositions.{eq_refl}

module _ {ℓ} {V : Type ℓ} (name : V → String) where
  -- Every entry stands under its own name.
  abbrev pub IsKeyed : Dict V → Type 0
  IsKeyed [] = Unit
  IsKeyed ((k, v) ∷ d) = (name v ≡ k) × IsKeyed d

  pub IsKeyed-insert :
      (k : String) (v : V) (d : Dict V) → name v ≡ k → IsKeyed d → IsKeyed (insert k v d)
  IsKeyed-insert k v [] e h = (e, tt)
  IsKeyed-insert k v ((j, w) ∷ d) e h = ground (arith, eq_iff j k, IsKeyed-insert k v d e h.1)

  pub IsKeyed-index_onto : (d : Dict V) (vs : List V) → IsKeyed d → IsKeyed (index_onto name d vs)
  unfolding index_onto
  IsKeyed-index_onto d [] h = h
  IsKeyed-index_onto d (v ∷ vs) h =
      IsKeyed-index_onto (insert (name v) v d) vs (IsKeyed-insert (name v) v d refl h)

  pub name_of_lookup :
      (k : String) (v : V) (d : Dict V) → IsKeyed d → lookup k d ≡ some v → name v ≡ k
  name_of_lookup k v [] h e = cc
  name_of_lookup k v ((j, w) ∷ d) h e = ground (arith, eq_iff j k, name_of_lookup k v d h.1)

  -- Picking by names, and then looking for a name, is looking it up.
  pub find_last-pick :
      (d : Dict V) (k : String) (ks : List String)
      → IsKeyed d
      → find_last name k (pick d ks) ≡ (if elem k ks then lookup k d else none)
  unfolding pick
  find_last-pick d k [] h = refl
  find_last-pick d k (j ∷ ks) h = elim (Option-cases (lookup j d)) [
    | inl missing ↦ elim (Bool-cases (j == k)) [
      | inl same ↦ ground (
        arith,
        missing,
        find_last-pick d k ks h,
        (eq_iff j k).0 same,
        ap (λ i. lookup i d) ((eq_iff j k).0 same),
      )
      | inr other ↦ ground (arith, missing, other, find_last-pick d k ks h)
    ]
    | inr (v, found) ↦ elim (Bool-cases (j == k)) [
      | inl same ↦ ground (
        arith,
        found,
        find_last-pick d k ks h,
        name_of_lookup j v d h found,
        ap (λ i. lookup i d) ((eq_iff j k).0 same),
        same,
        ap (λ i. i == k) (name_of_lookup j v d h found),
      )
      | inr other ↦ ground (
        arith,
        found,
        find_last-pick d k ks h,
        other,
        ap (λ i. i == k) (name_of_lookup j v d h found),
      )
    ]
  ]

  pub names-pick :
      (d : Dict V) (ks : List String)
      → IsKeyed d
      → ((k : String) → elem k ks ≡ true → contains k d ≡ true)
      → map name (pick d ks) ≡ ks
  unfolding pick
  names-pick d [] h present = refl
  names-pick d (j ∷ ks) h present = elim (Option-cases (lookup j d)) [
    | inl missing ↦ ground (arith, missing, present j (ground (arith, eq_refl j)))
    | inr (v, found) ↦ ground (
      arith,
      found,
      name_of_lookup j v d h found,
      names-pick d ks h (λ k e. present k (ground (arith, e))),
    )
  ]

  pub names-sorted_values : (d : Dict V) → IsKeyed d → map name (sorted_values d) ≡ sort (keys d)
  unfolding sorted_values
  names-sorted_values d h =
      names-pick d (sort (keys d)) h (λ k e. sym (elem-keys k d) ∙ (sym (elem-sort k (keys d)) ∙ e))

  pub find_last-sorted_values :
      (d : Dict V) (k : String) → IsKeyed d → find_last name k (sorted_values d) ≡ lookup k d
  unfolding sorted_values
  find_last-sorted_values d k h =
      find_last-pick d k (sort (keys d)) h ∙ ground (arith, elem-sort k (keys d), elem-keys k d)
