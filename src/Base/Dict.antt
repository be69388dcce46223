-- ===== src/Base/Dict.antt =====
-- Python's `dict` with texts for keys: an association list in the order of first insertion.
pub mod Keyed
pub mod Pairs
use package.intent_engineer.Base.Tests.{if◌then◌else◌, is_some}
use package.intent_engineer.Base.Texts.{elem, Distinct}
use package.intent_engineer.Base.Sorted.{sort}
use Prim.Native.String.{String}
use mathlib.Core.Path.{◌≡◌, refl}
use mathlib.Core.Bool.{Bool, ◌||◌}
use mathlib.Core.Option.{Option, none, some}
use mathlib.Core.List.{List, [], ◌∷◌, map}
use native.Mathlib.Omega.{arith}
use text.Mathlib.Text.{◌==◌}
use text.Mathlib.TextEquality.{eq_iff}

abbrev pub Dict {ℓ} : Type ℓ → Type ℓ
Dict Value = List (String × Value)

module _ {ℓ} {V : Type ℓ} where
  -- `list(d)`
  abbrev pub keys : Dict V → List String
  keys [] = []
  keys ((k, v) ∷ d) = k ∷ keys d

  -- `d.get(k)`
  abbrev pub lookup : String → Dict V → Option V
  lookup key [] = none
  lookup key ((j, v) ∷ rest) = if j == key then some v else lookup key rest

  -- `k in d`
  abbrev pub contains : String → Dict V → Bool
  contains k d = is_some (lookup k d)

  -- `d[k] = v`
  abbrev pub insert : String → V → Dict V → Dict V
  insert k v [] = (k, v) ∷ []
  insert k v ((j, w) ∷ d) = if j == k then (j, v) ∷ d else (j, w) ∷ insert k v d

  -- `list(d.values())`
  abbrev pub values : Dict V → List V
  values [] = []
  values ((k, v) ∷ d) = v ∷ values d

  -- `{name(v): v for v in vs}` on top of `d`
  unfoldable pub index_onto : (V → String) → Dict V → List V → Dict V
  index_onto name d [] = d
  index_onto name d (v ∷ vs) = index_onto name (insert (name v) v d) vs

  pub lookup-insert :
      (k j : String) (v : V) (d : Dict V)
      → lookup j (insert k v d) ≡ (if k == j then some v else lookup j d)
  lookup-insert k j v [] = refl
  lookup-insert k j v ((i, w) ∷ d) =
      ground (arith, eq_iff k j, eq_iff i k, eq_iff i j, lookup-insert k j v d)

  pub elem-keys : (k : String) (d : Dict V) → elem k (keys d) ≡ contains k d
  elem-keys k [] = refl
  elem-keys k ((j, v) ∷ d) = ground (arith, elem-keys k d)

  pub elem-keys-insert :
      (j k : String) (v : V) (d : Dict V)
      → elem j (keys (insert k v d)) ≡ (k == j || elem j (keys d))
  elem-keys-insert j k v [] = refl
  elem-keys-insert j k v ((i, w) ∷ d) =
      ground (arith, eq_iff k j, eq_iff i k, eq_iff i j, elem-keys-insert j k v d)

  pub Distinct-insert :
      (k : String) (v : V) (d : Dict V) → Distinct (keys d) → Distinct (keys (insert k v d))
  Distinct-insert k v [] h = (refl, tt)
  Distinct-insert k v ((i, w) ∷ d) h =
      ground (arith, eq_iff k i, eq_iff i k, elem-keys-insert i k v d, Distinct-insert k v d h.1)

  pub Distinct-index_onto :
      (name : V → String) (d : Dict V) (vs : List V)
      → Distinct (keys d)
      → Distinct (keys (index_onto name d vs))
  unfolding index_onto
  Distinct-index_onto name d [] h = h
  Distinct-index_onto name d (v ∷ vs) h =
      Distinct-index_onto name (insert (name v) v d) vs (Distinct-insert (name v) v d h)

  -- The last item of that name.
  abbrev pub find_last : (V → String) → String → List V → Option V
  find_last name k [] = none
  find_last name k (v ∷ vs) = elim (find_last name k vs) [
    | some w ↦ some w
    | none ↦ if name v == k then some v else none
  ]

  pub lookup-index_onto :
      (name : V → String) (k : String) (d : Dict V) (vs : List V)
      → lookup k (index_onto name d vs)
        ≡ elim (find_last name k vs) [ some v ↦ some v | none ↦ lookup k d ]
  unfolding index_onto
  lookup-index_onto name k d [] = refl
  lookup-index_onto name k d (v ∷ vs) =
      ground
        (arith, lookup-index_onto name k (insert (name v) v d) vs, lookup-insert (name v) k v d)

  -- `d[k] for k in ks`
  unfoldable pub pick : Dict V → List String → List V
  pick d [] = []
  pick d (k ∷ ks) = elim (lookup k d) [ none ↦ pick d ks | some v ↦ v ∷ pick d ks ]

  -- `d[key] for key in sorted(d)`
  unfoldable pub sorted_values : Dict V → List V
  unfolding pick sort
  sorted_values d = pick d (sort (keys d))

module _ {ℓ} {V : Type ℓ} where
  pub is_some-find_last :
      (name : V → String) (k : String) (vs : List V)
      → is_some (find_last name k vs) ≡ elem k (map name vs)
  is_some-find_last name k [] = refl
  is_some-find_last name k (v ∷ vs) = ground (arith, is_some-find_last name k vs)
