-- ===== src/Core/Applier/Stages.antt =====
-- What each loop of src/intent_engineering/core/graph/applier.py does to one identity.
use intent_engineer.Base.{
  String, true, not, Option, none, some, List, [], ◌∷◌, map, ◌≡◌, refl, subst, ok_inj, ◌∙◌, ap,
  arith, ◌==◌, eq_iff, if◌then◌else◌, or_else, map_option, Bool-cases, inl, inr, Result, ok, ◌>>=◌,
  >>=-eq-ok, raise_if-eq-ok, is_some, All,
}
use intent_engineer.Base.Texts.{elem, Distinct}
use intent_engineer.Base.Dict.{
  Dict, lookup, contains, insert, find_last, lookup-insert, is_some-find_last,
}
use intent_engineer.Base.Dict.Keyed.{IsKeyed, IsKeyed-insert, name_of_lookup}
use intent_engineer.Core.Applier.{
  ApplyError, duplicate_identity, unknown_identity, key_error, require, add_all, replace_all,
  mark_all, revise_all,
}

-- A required value that was found.
pub require-eq-ok :
    {A B : Type 0} (o : Option A) (e : ApplyError) (k : A → Result ApplyError B) {b : B}
    → (require o e >>= k) ≡ ok b
    → (a : A) × (o ≡ some a) × (k a ≡ ok b)
require-eq-ok none e k h = cc
require-eq-ok (some a) e k h = (a, refl, h)

module _ {V : Type 0} (name : V → String) where
  pub lookup-add_all :
      (k : String) (d : Dict V) (vs : List V) {d' : Dict V}
      → add_all name d vs ≡ ok d'
      → lookup k d' ≡ or_else (find_last name k vs) (lookup k d)
  unfolding add_all
  lookup-add_all k d [] h = ground arith
  lookup-add_all k d (v ∷ vs) h =
      let rest = raise_if-eq-ok (contains (name v) d) (duplicate_identity (name v)) _ h in
      ground (arith, lookup-add_all k (insert (name v) v d) vs rest.1, lookup-insert (name v) k v d)

  pub IsKeyed-add_all :
      (d : Dict V) (vs : List V) {d' : Dict V}
      → add_all name d vs ≡ ok d'
      → IsKeyed name d
      → IsKeyed name d'
  unfolding add_all
  IsKeyed-add_all d [] h keyed = subst (IsKeyed name) (ok_inj h) keyed
  IsKeyed-add_all d (v ∷ vs) h keyed =
      IsKeyed-add_all (insert (name v) v d) vs
        (raise_if-eq-ok (contains (name v) d) (duplicate_identity (name v)) _ h).1
        (IsKeyed-insert name (name v) v d refl keyed)

  -- What is added was not there before.
  pub add_all_fresh :
      (k : String) (d : Dict V) (vs : List V) {d' : Dict V}
      → add_all name d vs ≡ ok d'
      → is_some (find_last name k vs) ≡ true
      → lookup k d ≡ none
  unfolding add_all
  add_all_fresh k d [] h found = cc
  add_all_fresh k d (v ∷ vs) h found =
      let rest = raise_if-eq-ok (contains (name v) d) (duplicate_identity (name v)) _ h in
      elim (Bool-cases (name v == k)) [
        | inl same ↦ ground (arith, rest.0, ap (λ i. lookup i d) ((eq_iff (name v) k).0 same))
        | inr other ↦ ground (
          arith,
          other,
          add_all_fresh k (insert (name v) v d) vs rest.1,
          lookup-insert (name v) k v d,
        )
      ]

module _ {V U : Type 0} (name : U → String) (new : U → V) where
  pub lookup-replace_all :
      (k : String) (d : Dict V) (us : List U) {d' : Dict V}
      → replace_all name new d us ≡ ok d'
      → lookup k d' ≡ or_else (map_option new (find_last name k us)) (lookup k d)
  unfolding replace_all
  lookup-replace_all k d [] h = ground arith
  lookup-replace_all k d (u ∷ us) h =
      let rest = raise_if-eq-ok (not (contains (name u) d)) (unknown_identity (name u)) _ h in
      ground (
        arith,
        lookup-replace_all k (insert (name u) (new u) d) us rest.1,
        lookup-insert (name u) k (new u) d,
      )

module _ {V : Type 0} (mark : V → V) (idem : (v : V) → mark (mark v) ≡ mark v) where
  pub lookup-mark_all :
      (k : String) (d : Dict V) (ks : List String) {d' : Dict V}
      → mark_all mark d ks ≡ ok d'
      → lookup k d' ≡ (if elem k ks then map_option mark (lookup k d) else lookup k d)
  unfolding mark_all
  lookup-mark_all k d [] h = ground arith
  lookup-mark_all k d (j ∷ js) h =
      let (v, found, rest) = require-eq-ok (lookup j d) (unknown_identity j) _ h in
      elim (Bool-cases (j == k)) [
        | inl same ↦ ground (
          arith,
          lookup-mark_all k (insert j (mark v) d) js rest,
          lookup-insert j k (mark v) d,
          same,
          ap (λ i. lookup i d) ((eq_iff j k).0 same),
          found,
          idem v,
        )
        | inr other ↦ ground (
          arith,
          lookup-mark_all k (insert j (mark v) d) js rest,
          lookup-insert j k (mark v) d,
          other,
        )
      ]

module _ {V C : Type 0} (name : C → String) (revise : C → V → Result ApplyError V)
    (final : C → V → V) (revises : (c : C) (v w : V) → revise c v ≡ ok w → w ≡ final c v) where
  pub lookup-revise_all :
      (k : String) (d : Dict V) (cs : List C) {d' : Dict V}
      → revise_all name revise d cs ≡ ok d'
      → Distinct (map name cs)
      → lookup k d' ≡ elim (find_last name k cs) [
        | none ↦ lookup k d
        | some c ↦ map_option (final c) (lookup k d)
      ]
  unfolding revise_all
  lookup-revise_all k d [] h once = ground arith
  lookup-revise_all k d (c ∷ cs) h once =
      let (v, found, more) = require-eq-ok (lookup (name c) d) (key_error (name c)) _ h in
      let (w, revised, rest) = >>=-eq-ok (revise c v) _ more in
      elim (Bool-cases (name c == k)) [
        | inl same ↦ ground (
          arith,
          lookup-revise_all k (insert (name c) w d) cs rest once.1,
          lookup-insert (name c) k w d,
          same,
          ap (λ i. lookup i d) ((eq_iff (name c) k).0 same),
          found,
          revises c v w revised,
          is_some-find_last name k cs,
          ap (λ i. elem i (map name cs)) ((eq_iff (name c) k).0 same),
          once.0,
        )
        | inr other ↦ ground (
          arith,
          lookup-revise_all k (insert (name c) w d) cs rest once.1,
          lookup-insert (name c) k w d,
          other,
        )
      ]

  pub IsKeyed-revise_all :
      (title : V → String)
      → ((c : C) (v : V) → title (final c v) ≡ title v)
      → (d : Dict V) (cs : List C) {d' : Dict V} → revise_all name revise d cs ≡ ok d'
      → IsKeyed title d
      → IsKeyed title d'
  unfolding revise_all
  IsKeyed-revise_all title same d [] h keyed = subst (IsKeyed title) (ok_inj h) keyed
  IsKeyed-revise_all title same d (c ∷ cs) h keyed =
      let (v, found, more) = require-eq-ok (lookup (name c) d) (key_error (name c)) _ h in
      let (w, revised, rest) = >>=-eq-ok (revise c v) _ more in
      IsKeyed-revise_all title same (insert (name c) w d) cs rest (
        IsKeyed-insert title (name c) w d
          (ap title (revises c v w revised)
            ∙ (same c v ∙ name_of_lookup title (name c) v d keyed found))
          keyed)

module _ {V U : Type 0} (title : V → String) (name : U → String) (new : U → V) where
  pub IsKeyed-replace_all :
      (d : Dict V) (us : List U) {d' : Dict V}
      → All (λ u. title (new u) ≡ name u) us
      → replace_all name new d us ≡ ok d'
      → IsKeyed title d
      → IsKeyed title d'
  unfolding replace_all
  IsKeyed-replace_all d [] named h keyed = subst (IsKeyed title) (ok_inj h) keyed
  IsKeyed-replace_all d (u ∷ us) named h keyed =
      IsKeyed-replace_all (insert (name u) (new u) d) us named.1
        (raise_if-eq-ok (not (contains (name u) d)) (unknown_identity (name u)) _ h).1
        (IsKeyed-insert title (name u) (new u) d named.0 keyed)

module _ {V : Type 0} (title : V → String) (mark : V → V)
    (same : (v : V) → title (mark v) ≡ title v) where
  pub IsKeyed-mark_all :
      (d : Dict V) (ks : List String) {d' : Dict V}
      → mark_all mark d ks ≡ ok d'
      → IsKeyed title d
      → IsKeyed title d'
  unfolding mark_all
  IsKeyed-mark_all d [] h keyed = subst (IsKeyed title) (ok_inj h) keyed
  IsKeyed-mark_all d (k ∷ ks) h keyed =
      let (v, found, rest) = require-eq-ok (lookup k d) (unknown_identity k) _ h in
      IsKeyed-mark_all (insert k (mark v) d) ks rest
        (IsKeyed-insert title k (mark v) d (same v ∙ name_of_lookup title k v d keyed found) keyed)
