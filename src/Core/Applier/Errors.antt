-- ===== src/Core/Applier/Errors.antt =====
-- Rules for the outcomes of the loops of src/intent_engineering/core/graph/applier.py: which raise
-- no `KeyError`, and that no loop drops a key.
use intent_engineer.Base.{
  String, Bool, true, false, not, Option, none, some, List, [], ◌∷◌, ◌≡◌, refl, arith, Result, ok,
  err, ◌>>=◌, ◌>>◌, raise_if, All, Option-cases, inl, inr,
}
use intent_engineer.Base.Dict.{Dict, lookup, contains, insert, lookup-insert}
use intent_engineer.Core.Graph.{GraphError}
use intent_engineer.Core.Applier.{
  ApplyError, key_error, unknown_identity, duplicate_identity, of_graph, require, add_all,
  replace_all, mark_all, revise_all,
}

abbrev pub IsNoKeyError : ApplyError → Type 0
IsNoKeyError (key_error k) = ⊥
IsNoKeyError e = Unit

-- The outcome is no `KeyError`, and a value that was returned satisfies `P`.
abbrev pub Ensures : {A : Type 0} → (A → Type 0) → Result ApplyError A → Type 0
Ensures P (ok a) = P a
Ensures P (err e) = IsNoKeyError e

module _ {A : Type 0} where
  pub Ensures-bind :
      {B : Type 0} (P : A → Type 0) (Q : B → Type 0) (m : Result ApplyError A)
      (f : A → Result ApplyError B)
      → Ensures P m
      → ((a : A) → P a → Ensures Q (f a))
      → Ensures Q (m >>= f)
  Ensures-bind P Q (ok a) f h k = k a h
  Ensures-bind P Q (err e) f h k = h

  pub Ensures-weaken :
      (P Q : A → Type 0) (m : Result ApplyError A)
      → ((a : A) → P a → Q a)
      → Ensures P m
      → Ensures Q m
  Ensures-weaken P Q (ok a) k h = k a h
  Ensures-weaken P Q (err e) k h = h

  pub Ensures-require :
      (o : Option A) (e : ApplyError) → IsNoKeyError e → Ensures (λ a. o ≡ some a) (require o e)
  Ensures-require none e h = h
  Ensures-require (some a) e h = refl

  pub Ensures-of_graph : (m : Result GraphError A) → Ensures (λ _. Unit {0}) (of_graph m)
  Ensures-of_graph (ok a) = tt
  Ensures-of_graph (err e) = tt

  -- A check before the rest.
  pub Ensures-guard :
      (P : A → Type 0) (b : Bool) (e : ApplyError) (k : Result ApplyError A)
      → IsNoKeyError e
      → Ensures P k
      → Ensures P (raise_if b e >> k)
  Ensures-guard P true e k h r = h
  Ensures-guard P false e k h r = r

-- Every key of the one dict is a key of the other.
abbrev pub Extends : {V : Type 0} → Dict V → Dict V → Type 0
Extends d d' = (k : String) → contains k d ≡ true → contains k d' ≡ true

module _ {V : Type 0} where
  pub Extends-insert : (d : Dict V) (k : String) (v : V) → Extends d (insert k v d)
  Extends-insert d k v j h = ground (arith, lookup-insert k j v d)

  -- A loop that goes on from `d` with one entry written.
  pub after_insert :
      (d : Dict V) (k : String) (v : V) (m : Result ApplyError (Dict V))
      → Ensures (Extends (insert k v d)) m
      → Ensures (Extends d) m
  after_insert d k v m h =
      Ensures-weaken (Extends (insert k v d)) (Extends d) m
        (λ d' e j c. e j (Extends-insert d k v j c)) h

  pub Ensures-add_all :
      (name : V → String) (d : Dict V) (vs : List V) → Ensures (Extends d) (add_all name d vs)
  unfolding add_all
  Ensures-add_all name d [] = λ k h. h
  Ensures-add_all name d (v ∷ vs) =
      Ensures-guard (Extends d) (contains (name v) d) (duplicate_identity (name v)) _ tt
        (after_insert d (name v) v _ (Ensures-add_all name (insert (name v) v d) vs))

  pub Ensures-replace_all :
      {U : Type 0} (name : U → String) (new : U → V) (d : Dict V) (us : List U)
      → Ensures (Extends d) (replace_all name new d us)
  unfolding replace_all
  Ensures-replace_all name new d [] = λ k h. h
  Ensures-replace_all name new d (u ∷ us) =
      Ensures-guard (Extends d) (not (contains (name u) d)) (unknown_identity (name u)) _ tt (
        after_insert d (name u) (new u) _
          (Ensures-replace_all name new (insert (name u) (new u) d) us))

  pub Ensures-mark_all :
      (mark : V → V) (d : Dict V) (ks : List String) → Ensures (Extends d) (mark_all mark d ks)
  unfolding mark_all
  Ensures-mark_all mark d [] = λ k h. h
  Ensures-mark_all mark d (k ∷ ks) =
      Ensures-bind (λ v. lookup k d ≡ some v) (Extends d)
        (require (lookup k d) (unknown_identity k)) _
        (Ensures-require (lookup k d) (unknown_identity k) tt)
        (λ v found. after_insert d k (mark v) _ (Ensures-mark_all mark (insert k (mark v) d) ks))

  -- The subjects are keys of the dict.
  abbrev pub ArePresent : {C : Type 0} → (C → String) → Dict V → List C → Type 0
  ArePresent name d = All (λ c. contains (name c) d ≡ true)

  pub ArePresent-extend :
      {C : Type 0} (name : C → String) (d d' : Dict V) (cs : List C)
      → Extends d d'
      → ArePresent name d cs
      → ArePresent name d' cs
  ArePresent-extend name d d' [] e h = tt
  ArePresent-extend name d d' (c ∷ cs) e h = (e (name c) h.0, ArePresent-extend name d d' cs e h.1)

  pub Ensures-revise_all :
      {C : Type 0} (name : C → String) (revise : C → V → Result ApplyError V)
      → ((c : C) (v : V) → Ensures (λ _. Unit {0}) (revise c v))
      → (d : Dict V) (cs : List C) → ArePresent name d cs
      → Ensures (Extends d) (revise_all name revise d cs)
  unfolding revise_all
  Ensures-revise_all name revise safe d [] present = λ k h. h
  Ensures-revise_all name revise safe d (c ∷ cs) present = elim (Option-cases (lookup (name c) d)) [
    | inl missing ↦ absurd (ground (arith, missing, present.0))
    | inr (v, found) ↦ rw found (
        Ensures-bind (λ _. Unit {0}) (Extends d) (revise c v) _ (safe c v)
          (λ w _. after_insert d (name c) w _ (
            Ensures-revise_all name revise safe (insert (name c) w d) cs (
              ArePresent-extend name d (insert (name c) w d) cs (Extends-insert d (name c) w)
                present.1))))
  ]
