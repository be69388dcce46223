-- ===== src/Storage/Evidence/Access.antt =====
-- What the access checks of src/intent_engineering/core/policy/access.py and the prefix test of
-- src/intent_engineering/core/models/evidence.py decide.
use intent_engineer.Base.{
  String, Bool, true, some, List, [], ◌∷◌, ◌++◌, ◌≡◌, ◌↔◌, ◌⊎◌, inl, inr, refl, ap, ◌∙◌, arith, All,
  all, is_empty, Bool-cases, Option-cases, eq_iff, eq_refl,
}
use intent_engineer.Base.Texts.{elem, intersects, intersects_iff}
use intent_engineer.Base.Dict.{index_onto, find_last, lookup-index_onto}
use intent_engineer.Storage.Evidence.{
  EvidenceRecord, Actor, principals, evidence_allowed, refs_allowed, ref_allowed,
  is_exact_consumed_prefix, same_texts,
}

pub same_texts-eq : (xs ys : List String) → same_texts xs ys ≡ true → xs ≡ ys
same_texts-eq [] [] h = refl
same_texts-eq [] (y ∷ ys) h = cc
same_texts-eq (x ∷ xs) [] h = cc
same_texts-eq (x ∷ xs) (y ∷ ys) h =
    let tail = same_texts-eq xs ys (ground (arith, h)) in
    let head = (eq_iff x y).0 (ground (arith, h)) in λ i. head i ∷ tail i

pub same_texts_refl : (xs : List String) → same_texts xs xs ≡ true
same_texts_refl [] = refl
same_texts_refl (x ∷ xs) = rw (eq_refl x, same_texts_refl xs) refl

prefix_of_take :
    (xs ys : List String)
    → is_exact_consumed_prefix xs ys ≡ true
    → (rest : List String) × (ys ≡ xs ++ rest)
unfolding is_exact_consumed_prefix
prefix_of_take [] ys h = (ys, refl)
prefix_of_take (x ∷ xs) [] h = absurd (ground arith)
prefix_of_take (x ∷ xs) (y ∷ ys) h =
    let (rest, e) = prefix_of_take xs ys (ground arith) in (rest, ground (arith, eq_iff x y, e))

take_of_prefix : (xs rest : List String) → is_exact_consumed_prefix xs (xs ++ rest) ≡ true
unfolding is_exact_consumed_prefix
take_of_prefix [] rest = ground arith
take_of_prefix (x ∷ xs) rest = ground (arith, eq_refl x, take_of_prefix xs rest)

-- `is_exact_consumed_prefix` accepts exactly the consumptions that the ledger continues.
pub is_exact_consumed_prefix_iff :
    (consumed ledger : List String)
    → (is_exact_consumed_prefix consumed ledger ≡ true)
      ↔ ((rest : List String) × (ledger ≡ consumed ++ rest))
is_exact_consumed_prefix_iff consumed ledger = (
  prefix_of_take consumed ledger,
  λ w. ap (is_exact_consumed_prefix consumed) w.1 ∙ take_of_prefix consumed w.0,
)

-- The evidence is public, or lists one of the names.
abbrev pub MayRead : EvidenceRecord → List String → Type 0
MayRead e names = (e.acl ≡ []) ⊎ ((k : String) × (elem k e.acl ≡ true) × (elem k names ≡ true))

-- The record under a reference, the last one of that identity, is there and may be read.
abbrev pub IsReadable : List EvidenceRecord → Actor → String → Type 0
IsReadable records actor k =
    (e : EvidenceRecord) × (find_last (λ x. x.id) k records ≡ some e) × MayRead e (principals actor)

shared_of_intersects :
    (xs ys : List String)
    → intersects xs ys ≡ true
    → (k : String) × (elem k xs ≡ true) × (elem k ys ≡ true)
shared_of_intersects [] ys h = cc
shared_of_intersects (x ∷ xs) ys h = elim (Bool-cases (elem x ys)) [
  | inl here ↦ (x, ground (arith, eq_refl x), here)
  | inr there ↦ let (k, e, f) = shared_of_intersects xs ys (ground arith) in (k, ground arith, f)
]

intersects_of_shared :
    (xs ys : List String) (k : String)
    → elem k xs ≡ true
    → elem k ys ≡ true
    → intersects xs ys ≡ true
intersects_of_shared xs ys k e f = elim (Bool-cases (intersects xs ys)) [
  | inl shared ↦ shared
  | inr apart ↦ ground (arith, (intersects_iff xs ys).0 apart k e)
]

nil_of_empty : (xs : List String) → is_empty xs ≡ true → xs ≡ []
nil_of_empty [] h = refl
nil_of_empty (x ∷ xs) h = cc

pub evidence_allowed_iff :
    (e : EvidenceRecord) (actor : Actor)
    → (evidence_allowed e actor ≡ true) ↔ MayRead e (principals actor)
unfolding evidence_allowed
evidence_allowed_iff e actor = (
  λ h. elim (Bool-cases (is_empty e.acl)) [
    | inl public ↦ inl (nil_of_empty e.acl public)
    | inr listed ↦ inr (shared_of_intersects e.acl (principals actor) (ground arith))
  ],
  λ r. elim r [
    | inl public ↦ rw (public) refl
    | inr (k, a, b) ↦ ground (arith, intersects_of_shared e.acl (principals actor) k a b)
  ],
)

ref_allowed_iff :
    (records : List EvidenceRecord) (actor : Actor) (k : String)
    → (ref_allowed (index_onto (λ x. x.id) [] records) actor k ≡ true) ↔ IsReadable records actor k
ref_allowed_iff records actor k =
    let at = lookup-index_onto (λ (x : EvidenceRecord). x.id) k [] records in
    elim (Option-cases (find_last (λ (x : EvidenceRecord). x.id) k records)) [
      | inl missing ↦ (λ h. absurd (ground (arith, at, missing)), λ (e, found, r). cc)
      | inr (e, found) ↦ (
        λ h. (e, found, (evidence_allowed_iff e actor).0 (ground (arith, at, found))),
        λ (e', found', r).
            let allowed = (evidence_allowed_iff e' actor).1 r in
            ground (arith, at, found', allowed),
      )
    ]

all_iff :
    {test : String → Bool} {P : String → Type 0} (ks : List String)
    → ((k : String) → (test k ≡ true) ↔ P k)
    → (all test ks ≡ true) ↔ All P ks
all_iff [] each = (λ h. tt, λ h. refl)
all_iff (k ∷ ks) each = (
  λ h. ((each k).0 (ground arith), (all_iff ks each).0 (ground arith)),
  λ p. ground (arith, (each k).1 p.0, (all_iff ks each).1 p.1),
)

-- `refs_allowed` fails closed: it holds exactly if every reference names a record, the last of that
-- identity, that is public or lists one of the actor's names; an actor of several names, one of them
-- empty, counts as one without a name.
pub refs_allowed_iff :
    (references : List String) (records : List EvidenceRecord) (actor : Actor)
    → (refs_allowed references records actor ≡ true) ↔ All (IsReadable records actor) references
unfolding refs_allowed
refs_allowed_iff references records actor = all_iff references (ref_allowed_iff records actor)
