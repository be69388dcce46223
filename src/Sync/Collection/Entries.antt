-- ===== src/Sync/Collection/Entries.antt =====
-- The identities in a ledger of evidence, as src/intent_engineering/sync/orchestrator.py reads them.
use intent_engineer.Base.{
  String, Bool, true, false, not, ◌||◌, List, [], ◌∷◌, ◌++◌, ◌==◌, ◌≡◌, refl, sym, ap, subst, ◌∙◌,
  arith, inl, inr, Bool-cases, any, keep_if, eq_iff,
}
use mathlib.Core.List.{append-nil, append_assoc}
use intent_engineer.Base.Texts.{elem, Distinct, elem-append}
use intent_engineer.Storage.Evidence.{EvidenceIngestion}
use intent_engineer.Storage.EvidenceLog.Ledger.{IsLedger}
use intent_engineer.Sync.Collection.{evidence_ids}

pub evidence_ids-append :
    (is js : List EvidenceIngestion) → evidence_ids (is ++ js) ≡ evidence_ids is ++ evidence_ids js
evidence_ids-append [] js = refl
evidence_ids-append (i ∷ is) js = ap (λ ks. i.evidence.id ∷ ks) (evidence_ids-append is js)

pub elem-evidence_ids :
    (k : String) (is : List EvidenceIngestion)
    → elem k (evidence_ids is) ≡ any (λ i. i.evidence.id == k) is
elem-evidence_ids k [] = refl
elem-evidence_ids k (i ∷ is) = ap (λ b. i.evidence.id == k || b) (elem-evidence_ids k is)

pub Distinct-concat :
    (k : String) (ks : List String) → Distinct ks → elem k ks ≡ false → Distinct (ks ++ k ∷ [])
Distinct-concat k [] d h = (refl, tt)
Distinct-concat k (j ∷ ks) (fresh, d) h = (
  elem-append j ks (k ∷ []) ∙ ground (arith, fresh, h, eq_iff j k, eq_iff k j),
  Distinct-concat k ks d (ground (arith, h)),
)

pub Distinct-ledger :
    (before is : List EvidenceIngestion)
    → IsLedger before is
    → Distinct (evidence_ids before)
    → Distinct (evidence_ids (before ++ is))
Distinct-ledger before [] h d = subst (λ b. Distinct (evidence_ids b)) (sym (append-nil before)) d
Distinct-ledger before (i ∷ is) (a, fresh, c, rest) d =
    subst (λ b. Distinct (evidence_ids b)) (append_assoc before (i ∷ []) is)
      (Distinct-ledger (before ++ i ∷ []) is rest (
        subst Distinct (sym (evidence_ids-append before (i ∷ []))) (
          Distinct-concat i.evidence.id (evidence_ids before) d
            (elem-evidence_ids i.evidence.id before ∙ fresh))))

module _ (test : EvidenceIngestion → Bool) where
  pub elem-kept :
      (k : String) (is : List EvidenceIngestion)
      → elem k (evidence_ids is) ≡ false
      → elem k (evidence_ids (keep_if test is)) ≡ false
  elem-kept k [] h = refl
  elem-kept k (i ∷ is) h = elim (Bool-cases (test i)) [
    | inl kept ↦ rw kept (ground (arith, h, elem-kept k is))
    | inr dropped ↦ rw dropped (elem-kept k is (ground (arith, h)))
  ]

  pub Distinct-kept :
      (is : List EvidenceIngestion)
      → Distinct (evidence_ids is)
      → Distinct (evidence_ids (keep_if test is))
  Distinct-kept [] d = tt
  Distinct-kept (i ∷ is) (fresh, d) = elim (Bool-cases (test i)) [
    | inl kept ↦ rw kept (elem-kept i.evidence.id is fresh, Distinct-kept is d)
    | inr dropped ↦ rw dropped (Distinct-kept is d)
  ]

  pub keep_if-concat :
      (is : List EvidenceIngestion) (i : EvidenceIngestion)
      → test i ≡ true
      → keep_if test (is ++ i ∷ []) ≡ keep_if test is ++ i ∷ []
  keep_if-concat [] i h = rw h refl
  keep_if-concat (j ∷ is) i h = elim (Bool-cases (test j)) [
    | inl kept ↦ rw kept (ap (λ js. j ∷ js) (keep_if-concat is i h))
    | inr dropped ↦ rw dropped (keep_if-concat is i h)
  ]

cons_inj : {j k : String} {js ks : List String} → j ∷ js ≡ k ∷ ks → (j ≡ k) × (js ≡ ks)
cons_inj same = (cc, cc)

-- Where a test holds of the first identities and of no other, the entries without it are the others.
pub evidence_ids-without :
    (taken : String → Bool) (is : List EvidenceIngestion) (ks rest : List String)
    → evidence_ids is ≡ ks ++ rest
    → ((k : String) → elem k ks ≡ true → taken k ≡ true)
    → ((k : String) → elem k rest ≡ true → taken k ≡ false)
    → evidence_ids (keep_if (λ i. not (taken i.evidence.id)) is) ≡ rest
evidence_ids-without taken [] [] [] same first others = refl
evidence_ids-without taken [] [] (r ∷ rest) same first others = cc
evidence_ids-without taken [] (k ∷ ks) rest same first others = cc
evidence_ids-without taken (i ∷ is) (k ∷ ks) rest same first others =
    let (head, tail) = cons_inj same in
    let here : taken i.evidence.id ≡ true =
      first i.evidence.id (ground (arith, eq_iff k i.evidence.id, sym head)) in
    rw here (evidence_ids-without taken is ks rest tail (λ j h. first j (ground (arith, h))) others)
evidence_ids-without taken (i ∷ is) [] [] same first others = cc
evidence_ids-without taken (i ∷ is) [] (r ∷ rest) same first others =
    let (head, tail) = cons_inj same in
    let here : taken i.evidence.id ≡ false =
      others i.evidence.id (ground (arith, eq_iff r i.evidence.id, sym head)) in
    rw here (λ n.
      head n
      ∷ evidence_ids-without taken is [] rest tail first (λ j h. others j (ground (arith, h))) n)

-- The texts of a list without repetition are in one of its parts only.
pub elem-apart :
    (k : String) (xs ys : List String) → Distinct (xs ++ ys) → elem k ys ≡ true → elem k xs ≡ false
elem-apart k [] ys d h = refl
elem-apart k (x ∷ xs) ys (fresh, d) h =
    ground (arith, fresh, h, elem-append x xs ys, eq_iff x k, elem-apart k xs ys d h)
