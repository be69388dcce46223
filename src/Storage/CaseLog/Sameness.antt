-- ===== src/Storage/CaseLog/Sameness.antt =====
-- The comparisons of src/intent_engineering/storage/jsonl/case_store.py are equality.
use intent_engineer.Base.{
  String, Bool, true, false, not, ◌&&◌, Option, none, some, List, [], ◌∷◌, ◌==◌, ◌≡◌, refl, ap,
  arith, eqb→eq, eq→eqb, eq_iff, eq_refl, if◌then◌else◌,
}
use intent_engineer.Core.Vocabulary.{same_stage-eq, same_stage_refl, same_mode-eq, same_mode_refl}
use intent_engineer.Reconcile.Cases.{ReconciliationCase}
use intent_engineer.Storage.CaseLog.{
  same_action, same_case_type, same_list, same_option, same_side, same_event, same_identity,
  same_lifecycle, same_case,
}

-- A test that decides equality.
abbrev pub IsEquality {ℓ} : {A : Type ℓ} → (A → A → Bool) → Type ℓ
IsEquality {A = A} same = ((a b : A) → same a b ≡ true → a ≡ b) × ((a : A) → same a a ≡ true)

text-IsEquality : IsEquality (λ (a : String) (b : String). a == b)
text-IsEquality = (λ a b. (eq_iff a b).0, eq_refl)

module _ {ℓ} {A : Type ℓ} {same : A → A → Bool} (h : IsEquality same) where
  same_list-eq : (xs ys : List A) → same_list same xs ys ≡ true → xs ≡ ys
  same_list-eq [] [] e = refl
  same_list-eq [] (y ∷ ys) e = cc
  same_list-eq (x ∷ xs) [] e = cc
  same_list-eq (x ∷ xs) (y ∷ ys) e =
      let first = h.0 x y (ground (arith, e)) in
      let rest = same_list-eq xs ys (ground (arith, e)) in cc

  same_list_refl : (xs : List A) → same_list same xs xs ≡ true
  same_list_refl [] = refl
  same_list_refl (x ∷ xs) = ground (arith, h.1 x, same_list_refl xs)

  same_option-eq : (a b : Option A) → same_option same a b ≡ true → a ≡ b
  same_option-eq none none e = refl
  same_option-eq none (some b) e = cc
  same_option-eq (some a) none e = cc
  same_option-eq (some a) (some b) e = ap some (h.0 a b e)

  same_option_refl : (a : Option A) → same_option same a a ≡ true
  same_option_refl none = refl
  same_option_refl (some a) = h.1 a

  pub list-IsEquality : IsEquality (same_list same)
  list-IsEquality = (same_list-eq, same_list_refl)

  pub option-IsEquality : IsEquality (same_option same)
  option-IsEquality = (same_option-eq, same_option_refl)

pub event-IsEquality : IsEquality same_event
event-IsEquality = (
  λ a b e.
      let t = eqb→eq a.at b.at (ground (arith, e)) in
      let n = (eq_iff a.actor b.actor).0 (ground (arith, e)) in
      let p = same_stage-eq a.prior b.prior (ground (arith, e)) in
      let q = same_stage-eq a.next b.next (ground (arith, e)) in
      λ i. record { actor = n i; at = t i; prior = p i; next = q i },
  λ a. ground (
    arith,
    eq_refl a.actor,
    eq→eqb a.at a.at refl,
    same_stage_refl a.prior,
    same_stage_refl a.next,
  ),
)

action-IsEquality : IsEquality same_action
action-IsEquality = (λ a b e. ground arith, λ a. ground arith)

case_type-IsEquality : IsEquality same_case_type
case_type-IsEquality = (λ a b e. ground arith, λ a. ground arith)

pub bool-IsEquality : IsEquality (λ (a b : Bool). if a then b else not b)
bool-IsEquality = (λ a b e. ground arith, λ a. ground arith)

side-IsEquality : IsEquality same_side
side-IsEquality = (
  λ a b e.
      let texts = list-IsEquality text-IsEquality in
      let l = (eq_iff a.label b.label).0 (ground (arith, e)) in
      let c = (eq_iff a.claim b.claim).0 (ground (arith, e)) in
      let r = texts.0 a.evidence_refs b.evidence_refs (ground (arith, e)) in
      let t = eqb→eq a.observed_at b.observed_at (ground (arith, e)) in
      let u = texts.0 a.authors b.authors (ground (arith, e)) in
      let f = eqb→eq a.confidence b.confidence (ground (arith, e)) in
      let m = same_mode-eq a.source_mode b.source_mode (ground (arith, e)) in
      let n = bool-IsEquality.0 a.current b.current (ground (arith, e)) in
      λ i. record {
        label = l i;
        claim = c i;
        evidence_refs = r i;
        observed_at = t i;
        authors = u i;
        confidence = f i;
        source_mode = m i;
        current = n i;
      },
  λ a.
      let texts = list-IsEquality text-IsEquality in
      ground (
        arith,
        eq_refl a.label,
        eq_refl a.claim,
        texts.1 a.evidence_refs,
        eq→eqb a.observed_at a.observed_at refl,
        texts.1 a.authors,
        eq→eqb a.confidence a.confidence refl,
        same_mode_refl a.source_mode,
        bool-IsEquality.1 a.current,
      ),
)

-- What two versions of a case share.
pub record IsSameIdentity (a b : ReconciliationCase) : Type 0 where
  pub ids : a.id ≡ b.id
  pub subjects : a.subject_ref ≡ b.subject_ref
  pub case_types : a.case_type ≡ b.case_type
  pub refs : a.affected_refs ≡ b.affected_refs
  pub sides : a.evidence_sides ≡ b.evidence_sides
  pub detectors : a.detector_id ≡ b.detector_id
  pub fingerprints : a.fingerprint ≡ b.fingerprint
  pub times : a.created_at ≡ b.created_at
  pub creators : a.created_by ≡ b.created_by
  pub needs : a.requires_human ≡ b.requires_human
  pub alternatives : a.alternatives ≡ b.alternatives
  pub impacts : a.impact ≡ b.impact

pub IsSameIdentity-of_same :
    (a b : ReconciliationCase) → same_identity a b ≡ true → IsSameIdentity a b
unfolding same_identity
IsSameIdentity-of_same a b e = record {
  ids = (eq_iff a.id b.id).0 (ground (arith, e));
  subjects = (eq_iff a.subject_ref b.subject_ref).0 (ground (arith, e));
  case_types = case_type-IsEquality.0 a.case_type b.case_type (ground (arith, e));
  refs = (list-IsEquality text-IsEquality).0 a.affected_refs b.affected_refs (ground (arith, e));
  sides = (list-IsEquality side-IsEquality).0 a.evidence_sides b.evidence_sides (ground (arith, e));
  detectors = (eq_iff a.detector_id b.detector_id).0 (ground (arith, e));
  fingerprints = (eq_iff a.fingerprint b.fingerprint).0 (ground (arith, e));
  times = eqb→eq a.created_at b.created_at (ground (arith, e));
  creators = (eq_iff a.created_by b.created_by).0 (ground (arith, e));
  needs = bool-IsEquality.0 a.requires_human b.requires_human (ground (arith, e));
  alternatives =
      (list-IsEquality case_type-IsEquality).0 a.alternatives b.alternatives (ground (arith, e));
  impacts = (eq_iff a.impact b.impact).0 (ground (arith, e));
}

pub same_identity_refl : (a : ReconciliationCase) → same_identity a a ≡ true
unfolding same_identity
same_identity_refl a = ground (
  arith,
  eq_refl a.id,
  eq_refl a.subject_ref,
  case_type-IsEquality.1 a.case_type,
  (list-IsEquality text-IsEquality).1 a.affected_refs,
  (list-IsEquality side-IsEquality).1 a.evidence_sides,
  eq_refl a.detector_id,
  eq_refl a.fingerprint,
  eq→eqb a.created_at a.created_at refl,
  eq_refl a.created_by,
  bool-IsEquality.1 a.requires_human,
  (list-IsEquality case_type-IsEquality).1 a.alternatives,
  eq_refl a.impact,
)

and_split : (x y : Bool) → (x && y) ≡ true → (x ≡ true) × (y ≡ true)
and_split true y h = (refl, h)
and_split false y h = cc

-- What makes two versions the same one.
record IsSameLifecycle (a b : ReconciliationCase) : Type 0 where
  statuses : a.status ≡ b.status
  resolutions : a.resolution ≡ b.resolution
  changesets : a.resolved_by_changeset ≡ b.resolved_by_changeset
  histories : a.history ≡ b.history

IsSameLifecycle-of_same :
    (a b : ReconciliationCase) → same_lifecycle a b ≡ true → IsSameLifecycle a b
unfolding same_lifecycle
IsSameLifecycle-of_same a b e = record {
  statuses = same_stage-eq a.status b.status (ground (arith, e));
  resolutions =
      (option-IsEquality action-IsEquality).0 a.resolution b.resolution (ground (arith, e));
  changesets =
      (option-IsEquality text-IsEquality).0 a.resolved_by_changeset b.resolved_by_changeset
        (ground (arith, e));
  histories = (list-IsEquality event-IsEquality).0 a.history b.history (ground (arith, e));
}

-- The Python comparison of two cases is equality.
pub same_case-eq : (a b : ReconciliationCase) → same_case a b ≡ true → a ≡ b
unfolding same_case
same_case-eq a b e =
    let (identity, lifecycle) = and_split (same_identity a b) (same_lifecycle a b) e in
    let d = IsSameIdentity-of_same a b identity in
    let l = IsSameLifecycle-of_same a b lifecycle in
    λ i. record {
      id = d.ids i;
      subject_ref = d.subjects i;
      case_type = d.case_types i;
      affected_refs = d.refs i;
      evidence_sides = d.sides i;
      detector_id = d.detectors i;
      fingerprint = d.fingerprints i;
      created_at = d.times i;
      created_by = d.creators i;
      status = l.statuses i;
      requires_human = d.needs i;
      alternatives = d.alternatives i;
      impact = d.impacts i;
      resolution = l.resolutions i;
      resolved_by_changeset = l.changesets i;
      history = l.histories i;
    }
