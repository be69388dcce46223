-- ===== src/Reconcile/Cases/Lifecycle.antt =====
-- The life cycle that the validator of src/intent_engineering/core/models/reconciliation.py admits.
use intent_engineer.Base.{
  true, false, not, ◌&&◌, ◌||◌, none, List, [], ◌∷◌, ◌≡◌, ◌≢◌, ◌↔◌, refl, sym, subst, arith, ◌==◌,
  is_some, is_none, is_empty, ok, ◌>>◌, raise_if, >>=-eq-ok, >>-eq-ok, raise_if-eq-ok, ok_inj,
  eq_iff,
}
use intent_engineer.Base.Text.{is_hex_text}
use intent_engineer.Core.Vocabulary.{
  ReconciliationStatus, opened, resolved, same_stage, same_stage-eq, same_stage_refl,
}
use intent_engineer.Reconcile.Cases.{
  ReconciliationCase, ClassificationEvent, broken_history, invalid_transition, status_mismatch,
  unresolved, resolution_without_resolved, allowed, check_history, check_lifecycle, validate_case,
  validate_sides, validate_events, all_evidence_refs, lacks_evidence, bad_fingerprint,
  empty_creator,
}

-- The events lead from one status to another by allowed transitions, each from where the last ended.
pub data Walk
    : ReconciliationStatus → List ClassificationEvent → ReconciliationStatus → Type 0 where
  here : {s : ReconciliationStatus} → Walk s [] s
  step :
      {s t : ReconciliationStatus} {es : List ClassificationEvent} (e : ClassificationEvent)
      → e.prior ≡ s
      → allowed s e.next ≡ true
      → Walk e.next es t
      → Walk s (e ∷ es) t

Walk-of_check :
    (s : ReconciliationStatus) (es : List ClassificationEvent) {t : ReconciliationStatus}
    → check_history s es ≡ ok t
    → Walk s es t
unfolding check_history
Walk-of_check s [] h = subst (Walk s []) (ok_inj h) here
Walk-of_check s (e ∷ es) h =
    let (from, h1) = raise_if-eq-ok (not (same_stage e.prior s)) broken_history _ h in
    let (may, rest) =
      raise_if-eq-ok (not (allowed e.prior e.next)) (invalid_transition e.prior e.next) _ h1 in
    let prior = same_stage-eq e.prior s (ground (arith, from)) in
    step e prior (ground (arith, prior, may)) (Walk-of_check e.next es rest)

check_of_Walk :
    {s t : ReconciliationStatus} {es : List ClassificationEvent}
    → Walk s es t
    → check_history s es ≡ ok t
unfolding check_history
check_of_Walk here = refl
check_of_Walk (step e prior may rest) = rw (prior, same_stage_refl _, may) (check_of_Walk rest)

-- What a case that passed its validators is.
pub record IsValidCase (c : ReconciliationCase) : Type 0 where
  pub sides : validate_sides c.evidence_sides ≡ ok tt
  pub fingerprinted : is_hex_text 64 c.fingerprint ≡ true
  pub created : c.created_by ≢ ""
  pub events : validate_events c.history ≡ ok tt
  pub backed : is_empty (all_evidence_refs c) ≡ false
  pub walk : Walk opened c.history c.status
  pub resolution_given :
      c.status ≡ resolved → (is_some c.resolution ≡ true) × (is_some c.resolved_by_changeset ≡ true)
  pub resolution_only :
      c.status ≢ resolved → (c.resolution ≡ none) × (c.resolved_by_changeset ≡ none)

-- The last two checks of the validator, on a case's status and its resolution.
resolution_checks :
    (c : ReconciliationCase)
    → ((raise_if
            (same_stage c.status resolved
              && (is_none c.resolution || is_none c.resolved_by_changeset))
            unresolved
          >> raise_if
              (not (same_stage c.status resolved)
                && (is_some c.resolution || is_some c.resolved_by_changeset))
              resolution_without_resolved)
        ≡ ok tt)
      ↔ ((c.status ≡ resolved
            → (is_some c.resolution ≡ true) × (is_some c.resolved_by_changeset ≡ true))
          × (c.status ≢ resolved → (c.resolution ≡ none) × (c.resolved_by_changeset ≡ none)))
resolution_checks c = ground (arith, same_stage-eq c.status resolved, same_stage_refl resolved)

pub valid_of_ok : (c : ReconciliationCase) → validate_case c ≡ ok tt → IsValidCase c
unfolding validate_case check_lifecycle
valid_of_ok c h =
    let h1 = >>-eq-ok (validate_sides c.evidence_sides) _ h in
    let h2 = raise_if-eq-ok (not (is_hex_text 64 c.fingerprint)) bad_fingerprint _ h1.1 in
    let h3 = raise_if-eq-ok (c.created_by == "") empty_creator _ h2.1 in
    let h4 = >>-eq-ok (validate_events c.history) _ h3.1 in
    let h5 = raise_if-eq-ok (is_empty (all_evidence_refs c)) lacks_evidence _ h4.1 in
    let (expected, checked, h6) = >>=-eq-ok (check_history opened c.history) _ h5.1 in
    let h7 = raise_if-eq-ok (not (same_stage c.status expected)) status_mismatch _ h6 in
    let last = (resolution_checks c).0 h7.1 in
    record {
      sides = h1.0;
      fingerprinted = ground (arith, h2.0);
      created = λ e. ground (arith, h3.0, eq_iff c.created_by "");
      events = h4.0;
      backed = h5.0;
      walk =
          subst (Walk opened c.history)
            (sym (same_stage-eq c.status expected (ground (arith, h7.0))))
            (Walk-of_check opened c.history checked);
      resolution_given = last.0;
      resolution_only = last.1;
    }

ok_of_valid : (c : ReconciliationCase) → IsValidCase c → validate_case c ≡ ok tt
unfolding validate_case check_lifecycle
ok_of_valid c v =
    let named : (c.created_by == "") ≡ false = ground (arith, v.created, eq_iff c.created_by "") in
    rw
      (
        v.sides,
        v.fingerprinted,
        named,
        v.events,
        v.backed,
        check_of_Walk v.walk,
        same_stage_refl c.status,
      )
      ((resolution_checks c).1 (v.resolution_given, v.resolution_only))

-- The validator accepts exactly the cases whose sides, fingerprint, creator and events are well
-- formed, that have evidence, whose history leads from open to the case's status by allowed
-- transitions, and that carry a resolution and its ChangeSet if resolved and neither otherwise.
pub validate_case_iff : (c : ReconciliationCase) → (validate_case c ≡ ok tt) ↔ IsValidCase c
validate_case_iff c = (valid_of_ok c, ok_of_valid c)
