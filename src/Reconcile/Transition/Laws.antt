-- ===== src/Reconcile/Transition/Laws.antt =====
-- `transition_case` of src/intent_engineering/reconcile/service.py takes valid cases to valid cases.
use intent_engineer.Base.{
  String, true, false, not, ◌&&◌, ◌||◌, Option, some, List, [], ◌∷◌, ◌++◌, ◌≡◌, ◌≢◌, ◌↔◌, refl, ◌∙◌,
  subst, ap, arith, ◌==◌, eq_iff, is_some, is_none, ok, >>-eq-ok, raise_if-eq-ok, ok_inj,
}
use intent_engineer.Core.Vocabulary.{
  ReconciliationStatus, resolved, ResolutionAction, same_stage, same_stage-eq, same_stage_refl,
}
use intent_engineer.Core.Graph.{Instant}
use intent_engineer.Reconcile.Cases.{
  ReconciliationCase, ClassificationEvent, all_evidence_refs, allowed, validate_case,
  validate_events, empty_actor,
}
use intent_engineer.Reconcile.Cases.Lifecycle.{Walk, here, step, IsValidCase, validate_case_iff}
use intent_engineer.Reconcile.Transition.{
  invalid_transition, missing_evidence, of_case, moved, transition_case,
}

-- A walk goes on by one more allowed transition.
Walk-on :
    {s t : ReconciliationStatus} {es : List ClassificationEvent} (e : ClassificationEvent)
    → Walk s es t
    → e.prior ≡ t
    → allowed t e.next ≡ true
    → Walk s (es ++ e ∷ []) e.next
Walk-on e here prior may = step e prior may here
Walk-on e (step f before may' rest) prior may = step f before may' (Walk-on e rest prior may)

events_on :
    (es : List ClassificationEvent) (e : ClassificationEvent)
    → validate_events es ≡ ok tt
    → e.actor ≢ ""
    → validate_events (es ++ e ∷ []) ≡ ok tt
unfolding validate_events
events_on [] e h named = ground (arith, named, eq_iff e.actor "")
events_on (f ∷ es) e h named =
    let (first, rest) = raise_if-eq-ok (f.actor == "") empty_actor _ h in
    rw (first) (events_on es e rest named)

-- The guards of `transition_case`: an allowed transition by a named actor at a known time, and for
-- a resolution an action and a ChangeSet.
pub record MayMove (c : ReconciliationCase) (target : ReconciliationStatus) (actor : String)
    (resolution : Option ResolutionAction) (changeset : Option String) : Type 0 where
  pub permitted : allowed c.status target ≡ true
  pub named : actor ≢ ""
  pub complete : target ≡ resolved → (is_some resolution ≡ true) × (is_some changeset ≡ true)

module _ (c : ReconciliationCase) (target : ReconciliationStatus) (actor : String) (at : Instant)
    (resolution : Option ResolutionAction) (changeset : Option String) where
  pub moved-IsValidCase :
      IsValidCase c
      → MayMove c target actor resolution changeset
      → IsValidCase (moved c target actor at resolution changeset)
  unfolding all_evidence_refs
  moved-IsValidCase v m = record {
    sides = v.sides;
    fingerprinted = v.fingerprinted;
    created = v.created;
    events = events_on c.history _ v.events m.named;
    backed = v.backed;
    walk = Walk-on _ v.walk refl m.permitted;
    resolution_given = λ e. ground (arith, m.complete e, e);
    resolution_only = λ n. ground (arith, n, same_stage-eq target resolved);
  }

  guards_of_ok :
      {c' : ReconciliationCase}
      → transition_case c target actor (some at) resolution changeset ≡ ok c'
      → MayMove c target actor resolution changeset
        × (moved c target actor at resolution changeset ≡ c')
  unfolding transition_case
  guards_of_ok h =
      let h1 =
        raise_if-eq-ok (not (allowed c.status target)) (invalid_transition c.status target) _ h in
      let h2 =
        raise_if-eq-ok
          (same_stage target resolved
            && (actor == "" || false || is_none resolution || is_none changeset))
          (missing_evidence c.id) _ h1.1 in
      let h3 = raise_if-eq-ok (actor == "") (missing_evidence c.id) _ h2.1 in
      let h4 =
        >>-eq-ok (of_case (validate_case (moved c target actor at resolution changeset))) _ h3.1 in
      (
        record {
          permitted = ground (arith, h1.0);
          named = λ e. ground (arith, h3.0, eq_iff actor "");
          complete = λ e. ground (arith, e, h2.0, h3.0, same_stage_refl resolved);
        },
        ok_inj h4.1,
      )

  ok_of_guards :
      IsValidCase c
      → MayMove c target actor resolution changeset
      → transition_case c target actor (some at) resolution changeset
        ≡ ok (moved c target actor at resolution changeset)
  unfolding transition_case
  ok_of_guards v m =
      let nonempty : (actor == "") ≡ false = ground (arith, m.named, eq_iff actor "") in
      let complete : (same_stage target resolved
            && (false || false || is_none resolution || is_none changeset))
          ≡ false =
        ground (arith, m.complete, same_stage-eq target resolved) in
      rw (m.permitted, nonempty, complete, (validate_case_iff _).1 (moved-IsValidCase v m))

  -- From a case that passed its validators, a transition at a known time succeeds exactly if it is
  -- allowed from the case's status, names an actor and, for a resolution, an action and a
  -- ChangeSet; the new version then passes the validators too, and is the old one with the status,
  -- its resolution and one event more. The validation of the new version never refuses it.
  pub transition_case_lem :
      (c' : ReconciliationCase)
      → validate_case c ≡ ok tt
      → (transition_case c target actor (some at) resolution changeset ≡ ok c') ↔ (
          MayMove c target actor resolution changeset
          × (moved c target actor at resolution changeset ≡ c')
          × (validate_case c' ≡ ok tt))
  transition_case_lem c' valid =
      let v = (validate_case_iff c).0 valid in
      (
        λ h.
            let (m, same) = guards_of_ok h in
            (
              m,
              same,
              subst (λ x. validate_case x ≡ ok tt) same
                  ((validate_case_iff _).1 (moved-IsValidCase v m)),
            ),
        λ r. ok_of_guards v r.0 ∙ ap ok r.1,
      )
