-- ===== src/Reconcile/Cases/Routes.antt =====
-- The ways through the life cycle of src/intent_engineering/core/models/reconciliation.py.
use intent_engineer.Base.{
  true, false, List, [], ◌∷◌, map, ◌≡◌, refl, sym, subst, arith, ok, ◌∙◌, ◌⊎◌, inl, inr,
}
use intent_engineer.Core.Vocabulary.{
  ReconciliationStatus, opened, needs_human, proposed, resolved, deferred, false_positive,
}
use intent_engineer.Reconcile.Cases.{
  ReconciliationCase, ClassificationEvent, allowed, validate_case,
}
use intent_engineer.Reconcile.Cases.Lifecycle.{valid_of_ok, Walk, here, step}

abbrev pub stages : List ClassificationEvent → List ReconciliationStatus
stages = map (λ e. e.next)

-- The only ways through the life cycle.
abbrev pub Route : ReconciliationStatus → List ReconciliationStatus → Type 0
Route opened ss = ss ≡ []
Route proposed ss = ss ≡ proposed ∷ []
Route needs_human ss = ss ≡ proposed ∷ needs_human ∷ []
Route resolved ss = ss ≡ proposed ∷ needs_human ∷ resolved ∷ []
Route deferred ss = ss ≡ deferred ∷ []
Route false_positive ss = ss ≡ false_positive ∷ []

-- From a status that allows nothing the walk is over.
Walk-ends :
    {s t : ReconciliationStatus} {es : List ClassificationEvent}
    → Walk s es t
    → ((u : ReconciliationStatus) → allowed s u ≡ false)
    → (es ≡ []) × (t ≡ s)
Walk-ends here stuck = (refl, refl)
Walk-ends (step e prior may rest) stuck = ground (arith, may, stuck e.next)

resolved_ends :
    {s t : ReconciliationStatus} {es : List ClassificationEvent}
    → Walk s es t
    → s ≡ resolved
    → (es ≡ []) × (t ≡ resolved)
unfolding allowed
resolved_ends w e = let (done, same) = Walk-ends w (λ u. ground (arith, e)) in (done, same ∙ e)

from_needs_human :
    {s t : ReconciliationStatus} {es : List ClassificationEvent}
    → Walk s es t
    → s ≡ needs_human
    → ((es ≡ []) × (t ≡ needs_human)) ⊎ ((stages es ≡ resolved ∷ []) × (t ≡ resolved))
unfolding allowed
from_needs_human here e = inl (refl, e)
from_needs_human (step v prior may rest) e =
    let next : v.next ≡ resolved = ground (arith, e, may) in
    let (done, same) = resolved_ends rest next in inr (ground (arith, done, next), same)

from_proposed :
    {s t : ReconciliationStatus} {es : List ClassificationEvent}
    → Walk s es t
    → s ≡ proposed
    → ((es ≡ []) × (t ≡ proposed))
      ⊎ (((stages es ≡ needs_human ∷ []) × (t ≡ needs_human))
          ⊎ ((stages es ≡ needs_human ∷ resolved ∷ []) × (t ≡ resolved)))
unfolding allowed
from_proposed here e = inl (refl, e)
from_proposed (step v prior may rest) e =
    let next : v.next ≡ needs_human = ground (arith, e, may) in
    ground (arith, next, from_needs_human rest next)

opened_next :
    (s : ReconciliationStatus)
    → allowed opened s ≡ true
    → (s ≡ proposed) ⊎ ((s ≡ deferred) ⊎ (s ≡ false_positive))
unfolding allowed
opened_next s h = ground arith

-- The route that a status names is the one that was taken.
Route-at :
    {s t : ReconciliationStatus} (ss us : List ReconciliationStatus)
    → Route s us
    → ss ≡ us
    → t ≡ s
    → Route t ss
Route-at {s} {t} ss us r same e = subst (Route t) (sym same) (subst (λ u. Route u us) (sym e) r)

Route-of_Walk :
    {s t : ReconciliationStatus} {es : List ClassificationEvent}
    → Walk s es t
    → s ≡ opened
    → Route t (stages es)
unfolding allowed
Route-of_Walk here e = subst (λ u. Route u []) (sym e) refl
Route-of_Walk (step {es = es} v prior may rest) e =
    elim (opened_next v.next (ground (arith, e, may))) [
      | inl next ↦ elim (from_proposed rest next) [
        | inl (done, t) ↦
            Route-at {s = proposed} (v.next ∷ stages es) (proposed ∷ []) refl
              (ground (arith, next, done)) t
        | inr (inl (more, t)) ↦
            Route-at {s = needs_human} (v.next ∷ stages es) (proposed ∷ needs_human ∷ []) refl
              (ground (arith, next, more)) t
        | inr (inr (more, t)) ↦
            Route-at {s = resolved} (v.next ∷ stages es) (proposed ∷ needs_human ∷ resolved ∷ [])
              refl (ground (arith, next, more)) t
      ]
      | inr (inl next) ↦
          let (done, t) = Walk-ends rest (λ u. ground (arith, next)) in
          Route-at {s = deferred} (v.next ∷ stages es) (deferred ∷ []) refl
            (ground (arith, next, done)) (t ∙ next)
      | inr (inr next) ↦
          let (done, t) = Walk-ends rest (λ u. ground (arith, next)) in
          Route-at {s = false_positive} (v.next ∷ stages es) (false_positive ∷ []) refl
            (ground (arith, next, done)) (t ∙ next)
    ]

-- A case that passed its validators reached its status by the one route there is: an open case has
-- no history, and a resolved case was proposed, then put before a human, then resolved.
pub case-Route :
    (c : ReconciliationCase) → validate_case c ≡ ok tt → Route c.status (stages c.history)
case-Route c h = Route-of_Walk (valid_of_ok c h).walk refl
