-- ===== src/Storage/CaseLog/Recorded.antt =====
-- What `_record_version` of src/intent_engineering/storage/jsonl/case_store.py accepts.
use intent_engineer.Base.{
  Bool, true, false, not, none, some, List, [], ◌∷◌, ◌++◌, ◌≡◌, refl, sym, ap, ◌∙◌, arith, inl, inr,
  Bool-cases, Option-cases, last?, if◌then◌else◌, Result, ok, err, raise_if-eq-ok, ok_inj, if-true,
  if-false,
}
use intent_engineer.Base.Dict.{lookup}
use intent_engineer.Core.Vocabulary.{ReconciliationStatus, same_stage, same_stage-eq}
use intent_engineer.Reconcile.Cases.{ReconciliationCase, ClassificationEvent}
use intent_engineer.Storage.CaseLog.{
  CaseStoreError, Index, index_case, has_other_owner, same_identity, same_case, is_next_version,
  check_previous, record_version, but_last, leads,
}
use intent_engineer.Storage.CaseLog.Sameness.{
  IsSameIdentity, IsSameIdentity-of_same, same_case-eq, event-IsEquality, list-IsEquality,
}

-- The new version has the identity of the old one and one event more, from the status of the old
-- version to the other status of the new one.
pub record IsNextVersion (old c : ReconciliationCase) : Type 0 where
  pub identity : IsSameIdentity old c
  pub moved : same_stage old.status c.status ≡ false
  pub event : ClassificationEvent
  pub grown : c.history ≡ old.history ++ event ∷ []
  pub from : event.prior ≡ old.status
  pub to : event.next ≡ c.status

-- The ways in which a version is accepted.
pub data Recorded (again : Bool) (s : Index) (c : ReconciliationCase) (s' : Index) : Type 0 where
  first : lookup c.id s.latest_by_id ≡ none → s' ≡ index_case c s → Recorded again s c s'
  repeated : again ≡ true → lookup c.id s.latest_by_id ≡ some c → s' ≡ s → Recorded again s c s'
  next_version :
      (old : ReconciliationCase)
      → lookup c.id s.latest_by_id ≡ some old
      → IsNextVersion old c
      → s' ≡ index_case c s
      → Recorded again s c s'

rebuilt :
    (es : List ClassificationEvent) (s t : ReconciliationStatus)
    → leads (last? es) s t ≡ true
    → (e : ClassificationEvent) × (es ≡ but_last es ++ e ∷ []) × (e.prior ≡ s) × (e.next ≡ t)
rebuilt [] s t h = cc
rebuilt (e ∷ []) s t h = (
  e,
  refl,
  same_stage-eq e.prior s (ground (arith, h)),
  same_stage-eq e.next t (ground (arith, h)),
)
rebuilt (e ∷ f ∷ es) s t h =
    let (last, whole, prior, next) = rebuilt (f ∷ es) s t h in (last, ap (◌∷◌ e) whole, prior, next)

grown_from :
    {es before old : List ClassificationEvent} (e : ClassificationEvent)
    → es ≡ before ++ e ∷ []
    → before ≡ old
    → es ≡ old ++ e ∷ []
grown_from e whole same = whole ∙ ap (λ b. b ++ e ∷ []) same

IsNextVersion-of_check :
    (old c : ReconciliationCase)
    → IsSameIdentity old c
    → same_stage old.status c.status ≡ false
    → is_next_version old c ≡ true
    → IsNextVersion old c
unfolding is_next_version
IsNextVersion-of_check old c identity moved h =
    let (e, whole, prior, next) = rebuilt c.history old.status c.status (ground (arith, h)) in
    let before =
      (list-IsEquality event-IsEquality).0 (but_last c.history) old.history (ground (arith, h)) in
    record {
      identity = identity;
      moved = moved;
      event = e;
      grown = grown_from e whole before;
      from = prior;
      to = next;
    }

repeats :
    (again : Bool) (s s' : Index) (new : Bool) (e : CaseStoreError)
    → if◌then◌else◌ {A = Result CaseStoreError (Index × Bool)} again (ok (s, false)) (err e)
      ≡ ok (s', new)
    → (again ≡ true) × (s' ≡ s)
repeats true s s' new e h = (refl, sym (ap (λ (p : Index × Bool). p.0) (ok_inj h)))
repeats false s s' new e h = cc

Recorded-of_check :
    (again : Bool) (s : Index) (c old : ReconciliationCase) (s' : Index) (new : Bool)
    → lookup c.id s.latest_by_id ≡ some old
    → check_previous again s c old ≡ ok (s', new)
    → Recorded again s c s'
unfolding check_previous
Recorded-of_check again s c old s' new found h =
    let (same, r1) = raise_if-eq-ok (not (same_identity old c)) _ _ h in
    let identity = IsSameIdentity-of_same old c (ground (arith, same)) in
    elim (Bool-cases (same_case old c)) [
      | inl exact ↦
          let (noop, kept) = repeats again s s' new _ (if-true _ _ _ exact r1) in
          repeated noop (found ∙ ap some (same_case-eq old c exact)) kept
      | inr changed ↦
          let (moved, r2) =
            raise_if-eq-ok (same_stage old.status c.status) _ _ (if-false _ _ _ changed r1) in
          let (next, r3) = raise_if-eq-ok (not (is_next_version old c)) _ _ r2 in
          next_version old found
            (IsNextVersion-of_check old c identity moved (ground (arith, next)))
            (sym (ap (λ (p : Index × Bool). p.0) (ok_inj r3)))
    ]

-- A version is accepted only if no other case owns its fingerprint, and as the first version of its
-- case, as an exact repetition where these are permitted, or as the next version of the latest one.
pub record_version-Recorded :
    (again : Bool) (s : Index) (c : ReconciliationCase) (s' : Index) (new : Bool)
    → record_version again s c ≡ ok (s', new)
    → (has_other_owner c (lookup c.fingerprint s.by_fingerprint) ≡ false) × Recorded again s c s'
unfolding record_version
record_version-Recorded again s c s' new h =
    let (free, r) =
      raise_if-eq-ok (has_other_owner c (lookup c.fingerprint s.by_fingerprint)) _ _ h in
    (
      free,
      elim (Option-cases (lookup c.id s.latest_by_id)) [
        | inl none_yet ↦ first none_yet (ground (arith, r, none_yet))
        | inr (old, found) ↦ Recorded-of_check again s c old s' new found (ground (arith, r, found))
      ],
    )
