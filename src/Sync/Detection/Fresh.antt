-- ===== src/Sync/Detection/Fresh.antt =====
-- The cases that `_apply_detected_cases` of src/intent_engineering/sync/orchestrator.py creates.
use intent_engineer.Base.{
  ℕ, String, Bool, true, false, not, ◌&&◌, ◌||◌, ◌==◌, List, [], ◌∷◌, ◌≡◌, ◌⊎◌, refl, sym, ap,
  subst, ◌∙◌, arith, inl, inr, none, Bool-cases, length, is_empty, eq_iff, eq_refl, if-false,
  Result, ok, ◌>>◌, >>=-eq-ok, >>-eq-ok, raise_if-eq-ok, ok_inj, map_err, map_err-eq-ok,
}
use intent_engineer.Base.Texts.{elem, Distinct}
use intent_engineer.Core.Graph.{Graph, Instant}
use intent_engineer.Core.ChangeSet.{validate_changeset}
use intent_engineer.Reconcile.Cases.{DriftObservation, ReconciliationCase, validate_case}
use intent_engineer.Storage.CaseLog.Store.{list}
use intent_engineer.Storage.Changes.{LocalState, apply}
use intent_engineer.Sync.Collection.{Delta}
use intent_engineer.Sync.Detection.{
  DetectionError, invalid_case, unreadable_cases, invalid_changeset, not_executed, Detection,
  fingerprints, case_fingerprints, insert_by_fingerprint, sort_by_fingerprint, case_of_observation,
  new_cases, detected_changeset, create_cases, apply_detected_cases,
}

elem-insert_by_fingerprint :
    (k : String) (o : DriftObservation) (os : List DriftObservation)
    → elem k (fingerprints (insert_by_fingerprint o os))
      ≡ (o.fingerprint == k || elem k (fingerprints os))
elem-insert_by_fingerprint k o [] = refl
elem-insert_by_fingerprint k o (p ∷ ps) = ground (arith, elem-insert_by_fingerprint k o ps)

elem-sort_by_fingerprint :
    (k : String) (os : List DriftObservation)
    → elem k (fingerprints (sort_by_fingerprint os)) ≡ elem k (fingerprints os)
elem-sort_by_fingerprint k [] = refl
elem-sort_by_fingerprint k (o ∷ os) =
    elem-insert_by_fingerprint k o (sort_by_fingerprint os)
    ∙ ap (λ b. o.fingerprint == k || b) (elem-sort_by_fingerprint k os)

-- One case for each fingerprint that is observed and not known.
pub record IsFresh (observed known : List String) (cases : List ReconciliationCase) : Type 0 where
  pub distinct : Distinct (case_fingerprints cases)
  pub each :
      (k : String) → elem k (case_fingerprints cases) ≡ (elem k observed && not (elem k known))

IsFresh-known :
    (f : String) (observed known : List String) (cases : List ReconciliationCase)
    → elem f known ≡ true
    → IsFresh observed known cases
    → IsFresh (f ∷ observed) known cases
IsFresh-known f observed known cases there x = record {
  distinct = x.distinct;
  each = λ k. x.each k ∙ elim (Bool-cases (f == k)) [
    | inr other ↦ rw other refl
    | inl same ↦
        let known_too = ap (λ j. elem j known) (sym ((eq_iff f k).0 same)) ∙ there in
        rw (same, known_too) (ground arith)
  ];
}

IsFresh-new :
    (f : String) (observed known : List String) (c : ReconciliationCase)
    (cases : List ReconciliationCase)
    → c.fingerprint ≡ f
    → elem f known ≡ false
    → IsFresh observed (f ∷ known) cases
    → IsFresh (f ∷ observed) known (c ∷ cases)
IsFresh-new f observed known c cases of_f missing x = record {
  distinct = (
    ap (λ g. elem g (case_fingerprints cases)) of_f ∙ x.each f ∙ ground (arith, eq_refl f),
    x.distinct,
  );
  each = λ k.
      ap (λ g. g == k || elem k (case_fingerprints cases)) of_f
      ∙ ap (λ b. f == k || b) (x.each k)
      ∙ elim (Bool-cases (f == k)) [
        | inr other ↦ rw other refl
        | inl same ↦
            let unknown = ap (λ j. elem j known) (sym ((eq_iff f k).0 same)) ∙ missing in
            rw (same, unknown) refl
      ];
}

fingerprint_lem :
    (o : DriftObservation) (at : Instant) → (case_of_observation o at).fingerprint ≡ o.fingerprint
unfolding case_of_observation
fingerprint_lem o at = refl

known_or_new :
    (b : Bool) (skipped added : Result DetectionError (List ReconciliationCase))
    {cases : List ReconciliationCase}
    → (elim b as (λ b. Result DetectionError (List ReconciliationCase)) [
      | true ↦ skipped
      | false ↦ added
    ])
      ≡ ok cases
    → ((b ≡ true) × (skipped ≡ ok cases)) ⊎ ((b ≡ false) × (added ≡ ok cases))
known_or_new true skipped added h = inl (refl, h)
known_or_new false skipped added h = inr (refl, h)

module _ (self : Detection) where
  new_cases-IsFresh :
      (os : List DriftObservation) (known : List String) (cases : List ReconciliationCase)
      → new_cases self os known ≡ ok cases
      → IsFresh (fingerprints os) known cases
  unfolding new_cases
  new_cases-IsFresh [] known cases h =
      subst (IsFresh [] known) (ok_inj h) (record { distinct = tt; each = λ k. refl })
  new_cases-IsFresh (o ∷ os) known cases h = elim (known_or_new (elem o.fingerprint known) _ _ h) [
    | inl (there, rest) ↦
        IsFresh-known o.fingerprint (fingerprints os) known cases there
          (new_cases-IsFresh os known cases rest)
    | inr (missing, added) ↦
        let c = case_of_observation o (self.case_time o) in
        let checked = map_err invalid_case (validate_case c) in
        let (cs, both, same) =
          >>=-eq-ok (checked >> new_cases self os (o.fingerprint ∷ known)) _ added in
        let (valid, rest) = >>-eq-ok checked _ both in
        subst (IsFresh (o.fingerprint ∷ fingerprints os) known) (ok_inj same) (
          IsFresh-new o.fingerprint (fingerprints os) known c cs
            (fingerprint_lem o (self.case_time o)) missing
            (new_cases-IsFresh os (o.fingerprint ∷ known) cs rest))
  ]

  create_cases_inv :
      (cases : List ReconciliationCase) (s s' : LocalState) (n m : ℕ)
      → create_cases self cases s ≡ ok ((n, m), s')
      → (n ≡ length cases)
        × (((cases ≡ []) × (s' ≡ s))
            ⊎ ((next : Graph) × (apply (detected_changeset self s.graph.version cases) cases [] s
                  ≡ ok (next, s'))))
  unfolding create_cases
  create_cases_inv [] s s' n m h = (
    ap (λ (r : (ℕ × ℕ) × LocalState). r.0.0) (sym (ok_inj h)),
    inl (refl, ap (λ (r : (ℕ × ℕ) × LocalState). r.1) (sym (ok_inj h))),
  )
  create_cases_inv (c ∷ cs) s s' n m h =
      let (able, h1) = raise_if-eq-ok (not self.has_executor) _ _ h in
      let made = detected_changeset self s.graph.version (c ∷ cs) in
      let (valid, h2) = >>-eq-ok (map_err invalid_changeset (validate_changeset made)) _ h1 in
      let ((next, t), applied, same) =
        >>=-eq-ok (map_err not_executed (apply made (c ∷ cs) [] s)) _ h2 in
      let ends = ok_inj same in
      (
        ap (λ (r : (ℕ × ℕ) × LocalState). r.0.0) (sym ends),
        inr (
          next,
          map_err-eq-ok not_executed (apply made (c ∷ cs) [] s) applied
              ∙ ap (λ (r : (ℕ × ℕ) × LocalState). ok (next, r.1)) ends,
        ),
      )

  -- Where a run has collected evidence and its cases are applied, the new cases are one for each
  -- fingerprint that is observed and that no case has; they are counted, and either there is none and
  -- the state is what it was, or one ChangeSet that creates them all was applied.
  pub apply_detected_cases-IsFresh :
      (delta : Delta) (s s' : LocalState) (n m : ℕ)
      → is_empty delta.added ≡ false
      → apply_detected_cases self delta s ≡ ok ((n, m), s')
      → (latest cases : List ReconciliationCase) × (list none s.cases ≡ ok latest)
        × IsFresh (fingerprints (self.detect delta s.graph)) (case_fingerprints latest) cases
        × (n ≡ length cases)
        × (((cases ≡ []) × (s' ≡ s))
            ⊎ ((next : Graph) × (apply (detected_changeset self s.graph.version cases) cases [] s
                  ≡ ok (next, s'))))
  unfolding apply_detected_cases
  apply_detected_cases-IsFresh delta s s' n m some_there h =
      let (latest, read, h1) =
        >>=-eq-ok (map_err unreadable_cases (list none s.cases)) _ (if-false _ _ _ some_there h) in
      let observed = sort_by_fingerprint (self.detect delta s.graph) in
      let (cases, found, h2) =
        >>=-eq-ok (new_cases self observed (case_fingerprints latest)) _ h1 in
      let (count, ended) = create_cases_inv cases s s' n m h2 in
      let x = new_cases-IsFresh observed (case_fingerprints latest) cases found in
      (
        latest,
        cases,
        map_err-eq-ok unreadable_cases (list none s.cases) read,
        record {
          distinct = x.distinct;
          each = λ k.
              x.each k
              ∙ ap (λ b. b && not (elem k (case_fingerprints latest)))
                  (elem-sort_by_fingerprint k (self.detect delta s.graph));
        },
        count,
        ended,
      )
