-- ===== src/Storage/CaseLog/Transitions.antt =====
-- The transitions of src/intent_engineering/reconcile/service.py are versions that the store of
-- src/intent_engineering/storage/jsonl/case_store.py accepts.
use intent_engineer.Base.{
  suc, ◌+◌, String, true, false, Option, none, some, List, [], ◌∷◌, ◌++◌, ◌≡◌, refl, ap, subst, ◌∙◌,
  arith, inl, inr, Option-cases, length, eq→eqb, last?-concat, length-append, ok, err, >>=-eq-ok,
  eq_iff,
}
use intent_engineer.Base.Dict.{Dict, lookup}
use intent_engineer.Core.Vocabulary.{
  ReconciliationStatus, ResolutionAction, same_stage, same_stage_refl,
}
use intent_engineer.Core.Graph.{Instant}
use intent_engineer.Reconcile.Cases.{
  ReconciliationCase, ClassificationEvent, allowed, validate_case,
}
use intent_engineer.Reconcile.Transition.{transition_case, moved}
use intent_engineer.Reconcile.Transition.Laws.{transition_case_lem}
use intent_engineer.Storage.CaseLog.{
  File, case_line, Index, index_case, has_other_owner, same_identity, same_lifecycle, same_case,
  is_next_version, check_previous, record_version, missing_case, but_last,
}
use intent_engineer.Storage.CaseLog.Store.{put, get, read_index}
use intent_engineer.Storage.CaseLog.Sameness.{same_identity_refl, event-IsEquality, list-IsEquality}
use intent_engineer.Storage.CaseLog.Ownership.{IsPaired, parse_versions-IsPaired}
use intent_engineer.Storage.CaseLog.Growth.{read_index-eq-ok}

but_last-concat :
    (es : List ClassificationEvent) (e : ClassificationEvent) → but_last (es ++ e ∷ []) ≡ es
but_last-concat [] e = refl
but_last-concat (f ∷ []) e = refl
but_last-concat (f ∷ g ∷ es) e = ap (◌∷◌ f) (but_last-concat (g ∷ es) e)

allowed-moves : (s t : ReconciliationStatus) → allowed s t ≡ true → same_stage s t ≡ false
unfolding allowed
allowed-moves s t h = ground arith

grown-is_next_version :
    (c c' : ReconciliationCase) (e : ClassificationEvent)
    → c'.history ≡ c.history ++ e ∷ []
    → e.prior ≡ c.status
    → e.next ≡ c'.status
    → is_next_version c c' ≡ true
unfolding is_next_version
grown-is_next_version c c' e grown from to =
    rw
      (
        grown,
        last?-concat c.history e,
        but_last-concat c.history e,
        length-append c.history (e ∷ []),
        (list-IsEquality event-IsEquality).1 c.history,
        from,
        to,
        same_stage_refl c.status,
        same_stage_refl c'.status,
      )
      (ground (arith, eq→eqb (length c.history + 1) (suc (length c.history)) (omega arith)))

found_of_get :
    (k : String) (d : Dict ReconciliationCase) (c : ReconciliationCase)
    → elim (lookup k d) [ none ↦ err (missing_case k) | some x ↦ ok x ] ≡ ok c
    → lookup k d ≡ some c
found_of_get k d c h = elim (Option-cases (lookup k d)) [
  | inl none_yet ↦ absurd (ground (arith, h, none_yet))
  | inr (x, found) ↦ ground (arith, h, found)
]

has_other_owner_self :
    (c c' : ReconciliationCase) → c.id ≡ c'.id → has_other_owner c' (some c) ≡ false
has_other_owner_self c c' same = ground (arith, (eq_iff c.id c'.id).1 same)

lifecycle_differs :
    (c c' : ReconciliationCase)
    → same_stage c.status c'.status ≡ false
    → same_lifecycle c c' ≡ false
unfolding same_lifecycle
lifecycle_differs c c' h = rw (h) refl

differs :
    (c c' : ReconciliationCase) → same_stage c.status c'.status ≡ false → same_case c c' ≡ false
unfolding same_case
differs c c' h = ground (arith, lifecycle_differs c c' h)

module _ (c : ReconciliationCase) (target : ReconciliationStatus) (actor : String) (at : Instant)
    (resolution : Option ResolutionAction) (changeset : Option String)
    (c' : ReconciliationCase) where
  check_previous-moved :
      (s : Index)
      → allowed c.status target ≡ true
      → check_previous true s (moved c target actor at resolution changeset) c
        ≡ ok (index_case (moved c target actor at resolution changeset) s, true)
  unfolding check_previous same_identity
  check_previous-moved s permitted =
      let m = moved c target actor at resolution changeset in
      let other = allowed-moves c.status target permitted in
      let next =
        grown-is_next_version c m
          (record { actor = actor; at = at; prior = c.status; next = target }) refl refl refl in
      rw (same_identity_refl c, lifecycle_differs c m other, other, next) refl

  record_version-moved :
      (s : Index)
      → IsPaired s
      → lookup c.id s.latest_by_id ≡ some c
      → allowed c.status target ≡ true
      → record_version true s (moved c target actor at resolution changeset)
        ≡ ok (index_case (moved c target actor at resolution changeset) s, true)
  unfolding record_version
  record_version-moved s p found permitted =
      let m = moved c target actor at resolution changeset in
      rw ((p.owned c.id c found).1, has_other_owner_self c m refl, found)
        (check_previous-moved s permitted)

  put-moved :
      (file : File) (s : Index)
      → read_index file ≡ ok s
      → IsPaired s
      → lookup c.id s.latest_by_id ≡ some c
      → allowed c.status target ≡ true
      → validate_case (moved c target actor at resolution changeset) ≡ ok tt
      → put (moved c target actor at resolution changeset) file
        ≡ ok (true, file ++ case_line (moved c target actor at resolution changeset) ∷ [])
  unfolding put
  put-moved file s read p found permitted valid =
      let m = moved c target actor at resolution changeset in
      rw
        (
          valid,
          read,
          found,
          differs c m (allowed-moves c.status target permitted),
          record_version-moved s p found permitted,
        )
        refl

  -- Where the latest version of a case in a readable file is valid, every version that
  -- `transition_case` makes of it is accepted by `put`, as a new line at the end of the file.
  pub transition_case-put :
      (k : String) (file : File)
      → get k file ≡ ok c
      → validate_case c ≡ ok tt
      → transition_case c target actor (some at) resolution changeset ≡ ok c'
      → put c' file ≡ ok (true, file ++ case_line c' ∷ [])
  unfolding get
  transition_case-put k file got valid went =
      let (s, read, r) = >>=-eq-ok (read_index file) _ got in
      let (cs, parsed) = read_index-eq-ok file s read in
      let p = parse_versions-IsPaired file s cs parsed in
      let (may, same, valid') =
        (transition_case_lem c target actor at resolution changeset c' valid).0 went in
      let found = found_of_get k s.latest_by_id c r in
      subst (λ x. put x file ≡ ok (true, file ++ case_line x ∷ [])) same
        (put-moved file s read p (ap (λ j. lookup j s.latest_by_id) (p.owned k c found).0 ∙ found)
          may.permitted (ap validate_case same ∙ valid'))
