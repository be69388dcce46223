-- ===== src/Reconcile/Resolution/Decision.antt =====
-- What a resolution by src/intent_engineering/reconcile/local_resolution.py rests on.
use intent_engineer.Base.{
  map_err-eq-ok, String, Bool, true, not, ◌≡◌, ◌⊎◌, Option, none, some, List, [], ◌∷◌, sym, ap, ◌∙◌,
  inl, inr, Bool-cases, if-true, if-false, Result, ok, ◌>>=◌, ◌>>◌, >>=-eq-ok, raise_if-eq-ok,
  ok_inj, not_inv, eq_iff,
}
use intent_engineer.Core.Vocabulary.{
  opened, needs_human, resolved, ResolutionAction, same_stage, same_stage-eq,
}
use intent_engineer.Core.Graph.{Graph, Instant}
use intent_engineer.Core.ChangeSet.{ChangeSet}
use intent_engineer.Reconcile.Cases.{ReconciliationCase, all_evidence_refs}
use intent_engineer.Reconcile.Transition.{transition_case}
use intent_engineer.Storage.Evidence.{EvidenceRecord, many, refs_allowed}
use intent_engineer.Storage.EvidenceLog.{Line}
use intent_engineer.Storage.CaseLog.Store.{get, validate_case_appends}
use intent_engineer.Storage.Changes.{LocalState, apply}
use intent_engineer.Reconcile.Resolution.{
  resolution_unavailable, ResolutionError, ResolutionService, Resolution, attempt, require,
  is_set_aside, get_all, append_case_versions, canonical_changeset, set_aside, review, is_approved,
  close_case, resolve,
}

attempted :
    {E A B : Type 0} (m : Result E A) (next : A → Result ResolutionError B) {b : B}
    → (attempt m >>= next) ≡ ok b
    → (a : A) × (m ≡ ok a) × (next a ≡ ok b)
attempted m next h =
    let (a, got, rest) = >>=-eq-ok (attempt m) next h in
    (a, map_err-eq-ok (λ e. resolution_unavailable) m got, rest)

required :
    {B : Type 0} (test : Bool) (next : Result ResolutionError B) {b : B}
    → (require test >> next) ≡ ok b
    → (test ≡ true) × (next ≡ ok b)
required test next h =
    let (held, rest) = raise_if-eq-ok (not test) _ next h in (not_inv test held, rest)

approved_inv :
    (o : Option String) (expected : String) → is_approved o expected ≡ true → o ≡ some expected
approved_inv none expected h = cc
approved_inv (some given) expected h = ap some ((eq_iff given expected).0 h)

append-keeps :
    (cases : List ReconciliationCase) (s s' : LocalState)
    → append_case_versions cases s ≡ ok s'
    → (s'.graph ≡ s.graph) × (s'.history ≡ s.history)
unfolding append_case_versions
append-keeps cases s s' h =
    let (lines, got, same) = attempted (validate_case_appends s.cases cases) _ h in
    (
      ap (λ (t : LocalState). t.graph) (sym (ok_inj same)),
      ap (λ (t : LocalState). t.history) (sym (ok_inj same)),
    )

module _ (self : ResolutionService) (case_id : String) (action : ResolutionAction)
    (approve : Option String) (now : Instant) (s : LocalState) (evidence : List Line)
    (r : Resolution) (s' : LocalState) where
  -- The case was open, and only its own versions were added.
  pub record IsPrepared (c : ReconciliationCase) : Type 0 where
    pub was_open : c.status ≡ opened
    pub same_graph : s'.graph ≡ s.graph
    pub same_history : s'.history ≡ s.history

  -- The case was reviewed, and the one who resolves it gave the hash of exactly this resolution, whose
  -- ChangeSet was applied.
  pub record IsDecided (c : ReconciliationCase) : Type 0 where
    pub was_reviewed : c.status ≡ needs_human
    pub changeset : ChangeSet
    pub canonical : canonical_changeset self c s.graph.version action ≡ ok changeset
    pub approved : approve ≡ some (self.approval_digest c s.graph.version action changeset)
    pub transitioned :
        transition_case c resolved self.actor (some now) (some action) (some changeset.id)
        ≡ ok r.case_version
    pub applied : (next : Graph) × (apply changeset [] (r.case_version ∷ []) s ≡ ok (next, s'))

  set_aside-IsPrepared :
      (c : ReconciliationCase)
      → c.status ≡ opened
      → set_aside self c action now s ≡ ok (r, s')
      → IsPrepared c
  unfolding set_aside
  set_aside-IsPrepared c was_open h =
      let (updated, moved, h1) =
        attempted (transition_case c _ self.actor (some now) none none) _ h in
      let (t, added, same) = >>=-eq-ok (append_case_versions (updated ∷ []) s) _ h1 in
      let (graph, history) = append-keeps (updated ∷ []) s t added in
      let end = ap (λ (p : Resolution × LocalState). p.1) (sym (ok_inj same)) in
      record {
        was_open = was_open;
        same_graph = ap (λ (t : LocalState). t.graph) end ∙ graph;
        same_history = ap (λ (t : LocalState). t.history) end ∙ history;
      }

  review-IsPrepared :
      (c : ReconciliationCase)
      → c.status ≡ opened
      → review self c action now s ≡ ok (r, s')
      → IsPrepared c
  unfolding review
  review-IsPrepared c was_open h =
      let (first, moved, h1) =
        attempted (transition_case c _ self.actor (some now) none none) _ h in
      let (reviewed, moved', h2) =
        attempted (transition_case first _ self.actor (some now) none none) _ h1 in
      let (changeset, made, h3) =
        >>=-eq-ok (canonical_changeset self reviewed s.graph.version action) _ h2 in
      let (t, added, same) = >>=-eq-ok (append_case_versions (first ∷ reviewed ∷ []) s) _ h3 in
      let (graph, history) = append-keeps (first ∷ reviewed ∷ []) s t added in
      let end = ap (λ (p : Resolution × LocalState). p.1) (sym (ok_inj same)) in
      record {
        was_open = was_open;
        same_graph = ap (λ (t : LocalState). t.graph) end ∙ graph;
        same_history = ap (λ (t : LocalState). t.history) end ∙ history;
      }

  close_case-IsDecided :
      (c : ReconciliationCase) → close_case self c action approve now s ≡ ok (r, s') → IsDecided c
  unfolding close_case
  close_case-IsDecided c h =
      let (decides, h1) = required (not (is_set_aside action)) _ h in
      let (human, h2) = required (same_stage c.status needs_human) _ h1 in
      let (changeset, canonical, h3) =
        >>=-eq-ok (canonical_changeset self c s.graph.version action) _ h2 in
      let (given, h4) =
        required (is_approved approve (self.approval_digest c s.graph.version action changeset)) _
          h3 in
      let (closed, moved, h5) =
        attempted
          (transition_case c resolved self.actor (some now) (some action) (some changeset.id)) _
          h4 in
      let ((next, t), applied, same) = attempted (apply changeset [] (closed ∷ []) s) _ h5 in
      let whole = ok_inj same in
      let version = ap (λ (p : Resolution × LocalState). p.0.case_version) whole in
      let end = ap (λ (p : Resolution × LocalState). p.1) whole in
      record {
        was_reviewed = same_stage-eq c.status needs_human human;
        changeset = changeset;
        canonical = canonical;
        approved = approved_inv approve _ given;
        transitioned = moved ∙ ap ok version;
        applied = (
          next,
          ap (λ v. apply changeset [] (v ∷ []) s) (sym version)
              ∙ applied
              ∙ ap (λ u. ok (next, u)) end,
        );
      }

  -- A call that returns was made by someone who may read the records that the evidence file has for all
  -- evidence of the latest version of the case. Either that was open, and the graph and the history are what they were; or it was before a
  -- human, the call gave the hash of exactly this version, graph version, action and ChangeSet, and the
  -- ChangeSet was applied with the resolved version that is returned.
  pub resolve-IsDecided :
      resolve self case_id action approve now s evidence ≡ ok (r, s')
      → (c : ReconciliationCase) × (records : List EvidenceRecord) × (get case_id s.cases ≡ ok c)
        × (get_all (all_evidence_refs c) evidence ≡ ok records)
        × (refs_allowed (all_evidence_refs c) records (many self.principals) ≡ true)
        × (IsPrepared c ⊎ IsDecided c)
  unfolding resolve
  resolve-IsDecided h =
      let (c, found, h1) = attempted (get case_id s.cases) _ h in
      let (records, read, h2) = >>=-eq-ok (get_all (all_evidence_refs c) evidence) _ h1 in
      let (may, h3) =
        required (refs_allowed (all_evidence_refs c) records (many self.principals)) _ h2 in
      (
        c,
        records,
        found,
        read,
        may,
        elim (Bool-cases (same_stage c.status opened)) [
          | inr not_open ↦ inr (close_case-IsDecided c (if-false _ _ _ not_open h3))
          | inl open_case ↦
              let was_open = same_stage-eq c.status opened open_case in
              let h4 = if-true _ _ _ open_case h3 in
              inl (elim (Bool-cases (is_set_aside action)) [
                | inl aside ↦ set_aside-IsPrepared c was_open (if-true _ _ _ aside h4)
                | inr on ↦ review-IsPrepared c was_open (if-false _ _ _ on h4)
              ])
        ],
      )
