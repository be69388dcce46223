-- ===== src/Storage/Changes/Commit.antt =====
-- A ChangeSet that src/intent_engineering/storage/executor.py applies changes all of the local state or
-- none of it, wherever its transaction stops.
use intent_engineer.Base.{
  true-ne-false, String, Bool, true, false, Option, none, some, List, [], ◌∷◌, ◌++◌, ◌==◌, ◌≡◌, ◌⊎◌,
  refl, sym, ap, ◌∙◌, arith, inl, inr, is_empty, all, All, All-implied, Result, ok, >>=-eq-ok,
  ok_inj, some_inj, eq_refl,
}
use mathlib.Core.List.{append-nil}
use intent_engineer.Base.Texts.{elem, is_distinct}
use intent_engineer.Base.Dict.{lookup, insert, lookup-insert}
use intent_engineer.Core.Graph.{Graph}
use intent_engineer.Core.ChangeSet.{ChangeSet}
use intent_engineer.Reconcile.Cases.{ReconciliationCase}
use intent_engineer.Storage.History.{changeset_line}
use intent_engineer.Storage.CaseLog.{File}
use intent_engineer.Storage.Transaction.{
  Bytes, Files, write, append, Body, Run, Disk, at_rest, Coordinator, completes, is_late, Faults,
  recover, transact, content_after, apply_op,
}
use intent_engineer.Storage.Transaction.Restore.{SameFiles}
use intent_engineer.Storage.Transaction.Crash.{IsAtomic, transact-IsAtomic}
use intent_engineer.Storage.Transaction.Outcome.{apply_all, commits, commits_of_ok, transact-Ends}
use intent_engineer.Storage.Changes.{
  ExecutorError, LocalState, apply, checked_effects, prevalidate, Codec, with_graph, parsed,
  local_state, body_of, prevalidated, block, apply_on_disk,
}

-- What is written for a ChangeSet is read back as it was meant, behind what stands in the files.
pub record ReadsBack (codec : Codec) (files : Files) (s : LocalState) (c : ChangeSet) (next : Graph)
    (lines : File) : Type 0 where
  pub graph : codec.parse_graph (codec.serialize_graph next) ≡ some next
  pub history :
      codec.read_history
        (some (content_after (append "history" (codec.serialize_changeset c)) files))
      ≡ s.history ++ changeset_line c ∷ []
  pub cases :
      is_empty lines ≡ false
      → codec.read_cases (some (content_after (append "cases" (codec.serialize_cases lines)) files))
        ≡ s.cases ++ lines

inserted_here : (k : String) (v : Bytes) (files : Files) → lookup k (insert k v files) ≡ some v
inserted_here k v files = lookup-insert k k v files ∙ rw (eq_refl k) refl

inserted_there :
    (k j : String) (v : Bytes) (files : Files)
    → (k == j) ≡ false
    → lookup j (insert k v files) ≡ lookup j files
inserted_there k j v files other = lookup-insert k j v files ∙ rw other refl

content_after-same :
    (k : String) (b : Bytes) (f g : Files)
    → lookup k f ≡ lookup k g
    → content_after (append k b) f ≡ content_after (append k b) g
content_after-same k b f g same =
    λ i. elim (same i) as (λ o. Bytes) [ none ↦ b | some old ↦ old ++ b ]

module _ (codec : Codec) where
  with_graph_inv :
      (o : Option Graph) (h k : Option Bytes) (s : LocalState)
      → with_graph codec o h k ≡ some s
      → (o ≡ some s.graph) × (codec.read_history h ≡ s.history) × (codec.read_cases k ≡ s.cases)
  with_graph_inv none h k s e = cc
  with_graph_inv (some g) h k s e =
      let same = some_inj e in
      (
        ap (λ (t : LocalState). some t.graph) same,
        ap (λ (t : LocalState). t.history) same,
        ap (λ (t : LocalState). t.cases) same,
      )

  local_state-same : (f g : Files) → SameFiles f g → local_state codec f ≡ local_state codec g
  unfolding local_state
  local_state-same f g same =
      λ i. with_graph codec (parsed codec (same "graph" i)) (same "history" i) (same "cases" i)

  abbrev state_after : LocalState → ChangeSet → Graph → File → LocalState
  state_after s c next lines = record {
    graph = next;
    history = s.history ++ changeset_line c ∷ [];
    cases = s.cases ++ lines;
  }

  -- Three files with these contents hold this state.
  local_state_of :
      (f : Files) (next : Graph) (history cases : Option Bytes)
      → lookup "graph" f ≡ some (codec.serialize_graph next)
      → lookup "history" f ≡ history
      → lookup "cases" f ≡ cases
      → codec.parse_graph (codec.serialize_graph next) ≡ some next
      → local_state codec f
        ≡ some (record {
          graph = next;
          history = codec.read_history history;
          cases = codec.read_cases cases;
        })
  unfolding local_state
  local_state_of f next history cases g h k back = rw (g, h, k) (rw back refl)

  module _ (files : Files) (s : LocalState) (c : ChangeSet) (next : Graph) (lines : File)
      (held : local_state codec files ≡ some s) (back : ReadsBack codec files s c next lines) where
    -- The files after the graph, and after the history.
    abbrev with_next : Files
    with_next = apply_op (write "graph" (codec.serialize_graph next)) files

    abbrev with_entry : Files
    with_entry = apply_op (append "history" (codec.serialize_changeset c)) with_next

    next_graph : lookup "graph" with_entry ≡ some (codec.serialize_graph next)
    next_graph = inserted_there "history" "graph" _ with_next refl ∙ inserted_here "graph" _ files

    next_history :
        lookup "history" with_entry
        ≡ some (content_after (append "history" (codec.serialize_changeset c)) files)
    next_history =
        inserted_here "history" _ with_next
        ∙ ap some (
            content_after-same "history" (codec.serialize_changeset c) with_next files
              (inserted_there "graph" "history" (codec.serialize_graph next) files refl))

    old_cases : lookup "cases" with_entry ≡ lookup "cases" files
    old_cases =
        inserted_there "history" "cases" _ with_next refl
        ∙ inserted_there "graph" "cases" (codec.serialize_graph next) files refl

    held_cases : codec.read_cases (lookup "cases" files) ≡ s.cases
    unfolding local_state
    held_cases = (with_graph_inv (parsed codec (lookup "graph" files)) _ _ s held).2

    without_cases : lines ≡ [] → local_state codec with_entry ≡ some (state_after s c next lines)
    without_cases none_there =
        local_state_of with_entry next _ _ next_graph next_history old_cases back.graph ∙ (λ i.
          some (record {
            graph = next;
            history = back.history i;
            cases =
                (held_cases ∙ sym (append-nil s.cases) ∙ ap (λ ls. s.cases ++ ls) (sym none_there))
                  i;
          }))

    with_cases :
        is_empty lines ≡ false
        → local_state codec (apply_op (append "cases" (codec.serialize_cases lines)) with_entry)
          ≡ some (state_after s c next lines)
    with_cases some_there =
        local_state_of (apply_op (append "cases" (codec.serialize_cases lines)) with_entry) next _ _
          (inserted_there "cases" "graph" _ with_entry refl ∙ next_graph)
          (inserted_there "cases" "history" _ with_entry refl ∙ next_history)
          (inserted_here "cases" _ with_entry
            ∙ ap some (
                content_after-same "cases" (codec.serialize_cases lines) with_entry files
                  old_cases))
          back.graph
        ∙ (λ i.
            some
              (record { graph = next; history = back.history i; cases = back.cases some_there i }))

  -- The files after all writes hold the state that the ChangeSet makes.
  local_state-written :
      (files : Files) (s : LocalState) (c : ChangeSet) (next : Graph) (lines : File)
      → local_state codec files ≡ some s
      → ReadsBack codec files s c next lines
      → local_state codec (apply_all (body_of codec c (ok (next, lines))).ops files)
        ≡ some (state_after s c next lines)
  local_state-written files s c next [] held back = without_cases files s c next [] held back refl
  local_state-written files s c next (l ∷ lines) held back =
      with_cases files s c next (l ∷ lines) held back refl

-- Recovery from the disk leaves files that hold the state.
abbrev pub Holds : Codec → Coordinator → LocalState → Disk → Type 0
Holds codec coordinator s d =
    (found : Bool) × (files : Files) × (recover coordinator d ≡ ok (found, at_rest files))
    × (local_state codec files ≡ some s)

-- What `apply` does in order.
record Applied (c : ChangeSet) (created closed : List ReconciliationCase) (s : LocalState)
    (next : Graph) (s' : LocalState) : Type 0 where
  effects : List ReconciliationCase
  lines : File
  checked : checked_effects c created closed ≡ ok effects
  valid : prevalidate c effects s.graph s.cases ≡ ok (next, lines)
  made : s' ≡ record {
    graph = next;
    history = s.history ++ changeset_line c ∷ [];
    cases = s.cases ++ lines;
  }

Applied-of_ok :
    (c : ChangeSet) (created closed : List ReconciliationCase) (s : LocalState) (next : Graph)
    (s' : LocalState)
    → apply c created closed s ≡ ok (next, s')
    → Applied c created closed s next s'
unfolding apply
Applied-of_ok c created closed s next s' h =
    let (effects, checked, h1) = >>=-eq-ok (checked_effects c created closed) _ h in
    let ((g, lines), valid, h2) = >>=-eq-ok (prevalidate c effects s.graph s.cases) _ h1 in
    let same = ok_inj h2 in
    record {
      effects = effects;
      lines = lines;
      checked = checked;
      valid = valid ∙ ap (λ (p : Graph × LocalState). ok (p.0, lines)) same;
      made =
          sym (ap (λ (p : Graph × LocalState). p.1) same)
          ∙ ap
              (λ (p : Graph × LocalState). record {
                graph = p.0;
                history = s.history ++ changeset_line c ∷ [];
                cases = s.cases ++ lines;
              })
              same;
    }

module _ (codec : Codec) (coordinator : Coordinator) (id : String)
    (distinct : is_distinct coordinator.targets ≡ true)
    (targets : all (λ k. elem k coordinator.targets) ("graph" ∷ "history" ∷ "cases" ∷ []) ≡ true)
    (files : Files) (c : ChangeSet) (created closed : List ReconciliationCase) (s : LocalState)
    (held : local_state codec files ≡ some s) (faults : Faults) where
  block_of :
      (effects : List ReconciliationCase) (out : Result ExecutorError (Graph × File))
      → prevalidate c effects s.graph s.cases ≡ out
      → block codec c effects files ≡ body_of codec c out
  unfolding block prevalidated
  block_of effects out valid = rw (held, valid) refl

  runs :
      (effects : List ReconciliationCase)
      → checked_effects c created closed ≡ ok effects
      → apply_on_disk codec coordinator id faults c created closed (at_rest files)
        ≡ ok (transact coordinator id faults (block codec c effects files) files)
  unfolding apply_on_disk recover
  runs effects checked = rw checked refl

  known_ops :
      (next : Graph) (lines : File)
      → faults.ending ≡ completes
      → commits coordinator faults (body_of codec c (ok (next, lines))) ≡ true
  known_ops next [] done = rw done (ground (arith, targets))
  known_ops next (l ∷ lines) done = rw done (ground (arith, targets))

  committed_run :
      (body : Body)
      → commits coordinator faults body ≡ true
      → let r = transact coordinator id faults body files in
        (r.outcome ≡ ok tt) × (r.disk ≡ at_rest (apply_all body.ops files))
  committed_run body does = elim (transact-Ends coordinator id files faults body distinct) [
    | inl (yes_it_does, done, at_end) ↦ (done, at_end)
    | inr (inl (does_not, _, _, _, _)) ↦ absurd (true-ne-false (sym does ∙ does_not))
    | inr (inr (does_not, _, _, _)) ↦ absurd (true-ne-false (sym does ∙ does_not))
  ]

  -- What can be seen on the disk: wherever the execution stops, recovery gives files that hold the
  -- state before or the next one, and if nothing raises in the commit, it succeeds and its files hold
  -- the next state.
  abbrev pub IsWhole : LocalState → Run → Type 0
  IsWhole s' r =
      (faults.ending ≡ completes → (r.outcome ≡ ok tt) × (local_state codec r.disk.files ≡ some s'))
      × All (λ d. Holds codec coordinator s d ⊎ Holds codec coordinator s' d) r.images

  -- For a ChangeSet that can be applied to the state that the files hold, where what is written for it
  -- is read back and no exception comes after the journal is written as committed: after a crash at any
  -- durable step recovery gives files that hold the state before or the state that the ChangeSet makes,
  -- in all three files; and if nothing raises in the commit, it is committed on the disk and the files
  -- hold the state that it makes.
  pub apply_on_disk-IsWhole :
      (next : Graph) (s' : LocalState)
      → is_late faults.ending ≡ false
      → apply c created closed s ≡ ok (next, s')
      → ((lines : File) → s'.cases ≡ s.cases ++ lines → ReadsBack codec files s c next lines)
      → (r : Run) × (apply_on_disk codec coordinator id faults c created closed (at_rest files)
          ≡ ok r)
        × IsWhole s' r
  apply_on_disk-IsWhole next s' early applied back =
      let a = Applied-of_ok c created closed s next s' applied in
      let body = body_of codec c (ok (next, a.lines)) in
      let blocked = block_of a.effects (ok (next, a.lines)) a.valid in
      let r = transact coordinator id faults body files in
      let held' =
        local_state-written codec files s c next a.lines held
          (back a.lines (ap (λ (t : LocalState). t.cases) a.made))
        ∙ ap some (sym a.made) in
      let ended = λ (does : commits coordinator faults body ≡ true).
        ap (λ (d : Disk). local_state codec d.files) (committed_run body does).1 ∙ held' in
      (
        r,
        runs a.effects a.checked ∙ ap (λ b. ok (transact coordinator id faults b files)) blocked,
        (
          λ done.
              let does = known_ops next a.lines done in ((committed_run body does).0, ended does),
          All-implied (λ d. Holds codec coordinator s d ⊎ Holds codec coordinator s' d)
              (IsAtomic coordinator id files distinct r) r.images
              (λ d atomic. elim atomic [
                | inl (found, start, recovers, same) ↦
                    inl (found, start, recovers, local_state-same codec start files same ∙ held)
                | inr (out, (found, start, recovers, same)) ↦
                    let does =
                      commits_of_ok coordinator files faults body r
                        (transact-Ends coordinator id files faults body distinct) out in
                    inr (
                      found,
                      start,
                      recovers,
                      local_state-same codec start r.disk.files same ∙ ended does,
                    )
              ])
              (transact-IsAtomic coordinator id files distinct faults body early),
        ),
      )
