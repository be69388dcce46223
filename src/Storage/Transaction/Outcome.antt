-- ===== src/Storage/Transaction/Outcome.antt =====
-- How a transaction of src/intent_engineering/storage/transaction.py ends, and that its recovery may
-- be interrupted and run again.
use intent_engineer.Base.{
  ℕ, Option, none, some, is_none, subst, if-true, if-false, true-ne-false, err, String, Bool, true,
  false, not, List, [], ◌∷◌, map, ◌≡◌, ◌≢◌, ◌⊎◌, ◌&&◌, refl, sym, ap, arith, inl, inr, Bool-cases,
  All, All-append, All-map, All-implied, all, ok,
}
use intent_engineer.Base.Texts.{elem, is_distinct}
use intent_engineer.Storage.Transaction.{
  Files, Preimage, Journal, JournalState, prepared, committed, Coordinator, restore, restore_images,
  names_of, names_match, recover, Op, target_of, apply_op, Body, run_ops, last_of, with_journal,
  at_rest, Run, Disk, TransactionError, recovery_failed, unknown_target, body_failed, commit_failed,
  JournalFile, absent, snapshot, Ending, completes, raises_before, raises_committed, raises_removed,
  Faults, is_late, journal_file, on_disk, first_steps, roll_back, abandon, commit, transact,
  transaction, recover_images,
}
use intent_engineer.Storage.Transaction.Restore.{
  SameFiles, SameOutside, restore_same, restore_images-SameOutside,
}
use intent_engineer.Storage.Transaction.Crash.{
  RecoversTo, IsAtomic, transact-IsAtomic, roll_back-restores, stopped-RecoversTo,
  written-SameOutside, All-elem,
}

-- The operations one after the other.
abbrev pub apply_all : List Op → Files → Files
apply_all [] files = files
apply_all (o ∷ os) files = apply_all os (apply_op o files)

abbrev pub all_known : Coordinator → List Op → Bool
all_known c ops = all (λ o. elem (target_of o) c.targets) ops

run_ops-known :
    (c : Coordinator) (ops : List Op) (f : Files) → (run_ops c ops f).1 ≡ all_known c ops
unfolding run_ops
run_ops-known c [] f = refl
run_ops-known c (o ∷ os) f = elim (Bool-cases (elem (target_of o) c.targets)) [
  | inr unknown ↦ rw (unknown) refl
  | inl known ↦ rw (known) (run_ops-known c os (apply_op o f))
]

last_of-run_ops :
    (c : Coordinator) (ops : List Op) (f : Files)
    → all_known c ops ≡ true
    → last_of f (run_ops c ops f).0 ≡ apply_all ops f
unfolding run_ops
last_of-run_ops c [] f h = refl
last_of-run_ops c (o ∷ os) f h = elim (Bool-cases (elem (target_of o) c.targets)) [
  | inr unknown ↦ absurd (ground (arith, h, unknown))
  | inl known ↦ rw (known) (last_of-run_ops c os (apply_op o f) (ground (arith, h, known)))
]

abbrev pub completes? : Ending → Bool
completes? completes = true
completes? _ = false

abbrev pub commits : Coordinator → Faults → Body → Bool
commits c faults body = all_known c body.ops && (not body.raises && completes? faults.ending)

-- The three ways in which a transaction ends: it commits; it fails and is restored; it fails, and its
-- restoration fails too, after which recovery restores it if the journal was not committed.
abbrev pub Ends : Coordinator → Faults → Body → Files → Run → Type 0
Ends c faults body files r =
    ((commits c faults body ≡ true)
      × (r.outcome ≡ ok tt)
      × (r.disk ≡ at_rest (apply_all body.ops files)))
    ⊎ (((commits c faults body ≡ false)
          × (faults.restoring ≡ none)
          × (r.outcome ≢ ok tt)
          × (r.disk.journal ≡ absent)
          × SameFiles r.disk.files files)
        ⊎ ((commits c faults body ≡ false)
            × (is_none faults.restoring ≡ false)
            × (r.outcome ≡ err recovery_failed)
            × (is_late faults.ending ≡ false → RecoversTo c files r.disk)))

module _ (c : Coordinator) (id : String) (files : Files)
    (distinct : is_distinct c.targets ≡ true) where
  -- The end of a restoration, from a journal that is prepared unless the ending is late.
  roll_back-Ends :
      (e : TransactionError) (faults : Faults) (body : Body) (journal : JournalFile)
      (before : List Disk)
      → let written = (run_ops c body.ops files).0 in
        commits c faults body ≡ false
        → (is_late faults.ending ≡ false → journal ≡ journal_file prepared id (snapshot c files))
        → Ends c faults body files
            (roll_back e journal faults.restoring before (snapshot c files) (last_of files written))
  unfolding roll_back
  roll_back-Ends e faults body journal before fails early = go faults.restoring refl
    where
      go :
          (restoring : Option ℕ)
          → faults.restoring ≡ restoring
          → let written = (run_ops c body.ops files).0 in
            Ends c faults body files
              (roll_back e journal restoring before (snapshot c files) (last_of files written))
      go none same =
          let inside = written-SameOutside c id files distinct body in
          inr (
            inl (
              fails,
              same,
              λ h. cc,
              refl,
              roll_back-restores c id files distinct (run_ops c body.ops files).0 inside,
            ))
      go (some n) same =
          let inside = written-SameOutside c id files distinct body in
          let written = (run_ops c body.ops files).0 in
          inr (
            inr (
              fails,
              ap is_none same,
              refl,
              λ on_time.
                  subst
                    (λ j. RecoversTo c files (
                      on_disk j (
                        last_of (last_of files written) (
                          first_steps n
                            (restore_images (snapshot c files) (last_of files written))))))
                    (sym (early on_time)) (stopped-RecoversTo c id files distinct written inside n),
            ))

  abandon-Ends :
      (e : TransactionError) (faults : Faults) (body : Body)
      → commits c faults body ≡ false
      → Ends c faults body files
          (abandon e faults id (snapshot c files) files (run_ops c body.ops files).0)
  unfolding abandon
  abandon-Ends e faults body fails = roll_back-Ends e faults body _ _ fails (λ _. refl)

  commit-Ends :
      (ending : Ending) (restoring : Option ℕ) (body : Body)
      → (all_known c body.ops && not body.raises) ≡ true
      → let faults : Faults = record { ending = ending; restoring = restoring } in
        Ends c faults body files
          (commit faults id (snapshot c files) files (run_ops c body.ops files).0)
  unfolding commit
  commit-Ends completes restoring body left =
      let last = last_of-run_ops c body.ops files (ground (arith, left)) in
      inl (ground (arith, left), refl, ap at_rest last)
  commit-Ends raises_before restoring body left =
      roll_back-Ends commit_failed (record { ending = raises_before; restoring = restoring }) body _
        _ (ground (arith, left)) (λ _. refl)
  commit-Ends raises_committed restoring body left =
      roll_back-Ends commit_failed (record { ending = raises_committed; restoring = restoring })
        body _ _ (ground (arith, left)) (λ h. absurd (true-ne-false h))
  commit-Ends raises_removed restoring body left =
      roll_back-Ends commit_failed (record { ending = raises_removed; restoring = restoring }) body
        _ _ (ground (arith, left)) (λ h. absurd (true-ne-false h))

-- Where the names of the targets do not repeat, a transaction commits exactly if its block was left
-- without an exception and asked for known targets only, and nothing raises in the commit that
-- follows; the files are then those that its operations make one after the other. Otherwise it fails.
-- Unless an exception leaves the restoration too, the files are then what they were and the journal is
-- gone; if one does, recovery from the disk that is left makes the files what they were, provided
-- that no exception came after the journal was committed.
pub transact-Ends :
    (c : Coordinator) (id : String) (files : Files) (faults : Faults) (body : Body)
    → is_distinct c.targets ≡ true
    → Ends c faults body files (transact c id faults body files)
unfolding transact
transact-Ends c id files faults body distinct =
    let done = run_ops c body.ops files in
    let known = run_ops-known c body.ops files in
    elim (Bool-cases done.1) [
      | inr unknown ↦ rw (unknown) (
          abandon-Ends c id files distinct unknown_target faults body
            (ground (arith, known, unknown)))
      | inl all_found ↦ elim (Bool-cases body.raises) [
        | inl raised ↦
            subst (Ends c faults body files) (if-true _ _ _ raised (if-true _ _ _ all_found refl))
              (abandon-Ends c id files distinct body_failed faults body (ground (arith, raised)))
        | inr left ↦
            subst (Ends c faults body files) (if-false _ _ _ left (if-true _ _ _ all_found refl)) (
              commit-Ends c id files distinct faults.ending faults.restoring body
                (ground (arith, known, all_found, left)))
      ]
    ]

pub commits_of_ok :
    (c : Coordinator) (files : Files) (faults : Faults) (body : Body) (r : Run)
    → Ends c faults body files r
    → r.outcome ≡ ok tt
    → commits c faults body ≡ true
commits_of_ok c files faults body r (inl (yes_it_does, _, _)) h = yes_it_does
commits_of_ok c files faults body r (inr (inl (_, _, failed, _, _))) h = absurd (failed h)
commits_of_ok c files faults body r (inr (inr (_, _, failed, _))) h = cc

-- What a later transaction does from a durable state of the run of an earlier one.
abbrev pub GoesOn :
    Coordinator → String → Faults → Body → Files → Faults → Body → Run → Disk → Type 0
GoesOn c id later_faults later files faults body r d =
    (start : Files) × (transaction c id later_faults later d
      ≡ ok (transact c id later_faults later start))
    × (SameFiles start files ⊎ ((commits c faults body ≡ true) × SameFiles start r.disk.files))

-- Where the names of the targets do not repeat, a transaction that follows a crash of another one,
-- after any of its durable steps, is not refused, provided that no exception came after the journal of
-- that one was committed: it runs from the files before that one or, only if that one commits, from
-- those that it leaves.
pub transaction-GoesOn :
    (c : Coordinator) (id id' : String) (files : Files) (faults later_faults : Faults)
    (body later : Body)
    → is_distinct c.targets ≡ true
    → is_late faults.ending ≡ false
    → let r = transact c id faults body files in
      All (GoesOn c id' later_faults later files faults body r) r.images
unfolding transaction
transaction-GoesOn c id id' files faults later_faults body later distinct early =
    let r = transact c id faults body files in
    let ends = transact-Ends c id files faults body distinct in
    All-implied (GoesOn c id' later_faults later files faults body r)
      (IsAtomic c id files distinct r) r.images
      (λ d a. elim a [
        | inl (found, start, recovers, same) ↦ (start, rw (recovers) refl, inl same)
        | inr (done, (found, start, recovers, same)) ↦
            (start, rw (recovers) refl, inr (commits_of_ok c files faults body r ends done, same))
      ])
      (transact-IsAtomic c id files distinct faults body early)

abbrev pub journal_of : JournalState → String → List Preimage → Journal
journal_of state id ps = record { state = state; transaction_id = id; preimages = ps }

-- What recovery makes of the files.
unfoldable pub recovered : JournalState → List Preimage → Files → Files
unfolding restore
recovered prepared ps files = restore ps files
recovered committed ps files = files

module _ (c : Coordinator) (id : String) (ps : List Preimage) (files : Files)
    (accepted : names_match c (names_of ps) ≡ true) where
  recovers_on_the_way :
      (g : Files)
      → SameOutside (names_of ps) files g
      → RecoversTo c (restore ps files) (with_journal prepared id ps g)
  unfolding recover
  recovers_on_the_way g h =
      (true, restore ps g, rw (accepted) refl, restore_same ps g files (λ k out. sym (h k out)))

  at_rest_recovers : (g : Files) → RecoversTo c g (at_rest g)
  unfolding recover
  at_rest_recovers g = (false, g, refl, λ k. refl)

  committed_recovers : RecoversTo c files (with_journal committed id ps files)
  unfolding recover
  committed_recovers = (true, files, rw (accepted) refl, λ k. refl)

  -- A recovery that is interrupted after any of its durable steps can be run again: where the names
  -- in the journal are accepted, it makes from each of these states the files that it makes from
  -- the first.
  pub recover-again :
      (state : JournalState)
      → All
          (RecoversTo c (recovered state ps files))
          (recover_images (journal_of state id ps) files)
  unfolding recover_images recovered
  recover-again committed = (committed_recovers, (at_rest_recovers files, tt))
  recover-again prepared =
      All-append (RecoversTo c (restore ps files))
        (map (with_journal prepared id ps) (files ∷ restore_images ps files))
        (at_rest (restore ps files) ∷ [])
        (All-map (RecoversTo c (restore ps files)) (with_journal prepared id ps)
          (SameOutside (names_of ps) files) recovers_on_the_way (files ∷ restore_images ps files)
          (
            λ k out. refl,
            restore_images-SameOutside (names_of ps) ps files files
                (All-elem (names_of ps) (names_of ps) (λ k e. e)) (λ k out. refl),
          ))
        (at_rest_recovers (restore ps files), tt)
