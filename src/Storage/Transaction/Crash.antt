-- ===== src/Storage/Transaction/Crash.antt =====
-- A crash at any point of a transaction of src/intent_engineering/storage/transaction.py, or of its
-- recovery, leaves a state from which recovery makes the old files or the new ones.
use intent_engineer.Base.{
  ℕ, zero, suc, true-ne-false, Option, none, some, All-implied, String, Bool, true, false, List, [],
  ◌∷◌, ◌++◌, map, ◌==◌, ◌≡◌, ◌⊎◌, refl, sym, ap, subst, ◌∙◌, arith, inl, inr, Bool-cases, All,
  All-append, All-map, all, eq_iff, eq_refl, ok,
}
use intent_engineer.Base.Texts.{elem, is_distinct, is_distinct_iff}
use intent_engineer.Base.Sorted.{sort, elem-sort, Distinct-sort}
use intent_engineer.Base.Dict.{lookup-insert}
use intent_engineer.Storage.Transaction.{
  Files, prepared, committed, Disk, TransactionError, unknown_target, body_failed, Coordinator,
  snapshot, restore, restore_images, names_of, names_match, recover, Op, target_of, content_after,
  apply_op, Body, run_ops, last_of, with_journal, at_rest, Run, Ending, completes, raises_before,
  raises_committed, raises_removed, Faults, is_late, journal_file, on_disk, first_steps,
  block_images, commit_failed, commit, roll_back, abandon, transact,
}
use intent_engineer.Storage.Transaction.Restore.{
  SameFiles, SameOutside, restore_same, restore-snapshot_of, names_of-snapshot_of,
  restore_images-SameOutside,
}

-- Recovery from the state succeeds, leaves no journal, and makes the files.
abbrev pub RecoversTo : Coordinator → Files → Disk → Type 0
RecoversTo c goal d =
    (found : Bool) × (files : Files) × (recover c d ≡ ok (found, at_rest files))
    × SameFiles files goal

All-last_of : (P : Files → Type 0) (f : Files) (gs : List Files) → P f → All P gs → P (last_of f gs)
All-last_of P f [] h k = h
All-last_of P f (g ∷ gs) h (a, k) = All-last_of P g gs a k

All-first_steps :
    (P : Files → Type 0) (n : ℕ) (fs : List Files) → All P fs → All P (first_steps n fs)
All-first_steps P zero fs h = tt
All-first_steps P (suc n) [] h = tt
All-first_steps P (suc n) (f ∷ fs) (a, h) = (a, All-first_steps P n fs h)

apply_op-SameOutside :
    (names : List String) (o : Op) (start f : Files)
    → elem (target_of o) names ≡ true
    → SameOutside names start f
    → SameOutside names start (apply_op o f)
apply_op-SameOutside names o start f inside h k out =
    h k out
    ∙ sym (
        lookup-insert (target_of o) k (content_after o f) f ∙ elim (Bool-cases (target_of o == k)) [
          | inl same ↦ absurd (
              ground (arith, out, inside, ap (λ j. elem j names) ((eq_iff (target_of o) k).0 same)))
          | inr other ↦ ground (arith, other)
        ])

-- The operations change the files of targets only.
run_ops-SameOutside :
    (c : Coordinator) (ops : List Op) (start f : Files)
    → SameOutside c.targets start f
    → All (SameOutside c.targets start) (run_ops c ops f).0
unfolding run_ops
run_ops-SameOutside c [] start f h = tt
run_ops-SameOutside c (o ∷ os) start f h = elim (Bool-cases (elem (target_of o) c.targets)) [
  | inr unknown ↦ rw (unknown) tt
  | inl known ↦
      let next = apply_op-SameOutside c.targets o start f known h in
      rw (known) (next, run_ops-SameOutside c os start (apply_op o f) next)
]

all-of :
    (test : String → Bool) (xs : List String)
    → ((k : String) → elem k xs ≡ true → test k ≡ true)
    → all test xs ≡ true
all-of test [] h = refl
all-of test (x ∷ xs) h =
    ground (arith, h x (ground (arith, eq_refl x)), all-of test xs (λ k e. h k (ground (arith, e))))

pub All-elem :
    (names ks : List String)
    → ((k : String) → elem k ks ≡ true → elem k names ≡ true)
    → All (λ j. elem j names ≡ true) ks
All-elem names [] h = tt
All-elem names (k ∷ ks) h =
    (h k (ground (arith, eq_refl k)), All-elem names ks (λ j e. h j (ground (arith, e))))

module _ (c : Coordinator) (id : String) (files : Files)
    (distinct : is_distinct c.targets ≡ true) where
  names_of-snapshot : names_of (snapshot c files) ≡ sort c.targets
  unfolding snapshot
  names_of-snapshot = names_of-snapshot_of (sort c.targets) files

  names_match-snapshot : names_match c (names_of (snapshot c files)) ≡ true
  unfolding names_match
  names_match-snapshot =
      let sorted = sort c.targets in
      let d =
        (is_distinct_iff sorted).1
          (Distinct-sort c.targets ((is_distinct_iff c.targets).0 distinct)) in
      let there = all-of (λ x. elem x c.targets) sorted (λ k e. sym (elem-sort k c.targets) ∙ e) in
      let back = all-of (λ y. elem y sorted) c.targets (λ k e. elem-sort k c.targets ∙ e) in
      rw (names_of-snapshot) (ground (arith, d, there, back))

  outside_snapshot :
      (f g : Files) → SameOutside c.targets f g → SameOutside (names_of (snapshot c files)) f g
  outside_snapshot f g h k out =
      h k (sym (elem-sort k c.targets) ∙ (ap (elem k) (sym names_of-snapshot) ∙ out))

  restore-snapshot_self : SameFiles (restore (snapshot c files) files) files
  unfolding snapshot
  restore-snapshot_self = restore-snapshot_of (sort c.targets) files files (λ k. refl)

  restore-snapshot :
      (g : Files) → SameOutside c.targets files g → SameFiles (restore (snapshot c files) g) files
  restore-snapshot g h k =
      sym (restore_same (snapshot c files) files g (outside_snapshot files g h) k)
      ∙ restore-snapshot_self k

  recover-prepared :
      (g : Files)
      → SameOutside c.targets files g
      → RecoversTo c files (with_journal prepared id (snapshot c files) g)
  unfolding recover
  recover-prepared g h =
      (true, restore (snapshot c files) g, rw (names_match-snapshot) refl, restore-snapshot g h)

  recover-committed : (g : Files) → RecoversTo c g (with_journal committed id (snapshot c files) g)
  unfolding recover
  recover-committed g = (true, g, rw (names_match-snapshot) refl, λ k. refl)

  recover-at_rest : (g goal : Files) → SameFiles g goal → RecoversTo c goal (at_rest g)
  unfolding recover
  recover-at_rest g goal h = (false, g, refl, h)

  -- From the state a crash is recovered from to the files before, or, if the run commits, to those
  -- after.
  abbrev pub IsAtomic : Run → Disk → Type 0
  IsAtomic r d = RecoversTo c files d ⊎ ((r.outcome ≡ ok tt) × RecoversTo c r.disk.files d)

  module _ (written : List Files) (inside : All (SameOutside c.targets files) written) where
    last-SameOutside : SameOutside c.targets files (last_of files written)
    last-SameOutside =
        All-last_of (SameOutside c.targets files) files written (λ k out. refl) inside

    block_images-RecoversTo :
        All (RecoversTo c files) (block_images id (snapshot c files) files written)
    block_images-RecoversTo =
        All-map (RecoversTo c files) (with_journal prepared id (snapshot c files))
          (SameOutside c.targets files) recover-prepared (files ∷ written) (λ k out. refl, inside)

    pub roll_back-restores : SameFiles (restore (snapshot c files) (last_of files written)) files
    roll_back-restores = restore-snapshot (last_of files written) last-SameOutside

    restore_images-inside :
        All
          (SameOutside c.targets files)
          (restore_images (snapshot c files) (last_of files written))
    restore_images-inside =
        restore_images-SameOutside c.targets (snapshot c files) files (last_of files written)
          (subst (All (λ j. elem j c.targets ≡ true)) (sym names_of-snapshot)
            (All-elem c.targets (sort c.targets) (λ k e. sym (elem-sort k c.targets) ∙ e)))
          last-SameOutside

    roll_back-RecoversTo :
        (e : TransactionError) (restoring : Option ℕ)
        → All
            (RecoversTo c files)
            (roll_back e
              (journal_file prepared id (snapshot c files))
              restoring
              (block_images id (snapshot c files) files written)
              (snapshot c files)
              (last_of files written)).images
    unfolding roll_back
    roll_back-RecoversTo e none =
        let on = on_disk (journal_file prepared id (snapshot c files)) in
        let images = restore_images (snapshot c files) (last_of files written) in
        let ended = at_rest (restore (snapshot c files) (last_of files written)) in
        All-append (RecoversTo c files) (block_images id (snapshot c files) files written)
          (map on images ++ ended ∷ []) block_images-RecoversTo
          (All-append (RecoversTo c files) (map on images) (ended ∷ [])
            (All-map (RecoversTo c files) on (SameOutside c.targets files) recover-prepared images
              restore_images-inside)
            (recover-at_rest _ files roll_back-restores, tt))
    roll_back-RecoversTo e (some n) =
        let on = on_disk (journal_file prepared id (snapshot c files)) in
        let images = restore_images (snapshot c files) (last_of files written) in
        All-append (RecoversTo c files) (block_images id (snapshot c files) files written)
          (map on (first_steps n images)) block_images-RecoversTo
          (All-map (RecoversTo c files) on (SameOutside c.targets files) recover-prepared
            (first_steps n images)
            (All-first_steps (SameOutside c.targets files) n images restore_images-inside))

    -- A restoration that an exception stops leaves a prepared journal and files to restore.
    pub stopped-RecoversTo :
        (n : ℕ)
        → RecoversTo c files (
            with_journal prepared id (snapshot c files) (
              last_of
                (last_of files written)
                (first_steps n (restore_images (snapshot c files) (last_of files written)))))
    stopped-RecoversTo n =
        let images = restore_images (snapshot c files) (last_of files written) in
        recover-prepared _ (
          All-last_of (SameOutside c.targets files) (last_of files written) (first_steps n images)
            last-SameOutside
            (All-first_steps (SameOutside c.targets files) n images restore_images-inside))

    abandon-IsAtomic :
        (e : TransactionError) (faults : Faults)
        → let r = abandon e faults id (snapshot c files) files written in All (IsAtomic r) r.images
    unfolding abandon
    abandon-IsAtomic e faults =
        let r = abandon e faults id (snapshot c files) files written in
        All-implied (IsAtomic r) (RecoversTo c files) r.images (λ d h. inl h)
          (roll_back-RecoversTo e faults.restoring)

    commit-IsAtomic :
        (ending : Ending) (restoring : Option ℕ)
        → is_late ending ≡ false
        → let r =
            commit
              (record { ending = ending; restoring = restoring })
              id
              (snapshot c files)
              files
              written in
          All (IsAtomic r) r.images
    unfolding commit
    commit-IsAtomic completes restoring early =
        let r =
          commit (record { ending = completes; restoring = restoring }) id (snapshot c files) files
            written in
        let last = last_of files written in
        let before = block_images id (snapshot c files) files written in
        All-append (IsAtomic r) before
          (with_journal committed id (snapshot c files) last ∷ at_rest last ∷ [])
          (All-implied (IsAtomic r) (RecoversTo c files) before (λ d h. inl h)
            block_images-RecoversTo)
          (
            inr (refl, recover-committed last),
            (inr (refl, recover-at_rest last last (λ k. refl)), tt),
          )
    commit-IsAtomic raises_before restoring early =
        let r =
          commit (record { ending = raises_before; restoring = restoring }) id (snapshot c files)
            files written in
        All-implied (IsAtomic r) (RecoversTo c files) r.images (λ d h. inl h)
          (roll_back-RecoversTo commit_failed restoring)
    commit-IsAtomic raises_committed restoring early = absurd (true-ne-false early)
    commit-IsAtomic raises_removed restoring early = absurd (true-ne-false early)

  pub written-SameOutside :
      (body : Body) → All (SameOutside c.targets files) (run_ops c body.ops files).0
  written-SameOutside body = run_ops-SameOutside c body.ops files files (λ k out. refl)

  -- Where the names of the targets do not repeat and no exception comes after the journal is written
  -- as committed, a crash of a transaction after any of its durable steps, those of a rollback that may
  -- itself fail included, leaves a state that recovery accepts, and from which it makes the files as
  -- they were before the transaction or, only if the transaction commits, as it leaves them; the
  -- journal is gone then.
  pub transact-IsAtomic :
      (faults : Faults) (body : Body)
      → is_late faults.ending ≡ false
      → let r = transact c id faults body files in All (IsAtomic r) r.images
  unfolding transact
  transact-IsAtomic faults body early =
      let done = run_ops c body.ops files in
      let inside = written-SameOutside body in
      elim (Bool-cases done.1) [
        | inr unknown ↦ rw (unknown) (abandon-IsAtomic done.0 inside unknown_target faults)
        | inl all_known ↦ elim (Bool-cases body.raises) [
          | inl raised ↦ rw (all_known, raised) (abandon-IsAtomic done.0 inside body_failed faults)
          | inr left ↦
              rw (all_known, left)
                (commit-IsAtomic done.0 inside faults.ending faults.restoring early)
        ]
      ]
