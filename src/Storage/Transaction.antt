-- ===== src/Storage/Transaction.antt =====
-- Local transactions: src/intent_engineering/storage/transaction.py. The state is what is durable:
-- the journal and the files of the targets. The locks make one coordinator run at a time, and a
-- write, an append and an unlink of one file are atomic, as src/intent_engineering/storage/secure.py
-- makes them. The journal is what its JSON form is read back as.
pub mod Restore
pub mod Crash
pub mod Outcome
use intent_engineer.Base.{
  ℕ, zero, suc, String, Bool, true, false, not, ◌&&◌, ◌||◌, Option, none, some, List, [], ◌∷◌, ◌++◌,
  ◌==◌, any, all, map, if◌then◌else◌, Result, ok, err, ◌>>=◌, ◌>>◌, raise_if,
}
use intent_engineer.Base.Texts.{elem, is_distinct}
use intent_engineer.Base.Sorted.{sort}
use intent_engineer.Base.Dict.{Dict, lookup, insert}

abbrev pub Bytes : Type 0
Bytes = List ℕ

-- The files of the targets by name; a file that is not there has no entry.
abbrev pub Files : Type 0
Files = Dict Bytes

pub data JournalState : Type 0 where
  prepared committed : JournalState

pub record Preimage : Type 0 where
  pub target : String
  pub content : Option Bytes

pub record Journal : Type 0 where
  pub state : JournalState
  pub transaction_id : String
  pub preimages : List Preimage

-- The file of the journal: not there, unreadable, or a journal.
pub data JournalFile : Type 0 where
  absent unreadable : JournalFile
  present : Journal → JournalFile

pub record Disk : Type 0 where
  pub journal : JournalFile
  pub files : Files

pub data TransactionError : Type 0 where
  recovery_failed unknown_target body_failed commit_failed : TransactionError

-- The fixed part of a `LocalTransactionCoordinator`.
pub record Coordinator : Type 0 where
  pub targets : List String
  pub legacy_target_sets : List (List String)

-- `target.unlink(missing_ok=True)`
abbrev pub unlink : String → Files → Files
unlink k [] = []
unlink k ((j, v) ∷ d) = if j == k then unlink k d else (j, v) ∷ unlink k d

-- `_snapshot`, over the sorted names
unfoldable pub snapshot_of : List String → Files → List Preimage
snapshot_of [] files = []
snapshot_of (k ∷ ks) files = record { target = k; content = lookup k files } ∷ snapshot_of ks files

unfoldable pub snapshot : Coordinator → Files → List Preimage
unfolding snapshot_of sort
snapshot c files = snapshot_of (sort c.targets) files

-- One step of `_restore`.
unfoldable pub restore_one : Preimage → Files → Files
restore_one p files = elim p.content [
  | none ↦ unlink p.target files
  | some b ↦ insert p.target b files
]

-- `_restore`
unfoldable pub restore : List Preimage → Files → Files
unfolding restore_one
restore [] files = files
restore (p ∷ ps) files = restore ps (restore_one p files)

abbrev pub names_of : List Preimage → List String
names_of = map (λ p. p.target)

-- `set(xs) == set(ys)`
abbrev pub same_set : List String → List String → Bool
same_set xs ys = all (λ x. elem x ys) xs && all (λ y. elem y xs) ys

-- The check of the names in `_read_journal`
unfoldable pub names_match : Coordinator → List String → Bool
names_match c names =
    is_distinct names && (same_set names c.targets || any (same_set names) c.legacy_target_sets)

-- `_recover_unlocked`: whether there was something to recover, and the state afterwards
unfoldable pub recover : Coordinator → Disk → Result TransactionError (Bool × Disk)
unfolding names_match restore
recover c d = elim d.journal [
  | absent ↦ ok (false, d)
  | unreadable ↦ err recovery_failed
  | present j ↦
      raise_if (not (names_match c (names_of j.preimages))) recovery_failed
      >> ok (
        true,
        record {
          journal = absent;
          files = elim j.state [ prepared ↦ restore j.preimages d.files | committed ↦ d.files ];
        },
      )
]

-- `LocalTransaction.write` and `LocalTransaction.append`
pub data Op : Type 0 where
  write append : String → Bytes → Op

abbrev pub target_of : Op → String
target_of (write k b) = k
target_of (append k b) = k

abbrev pub content_after : Op → Files → Bytes
content_after (write k b) files = b
content_after (append k b) files = elim (lookup k files) [ none ↦ b | some old ↦ old ++ b ]

abbrev pub apply_op : Op → Files → Files
apply_op o files = insert (target_of o) (content_after o files) files

-- What the client does inside the `with` block: the operations it asks for, and whether it then
-- leaves the block by an exception. An operation on an unknown target is one.
pub record Body : Type 0 where
  pub ops : List Op
  pub raises : Bool

-- The state after each operation that was carried out, and whether all of them were.
unfoldable pub run_ops : Coordinator → List Op → Files → List Files × Bool
run_ops c [] files = ([], true)
run_ops c (o ∷ os) files =
    let rest = run_ops c os (apply_op o files) in
    if elem (target_of o) c.targets then (apply_op o files ∷ rest.0, rest.1) else ([], false)

-- The state after each step of `_restore`.
unfoldable pub restore_images : List Preimage → Files → List Files
unfolding restore_one
restore_images [] files = []
restore_images (p ∷ ps) files = restore_one p files ∷ restore_images ps (restore_one p files)

-- The last one, or the one before them.
abbrev pub last_of : Files → List Files → Files
last_of f [] = f
last_of f (g ∷ gs) = last_of g gs

pub record Run : Type 0 where
  pub outcome : Result TransactionError Unit
  pub images : List Disk
  pub disk : Disk

abbrev pub with_journal : JournalState → String → List Preimage → Files → Disk
with_journal state id preimages files = record {
  journal = present (record { state = state; transaction_id = id; preimages = preimages });
  files = files;
}

abbrev pub at_rest : Files → Disk
at_rest files = record { journal = absent; files = files }

-- What raises once the block was left without an exception: nothing, the write of the committed
-- journal before it takes effect, what follows that write, or what follows the removal of the journal.
pub data Ending : Type 0 where
  completes raises_before raises_committed raises_removed : Ending

-- The faults of a run: its ending, and after how many steps its restoration is left by an exception,
-- if it is left by one. The removal of the journal is the step after the last file.
pub record Faults : Type 0 where
  pub ending : Ending
  pub restoring : Option ℕ

abbrev pub no_faults : Faults
no_faults = record { ending = completes; restoring = none }

-- Whether an exception comes after the journal is committed.
abbrev pub is_late : Ending → Bool
is_late completes = false
is_late raises_before = false
is_late raises_committed = true
is_late raises_removed = true

abbrev pub journal_file : JournalState → String → List Preimage → JournalFile
journal_file state id preimages =
    present (record { state = state; transaction_id = id; preimages = preimages })

abbrev pub on_disk : JournalFile → Files → Disk
on_disk journal files = record { journal = journal; files = files }

abbrev pub first_steps : {A : Type 0} → ℕ → List A → List A
first_steps zero xs = []
first_steps (suc n) [] = []
first_steps (suc n) (x ∷ xs) = x ∷ first_steps n xs

-- The handler: the preimages are restored and the journal, in whatever state it is, is removed. The
-- states before are those of the disk so far, the files those that are there then.
unfoldable pub roll_back :
    TransactionError → JournalFile → Option ℕ → List Disk → List Preimage → Files → Run
unfolding restore restore_images
roll_back e journal none before preimages files = record {
  outcome = err e;
  images =
      before
      ++ (map (on_disk journal) (restore_images preimages files)
          ++ at_rest (restore preimages files) ∷ []);
  disk = at_rest (restore preimages files);
}
roll_back e journal (some n) before preimages files = record {
  outcome = err recovery_failed;
  images = before ++ map (on_disk journal) (first_steps n (restore_images preimages files));
  disk = on_disk journal (last_of files (first_steps n (restore_images preimages files)));
}

-- The states of the disk while the block runs.
abbrev pub block_images : String → List Preimage → Files → List Files → List Disk
block_images id preimages files written = map (with_journal prepared id preimages) (files ∷ written)

-- The block was left without an exception: the journal is committed and then removed.
unfoldable pub commit : Faults → String → List Preimage → Files → List Files → Run
unfolding roll_back
commit faults id preimages files written =
    let before = block_images id preimages files written in
    let last = last_of files written in
    let marked = with_journal committed id preimages last in
    elim faults.ending [
      | completes ↦ record {
        outcome = ok tt;
        images = before ++ (marked ∷ at_rest last ∷ []);
        disk = at_rest last;
      }
      | raises_before ↦
          roll_back commit_failed (journal_file prepared id preimages) faults.restoring before
            preimages last
      | raises_committed ↦
          roll_back commit_failed (journal_file committed id preimages) faults.restoring
            (before ++ marked ∷ []) preimages last
      | raises_removed ↦
          roll_back commit_failed absent faults.restoring (before ++ (marked ∷ at_rest last ∷ []))
            preimages last
    ]

-- The block was left by an exception.
unfoldable pub abandon :
    TransactionError → Faults → String → List Preimage → Files → List Files → Run
unfolding roll_back
abandon e faults id preimages files written =
    roll_back e (journal_file prepared id preimages) faults.restoring
      (block_images id preimages files written) preimages (last_of files written)

-- `transaction` from a disk without a journal, once the journal is prepared.
unfoldable pub transact : Coordinator → String → Faults → Body → Files → Run
unfolding snapshot run_ops commit abandon
transact c id faults body files =
    let preimages = snapshot c files in
    let done = run_ops c body.ops files in
    if done.1
    then (if body.raises
        then abandon body_failed faults id preimages files done.0
        else commit faults id preimages files done.0)
    else abandon unknown_target faults id preimages files done.0

-- `transaction`: recovery of what an earlier process left, and then the run.
unfoldable pub transaction :
    Coordinator → String → Faults → Body → Disk → Result TransactionError Run
unfolding recover transact
transaction c id faults body d = do
  (found, clean) ← recover c d
  ok (transact c id faults body clean.files)

-- The durable states of `_recover_unlocked` in their order, where a journal is there to recover.
unfoldable pub recover_images : Journal → Files → List Disk
unfolding restore restore_images
recover_images j files = elim j.state [
  | committed ↦ with_journal committed j.transaction_id j.preimages files ∷ at_rest files ∷ []
  | prepared ↦
      map (with_journal prepared j.transaction_id j.preimages)
        (files ∷ restore_images j.preimages files)
      ++ at_rest (restore j.preimages files) ∷ []
]
