-- ===== src/Tests/Storage.antt =====
-- The models of src/intent_engineering/storage and of the access checks on small inputs.
use intent_engineer.Base.{
  true, ◌⊎◌, false, none, some, List, [], ◌∷◌, ◌++◌, ◌≡◌, ◌↔◌, refl, ok, All,
}
use intent_engineer.Base.Text.{is_blank, is_one_line}
use intent_engineer.Core.Vocabulary.{resolved, update_implementation}
use intent_engineer.Reconcile.Cases.{validate_case, all_evidence_refs}
use intent_engineer.Reconcile.Transition.{transition_case}
use intent_engineer.Storage.Evidence.{no_fields, EvidenceRecord, many, refs_allowed}
use intent_engineer.Storage.Evidence.Access.{IsReadable, refs_allowed_iff}
use intent_engineer.Storage.EvidenceLog.{
  Line, record_line, ingestion_line, parse_evidence_lines, Index,
}
use intent_engineer.Storage.EvidenceLog.Store.{put as put_evidence, associate}
use intent_engineer.Storage.EvidenceLog.Ledger.{IsSound, parse_evidence_lines-IsSound}
use intent_engineer.Storage.EvidenceLog.Associate.{IsLedgered, IsBroken, associate_lem}
use intent_engineer.Storage.CaseLog.{
  CaseLine, case_line, record_version, index_case, has_other_owner, parse_versions, same_case,
  empty_index as no_cases,
}
use intent_engineer.Storage.CaseLog.Store.{put, get, read_index}
use intent_engineer.Storage.CaseLog.Recorded.{Recorded, record_version-Recorded}
use intent_engineer.Storage.CaseLog.Ownership.{IsPaired, parse_versions-IsPaired}
use intent_engineer.Storage.CaseLog.Transitions.{transition_case-put}
use intent_engineer.Storage.Transaction.{
  Coordinator, Faults, no_faults, raises_before, raises_committed, raises_removed, Body, write,
  append, transact, with_journal, committed, recover, at_rest, recover_images, prepared,
  names_match, Files, Preimage,
}
use intent_engineer.Storage.Transaction.Crash.{IsAtomic, RecoversTo, transact-IsAtomic}
use intent_engineer.Storage.Transaction.Outcome.{
  Ends, transact-Ends, GoesOn, transaction-GoesOn, recover-again, recovered, journal_of,
}
use intent_engineer.Storage.History.{history, subjects, blank_line, changeset_line}
use intent_engineer.Storage.History.Subjects.{changesets, history-eq}
use intent_engineer.Core.Graph.{validate_node}
use intent_engineer.Base.{keep_if}
use intent_engineer.Base.Texts.{elem}
use intent_engineer.Tests.Core.{changes}
use intent_engineer.Tests.Reconcile.{reviewed, reviewed_valid, closed}

abbrev pub issue : EvidenceRecord
issue = record {
  id = "ev:1";
  connector_type = "git";
  external_object_id = "issue:1";
  external_version = "1";
  author = none;
  observed_at = 10;
  source_locator = "issues/1";
  content_hash = "00";
  payload = no_fields;
  parent_ref = none;
  acl = "ana" ∷ [];
}

abbrev edited : EvidenceRecord
edited = record issue { id = "ev:2"; external_version = "2"; observed_at = 20 }

refs_allowed_iff_example :
    (refs_allowed ("ev:1" ∷ []) (issue ∷ edited ∷ []) (many ("ana" ∷ [])) ≡ true)
    ↔ All (IsReadable (issue ∷ edited ∷ []) (many ("ana" ∷ []))) ("ev:1" ∷ [])
refs_allowed_iff_example = refs_allowed_iff ("ev:1" ∷ []) (issue ∷ edited ∷ []) (many ("ana" ∷ []))

abbrev first_line : List Line
first_line =
    ingestion_line
      (record { connector_id = "git"; sequence = 1; predecessor_id = none; evidence = issue })
    ∷ []

abbrev both_lines : List Line
both_lines =
    first_line
    ++ ingestion_line (record {
      connector_id = "git";
      sequence = 2;
      predecessor_id = some "ev:1";
      evidence = edited;
    })
      ∷ []

abbrev evidence_index : Index
evidence_index = record {
  records = ("ev:1", issue) ∷ ("ev:2", edited) ∷ [];
  ingestions =
      record { connector_id = "git"; sequence = 1; predecessor_id = none; evidence = issue }
      ∷ record {
        connector_id = "git";
        sequence = 2;
        predecessor_id = some "ev:1";
        evidence = edited;
      }
      ∷ [];
  entries =
      (
        "git",
        record { connector_id = "git"; sequence = 1; predecessor_id = none; evidence = issue }
            ∷ record {
              connector_id = "git";
              sequence = 2;
              predecessor_id = some "ev:1";
              evidence = edited;
            }
            ∷ [],
      )
      ∷ [];
  associations = ("git", "ev:2") ∷ ("git", "ev:1") ∷ [];
  legacy_ids = [];
}

both_lines_read : parse_evidence_lines both_lines ≡ ok evidence_index
unfolding parse_evidence_lines is_blank
both_lines_read = refl

parse_evidence_lines-IsSound_example : IsSound evidence_index
parse_evidence_lines-IsSound_example =
    parse_evidence_lines-IsSound both_lines evidence_index both_lines_read

issue_put : put_evidence issue [] ≡ ok (true, record_line issue ∷ [])
unfolding put_evidence
issue_put = refl

edited_associated : associate "git" edited first_line ≡ ok (true, both_lines)
unfolding associate is_blank is_one_line
edited_associated = refl

associate_lem_example :
    (IsLedgered "git" edited both_lines ⊎ IsBroken "git" edited first_line both_lines)
    × (IsLedgered "git" edited first_line → both_lines ≡ first_line)
associate_lem_example = associate_lem "git" edited first_line true both_lines edited_associated

abbrev case_file : List CaseLine
case_file = case_line reviewed ∷ []

reviewed_recorded : record_version true no_cases reviewed ≡ ok (index_case reviewed no_cases, true)
unfolding record_version
reviewed_recorded = refl

record_version-Recorded_example :
    (has_other_owner reviewed none ≡ false)
    × Recorded true no_cases reviewed (index_case reviewed no_cases)
record_version-Recorded_example =
    record_version-Recorded true no_cases reviewed (index_case reviewed no_cases) true
      reviewed_recorded

case_file_read : parse_versions case_file ≡ ok (index_case reviewed no_cases, reviewed ∷ [])
unfolding parse_versions all_evidence_refs is_blank
case_file_read = refl

parse_versions-IsPaired_example : IsPaired (index_case reviewed no_cases)
parse_versions-IsPaired_example =
    parse_versions-IsPaired case_file (index_case reviewed no_cases) (reviewed ∷ []) case_file_read

reviewed-put : put reviewed [] ≡ ok (true, case_file)
unfolding put read_index record_version validate_case all_evidence_refs is_blank same_case
reviewed-put = refl

reviewed_got : get "case:1" case_file ≡ ok reviewed
unfolding get read_index all_evidence_refs is_blank
reviewed_got = refl

reviewed-closed :
    transition_case reviewed resolved "ben" (some 40) (some update_implementation) (some "cs:2")
    ≡ ok closed
unfolding transition_case all_evidence_refs is_blank validate_case
reviewed-closed = refl

transition_case-put_example : put closed case_file ≡ ok (true, case_file ++ case_line closed ∷ [])
transition_case-put_example =
    transition_case-put reviewed resolved "ben" 40 (some update_implementation) (some "cs:2") closed
      "case:1" case_file reviewed_got reviewed_valid reviewed-closed

abbrev coordinator : Coordinator
coordinator = record { targets = "history" ∷ "graph" ∷ []; legacy_target_sets = [] }

abbrev old_files : Files
old_files = ("graph", 1 ∷ []) ∷ []

abbrev body : Body
body = record { ops = write "graph" (2 ∷ []) ∷ append "history" (3 ∷ []) ∷ []; raises = false }

-- The write of the committed journal raises, and so does the restoration of the second file.
abbrev faults : Faults
faults = record { ending = raises_before; restoring = some 1 }

-- What follows the removal of the journal raises.
abbrev late_faults : Faults
late_faults = record { ending = raises_removed; restoring = none }

transact-IsAtomic_example :
    let r = transact coordinator "t" faults body old_files in
    All (IsAtomic coordinator "t" old_files refl r) r.images
transact-IsAtomic_example = transact-IsAtomic coordinator "t" old_files refl faults body refl

transact-Ends_example :
    Ends coordinator late_faults body old_files
      (transact coordinator "t" late_faults body old_files)
transact-Ends_example = transact-Ends coordinator "t" old_files late_faults body refl

transaction-GoesOn_example :
    let r = transact coordinator "t" faults body old_files in
    All (GoesOn coordinator "u" no_faults body old_files faults body r) r.images
transaction-GoesOn_example =
    transaction-GoesOn coordinator "t" "u" old_files faults no_faults body body refl refl

abbrev preimages : List Preimage
preimages =
    record { target = "graph"; content = some (1 ∷ []) }
    ∷ record { target = "history"; content = none }
    ∷ []

abbrev half_restored : Files
half_restored = ("graph", 1 ∷ []) ∷ ("history", 3 ∷ []) ∷ []

-- The restoration after a committed journal that stops after one file leaves a mixture.
restores_half :
    (transact coordinator "t"
      (record { ending = raises_committed; restoring = some 1 })
      body
      old_files).disk
    ≡ with_journal committed "t" preimages half_restored
unfolding transact
restores_half = refl

-- Recovery accepts it.
accepts_half :
    recover coordinator (with_journal committed "t" preimages half_restored)
    ≡ ok (true, at_rest half_restored)
unfolding recover
accepts_half = refl

preimages_accepted : names_match coordinator ("graph" ∷ "history" ∷ []) ≡ true
unfolding names_match
preimages_accepted = refl

recover-again_example :
    All
      (RecoversTo coordinator (recovered prepared preimages (("graph", 2 ∷ []) ∷ [])))
      (recover_images (journal_of prepared "t" preimages) (("graph", 2 ∷ []) ∷ []))
recover-again_example =
    recover-again coordinator "t" preimages (("graph", 2 ∷ []) ∷ []) preimages_accepted prepared

changes_found : history "need:1" (blank_line ∷ changeset_line changes ∷ []) ≡ ok (changes ∷ [])
unfolding history validate_node
changes_found = refl

history-eq_example :
    (changes ∷ [])
    ≡ keep_if
        (λ c. elem "need:1" (subjects c))
        (changesets (blank_line ∷ changeset_line changes ∷ []))
history-eq_example =
    history-eq "need:1" (blank_line ∷ changeset_line changes ∷ []) (changes ∷ []) changes_found
