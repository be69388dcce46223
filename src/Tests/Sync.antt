-- ===== src/Tests/Sync.antt =====
-- The synchronisation of src/intent_engineering/sync on small inputs.
use intent_engineer.Base.{true, none, some, List, [], ◌∷◌, ◌≡◌, refl, ok}
use intent_engineer.Base.Text.{is_blank}
use intent_engineer.Base.Texts.{Distinct}
use intent_engineer.Storage.Evidence.{EvidenceIngestion}
use intent_engineer.Storage.EvidenceLog.{ingestion_line}
use intent_engineer.Storage.EvidenceLog.Store as Evidence
use intent_engineer.Sync.Checkpoints.{
  SyncCheckpoint, File, empty_file, checkpoints, checkpoint_of, compare_and_set,
}
use intent_engineer.Sync.Checkpoints.Laws.{IsExchange, compare_and_set-IsExchange}
use intent_engineer.Sync.Collection.{Connector, Delta, evidence_ids, open_ledger, collect, consume}
use intent_engineer.Sync.Collection.Exactness.{Reads}
use intent_engineer.Sync.Collection.Consumption.{HasConsumed, consume-IsWholeLedger}
use intent_engineer.Tests.Storage.{issue}

abbrev first : SyncCheckpoint
first = checkpoint_of "git" (some "c1") 5 []

exchanged :
    compare_and_set "git" none (some "c1") 5 [] empty_file
    ≡ ok (first, checkpoints (("git", first) ∷ []))
unfolding compare_and_set
exchanged = refl

compare_and_set-IsExchange_example :
    IsExchange "git" none (some "c1") 5 [] empty_file first (checkpoints (("git", first) ∷ []))
compare_and_set-IsExchange_example =
    compare_and_set-IsExchange "git" none (some "c1") 5 [] empty_file first
      (checkpoints (("git", first) ∷ [])) exchanged

abbrev connector : Connector
connector = record {
  connector_id = "source";
  connector_type = issue.connector_type;
  fetched = some issue ∷ some issue ∷ [];
  next_cursor = λ records. some (some "c2");
  is_lifecycle = true;
}

abbrev entry : EvidenceIngestion
entry = record { connector_id = "source"; sequence = 1; predecessor_id = none; evidence = issue }

abbrev nothing : Delta
nothing = record { added = []; prior_versions = []; ingestions = [] }

abbrev collected : Delta
collected = record { added = issue ∷ []; prior_versions = []; ingestions = entry ∷ [] }

abbrev evidence : Evidence.File
evidence = ingestion_line entry ∷ []

abbrev consumed : File
consumed = checkpoints (("source", checkpoint_of "source" (some "c2") 9 (issue.id ∷ [])) ∷ [])

opens : open_ledger connector empty_file [] ≡ ok (none, (nothing, []))
unfolding open_ledger
opens = refl

collects :
    collect connector [] connector.fetched nothing (record { file = []; evidence_added = 0 })
    ≡ (ok collected, record { file = evidence; evidence_added = 1 })
unfolding collect is_blank
collects = refl

consumes : consume connector 9 none collected evidence empty_file ≡ ok (true, consumed)
unfolding consume is_blank
consumes = refl

consume-IsWholeLedger_example :
    (entries : List EvidenceIngestion) × Reads connector evidence entries
    × Distinct (evidence_ids entries)
    × HasConsumed connector consumed (evidence_ids entries)
consume-IsWholeLedger_example =
    consume-IsWholeLedger connector empty_file consumed [] [] evidence none nothing collected 0
      (record { file = evidence; evidence_added = 1 }) 9 true opens collects consumes
