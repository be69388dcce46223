-- ===== src/Sync/Checkpoints.antt =====
-- The checkpoints of the connectors: src/intent_engineering/core/models/project.py, and their file,
-- src/intent_engineering/storage/yaml/checkpoint_store.py. Every method loads the file again while it
-- holds the lock, so that the state of the store is the file, as the YAML reader returns it.
pub mod Laws
use intent_engineer.Base.{
  ℕ, String, Bool, true, false, not, ◌&&◌, ◌||◌, Option, none, some, List, [], ◌∷◌, ◌==◌, eqb, all,
  if◌then◌else◌, Result, ok, err, ◌>>=◌, ◌>>◌, raise_if,
}
use intent_engineer.Base.Texts.{is_distinct}
use intent_engineer.Base.Sorted.{sort}
use intent_engineer.Base.Dict.{Dict, lookup, insert, values, keys}
use intent_engineer.Core.Graph.{Instant}
use intent_engineer.Storage.Evidence.{same_texts}
use intent_engineer.Storage.EvidenceLog.{same_text?}

pub record SyncCheckpoint : Type 0 where
  pub connector_id : String
  pub cursor : Option String
  pub committed_at : Instant
  pub consumption_schema_version : ℕ
  pub consumed_evidence_ids : List String

-- `a == b`
unfoldable pub same_checkpoint : SyncCheckpoint → SyncCheckpoint → Bool
same_checkpoint a b =
    a.connector_id == b.connector_id
    && (same_text? a.cursor b.cursor
        && (eqb a.committed_at b.committed_at
            && (eqb a.consumption_schema_version b.consumption_schema_version
                && same_texts a.consumed_evidence_ids b.consumed_evidence_ids)))

unfoldable pub same_checkpoint? : Option SyncCheckpoint → Option SyncCheckpoint → Bool
unfolding same_checkpoint
same_checkpoint? none none = true
same_checkpoint? (some a) (some b) = same_checkpoint a b
same_checkpoint? _ _ = false

-- What the validators of `SyncCheckpoint` demand.
unfoldable pub is_checkpoint : SyncCheckpoint → Bool
is_checkpoint c = eqb c.consumption_schema_version 1 && is_distinct c.consumed_evidence_ids

-- A file that is not there or holds no checkpoints, one that is no mapping of mappings to records, or the
-- checkpoints under the identities of connectors.
pub data File : Type 0 where
  empty_file malformed_file : File
  checkpoints : Dict SyncCheckpoint → File

pub data CheckpointError : Type 0 where
  invalid_checkpoint_store invalid_checkpoint : CheckpointError
  stale_checkpoint : String → CheckpointError

-- `_load_all_unlocked`
unfoldable pub load_all : File → Result CheckpointError (Dict SyncCheckpoint)
unfolding is_checkpoint
load_all empty_file = ok []
load_all malformed_file = err invalid_checkpoint_store
load_all (checkpoints d) =
    if all is_checkpoint (values d) then ok d else err invalid_checkpoint_store

abbrev pub add_entry : String → Option SyncCheckpoint → Dict SyncCheckpoint → Dict SyncCheckpoint
add_entry k none d = d
add_entry k (some c) d = (k, c) ∷ d

-- The entries of the keys, in the order of the keys.
abbrev pub entries_at : List String → Dict SyncCheckpoint → Dict SyncCheckpoint
entries_at [] d = []
entries_at (k ∷ ks) d = add_entry k (lookup k d) (entries_at ks d)

-- `_write_all`, which sorts by the identities
unfoldable pub write_all : Dict SyncCheckpoint → File
unfolding sort
write_all d = checkpoints (entries_at (sort (keys d)) d)

unfoldable pub get : String → File → Result CheckpointError (Option SyncCheckpoint)
unfolding load_all
get connector file = do d ← load_all file; ok (lookup connector d)

abbrev pub checkpoint_of : String → Option String → Instant → List String → SyncCheckpoint
checkpoint_of connector cursor at consumed = record {
  connector_id = connector;
  cursor = cursor;
  committed_at = at;
  consumption_schema_version = 1;
  consumed_evidence_ids = consumed;
}

unfoldable pub compare_and_set :
    String
    → Option SyncCheckpoint
    → Option String
    → Instant
    → List String
    → File
    → Result CheckpointError (SyncCheckpoint × File)
unfolding load_all same_checkpoint? is_checkpoint write_all
compare_and_set connector expected cursor at consumed file = do
  d ← load_all file
  raise_if (not (same_checkpoint? (lookup connector d) expected)) (stale_checkpoint connector)
  let c = checkpoint_of connector cursor at consumed in
      (raise_if (not (is_checkpoint c)) invalid_checkpoint
        >> ok (c, write_all (insert connector c d)))
