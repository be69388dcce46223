-- ===== src/Sync/Collection/Consumption.antt =====
-- The checkpoint that a connector of src/intent_engineering/sync/orchestrator.py ends with.
use intent_engineer.Base.{
  map_err-eq-ok, ℕ, String, Bool, false, not, ◌&&◌, Option, none, some, List, [], ◌∷◌, ◌++◌, ◌==◌,
  ◌≡◌, refl, sym, ap, ◌∙◌, arith, inl, inr, Bool-cases, if-true, if-false, ok, >>=-eq-ok,
  raise_if-eq-ok, ok_inj,
}
use intent_engineer.Base.Texts.{elem, Distinct, remove, dedup}
use intent_engineer.Core.Graph.{Instant}
use intent_engineer.Storage.Evidence.Access.{same_texts-eq}
use intent_engineer.Storage.Evidence.{EvidenceRecord, EvidenceIngestion, same_texts}
use intent_engineer.Storage.EvidenceLog.Store.{ledger, migrate_legacy}
use intent_engineer.Storage.EvidenceLog.Store as Evidence
use intent_engineer.Sync.Checkpoints.{
  SyncCheckpoint, File, get, checkpoint_of, is_checkpoint, compare_and_set,
}
use intent_engineer.Sync.Checkpoints.Laws.{compare_and_set-IsExchange}
use intent_engineer.Sync.Collection.{
  checkpoint_error, of_store, of_checkpoints, Delta, Progress, Connector, evidence_ids, record_ids,
  consumed_by, open_ledger, is_untyped, collect, records_at, kept_cursor, given_cursor,
  checkpoint_after_discovery, is_advanced, consume,
}
use intent_engineer.Sync.Collection.Exactness.{Reads, open_ledger-IsExact}
use intent_engineer.Sync.Collection.Collecting.{collect-IsExact}

remove-missing : (k : String) (ks : List String) → elem k ks ≡ false → remove k ks ≡ ks
remove-missing k [] h = refl
remove-missing k (j ∷ ks) h =
    let other : (j == k) ≡ false = ground (arith, h) in
    rw other (ap (λ js. j ∷ js) (remove-missing k ks (ground (arith, h))))

dedup-Distinct : (ks : List String) → Distinct ks → dedup ks ≡ ks
unfolding dedup
dedup-Distinct [] d = refl
dedup-Distinct (k ∷ ks) (fresh, d) =
    ap (λ js. k ∷ remove k js) (dedup-Distinct ks d) ∙ ap (λ js. k ∷ js) (remove-missing k ks fresh)

module _ (self : Connector) where
  -- The checkpoint of the connector names these records as consumed.
  abbrev pub HasConsumed : File → List String → Type 0
  HasConsumed saved consumed =
      (now : Option SyncCheckpoint) × (get self.connector_id saved ≡ ok now)
      × (consumed_by now ≡ consumed)

  after_discovery-consumed :
      (at : Instant) (prior : Option SyncCheckpoint) (consumed : List String)
      (records : List EvidenceRecord) (c : SyncCheckpoint)
      → checkpoint_after_discovery self at prior consumed records ≡ ok c
      → c.consumed_evidence_ids ≡ consumed
  unfolding checkpoint_after_discovery
  after_discovery-consumed at prior consumed records c h =
      let (agrees, h1) =
        raise_if-eq-ok (self.is_lifecycle && not (same_texts (record_ids records) consumed)) _ _
          h in
      let (cursor, next, h2) = >>=-eq-ok (given_cursor (self.next_cursor records)) _ h1 in
      let made = checkpoint_of self.connector_id (kept_cursor self prior cursor) at consumed in
      let (valid, same) = raise_if-eq-ok (not (is_checkpoint made)) _ _ h2 in
      ap (λ (x : SyncCheckpoint). x.consumed_evidence_ids) (sym (ok_inj same))

  not_advanced-consumed :
      (prior : Option SyncCheckpoint) (c : SyncCheckpoint)
      → is_advanced self prior c ≡ false
      → consumed_by prior ≡ c.consumed_evidence_ids
  not_advanced-consumed none c h = cc
  not_advanced-consumed (some p) c h =
      sym (same_texts-eq c.consumed_evidence_ids p.consumed_evidence_ids (ground (arith, h)))

  -- The checkpoint is exchanged for the new one, or was as good as it.
  consume-HasConsumed :
      (at : Instant) (prior : Option SyncCheckpoint) (d : Delta) (file : Evidence.File)
      (saved saved' : File) (advanced : Bool)
      → get self.connector_id saved ≡ ok prior
      → consume self at prior d file saved ≡ ok (advanced, saved')
      → HasConsumed saved' (dedup (consumed_by prior ++ record_ids d.added))
  unfolding consume
  consume-HasConsumed at prior d file saved saved' advanced stored h =
      let consumed = dedup (consumed_by prior ++ record_ids d.added) in
      let (typed, h0) = raise_if-eq-ok (is_untyped self) _ _ h in
      let (entries, reads, h1) =
        >>=-eq-ok (of_store (ledger self.connector_id (some self.connector_type) file)) _ h0 in
      let (records, found, h2) = >>=-eq-ok (records_at self consumed _) _ h1 in
      let (c, next, h3) =
        >>=-eq-ok (checkpoint_after_discovery self at prior consumed records) _ h2 in
      let names = after_discovery-consumed at prior consumed records c next in
      elim (Bool-cases (is_advanced self prior c)) [
        | inl goes_on ↦
            let ((c', written), exchanged, same) =
              >>=-eq-ok
                (of_checkpoints (
                  compare_and_set self.connector_id prior c.cursor c.committed_at
                    c.consumed_evidence_ids saved))
                _ (if-true _ _ _ goes_on h3) in
            let x =
              compare_and_set-IsExchange self.connector_id prior c.cursor c.committed_at
                c.consumed_evidence_ids saved c' written
                (map_err-eq-ok checkpoint_error
                  (compare_and_set self.connector_id prior c.cursor c.committed_at
                    c.consumed_evidence_ids saved)
                  exchanged) in
            (
              some c',
              ap (get self.connector_id) (sym (ap (λ (p : Bool × File). p.1) (ok_inj same)))
                  ∙ x.stored,
              ap (λ (y : SyncCheckpoint). y.consumed_evidence_ids) x.made ∙ names,
            )
        | inr stays ↦ (
          prior,
          ap (get self.connector_id)
                (sym (ap (λ (p : Bool × File). p.1) (ok_inj (if-false _ _ _ stays h3))))
              ∙ stored,
          not_advanced-consumed prior c stays ∙ names,
        )
      ]

  open_ledger-get :
      (saved : File) (file file' : Evidence.File) (prior : Option SyncCheckpoint) (d : Delta)
      → open_ledger self saved file ≡ ok (prior, (d, file'))
      → get self.connector_id saved ≡ ok prior
  unfolding open_ledger
  open_ledger-get saved file file' prior d h =
      let (p, read, h1) = >>=-eq-ok (of_checkpoints (get self.connector_id saved)) _ h in
      let (typed, h1) = raise_if-eq-ok (is_untyped self) _ _ h1 in
      let ((u, f), migrated, h2) =
        >>=-eq-ok (of_store (migrate_legacy self.connector_id self.connector_type file)) _ h1 in
      let (entries, reads, h3) =
        >>=-eq-ok (of_store (ledger self.connector_id (some self.connector_type) f)) _ h2 in
      let (held, h4) = raise_if-eq-ok _ _ _ h3 in
      map_err-eq-ok checkpoint_error (get self.connector_id saved) read
      ∙ ap ok (ap (λ (x : Option SyncCheckpoint × (Delta × Evidence.File)). x.0) (ok_inj h4))

  -- A connector that opens its ledger, collects what its source gives and then consumes that, while
  -- others may have written to the file of evidence, ends with a checkpoint that names each entry of its
  -- ledger, as it was when it had collected, once and in the order of the ledger.
  pub consume-IsWholeLedger :
      (saved saved' : File) (file opened later : Evidence.File) (prior : Option SyncCheckpoint)
      (d d' : Delta) (n : ℕ) (p : Progress) (at : Instant) (advanced : Bool)
      → open_ledger self saved file ≡ ok (prior, (d, opened))
      → collect self
          (consumed_by prior)
          self.fetched
          d
          (record { file = opened; evidence_added = n })
        ≡ (ok d', p)
      → consume self at prior d' later saved ≡ ok (advanced, saved')
      → (entries : List EvidenceIngestion) × Reads self p.file entries
        × Distinct (evidence_ids entries)
        × HasConsumed saved' (evidence_ids entries)
  consume-IsWholeLedger saved saved' file opened later prior d d' n p at advanced opens collects
        consumes =
      let x =
        collect-IsExact self (consumed_by prior) self.fetched d d'
          (record { file = opened; evidence_added = n }) p collects
          (open_ledger-IsExact self saved file opened prior d opens) in
      let (now, stored, names) =
        consume-HasConsumed at prior d' later saved saved' advanced
          (open_ledger-get saved file opened prior d opens) consumes in
      (
        x.entries,
        x.reads,
        x.distinct,
        (
          now,
          stored,
          names ∙ ap dedup (sym x.whole) ∙ dedup-Distinct (evidence_ids x.entries) x.distinct,
        ),
      )
