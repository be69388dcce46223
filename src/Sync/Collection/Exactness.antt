-- ===== src/Sync/Collection/Exactness.antt =====
-- What a connector consumes in src/intent_engineering/sync/orchestrator.py: the entries of its ledger,
-- each once and in their order.
use intent_engineer.Base.{
  map_err-eq-ok, String, Bool, true, false, not, Option, none, some, List, [], ◌∷◌, ◌++◌, ◌==◌, ◌≡◌,
  refl, sym, ap, subst, ◌∙◌, arith, inl, inr, Bool-cases, keep_if, last?, map, Result, ok, err,
  >>=-eq-ok, raise_if-eq-ok, ok_inj, err-ne-ok, not_inv, none-ne-some,
}
use mathlib.Core.List.{append_assoc}
use intent_engineer.Base.Texts.{elem, Distinct, elem-append}
use intent_engineer.Storage.Evidence.{EvidenceRecord, EvidenceIngestion, is_exact_consumed_prefix}
use intent_engineer.Storage.Evidence.Access.{is_exact_consumed_prefix_iff}
use intent_engineer.Storage.EvidenceLog.{Index, ledger_of, parse_evidence_lines}
use intent_engineer.Storage.EvidenceLog.Store.{associate, migrate_legacy, ledger}
use intent_engineer.Storage.EvidenceLog.Store as Evidence
use intent_engineer.Storage.EvidenceLog.Ledger.{parse_evidence_lines-IsSound}
use intent_engineer.Storage.EvidenceLog.Associate.{associate-Grows}
use intent_engineer.Sync.Checkpoints.{SyncCheckpoint, File, get}
use intent_engineer.Sync.Collection.{
  evidence_error, SyncError, missing_ingestion, of_store, of_checkpoints, Delta, Connector,
  evidence_ids, record_ids, consumed_by, unconsumed, extended, open_ledger, is_untyped,
  collect_record,
}
use intent_engineer.Sync.Collection.Entries.{
  evidence_ids-append, elem-evidence_ids, Distinct-ledger, Distinct-kept, keep_if-concat,
  evidence_ids-without, elem-apart, elem-kept,
}

-- The entries of one type, as `ledger` gives them.
abbrev pub Reads : Connector → Evidence.File → List EvidenceIngestion → Type 0
Reads self file entries = ledger self.connector_id (some self.connector_type) file ≡ ok entries

module _ (self : Connector) where
  -- What `ledger` gives is part of what the file holds for the connector, and names no record twice.
  ledger_inv :
      (file : Evidence.File) (entries : List EvidenceIngestion)
      → Reads self file entries
      → (s : Index) × (parse_evidence_lines file ≡ ok s)
        × (entries
            ≡ keep_if
                (λ i. i.evidence.connector_type == self.connector_type)
                (ledger_of self.connector_id s.entries))
        × Distinct (evidence_ids entries)
  unfolding ledger
  ledger_inv file entries h =
      let (s, parsed, h1) = >>=-eq-ok (parse_evidence_lines file) _ h in
      let (migrated, h2) = raise_if-eq-ok _ _ _ h1 in
      let same = sym (ok_inj h2) in
      (
        s,
        parsed,
        same,
        subst (λ is. Distinct (evidence_ids is)) (sym same)
            (Distinct-kept (λ i. i.evidence.connector_type == self.connector_type)
              (ledger_of self.connector_id s.entries)
              (Distinct-ledger [] (ledger_of self.connector_id s.entries)
                ((parse_evidence_lines-IsSound file s parsed).ledgers self.connector_id) tt)),
      )

  -- What is consumed and what is collected are the ledger of the connector, in its order.
  pub record IsExact (consumed : List String) (d : Delta) (file : Evidence.File) : Type 0 where
    pub entries : List EvidenceIngestion
    pub reads : Reads self file entries
    pub whole : evidence_ids entries ≡ consumed ++ record_ids d.added
    pub distinct : Distinct (evidence_ids entries)

  record_ids-evidence :
      (is : List EvidenceIngestion) → record_ids (map (λ i. i.evidence) is) ≡ evidence_ids is
  record_ids-evidence [] = refl
  record_ids-evidence (i ∷ is) = ap (λ ks. i.evidence.id ∷ ks) (record_ids-evidence is)

  record_ids-append :
      (es : List EvidenceRecord) (e : EvidenceRecord)
      → record_ids (es ++ e ∷ []) ≡ record_ids es ++ e.id ∷ []
  record_ids-append [] e = refl
  record_ids-append (f ∷ es) e = ap (λ ks. f.id ∷ ks) (record_ids-append es e)

  unconsumed-IsExact :
      (consumed : List String) (file : Evidence.File) (entries : List EvidenceIngestion)
      → Reads self file entries
      → is_exact_consumed_prefix consumed (evidence_ids entries) ≡ true
      → IsExact consumed (unconsumed consumed entries) file
  unfolding unconsumed
  unconsumed-IsExact consumed file entries reads prefix =
      let (s, parsed, kept, distinct) = ledger_inv file entries reads in
      let (rest, same) = (is_exact_consumed_prefix_iff consumed (evidence_ids entries)).0 prefix in
      record {
        entries = entries;
        reads = reads;
        whole =
            same
            ∙ ap (λ ks. consumed ++ ks)
                (sym (
                  record_ids-evidence (keep_if (λ i. not (elem i.evidence.id consumed)) entries)
                  ∙ evidence_ids-without (λ k. elem k consumed) entries consumed rest same
                      (λ k h. h)
                      (λ k h. elem-apart k consumed rest (subst Distinct same distinct) h)));
        distinct = distinct;
      }

  pub open_ledger-IsExact :
      (saved : File) (file file' : Evidence.File) (prior : Option SyncCheckpoint) (d : Delta)
      → open_ledger self saved file ≡ ok (prior, (d, file'))
      → IsExact (consumed_by prior) d file'
  unfolding open_ledger
  open_ledger-IsExact saved file file' prior d h =
      let (p, read, h1) = >>=-eq-ok (of_checkpoints (get self.connector_id saved)) _ h in
      let (typed, h1) = raise_if-eq-ok (is_untyped self) _ _ h1 in
      let ((u, f), migrated, h2) =
        >>=-eq-ok (of_store (migrate_legacy self.connector_id self.connector_type file)) _ h1 in
      let (entries, reads, h3) =
        >>=-eq-ok (of_store (ledger self.connector_id (some self.connector_type) f)) _ h2 in
      let prefix = is_exact_consumed_prefix (consumed_by p) (evidence_ids entries) in
      let (held, h4) = raise_if-eq-ok (not prefix) _ _ h3 in
      let same = ok_inj h4 in
      let exact =
        unconsumed-IsExact (consumed_by p) f entries
          (map_err-eq-ok evidence_error (ledger self.connector_id (some self.connector_type) f)
            reads)
          (not_inv prefix held) in
      subst
        (λ (x : Option SyncCheckpoint × (Delta × Evidence.File)).
          IsExact (consumed_by x.0) x.1.0 x.1.1)
        same exact

  none_kept :
      (k : String) (is : List EvidenceIngestion)
      → elem k (evidence_ids is) ≡ false
      → keep_if (λ i. i.evidence.id == k) is ≡ []
  none_kept k [] h = refl
  none_kept k (i ∷ is) h =
      let other : (i.evidence.id == k) ≡ false = ground (arith, h) in
      rw other (none_kept k is (ground (arith, h)))

  entry_inv :
      (consumed : List String) (e : EvidenceRecord) (d d' : Delta) (o : Option EvidenceIngestion)
      → ◌≡◌ {A = Result SyncError Delta}
          (elim o [ none ↦ err missing_ingestion | some i ↦ ok (extended consumed e i d) ])
          (ok d')
      → (i : EvidenceIngestion) × (o ≡ some i) × (d' ≡ extended consumed e i d)
  entry_inv consumed e d d' none h = absurd (err-ne-ok h)
  entry_inv consumed e d d' (some i) h = (i, refl, sym (ok_inj h))

  -- The record was found in the ledger that was read, and the delta extended with its entry.
  collect_record_inv :
      (consumed : List String) (e : EvidenceRecord) (d d' : Delta) (file : Evidence.File)
      → collect_record self consumed e d file ≡ ok d'
      → (entries : List EvidenceIngestion) × (i : EvidenceIngestion) × Reads self file entries
        × (elem e.id (evidence_ids entries) ≡ true)
        × (d' ≡ extended consumed e i d)
  unfolding collect_record
  collect_record_inv consumed e d d' file h =
      let (entries, reads, h1) =
        >>=-eq-ok (of_store (ledger self.connector_id (some self.connector_type) file)) _ h in
      let (i, found, same) =
        entry_inv consumed e d d' (last? (keep_if (λ i. i.evidence.id == e.id) entries)) h1 in
      (
        entries,
        i,
        map_err-eq-ok evidence_error (ledger self.connector_id (some self.connector_type) file)
            reads,
        elim (Bool-cases (elem e.id (evidence_ids entries))) [
          | inl there ↦ there
          | inr missing ↦
              absurd (none-ne-some (ap last? (sym (none_kept e.id entries missing)) ∙ found))
        ],
        same,
      )

  extended-known :
      (consumed : List String) (e : EvidenceRecord) (i : EvidenceIngestion) (d : Delta)
      → elem e.id (consumed ++ record_ids d.added) ≡ true
      → record_ids (extended consumed e i d).added ≡ record_ids d.added
  extended-known consumed e i d h =
      let known = sym (elem-append e.id consumed (record_ids d.added)) ∙ h in rw known refl

  extended-new :
      (consumed : List String) (e : EvidenceRecord) (i : EvidenceIngestion) (d : Delta)
      → elem e.id (consumed ++ record_ids d.added) ≡ false
      → record_ids (extended consumed e i d).added ≡ record_ids d.added ++ e.id ∷ []
  extended-new consumed e i d h =
      let new = sym (elem-append e.id consumed (record_ids d.added)) ∙ h in
      rw new (record_ids-append d.added e)

  -- One record more, and the ledger is read exactly again.
  pub collected-IsExact :
      (consumed : List String) (e : EvidenceRecord) (d d' : Delta) (added : Bool)
      (file file' : Evidence.File)
      → (e.connector_type == self.connector_type) ≡ true
      → associate self.connector_id e file ≡ ok (added, file')
      → collect_record self consumed e d file' ≡ ok d'
      → IsExact consumed d file
      → IsExact consumed d' file'
  collected-IsExact consumed e d d' added file file' typed associated collected x =
      let (entries, i, reads, there, same) = collect_record_inv consumed e d d' file' collected in
      let (s', parsed', kept', distinct') = ledger_inv file' entries reads in
      elim (associate-Grows self.connector_id e file added file' associated s' parsed') [
        | inl unchanged ↦
            let as_before : entries ≡ x.entries = ok_inj (
              sym reads
              ∙ ap (λ f. ledger self.connector_id (some self.connector_type) f) unchanged
              ∙ x.reads) in
            record {
              entries = entries;
              reads = reads;
              whole =
                  ap evidence_ids as_before
                  ∙ x.whole
                  ∙ ap (λ ks. consumed ++ ks)
                      (sym (
                        ap (λ (t : Delta). record_ids t.added) same
                        ∙ extended-known consumed e i d
                            (ap (elem e.id) (sym (ap evidence_ids as_before ∙ x.whole)) ∙ there)));
              distinct = distinct';
            }
        | inr g ↦
            let (s, parsed, kept, distinct) = ledger_inv file x.entries x.reads in
            let of_type =
              λ (j : EvidenceIngestion). j.evidence.connector_type == self.connector_type in
            let at_first =
              ap (λ (t : Index). ledger_of self.connector_id t.entries)
                (ok_inj (sym g.reads ∙ parsed)) in
            let at_last =
              ap (λ (t : Index). ledger_of self.connector_id t.entries)
                (ok_inj (sym g.reads_after ∙ parsed')) in
            let one_more : entries ≡ x.entries ++ g.entry ∷ [] =
              kept'
              ∙ ap (keep_if of_type) (sym at_last ∙ g.grown)
              ∙ keep_if-concat of_type (ledger_of self.connector_id g.before.entries) g.entry (
                  ap (λ (r : EvidenceRecord). r.connector_type == self.connector_type) g.for_record
                  ∙ typed)
              ∙ ap (λ is. is ++ g.entry ∷ []) (ap (keep_if of_type) at_first ∙ sym kept) in
            let new : elem e.id (evidence_ids x.entries) ≡ false =
              ap (λ is. elem e.id (evidence_ids is)) (kept ∙ ap (keep_if of_type) (sym at_first))
              ∙ elem-kept of_type e.id (ledger_of self.connector_id g.before.entries) (
                  elem-evidence_ids e.id (ledger_of self.connector_id g.before.entries)
                  ∙ g.is_new) in
            record {
              entries = entries;
              reads = reads;
              whole =
                  ap evidence_ids one_more
                  ∙ evidence_ids-append x.entries (g.entry ∷ [])
                  ∙ ap (λ (r : EvidenceRecord). evidence_ids x.entries ++ r.id ∷ []) g.for_record
                  ∙ ap (λ ks. ks ++ e.id ∷ []) x.whole
                  ∙ append_assoc consumed (record_ids d.added) (e.id ∷ [])
                  ∙ ap (λ ks. consumed ++ ks)
                      (sym (
                        ap (λ (t : Delta). record_ids t.added) same
                        ∙ extended-new consumed e i d (ap (elem e.id) (sym x.whole) ∙ new)));
              distinct = distinct';
            }
      ]
