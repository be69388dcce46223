-- ===== src/Sync/Collection/Collecting.antt =====
-- The loop over what a connector discovers in src/intent_engineering/sync/orchestrator.py keeps what is
-- consumed and collected equal to the ledger.
use intent_engineer.Base.{
  String, Bool, true, false, Option, none, some, List, [], ◌∷◌, ◌==◌, ◌≡◌, refl, ap, subst, Result,
  ok, err, ok_inj, err-ne-ok,
}
use intent_engineer.Storage.Evidence.{EvidenceRecord}
use intent_engineer.Storage.EvidenceLog.{StoreError}
use intent_engineer.Storage.EvidenceLog.Store.{associate, migrate_legacy, ledger}
use intent_engineer.Storage.EvidenceLog.Store as Evidence
use intent_engineer.Sync.Collection.{
  SyncError, evidence_type_mismatch, evidence_error, Delta, Progress, Connector, collect_record,
  collect, persisted,
}
use intent_engineer.Sync.Collection.Exactness.{IsExact, collected-IsExact}

module _ (self : Connector) where
  persisted-IsExact :
      (consumed : List String) (d : Delta) (added : Bool) (file : Evidence.File) (p : Progress)
      → IsExact self consumed d file
      → IsExact self consumed d (persisted self added file p).file
  persisted-IsExact consumed d true file p x = x
  persisted-IsExact consumed d false file p x = x

  failed-ne-ok :
      {e : SyncError} {d' : Delta} {p p' : Progress}
      → ◌≡◌ {A = Result SyncError Delta × Progress} (err e, p) (ok d', p')
      → ⊥
  failed-ne-ok h = err-ne-ok (ap (λ (r : Result SyncError Delta × Progress). r.0) h)

  typed_inv :
      (b : Bool) (p : Progress) (next : Result SyncError Delta × Progress) {d' : Delta}
      {p' : Progress}
      → (elim b as (λ b. Result SyncError Delta × Progress) [
        | false ↦ (err evidence_type_mismatch, p)
        | true ↦ next
      ])
        ≡ (ok d', p')
      → (b ≡ true) × (next ≡ (ok d', p'))
  typed_inv true p next h = (refl, h)
  typed_inv false p next h = absurd (failed-ne-ok h)

  persisted_inv :
      {A : Type 0} (m : Result StoreError A) (p : Progress)
      (next : A → Result SyncError Delta × Progress) {d' : Delta} {p' : Progress}
      → (elim m as (λ m. Result SyncError Delta × Progress) [
        | err x ↦ (err (evidence_error x), p)
        | ok a ↦ next a
      ])
        ≡ (ok d', p')
      → (a : A) × (m ≡ ok a) × (next a ≡ (ok d', p'))
  persisted_inv (ok a) p next h = (a, refl, h)
  persisted_inv (err e) p next h = absurd (failed-ne-ok h)

  collected_inv :
      (m : Result SyncError Delta) (p : Progress) (next : Delta → Result SyncError Delta × Progress)
      {d' : Delta} {p' : Progress}
      → (elim m as (λ m. Result SyncError Delta × Progress) [
        | err x ↦ (err x, p)
        | ok d1 ↦ next d1
      ])
        ≡ (ok d', p')
      → (d1 : Delta) × (m ≡ ok d1) × (next d1 ≡ (ok d', p'))
  collected_inv (ok d1) p next h = (d1, refl, h)
  collected_inv (err e) p next h = absurd (failed-ne-ok h)

  -- A loop that ends well took its first record well.
  first_inv :
      (consumed : List String) (e : EvidenceRecord) (es : List (Option EvidenceRecord))
      (d d' : Delta) (p p' : Progress)
      → collect self consumed (some e ∷ es) d p ≡ (ok d', p')
      → ((e.connector_type == self.connector_type) ≡ true)
        × (added : Bool) × (file : Evidence.File) × (d1 : Delta) × (associate self.connector_id e
              p.file
            ≡ ok (added, file))
        × (collect_record self consumed e d file ≡ ok d1)
        × (collect self consumed es d1 (persisted self added file p) ≡ (ok d', p'))
  unfolding collect
  first_inv consumed e es d d' p p' h =
      let (typed, h1) = typed_inv (e.connector_type == self.connector_type) p _ h in
      let ((added, file), associated, h2) =
        persisted_inv (associate self.connector_id e p.file) p _ h1 in
      let (d1, collected, h3) =
        collected_inv (collect_record self consumed e d file) (persisted self added file p) _ h2 in
      (typed, added, file, d1, associated, collected, h3)

  -- The records that are collected before a call ends, by whatever the source gives, keep the delta
  -- and what is consumed together the ledger of the connector.
  pub collect-IsExact :
      (consumed : List String) (fetched : List (Option EvidenceRecord)) (d d' : Delta)
      (p p' : Progress)
      → collect self consumed fetched d p ≡ (ok d', p')
      → IsExact self consumed d p.file
      → IsExact self consumed d' p'.file
  unfolding collect
  collect-IsExact consumed [] d d' p p' h x =
      let ends = ap (λ (r : Result SyncError Delta × Progress). r.1.file) h in
      let same = ok_inj (ap (λ (r : Result SyncError Delta × Progress). r.0) h) in
      subst (λ (y : Delta × Evidence.File). IsExact self consumed y.0 y.1) (λ n. (same n, ends n)) x
  collect-IsExact consumed (none ∷ es) d d' p p' h x = absurd (failed-ne-ok h)
  collect-IsExact consumed (some e ∷ es) d d' p p' h x =
      let (typed, added, file, d1, a, c, rest) = first_inv consumed e es d d' p p' h in
      collect-IsExact consumed es d1 d' (persisted self added file p) p' rest (
        persisted-IsExact consumed d1 added file p
          (collected-IsExact self consumed e d d1 added p.file file typed a c x))
