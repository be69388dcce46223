-- ===== src/Storage/MutationStore/Laws.antt =====
-- What is put into a store of src/intent_engineering/storage/jsonl/approval_store.py stays.
use intent_engineer.Base.{
  String, Bool, true, false, Option, none, some, List, [], ◌∷◌, ◌++◌, ◌==◌, ◌≡◌, ◌⊎◌, refl, sym, ap,
  subst, ◌∙◌, arith, inl, inr, Bool-cases, Option-cases, none-ne-some, chain_some, chain-chain,
  Result, ok, err, err-ne-ok, ◌>>=◌, ok_inj, eq_iff, eq_refl,
}
use intent_engineer.Base.Text.{is_one_line}
use intent_engineer.Base.Dict.{Dict, lookup, insert, lookup-insert}
use intent_engineer.Storage.MutationStore.{
  RecordModel, Line, record_line, Index, invalid, MutationStoreError, empty_index, decode_line,
  decode_from, rebuild, written, put_ways, put_result, raised, put, get, found_record,
}

module _ {A : Type 0} (model : RecordModel A) where
  -- The index after a new record.
  abbrev with_record : Index A → A → Index A
  with_record s r = record s {
    records = insert (model.id_of r) r s.records;
    encodings = insert (model.id_of r) (model.serialize r) s.encodings;
  }

  decode_from-append :
      (s : Index A) (file : List (Line A)) (l : Line A)
      → decode_from model s (file ++ l ∷ [])
        ≡ (elim (decode_from model s file) [ none ↦ none | some t ↦ decode_line model t l ])
  unfolding decode_from
  decode_from-append s [] l = chain_some (decode_line model s l)
  decode_from-append s (m ∷ file) l =
      chain-chain (decode_line model s m) (λ t. decode_from model t (file ++ l ∷ []))
        (λ t. decode_from model t file) (λ t. decode_line model t l)
        (λ t. decode_from-append t file l)

  rebuild_inv :
      (file : List (Line A)) (records : Dict A)
      → rebuild model file ≡ ok records
      → (s : Index A) × (decode_from model (empty_index model) file ≡ some s)
        × (s.records ≡ records)
  unfolding rebuild
  rebuild_inv file records h = elim (Option-cases (decode_from model (empty_index model) file)) [
    | inl broken ↦ absurd (ground (arith, h, broken))
    | inr (t, read) ↦ (t, read, ok_inj {E = MutationStoreError} (ground (arith, h, read)))
  ]

  -- The outcomes of put that do not raise.
  pub data Stored (r : A) (file file' : List (Line A)) (records : Dict A) (new : Bool)
      : Type 0 where
    first :
        lookup (model.id_of r) records ≡ none
        → new ≡ true
        → file' ≡ file ++ written model r ∷ []
        → Stored r file file' records new
    again :
        (existing : A)
        → lookup (model.id_of r) records ≡ some existing
        → model.same existing r ≡ true
        → new ≡ false
        → file' ≡ file
        → Stored r file file' records new

  Stored-of_ways :
      (r : A) (file file' : List (Line A)) (records : Dict A) (new : Bool) (o : Option A)
      → lookup (model.id_of r) records ≡ o
      → raised model (put_ways model r file o) ≡ ok (new, file')
      → Stored r file file' records new
  Stored-of_ways r file file' records new none found h =
      let same = ok_inj {E = MutationStoreError} h in
      first found (sym (ap (λ (p : Bool × List (Line A)). p.0) same))
        (sym (ap (λ (p : Bool × List (Line A)). p.1) same))
  Stored-of_ways r file file' records new (some existing) found h =
      elim (Bool-cases (model.same existing r)) [
        | inl equal ↦
            let same = ok_inj {E = MutationStoreError} (rw equal at h) in
            again existing found equal (sym (ap (λ (p : Bool × List (Line A)). p.0) same))
              (sym (ap (λ (p : Bool × List (Line A)). p.1) same))
        | inr differs ↦ absurd (err-ne-ok (rw differs at h))
      ]

  Stored-of_rebuild :
      (r : A) (file file' : List (Line A)) (new : Bool) (o : Result MutationStoreError (Dict A))
      → rebuild model file ≡ o
      → raised model (elim o [
        | err e ↦ (invalid, file)
        | ok records ↦ put_ways model r file (lookup (model.id_of r) records)
      ])
        ≡ ok (new, file')
      → (records : Dict A) × (rebuild model file ≡ ok records) × Stored r file file' records new
  Stored-of_rebuild r file file' new (err e) read h = absurd (err-ne-ok h)
  Stored-of_rebuild r file file' new (ok records) read h =
      (records, read, Stored-of_ways r file file' records new _ refl h)

  put_inv :
      (r : A) (file file' : List (Line A)) (new : Bool)
      → put model r file ≡ ok (new, file')
      → (model.is_valid r ≡ true)
        × ((records : Dict A) × (rebuild model file ≡ ok records) × Stored r file file' records new)
  unfolding put put_result
  put_inv r file file' new h = elim (Bool-cases (model.is_valid r)) [
    | inr wrong ↦ absurd (ground (arith, h, wrong))
    | inl valid ↦
        (valid, Stored-of_rebuild r file file' new (rebuild model file) refl (rw valid at h))
  ]

  written-one_line :
      (r : A)
      → is_one_line (model.serialize r) ≡ true
      → written model r ≡ record_line (model.serialize r) r
  unfolding written
  written-one_line r one = rw one refl

  rebuild-append :
      (r : A) (file : List (Line A)) (records : Dict A)
      → model.is_valid r ≡ true
      → rebuild model file ≡ ok records
      → lookup (model.id_of r) records ≡ none
      → rebuild model (file ++ record_line (model.serialize r) r ∷ [])
        ≡ ok (insert (model.id_of r) r records)
  unfolding rebuild decode_line
  rebuild-append r file records valid read fresh =
      let (s, decoded, same) = rebuild_inv file records read in
      let line = record_line (model.serialize r) r in
      let none_there = ap (lookup (model.id_of r)) same ∙ fresh in
      let whole : decode_from model (empty_index model) (file ++ line ∷ [])
          ≡ some (with_record s r) =
        decode_from-append (empty_index model) file line ∙ rw (decoded, valid, none_there) refl in
      rw (rebuild, whole) (ap (λ d. ok (insert (model.id_of r) r d)) same)

  get_of_rebuild :
      (key : String) (r : A) (file : List (Line A)) (records : Dict A)
      → rebuild model file ≡ ok records
      → lookup key records ≡ some r
      → get model key file ≡ ok r
  unfolding get
  get_of_rebuild key r file records read found =
      ap (λ m. m >>= λ d. found_record model key (lookup key d)) read
      ∙ ap (found_record model key) found

  found_inv : (key : String) (r : A) (o : Option A) → found_record model key o ≡ ok r → o ≡ some r
  found_inv key r none h = absurd (err-ne-ok h)
  found_inv key r (some s) h = ap some (ok_inj h)

  get_inv :
      (key : String) (r : A) (file : List (Line A)) (records : Dict A)
      → rebuild model file ≡ ok records
      → get model key file ≡ ok r
      → lookup key records ≡ some r
  unfolding get
  get_inv key r file records read h =
      found_inv key r (lookup key records)
        (sym (ap (λ m. m >>= λ d. found_record model key (lookup key d)) read) ∙ h)

  kept_lookup :
      (key other : String) (old r : A) (d : Dict A)
      → lookup key d ≡ some old
      → lookup other d ≡ none
      → lookup key (insert other r d) ≡ some old
  kept_lookup key other old r d there fresh =
      lookup-insert other key r d ∙ elim (Bool-cases (other == key)) [
        | inl same ↦ absurd (
            none-ne-some
              (sym (subst (λ k. lookup k d ≡ none) ((eq_iff other key).0 same) fresh) ∙ there))
        | inr differs ↦ rw differs there
      ]

  abbrev Kept : A → List (Line A) → List (Line A) → Type 0
  Kept r file file' =
      ((kept : A) × (get model (model.id_of r) file' ≡ ok kept)
        × ((kept ≡ r) ⊎ (model.same kept r ≡ true)))
      × ((key : String) (old : A) → get model key file ≡ ok old → get model key file' ≡ ok old)

  after_put :
      (r : A) (file file' : List (Line A)) (new : Bool) (records : Dict A)
      → is_one_line (model.serialize r) ≡ true
      → model.is_valid r ≡ true
      → rebuild model file ≡ ok records
      → Stored r file file' records new
      → Kept r file file'
  after_put r file file' new records one valid read (again existing found equal old same) =
      subst (Kept r file) (sym same) (
        (existing, get_of_rebuild (model.id_of r) existing file records read found, inr equal),
        λ key old there. there,
      )
  after_put r file file' new records one valid read (first fresh grown same) =
      subst (Kept r file) (sym (same ∙ ap (λ l. file ++ l ∷ []) (written-one_line r one))) (
        (
          r,
          get_of_rebuild (model.id_of r) r _ _ (rebuild-append r file records valid read fresh) (
              lookup-insert (model.id_of r) (model.id_of r) r records
              ∙ rw (eq_refl (model.id_of r)) refl),
          inl refl,
        ),
        λ key old there.
            get_of_rebuild key old _ _ (rebuild-append r file records valid read fresh) (
              kept_lookup key (model.id_of r) old r records
                (get_inv key old file records read there) fresh),
      )

  -- After put of a record whose text has no separator of lines has returned, get finds under the identity of the record that record or the equal one
  -- that was there, and finds under every other identity what it found before.
  pub put-get_immutable :
      (r : A) (file file' : List (Line A)) (new : Bool)
      → is_one_line (model.serialize r) ≡ true
      → put model r file ≡ ok (new, file')
      → ((kept : A) × (get model (model.id_of r) file' ≡ ok kept)
          × ((kept ≡ r) ⊎ (model.same kept r ≡ true)))
        × ((key : String) (old : A) → get model key file ≡ ok old → get model key file' ≡ ok old)
  put-get_immutable r file file' new one h =
      let (valid, (records, read, stored)) = put_inv r file file' new h in
      after_put r file file' new records one valid read stored
