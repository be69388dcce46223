-- ===== src/Storage/EvidenceLog/Associate.antt =====
-- What `associate` of src/intent_engineering/storage/jsonl/evidence_store.py leaves behind.
use intent_engineer.Base.{
  map_err-eq-ok, suc, String, Bool, true, false, Option, none, some, List, [], ◌∷◌, ◌++◌, ◌==◌, ◌≡◌,
  ◌+◌, refl, sym, ap, subst, ◌∙◌, ◌⊎◌, arith, inl, inr, Bool-cases, eq→eqb, length, is_none, ok,
  err, err-ne-ok, ◌>>◌, >>=-eq-ok, raise_if-eq-ok, ok_inj, if-false, eq_iff, eq_refl,
}
use intent_engineer.Base.Dict.{Dict, lookup, contains}
use intent_engineer.Storage.Evidence.{EvidenceRecord, EvidenceIngestion, validate_ingestion}
use intent_engineer.Storage.EvidenceLog.{
  refused, broken_line, invalid_line, ingestion_line, Index, empty_index, ledger_of, predecessor,
  check_ingestion, conflicts, set_default, keep_record, add_ingestion, parse_line,
  parse_evidence_lines, same_text?, at_line,
}
use intent_engineer.Storage.EvidenceLog.Written.{is_one_line_ingestion, written_ingestion}
use intent_engineer.Storage.EvidenceLog.Store.{
  File, associate, is_associated, next_ingestion, of_evidence,
}
use intent_engineer.Storage.EvidenceLog.Ledger.{
  IsSound, AreStored, parse_evidence_lines-IsSound, ledger_of-insert, any-concat,
  contains-set_default,
}
use intent_engineer.Storage.EvidenceLog.Methods.{parse_from-append, keep_record-ok}

same_text?_refl : (a : Option String) → same_text? a a ≡ true
same_text?_refl none = refl
same_text?_refl (some a) = eq_refl a

-- The envelope that `associate` writes passes the checks of the reader.
next_ingestion-checks :
    (c : String) (e : EvidenceRecord) (s : Index)
    → IsSound s
    → is_associated e.id (ledger_of c s.entries) ≡ false
    → validate_ingestion (next_ingestion c e (ledger_of c s.entries)) ≡ ok tt
    → check_ingestion s (next_ingestion c e (ledger_of c s.entries)) ≡ ok tt
unfolding check_ingestion next_ingestion
next_ingestion-checks c e s sound fresh valid =
    let ledger = ledger_of c s.entries in
    rw
      (
        valid,
        eq→eqb (suc (length ledger)) (suc (length ledger)) refl,
        sound.associated c e.id,
        fresh,
        same_text?_refl (predecessor e ledger),
      )
      refl

parse-ingestion_line :
    (i : EvidenceIngestion) (file : File) (s : Index)
    → parse_evidence_lines file ≡ ok s
    → check_ingestion s i ≡ ok tt
    → conflicts s.records i.evidence ≡ false
    → parse_evidence_lines (file ++ ingestion_line i ∷ [])
      ≡ ok (record (add_ingestion i s) { records = set_default i.evidence s.records })
unfolding parse_evidence_lines parse_line
parse-ingestion_line i file s parsed checked h =
    parse_from-append 1 empty_index s file (ingestion_line i) parsed
    ∙ (ap (λ m. at_line (length file + 1) m >> keep_record i.evidence (add_ingestion i s)) checked
        ∙ keep_record-ok i.evidence (add_ingestion i s) h)

-- The file can be read, holds the record, and the connector's ledger has it.
abbrev pub IsLedgered : String → EvidenceRecord → File → Type 0
IsLedgered c e file =
    (s : Index) × (parse_evidence_lines file ≡ ok s)
    × (contains e.id s.records ≡ true)
    × (is_associated e.id (ledger_of c s.entries) ≡ true)

contains_of_associated :
    (k : String) (records : Dict EvidenceRecord) (is : List EvidenceIngestion)
    → AreStored records is
    → is_associated k is ≡ true
    → contains k records ≡ true
contains_of_associated k records [] h e = cc
contains_of_associated k records (i ∷ is) (a, h) e = elim (Bool-cases (i.evidence.id == k)) [
  | inl same ↦ subst (λ j. contains j records ≡ true) ((eq_iff i.evidence.id k).0 same) a
  | inr other ↦ contains_of_associated k records is h (ground (arith, other))
]

-- What `associate` does with the indexes of a file.
data Associated (c : String) (e : EvidenceRecord) (file : File) (s : Index) (file' : File)
    : Type 0 where
  before :
      is_associated e.id (ledger_of c s.entries) ≡ true → file' ≡ file → Associated c e file s file'
  anew :
      is_associated e.id (ledger_of c s.entries) ≡ false
      → validate_ingestion (next_ingestion c e (ledger_of c s.entries)) ≡ ok tt
      → file' ≡ file ++ written_ingestion (next_ingestion c e (ledger_of c s.entries)) ∷ []
      → Associated c e file s file'

associate-Associated :
    (c : String) (e : EvidenceRecord) (file : File) (added : Bool) (file' : File)
    → associate c e file ≡ ok (added, file')
    → (s : Index) × (parse_evidence_lines file ≡ ok s)
      × (conflicts s.records e ≡ false)
      × Associated c e file s file'
unfolding associate
associate-Associated c e file added file' h =
    let (s, parsed, r1) = >>=-eq-ok (parse_evidence_lines file) _ h in
    let (clear, r2) = raise_if-eq-ok (conflicts s.records e) _ _ r1 in
    (
      s,
      parsed,
      clear,
      elim (Bool-cases (is_associated e.id (ledger_of c s.entries))) [
        | inl there ↦ before there (ground (arith, r2, there))
        | inr fresh ↦
            let i = next_ingestion c e (ledger_of c s.entries) in
            let (u, valid, made) =
              >>=-eq-ok (of_evidence (validate_ingestion i))
                (λ _. ok (is_none (lookup e.id s.records), file ++ written_ingestion i ∷ []))
                (if-false _ _ _ fresh r2) in
            anew fresh (map_err-eq-ok refused (validate_ingestion i) valid) (ground (arith, made))
      ],
    )

-- The line that was written falls apart where it is read, and the file cannot be read.
abbrev pub IsBroken : String → EvidenceRecord → File → File → Type 0
IsBroken c e file file' =
    (s : Index) × (parse_evidence_lines file ≡ ok s)
    × (is_one_line_ingestion (next_ingestion c e (ledger_of c s.entries)) ≡ false)
    × (file' ≡ file ++ broken_line ∷ [])
    × (parse_evidence_lines file' ≡ err (invalid_line (length file + 1)))

-- What a written line is read as.
written_ingestion_cases :
    (i : EvidenceIngestion)
    → ((is_one_line_ingestion i ≡ true) × (written_ingestion i ≡ ingestion_line i))
      ⊎ ((is_one_line_ingestion i ≡ false) × (written_ingestion i ≡ broken_line))
unfolding written_ingestion
written_ingestion_cases i = elim (Bool-cases (is_one_line_ingestion i)) [
  | inl one ↦ inl (one, rw one refl)
  | inr broken ↦ inr (broken, rw broken refl)
]

parse-broken_line :
    (file : File) (s : Index)
    → parse_evidence_lines file ≡ ok s
    → parse_evidence_lines (file ++ broken_line ∷ []) ≡ err (invalid_line (length file + 1))
unfolding parse_evidence_lines parse_line
parse-broken_line file s parsed = parse_from-append 1 empty_index s file broken_line parsed

IsLedgered-of_Associated :
    (c : String) (e : EvidenceRecord) (file : File) (s : Index) (file' : File)
    → parse_evidence_lines file ≡ ok s
    → conflicts s.records e ≡ false
    → Associated c e file s file'
    → IsLedgered c e file' ⊎ IsBroken c e file file'
unfolding next_ingestion
IsLedgered-of_Associated c e file s file' parsed clear (before there same) =
    let sound = parse_evidence_lines-IsSound file s parsed in
    inl (
      subst (IsLedgered c e) (sym same) (
        s,
        parsed,
        contains_of_associated e.id s.records (ledger_of c s.entries) (sound.stored c) there,
        there,
      ))
IsLedgered-of_Associated c e file s file' parsed clear (anew fresh valid same) =
    let sound = parse_evidence_lines-IsSound file s parsed in
    let old = ledger_of c s.entries in
    let i = next_ingestion c e old in
    elim (written_ingestion_cases i) [
      | inr (falls_apart, line) ↦
          let whole = same ∙ ap (λ l. file ++ l ∷ []) line in
          inr (
            s,
            parsed,
            falls_apart,
            whole,
            ap parse_evidence_lines whole ∙ parse-broken_line file s parsed,
          )
      | inl (one, line) ↦ inl (
          subst (IsLedgered c e) (sym (same ∙ ap (λ l. file ++ l ∷ []) line)) (
            _,
            parse-ingestion_line i file s parsed (next_ingestion-checks c e s sound fresh valid)
                clear,
            contains-set_default e s.records e.id ∙ ground (arith, eq_refl e.id),
            ground (
              arith,
              ledger_of-insert c c (old ++ i ∷ []) s.entries,
              eq_refl c,
              any-concat (λ j. j.evidence.id == e.id) old i,
              eq_refl e.id,
            ),
          ))
    ]

-- After `associate` has returned, the file can be read again, the record's identity is stored, and
-- the connector's ledger has an entry for it; or the entry that was written holds a separator of lines,
-- and the file cannot be read any more. If an entry was there, the file is unchanged.
pub associate_lem :
    (c : String) (e : EvidenceRecord) (file : File) (added : Bool) (file' : File)
    → associate c e file ≡ ok (added, file')
    → (IsLedgered c e file' ⊎ IsBroken c e file file') × (IsLedgered c e file → file' ≡ file)
associate_lem c e file added file' h =
    let (s, parsed, clear, a) = associate-Associated c e file added file' h in
    (
      IsLedgered-of_Associated c e file s file' parsed clear a,
      λ (t, parsed', stored, there). elim a [
        | before _ same ↦ same
        | anew fresh _ _ ↦
            let same = ok_inj (sym parsed ∙ parsed') in
            absurd (
              ground (
                arith,
                fresh,
                there,
                ap (λ (x : Index). is_associated e.id (ledger_of c x.entries)) same,
              ))
      ],
    )

-- The ledger has one entry more, which is for the record and the first with its identity.
pub record Grows (c : String) (e : EvidenceRecord) (file file' : File) : Type 0 where
  pub entry : EvidenceIngestion
  pub for_record : entry.evidence ≡ e
  pub before : Index
  pub after : Index
  pub reads : parse_evidence_lines file ≡ ok before
  pub reads_after : parse_evidence_lines file' ≡ ok after
  pub is_new : is_associated e.id (ledger_of c before.entries) ≡ false
  pub grown : ledger_of c after.entries ≡ ledger_of c before.entries ++ entry ∷ []

-- `associate` leaves the file, or adds one entry to the ledger of the connector, where the file can be
-- read afterwards.
pub associate-Grows :
    (c : String) (e : EvidenceRecord) (file : File) (added : Bool) (file' : File)
    → associate c e file ≡ ok (added, file')
    → (t : Index) → parse_evidence_lines file' ≡ ok t
    → (file' ≡ file) ⊎ Grows c e file file'
unfolding next_ingestion
associate-Grows c e file added file' h t readable =
    let (s, parsed, clear, a) = associate-Associated c e file added file' h in
    elim a [
      | before there same ↦ inl same
      | anew fresh valid same ↦
          let old = ledger_of c s.entries in
          let i = next_ingestion c e old in
          let sound = parse_evidence_lines-IsSound file s parsed in
          let line =
            elim (written_ingestion_cases i) as (λ _. written_ingestion i ≡ ingestion_line i) [
              | inl (one, made) ↦ made
              | inr (falls_apart, broken) ↦ absurd (
                  err-ne-ok (
                    sym (
                      ap parse_evidence_lines (same ∙ ap (λ l. file ++ l ∷ []) broken)
                      ∙ parse-broken_line file s parsed)
                    ∙ readable))
            ] in
          inr (record {
            entry = i;
            for_record = refl;
            before = s;
            after = record (add_ingestion i s) { records = set_default e s.records };
            reads = parsed;
            reads_after =
                ap parse_evidence_lines (same ∙ ap (λ l. file ++ l ∷ []) line)
                ∙ parse-ingestion_line i file s parsed
                    (next_ingestion-checks c e s sound fresh valid) clear;
            is_new = fresh;
            grown = ledger_of-insert c c (old ++ i ∷ []) s.entries ∙ rw (eq_refl c) refl;
          })
    ]
