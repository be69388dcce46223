-- ===== src/Storage/EvidenceLog/Ledger.antt =====
-- What every evidence file that can be read satisfies, and that the methods of
-- src/intent_engineering/storage/jsonl/evidence_store.py keep it readable.
use intent_engineer.Base.{
  ℕ, suc, String, Bool, true, false, ◌&&◌, ◌||◌, Option, none, some, List, [], ◌∷◌, ◌++◌, ◌==◌, ◌≡◌,
  refl, sym, ap, subst, ◌∙◌, arith, inl, inr, Bool-cases, Option-cases, All, eqb→eq, length, any,
  if◌then◌else◌, Result, ok, err, >>=-eq-ok, raise_if-eq-ok, >>-eq-ok, ok_inj, eq_iff, eq_refl,
}
use mathlib.Core.List.{append-nil, append_assoc}
use intent_engineer.Base.Dict.{Dict, lookup, insert, contains, lookup-insert}
use intent_engineer.Storage.Evidence.{EvidenceRecord, EvidenceIngestion, EvidenceError}
use intent_engineer.Storage.EvidenceLog.{
  Line, blank_line, broken_line, record_line, ingestion_line, Index, empty_index, ledger_of,
  has_pair, predecessor, check_ingestion, set_default, keep_record, add_ingestion, parse_line,
  parse_from, parse_evidence_lines, same_text?, at_line,
}

-- The ledger of a connector, read from its start: the sequence numbers count up, no evidence
-- stands twice, and every entry names the entry before it for the same object.
abbrev pub IsLedger : List EvidenceIngestion → List EvidenceIngestion → Type 0
IsLedger before [] = Unit
IsLedger before (i ∷ is) =
    (i.sequence ≡ suc (length before))
    × (any (λ j. j.evidence.id == i.evidence.id) before ≡ false)
    × (i.predecessor_id ≡ predecessor i.evidence before)
    × IsLedger (before ++ i ∷ []) is

abbrev pub AreStored : Dict EvidenceRecord → List EvidenceIngestion → Type 0
AreStored records = All (λ (i : EvidenceIngestion). contains i.evidence.id records ≡ true)

pub record IsSound (s : Index) : Type 0 where
  pub ledgers : (c : String) → IsLedger [] (ledger_of c s.entries)
  pub stored : (c : String) → AreStored s.records (ledger_of c s.entries)
  pub associated :
      (c k : String)
      → has_pair c k s.associations ≡ any (λ i. i.evidence.id == k) (ledger_of c s.entries)

IsSound-empty : IsSound empty_index
IsSound-empty = record { ledgers = λ c. tt; stored = λ c. tt; associated = λ c k. refl }

IsLedger-concat :
    (before is : List EvidenceIngestion) (i : EvidenceIngestion)
    → IsLedger before is
    → IsLedger (before ++ is) (i ∷ [])
    → IsLedger before (is ++ i ∷ [])
IsLedger-concat before [] i h last = subst (λ b. IsLedger b (i ∷ [])) (append-nil before) last
IsLedger-concat before (j ∷ is) i (a, b, c, rest) last = (
  a,
  b,
  c,
  IsLedger-concat (before ++ j ∷ []) is i rest
      (subst (λ b. IsLedger b (i ∷ [])) (sym (append_assoc before (j ∷ []) is)) last),
)

AreStored-concat :
    (records : Dict EvidenceRecord) (is : List EvidenceIngestion) (i : EvidenceIngestion)
    → AreStored records is
    → contains i.evidence.id records ≡ true
    → AreStored records (is ++ i ∷ [])
AreStored-concat records [] i h here = (here, tt)
AreStored-concat records (j ∷ is) i (a, h) here = (a, AreStored-concat records is i h here)

pub contains-set_default :
    (e : EvidenceRecord) (records : Dict EvidenceRecord) (k : String)
    → contains k (set_default e records) ≡ (e.id == k || contains k records)
contains-set_default e records k = elim (Option-cases (lookup e.id records)) [
  | inl missing ↦ ground (arith, missing, lookup-insert e.id k e records)
  | inr (old, found) ↦ elim (Bool-cases (e.id == k)) [
    | inl same ↦ ground (arith, found, same, ap (λ j. lookup j records) ((eq_iff e.id k).0 same))
    | inr other ↦ ground (arith, found, other)
  ]
]

AreStored-set_default :
    (e : EvidenceRecord) (records : Dict EvidenceRecord) (is : List EvidenceIngestion)
    → AreStored records is
    → AreStored (set_default e records) is
AreStored-set_default e records [] h = tt
AreStored-set_default e records (i ∷ is) (a, h) = (
  contains-set_default e records i.evidence.id ∙ ground (arith, a),
  AreStored-set_default e records is h,
)

pub any-concat :
    (test : EvidenceIngestion → Bool) (is : List EvidenceIngestion) (i : EvidenceIngestion)
    → any test (is ++ i ∷ []) ≡ (test i || any test is)
any-concat test [] i = refl
any-concat test (j ∷ is) i = ground (arith, any-concat test is i)

pub ledger_of-insert :
    (c d : String) (l : List EvidenceIngestion) (entries : Dict (List EvidenceIngestion))
    → ledger_of d (insert c l entries) ≡ (if c == d then l else ledger_of d entries)
ledger_of-insert c d l entries = ground (arith, lookup-insert c d l entries)

pub same_text?-eq : (a b : Option String) → same_text? a b ≡ true → a ≡ b
same_text?-eq none none h = refl
same_text?-eq none (some b) h = cc
same_text?-eq (some a) none h = cc
same_text?-eq (some a) (some b) h = ap some ((eq_iff a b).0 h)

-- What the checks of a line with an ingestion say.
IsLedger-of_check :
    (s : Index) (i : EvidenceIngestion)
    → IsSound s
    → check_ingestion s i ≡ ok tt
    → IsLedger (ledger_of i.connector_id s.entries) (i ∷ [])
unfolding check_ingestion
IsLedger-of_check s i h checked = (
  eqb→eq i.sequence (suc (length (ledger_of i.connector_id s.entries))) (ground (arith, checked)),
  sym (h.associated i.connector_id i.evidence.id) ∙ ground (arith, checked),
  same_text?-eq i.predecessor_id (predecessor i.evidence (ledger_of i.connector_id s.entries))
      (ground (arith, checked)),
  tt,
)

of_at_line : (n : ℕ) (m : Result EvidenceError Unit) → at_line n m ≡ ok tt → m ≡ ok tt
of_at_line n (ok u) h = refl
of_at_line n (err e) h = cc

keep_record-eq :
    (e : EvidenceRecord) (s s' : Index)
    → keep_record e s ≡ ok s'
    → (record s { records = set_default e s.records }) ≡ s'
keep_record-eq e s s' kept = ok_inj (raise_if-eq-ok _ _ _ kept).1

IsSound-record :
    (e : EvidenceRecord) (s : Index) (ids : List String)
    → IsSound s
    → IsSound (record s { legacy_ids = ids; records = set_default e s.records })
IsSound-record e s ids h = record {
  ledgers = h.ledgers;
  stored = λ c. AreStored-set_default e s.records (ledger_of c s.entries) (h.stored c);
  associated = h.associated;
}

by_connector :
    (P : List EvidenceIngestion → Type 0) (c d : String) (l : List EvidenceIngestion)
    (entries : Dict (List EvidenceIngestion))
    → ((c == d) ≡ true → P l)
    → ((c == d) ≡ false → P (ledger_of d entries))
    → P (ledger_of d (insert c l entries))
by_connector P c d l entries here there = elim (Bool-cases (c == d)) [
  | inl same ↦ subst P (sym (ledger_of-insert c d l entries ∙ ground (arith, same))) (here same)
  | inr other ↦ subst P (sym (ledger_of-insert c d l entries ∙ ground (arith, other))) (there other)
]

IsSound-ingestion :
    (i : EvidenceIngestion) (s : Index)
    → IsSound s
    → check_ingestion s i ≡ ok tt
    → IsSound (record (add_ingestion i s) { records = set_default i.evidence s.records })
IsSound-ingestion i s h checked =
    let connector = i.connector_id in
    let old = ledger_of connector s.entries in
    let records = set_default i.evidence s.records in
    record {
      ledgers = λ c.
          by_connector (IsLedger []) connector c (old ++ i ∷ []) s.entries
            (λ _. IsLedger-concat [] old i (h.ledgers connector) (IsLedger-of_check s i h checked))
            (λ _. h.ledgers c);
      stored = λ c.
          by_connector (AreStored records) connector c (old ++ i ∷ []) s.entries
            (λ _.
              AreStored-concat records old i
                (AreStored-set_default i.evidence s.records old (h.stored connector))
                (contains-set_default i.evidence s.records i.evidence.id
                  ∙ ground (arith, eq_refl i.evidence.id)))
            (λ _. AreStored-set_default i.evidence s.records (ledger_of c s.entries) (h.stored c));
      associated = λ c k.
          by_connector
            (λ l.
              ((connector == c && i.evidence.id == k) || has_pair c k s.associations)
              ≡ any (λ j. j.evidence.id == k) l)
            connector c (old ++ i ∷ []) s.entries
            (λ same. ground (
              arith,
              same,
              ap (λ d. has_pair d k s.associations) ((eq_iff connector c).0 same),
              h.associated connector k,
              any-concat (λ j. j.evidence.id == k) old i,
            ))
            (λ other. ground (arith, other, h.associated c k));
    }

IsSound-parse_line :
    (n : ℕ) (s : Index) (l : Line) (s' : Index) → IsSound s → parse_line n s l ≡ ok s' → IsSound s'
unfolding parse_line
IsSound-parse_line n s blank_line s' h e = subst IsSound (ok_inj e) h
IsSound-parse_line n s broken_line s' h e = cc
IsSound-parse_line n s (record_line r) s' h e =
    subst IsSound (keep_record-eq r _ s' e) (IsSound-record r s (s.legacy_ids ++ r.id ∷ []) h)
IsSound-parse_line n s (ingestion_line i) s' h e =
    let (checked, kept) = >>-eq-ok (at_line n (check_ingestion s i)) _ e in
    subst IsSound (keep_record-eq i.evidence _ s' kept)
      (IsSound-ingestion i s h (of_at_line n (check_ingestion s i) checked))

IsSound-parse_from :
    (n : ℕ) (s : Index) (ls : List Line) (s' : Index)
    → IsSound s
    → parse_from n s ls ≡ ok s'
    → IsSound s'
unfolding parse_from
IsSound-parse_from n s [] s' h e = subst IsSound (ok_inj e) h
IsSound-parse_from n s (l ∷ ls) s' h e =
    let (t, first, rest) = >>=-eq-ok (parse_line n s l) (λ u. parse_from (suc n) u ls) e in
    IsSound-parse_from (suc n) t ls s' (IsSound-parse_line n s l t h first) rest

-- In every evidence file that can be read, the entries of each connector are numbered from 1
-- without a gap, no connector has the same evidence twice, each entry names the connector's last
-- earlier entry for the same external object as its predecessor, and a record is stored under
-- the identity of each entry's evidence.
pub parse_evidence_lines-IsSound :
    (file : List Line) (s : Index) → parse_evidence_lines file ≡ ok s → IsSound s
unfolding parse_evidence_lines
parse_evidence_lines-IsSound file s h = IsSound-parse_from 1 empty_index file s IsSound-empty h
