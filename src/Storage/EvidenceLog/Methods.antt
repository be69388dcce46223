-- ===== src/Storage/EvidenceLog/Methods.antt =====
-- What `put` of src/intent_engineering/storage/jsonl/evidence_store.py leaves behind.
use intent_engineer.Base.{
  ℕ, suc, Bool, true, false, some, List, [], ◌∷◌, ◌++◌, ◌≡◌, ◌⊎◌, ◌+◌, refl, ap, subst, ◌∙◌, arith,
  inl, inr, Option-cases, length, Result, ok, err, ◌>>=◌, >>=-eq-ok, raise_if-eq-ok, ok_inj,
  eq_refl,
}
use intent_engineer.Base.Dict.{Dict, lookup, lookup-insert}
use intent_engineer.Storage.Evidence.{EvidenceRecord}
use intent_engineer.Storage.EvidenceLog.{
  Line, record_line, Index, empty_index, conflicts, same_evidence, set_default, keep_record,
  parse_line, parse_from, parse_evidence_lines,
}
use intent_engineer.Storage.EvidenceLog.Written.{is_one_line_record, written_record}
use intent_engineer.Storage.EvidenceLog.Store.{File, put, get}

>>=-ok : {E A : Type 0} (m : Result E A) → (m >>= λ a. ok a) ≡ m
>>=-ok (ok a) = refl
>>=-ok (err e) = refl

pub parse_from-append :
    (n : ℕ) (s t : Index) (ls : List Line) (l : Line)
    → parse_from n s ls ≡ ok t
    → parse_from n s (ls ++ l ∷ []) ≡ parse_line (length ls + n) t l
unfolding parse_from
parse_from-append n s t [] l h =
    >>=-ok (parse_line n s l)
    ∙ (ap (λ u. parse_line n u l) (ok_inj h) ∙ ap (λ j. parse_line j t l) (omega arith))
parse_from-append n s t (k ∷ ls) l h =
    let (u, first, rest) = >>=-eq-ok (parse_line n s k) (λ v. parse_from (suc n) v ls) h in
    ap (λ m. m >>= λ v. parse_from (suc n) v (ls ++ l ∷ [])) first
    ∙ (parse_from-append (suc n) u t ls l rest ∙ ap (λ j. parse_line j t l) (omega arith))

-- The record that is stored is the given one, or one that is equal to it in Python.
abbrev pub IsStoredAs : EvidenceRecord → EvidenceRecord → Type 0
IsStoredAs e r = (r ≡ e) ⊎ (same_evidence r e ≡ true)

-- The file can be read, and holds the record.
abbrev pub Holds : EvidenceRecord → File → Type 0
Holds e file =
    (s : Index) × (r : EvidenceRecord) × (parse_evidence_lines file ≡ ok s)
    × (lookup e.id s.records ≡ some r)
    × IsStoredAs e r

lookup-set_default :
    (e : EvidenceRecord) (records : Dict EvidenceRecord)
    → conflicts records e ≡ false
    → (r : EvidenceRecord) × (lookup e.id (set_default e records) ≡ some r) × IsStoredAs e r
unfolding conflicts
lookup-set_default e records h = elim (Option-cases (lookup e.id records)) [
  | inl missing ↦
      (e, ground (arith, missing, lookup-insert e.id e.id e records, eq_refl e.id), inl refl)
  | inr (old, found) ↦ (old, ground (arith, found), inr (ground (arith, found, h)))
]

pub keep_record-ok :
    (e : EvidenceRecord) (s : Index)
    → conflicts s.records e ≡ false
    → keep_record e s ≡ ok (record s { records = set_default e s.records })
keep_record-ok e s h = rw (h) refl

parse-record_line :
    (e : EvidenceRecord) (file : File) (s : Index)
    → parse_evidence_lines file ≡ ok s
    → conflicts s.records e ≡ false
    → parse_evidence_lines (file ++ record_line e ∷ [])
      ≡ ok (record s { legacy_ids = s.legacy_ids ++ e.id ∷ []; records = set_default e s.records })
unfolding parse_evidence_lines parse_line
parse-record_line e file s parsed h =
    parse_from-append 1 empty_index s file (record_line e) parsed ∙ keep_record-ok e _ h

put-Holds :
    (e : EvidenceRecord) (file : File) (added : Bool) (file' : File)
    → is_one_line_record e ≡ true
    → put e file ≡ ok (added, file')
    → Holds e file'
unfolding put written_record
put-Holds e file added file' one h =
    let (s, parsed, r1) = >>=-eq-ok (parse_evidence_lines file) _ h in
    let (clear, r2) = raise_if-eq-ok (conflicts s.records e) _ _ r1 in
    let (r, found, same) = lookup-set_default e s.records clear in
    elim (Option-cases (lookup e.id s.records)) [
      | inl missing ↦
          subst (Holds e) {x = file ++ record_line e ∷ []} {y = file'}
            (ground (arith, r2, missing, one))
            (_, r, parse-record_line e file s parsed clear, found, same)
      | inr (old, there) ↦
          subst (Holds e) {x = file} {y = file'} (ground (arith, r2, there))
            (s, r, parsed, ground (arith, found, there), same)
    ]

get-of_Holds :
    (e : EvidenceRecord) (file : File)
    → Holds e file
    → (r : EvidenceRecord) × (get e.id file ≡ ok r) × IsStoredAs e r
unfolding get
get-of_Holds e file (s, r, parsed, found, same) = (r, rw (parsed) (ground (arith, found)), same)

-- After `put` of a record without a separator of lines has returned, `get` finds the record: it was written, or an equal one was there.
pub put-get_record :
    (e : EvidenceRecord) (file : File) (added : Bool) (file' : File)
    → is_one_line_record e ≡ true
    → put e file ≡ ok (added, file')
    → (r : EvidenceRecord) × (get e.id file' ≡ ok r) × IsStoredAs e r
put-get_record e file added file' one h = get-of_Holds e file' (put-Holds e file added file' one h)
