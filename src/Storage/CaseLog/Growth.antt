-- ===== src/Storage/CaseLog/Growth.antt =====
-- What `put` of src/intent_engineering/storage/jsonl/case_store.py writes and `get` reads.
use intent_engineer.Base.{
  map_err-eq-ok, ℕ, suc, Bool, true, Option, none, some, List, [], ◌∷◌, ◌++◌, ◌≡◌, ap, subst, ◌∙◌,
  arith, inl, inr, Bool-cases, if-true, if-false, ok, ◌>>=◌, >>=-eq-ok, >>-eq-ok, ok_inj, eq_refl,
}
use intent_engineer.Base.Dict.{lookup, lookup-insert}
use intent_engineer.Reconcile.Cases.{ReconciliationCase, validate_case}
use intent_engineer.Storage.CaseLog.{
  invalid_case, File, CaseLine, case_line, Index, empty_index, same_case, same_option,
  record_version, parse_line, parse_from, parse_versions,
}
use intent_engineer.Storage.CaseLog.Store.{put, get, read_index, of_case}
use intent_engineer.Storage.CaseLog.Sameness.{same_case-eq}
use intent_engineer.Storage.CaseLog.Recorded.{
  Recorded, first, repeated, next_version, record_version-Recorded,
}

parse_from-append :
    (n : ℕ) (s t u : Index) (ls : File) (cs : List ReconciliationCase) (l : CaseLine)
    (c : ReconciliationCase)
    → parse_from n s ls ≡ ok (t, cs)
    → ((k : ℕ) → parse_line k t l ≡ ok (u, c))
    → parse_from n s (ls ++ l ∷ []) ≡ ok (u, cs ++ c ∷ [])
unfolding parse_from
parse_from-append n s t u [] cs l c h step =
    let start = ap (λ (x : Index × List ReconciliationCase). x.0) (ok_inj h) in
    let versions = ap (λ (x : Index × List ReconciliationCase). x.1) (ok_inj h) in
    ap (λ i. parse_line n i l >>= λ p. ok (p.0, p.1 ∷ [])) start
    ∙ (ap (λ m. m >>= λ p. ok (p.0, p.1 ∷ [])) (step n) ∙ ap (λ vs. ok (u, vs ++ c ∷ [])) versions)
parse_from-append n s t u (k ∷ ls) cs l c h step =
    let ((v, d), first_line, r1) = >>=-eq-ok (parse_line n s k) _ h in
    let ((w, ds), rest, r2) = >>=-eq-ok (parse_from (suc n) v ls) _ r1 in
    let last = ap (λ (x : Index × List ReconciliationCase). x.0) (ok_inj r2) in
    let versions = ap (λ (x : Index × List ReconciliationCase). x.1) (ok_inj r2) in
    let whole = parse_from-append (suc n) v t u ls ds l c (rest ∙ ap (λ x. ok (x, ds)) last) step in
    ap (λ m. m >>= λ p. parse_from (suc n) p.0 (ls ++ l ∷ []) >>= λ q. ok (q.0, p.1 ∷ q.1))
      first_line
    ∙ (ap (λ m. m >>= λ (q : Index × List ReconciliationCase). ok (q.0, d ∷ q.1)) whole
        ∙ ap (λ vs. ok (u, vs ++ c ∷ [])) versions)

parse_line-case_line :
    (k : ℕ) (s s' : Index) (c : ReconciliationCase) (new : Bool)
    → validate_case c ≡ ok tt
    → record_version true s c ≡ ok (s', new)
    → parse_line k s (case_line c) ≡ ok (s', c)
unfolding parse_line
parse_line-case_line k s s' c new valid recorded =
    rw (valid) (ap (λ m. m >>= λ p. ok (p.0, c)) recorded)

latest_of_Recorded :
    (again : Bool) (s : Index) (c : ReconciliationCase) (s' : Index)
    → Recorded again s c s'
    → lookup c.id s'.latest_by_id ≡ some c
latest_of_Recorded again s c s' (first none_yet same) =
    ap (λ x. lookup c.id x.latest_by_id) same
    ∙ (lookup-insert c.id c.id c s.latest_by_id ∙ ground (arith, eq_refl c.id))
latest_of_Recorded again s c s' (repeated _ found same) =
    ap (λ x. lookup c.id x.latest_by_id) same ∙ found
latest_of_Recorded again s c s' (next_version old found next same) =
    ap (λ x. lookup c.id x.latest_by_id) same
    ∙ (lookup-insert c.id c.id c s.latest_by_id ∙ ground (arith, eq_refl c.id))

pub read_index-eq-ok :
    (file : File) (s : Index)
    → read_index file ≡ ok s
    → (cs : List ReconciliationCase) × (parse_versions file ≡ ok (s, cs))
unfolding read_index
read_index-eq-ok file s h =
    let ((t, cs), parsed, same) = >>=-eq-ok (parse_versions file) _ h in
    (cs, parsed ∙ ap (λ x. ok (x, cs)) (ok_inj same))

get-of_read :
    (c : ReconciliationCase) (file : File) (s : Index) (cs : List ReconciliationCase)
    → parse_versions file ≡ ok (s, cs)
    → lookup c.id s.latest_by_id ≡ some c
    → get c.id file ≡ ok c
unfolding get read_index
get-of_read c file s cs parsed found = rw (parsed) (ground (arith, found))

parse_versions-append :
    (file : File) (s s' : Index) (c : ReconciliationCase) (new : Bool)
    → read_index file ≡ ok s
    → validate_case c ≡ ok tt
    → record_version true s c ≡ ok (s', new)
    → (cs : List ReconciliationCase) × (parse_versions (file ++ case_line c ∷ []) ≡ ok (s', cs))
unfolding parse_versions
parse_versions-append file s s' c new read valid recorded =
    let (cs, parsed) = read_index-eq-ok file s read in
    (
      cs ++ c ∷ [],
      parse_from-append 1 empty_index s s' file cs (case_line c) c parsed
          (λ k. parse_line-case_line k s s' c new valid recorded),
    )

is_latest :
    (c : ReconciliationCase) (found : Option ReconciliationCase)
    → same_option same_case found (some c) ≡ true
    → found ≡ some c
is_latest c none h = cc
is_latest c (some old) h = ap some (same_case-eq old c h)

-- After `put` has returned, `get` gives the case: the very version that was put is the latest one.
pub put-get :
    (c : ReconciliationCase) (file : File) (added : Bool) (file' : File)
    → put c file ≡ ok (added, file')
    → get c.id file' ≡ ok c
unfolding put
put-get c file added file' h =
    let (valid, r1) = >>-eq-ok (of_case (validate_case c)) _ h in
    let (s, read, r2) = >>=-eq-ok (read_index file) _ r1 in
    elim (Bool-cases (same_option same_case (lookup c.id s.latest_by_id) (some c))) [
      | inl there ↦
          let (cs, parsed) = read_index-eq-ok file s read in
          subst (λ (f : File). get c.id f ≡ ok c)
            (ap (λ (p : Bool × File). p.1) (ok_inj (if-true _ _ _ there r2)))
            (get-of_read c file s cs parsed (is_latest c (lookup c.id s.latest_by_id) there))
      | inr absent ↦
          let ((s', new), recorded, r3) =
            >>=-eq-ok (record_version true s c) _ (if-false _ _ _ absent r2) in
          let (cs, parsed) =
            parse_versions-append file s s' c new read
              (map_err-eq-ok invalid_case (validate_case c) valid) recorded in
          subst (λ (f : File). get c.id f ≡ ok c) (ap (λ (p : Bool × File). p.1) (ok_inj r3))
            (get-of_read c (file ++ case_line c ∷ []) s' cs parsed
              (latest_of_Recorded true s c s' (record_version-Recorded true s c s' new recorded).1))
    ]
