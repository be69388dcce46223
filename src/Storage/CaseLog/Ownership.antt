-- ===== src/Storage/CaseLog/Ownership.antt =====
-- Cases and fingerprints determine each other in every file that
-- src/intent_engineering/storage/jsonl/case_store.py reads.
use intent_engineer.Base.{
  ℕ, suc, String, Bool, true, false, Option, some, List, [], ◌∷◌, ◌==◌, ◌≡◌, sym, ap, subst, ◌∙◌,
  arith, inl, inr, Bool-cases, ok, >>=-eq-ok, >>-eq-ok, ok_inj, eq_iff, eq_refl,
}
use intent_engineer.Base.Dict.{Dict, lookup, insert, lookup-insert}
use intent_engineer.Reconcile.Cases.{ReconciliationCase, validate_case}
use intent_engineer.Storage.CaseLog.{
  File, CaseLine, blank_line, broken_line, case_line, Index, empty_index, index_case,
  has_other_owner, record_version, parse_line, parse_from, parse_versions, at_line,
}
use intent_engineer.Storage.CaseLog.Recorded.{
  first, repeated, next_version, record_version-Recorded,
}

-- The two indexes are inverse to each other.
pub record IsPaired (s : Index) : Type 0 where
  pub owned :
      (k : String) (c : ReconciliationCase)
      → lookup k s.latest_by_id ≡ some c
      → (c.id ≡ k) × (lookup c.fingerprint s.by_fingerprint ≡ some c)
  pub latest :
      (f : String) (c : ReconciliationCase)
      → lookup f s.by_fingerprint ≡ some c
      → (c.fingerprint ≡ f) × (lookup c.id s.latest_by_id ≡ some c)

lookup-insert_here :
    (k j : String) (c : ReconciliationCase) (d : Dict ReconciliationCase)
    → (k == j) ≡ true
    → lookup j (insert k c d) ≡ some c
lookup-insert_here k j c d same = lookup-insert k j c d ∙ ground (arith, same)

lookup-insert_there :
    (k j : String) (c : ReconciliationCase) (d : Dict ReconciliationCase)
    → (k == j) ≡ false
    → lookup j (insert k c d) ≡ lookup j d
lookup-insert_there k j c d other = lookup-insert k j c d ∙ ground (arith, other)

some_inj :
    {a b : ReconciliationCase} → ◌≡◌ {A = Option ReconciliationCase} (some a) (some b) → a ≡ b
some_inj h = cc

module _ (s : Index) (c : ReconciliationCase) (p : IsPaired s)
    (free : has_other_owner c (lookup c.fingerprint s.by_fingerprint) ≡ false)
    (stable : (old : ReconciliationCase)
      → lookup c.id s.latest_by_id ≡ some old
      → old.fingerprint ≡ c.fingerprint) where
  owner_id : (d : ReconciliationCase) → lookup c.fingerprint s.by_fingerprint ≡ some d → d.id ≡ c.id
  owner_id d found = (eq_iff d.id c.id).0 (ground (arith, found, free))

  other_fingerprint :
      (d : ReconciliationCase)
      → lookup d.fingerprint s.by_fingerprint ≡ some d
      → (c.id == d.id) ≡ false
      → (c.fingerprint == d.fingerprint) ≡ false
  other_fingerprint d found other = elim (Bool-cases (c.fingerprint == d.fingerprint)) [
    | inr other_one ↦ other_one
    | inl same ↦
        let here =
          ap (λ f. lookup f s.by_fingerprint) ((eq_iff c.fingerprint d.fingerprint).0 same) in
        let named = owner_id d (here ∙ found) in
        absurd (ground (arith, other, (eq_iff c.id d.id).1 (sym named)))
  ]

  other_id :
      (d : ReconciliationCase)
      → lookup d.id s.latest_by_id ≡ some d
      → (c.fingerprint == d.fingerprint) ≡ false
      → (c.id == d.id) ≡ false
  other_id d found other = elim (Bool-cases (c.id == d.id)) [
    | inr other_one ↦ other_one
    | inl same ↦
        let here = ap (λ k. lookup k s.latest_by_id) ((eq_iff c.id d.id).0 same) in
        let named = stable d (here ∙ found) in
        absurd (ground (arith, other, (eq_iff c.fingerprint d.fingerprint).1 (sym named)))
  ]

  IsPaired-index_case : IsPaired (index_case c s)
  IsPaired-index_case = record {
    owned = λ k d found. elim (Bool-cases (c.id == k)) [
      | inl same ↦
          let e = some_inj (sym (lookup-insert_here c.id k c s.latest_by_id same) ∙ found) in
          subst (λ x. (x.id ≡ k) × (lookup x.fingerprint (index_case c s).by_fingerprint ≡ some x))
            e
            (
              (eq_iff c.id k).0 same,
              lookup-insert_here c.fingerprint c.fingerprint c s.by_fingerprint
                  (eq_refl c.fingerprint),
            )
      | inr other ↦
          let (named, mine) =
            p.owned k d (sym (lookup-insert_there c.id k c s.latest_by_id other) ∙ found) in
          let distinct = subst (λ j. (c.id == j) ≡ false) (sym named) other in
          (
            named,
            lookup-insert_there c.fingerprint d.fingerprint c s.by_fingerprint
                  (other_fingerprint d mine distinct)
                ∙ mine,
          )
    ];
    latest = λ f d found. elim (Bool-cases (c.fingerprint == f)) [
      | inl same ↦
          let e =
            some_inj (sym (lookup-insert_here c.fingerprint f c s.by_fingerprint same) ∙ found) in
          subst (λ x. (x.fingerprint ≡ f) × (lookup x.id (index_case c s).latest_by_id ≡ some x)) e
            (
              (eq_iff c.fingerprint f).0 same,
              lookup-insert_here c.id c.id c s.latest_by_id (eq_refl c.id),
            )
      | inr other ↦
          let (named, mine) =
            p.latest f d
              (sym (lookup-insert_there c.fingerprint f c s.by_fingerprint other) ∙ found) in
          let distinct = subst (λ j. (c.fingerprint == j) ≡ false) (sym named) other in
          (named, lookup-insert_there c.id d.id c s.latest_by_id (other_id d mine distinct) ∙ mine)
    ];
  }

IsPaired-record_version :
    (again : Bool) (s : Index) (c : ReconciliationCase) (s' : Index) (new : Bool)
    → IsPaired s
    → record_version again s c ≡ ok (s', new)
    → IsPaired s'
IsPaired-record_version again s c s' new p h =
    let (free, r) = record_version-Recorded again s c s' new h in
    elim r [
      | first none_yet same ↦
          subst IsPaired (sym same)
            (IsPaired-index_case s c p free (λ old found. absurd (ground (arith, none_yet, found))))
      | repeated _ _ same ↦ subst IsPaired (sym same) p
      | next_version old found next same ↦ subst IsPaired (sym same) (
          IsPaired-index_case s c p free (λ old' found'.
            subst (λ x. x.fingerprint ≡ c.fingerprint) (some_inj (sym found ∙ found'))
              next.identity.fingerprints))
    ]

IsPaired-parse_line :
    (n : ℕ) (s : Index) (l : CaseLine) (s' : Index) (c : ReconciliationCase)
    → IsPaired s
    → parse_line n s l ≡ ok (s', c)
    → IsPaired s'
unfolding parse_line
IsPaired-parse_line n s blank_line s' c p h = cc
IsPaired-parse_line n s broken_line s' c p h = cc
IsPaired-parse_line n s (case_line d) s' c p h =
    let (valid, r1) = >>-eq-ok (at_line n (validate_case d)) _ h in
    let ((t, new), recorded, r2) = >>=-eq-ok (record_version true s d) _ r1 in
    subst IsPaired (ap (λ (x : Index × ReconciliationCase). x.0) (ok_inj r2))
      (IsPaired-record_version true s d t new p recorded)

IsPaired-parse_from :
    (n : ℕ) (s : Index) (ls : File) (s' : Index) (cs : List ReconciliationCase)
    → IsPaired s
    → parse_from n s ls ≡ ok (s', cs)
    → IsPaired s'
unfolding parse_from
IsPaired-parse_from n s [] s' cs p h =
    subst IsPaired (ap (λ (x : Index × List ReconciliationCase). x.0) (ok_inj h)) p
IsPaired-parse_from n s (l ∷ ls) s' cs p h =
    let ((t, c), first_line, r1) = >>=-eq-ok (parse_line n s l) _ h in
    let ((u, ds), rest, r2) = >>=-eq-ok (parse_from (suc n) t ls) _ r1 in
    subst IsPaired (ap (λ (x : Index × List ReconciliationCase). x.0) (ok_inj r2))
      (IsPaired-parse_from (suc n) t ls u ds (IsPaired-parse_line n s l t c p first_line) rest)

-- In every file of cases that can be read, the latest case of an identity has that identity and is
-- the case of its fingerprint, and the case of a fingerprint has that fingerprint and is the latest
-- one of its identity: no two cases share a fingerprint.
pub parse_versions-IsPaired :
    (file : File) (s : Index) (cs : List ReconciliationCase)
    → parse_versions file ≡ ok (s, cs)
    → IsPaired s
unfolding parse_versions
parse_versions-IsPaired file s cs h =
    IsPaired-parse_from 1 empty_index file s cs
      (record { owned = λ k c e. cc; latest = λ f c e. cc }) h
