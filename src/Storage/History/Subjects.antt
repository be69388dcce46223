-- ===== src/Storage/History/Subjects.antt =====
-- The index of src/intent_engineering/storage/jsonl/history_store.py finds what a search of the whole
-- file would.
use intent_engineer.Base.{
  ℕ, suc, String, List, [], ◌∷◌, ◌++◌, ◌==◌, ◌≡◌, refl, sym, ap, ◌∙◌, arith, inl, inr, Bool-cases,
  if◌then◌else◌, keep_if, ok, >>-eq-ok, >>=-eq-ok, ok_inj, eq_iff,
}
use mathlib.Core.List.{append_assoc, append-nil}
use intent_engineer.Base.Texts.{elem, dedup, elem-dedup, Distinct, Distinct-dedup}
use intent_engineer.Base.Dict.{insert, lookup-insert}
use intent_engineer.Core.ChangeSet.{ChangeSet, validate_changeset}
use intent_engineer.Storage.History.{
  subjects, BySubject, entries, index_under, index, HistoryLine, blank_line, broken_line,
  changeset_line, at_line, rebuild_from, rebuild_index, history,
}

-- The ChangeSets of a file, in their order.
abbrev pub changesets : List HistoryLine → List ChangeSet
changesets [] = []
changesets (blank_line ∷ ls) = changesets ls
changesets (broken_line ∷ ls) = changesets ls
changesets (changeset_line c ∷ ls) = c ∷ changesets ls

entries-insert :
    (j k : String) (cs : List ChangeSet) (d : BySubject)
    → entries k (insert j cs d) ≡ (if j == k then cs else entries k d)
entries-insert j k cs d = ground (arith, lookup-insert j k cs d)

entries-index_under :
    (c : ChangeSet) (k : String) (ks : List String) (d : BySubject)
    → Distinct ks
    → entries k (index_under c ks d) ≡ (if elem k ks then entries k d ++ c ∷ [] else entries k d)
unfolding index_under
entries-index_under c k [] d h = refl
entries-index_under c k (j ∷ ks) d h =
    let new = entries j d ++ c ∷ [] in
    entries-index_under c k ks (insert j new d) h.1 ∙ elim (Bool-cases (j == k)) [
      | inl same ↦ ground (
        arith,
        same,
        h.0,
        entries-insert j k new d,
        ap (λ i. elem i ks) ((eq_iff j k).0 same),
        ap (λ i. entries i d ++ c ∷ []) ((eq_iff j k).0 same),
      )
      | inr other ↦ ground (arith, other, entries-insert j k new d)
    ]

entries-index :
    (c : ChangeSet) (k : String) (d : BySubject)
    → entries k (index c d) ≡ (if elem k (subjects c) then entries k d ++ c ∷ [] else entries k d)
unfolding index
entries-index c k d =
    entries-index_under c k (dedup (subjects c)) d (Distinct-dedup (subjects c))
    ∙ ap (λ b. if b then entries k d ++ c ∷ [] else entries k d) (elem-dedup k (subjects c))

entries-rebuild_from :
    (n : ℕ) (k : String) (d d' : BySubject) (ls : List HistoryLine)
    → rebuild_from n d ls ≡ ok d'
    → entries k d' ≡ entries k d ++ keep_if (λ c. elem k (subjects c)) (changesets ls)
unfolding rebuild_from
entries-rebuild_from n k d d' [] h = sym (append-nil (entries k d) ∙ ap (entries k) (ok_inj h))
entries-rebuild_from n k d d' (blank_line ∷ ls) h = entries-rebuild_from (suc n) k d d' ls h
entries-rebuild_from n k d d' (broken_line ∷ ls) h = cc
entries-rebuild_from n k d d' (changeset_line c ∷ ls) h =
    let rest = keep_if (λ x. elem k (subjects x)) (changesets ls) in
    let (valid, more) = >>-eq-ok (at_line n (validate_changeset c)) _ h in
    entries-rebuild_from (suc n) k (index c d) d' ls more
    ∙ (ap (λ es. es ++ rest) (entries-index c k d) ∙ elim (Bool-cases (elem k (subjects c))) [
      | inl named ↦ rw (named) (append_assoc (entries k d) (c ∷ []) rest)
      | inr other ↦ rw (other) refl
    ])

-- In a file that can be read, `history` returns exactly the ChangeSets that name the subject in one
-- of their groups, each once and in the order of the file.
pub history-eq :
    (k : String) (file : List HistoryLine) (found : List ChangeSet)
    → history k file ≡ ok found
    → found ≡ keep_if (λ c. elem k (subjects c)) (changesets file)
unfolding history rebuild_index
history-eq k file found h =
    let (d, built, same) = >>=-eq-ok (rebuild_from 1 [] file) _ h in
    sym (ok_inj same) ∙ entries-rebuild_from 1 k [] d file built
