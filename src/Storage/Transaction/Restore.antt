-- ===== src/Storage/Transaction/Restore.antt =====
-- What `_restore` of src/intent_engineering/storage/transaction.py does to the files.
use intent_engineer.Base.{
  String, true, false, none, some, List, [], ◌∷◌, ◌==◌, ◌≡◌, refl, sym, ap, ◌∙◌, arith, inl, inr,
  Bool-cases, if◌then◌else◌, All, eq_iff,
}
use intent_engineer.Base.Texts.{elem}
use intent_engineer.Base.Dict.{lookup, insert, lookup-insert}
use intent_engineer.Storage.Transaction.{
  Files, Preimage, unlink, snapshot_of, restore_one, restore, restore_images, names_of,
}

-- The same files under every name.
abbrev pub SameFiles : Files → Files → Type 0
SameFiles f g = (k : String) → lookup k f ≡ lookup k g

-- The same files under every name but those listed.
abbrev pub SameOutside : List String → Files → Files → Type 0
SameOutside names f g = (k : String) → elem k names ≡ false → lookup k f ≡ lookup k g

lookup-unlink :
    (j k : String) (f : Files) → lookup k (unlink j f) ≡ (if j == k then none else lookup k f)
lookup-unlink j k [] = ground arith
lookup-unlink j k ((i, b) ∷ f) =
    ground (arith, lookup-unlink j k f, eq_iff i j, eq_iff i k, eq_iff j k)

lookup-restore_one :
    (p : Preimage) (k : String) (f : Files)
    → lookup k (restore_one p f) ≡ (if p.target == k then p.content else lookup k f)
unfolding restore_one
lookup-restore_one p k f =
    elim p.content
      as (λ x.
        lookup k (elim x [ none ↦ unlink p.target f | some b ↦ insert p.target b f ])
        ≡ (if p.target == k then x else lookup k f)) [
          | none ↦ lookup-unlink p.target k f
          | some b ↦ lookup-insert p.target k b f
        ]

pub restore_same :
    (ps : List Preimage) (f g : Files)
    → SameOutside (names_of ps) f g
    → SameFiles (restore ps f) (restore ps g)
unfolding restore
restore_same [] f g h = λ k. h k refl
restore_same (p ∷ ps) f g h = restore_same ps (restore_one p f) (restore_one p g) (λ k out.
    lookup-restore_one p k f
    ∙ (elim (Bool-cases (p.target == k)) [
      | inl same ↦ ground (arith, same)
      | inr other ↦ ground (arith, other, h k (ground (arith, other, out)))
    ]
        ∙ sym (lookup-restore_one p k g)))

pub restore-snapshot_of :
    (ks : List String) (f g : Files) → SameFiles g f → SameFiles (restore (snapshot_of ks f) g) f
unfolding restore snapshot_of
restore-snapshot_of [] f g h = h
restore-snapshot_of (i ∷ ks) f g h =
    restore-snapshot_of ks f (restore_one (record { target = i; content = lookup i f }) g) (λ k.
      lookup-restore_one (record { target = i; content = lookup i f }) k g
      ∙ elim (Bool-cases (i == k)) [
        | inl same ↦ ground (arith, same, ap (λ j. lookup j f) ((eq_iff i k).0 same))
        | inr other ↦ ground (arith, other, h k)
      ])

pub names_of-snapshot_of : (ks : List String) (f : Files) → names_of (snapshot_of ks f) ≡ ks
unfolding snapshot_of
names_of-snapshot_of [] f = refl
names_of-snapshot_of (k ∷ ks) f = ap (◌∷◌ k) (names_of-snapshot_of ks f)

-- Restoring changes the restored name only.
restore_one-SameOutside :
    (names : List String) (p : Preimage) (start f : Files)
    → elem p.target names ≡ true
    → SameOutside names start f
    → SameOutside names start (restore_one p f)
restore_one-SameOutside names p start f inside h k out =
    h k out
    ∙ sym (
        lookup-restore_one p k f ∙ elim (Bool-cases (p.target == k)) [
          | inl same ↦
              absurd
                (ground (arith, out, inside, ap (λ j. elem j names) ((eq_iff p.target k).0 same)))
          | inr other ↦ ground (arith, other)
        ])

-- Every state on the way of a restoration differs from its start in the restored names only.
pub restore_images-SameOutside :
    (names : List String) (ps : List Preimage) (start f : Files)
    → All (λ j. elem j names ≡ true) (names_of ps)
    → SameOutside names start f
    → All (SameOutside names start) (restore_images ps f)
unfolding restore_images
restore_images-SameOutside names [] start f inside h = tt
restore_images-SameOutside names (p ∷ ps) start f (here, inside) h =
    let first = restore_one-SameOutside names p start f here h in
    (first, restore_images-SameOutside names ps start (restore_one p f) inside first)
