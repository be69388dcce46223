-- ===== src/Sync/Checkpoints/Laws.antt =====
-- The laws of src/intent_engineering/storage/yaml/checkpoint_store.py.
use intent_engineer.Base.{
  String, Bool, true, false, not, Option, none, some, List, [], ◌∷◌, ◌==◌, ◌≡◌, refl, sym, ap,
  subst, ◌∙◌, arith, inl, inr, Bool-cases, Option-cases, all, eq_iff, eq_refl, if-true, if-false,
  if◌then◌else◌, ok, err, >>=-eq-ok, raise_if-eq-ok, ok_inj, err-ne-ok, not_inv, some_inj,
}
use intent_engineer.Base.Texts.{elem}
use intent_engineer.Base.Sorted.{sort, elem-sort}
use intent_engineer.Base.Dict.{Dict, lookup, insert, values, keys, elem-keys, lookup-insert}
use intent_engineer.Core.Graph.{Instant}
use intent_engineer.Sync.Checkpoints.{
  SyncCheckpoint, same_checkpoint?, is_checkpoint, File, empty_file, malformed_file, checkpoints,
  stale_checkpoint, load_all, add_entry, entries_at, write_all, get, checkpoint_of, compare_and_set,
}

module _ (test : SyncCheckpoint → Bool) where
  all-lookup :
      (k : String) (d : Dict SyncCheckpoint) (c : SyncCheckpoint)
      → all test (values d) ≡ true
      → lookup k d ≡ some c
      → test c ≡ true
  all-lookup k [] c h found = cc
  all-lookup k ((j, b) ∷ d) c h found = elim (Bool-cases (j == k)) [
    | inl same ↦
        subst (λ x. test x ≡ true) (some_inj (if-true _ _ _ same found)) (ground (arith, h))
    | inr other ↦ all-lookup k d c (ground (arith, h)) (if-false _ _ _ other found)
  ]

  all-insert :
      (k : String) (c : SyncCheckpoint) (d : Dict SyncCheckpoint)
      → all test (values d) ≡ true
      → test c ≡ true
      → all test (values (insert k c d)) ≡ true
  all-insert k c [] h valid = ground (arith, valid)
  all-insert k c ((j, b) ∷ d) h valid = ground (arith, h, valid, all-insert k c d)

  all-add_entry :
      (k : String) (o : Option SyncCheckpoint) (d : Dict SyncCheckpoint)
      → ((c : SyncCheckpoint) → o ≡ some c → test c ≡ true)
      → all test (values d) ≡ true
      → all test (values (add_entry k o d)) ≡ true
  all-add_entry k none d valid h = h
  all-add_entry k (some c) d valid h = ground (arith, h, valid c refl)

  all-entries_at :
      (ks : List String) (d : Dict SyncCheckpoint)
      → all test (values d) ≡ true
      → all test (values (entries_at ks d)) ≡ true
  all-entries_at [] d h = refl
  all-entries_at (k ∷ ks) d h =
      all-add_entry k (lookup k d) (entries_at ks d) (λ c found. all-lookup k d c h found)
        (all-entries_at ks d h)

none_of_none : (b : Bool) {o : Option SyncCheckpoint} → o ≡ none → (if b then o else none) ≡ none
none_of_none true h = h
none_of_none false h = refl

lookup-add_entry :
    (k j : String) (o : Option SyncCheckpoint) (d : Dict SyncCheckpoint)
    → (o ≡ none → j ≡ k → lookup k d ≡ none)
    → lookup k (add_entry j o d) ≡ (if j == k then o else lookup k d)
lookup-add_entry k j none d missing = elim (Bool-cases (j == k)) [
  | inl same ↦ missing refl ((eq_iff j k).0 same) ∙ rw same refl
  | inr other ↦ rw other refl
]
lookup-add_entry k j (some c) d missing = refl

lookup-entries_at :
    (k : String) (ks : List String) (d : Dict SyncCheckpoint)
    → lookup k (entries_at ks d) ≡ (if elem k ks then lookup k d else none)
lookup-entries_at k [] d = refl
lookup-entries_at k (j ∷ ks) d =
    let there = lookup-entries_at k ks d in
    lookup-add_entry k j (lookup j d) (entries_at ks d)
      (λ missing same. there ∙ none_of_none (elem k ks) (ap (λ i. lookup i d) (sym same) ∙ missing))
    ∙ elim (Bool-cases (j == k)) [
      | inl same ↦ rw same (ap (λ i. lookup i d) ((eq_iff j k).0 same))
      | inr other ↦ rw other there
    ]

loaded-valid :
    (f : File) (d : Dict SyncCheckpoint) → load_all f ≡ ok d → all is_checkpoint (values d) ≡ true
unfolding load_all
loaded-valid empty_file d h = ap (λ x. all is_checkpoint (values x)) (sym (ok_inj h))
loaded-valid malformed_file d h = absurd (err-ne-ok h)
loaded-valid (checkpoints d') d h = elim (Bool-cases (all is_checkpoint (values d'))) [
  | inl valid ↦
      ap (λ x. all is_checkpoint (values x)) (sym (ok_inj (if-true _ _ _ valid h))) ∙ valid
  | inr other ↦ absurd (err-ne-ok (if-false _ _ _ other h))
]

-- What is written is read back.
load-write_all :
    (k : String) (d : Dict SyncCheckpoint)
    → all is_checkpoint (values d) ≡ true
    → get k (write_all d) ≡ ok (lookup k d)
unfolding get load_all write_all
load-write_all k d h = rw (all-entries_at is_checkpoint (sort (keys d)) d h) (
    ap ok (
      lookup-entries_at k (sort (keys d)) d
      ∙ rw (elem-sort k (keys d), elem-keys k d)
          (elim (Option-cases (lookup k d)) [
            | inl missing ↦ ground (arith, missing)
            | inr (c, found) ↦ ground (arith, found)
          ])))

module _ (connector : String) (expected : Option SyncCheckpoint) (cursor : Option String)
    (at : Instant) (consumed : List String) (file : File) (c : SyncCheckpoint) (file' : File) where
  -- The expected checkpoint was there, the new one is, no other connector's changed, and the store
  -- refuses everyone who does not expect the new one.
  pub record IsExchange : Type 0 where
    pub made : c ≡ checkpoint_of connector cursor at consumed
    pub valid : is_checkpoint c ≡ true
    pub expected_one :
        (old : Option SyncCheckpoint) × (get connector file ≡ ok old)
        × (same_checkpoint? old expected ≡ true)
    pub stored : get connector file' ≡ ok (some c)
    pub others : (k : String) → (connector == k) ≡ false → get k file' ≡ get k file
    pub closed :
        (stale : Option SyncCheckpoint) (cursor' : Option String) (at' : Instant)
        (consumed' : List String)
        → same_checkpoint? (some c) stale ≡ false
        → compare_and_set connector stale cursor' at' consumed' file'
          ≡ err (stale_checkpoint connector)

  get_of :
      (k : String) (f : File) (d : Dict SyncCheckpoint)
      → load_all f ≡ ok d
      → get k f ≡ ok (lookup k d)
  unfolding get
  get_of k f d h = rw h refl

  -- Who expects another checkpoint than the stored one is refused.
  refuses :
      (k : String) (f : File) (now stale : Option SyncCheckpoint) (cursor' : Option String)
      (at' : Instant) (consumed' : List String)
      → get k f ≡ ok now
      → same_checkpoint? now stale ≡ false
      → compare_and_set k stale cursor' at' consumed' f ≡ err (stale_checkpoint k)
  unfolding get compare_and_set
  refuses k f now stale cursor' at' consumed' h other =
      let (d, loaded, same) = >>=-eq-ok (load_all f) _ h in
      let differs : same_checkpoint? (lookup k d) stale ≡ false =
        ap (λ o. same_checkpoint? o stale) (ok_inj same) ∙ other in
      rw (loaded, differs) refl

  -- A call of `compare_and_set` that returns has exchanged the expected checkpoint for the new one:
  -- `get` gives the new one, the checkpoints of other connectors are what they were, and a call that
  -- expects another one than the new one is refused as stale.
  pub compare_and_set-IsExchange :
      compare_and_set connector expected cursor at consumed file ≡ ok (c, file') → IsExchange
  unfolding compare_and_set
  compare_and_set-IsExchange h =
      let (d, loaded, h1) = >>=-eq-ok (load_all file) _ h in
      let same? = same_checkpoint? (lookup connector d) expected in
      let (held, h2) = raise_if-eq-ok (not same?) _ _ h1 in
      let new = checkpoint_of connector cursor at consumed in
      let (checked, h3) = raise_if-eq-ok (not (is_checkpoint new)) _ _ h2 in
      let valid : is_checkpoint new ≡ true = not_inv (is_checkpoint new) checked in
      let same = ok_inj h3 in
      let made = sym (ap (λ (p : SyncCheckpoint × File). p.0) same) in
      let written = sym (ap (λ (p : SyncCheckpoint × File). p.1) same) in
      let next = insert connector new d in
      let read = λ (k : String).
        ap (get k) written
        ∙ load-write_all k next
            (all-insert is_checkpoint connector new d (loaded-valid file d loaded) valid)
        ∙ ap ok (lookup-insert connector k new d) in
      let stored = read connector ∙ rw (eq_refl connector) (ap (λ x. ok (some x)) (sym made)) in
      record {
        made = made;
        valid = ap is_checkpoint made ∙ valid;
        expected_one = (lookup connector d, get_of connector file d loaded, not_inv same? held);
        stored = stored;
        others = λ k other. read k ∙ rw other (sym (get_of k file d loaded));
        closed = λ stale cursor' at' consumed' differs.
            refuses connector file' (some c) stale cursor' at' consumed' stored differs;
      }
