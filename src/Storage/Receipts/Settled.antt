-- ===== src/Storage/Receipts/Settled.antt =====
-- What every readable file of claims and receipts satisfies:
-- src/intent_engineering/storage/jsonl/receipt_store.py.
use intent_engineer.Base.{
  Bool, true, false, ◌+◌, ◌≤◌, none, some, [], ◌∷◌, ◌++◌, ◌≡◌, ◌⊎◌, refl, sym, ap, subst, ◌∙◌,
  arith, inl, inr, Bool-cases, Option-cases, is_some, if-true, if-false, some_inj, none-ne-some,
}
use intent_engineer.Base.Dict.Pairs.{
  Key, same_key, same_key-eq, lookup_pair, lookup_pair-insert_pair, insert_pair, PairDict,
}
use intent_engineer.Mutations.Models.{ExecutionReceipt, Digests}
use intent_engineer.Storage.Receipts.{
  Claim, Line, broken_line, claim_line, receipt_line, File, Index, empty_index, claim_key,
  receipt_key, decode_line, decode_from, decode_content,
}
use intent_engineer.Storage.Receipts.Decoding.{
  one_if, count_claims, count_receipts, decode_claim_inv, decode_receipt-IsCompletion,
}

count-insert_pair :
    {V : Type 0} (k key : Key) (v : V) (d : PairDict V)
    → lookup_pair k d ≡ none
    → one_if (same_key k key) + one_if (is_some (lookup_pair key d))
      ≡ one_if (is_some (lookup_pair key (insert_pair k v d)))
count-insert_pair k key v d new =
    rw (lookup_pair-insert_pair k key v d) (elim (Bool-cases (same_key k key)) [
      | inl same ↦
          let none_here : lookup_pair key d ≡ none =
            subst (λ j. lookup_pair j d ≡ none) (same_key-eq k key same) new in
          rw (same, none_here) refl
      | inr differs ↦ rw differs (omega arith)
    ])

count_claims-cons :
    (key : Key) (l : Line) (ls : File)
    → count_claims key (l ∷ ls) ≡ count_claims key (l ∷ []) + count_claims key ls
count_claims-cons key broken_line ls = omega arith
count_claims-cons key (claim_line c) ls = omega arith
count_claims-cons key (receipt_line r) ls = omega arith

count_receipts-cons :
    (key : Key) (l : Line) (ls : File)
    → count_receipts key (l ∷ ls) ≡ count_receipts key (l ∷ []) + count_receipts key ls
count_receipts-cons key broken_line ls = omega arith
count_receipts-cons key (claim_line c) ls = omega arith
count_receipts-cons key (receipt_line r) ls = omega arith

pub count_claims-append :
    (key : Key) (f : File) (l : Line)
    → count_claims key (f ++ l ∷ []) ≡ count_claims key f + count_claims key (l ∷ [])
count_claims-append key [] l = omega arith
count_claims-append key (m ∷ f) l = omega (
  arith,
  count_claims-cons key m (f ++ l ∷ []),
  count_claims-cons key m f,
  count_claims-append key f l,
)

-- The index has one claim and one receipt at most for a key, and each receipt has its claim.
pub record IsSettled (s : Index) : Type 0 where
  pub own_key :
      (key : Key) (r : ExecutionReceipt) → lookup_pair key s.receipts ≡ some r → receipt_key r ≡ key
  pub claimed :
      (key : Key) (r : ExecutionReceipt)
      → lookup_pair key s.receipts ≡ some r
      → (c : Claim) × (lookup_pair key s.claims ≡ some c) × (c.actor ≡ r.executed_by)

lookup_pair_kept :
    {V : Type 0} (k key : Key) (v w : V) (d : PairDict V)
    → lookup_pair k d ≡ none
    → lookup_pair key d ≡ some w
    → lookup_pair key (insert_pair k v d) ≡ some w
lookup_pair_kept k key v w d new found =
    lookup_pair-insert_pair k key v d ∙ elim (Bool-cases (same_key k key)) [
      | inl same ↦ absurd (
          none-ne-some
            (sym (subst (λ j. lookup_pair j d ≡ none) (same_key-eq k key same) new) ∙ found))
      | inr differs ↦ rw differs found
    ]

IsSettled-add_claim :
    (s : Index) (c : Claim)
    → lookup_pair (claim_key c) s.claims ≡ none
    → IsSettled s
    → IsSettled (record s { claims = insert_pair (claim_key c) c s.claims })
IsSettled-add_claim s c new p = record {
  own_key = p.own_key;
  claimed = λ key r found.
      let (old, there, executor) = p.claimed key r found in
      (old, lookup_pair_kept (claim_key c) key c old s.claims new there, executor);
}

-- What is found after a receipt was added: the new one, or one that was there.
found_after :
    (k key : Key) (v w : ExecutionReceipt) (d : PairDict ExecutionReceipt)
    → lookup_pair key (insert_pair k v d) ≡ some w
    → ((k ≡ key) × (v ≡ w)) ⊎ (lookup_pair key d ≡ some w)
found_after k key v w d found = elim (Bool-cases (same_key k key)) [
  | inl same ↦ inl (
    same_key-eq k key same,
    some_inj (if-true _ _ _ same (sym (lookup_pair-insert_pair k key v d) ∙ found)),
  )
  | inr differs ↦ inr (if-false _ _ _ differs (sym (lookup_pair-insert_pair k key v d) ∙ found))
]

IsSettled-add_receipt :
    (s : Index) (r : ExecutionReceipt) (c : Claim)
    → lookup_pair (receipt_key r) s.claims ≡ some c
    → c.actor ≡ r.executed_by
    → IsSettled s
    → IsSettled (record s { receipts = insert_pair (receipt_key r) r s.receipts })
IsSettled-add_receipt s r c there executor p = record {
  own_key = λ key w found. elim (found_after (receipt_key r) key r w s.receipts found) [
    | inl (here, same) ↦ ap receipt_key (sym same) ∙ here
    | inr old ↦ p.own_key key w old
  ];
  claimed = λ key w found. elim (found_after (receipt_key r) key r w s.receipts found) [
    | inl (here, same) ↦ (
      c,
      subst (λ j. lookup_pair j s.claims ≡ some c) here there,
      executor ∙ ap (λ (w : ExecutionReceipt). w.executed_by) same,
    )
    | inr old ↦ p.claimed key w old
  ];
}

one_if-le : (b : Bool) → one_if b ≤ 1
one_if-le true = omega arith
one_if-le false = omega arith

receipts-le_claims :
    {t : Index}
    → IsSettled t
    → (key : Key)
    → one_if (is_some (lookup_pair key t.receipts)) ≤ one_if (is_some (lookup_pair key t.claims))
receipts-le_claims {t} p key = elim (Option-cases (lookup_pair key t.receipts)) [
  | inl none_there ↦ rw none_there (omega arith)
  | inr (r, found) ↦
      let (c, there, executor) = p.claimed key r found in rw (found, there) (omega arith)
]

module _ (digests : Digests) where
  count_claims-decode_line :
      (key : Key) (s t : Index) (l : Line)
      → decode_line digests s l ≡ some t
      → count_claims key (l ∷ []) + one_if (is_some (lookup_pair key s.claims))
        ≡ one_if (is_some (lookup_pair key t.claims))
  unfolding decode_line
  count_claims-decode_line key s t broken_line h = absurd (none-ne-some h)
  count_claims-decode_line key s t (claim_line c) h =
      let (valid, new, made) = decode_claim_inv s t c h in
      rw made (omega (arith, count-insert_pair (claim_key c) key c s.claims new))
  count_claims-decode_line key s t (receipt_line r) h =
      rw (decode_receipt-IsCompletion digests s t r h).made (omega arith)

  count_receipts-decode_line :
      (key : Key) (s t : Index) (l : Line)
      → decode_line digests s l ≡ some t
      → count_receipts key (l ∷ []) + one_if (is_some (lookup_pair key s.receipts))
        ≡ one_if (is_some (lookup_pair key t.receipts))
  unfolding decode_line
  count_receipts-decode_line key s t broken_line h = absurd (none-ne-some h)
  count_receipts-decode_line key s t (claim_line c) h =
      rw (decode_claim_inv s t c h).2 (omega arith)
  count_receipts-decode_line key s t (receipt_line r) h =
      let done = decode_receipt-IsCompletion digests s t r h in
      rw done.made (omega (arith, count-insert_pair (receipt_key r) key r s.receipts done.first))

  IsSettled-decode_line :
      (s t : Index) (l : Line) → decode_line digests s l ≡ some t → IsSettled s → IsSettled t
  unfolding decode_line
  IsSettled-decode_line s t broken_line h p = absurd (none-ne-some h)
  IsSettled-decode_line s t (claim_line c) h p =
      let (valid, new, made) = decode_claim_inv s t c h in
      subst IsSettled (sym made) (IsSettled-add_claim s c new p)
  IsSettled-decode_line s t (receipt_line r) h p =
      let done = decode_receipt-IsCompletion digests s t r h in
      subst IsSettled (sym done.made)
        (IsSettled-add_receipt s r done.claimed done.found done.by_executor p)

  decode_from_inv :
      (s t : Index) (l : Line) (f : File)
      → decode_from digests s (l ∷ f) ≡ some t
      → (u : Index) × (decode_line digests s l ≡ some u) × (decode_from digests u f ≡ some t)
  unfolding decode_from
  decode_from_inv s t l f h = elim (Option-cases (decode_line digests s l)) [
    | inl broken ↦ absurd (ground (arith, h, broken))
    | inr (u, made) ↦ (u, made, ground (arith, h, made))
  ]

  count-decode_from :
      (key : Key) (f : File) (s t : Index)
      → decode_from digests s f ≡ some t
      → (count_claims key f + one_if (is_some (lookup_pair key s.claims))
          ≡ one_if (is_some (lookup_pair key t.claims)))
        × (count_receipts key f + one_if (is_some (lookup_pair key s.receipts))
            ≡ one_if (is_some (lookup_pair key t.receipts)))
  unfolding decode_from
  count-decode_from key [] s t h = (rw (some_inj h) (omega arith), rw (some_inj h) (omega arith))
  count-decode_from key (l ∷ f) s t h =
      let (u, made, rest) = decode_from_inv s t l f h in
      let (claims, receipts) = count-decode_from key f u t rest in
      (
        omega (arith, count_claims-cons key l f, count_claims-decode_line key s u l made, claims),
        omega (
          arith,
          count_receipts-cons key l f,
          count_receipts-decode_line key s u l made,
          receipts,
        ),
      )

  IsSettled-decode_from :
      (f : File) (s t : Index) → decode_from digests s f ≡ some t → IsSettled s → IsSettled t
  unfolding decode_from
  IsSettled-decode_from [] s t h p = subst IsSettled (some_inj h) p
  IsSettled-decode_from (l ∷ f) s t h p =
      let (u, made, rest) = decode_from_inv s t l f h in
      IsSettled-decode_from f u t rest (IsSettled-decode_line s u l made p)

  pub counts_of_decode :
      (key : Key) (f : File) (t : Index)
      → decode_content digests f ≡ some t
      → (count_claims key f ≡ one_if (is_some (lookup_pair key t.claims)))
        × (count_receipts key f ≡ one_if (is_some (lookup_pair key t.receipts)))
  unfolding decode_content
  counts_of_decode key f t h =
      let (claims, receipts) = count-decode_from key f empty_index t h in
      (omega (arith, claims), omega (arith, receipts))

  pub decode_content-IsSettled :
      (f : File) (t : Index) → decode_content digests f ≡ some t → IsSettled t
  unfolding decode_content
  decode_content-IsSettled f t h =
      IsSettled-decode_from f empty_index t h
        (record { own_key = λ key r found. cc; claimed = λ key r found. cc })

  -- In a file that can be read every key is claimed by one line at most and completed by no more
  -- lines than claim it, and the receipt found for a key is one of that key whose executor has the
  -- claim.
  pub decode_content-IsOnce :
      (f : File) (t : Index) (key : Key)
      → decode_content digests f ≡ some t
      → (count_claims key f ≤ 1)
        × (count_receipts key f ≤ count_claims key f)
        × ((r : ExecutionReceipt)
            → lookup_pair key t.receipts ≡ some r
            → (receipt_key r ≡ key)
              × ((c : Claim) × (lookup_pair key t.claims ≡ some c) × (c.actor ≡ r.executed_by)))
  decode_content-IsOnce f t key h =
      let (claims, receipts) = counts_of_decode key f t h in
      let settled = decode_content-IsSettled f t h in
      (
        omega (arith, claims, one_if-le (is_some (lookup_pair key t.claims))),
        omega (arith, claims, receipts, receipts-le_claims settled key),
        λ r found. (settled.own_key key r found, settled.claimed key r found),
      )
