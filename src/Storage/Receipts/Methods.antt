-- ===== src/Storage/Receipts/Methods.antt =====
-- The methods of `JsonlReceiptStore` of src/intent_engineering/storage/jsonl/receipt_store.py.
use intent_engineer.Base.{
  String, Bool, true, false, not, Option, none, some, List, [], ◌∷◌, ◌++◌, ◌==◌, ◌≡◌, ◌⊎◌, refl,
  sym, ap, ◌∙◌, arith, inl, inr, Bool-cases, Option-cases, is_some, eq_iff, ok, ok_inj, >>=-eq-ok,
  raise_if-eq-ok, err-ne-ok, if-true, if-false, not_inv, chain_some, chain-chain, and_inv, eqb,
  eqb→eq,
}
use intent_engineer.Base.Dict.Pairs.{
  Key, same_key_refl, lookup_pair, lookup_pair-insert_pair, insert_pair,
}
use intent_engineer.Mutations.Models.{
  ExecutionReceipt, ReceiptStatus, RedactedError, Digests, is_receipt,
}
use intent_engineer.Storage.EvidenceLog.Ledger.{same_text?-eq}
use intent_engineer.Storage.Receipts.{
  Claim, is_claim, Line, claim_line, receipt_line, File, Index, empty_index, claim_key, receipt_key,
  decode_receipt, decode_line, decode_from, decode_content, rebuild, ReceiptStoreError, claim,
  complete, get_for, same_receipt, same_status, same_error?, validate_receipt_completion,
  completion_lines, claimed_by, written,
}
use intent_engineer.Storage.EvidenceLog.{same_text?}
use intent_engineer.Storage.Receipts.Decoding.{count_claims, one_if}
use intent_engineer.Storage.Receipts.Settled.{count_claims-append, counts_of_decode}

same_status-eq : (a b : ReceiptStatus) → same_status a b ≡ true → a ≡ b
same_status-eq a b h = ground arith

same_error?-eq : (a b : Option RedactedError) → same_error? a b ≡ true → a ≡ b
same_error?-eq a b h = ground arith

same_receipt-eq : (a b : ExecutionReceipt) → same_receipt a b ≡ true → a ≡ b
unfolding same_receipt
same_receipt-eq a b h =
    let (t0, h0) = and_inv (a.id == b.id) _ h in
    let (t1, h1) = and_inv (a.plan_id == b.plan_id) _ h0 in
    let (t2, h2) = and_inv (a.plan_hash == b.plan_hash) _ h1 in
    let (t3, h3) = and_inv (a.approval_id == b.approval_id) _ h2 in
    let (t4, h4) = and_inv (a.target_version == b.target_version) _ h3 in
    let (t5, h5) = and_inv (a.executed_by == b.executed_by) _ h4 in
    let (t6, h6) = and_inv (same_status a.status b.status) _ h5 in
    let (t7, h7) = and_inv (eqb a.attempted_at b.attempted_at) _ h6 in
    let (t8, h8) = and_inv (eqb a.completed_at b.completed_at) _ h7 in
    let (t9, h9) = and_inv (same_text? a.resulting_version b.resulting_version) _ h8 in
    let (t10, h10) = and_inv (same_text? a.evidence_ref b.evidence_ref) _ h9 in
    let e0 = (eq_iff a.id b.id).0 t0 in
    let e1 = (eq_iff a.plan_id b.plan_id).0 t1 in
    let e2 = (eq_iff a.plan_hash b.plan_hash).0 t2 in
    let e3 = (eq_iff a.approval_id b.approval_id).0 t3 in
    let e4 = (eq_iff a.target_version b.target_version).0 t4 in
    let e5 = (eq_iff a.executed_by b.executed_by).0 t5 in
    let e6 = same_status-eq a.status b.status t6 in
    let e7 = eqb→eq a.attempted_at b.attempted_at t7 in
    let e8 = eqb→eq a.completed_at b.completed_at t8 in
    let e9 = same_text?-eq a.resulting_version b.resulting_version t9 in
    let e10 = same_text?-eq a.evidence_ref b.evidence_ref t10 in
    let e11 = same_error?-eq a.redacted_error b.redacted_error h10 in
    λ i. record {
      id = e0 i;
      plan_id = e1 i;
      plan_hash = e2 i;
      approval_id = e3 i;
      target_version = e4 i;
      executed_by = e5 i;
      status = e6 i;
      attempted_at = e7 i;
      completed_at = e8 i;
      resulting_version = e9 i;
      evidence_ref = e10 i;
      redacted_error = e11 i;
    }

claimed_by_inv :
    (o : Option Claim) (actor : String)
    → claimed_by o actor ≡ true
    → (c : Claim) × (o ≡ some c) × ((c.actor == actor) ≡ true)
claimed_by_inv none actor h = cc
claimed_by_inv (some c) actor h = (c, refl, h)

-- What stands of a receipt, and what is to be written.
completion_lines-ok :
    (r : ExecutionReceipt) (o : Option ExecutionReceipt) (file file' : File) (new : Bool)
    (lines : List Line)
    → completion_lines r o ≡ ok lines
    → written file lines ≡ (new, file')
    → ((o ≡ none) × (new ≡ true) × (file' ≡ file ++ receipt_line r ∷ []))
      ⊎ ((o ≡ some r) × (new ≡ false) × (file' ≡ file))
unfolding completion_lines
completion_lines-ok r none file file' new lines h w =
    let same : receipt_line r ∷ [] ≡ lines = ok_inj h in
    let whole = ap (written file) same ∙ w in
    inl (refl, sym (ap (λ (p : Bool × File). p.0) whole), sym (ap (λ (p : Bool × File). p.1) whole))
completion_lines-ok r (some e) file file' new lines h w = elim (Bool-cases (same_receipt e r)) [
  | inl same ↦
      let none_to_write : [] ≡ lines = ok_inj (if-true _ _ _ same h) in
      let whole = ap (written file) none_to_write ∙ w in
      inr (
        ap some (same_receipt-eq e r same),
        sym (ap (λ (p : Bool × File). p.0) whole),
        sym (ap (λ (p : Bool × File). p.1) whole),
      )
  | inr differs ↦ absurd (err-ne-ok (if-false _ _ _ differs h))
]

module _ (digests : Digests) where
  rebuild_inv :
      (file : File) (s : Index) → rebuild digests file ≡ ok s → decode_content digests file ≡ some s
  unfolding rebuild
  rebuild_inv file s h = elim (Option-cases (decode_content digests file)) [
    | inl broken ↦ absurd (ground (arith, h, broken))
    | inr (t, read) ↦ read ∙ ap some (ok_inj {E = ReceiptStoreError} (ground (arith, h, read)))
  ]

  -- A claim succeeds on a file that has none for its key, and adds the line.
  pub claim-ok :
      (c : Claim) (file file' : File) (won : Bool)
      → claim digests c file ≡ ok (won, file')
      → ((won ≡ true) × (file' ≡ file ++ claim_line c ∷ []) × (count_claims (claim_key c) file ≡ 0))
        ⊎ ((won ≡ false) × (file' ≡ file) × (count_claims (claim_key c) file ≡ 1))
  unfolding claim
  claim-ok c file file' won h =
      let (valid, h1) = raise_if-eq-ok (not (is_claim c)) _ _ h in
      let (s, read, h2) = >>=-eq-ok (rebuild digests file) _ h1 in
      let (counted, done) =
        counts_of_decode digests (claim_key c) file s (rebuild_inv file s read) in
      elim (Bool-cases (is_some (lookup_pair (claim_key c) s.claims))) [
        | inl taken ↦
            let same = ok_inj (if-true _ _ _ taken h2) in
            inr (
              sym (ap (λ (p : Bool × File). p.0) same),
              sym (ap (λ (p : Bool × File). p.1) same),
              counted ∙ ap one_if taken,
            )
        | inr free ↦
            let same = ok_inj (if-false _ _ _ free h2) in
            inl (
              sym (ap (λ (p : Bool × File). p.0) same),
              sym (ap (λ (p : Bool × File). p.1) same),
              counted ∙ ap one_if free,
            )
      ]

  decode_from-append :
      (s : Index) (file : File) (l : Line)
      → decode_from digests s (file ++ l ∷ [])
        ≡ (elim (decode_from digests s file) [ none ↦ none | some t ↦ decode_line digests t l ])
  unfolding decode_from
  decode_from-append s [] l = chain_some (decode_line digests s l)
  decode_from-append s (m ∷ file) l =
      chain-chain (decode_line digests s m) (λ t. decode_from digests t (file ++ l ∷ []))
        (λ t. decode_from digests t file) (λ t. decode_line digests t l)
        (λ t. decode_from-append t file l)

  -- The file with the new line is read as the index with the new receipt.
  decode-of_complete :
      (r : ExecutionReceipt) (file : File) (s : Index)
      → decode_content digests file ≡ some s
      → is_receipt digests r ≡ true
      → claimed_by (lookup_pair (receipt_key r) s.claims) r.executed_by ≡ true
      → lookup_pair (receipt_key r) s.receipts ≡ none
      → decode_content digests (file ++ receipt_line r ∷ [])
        ≡ some (record s { receipts = insert_pair (receipt_key r) r s.receipts })
  unfolding decode_content decode_line decode_receipt
  decode-of_complete r file s read valid executor first =
      decode_from-append empty_index file (receipt_line r)
      ∙ (let (c, found, same) =
            claimed_by_inv (lookup_pair (receipt_key r) s.claims) r.executed_by executor in
          rw (read, valid, found, first, same) refl)

  complete_inv :
      (r : ExecutionReceipt) (file file' : File) (new : Bool)
      → complete digests r file ≡ ok (new, file')
      → (s : Index) × (decode_content digests file ≡ some s)
        × (is_receipt digests r ≡ true)
        × (claimed_by (lookup_pair (receipt_key r) s.claims) r.executed_by ≡ true)
        × (((lookup_pair (receipt_key r) s.receipts ≡ none)
              × (new ≡ true)
              × (file' ≡ file ++ receipt_line r ∷ []))
            ⊎ ((lookup_pair (receipt_key r) s.receipts ≡ some r) × (new ≡ false) × (file' ≡ file)))
  unfolding complete validate_receipt_completion
  complete_inv r file file' new h =
      let (s0, read0, h1) = >>=-eq-ok (rebuild digests file) _ h in
      let (lines, to_write, h2) = >>=-eq-ok (validate_receipt_completion digests file r) _ h1 in
      let (valid, h3) = raise_if-eq-ok (not (is_receipt digests r)) _ _ to_write in
      let (s, read, h4) = >>=-eq-ok (rebuild digests file) _ h3 in
      let (executor, h5) =
        raise_if-eq-ok (not (claimed_by (lookup_pair (receipt_key r) s.claims) r.executed_by)) _ _
          h4 in
      (
        s,
        rebuild_inv file s read,
        not_inv _ valid,
        not_inv _ executor,
        completion_lines-ok r (lookup_pair (receipt_key r) s.receipts) file file' new lines h5
            (ok_inj h2),
      )

  rebuild_of_decode :
      (file : File) (s : Index) → decode_content digests file ≡ some s → rebuild digests file ≡ ok s
  unfolding rebuild
  rebuild_of_decode file s read = rw (rebuild, read) refl

  -- After complete has returned, whether the receipt was new or not, get_for gives that receipt.
  pub complete-get_for :
      (r : ExecutionReceipt) (file file' : File) (new : Bool)
      → complete digests r file ≡ ok (new, file')
      → get_for digests (receipt_key r) file' ≡ ok (some r)
  unfolding get_for
  complete-get_for r file file' new h =
      let (s, read, valid, executor, ways) = complete_inv r file file' new h in
      elim ways [
        | inr (found, old, same) ↦ rw (same, rebuild_of_decode file s read) (ap ok found)
        | inl (first, added, grown) ↦
            rw
              (
                grown,
                rebuild_of_decode (file ++ receipt_line r ∷ []) _
                    (decode-of_complete r file s read valid executor first),
              )
              (ap ok (
                lookup_pair-insert_pair (receipt_key r) (receipt_key r) r s.receipts
                ∙ rw (same_key_refl (receipt_key r)) refl))
      ]

  -- Completing adds no claim.
  pub complete-grows :
      (key : Key) (r : ExecutionReceipt) (file file' : File) (new : Bool)
      → complete digests r file ≡ ok (new, file')
      → count_claims key file' ≡ count_claims key file
  complete-grows key r file file' new h =
      let (s, read, valid, executor, ways) = complete_inv r file file' new h in
      elim ways [
        | inr (found, old, same) ↦ ap (count_claims key) same
        | inl (first, added, grown) ↦
            ap (count_claims key) grown
            ∙ omega (arith, count_claims-append key file (receipt_line r))
      ]
