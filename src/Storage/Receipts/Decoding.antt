-- ===== src/Storage/Receipts/Decoding.antt =====
-- What each accepted line of src/intent_engineering/storage/jsonl/receipt_store.py adds to the index.
use intent_engineer.Base.{
  ℕ, Bool, true, false, not, ◌||◌, ◌+◌, Option, none, some, [], ◌∷◌, ◌==◌, ◌≡◌, refl, sym, is_some,
  if_none, if_some, or_inv, some_inj, none-ne-some, none_of_is_some, not_inv, eq_iff,
}
use intent_engineer.Base.Dict.Pairs.{Key, same_key, lookup_pair, insert_pair}
use intent_engineer.Mutations.Models.{ExecutionReceipt, Digests, is_receipt}
use intent_engineer.Storage.Receipts.{
  Claim, is_claim, claim_line, receipt_line, File, Index, claim_key, receipt_key, decode_claim,
  add_receipt, decode_receipt,
}

abbrev pub one_if : Bool → ℕ
one_if true = 1
one_if false = 0

-- The lines that claim a write, and those that complete one.
abbrev pub count_claims : Key → File → ℕ
count_claims key [] = 0
count_claims key (claim_line c ∷ ls) = one_if (same_key (claim_key c) key) + count_claims key ls
count_claims key (_ ∷ ls) = count_claims key ls

abbrev pub count_receipts : Key → File → ℕ
count_receipts key [] = 0
count_receipts key (receipt_line r ∷ ls) =
    one_if (same_key (receipt_key r) key) + count_receipts key ls
count_receipts key (_ ∷ ls) = count_receipts key ls

pub decode_claim_inv :
    (s t : Index) (c : Claim)
    → decode_claim s c ≡ some t
    → (is_claim c ≡ true)
      × (lookup_pair (claim_key c) s.claims ≡ none)
      × (t ≡ record s { claims = insert_pair (claim_key c) c s.claims })
unfolding decode_claim
decode_claim_inv s t c h =
    let bad = not (is_claim c) in
    let known = is_some (lookup_pair (claim_key c) s.claims) in
    let done = is_some (lookup_pair (claim_key c) s.receipts) in
    let (tests, made) = if_none (bad || known || done) _ h in
    let (open_ones, undone) = or_inv (bad || known) done tests in
    let (valid, unknown) = or_inv bad known open_ones in
    (not_inv (is_claim c) valid, none_of_is_some _ unknown, sym (some_inj made))

add_receipt_inv :
    (s t : Index) (r : ExecutionReceipt) (c : Claim)
    → add_receipt s r c ≡ some t
    → (c.actor ≡ r.executed_by)
      × (lookup_pair (receipt_key r) s.receipts ≡ none)
      × (t ≡ record s { receipts = insert_pair (receipt_key r) r s.receipts })
add_receipt_inv s t r c h =
    let done = is_some (lookup_pair (receipt_key r) s.receipts) in
    let (tests, made) = if_none (done || not (c.actor == r.executed_by)) _ h in
    let (undone, same) = or_inv done (not (c.actor == r.executed_by)) tests in
    (
      (eq_iff c.actor r.executed_by).0 (not_inv (c.actor == r.executed_by) same),
      none_of_is_some _ undone,
      sym (some_inj made),
    )

-- A claim by the one who executed the write stands for the receipt, which is the first of its key.
pub record IsCompletion (s : Index) (r : ExecutionReceipt) (t : Index) : Type 0 where
  pub claimed : Claim
  pub found : lookup_pair (receipt_key r) s.claims ≡ some claimed
  pub by_executor : claimed.actor ≡ r.executed_by
  pub first : lookup_pair (receipt_key r) s.receipts ≡ none
  pub made : t ≡ record s { receipts = insert_pair (receipt_key r) r s.receipts }

IsCompletion-of_lookup :
    (s t : Index) (r : ExecutionReceipt) (o : Option Claim)
    → lookup_pair (receipt_key r) s.claims ≡ o
    → (elim o [ none ↦ none | some c ↦ add_receipt s r c ]) ≡ some t
    → IsCompletion s r t
IsCompletion-of_lookup s t r none found h = absurd (none-ne-some h)
IsCompletion-of_lookup s t r (some c) found h =
    let (executor, first, made) = add_receipt_inv s t r c h in
    record { claimed = c; found = found; by_executor = executor; first = first; made = made }

module _ (digests : Digests) where
  pub decode_receipt-IsCompletion :
      (s t : Index) (r : ExecutionReceipt)
      → decode_receipt digests s r ≡ some t
      → IsCompletion s r t
  unfolding decode_receipt
  decode_receipt-IsCompletion s t r h =
      let (valid, made) = if_some (is_receipt digests r) _ h in
      IsCompletion-of_lookup s t r _ refl made
