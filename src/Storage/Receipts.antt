-- ===== src/Storage/Receipts.antt =====
-- Claims and receipts of external writes: src/intent_engineering/storage/jsonl/receipt_store.py. Every
-- method reads the file again while it holds the lock, so that the state of the store is the file:
-- the list of its lines, as the JSON reader returns them.
pub mod Decoding
pub mod Settled
pub mod Methods
use intent_engineer.Base.{
  String, Bool, true, false, not, ◌&&◌, ◌||◌, Option, none, some, List, [], ◌∷◌, ◌++◌, ◌==◌, map,
  eqb, is_some, all, if◌then◌else◌, Result, ok, err, ◌>>=◌, ◌>>◌, raise_if,
}
use intent_engineer.Base.Dict.{values}
use intent_engineer.Base.Dict.Pairs.{Key, PairDict, lookup_pair, insert_pair, sort_by_key}
use intent_engineer.Core.Graph.{Instant}
use intent_engineer.Storage.EvidenceLog.{same_text?}
use intent_engineer.Mutations.Texts.{is_text, is_digest_with}
use intent_engineer.Mutations.Models.{
  ExecutionReceipt, ReceiptStatus, succeeded, rejected, failed, RedactedError, target_changed,
  permission_denied, provider_failure, Digests, is_receipt,
}

pub record Claim : Type 0 where
  pub plan_id : String
  pub approval_id : String
  pub actor : String
  pub claimed_at : Instant

-- `require_text` and the patterns of `_Claim`
unfoldable pub is_claim : Claim → Bool
unfolding is_text is_digest_with
is_claim c =
    is_digest_with "write-plan:sha256:" c.plan_id
    && (is_digest_with "approval:sha256:" c.approval_id
        && all is_text (c.plan_id ∷ c.approval_id ∷ c.actor ∷ []))

-- A line that is blank, not canonical or of another kind is broken.
pub data Line : Type 0 where
  broken_line : Line
  claim_line : Claim → Line
  receipt_line : ExecutionReceipt → Line

abbrev pub File : Type 0
File = List Line

pub data ReceiptStoreError : Type 0 where
  invalid_receipt_store invalid_execution_claim invalid_execution_receipt
        conflicting_execution_receipt :
      ReceiptStoreError

-- The two dicts of `_decode_content`.
pub record Index : Type 0 where
  pub claims : PairDict Claim
  pub receipts : PairDict ExecutionReceipt

abbrev pub empty_index : Index
empty_index = record { claims = []; receipts = [] }

abbrev pub claim_key : Claim → Key
claim_key c = (c.plan_id, c.approval_id)

abbrev pub receipt_key : ExecutionReceipt → Key
receipt_key r = (r.plan_id, r.approval_id)

abbrev pub same_status : ReceiptStatus → ReceiptStatus → Bool
same_status succeeded succeeded = true
same_status rejected rejected = true
same_status failed failed = true
same_status _ _ = false

abbrev pub same_error? : Option RedactedError → Option RedactedError → Bool
same_error? none none = true
same_error? (some target_changed) (some target_changed) = true
same_error? (some permission_denied) (some permission_denied) = true
same_error? (some provider_failure) (some provider_failure) = true
same_error? _ _ = false

-- `existing == validated`
unfoldable pub same_receipt : ExecutionReceipt → ExecutionReceipt → Bool
same_receipt a b =
    a.id == b.id
    && (a.plan_id == b.plan_id
        && (a.plan_hash == b.plan_hash
            && (a.approval_id == b.approval_id
                && (a.target_version == b.target_version
                    && (a.executed_by == b.executed_by
                        && (same_status a.status b.status
                            && (eqb a.attempted_at b.attempted_at
                                && (eqb a.completed_at b.completed_at
                                    && (same_text? a.resulting_version b.resulting_version
                                        && (same_text? a.evidence_ref b.evidence_ref
                                            && same_error? a.redacted_error
                                                b.redacted_error))))))))))

unfoldable pub decode_claim : Index → Claim → Option Index
unfolding is_claim
decode_claim s c =
    if not (is_claim c)
      || is_some (lookup_pair (claim_key c) s.claims)
      || is_some (lookup_pair (claim_key c) s.receipts)
    then none
    else some (record s { claims = insert_pair (claim_key c) c s.claims })

abbrev pub add_receipt : Index → ExecutionReceipt → Claim → Option Index
add_receipt s r c =
    if is_some (lookup_pair (receipt_key r) s.receipts) || not (c.actor == r.executed_by)
    then none
    else some (record s { receipts = insert_pair (receipt_key r) r s.receipts })

abbrev pub claimed_by : Option Claim → String → Bool
claimed_by none actor = false
claimed_by (some c) actor = c.actor == actor

abbrev pub written : File → List Line → Bool × File
written file [] = (false, file)
written file (l ∷ ls) = (true, file ++ l ∷ ls)

-- `b""` or the serialized receipt, by the receipt that is there
abbrev pub completion_lines :
    ExecutionReceipt → Option ExecutionReceipt → Result ReceiptStoreError (List Line)
unfolding same_receipt
completion_lines r none = ok (receipt_line r ∷ [])
completion_lines r (some existing) =
    if same_receipt existing r then ok [] else err conflicting_execution_receipt

module _ (digests : Digests) where
  unfoldable pub decode_receipt : Index → ExecutionReceipt → Option Index
  unfolding is_receipt
  decode_receipt s r =
      if is_receipt digests r
      then elim (lookup_pair (receipt_key r) s.claims) [ none ↦ none | some c ↦ add_receipt s r c ]
      else none

  unfoldable pub decode_line : Index → Line → Option Index
  unfolding decode_claim decode_receipt
  decode_line s broken_line = none
  decode_line s (claim_line c) = decode_claim s c
  decode_line s (receipt_line r) = decode_receipt s r

  unfoldable pub decode_from : Index → File → Option Index
  unfolding decode_line
  decode_from s [] = some s
  decode_from s (l ∷ ls) = elim (decode_line s l) [ none ↦ none | some t ↦ decode_from t ls ]

  -- `_decode_content`
  unfoldable pub decode_content : File → Option Index
  unfolding decode_from
  decode_content file = decode_from empty_index file

  -- `_rebuild_unlocked`
  unfoldable pub rebuild : File → Result ReceiptStoreError Index
  unfolding decode_content
  rebuild file = elim (decode_content file) [ none ↦ err invalid_receipt_store | some s ↦ ok s ]

  -- The lines that are still to be written
  unfoldable pub validate_receipt_completion :
      File → ExecutionReceipt → Result ReceiptStoreError (List Line)
  unfolding rebuild is_receipt same_receipt
  validate_receipt_completion file r = do
    raise_if (not (is_receipt digests r)) invalid_execution_receipt
    s ← rebuild file
    raise_if (not (claimed_by (lookup_pair (receipt_key r) s.claims) r.executed_by))
        invalid_execution_receipt
    completion_lines r (lookup_pair (receipt_key r) s.receipts)

  unfoldable pub claim : Claim → File → Result ReceiptStoreError (Bool × File)
  unfolding rebuild is_claim
  claim c file = do
    raise_if (not (is_claim c)) invalid_execution_claim
    s ← rebuild file
    if is_some (lookup_pair (claim_key c) s.claims)
        then ok (false, file)
        else ok (true, file ++ claim_line c ∷ [])

  unfoldable pub complete : ExecutionReceipt → File → Result ReceiptStoreError (Bool × File)
  unfolding rebuild validate_receipt_completion
  complete r file = do
    s ← rebuild file
    lines ← validate_receipt_completion file r
    ok (written file lines)

  unfoldable pub get_for : Key → File → Result ReceiptStoreError (Option ExecutionReceipt)
  unfolding rebuild
  get_for key file = do s ← rebuild file; ok (lookup_pair key s.receipts)

  unfoldable pub is_claimed : Key → File → Result ReceiptStoreError Bool
  unfolding rebuild
  is_claimed key file = do s ← rebuild file; ok (is_some (lookup_pair key s.claims))

  unfoldable pub list : File → Result ReceiptStoreError (List ExecutionReceipt)
  unfolding rebuild
  list file = do s ← rebuild file; ok (map (λ entry. entry.1) (sort_by_key s.receipts))
