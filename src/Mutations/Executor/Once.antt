-- ===== src/Mutations/Executor/Once.antt =====
-- However many runs of src/intent_engineering/mutations/executor.py there are, an approved write is
-- sent to its provider at most once.
use intent_engineer.Base.{
  if_cases, ℕ, String, Bool, true, false, Option, none, some, List, [], ◌∷◌, ◌++◌, ◌+◌, ◌≤◌, ◌≡◌,
  ◌⊎◌, refl, ◌∙◌, arith, inl, inr,
}
use intent_engineer.Base.Dict.Pairs.{Key, same_key}
use intent_engineer.Mutations.Executor.Start.{execute_cases}
use intent_engineer.Core.Graph.{Instant}
use intent_engineer.Storage.Receipts.{File}
use intent_engineer.Storage.Receipts.Decoding.{one_if, count_claims}
use intent_engineer.Mutations.Models.{
  is_flat, WritePlan, ApprovalRecord, ExecutionReceipt, RemoteObject, ReceiptStatus, rejected,
  failed, RedactedError, target_changed, permission_denied, provider_failure, Digests,
}
use intent_engineer.Mutations.Executor.{WriteExecutor}
use intent_engineer.Mutations.Executor.Quiet.{
  IsQuiet, fail-IsQuiet, execution-IsQuiet, second_look-IsQuiet,
}
use intent_engineer.Mutations.Executor.Program.{
  ProviderAnswer, answered, denied, failed_call, aborted_call, StoreAnswer, stored, unavailable,
  aborted, execution_unavailable, fail_with, raised_error, finished, send, after_fetch,
  after_execution, after_claim, after_look, after_second_look, is_timely, is_target, checked_target,
  checked_result, Program, finished, read_inputs, get_receipt, claim_write, complete_write,
  fetch_target, execute_operation, commit_success, execute,
}
use intent_engineer.Mutations.Executor.Pool.{
  Call, count_calls, PoolStep, here, there, Reachable, begin, start, step,
}
use intent_engineer.Mutations.Executor.Entitlement.{gained, Spends, Funded, Grows, RunStep-Spent}

Spends-of_quiet : (key : Key) (n : ℕ) (run : Program) → IsQuiet run → Spends key n run
Spends-of_quiet key n (finished o) q = tt
Spends-of_quiet key n (read_inputs p a next) q = λ x. Spends-of_quiet key n (next x) (q x)
Spends-of_quiet key n (get_receipt p a next) q = λ x. Spends-of_quiet key n (next x) (q x)
Spends-of_quiet key n (claim_write c next) q = absurd q
Spends-of_quiet key n (complete_write r next) q = λ x. Spends-of_quiet key n (next x) (q x)
Spends-of_quiet key n (fetch_target plan next) q = λ x. Spends-of_quiet key n (next x) (q x)
Spends-of_quiet key n (execute_operation plan approval operation arguments next) q = absurd q
Spends-of_quiet key n (commit_success r plan approval result next) q =
    λ x. Spends-of_quiet key n (next x) (q x)

module _ (digests : Digests) (plan : WritePlan) (approval : ApprovalRecord) (actor : String)
    (now : Instant) (key : Key) where
  fail-Spends :
      (n : ℕ) (status : ReceiptStatus) (error : RedactedError)
      → Spends key n (fail_with digests plan approval actor now status error)
  fail-Spends n status error =
      Spends-of_quiet key n _ (fail-IsQuiet digests plan approval actor now status error)

  send-Spends :
      (n : ℕ)
      → n ≡ one_if (same_key (plan.id, approval.id) key)
      → Spends key n (send digests plan approval actor now)
  send-Spends n paid =
      if_cases (Spends key n) (is_flat plan.arguments)
        (execute_operation plan approval plan.provider_operation plan.arguments (λ answer.
          after_execution digests plan approval actor now
            (checked_result plan.before_version answer)))
        (finished raised_error)
        (λ flat. (
          0,
          omega (arith, paid),
          λ x.
              Spends-of_quiet key 0
                (after_execution digests plan approval actor now
                  (checked_result plan.before_version x))
                (execution-IsQuiet digests plan approval actor now
                  (checked_result plan.before_version x)),
        ))
        tt

  fetch-Spends :
      (n : ℕ)
      → n ≡ one_if (same_key (plan.id, approval.id) key)
      → (x : ProviderAnswer RemoteObject)
      → Spends key n (after_fetch digests plan approval actor now x)
  unfolding after_fetch
  fetch-Spends n paid aborted_call = tt
  fetch-Spends n paid denied = fail-Spends n failed permission_denied
  fetch-Spends n paid failed_call = fail-Spends n failed provider_failure
  fetch-Spends n paid (answered current) =
      if_cases (Spends key n) (is_target plan plan.before_version plan.before current)
        (send digests plan approval actor now)
        (fail_with digests plan approval actor now rejected target_changed)
        (λ same. send-Spends n paid) (fail-Spends n rejected target_changed)

  claim-Spends :
      (x : StoreAnswer Bool)
      → Spends key
          (0
            + gained key
                (record {
                  plan_id = plan.id;
                  approval_id = approval.id;
                  actor = actor;
                  claimed_at = now;
                })
                x)
          (after_claim digests plan approval actor now x)
  unfolding after_claim
  claim-Spends aborted = tt
  claim-Spends unavailable = tt
  claim-Spends (stored false) = λ x.
      Spends-of_quiet key (0 + 0) (after_second_look x)
        (second_look-IsQuiet digests plan approval actor now x)
  claim-Spends (stored true) = λ x. fetch-Spends _ (omega arith) (checked_target x)

  look-Spends :
      (x : StoreAnswer (Option ExecutionReceipt))
      → Spends key 0 (after_look digests plan approval actor now x)
  unfolding after_look
  look-Spends aborted = tt
  look-Spends unavailable = tt
  look-Spends (stored (some existing)) = tt
  look-Spends (stored none) =
      if_cases (Spends key 0) (is_timely plan approval now)
        (claim_write
          (record { plan_id = plan.id; approval_id = approval.id; actor = actor; claimed_at = now })
          (after_claim digests plan approval actor now))
        (finished execution_unavailable) (λ timely. claim-Spends) tt

execute-Spends :
    (self : WriteExecutor) (plan_id approval_id actor : String) (now : Instant) (key : Key)
    → Spends key 0 (execute self plan_id approval_id actor now)
unfolding execute
execute-Spends self plan_id approval_id actor now key = λ x.
    execute_cases (Spends key 0) self plan_id approval_id actor now tt tt x
      (λ plan approval e. look-Spends self.externals.digests plan approval actor now key)

module _ (digests : Digests) (key : Key) where
  -- All runs together, as one run
  record PoolSpent (n : ℕ) (runs' : List Program) (file file' : File) (made : List Call)
      : Type 0 where
    left : ℕ
    funded : Funded key left runs'
    paid : count_calls key made + left + count_claims key file ≤ n + count_claims key file'
    grows : Grows key file file'

  PoolStep-PoolSpent :
      {runs runs' : List Program} {file file' : File} {made : List Call}
      → PoolStep digests runs file runs' file' made
      → (n : ℕ) → Funded key n runs
      → PoolSpent n runs' file file' made
  PoolStep-PoolSpent (here {run = run} {run' = run'} {file = file} {file' = file'} {made = made} s)
        n (a, b, sum, spends, rest) =
      let spent = RunStep-Spent digests key a run run' file file' made s spends in
      record {
        left = spent.left + b;
        funded = (spent.left, b, refl, spent.spends, rest);
        paid = omega (arith, spent.paid, sum);
        grows = spent.grows;
      }
  PoolStep-PoolSpent (there s) n (a, b, sum, spends, rest) =
      let others = PoolStep-PoolSpent s b rest in
      record {
        left = a + others.left;
        funded = (a, others.left, refl, spends, others.funded);
        paid = omega (arith, others.paid, sum);
        grows = others.grows;
      }

  count_calls-append :
      (made calls : List Call)
      → count_calls key (made ++ calls) ≡ count_calls key made + count_calls key calls
  count_calls-append [] calls = omega arith
  count_calls-append (c ∷ made) calls = omega (arith, count_calls-append made calls)

  once_more : {i f g : ℕ} → (f ≡ i) ⊎ (f ≤ 1) → (g ≡ f) ⊎ (g ≤ 1) → (g ≡ i) ⊎ (g ≤ 1)
  once_more (inl same) (inl again) = inl (again ∙ same)
  once_more (inr one) (inl again) = inr (omega (arith, again, one))
  once_more old (inr one) = inr one

  -- The calls that were made and those that may still be made are paid by claims that were added.
  record IsPaid (initial : File) (runs : List Program) (file : File) (calls : List Call)
      : Type 0 where
    open_claims : ℕ
    funded : Funded key open_claims runs
    paid : count_calls key calls + open_claims + count_claims key initial ≤ count_claims key file
    once : (count_claims key file ≡ count_claims key initial) ⊎ (count_claims key file ≤ 1)

  Reachable-IsPaid :
      {initial : File} {runs : List Program} {file : File} {calls : List Call}
      → Reachable digests initial runs file calls
      → IsPaid initial runs file calls
  Reachable-IsPaid begin = record {
    open_claims = 0;
    funded = tt;
    paid = omega arith;
    once = inl refl;
  }
  Reachable-IsPaid (start self plan_id approval_id actor now before) =
      let p = Reachable-IsPaid before in
      record {
        open_claims = p.open_claims;
        funded = (
          0,
          p.open_claims,
          omega arith,
          execute-Spends self plan_id approval_id actor now key,
          p.funded,
        );
        paid = p.paid;
        once = p.once;
      }
  Reachable-IsPaid (step {calls = calls} {made = made} before s) =
      let p = Reachable-IsPaid before in
      let spent = PoolStep-PoolSpent s p.open_claims p.funded in
      record {
        open_claims = spent.left;
        funded = spent.funded;
        paid = omega (arith, p.paid, spent.paid, count_calls-append made calls);
        once = once_more p.once spent.grows.1;
      }

  at_most_one : {calls i f : ℕ} (left : ℕ) → (f ≡ i) ⊎ (f ≤ 1) → calls + left + i ≤ f → calls ≤ 1
  at_most_one left (inl same) paid = omega arith
  at_most_one left (inr one) paid = omega arith

  none_more :
      {calls i f : ℕ} (left : ℕ) → (f ≡ i) ⊎ (f ≤ 1) → calls + left + i ≤ f → 1 ≤ i → calls ≡ 0
  none_more left (inl same) paid claimed = omega arith
  none_more left (inr one) paid claimed = omega arith

  -- From any file, however many runs are started and however their steps are interleaved, fail or
  -- stop, the operation of the provider is called at most once for a plan and an approval, and not at
  -- all if the file claims that write already.
  pub calls-le-one :
      {initial : File} {runs : List Program} {file : File} {calls : List Call}
      → Reachable digests initial runs file calls
      → (count_calls key calls ≤ 1) × (1 ≤ count_claims key initial → count_calls key calls ≡ 0)
  calls-le-one reached =
      let p = Reachable-IsPaid reached in
      (at_most_one p.open_claims p.once p.paid, none_more p.open_claims p.once p.paid)
