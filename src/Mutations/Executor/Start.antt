-- ===== src/Mutations/Executor/Start.antt =====
-- Where a run of `WriteExecutor.execute` of src/intent_engineering/mutations/executor.py begins.
use intent_engineer.Base.{String, Option, none, some, ◌≡◌, refl}
use intent_engineer.Core.Graph.{Instant}
use intent_engineer.Mutations.Models.{WritePlan, ApprovalRecord}
use intent_engineer.Mutations.Executor.{WriteExecutor, validated_inputs}
use intent_engineer.Mutations.Executor.Program.{
  StoreAnswer, stored, unavailable, aborted, Program, finished, get_receipt, execution_unavailable,
  raised_abort, after_look, after_inputs,
}

module _ (P : Program → Type 0) (self : WriteExecutor) (plan_id approval_id actor : String)
    (now : Instant) where
  -- After its reads a run ends at once, or it looks for the receipt of validated inputs.
  pub execute_cases :
      P (finished execution_unavailable)
      → P (finished raised_abort)
      → (x : StoreAnswer Unit)
      → ((plan : WritePlan) (approval : ApprovalRecord)
          → validated_inputs self plan_id approval_id actor ≡ some (plan, approval)
          → P (
              get_receipt plan.id approval.id
                (after_look self.externals.digests plan approval actor now)))
      → P (after_inputs self plan_id approval_id actor now x)
  unfolding after_inputs
  execute_cases refused ended aborted found = ended
  execute_cases refused ended unavailable found = refused
  execute_cases refused ended (stored done) found =
      each (validated_inputs self plan_id approval_id actor) refl
    where
      each :
          (o : Option (WritePlan × ApprovalRecord))
          → validated_inputs self plan_id approval_id actor ≡ o
          → P (elim o as (λ x. Program) [
            | none ↦ finished execution_unavailable
            | some (plan, approval) ↦
                get_receipt plan.id approval.id
                  (after_look self.externals.digests plan approval actor now)
          ])
      each none e = refused
      each (some (plan, approval)) e = found plan approval e
