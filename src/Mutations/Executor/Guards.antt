-- ===== src/Mutations/Executor/Guards.antt =====
-- What has happened before any call that changes the external target, in a run of
-- src/intent_engineering/mutations/executor.py.
use intent_engineer.Base.{
  if_cases, String, Bool, true, false, Option, none, some, ◌≡◌, refl, sym, subst, if_some, some_inj,
  none-ne-some, Result, ok, err, if◌then◌else◌,
}
use intent_engineer.Mutations.Executor.Start.{execute_cases}
use intent_engineer.Core.Graph.{Instant}
use intent_engineer.Storage.Evidence.{JsonFields}
use intent_engineer.Storage.MutationStore.{MutationStoreError, get}
use intent_engineer.Mutations.Stores.{write_plan_store, approval_store}
use intent_engineer.Mutations.Models.{
  is_flat, WritePlan, ApprovalRecord, ExecutionReceipt, RemoteObject, ReceiptStatus, rejected,
  failed, RedactedError, target_changed, permission_denied, provider_failure, is_remote_object,
  Digests,
}
use intent_engineer.Mutations.Executor.{WriteExecutor, is_executable, validated_inputs}
use intent_engineer.Mutations.Executor.Program.{
  ProviderAnswer, answered, denied, failed_call, aborted_call, StoreAnswer, stored, unavailable,
  aborted, execution_unavailable, finished, claim_write, execute_operation, checked_target,
  checked_result, is_target, fail_with, after_execution, send, raised_error, after_fetch,
  after_claim, is_timely, after_look, after_second_look, execute,
}
use intent_engineer.Mutations.Executor.Quiet.{fail-IsQuiet, execution-IsQuiet, second_look-IsQuiet}
use intent_engineer.Mutations.Executor.Permission.{
  target_of, IsGuarded, IsGuarded-of_quiet, permitted, IsPermitted,
}

answered_by :
    (x : ProviderAnswer RemoteObject) (c : RemoteObject)
    → checked_target x ≡ answered c
    → target_of x ≡ some c
unfolding checked_target
answered_by (answered o) c h = if_answered (is_remote_object o) o c h
  where
    if_answered :
        (test : Bool) (o c : RemoteObject)
        → ◌≡◌ {A = ProviderAnswer RemoteObject}
            (if test then answered o else failed_call)
            (answered c)
        → some o ≡ some c
    if_answered true o c h = cc
    if_answered false o c h = cc
answered_by denied c h = cc
answered_by failed_call c h = cc
answered_by aborted_call c h = cc

module _ (P : Option RemoteObject → WritePlan → ApprovalRecord → String → JsonFields → Type 0)
    (digests : Digests) (plan : WritePlan) (approval : ApprovalRecord) (actor : String)
    (now : Instant) where
  fail-IsGuarded :
      (last : Option RemoteObject) (status : ReceiptStatus) (error : RedactedError)
      → IsGuarded P last (fail_with digests plan approval actor now status error)
  fail-IsGuarded last status error =
      IsGuarded-of_quiet P last _ (fail-IsQuiet digests plan approval actor now status error)

  send-IsGuarded :
      (last : Option RemoteObject)
      → P last plan approval plan.provider_operation plan.arguments
      → IsGuarded P last (send digests plan approval actor now)
  send-IsGuarded last may =
      if_cases (IsGuarded P last) (is_flat plan.arguments)
        (execute_operation plan approval plan.provider_operation plan.arguments (λ answer.
          after_execution digests plan approval actor now
            (checked_result plan.before_version answer)))
        (finished raised_error)
        (λ flat. (
          may,
          λ x.
              IsGuarded-of_quiet P none
                (after_execution digests plan approval actor now
                  (checked_result plan.before_version x))
                (execution-IsQuiet digests plan approval actor now
                  (checked_result plan.before_version x)),
        ))
        tt

  module _
      (allowed : (current : RemoteObject)
        → is_target plan plan.before_version plan.before current ≡ true
        → P (some current) plan approval plan.provider_operation plan.arguments) where
    fetch-IsGuarded :
        (last : Option RemoteObject) (x : ProviderAnswer RemoteObject)
        → ((c : RemoteObject) → x ≡ answered c → last ≡ some c)
        → IsGuarded P last (after_fetch digests plan approval actor now x)
    unfolding after_fetch
    fetch-IsGuarded last aborted_call h = tt
    fetch-IsGuarded last denied h = fail-IsGuarded last failed permission_denied
    fetch-IsGuarded last failed_call h = fail-IsGuarded last failed provider_failure
    fetch-IsGuarded last (answered current) h =
        if_cases (IsGuarded P last) (is_target plan plan.before_version plan.before current)
          (send digests plan approval actor now)
          (fail_with digests plan approval actor now rejected target_changed)
          (λ same. send-IsGuarded last (
            subst (λ last. P last plan approval plan.provider_operation plan.arguments)
              (sym (h current refl)) (allowed current same)))
          (fail-IsGuarded last rejected target_changed)

    claim-IsGuarded :
        (x : StoreAnswer Bool) → IsGuarded P none (after_claim digests plan approval actor now x)
    unfolding after_claim
    claim-IsGuarded aborted = tt
    claim-IsGuarded unavailable = tt
    claim-IsGuarded (stored false) = λ x.
        IsGuarded-of_quiet P none (after_second_look x)
          (second_look-IsQuiet digests plan approval actor now x)
    claim-IsGuarded (stored true) =
        λ x. fetch-IsGuarded (target_of x) (checked_target x) (λ c. answered_by x c)

  look-IsGuarded :
      (is_timely plan approval now ≡ true
        → (current : RemoteObject) → is_target plan plan.before_version plan.before current ≡ true
        → P (some current) plan approval plan.provider_operation plan.arguments)
      → (x : StoreAnswer (Option ExecutionReceipt))
      → IsGuarded P none (after_look digests plan approval actor now x)
  unfolding after_look
  look-IsGuarded allowed aborted = tt
  look-IsGuarded allowed unavailable = tt
  look-IsGuarded allowed (stored (some existing)) = tt
  look-IsGuarded allowed (stored none) =
      if_cases (IsGuarded P none) (is_timely plan approval now)
        (claim_write
          (record { plan_id = plan.id; approval_id = approval.id; actor = actor; claimed_at = now })
          (after_claim digests plan approval actor now))
        (finished execution_unavailable) (λ timely. claim-IsGuarded (allowed timely)) tt

module _ (self : WriteExecutor) (plan_id approval_id actor : String) where
  approval_inv :
      (plan : WritePlan) (o : Result MutationStoreError ApprovalRecord)
      (found : WritePlan × ApprovalRecord)
      → (elim o [
        | err e ↦ none
        | ok approval ↦
            if is_executable self plan approval actor then some (plan, approval) else none
      ])
        ≡ some found
      → is_executable self found.0 found.1 actor ≡ true
  approval_inv plan (err e) found h = absurd (none-ne-some h)
  approval_inv plan (ok approval) found h =
      let (executable, same) = if_some (is_executable self plan approval actor) _ h in
      subst (λ (p : WritePlan × ApprovalRecord). is_executable self p.0 p.1 actor ≡ true)
        (some_inj same) executable

  plan_inv :
      (o : Result MutationStoreError WritePlan) (found : WritePlan × ApprovalRecord)
      (with_plan : WritePlan → Option (WritePlan × ApprovalRecord))
      → ((plan : WritePlan)
          → with_plan plan ≡ some found
          → is_executable self found.0 found.1 actor ≡ true)
      → (elim o [ err e ↦ none | ok plan ↦ with_plan plan ]) ≡ some found
      → is_executable self found.0 found.1 actor ≡ true
  plan_inv (err e) found with_plan each h = absurd (none-ne-some h)
  plan_inv (ok plan) found with_plan each h = each plan h

  pub validated_inputs_inv :
      (found : WritePlan × ApprovalRecord)
      → validated_inputs self plan_id approval_id actor ≡ some found
      → is_executable self found.0 found.1 actor ≡ true
  unfolding validated_inputs
  validated_inputs_inv found h =
      plan_inv
        (get (write_plan_store self.externals.digests self.externals.plan_json) plan_id self.plans)
        found _
        (λ plan e.
          approval_inv plan
            (get (approval_store self.externals.digests self.externals.approval_json) approval_id
              self.approvals)
            found e)
        h

  -- Whatever the stores and the provider answer, the operation of the provider is called only as the
  -- plan says, by the approver of the plan, whose names are none of the creator's or a conflicting
  -- author's, while the plan and the approval hold, and directly after the target was fetched and
  -- found with the version and the content that the plan starts from.
  pub execute-IsGuarded :
      (now : Instant)
      → IsGuarded (IsPermitted self actor now) none (execute self plan_id approval_id actor now)
  unfolding execute
  execute-IsGuarded now = λ x.
      execute_cases (IsGuarded (IsPermitted self actor now) none) self plan_id approval_id actor now
        tt tt x
        (λ plan approval e.
          look-IsGuarded (IsPermitted self actor now) self.externals.digests plan approval actor now
            (λ timely current same.
              permitted self plan approval actor now current
                (validated_inputs_inv (plan, approval) e) timely same))
