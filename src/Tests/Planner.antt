-- ===== src/Tests/Planner.antt =====
-- The way of an external write, from its plan on, in src/intent_engineering/mutations on small inputs.
use intent_engineer.Base.{true, some, [], ◌∷◌, ◌≡◌, refl, ok}
use intent_engineer.Base.Text.{is_blank}
use intent_engineer.Core.Vocabulary.{update_requirement}
use intent_engineer.Reconcile.Cases.{ReconciliationCase, validate_case}
use intent_engineer.Mutations.Models.{is_flat, has_no_lists, WritePlan, ApprovalRecord}
use intent_engineer.Storage.EvidenceLog.{same_json}
use intent_engineer.Mutations.Authorization.{approve_plan}
use intent_engineer.Mutations.Executor.{is_executable}
use intent_engineer.Mutations.Planner.{WriteRequest, build_write_plan}
use intent_engineer.Mutations.Planner.Current.{IsCurrent, build_write_plan-IsCurrent}
use intent_engineer.Mutations.Planner.Approved.{approved-IsExecutable}
use intent_engineer.Tests.Reconcile.{reviewed}
use intent_engineer.Tests.Mutations.{executor, plan, approval, issue, title, confirmation}

abbrev case_of_issue : ReconciliationCase
case_of_issue = record reviewed { affected_refs = "req:1" ∷ "tracker:7" ∷ [] }

abbrev request : WriteRequest
request = record {
  operation = "retitle";
  current = issue;
  fields = title "new";
  actor = "ana";
  action = update_requirement;
  at = 1000;
}

abbrev built : WritePlan
built = record plan { conflicting_authors = "ana" ∷ []; expires_at = 900001000 }

builds :
    build_write_plan executor.externals executor.profile executor.binding
      executor.authorized_contributors executor.identity_aliases case_of_issue request
    ≡ ok built
unfolding build_write_plan validate_case is_blank
builds = refl

build_write_plan-IsCurrent_example : IsCurrent executor request built
unfolding same_json is_flat has_no_lists
build_write_plan-IsCurrent_example =
    build_write_plan-IsCurrent executor case_of_issue request built builds refl refl refl

abbrev given : ApprovalRecord
given = record approval { plan_expires_at = 900001000; expires_at = 2400 }

approves :
    approve_plan executor.externals.digests executor.externals.binding_hash built executor.binding
      "cy" 1500 900 confirmation true executor.authorized_approvers executor.identity_aliases
    ≡ some given
unfolding approve_plan
approves = refl

approved-IsExecutable_example : is_executable executor built given "cy" ≡ true
unfolding same_json is_blank is_flat has_no_lists
approved-IsExecutable_example =
    approved-IsExecutable executor case_of_issue request built "cy" 1500 900 confirmation true given
      builds refl refl refl approves refl refl
