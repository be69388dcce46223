-- ===== src/Mutations/Executor/Permission.antt =====
-- What is known where src/intent_engineering/mutations/executor.py calls the operation of a provider.
use intent_engineer.Base.{
  String, Bool, true, false, not, ◌||◌, Option, none, some, ◌==◌, ◌≡◌, ◌≤◌, ◌<◌, refl, subst, arith,
  inl, inr, Option-cases, any, and_inv, eq_iff,
}
use intent_engineer.Base.Text.{is_blank}
use intent_engineer.Base.Texts.{elem, Apart}
use intent_engineer.Core.Graph.{Instant}
use intent_engineer.Storage.Evidence.Access.{same_texts-eq}
use intent_engineer.Storage.Evidence.{JsonFields}
use intent_engineer.Mutations.Models.{
  WritePlan, ApprovalRecord, ExecutionReceipt, RemoteObject, WriteResult, plan_hash,
}
use intent_engineer.Mutations.Authorization.{authenticated_approval_aliases}
use intent_engineer.Mutations.Authorization.Independence.{authenticated_inv}
use intent_engineer.Mutations.Executor.{
  WriteExecutor, is_authorized, has_current_profile, has_current_operation, has_current_aliases,
  is_executable,
}
use intent_engineer.Mutations.Executor.Program.{
  ProviderAnswer, answered, StoreAnswer, Program, finished, read_inputs, get_receipt, claim_write,
  complete_write, fetch_target, execute_operation, commit_success, is_target, is_timely,
}
use intent_engineer.Mutations.Executor.Quiet.{IsQuiet}

abbrev pub target_of : ProviderAnswer RemoteObject → Option RemoteObject
target_of (answered o) = some o
target_of _ = none

-- Every call of the operation satisfies `P`, which is told what the call before it has fetched.
abbrev pub IsGuarded :
    (Option RemoteObject → WritePlan → ApprovalRecord → String → JsonFields → Type 0)
    → Option RemoteObject
    → Program
    → Type 0
IsGuarded P last (finished o) = Unit
IsGuarded P last (read_inputs p a next) = (x : StoreAnswer Unit) → IsGuarded P none (next x)
IsGuarded P last (get_receipt p a next) =
    (x : StoreAnswer (Option ExecutionReceipt)) → IsGuarded P none (next x)
IsGuarded P last (claim_write c next) = (x : StoreAnswer Bool) → IsGuarded P none (next x)
IsGuarded P last (complete_write r next) = (x : StoreAnswer Bool) → IsGuarded P none (next x)
IsGuarded P last (fetch_target plan next) =
    (x : ProviderAnswer RemoteObject) → IsGuarded P (target_of x) (next x)
IsGuarded P last (execute_operation plan approval operation arguments next) =
    P last plan approval operation arguments
    × ((x : ProviderAnswer WriteResult) → IsGuarded P none (next x))
IsGuarded P last (commit_success r plan approval result next) =
    (x : StoreAnswer Unit) → IsGuarded P none (next x)

-- What is known of a call of the provider.
pub record IsPermitted (self : WriteExecutor) (actor : String) (now : Instant)
    (last : Option RemoteObject) (plan : WritePlan) (approval : ApprovalRecord) (operation : String)
    (arguments : JsonFields) : Type 0 where
  pub actors :
      (actor ≡ approval.actor)
      × (elem actor self.authorized_executors ≡ true)
      × (elem approval.actor self.authorized_approvers ≡ true)
      × (elem plan.created_by self.authorized_contributors ≡ true)
  pub bound : (approval.plan_id ≡ plan.id) × (approval.target_version ≡ plan.before_version)
  pub independent :
      Apart approval.actor_aliases plan.created_by_aliases
      × Apart approval.actor_aliases plan.conflicting_authors
  pub timely :
      (plan.created_at ≤ now)
      × (now < plan.expires_at)
      × (approval.approved_at ≤ now)
      × (now < approval.expires_at)
  pub unchanged :
      (current : RemoteObject) × (last ≡ some current)
      × (is_target plan plan.before_version plan.before current ≡ true)
  pub as_planned : (operation ≡ plan.provider_operation) × (arguments ≡ plan.arguments)

pub IsGuarded-of_quiet :
    (P : Option RemoteObject → WritePlan → ApprovalRecord → String → JsonFields → Type 0)
    (last : Option RemoteObject) (run : Program)
    → IsQuiet run
    → IsGuarded P last run
IsGuarded-of_quiet P last (finished o) q = tt
IsGuarded-of_quiet P last (read_inputs p a next) q = λ x. IsGuarded-of_quiet P none (next x) (q x)
IsGuarded-of_quiet P last (get_receipt p a next) q = λ x. IsGuarded-of_quiet P none (next x) (q x)
IsGuarded-of_quiet P last (claim_write c next) q = absurd q
IsGuarded-of_quiet P last (complete_write r next) q = λ x. IsGuarded-of_quiet P none (next x) (q x)
IsGuarded-of_quiet P last (fetch_target plan next) q =
    λ x. IsGuarded-of_quiet P (target_of x) (next x) (q x)
IsGuarded-of_quiet P last (execute_operation plan approval operation arguments next) q = absurd q
IsGuarded-of_quiet P last (commit_success r plan approval result next) q =
    λ x. IsGuarded-of_quiet P none (next x) (q x)

false-ne-true : false ≡ true → ⊥
false-ne-true h = cc

timely_inv :
    (plan : WritePlan) (approval : ApprovalRecord) (now : Instant)
    → is_timely plan approval now ≡ true
    → (plan.created_at ≤ now)
      × (now < plan.expires_at)
      × (approval.approved_at ≤ now)
      × (now < approval.expires_at)
unfolding is_timely
timely_inv plan approval now h = (ground arith, ground arith, ground arith, ground arith)

module _ (self : WriteExecutor) (plan : WritePlan) (approval : ApprovalRecord)
    (actor : String) where
  authorized_inv :
      is_authorized self plan approval actor ≡ true
      → ((actor ≡ approval.actor)
          × (elem actor self.authorized_executors ≡ true)
          × (elem approval.actor self.authorized_approvers ≡ true)
          × (elem plan.created_by self.authorized_contributors ≡ true))
        × ((approval.plan_id ≡ plan.id) × (approval.target_version ≡ plan.before_version))
  unfolding is_authorized
  authorized_inv h =
      let (h0, k0) =
        and_inv
          (not (
            any is_blank self.authorized_contributors
            || any is_blank self.authorized_approvers
            || any is_blank self.authorized_executors))
          _ h in
      let (contributor, k1) = and_inv (elem plan.created_by self.authorized_contributors) _ k0 in
      let (approver, k2) = and_inv (elem approval.actor self.authorized_approvers) _ k1 in
      let (executor, k3) = and_inv (elem actor self.authorized_executors) _ k2 in
      let (same, k4) = and_inv (actor == approval.actor) _ k3 in
      let (of_plan, k5) = and_inv (approval.plan_id == plan.id) _ k4 in
      let (of_hash, k6) =
        and_inv (approval.plan_hash == plan_hash self.externals.digests plan) _ k5 in
      let (of_version, k7) = and_inv (approval.target_version == plan.before_version) _ k6 in
      (
        ((eq_iff actor approval.actor).0 same, executor, approver, contributor),
        (
          (eq_iff approval.plan_id plan.id).0 of_plan,
          (eq_iff approval.target_version plan.before_version).0 of_version,
        ),
      )

  aliases_inv :
      has_current_aliases self plan approval ≡ true
      → Apart approval.actor_aliases plan.created_by_aliases
        × Apart approval.actor_aliases plan.conflicting_authors
  unfolding has_current_aliases
  aliases_inv h =
      let digests = self.externals.digests in
      let binding_hash = self.externals.binding_hash in
      elim (Option-cases (
        authenticated_approval_aliases digests binding_hash plan self.binding approval.actor
          self.authorized_contributors self.authorized_approvers self.identity_aliases)) [
            | inl none_there ↦ absurd (false-ne-true (rw (has_current_aliases, none_there) at h))
            | inr (names, known) ↦
                let same =
                  same_texts-eq names approval.actor_aliases
                    (rw (has_current_aliases, known) at h) in
                let (may, found, no_creator, no_author) =
                  authenticated_inv digests binding_hash plan self.binding approval.actor
                    self.authorized_contributors self.authorized_approvers self.identity_aliases
                    known in
                (
                  subst (λ xs. Apart xs plan.created_by_aliases) same no_creator,
                  subst (λ xs. Apart xs plan.conflicting_authors) same no_author,
                )
          ]

  pub permitted :
      (now : Instant) (current : RemoteObject)
      → is_executable self plan approval actor ≡ true
      → is_timely plan approval now ≡ true
      → is_target plan plan.before_version plan.before current ≡ true
      → IsPermitted self actor now
          (some current)
          plan
          approval
          plan.provider_operation
          plan.arguments
  unfolding is_executable
  permitted now current executable timely same =
      let (authorized, k) = and_inv (is_authorized self plan approval actor) _ executable in
      let (profile, k') = and_inv (has_current_profile self plan) _ k in
      let (operation, aliases) = and_inv (has_current_operation self plan) _ k' in
      let (actors, bound) = authorized_inv authorized in
      record {
        actors = actors;
        bound = bound;
        independent = aliases_inv aliases;
        timely = timely_inv plan approval now timely;
        unchanged = (current, refl, same);
        as_planned = (refl, refl);
      }
