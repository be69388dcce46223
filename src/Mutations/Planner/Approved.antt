-- ===== src/Mutations/Planner/Approved.antt =====
-- From the plan of src/intent_engineering/mutations/planner.py over its approval,
-- src/intent_engineering/mutations/approval.py, to the executor, mutations/executor.py.
use intent_engineer.Base.{
  or_inv, ℕ, String, Bool, true, false, not, ◌||◌, ◌+◌, some, List, [], ◌∷◌, ◌≡◌, ◌∙◌, refl, sym,
  ap, subst, arith, any, and_inv, eq_refl, ok, eq→eqb,
}
use intent_engineer.Base.Text.{is_blank}
use intent_engineer.Base.Texts.{elem}
use intent_engineer.Base.Sorted.{sort, sort-sorted_set}
use intent_engineer.Core.Graph.{Instant}
use intent_engineer.Reconcile.Cases.{ReconciliationCase}
use intent_engineer.Storage.Evidence.Access.{same_texts_refl}
use intent_engineer.Storage.Evidence.{same_texts}
use intent_engineer.Mutations.Models.{
  is_flat, has_no_lists, WritePlan, ApprovalRecord, is_plan, plan_hash, same_object,
}
use intent_engineer.Mutations.Authorization.{
  may_approve, authenticated_approval_aliases, approve_plan, approval_of, earlier,
}
use intent_engineer.Mutations.Authorization.Independence.{
  aliases_of_inv, authenticated_inv, approval_within_inv, approve_plan_inv,
}
use intent_engineer.Mutations.Executor.{
  WriteExecutor, is_authorized, has_current_aliases, is_executable,
}
use intent_engineer.Mutations.Planner.{WriteRequest, is_by_contributor, build_write_plan}
use intent_engineer.Mutations.Planner.Current.{build_write_plan-IsCurrent}

not-eq-true : {a : Bool} → not a ≡ true → a ≡ false
not-eq-true h = ground (arith, h)

module _ (self : WriteExecutor) (plan : WritePlan) (actor : String) where
  abbrev may : List String → Bool
  may contributors =
      may_approve self.externals.digests self.externals.binding_hash plan self.binding actor
        contributors self.authorized_approvers

  -- Who the contributors are matters only for the creator.
  may_approve-contributors :
      (known : List String)
      → may (plan.created_by ∷ []) ≡ true
      → any is_blank known ≡ false
      → elem plan.created_by known ≡ true
      → (may known ≡ true)
        × (any is_blank self.authorized_approvers ≡ false)
        × (elem actor self.authorized_approvers ≡ true)
  unfolding may_approve
  may_approve-contributors known h clean there =
      let creator = plan.created_by ∷ [] in
      let (valid, h1) = and_inv (is_plan self.externals.digests plan) _ h in
      let (given, h2) = and_inv (not (is_blank actor)) _ h1 in
      let (named, h3) =
        and_inv (not (any is_blank creator || any is_blank self.authorized_approvers)) _ h2 in
      let (contributes, h4) = and_inv (elem plan.created_by creator) _ h3 in
      let (approves, rest) = and_inv (elem actor self.authorized_approvers) _ h4 in
      let (one, others) = or_inv (any is_blank creator) _ (not-eq-true named) in
      (rw (valid, given, clean, others, there, approves) rest, others, approves)

  authenticated-contributors :
      (xs ys : List String)
      → may xs ≡ true
      → may ys ≡ true
      → authenticated_approval_aliases self.externals.digests self.externals.binding_hash plan
          self.binding actor ys self.authorized_approvers self.identity_aliases
        ≡ authenticated_approval_aliases self.externals.digests self.externals.binding_hash plan
            self.binding actor xs self.authorized_approvers self.identity_aliases
  unfolding authenticated_approval_aliases
  authenticated-contributors xs ys by_xs by_ys = rw (by_xs, by_ys) refl

  -- The aliases that approved are those on record to the executor.
  aliases-current :
      (now ends : Instant) (names : List String)
      → authenticated_approval_aliases self.externals.digests self.externals.binding_hash plan
          self.binding actor
          (plan.created_by ∷ [])
          self.authorized_approvers
          self.identity_aliases
        ≡ some names
      → may self.authorized_contributors ≡ true
      → has_current_aliases self plan (approval_of self.externals.digests plan actor names now ends)
        ≡ true
  unfolding has_current_aliases approval_of
  aliases-current now ends names h allowed =
      let (by_creator, found, no_creator, no_author) =
        authenticated_inv self.externals.digests self.externals.binding_hash plan self.binding actor
          (plan.created_by ∷ []) self.authorized_approvers self.identity_aliases h in
      let (resolved, same, there) = aliases_of_inv self.binding self.identity_aliases actor found in
      let in_order : names ≡ sort names =
        sym same ∙ sym (sort-sorted_set resolved) ∙ ap sort same in
      let known =
        authenticated-contributors (plan.created_by ∷ []) self.authorized_contributors by_creator
          allowed
        ∙ h in
      rw (has_current_aliases, known)
        (subst (λ xs. same_texts names xs ≡ true) in_order (same_texts_refl names))

contributor_inv :
    (self : WriteExecutor) (plan : WritePlan)
    → is_by_contributor plan.created_by self.authorized_contributors ≡ true
    → (any is_blank self.authorized_contributors ≡ false)
      × (elem plan.created_by self.authorized_contributors ≡ true)
unfolding is_by_contributor
contributor_inv self plan h =
    let (given, rest) = and_inv (not (is_blank plan.created_by)) _ h in
    let (clean, there) = and_inv (not (any is_blank self.authorized_contributors)) _ rest in
    (not-eq-true clean, there)

approval-is_authorized :
    (self : WriteExecutor) (plan : WritePlan) (actor : String) (names : List String)
    (now ends : Instant)
    → any is_blank self.authorized_contributors ≡ false
    → elem plan.created_by self.authorized_contributors ≡ true
    → any is_blank self.authorized_approvers ≡ false
    → elem actor self.authorized_approvers ≡ true
    → any is_blank self.authorized_executors ≡ false
    → elem actor self.authorized_executors ≡ true
    → is_authorized self plan (approval_of self.externals.digests plan actor names now ends) actor
      ≡ true
unfolding is_authorized approval_of
approval-is_authorized self plan actor names now ends a b c d e f =
    rw
      (
        a,
        b,
        c,
        d,
        e,
        f,
        eq_refl actor,
        eq_refl plan.id,
        eq_refl (plan_hash self.externals.digests plan),
        eq_refl plan.before_version,
        eq→eqb plan.created_at plan.created_at refl,
        eq→eqb plan.expires_at plan.expires_at refl,
      )
      refl

-- A plan that build_write_plan returned, approved over approve_plan by one who may execute, passes all
-- tests of the executor, provided that the content it plans has no list or object in a field, that its
-- arguments have no list anywhere, and that they equal themselves as JSON.
pub approved-IsExecutable :
    (self : WriteExecutor) (c : ReconciliationCase) (r : WriteRequest) (plan : WritePlan)
    (actor : String) (now : Instant) (expires_in : ℕ) (confirmation : String) (interactive : Bool)
    (a : ApprovalRecord)
    → build_write_plan self.externals self.profile self.binding self.authorized_contributors
        self.identity_aliases c r
      ≡ ok plan
    → is_flat plan.after ≡ true
    → has_no_lists plan.arguments ≡ true
    → same_object plan.arguments plan.arguments ≡ true
    → approve_plan self.externals.digests self.externals.binding_hash plan self.binding actor now
        expires_in confirmation interactive self.authorized_approvers self.identity_aliases
      ≡ some a
    → any is_blank self.authorized_executors ≡ false
    → elem actor self.authorized_executors ≡ true
    → is_executable self plan a actor ≡ true
unfolding is_executable
approved-IsExecutable self c r plan actor now expires_in confirmation interactive a built flat
      listless same approved clean executes =
    let x = build_write_plan-IsCurrent self c r plan built flat listless same in
    let (asked, (names, known, made)) =
      approve_plan_inv self.externals.digests self.externals.binding_hash plan self.binding actor
        now expires_in confirmation interactive self.authorized_approvers self.identity_aliases a
        approved in
    let (same_a, early, late, some_time) =
      approval_within_inv self.externals.digests self.externals.binding_hash plan actor names now
        expires_in a made in
    let ends = earlier (now + expires_in) plan.expires_at in
    let (found, named, apart, apart') =
      authenticated_inv self.externals.digests self.externals.binding_hash plan self.binding actor
        (plan.created_by ∷ []) self.authorized_approvers self.identity_aliases known in
    let (no_blank, contributes) = contributor_inv self plan x.by_contributor in
    let (allowed, no_blank', approves) =
      may_approve-contributors self plan actor self.authorized_contributors found no_blank
        contributes in
    subst (λ b. is_executable self plan b actor ≡ true) (sym same_a)
      (rw
        (
          approval-is_authorized self plan actor names now ends no_blank contributes no_blank'
              approves clean executes,
          x.of_profile,
          x.of_operation,
        )
        (aliases-current self plan actor now ends names known allowed))
