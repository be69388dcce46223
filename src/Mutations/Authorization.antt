-- ===== src/Mutations/Authorization.antt =====
-- Who may approve an external write: `identity_aliases_for` of
-- src/intent_engineering/mutations/models.py, mutations/authorization.py and mutations/approval.py.
pub mod Independence
use intent_engineer.Base.{
  ℕ, String, Bool, true, false, not, ◌&&◌, ◌||◌, ◌+◌, Option, none, some, List, [], ◌∷◌, ◌==◌, ltb,
  leb, all, any, is_empty, if◌then◌else◌,
}
use intent_engineer.Base.Text.{is_blank}
use intent_engineer.Base.Texts.{elem, intersects}
use intent_engineer.Base.Sorted.{sort, sorted_set}
use intent_engineer.Base.Dict.{Dict, lookup}
use intent_engineer.Core.Graph.{Instant}
use intent_engineer.Storage.Evidence.{same_texts}
use intent_engineer.Mutations.Texts.{joined}
use intent_engineer.Mutations.Models.{
  WritePlan, ApprovalRecord, Digests, plan_hash, approval_hash, is_plan, is_approval, max_window,
}
use intent_engineer.Mutations.Profile.{ProviderBinding}

-- `none` where it raises
unfoldable pub identity_aliases_for :
    Dict (List String) → String → List String → Option (List String)
unfolding is_blank sorted_set
identity_aliases_for aliases actor principals = elim (lookup actor aliases) [
  | none ↦ none
  | some resolved ↦
      if any is_blank resolved
        || not (elem actor resolved)
        || not (all (λ principal. elem principal resolved) principals)
      then none
      else some (sorted_set resolved)
]

-- The principals of an actor, where there are any.
unfoldable pub principals_of : ProviderBinding → String → Option (List String)
principals_of binding actor = elim (lookup actor binding.actor_principals) [
  | none ↦ none
  | some [] ↦ none
  | some (p ∷ ps) ↦ some (p ∷ ps)
]

-- The aliases that are on record for an actor with principals.
unfoldable pub aliases_of : ProviderBinding → Dict (List String) → String → Option (List String)
unfolding principals_of identity_aliases_for
aliases_of binding aliases actor = elim (principals_of binding actor) [
  | none ↦ none
  | some principals ↦ identity_aliases_for aliases actor principals
]

-- Whether the aliases are those of the creator, and the approver shares none.
unfoldable pub is_independent : WritePlan → List String → List String → Bool
is_independent plan creator_aliases actor_aliases =
    same_texts creator_aliases plan.created_by_aliases
    && not (
        intersects actor_aliases plan.created_by_aliases
        || intersects actor_aliases plan.conflicting_authors)

-- The tests of `_approval_result` on what the approver gives.
unfoldable pub is_confirmed : WritePlan → String → ℕ → String → Bool → List String → Bool
unfolding is_blank
is_confirmed plan actor expires_in confirmation interactive approvers =
    not (is_blank actor)
    && (ltb 0 expires_in
        && (leb expires_in max_window
            && (interactive
                && (confirmation == joined "approve " plan.id && not (any is_blank approvers)))))

abbrev pub earlier : Instant → Instant → Instant
earlier a b = if leb a b then a else b

module _ (digests : Digests) where
  -- The record with the fields of `_approval_result`.
  unfoldable pub approval_of : WritePlan → String → List String → Instant → Instant → ApprovalRecord
  unfolding plan_hash approval_hash
  approval_of plan actor aliases approved_at expires_at =
      let material : ApprovalRecord = record {
        id = "";
        plan_id = plan.id;
        plan_hash = plan_hash digests plan;
        target_version = plan.before_version;
        actor = actor;
        actor_aliases = sort aliases;
        plan_created_at = plan.created_at;
        plan_expires_at = plan.expires_at;
        approved_at = approved_at;
        expires_at = expires_at;
      } in
      record material { id = joined "approval:" (approval_hash digests material) }

  -- What follows the authentication.
  unfoldable pub approval_within :
      WritePlan → String → List String → Instant → ℕ → Option ApprovalRecord
  unfolding approval_of is_approval
  approval_within plan actor aliases now expires_in =
      let expires_at = earlier (now + expires_in) plan.expires_at in
      let made = approval_of plan actor aliases now expires_at in
      if intersects aliases plan.created_by_aliases
        || intersects aliases plan.conflicting_authors
        || ltb now plan.created_at
        || leb plan.expires_at now
        || leb expires_at now
        || not (is_approval digests made)
      then none
      else some made

module _ (digests : Digests) (binding_hash : ProviderBinding → String) where
  -- The first test of `authenticated_approval_aliases`.
  unfoldable pub may_approve :
      WritePlan → ProviderBinding → String → List String → List String → Bool
  unfolding is_blank is_plan
  may_approve plan binding actor contributors approvers =
      is_plan digests plan
      && (not (is_blank actor)
          && (not (any is_blank contributors || any is_blank approvers)
              && (elem plan.created_by contributors
                  && (elem actor approvers
                      && (not (actor == plan.created_by || elem actor plan.conflicting_authors)
                          && (binding.profile_id == plan.profile_id
                              && (binding.profile_version == plan.profile_version
                                  && binding_hash binding == plan.binding_hash)))))))

  unfoldable pub authenticated_approval_aliases :
      WritePlan
      → ProviderBinding
      → String
      → List String
      → List String
      → Dict (List String)
      → Option (List String)
  unfolding may_approve aliases_of is_independent
  authenticated_approval_aliases plan binding actor contributors approvers aliases =
      if may_approve plan binding actor contributors approvers
      then elim (aliases_of binding aliases plan.created_by) [
        | none ↦ none
        | some creator_aliases ↦ elim (aliases_of binding aliases actor) [
          | none ↦ none
          | some actor_aliases ↦
              if is_independent plan creator_aliases actor_aliases then some actor_aliases else none
        ]
      ]
      else none

  -- `_approval_result`, which `approve_plan` returns or raises `ApprovalError` for `none`
  unfoldable pub approve_plan :
      WritePlan
      → ProviderBinding
      → String
      → Instant
      → ℕ
      → String
      → Bool
      → List String
      → Dict (List String)
      → Option ApprovalRecord
  unfolding is_confirmed authenticated_approval_aliases approval_within is_plan
  approve_plan plan binding actor now expires_in confirmation interactive approvers aliases =
      if is_plan digests plan
        && is_confirmed plan actor expires_in confirmation interactive approvers
      then elim (authenticated_approval_aliases plan binding actor (plan.created_by ∷ []) approvers
          aliases) [
            | none ↦ none
            | some authenticated ↦ approval_within digests plan actor authenticated now expires_in
          ]
      else none
