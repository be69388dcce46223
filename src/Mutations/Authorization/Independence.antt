-- ===== src/Mutations/Authorization/Independence.antt =====
-- An approval that src/intent_engineering/mutations/approval.py gives is independent of those who
-- made the plan, and ends in time.
use intent_engineer.Base.{
  ℕ, String, Bool, true, false, not, ◌&&◌, ◌||◌, ◌+◌, ◌≤◌, ◌<◌, Option, none, some, List, [], ◌∷◌,
  ◌≡◌, sym, ap, subst, ◌∙◌, arith, inl, inr, Option-cases, all, any, ltb, leb, leb→le, if_some,
  if_none, and_inv, some_inj, none-ne-some, eq_iff,
}
use intent_engineer.Base.Text.{is_blank}
use intent_engineer.Base.Texts.{elem, Apart, intersects, intersects_iff}
use intent_engineer.Base.Sorted.{sort, sorted_set, elem-sort, elem-sorted_set}
use intent_engineer.Base.Dict.{Dict, lookup}
use intent_engineer.Core.Graph.{Instant}
use intent_engineer.Mutations.Texts.{joined}
use intent_engineer.Mutations.Models.{
  WritePlan, ApprovalRecord, Digests, is_plan, is_approval, max_window,
}
use intent_engineer.Mutations.Profile.{ProviderBinding}
use intent_engineer.Mutations.Authorization.{
  identity_aliases_for, principals_of, aliases_of, may_approve, is_independent,
  authenticated_approval_aliases, is_confirmed, earlier, approval_of, approval_within, approve_plan,
}

-- The aliases of an actor are in order and name the actor.
pub aliases_of_inv :
    (binding : ProviderBinding) (aliases : Dict (List String)) (actor : String)
    {names : List String}
    → aliases_of binding aliases actor ≡ some names
    → (resolved : List String) × (sorted_set resolved ≡ names) × (elem actor resolved ≡ true)
unfolding aliases_of identity_aliases_for
aliases_of_inv binding aliases actor {names} h = elim (Option-cases (principals_of binding actor)) [
  | inl none_there ↦ absurd (ground (arith, h, none_there))
  | inr (ps, there) ↦ elim (Option-cases (lookup actor aliases)) [
    | inl none_there ↦ absurd (ground (arith, h, there, none_there))
    | inr (resolved, known) ↦
        let (ok, made) =
          if_none
            (any is_blank resolved
              || not (elem actor resolved)
              || not (all (λ p. elem p resolved) ps))
            (some (sorted_set resolved)) {a = names} (ground (arith, h, there, known)) in
        (resolved, cc made, ground (arith, ok))
  ]
]

elem-aliases_of :
    (binding : ProviderBinding) (aliases : Dict (List String)) (actor : String)
    {names : List String}
    → aliases_of binding aliases actor ≡ some names
    → elem actor names ≡ true
elem-aliases_of binding aliases actor h =
    let (resolved, same, there) = aliases_of_inv binding aliases actor h in
    ap (elem actor) (sym same) ∙ elem-sorted_set actor resolved ∙ there

times_of_tests :
    (b c : Bool) (now start end expiry : ℕ) (e : Bool)
    → (b || c || ltb now start || leb end now || leb expiry now || e) ≡ false
    → (start ≤ now) × (now < end) × (now < expiry)
times_of_tests b c now start end expiry e h = (ground arith, ground arith, ground arith)

-- What an approval says of the one who gave it.
pub record IsIndependentApproval (plan : WritePlan) (actor confirmation : String)
    (interactive : Bool) (approvers : List String) (a : ApprovalRecord) : Type 0 where
  pub of_plan : a.plan_id ≡ plan.id
  pub of_version : a.target_version ≡ plan.before_version
  pub given_by : a.actor ≡ actor
  pub authorised : elem actor approvers ≡ true
  pub named : elem actor a.actor_aliases ≡ true
  pub apart_from_creator : Apart a.actor_aliases plan.created_by_aliases
  pub apart_from_authors : Apart a.actor_aliases plan.conflicting_authors
  pub confirmed : (confirmation ≡ joined "approve " plan.id) × (interactive ≡ true)

-- The time in which an approval holds.
pub record IsTimely (plan : WritePlan) (now : Instant) (expires_in : ℕ) (a : ApprovalRecord)
    : Type 0 where
  pub given_at : a.approved_at ≡ now
  pub in_plan : (plan.created_at ≤ now) × (now < plan.expires_at)
  pub some_time : now < a.expires_at
  pub as_asked : a.expires_at ≤ now + expires_in
  pub at_most : a.expires_at ≤ now + max_window
  pub not_beyond : a.expires_at ≤ plan.expires_at

earlier-le : (a b : ℕ) → (earlier a b ≤ a) × (earlier a b ≤ b)
earlier-le a b = (ground arith, ground arith)

Apart-sort : (xs ys : List String) → Apart xs ys → Apart (sort xs) ys
Apart-sort xs ys apart k there = apart k (sym (elem-sort k xs) ∙ there)

confirmed_of :
    (plan : WritePlan) (actor : String) (expires_in : ℕ) (confirmation : String)
    (interactive : Bool) (approvers : List String)
    → is_confirmed plan actor expires_in confirmation interactive approvers ≡ true
    → (expires_in ≤ max_window) × (interactive ≡ true) × (confirmation ≡ joined "approve " plan.id)
unfolding is_confirmed
confirmed_of plan actor expires_in confirmation interactive approvers h =
    let (actor_given, h1) = and_inv _ _ h in
    let (some_time, h2) = and_inv _ _ h1 in
    let (short, h3) = and_inv _ _ h2 in
    let (at_terminal, h4) = and_inv _ _ h3 in
    let (text, known) = and_inv _ _ h4 in
    (leb→le expires_in max_window short, at_terminal, (eq_iff _ _).0 text)

approver_of :
    (digests : Digests) (binding_hash : ProviderBinding → String) (plan : WritePlan)
    (binding : ProviderBinding) (actor : String) (contributors approvers : List String)
    → may_approve digests binding_hash plan binding actor contributors approvers ≡ true
    → elem actor approvers ≡ true
unfolding may_approve
approver_of digests binding_hash plan binding actor contributors approvers h =
    let (valid, h1) = and_inv (is_plan digests plan) _ h in
    let (given, h2) = and_inv (not (is_blank actor)) _ h1 in
    let (policies, h3) = and_inv (not (any is_blank contributors || any is_blank approvers)) _ h2 in
    let (contributor, h4) = and_inv (elem plan.created_by contributors) _ h3 in
    (and_inv (elem actor approvers) _ h4).0

module _ (digests : Digests) (binding_hash : ProviderBinding → String) where
  pub authenticated_inv :
      (plan : WritePlan) (binding : ProviderBinding) (actor : String)
      (contributors approvers : List String) (aliases : Dict (List String)) {names : List String}
      → authenticated_approval_aliases digests binding_hash plan binding actor contributors
          approvers aliases
        ≡ some names
      → (may_approve digests binding_hash plan binding actor contributors approvers ≡ true)
        × (aliases_of binding aliases actor ≡ some names)
        × Apart names plan.created_by_aliases
        × Apart names plan.conflicting_authors
  unfolding authenticated_approval_aliases is_independent
  authenticated_inv plan binding actor contributors approvers aliases {names} h =
      let (may, h1) =
        if_some (may_approve digests binding_hash plan binding actor contributors approvers) _ h in
      elim (Option-cases (aliases_of binding aliases plan.created_by)) [
        | inl unknown ↦ absurd (ground (arith, h1, unknown))
        | inr (creator, known) ↦ elim (Option-cases (aliases_of binding aliases actor)) [
          | inl unknown ↦ absurd (ground (arith, h1, known, unknown))
          | inr (found, named) ↦
              let (apart, same) =
                if_some (is_independent plan creator found) (some found) {a = names}
                  (ground (arith, h1, known, named)) in
              let e : found ≡ names = cc same in
              (
                may,
                named ∙ same,
                subst (λ names. Apart names plan.created_by_aliases) e
                    ((intersects_iff found plan.created_by_aliases).0 (ground (arith, apart))),
                subst (λ names. Apart names plan.conflicting_authors) e
                    ((intersects_iff found plan.conflicting_authors).0 (ground (arith, apart))),
              )
        ]
      ]

  pub approval_within_inv :
      (plan : WritePlan) (actor : String) (aliases : List String) (now : Instant) (expires_in : ℕ)
      (a : ApprovalRecord)
      → approval_within digests plan actor aliases now expires_in ≡ some a
      → (a
          ≡ approval_of digests plan actor aliases now (earlier (now + expires_in) plan.expires_at))
        × (plan.created_at ≤ now)
        × (now < plan.expires_at)
        × (now < earlier (now + expires_in) plan.expires_at)
  unfolding approval_within
  approval_within_inv plan actor aliases now expires_in a h =
      let ends = earlier (now + expires_in) plan.expires_at in
      let made = approval_of digests plan actor aliases now ends in
      let (tests, same) =
        if_none
          (intersects aliases plan.created_by_aliases
            || intersects aliases plan.conflicting_authors
            || ltb now plan.created_at
            || leb plan.expires_at now
            || leb ends now
            || not (is_approval digests made))
          (some made) h in
      let times =
        times_of_tests (intersects aliases plan.created_by_aliases)
          (intersects aliases plan.conflicting_authors) now plan.created_at plan.expires_at ends
          (not (is_approval digests made)) tests in
      (sym (some_inj same), times.0, times.1, times.2)

  module _ (plan : WritePlan) (binding : ProviderBinding) (actor : String) (now : Instant)
      (expires_in : ℕ) (confirmation : String) (interactive : Bool) (approvers : List String)
      (aliases : Dict (List String)) (a : ApprovalRecord)
      (approved : approve_plan digests binding_hash plan binding actor now expires_in confirmation
          interactive approvers aliases
        ≡ some a) where
    pub approve_plan_inv :
        (is_confirmed plan actor expires_in confirmation interactive approvers ≡ true)
        × ((names : List String) × (authenticated_approval_aliases digests binding_hash plan binding
                actor
                (plan.created_by ∷ [])
                approvers
                aliases
              ≡ some names)
            × (approval_within digests plan actor names now expires_in ≡ some a))
    unfolding approve_plan
    approve_plan_inv =
        let test =
          is_plan digests plan
          && is_confirmed plan actor expires_in confirmation interactive approvers in
        let authenticated =
          authenticated_approval_aliases digests binding_hash plan binding actor
            (plan.created_by ∷ []) approvers aliases in
        let then_within : Option (List String) → Option ApprovalRecord = λ o. elim o [
          | none ↦ none
          | some names ↦ approval_within digests plan actor names now expires_in
        ] in
        let (tests, made) = if_some test (then_within authenticated) approved in
        elim (Option-cases authenticated) [
          | inl refused ↦ absurd (none-ne-some (ap then_within (sym refused) ∙ made))
          | inr (names, known) ↦ (
            (and_inv (is_plan digests plan)
                (is_confirmed plan actor expires_in confirmation interactive approvers) tests).1,
            (names, known, ap then_within (sym known) ∙ made),
          )
        ]

    -- Every approval that approve_plan gives names the plan and its target version, was confirmed at
    -- a terminal with the identity of the plan, is given by an authorised approver, and none of the
    -- names of the approver, who is among them, is one of the creator's or of a conflicting author's.
    pub approve_plan-IsIndependentApproval :
        IsIndependentApproval plan actor confirmation interactive approvers a
    unfolding approval_of
    approve_plan-IsIndependentApproval =
        let (asked, (names, known, made)) = approve_plan_inv in
        let (short, at_terminal, text) =
          confirmed_of plan actor expires_in confirmation interactive approvers asked in
        let (may, found, no_creator, no_author) =
          authenticated_inv plan binding actor (plan.created_by ∷ []) approvers aliases known in
        let (same, early, late, open_for) =
          approval_within_inv plan actor names now expires_in a made in
        let there = ap (λ (r : ApprovalRecord). r.actor_aliases) same in
        record {
          of_plan = ap (λ (r : ApprovalRecord). r.plan_id) same;
          of_version = ap (λ (r : ApprovalRecord). r.target_version) same;
          given_by = ap (λ (r : ApprovalRecord). r.actor) same;
          authorised =
              approver_of digests binding_hash plan binding actor (plan.created_by ∷ []) approvers
                may;
          named =
              ap (elem actor) there
              ∙ elem-sort actor names
              ∙ elem-aliases_of binding aliases actor found;
          apart_from_creator =
              subst (λ xs. Apart xs plan.created_by_aliases) (sym there)
                (Apart-sort names plan.created_by_aliases no_creator);
          apart_from_authors =
              subst (λ xs. Apart xs plan.conflicting_authors) (sym there)
                (Apart-sort names plan.conflicting_authors no_author);
          confirmed = (text, at_terminal);
        }

    -- Every approval that approve_plan gives begins when it is given, inside the window of the plan,
    -- lasts for some time, and ends no later than asked, than 15 minutes on and than the plan.
    pub approve_plan-IsTimely : IsTimely plan now expires_in a
    unfolding approval_of
    approve_plan-IsTimely =
        let (asked, (names, known, made)) = approve_plan_inv in
        let (short, at_terminal, text) =
          confirmed_of plan actor expires_in confirmation interactive approvers asked in
        let (same, early, late, open_for) =
          approval_within_inv plan actor names now expires_in a made in
        let end : a.expires_at ≡ earlier (now + expires_in) plan.expires_at =
          ap (λ (r : ApprovalRecord). r.expires_at) same in
        let (asked_for, planned) = earlier-le (now + expires_in) plan.expires_at in
        record {
          given_at = ap (λ (r : ApprovalRecord). r.approved_at) same;
          in_plan = (early, late);
          some_time = rw end open_for;
          as_asked = rw end asked_for;
          at_most = omega (arith, end, asked_for, short);
          not_beyond = rw end planned;
        }
