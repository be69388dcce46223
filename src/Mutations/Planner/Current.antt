-- ===== src/Mutations/Planner/Current.antt =====
-- A plan of src/intent_engineering/mutations/planner.py at the tests of
-- src/intent_engineering/mutations/executor.py.
use intent_engineer.Base.{
  ◌&&◌, true-ne-false, String, Bool, true, false, not, Option, none, some, List, [], ◌∷◌, ◌≡◌, ◌==◌,
  ◌∙◌, refl, sym, ap, arith, inl, inr, Bool-cases, eq_iff, eq_refl, if-true, if-false,
  if◌then◌else◌, Result, ok, ◌>>=◌, ◌>>◌, raise_if-eq-ok, ok_inj, some_inj, err-ne-ok, not_inv,
  and_inv,
}
use intent_engineer.Base.Texts.{elem}
use intent_engineer.Base.Dict.{Dict, lookup}
use intent_engineer.Reconcile.Cases.{ReconciliationCase}
use intent_engineer.Storage.Evidence.{JsonValue, JsonFields, no_fields, add_field}
use intent_engineer.Storage.EvidenceLog.{find_field}
use intent_engineer.Mutations.Models.{is_flat, has_no_lists, WritePlan, is_plan, same_object}
use intent_engineer.Mutations.Profile.{
  WriteOperationProfile, is_bound_to, bind_arguments, write_fields, active_arguments,
}
use intent_engineer.Mutations.Authorization.{principals_of, identity_aliases_for}
use intent_engineer.Mutations.Executor.{
  WriteExecutor, has_current_profile, has_current_contract, has_current_arguments,
  has_current_operation,
}
use intent_engineer.Mutations.Planner.{
  WritePlanError, demand, given, has_keys_in, set_field, updated, are_named, WriteRequest,
  is_of_profile, is_by_contributor, is_admissible, is_in_scope, context_of, plan_of,
  build_write_plan,
}

demand_inv :
    {A : Type 0} (test : Bool) (next : Result WritePlanError A) {a : A}
    → (demand test >> next) ≡ ok a
    → (test ≡ true) × (next ≡ ok a)
demand_inv test next h =
    let (held, rest) = raise_if-eq-ok (not test) _ next h in (not_inv test held, rest)

given_inv :
    {A B : Type 0} (o : Option A) (next : A → Result WritePlanError B) {b : B}
    → (given o >>= next) ≡ ok b
    → (a : A) × (o ≡ some a) × (next a ≡ ok b)
given_inv none next h = absurd (err-ne-ok h)
given_inv (some a) next h = (a, refl, h)

find-set_field :
    (f k : String) (v : JsonValue) (fields : JsonFields)
    → find_field f (set_field k v fields) ≡ (if k == f then some v else find_field f fields)
find-set_field f k v no_fields = refl
find-set_field f k v (add_field j w fields) =
    ground (arith, eq_iff k f, eq_iff j k, eq_iff j f, find-set_field f k v fields)

other_of_elem :
    (k f : String) (xs : List String) → elem k xs ≡ true → elem f xs ≡ false → (k == f) ≡ false
other_of_elem k f xs there missing = elim (Bool-cases (k == f)) [
  | inr other ↦ other
  | inl same ↦
      absurd (true-ne-false (sym there ∙ ap (λ i. elem i xs) ((eq_iff k f).0 same) ∙ missing))
]

-- A field that may not be written keeps its value.
find-updated :
    (f : String) (allowed : List String) (old requested : JsonFields)
    → has_keys_in requested allowed ≡ true
    → elem f allowed ≡ false
    → find_field f (updated old requested) ≡ find_field f old
find-updated f allowed old no_fields h other = refl
find-updated f allowed old (add_field k v requested) h other =
    let differs : (k == f) ≡ false = other_of_elem k f allowed (ground (arith, h)) other in
    find-updated f allowed (set_field k v old) requested (ground (arith, h)) other
    ∙ find-set_field f k v old
    ∙ rw differs refl

named_lookup :
    (name : String) (writes : Dict WriteOperationProfile) (operation : WriteOperationProfile)
    → are_named writes ≡ true
    → lookup name writes ≡ some operation
    → operation.semantic_name ≡ name
named_lookup name [] operation h found = cc
named_lookup name ((k, o) ∷ writes) operation h found = elim (Bool-cases (k == name)) [
  | inl same ↦
      ap (λ (w : WriteOperationProfile). w.semantic_name)
        (sym (some_inj (if-true _ _ _ same found)))
      ∙ sym ((eq_iff k o.semantic_name).0 (ground (arith, h)))
      ∙ (eq_iff k name).0 same
  | inr other ↦ named_lookup name writes operation (ground (arith, h)) (if-false _ _ _ other found)
]

-- What has been tested where a plan was built.
record IsBuilt (self : WriteExecutor) (c : ReconciliationCase) (r : WriteRequest) (plan : WritePlan)
    : Type 0 where
  operation : WriteOperationProfile
  tool : String
  arguments : JsonFields
  aliases : List String
  admissible : is_admissible self.profile self.binding self.authorized_contributors c r ≡ true
  known : lookup r.operation self.profile.writes ≡ some operation
  in_scope : is_in_scope self.profile c r operation ≡ true
  conforming :
      self.externals.conforms operation.input_schema
        (write_fields operation.allowed_fields (updated r.current.content r.fields))
      ≡ true
  bound :
      bind_arguments
        (active_arguments
          (write_fields operation.allowed_fields (updated r.current.content r.fields))
          operation.arguments)
        (context_of r.current
          (write_fields operation.allowed_fields (updated r.current.content r.fields)))
      ≡ some arguments
  named : lookup r.operation self.binding.tools ≡ some tool
  valid : is_plan self.externals.digests plan ≡ true
  made :
      plan
      ≡ plan_of self.externals self.profile self.binding c r operation tool
          (updated r.current.content r.fields)
          arguments
          aliases

IsBuilt-of_ok :
    (self : WriteExecutor) (c : ReconciliationCase) (r : WriteRequest) (plan : WritePlan)
    → build_write_plan self.externals self.profile self.binding self.authorized_contributors
        self.identity_aliases c r
      ≡ ok plan
    → IsBuilt self c r plan
unfolding build_write_plan
IsBuilt-of_ok self c r plan h =
    let (admissible, h1) =
      demand_inv (is_admissible self.profile self.binding self.authorized_contributors c r) _ h in
    let (principals, has_principals, h2) = given_inv (principals_of self.binding r.actor) _ h1 in
    let (operation, known, h3) = given_inv (lookup r.operation self.profile.writes) _ h2 in
    let (fit, h4) =
      demand_inv (is_in_scope self.profile c r operation && is_flat r.current.content) _ h3 in
    let (in_scope, flat) = and_inv (is_in_scope self.profile c r operation) _ fit in
    let after = updated r.current.content r.fields in
    let to_write = write_fields operation.allowed_fields after in
    let (changes, h5) = demand_inv (not (same_object after r.current.content)) _ h4 in
    let (conforming, h6) =
      demand_inv (self.externals.conforms operation.input_schema to_write) _ h5 in
    let (arguments, bound, h7) =
      given_inv
        (bind_arguments (active_arguments to_write operation.arguments)
          (context_of r.current to_write))
        _ h6 in
    let (tool, named, h8) = given_inv (lookup r.operation self.binding.tools) _ h7 in
    let (aliases, resolved, h9) =
      given_inv (identity_aliases_for self.identity_aliases r.actor principals) _ h8 in
    let made =
      plan_of self.externals self.profile self.binding c r operation tool after arguments aliases in
    let (valid, same) = demand_inv (is_plan self.externals.digests made) _ h9 in
    record {
      operation = operation;
      tool = tool;
      arguments = arguments;
      aliases = aliases;
      admissible = admissible;
      known = known;
      in_scope = in_scope;
      conforming = conforming;
      bound = bound;
      named = named;
      valid = ap (is_plan self.externals.digests) (sym (ok_inj same)) ∙ valid;
      made = sym (ok_inj same);
    }

module _ (self : WriteExecutor) (c : ReconciliationCase) (r : WriteRequest) (plan : WritePlan)
    (x : IsBuilt self c r plan) where
  abbrev after : JsonFields
  after = updated r.current.content r.fields

  abbrev planned : WritePlan
  planned =
      plan_of self.externals self.profile self.binding c r x.operation x.tool after x.arguments
        x.aliases

  equal_texts : (a b : String) → (a == b) ≡ true → (b == a) ≡ true
  equal_texts a b h = (eq_iff b a).1 (sym ((eq_iff a b).0 h))

  -- The parts of the first test that the executor asks for too.
  admitted :
      (are_named self.profile.writes ≡ true)
      × (is_bound_to self.profile self.binding ≡ true)
      × ((r.current.profile_id == self.profile.id) ≡ true)
      × ((r.current.profile_version == self.profile.version) ≡ true)
  unfolding is_admissible is_of_profile
  admitted =
      let (fits, rest) =
        and_inv (is_of_profile self.profile self.binding r.current) _ x.admissible in
      let (named, h1) = and_inv (are_named self.profile.writes) _ fits in
      let (bound, h2) = and_inv (is_bound_to self.profile self.binding) _ h1 in
      let (id, version) = and_inv (r.current.profile_id == self.profile.id) _ h2 in
      (named, bound, id, version)

  planned-by_contributor : is_by_contributor r.actor self.authorized_contributors ≡ true
  unfolding is_admissible
  planned-by_contributor =
      let (fits, rest) =
        and_inv (is_of_profile self.profile self.binding r.current) _ x.admissible in
      (and_inv (is_by_contributor r.actor self.authorized_contributors) _ rest).0

  planned-has_current_profile : has_current_profile self planned ≡ true
  unfolding has_current_profile plan_of
  planned-has_current_profile =
      let (named, bound, id, version) = admitted in
      rw
        (
          bound,
          equal_texts r.current.profile_id self.profile.id id,
          equal_texts r.current.profile_version self.profile.version version,
          eq_refl (self.externals.binding_hash self.binding),
        )
        refl

  named_so : x.operation.semantic_name ≡ r.operation
  named_so = named_lookup r.operation self.profile.writes x.operation admitted.0 x.known

  planned-has_current_contract : has_current_contract self planned x.operation x.tool ≡ true
  unfolding has_current_contract is_in_scope plan_of
  planned-has_current_contract =
      let contract = λ (name : String). self.externals.contract_hash (record {
        profile_id = self.profile.id;
        profile_version = self.profile.version;
        semantic_name = name;
        provider_operation = x.tool;
        operation = x.operation;
      }) in
      ground (
        arith,
        x.in_scope,
        equal_texts r.current.object_type x.operation.target_object,
        eq_refl planned.target_ref,
        eq_refl x.tool,
        (eq_iff (contract x.operation.semantic_name) (contract r.operation)).1
            (ap contract named_so),
      )

  -- Whether the content and the arguments stay equal to themselves where they are frozen.
  abbrev IsDetachable : Type 0
  IsDetachable =
      (is_flat after ≡ true)
      × (has_no_lists x.arguments ≡ true)
      × (same_object x.arguments x.arguments ≡ true)

  planned-has_current_arguments :
      IsDetachable → has_current_arguments self planned x.operation ≡ true
  unfolding has_current_arguments plan_of
  planned-has_current_arguments (flat, listless, same) =
      rw (flat, x.conforming, x.bound) (rw (same, listless) refl)

  planned-has_current_operation : IsDetachable → has_current_operation self planned ≡ true
  unfolding has_current_operation plan_of
  planned-has_current_operation same =
      let known = ap (λ name. lookup name self.profile.writes) named_so ∙ x.known in
      let named = ap (λ name. lookup name self.binding.tools) named_so ∙ x.named in
      rw (has_current_operation, known, named)
        (rw (planned-has_current_contract, planned-has_current_arguments same) refl)

-- What a plan is to the executor of the same profile and binding: it is valid and by a contributor, profile, binding,
-- contract and arguments are as they were planned, and it leaves the fields that the operation does not
-- allow as they are.
pub record IsCurrent (self : WriteExecutor) (r : WriteRequest) (plan : WritePlan) : Type 0 where
  pub valid : is_plan self.externals.digests plan ≡ true
  pub by_contributor : is_by_contributor plan.created_by self.authorized_contributors ≡ true
  pub of_profile : has_current_profile self plan ≡ true
  pub of_operation : has_current_operation self plan ≡ true
  pub keeps :
      (operation : WriteOperationProfile) × (lookup r.operation self.profile.writes
        ≡ some operation)
      × ((f : String)
          → elem f operation.allowed_fields ≡ false
          → find_field f plan.after ≡ find_field f plan.before)

-- A plan that build_write_plan returns is valid, by an authorised contributor, passes the tests of the executor on profile, binding,
-- contract and arguments, and changes no field of the target that the operation does not allow;
-- provided that the content it plans has no list or object in a field, that its arguments have no list
-- anywhere, and that they equal themselves as JSON.
pub build_write_plan-IsCurrent :
    (self : WriteExecutor) (c : ReconciliationCase) (r : WriteRequest) (plan : WritePlan)
    → build_write_plan self.externals self.profile self.binding self.authorized_contributors
        self.identity_aliases c r
      ≡ ok plan
    → is_flat plan.after ≡ true
    → has_no_lists plan.arguments ≡ true
    → same_object plan.arguments plan.arguments ≡ true
    → IsCurrent self r plan
unfolding plan_of is_in_scope
build_write_plan-IsCurrent self c r plan h flat listless same =
    let x = IsBuilt-of_ok self c r plan h in
    let back = sym x.made in
    let arguments = ap (λ (p : WritePlan). p.arguments) x.made in
    record {
      valid = x.valid;
      by_contributor =
          ap (λ (p : WritePlan). is_by_contributor p.created_by self.authorized_contributors) x.made
          ∙ planned-by_contributor self c r plan x;
      of_profile =
          ap (has_current_profile self) x.made ∙ planned-has_current_profile self c r plan x;
      of_operation =
          ap (has_current_operation self) x.made
          ∙ planned-has_current_operation self c r plan x (
            ap (λ (p : WritePlan). is_flat p.after) back ∙ flat,
            ap (λ (a : JsonFields). has_no_lists a) (sym arguments) ∙ listless,
            ap (λ (a : JsonFields). same_object a a) (sym arguments) ∙ same,
          );
      keeps = (
        x.operation,
        x.known,
        λ f other.
            ap (λ (p : WritePlan). find_field f p.after) x.made
            ∙ find-updated f x.operation.allowed_fields r.current.content r.fields
                (ground (arith, x.in_scope)) other
            ∙ ap (λ (p : WritePlan). find_field f p.before) (sym x.made),
      );
    }
