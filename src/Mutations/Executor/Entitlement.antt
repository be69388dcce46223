-- ===== src/Mutations/Executor/Entitlement.antt =====
-- What a run of src/intent_engineering/mutations/executor.py is entitled to by the claims that it has won, and what its steps take of that.
use intent_engineer.Base.{
  ℕ, Bool, true, false, Option, List, [], ◌∷◌, ◌++◌, ◌+◌, ◌≤◌, ◌≡◌, ◌⊎◌, refl, ap, subst, arith,
  inl, inr, Bool-cases, Result, ok, >>=-eq-ok, ok_inj,
}
use intent_engineer.Base.Dict.Pairs.{Key, same_key, same_key-eq}
use intent_engineer.Storage.Receipts.{
  Claim, claim_key, claim_line, File, ReceiptStoreError, get_for, claim, complete,
}
use intent_engineer.Storage.Receipts.Decoding.{one_if, count_claims}
use intent_engineer.Storage.Receipts.Settled.{count_claims-append}
use intent_engineer.Storage.Receipts.Methods.{claim-ok, complete-grows}
use intent_engineer.Mutations.Models.{ExecutionReceipt, RemoteObject, WriteResult, Digests}
use intent_engineer.Mutations.Executor.Program.{
  ProviderAnswer, StoreAnswer, stored, unavailable, aborted, Program, finished, get_receipt,
  read_inputs, claim_write, complete_write, fetch_target, execute_operation, commit_success,
}
use intent_engineer.Mutations.Executor.Pool.{
  Call, count_calls, Answers, works, raises, raises_late, aborts, aborts_late, commit_receipt,
  look_up, RunStep, reads, looks, claims, completes, fetches, executes, commits,
}

-- What a claim that is won entitles to.
abbrev pub gained : Key → Claim → StoreAnswer Bool → ℕ
gained key c (stored true) = one_if (same_key (claim_key c) key)
gained key c _ = 0

-- With `n` entitlements for a key the run makes no call under it without one.
abbrev pub Spends : Key → ℕ → Program → Type 0
Spends key n (finished o) = Unit
Spends key n (read_inputs p a next) = (x : StoreAnswer Unit) → Spends key n (next x)
Spends key n (get_receipt p a next) =
    (x : StoreAnswer (Option ExecutionReceipt)) → Spends key n (next x)
Spends key n (claim_write c next) =
    (x : StoreAnswer Bool) → Spends key (n + gained key c x) (next x)
Spends key n (complete_write r next) = (x : StoreAnswer Bool) → Spends key n (next x)
Spends key n (fetch_target plan next) = (x : ProviderAnswer RemoteObject) → Spends key n (next x)
Spends key n (execute_operation plan approval operation arguments next) =
    (m : ℕ) × (n ≡ one_if (same_key (plan.id, approval.id) key) + m)
    × ((x : ProviderAnswer WriteResult) → Spends key m (next x))
Spends key n (commit_success r plan approval result next) =
    (x : StoreAnswer Unit) → Spends key n (next x)

-- The entitlements are shared out among the runs.
abbrev pub Funded : Key → ℕ → List Program → Type 0
Funded key n [] = Unit
Funded key n (run ∷ runs) = (a : ℕ) × (b : ℕ) × (n ≡ a + b) × Spends key a run × Funded key b runs

-- Claims are never taken back, and a second one is never added.
abbrev pub Grows : Key → File → File → Type 0
Grows key file file' =
    (count_claims key file ≤ count_claims key file')
    × ((count_claims key file' ≡ count_claims key file) ⊎ (count_claims key file' ≤ 1))

Grows-refl : (key : Key) (file : File) → Grows key file file
Grows-refl key file = (omega arith, inl refl)

Answers-Grows :
    {A : Type 0} (key : Key) (file file' : File) (result : Result ReceiptStoreError (A × File))
    (x : StoreAnswer A)
    → ((a : A) (file' : File) → result ≡ ok (a, file') → Grows key file file')
    → Answers file result x file'
    → Grows key file file'
Answers-Grows key file file' result x each (works a f h) = each a f h
Answers-Grows key file file' result x each raises = Grows-refl key file
Answers-Grows key file file' result x each (raises_late a f h) = each a f h
Answers-Grows key file file' result x each aborts = Grows-refl key file
Answers-Grows key file file' result x each (aborts_late a f h) = each a f h

module _ (digests : Digests) (key : Key) where
  added-Grows :
      (c : Claim) (file : File)
      → count_claims (claim_key c) file ≡ 0
      → (same_key (claim_key c) key ≡ true) ⊎ (same_key (claim_key c) key ≡ false)
      → Grows key file (file ++ claim_line c ∷ [])
  added-Grows c file none_there (inl same) =
      let here : count_claims key file ≡ 0 =
        subst (λ k. count_claims k file ≡ 0) (same_key-eq (claim_key c) key same) none_there in
      let counted = count_claims-append key file (claim_line c) in
      let one : one_if (same_key (claim_key c) key) ≡ 1 = rw same refl in
      (omega (arith, counted), inr (omega (arith, counted, one, here)))
  added-Grows c file none_there (inr differs) =
      let counted = count_claims-append key file (claim_line c) in
      let none_more : one_if (same_key (claim_key c) key) ≡ 0 = rw differs refl in
      (omega (arith, counted), inl (omega (arith, counted, none_more)))

  claim-adds :
      (c : Claim) (won : Bool) (file file' : File)
      → claim digests c file ≡ ok (won, file')
      → (count_claims key file' ≡ count_claims key file + gained key c (stored won))
        × Grows key file file'
  claim-adds c won file file' h = elim (claim-ok digests c file file' won h) [
    | inr (lost, same, counted) ↦ rw (lost, same) (omega arith, Grows-refl key file)
    | inl (first, added, none_there) ↦
        let counted = count_claims-append key file (claim_line c) in
        rw (first, added)
          (
            omega (arith, counted),
            added-Grows c file none_there (Bool-cases (same_key (claim_key c) key)),
          )
  ]

  look-keeps :
      (k : Key) (found : Option ExecutionReceipt) (file file' : File)
      → look_up digests k file ≡ ok (found, file')
      → Grows key file file'
  unfolding look_up
  look-keeps k found file file' h =
      let (o, read, same) = >>=-eq-ok (get_for digests k file) _ h in
      subst (Grows key file) (ap (λ (p : Option ExecutionReceipt × File). p.1) (ok_inj same))
        (Grows-refl key file)

  complete-keeps :
      (r : ExecutionReceipt) (new : Bool) (file file' : File)
      → complete digests r file ≡ ok (new, file')
      → Grows key file file'
  complete-keeps r new file file' h =
      let same = complete-grows digests key r file file' new h in (omega (arith, same), inl same)

  commit-keeps :
      (r : ExecutionReceipt) (done : Unit) (file file' : File)
      → commit_receipt digests r file ≡ ok (done, file')
      → Grows key file file'
  unfolding commit_receipt
  commit-keeps r done file file' h =
      let (o, written, same) = >>=-eq-ok (complete digests r file) _ h in
      subst (Grows key file) (ap (λ (p : Unit × File). p.1) (ok_inj same))
        (complete-keeps r o.0 file o.1 written)

  -- A run that has `n` entitlements before a step has `m` after it, and each call took one.
  pub record Spent (n : ℕ) (run' : Program) (file file' : File) (made : List Call) : Type 0 where
    pub left : ℕ
    pub spends : Spends key left run'
    pub paid : count_calls key made + left + count_claims key file ≤ n + count_claims key file'
    pub grows : Grows key file file'

  claim-Spent :
      (n : ℕ) (c : Claim) (next : StoreAnswer Bool → Program) (file file' : File)
      (x : StoreAnswer Bool)
      → Answers file (claim digests c file) x file'
      → Spends key n (claim_write c next)
      → Spent n (next x) file file' []
  claim-Spent n c next file file' x (works b f h) spends =
      let (adds, grows) = claim-adds c b file f h in
      record {
        left = n + gained key c (stored b);
        spends = spends (stored b);
        paid = omega (arith, adds);
        grows = grows;
      }
  claim-Spent n c next file file' x raises spends = record {
    left = n + 0;
    spends = spends unavailable;
    paid = omega arith;
    grows = Grows-refl key file;
  }
  claim-Spent n c next file file' x (raises_late b f h) spends =
      let (adds, grows) = claim-adds c b file f h in
      record {
        left = n + 0;
        spends = spends unavailable;
        paid = omega (arith, grows.0);
        grows = grows;
      }
  claim-Spent n c next file file' x aborts spends = record {
    left = n + 0;
    spends = spends aborted;
    paid = omega arith;
    grows = Grows-refl key file;
  }
  claim-Spent n c next file file' x (aborts_late b f h) spends =
      let (adds, grows) = claim-adds c b file f h in
      record { left = n + 0; spends = spends aborted; paid = omega (arith, grows.0); grows = grows }

  kept-Spent :
      (n : ℕ) (run' : Program) (file file' : File)
      → Spends key n run'
      → Grows key file file'
      → Spent n run' file file' []
  kept-Spent n run' file file' spends grows = record {
    left = n;
    spends = spends;
    paid = omega (arith, grows.0);
    grows = grows;
  }

  pub RunStep-Spent :
      (n : ℕ) (run run' : Program) (file file' : File) (made : List Call)
      → RunStep digests run file run' file' made
      → Spends key n run
      → Spent n run' file file' made
  RunStep-Spent n run run' file file' made (looks {x = x} a) spends =
      kept-Spent n run' file file' (spends x)
        (Answers-Grows key file file' _ x (λ o f. look-keeps _ o file f) a)
  RunStep-Spent n run run' file file' made (claims {c = c} {next = next} {x = x} a) spends =
      claim-Spent n c next file file' x a spends
  RunStep-Spent n run run' file file' made (completes {r = r} {x = x} a) spends =
      kept-Spent n run' file file' (spends x)
        (Answers-Grows key file file' _ x (λ b f. complete-keeps r b file f) a)
  RunStep-Spent n run run' file file' made (reads x) spends =
      kept-Spent n run' file file' (spends x) (Grows-refl key file)
  RunStep-Spent n run run' file file' made (fetches x) spends =
      kept-Spent n run' file file' (spends x) (Grows-refl key file)
  RunStep-Spent n run run' file file' made (executes x) (m, paid, spends) = record {
    left = m;
    spends = spends x;
    paid = omega (arith, paid);
    grows = Grows-refl key file;
  }
  RunStep-Spent n run run' file file' made (commits {r = r} {x = x} a) spends =
      kept-Spent n run' file file' (spends x)
        (Answers-Grows key file file' _ x (λ u f. commit-keeps r u file f) a)
