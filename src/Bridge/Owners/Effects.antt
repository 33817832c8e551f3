-- ===== src/Bridge/Owners/Effects.antt =====
-- src/bridge/store.ts: what a call on the managed owners writes, where it returns.
use vkodex.Prelude.{
  ℕ, ◌≡◌, refl, sym, subst, Bool, true, false, not, ◌&&◌, ◌||◌, Option, none, some, List, [], ◌∷◌,
  ◌++◌, arith, inl, inr, ok, ◌>>◌, throw_if, Option-cases, Result-cases,
}
use vkodex.Prelude.JsText.{Text, ===_iff}
use vkodex.OperationJournal.Tables.{update_rows}
use vkodex.Identifiers.{is_bounded, matches_uuid}
use vkodex.Bridge.Owners.Evidence.{
  invalid_claim, ManagedOwnerBindingEvidence, managed_evidence, mismatches, merged, is_complete,
}
use vkodex.Bridge.Owners.Calls.{
  ManagedOwnerBindingState, registering, ready, unavailable, handoff_pending, retired, same_state,
  BindingRow, ManagedOwnerBinding, ManagedOwnerBindingClaim, find_binding, find_owner,
  managed_owner, managed_canonical_home, new_owner, claim_found, claim_bound, claim_managed_owner,
  allowed, selects, write_owner, update_owner, transition_found, transition_managed_owner,
  retire_found, retire_managed_owner, OwnerCall, claim, transition, retire, kept_with, step,
}

-- A row that a claim adds.
pub record Added (rows : List ManagedOwnerBinding) (r : ManagedOwnerBinding) : Type 0 where
  pub unowned : managed_owner rows r.task ≡ none
  pub fresh : find_owner rows r.id ≡ none
  pub starts : r.state ≡ registering

-- A row that a transition or a retirement writes, with the state and the evidence it gets.
pub record Written (rows : List ManagedOwnerBinding) (row : ManagedOwnerBinding)
    (state : ManagedOwnerBindingState) (evidence : ManagedOwnerBindingEvidence) : Type 0 where
  pub found : find_owner rows row.id ≡ some row
  pub live : same_state row.state retired ≡ false
  pub moves :
      (allowed row.state state || same_state row.state handoff_pending && same_state state retired)
      ≡ true
  pub proven : (same_state state ready && not (is_complete evidence)) ≡ false
  pub offered : ManagedOwnerBindingEvidence
  pub matches : mismatches row.evidence offered ≡ false
  pub grown : evidence ≡ merged row.evidence offered

pub data Effect (rows : List ManagedOwnerBinding) : List ManagedOwnerBinding → Type 0 where
  nothing : Effect rows rows
  added : (r : ManagedOwnerBinding) → Added rows r → Effect rows (rows ++ (r ∷ []))
  written :
      (row : ManagedOwnerBinding) (state : ManagedOwnerBindingState)
      (evidence : ManagedOwnerBindingEvidence) (now : ℕ)
      → Written rows row state evidence
      → Effect rows (update_rows (selects row) (write_owner state evidence now) rows)

pub find_owner-id :
    (rows : List ManagedOwnerBinding) (id : Text) {row : ManagedOwnerBinding}
    → find_owner rows id ≡ some row
    → row.id ≡ id
unfolding find_owner
find_owner-id [] id e = cc
find_owner-id (r ∷ rows) id {row} e =
    ground (arith, ===_iff r.id id, find_owner-id rows id {row = row})

abbrev no_evidence : ManagedOwnerBindingEvidence
no_evidence = record {
  backend_generation = none;
  registry_revision = none;
  endpoint_ref = none;
  host = none;
  backend = none;
}

merged_none : (prior : ManagedOwnerBindingEvidence) → prior ≡ merged prior no_evidence
unfolding merged
merged_none prior = refl

mismatches_none : (prior : ManagedOwnerBindingEvidence) → mismatches prior no_evidence ≡ false
unfolding mismatches
mismatches_none prior = ground arith

update_owner-ok :
    (rows : List ManagedOwnerBinding) (row : ManagedOwnerBinding) (state : ManagedOwnerBindingState)
    (evidence : ManagedOwnerBindingEvidence) (now : ℕ) {rows' : List ManagedOwnerBinding}
    → update_owner rows row state evidence now ≡ ok rows'
    → update_rows (selects row) (write_owner state evidence now) rows ≡ rows'
unfolding update_owner
update_owner-ok rows row state evidence now e = ground arith

transition_found-Effect :
    (rows : List ManagedOwnerBinding) (expected : ManagedOwnerBinding)
    (state : ManagedOwnerBindingState) (evidence : ManagedOwnerBindingEvidence) (now : ℕ)
    (o : Option ManagedOwnerBinding) {rows' : List ManagedOwnerBinding}
    → find_owner rows expected.id ≡ o
    → transition_found rows expected state evidence now o ≡ ok rows'
    → Effect rows rows'
unfolding transition_found
transition_found-Effect rows expected state evidence now none f e = cc
transition_found-Effect rows expected state evidence now (some row) f e =
    let new = merged row.evidence evidence in
    let same = find_owner-id rows expected.id f in
    subst (Effect rows) (update_owner-ok rows row state new now (ground arith)) (
      written row state new now (record {
        found = subst (λ id. find_owner rows id ≡ some row) (sym same) f;
        live = ground arith;
        moves = ground arith;
        proven = ground arith;
        offered = evidence;
        matches = ground arith;
        grown = refl;
      }))

fenced_row :
    (a b : ManagedOwnerBindingState)
    → same_state a b ≡ true
    → same_state b handoff_pending ≡ true
    → same_state a handoff_pending ≡ true
fenced_row a registering e f = cc
fenced_row a ready e f = cc
fenced_row a unavailable e f = cc
fenced_row a handoff_pending e f = e
fenced_row a retired e f = cc

retire_found-Effect :
    (rows : List ManagedOwnerBinding) (expected : ManagedOwnerBinding) (now : ℕ)
    (o : Option ManagedOwnerBinding) {rows' : List ManagedOwnerBinding}
    → find_owner rows expected.id ≡ o
    → same_state expected.state handoff_pending ≡ true
    → retire_found rows expected now o ≡ ok rows'
    → Effect rows rows'
unfolding retire_found
retire_found-Effect rows expected now none f fenced e = cc
retire_found-Effect rows expected now (some row) f fenced e =
    let same = find_owner-id rows expected.id f in
    subst (Effect rows) (update_owner-ok rows row retired row.evidence now (ground arith)) (
      written row retired row.evidence now (record {
        found = subst (λ id. find_owner rows id ≡ some row) (sym same) f;
        live = ground arith;
        moves = ground (arith, fenced_row row.state expected.state);
        proven = refl;
        offered = no_evidence;
        matches = mismatches_none row.evidence;
        grown = merged_none row.evidence;
      }))

module _ (is_absolute : Text → Bool) (comparable_path : Text → Text) where
  claim_found-Effect :
      (rows : List ManagedOwnerBinding) (task : BindingRow) (c : ManagedOwnerBindingClaim)
      (home id : Text) (now : ℕ) (o : Option ManagedOwnerBinding)
      → managed_owner rows task ≡ o
      → Effect rows
          (kept_with rows (claim_found is_absolute comparable_path rows task c home id now o))
  unfolding claim_found
  claim_found-Effect rows task c home id now (some r) e = subst (Effect rows) (ground arith) nothing
  claim_found-Effect rows task c home id now none e = elim (Option-cases (find_owner rows id)) [
    | inl fresh ↦ rw fresh (
        added (new_owner is_absolute comparable_path task c home id now)
          (record { unowned = e; fresh = fresh; starts = refl }))
    | inr (r, known) ↦ rw known nothing
  ]

  claim_bound-Effect :
      (rows : List ManagedOwnerBinding) (c : ManagedOwnerBindingClaim) (home id : Text) (now : ℕ)
      (o : Option BindingRow)
      → Effect rows (kept_with rows (claim_bound is_absolute comparable_path rows c home id now o))
  unfolding claim_bound
  claim_bound-Effect rows c home id now none = nothing
  claim_bound-Effect rows c home id now (some task) =
      claim_found-Effect rows task c home id now (managed_owner rows task) refl

  claim-Effect :
      (bindings : List BindingRow) (rows : List ManagedOwnerBinding) (binding_id : Text)
      (c : ManagedOwnerBindingClaim) (id : Text) (now : ℕ)
      → Effect rows (
          kept_with rows
            (claim_managed_owner is_absolute comparable_path bindings rows binding_id c id now))
  unfolding claim_managed_owner
  claim-Effect bindings rows binding_id c id now =
      elim (Result-cases (
        throw_if (not (is_bounded 256 binding_id) || not (matches_uuid c.owner_epoch)) invalid_claim
        >> managed_canonical_home is_absolute comparable_path c.canonical_home)) [
          | inr (x, failed) ↦ rw failed nothing
          | inl (home, found) ↦
              rw found
                elim (Result-cases (
                  throw_if (not (is_bounded 256 c.family_root)) invalid_claim
                  >> managed_evidence c.evidence)) [
                    | inr (x, failed) ↦ rw failed nothing
                    | inl (u, valid) ↦
                        rw valid
                          (claim_bound-Effect rows c home id now (find_binding bindings binding_id))
                  ]
        ]

  -- Each call writes nothing, adds a row, or writes one.
  pub step-Effect :
      (rows : List ManagedOwnerBinding) (c : OwnerCall)
      → Effect rows (step is_absolute comparable_path rows c)
  unfolding step transition_managed_owner retire_managed_owner
  step-Effect rows (claim bindings binding_id c id now) =
      claim-Effect bindings rows binding_id c id now
  step-Effect rows (transition expected state evidence now) =
      elim (Result-cases (transition_managed_owner rows expected state evidence now)) [
        | inl (rows', e) ↦ rw e (
            transition_found-Effect rows expected state evidence now (find_owner rows expected.id)
              refl (ground (arith, Result-cases (managed_evidence evidence))))
        | inr (x, e) ↦ rw e nothing
      ]
  step-Effect rows (retire expected now) =
      elim (Result-cases (retire_managed_owner rows expected now)) [
        | inl (rows', e) ↦ rw e (
            retire_found-Effect rows expected now (find_owner rows expected.id) refl (ground arith)
              (ground arith))
        | inr (x, e) ↦ rw e nothing
      ]
