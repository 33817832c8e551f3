-- ===== src/Bridge/Owners/Extends.antt =====
-- src/bridge/store.ts: the row of one claim, across every later call.
use vkodex.Prelude.{
  ℕ, ◌≡◌, refl, sym, subst, ◌∙◌, Bool, true, false, ◌&&◌, ◌||◌, some, List, [], ◌∷◌, ◌++◌, arith,
  if◌then◌else◌, inl, inr, Bool-cases, ◌==◌, ==_iff,
}
use vkodex.Prelude.JsText.{Text, ◌===◌, ===_iff}
use vkodex.OperationJournal.Tables.{update_rows}
use vkodex.Bridge.Identity.{same_identity}
use vkodex.Bridge.Owners.Evidence.{ManagedOwnerBindingEvidence, mismatches, merged}
use vkodex.Bridge.Owners.Calls.{
  ManagedOwnerBindingState, registering, ready, unavailable, handoff_pending, retired, same_state,
  allowed, ManagedOwnerBinding, find_owner, selects, write_owner, OwnerCall, step, run,
}
use vkodex.Bridge.Owners.Effects.{
  Written, Effect, nothing, added, written, find_owner-id, step-Effect,
}
use vkodex.Bridge.Owners.Growth.{
  Kept, Risen, Follows, Extends, Kept-latest, Risen-latest, same_identity_eq, Extends-refl,
  Extends-trans,
}

written-Follows :
    (row r' : ManagedOwnerBinding) (s state : ManagedOwnerBindingState)
    → r'.state ≡ state
    → same_state s retired ≡ false
    → (allowed s state || same_state s handoff_pending && same_state state retired) ≡ true
    → Follows row s r'
unfolding allowed
written-Follows row r' registering state e live moves = tt
written-Follows row r' ready state e live moves = tt
written-Follows row r' unavailable state e live moves = tt
written-Follows row r' handoff_pending state e live moves = rw e (ground arith)
written-Follows row r' retired state e live moves = cc

module _ (row : ManagedOwnerBinding) (offered : ManagedOwnerBindingEvidence) where
  merged-Kept :
      mismatches row.evidence offered ≡ false
      → Kept row.evidence.backend_generation (merged row.evidence offered).backend_generation
        × Kept row.evidence.endpoint_ref (merged row.evidence offered).endpoint_ref
        × Kept row.evidence.host (merged row.evidence offered).host
        × Kept row.evidence.backend (merged row.evidence offered).backend
        × Risen row.evidence.registry_revision (merged row.evidence offered).registry_revision
  unfolding mismatches merged
  merged-Kept h = (
    Kept-latest ◌==◌ row.evidence.backend_generation offered.backend_generation
        (λ a b e. ground (arith, ==_iff a b)) (ground arith),
    Kept-latest ◌===◌ row.evidence.endpoint_ref offered.endpoint_ref (λ a b e. (===_iff a b).0 e)
        (ground arith),
    Kept-latest same_identity row.evidence.host offered.host same_identity_eq (ground arith),
    Kept-latest same_identity row.evidence.backend offered.backend same_identity_eq (ground arith),
    Risen-latest row.evidence.registry_revision offered.registry_revision (ground arith),
  )

write_owner-Extends :
    (rows : List ManagedOwnerBinding) (row : ManagedOwnerBinding) (state : ManagedOwnerBindingState)
    (evidence : ManagedOwnerBindingEvidence) (now : ℕ)
    → Written rows row state evidence
    → Extends row (write_owner state evidence now row)
write_owner-Extends rows row state evidence now w =
    let (generation, endpoint, host, backend, registry) = merged-Kept row w.offered w.matches in
    record {
      id = refl;
      binding_id = refl;
      task = refl;
      owner_epoch = refl;
      canonical_home = refl;
      family_root = refl;
      revision = omega arith;
      backend_generation =
          subst
            (λ (e : ManagedOwnerBindingEvidence).
              Kept row.evidence.backend_generation e.backend_generation)
            (sym w.grown) generation;
      endpoint_ref =
          subst (λ (e : ManagedOwnerBindingEvidence). Kept row.evidence.endpoint_ref e.endpoint_ref)
            (sym w.grown) endpoint;
      host =
          subst (λ (e : ManagedOwnerBindingEvidence). Kept row.evidence.host e.host) (sym w.grown)
            host;
      backend =
          subst (λ (e : ManagedOwnerBindingEvidence). Kept row.evidence.backend e.backend)
            (sym w.grown) backend;
      registry_revision =
          subst
            (λ (e : ManagedOwnerBindingEvidence).
              Risen row.evidence.registry_revision e.registry_revision)
            (sym w.grown) registry;
      follows =
          written-Follows row (write_owner state evidence now row) row.state state refl w.live
            w.moves;
    }

find_owner-snoc :
    (rows : List ManagedOwnerBinding) (x : ManagedOwnerBinding) (id : Text)
    {r : ManagedOwnerBinding}
    → find_owner rows id ≡ some r
    → find_owner (rows ++ (x ∷ [])) id ≡ some r
unfolding find_owner
find_owner-snoc [] x id e = cc
find_owner-snoc (y ∷ rows) x id {r} e = ground (arith, find_owner-snoc rows x id {r = r})

find_owner-update_rows :
    (test : ManagedOwnerBinding → Bool) (set : ManagedOwnerBinding → ManagedOwnerBinding)
    (rows : List ManagedOwnerBinding) (id : Text) {r : ManagedOwnerBinding}
    → ((x : ManagedOwnerBinding) → (set x).id ≡ x.id)
    → find_owner rows id ≡ some r
    → find_owner (update_rows test set rows) id ≡ some (if test r then set r else r)
unfolding find_owner update_rows
find_owner-update_rows test set [] id keeps e = cc
find_owner-update_rows test set (x ∷ rows) id {r} keeps e =
    ground (arith, keeps x, find_owner-update_rows test set rows id {r = r} keeps)

-- The row of an ID after a call.
Later : List ManagedOwnerBinding → Text → ManagedOwnerBinding → Type 0
Later rows id r = (r' : ManagedOwnerBinding) × (find_owner rows id ≡ some r') × Extends r r'

Effect-Later :
    (rows : List ManagedOwnerBinding) (id : Text) (r : ManagedOwnerBinding)
    {rows' : List ManagedOwnerBinding}
    → Effect rows rows'
    → r.id ≡ id
    → find_owner rows id ≡ some r
    → Later rows' id r
unfolding Later
Effect-Later rows id r nothing named e = (r, e, Extends-refl r)
Effect-Later rows id r (added x a) named e = (r, find_owner-snoc rows x id e, Extends-refl r)
Effect-Later rows id r (written row state evidence now w) named e =
    let found =
      find_owner-update_rows (selects row) (write_owner state evidence now) rows id (λ x. refl) e in
    elim (Bool-cases (selects row r)) [
      | inl hit ↦
          let owner : row.id ≡ id = sym ((===_iff r.id row.id).0 (ground arith)) ∙ named in
          let found_row = subst (λ i. find_owner rows i ≡ some row) owner w.found in
          let same : row ≡ r = ground arith in
          (
            write_owner state evidence now r,
            rw hit at found,
            subst (λ x. Extends x (write_owner state evidence now x)) same
                (write_owner-Extends rows row state evidence now w),
          )
      | inr miss ↦ (r, rw miss at found, Extends-refl r)
    ]

-- Whatever claims, transitions and retirements follow, the row of a claim keeps its ID, binding, task, epoch, home
-- and family, its revision does not fall, what is known of its backend, endpoint and processes is never
-- replaced, its registry revision does not fall, a claim that is handed off stays so or is retired, and a
-- retired one stays as it is.
pub run-Extends :
    (is_absolute : Text → Bool) (comparable_path : Text → Text) (cs : List OwnerCall)
    (rows : List ManagedOwnerBinding) (id : Text) (r : ManagedOwnerBinding)
    → find_owner rows id ≡ some r
    → (r' : ManagedOwnerBinding) × (find_owner (run is_absolute comparable_path rows cs) id
        ≡ some r')
      × Extends r r'
unfolding run Later
run-Extends is_absolute comparable_path [] rows id r e = (r, e, Extends-refl r)
run-Extends is_absolute comparable_path (c ∷ cs) rows id r e =
    let (r1, e1, h1) =
      Effect-Later rows id r (step-Effect is_absolute comparable_path rows c)
        (find_owner-id rows id e) e in
    let (r2, e2, h2) =
      run-Extends is_absolute comparable_path cs (step is_absolute comparable_path rows c) id r1
        e1 in
    (r2, e2, Extends-trans r r1 r2 h1 h2)
