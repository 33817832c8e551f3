-- ===== src/Tests/Owners.antt =====
-- src/bridge/store.ts: concrete runs of the managed owner claims.
use vkodex.Prelude.{
  ℕ, ◌+◌, ◌≤◌, ◌≡◌, refl, Bool, true, false, not, ◌&&◌, Option, none, some, List, [], ◌∷◌, All,
  arith, ◌==◌,
}
use vkodex.Prelude.JsText.{Text, codes, ◌===◌, trim, trim_start, trim_end, is_space, is_hex}
use vkodex.Prelude
use vkodex.OperationJournal.Tables.{update_rows, count_rows}
use vkodex.Identifiers.{is_bounded, matches_uuid}
use vkodex.Bridge.Owners.Evidence.{
  ManagedOwnerBindingEvidence, managed_evidence, mismatches, merged, is_complete,
}
use vkodex.Bridge.Owners.Calls.{
  ready, handoff_pending, same_state, BindingRow, ManagedOwnerBinding, ManagedOwnerBindingClaim,
  find_owner, find_binding, managed_owner, owns, new_owner, managed_canonical_home,
  claim_managed_owner, claim_bound, claim_found, transition_managed_owner, transition_found,
  retire_managed_owner, retire_found, allowed, update_owner, OwnerCall, claim, transition, retire,
  step, run,
}
use vkodex.Bridge.Owners.Active.{active_claims, managed_owner_unique}
use vkodex.Bridge.Owners.Growth.{Extends}
use vkodex.Bridge.Owners.Extends.{run-Extends}

abbrev absolute : Text → Bool
absolute home = true

abbrev comparable : Text → Text
comparable home = home

abbrev the_task : BindingRow
the_task = record { id = codes "b"; host_id = codes "local"; thread_id = codes "t"; source_id = [] }

abbrev nothing_known : ManagedOwnerBindingEvidence
nothing_known = record {
  backend_generation = none;
  registry_revision = none;
  endpoint_ref = none;
  host = none;
  backend = none;
}

abbrev the_claim : ManagedOwnerBindingClaim
the_claim = record {
  owner_epoch = codes "00000000-0000-4000-8000-00000000000A";
  canonical_home = codes "/home/codex";
  family_root = codes "root";
  evidence = nothing_known;
}

abbrev claim_row : ManagedOwnerBinding
claim_row = new_owner absolute comparable the_task the_claim (codes "/home/codex") (codes "c") 5

abbrev claim_call : OwnerCall
claim_call = claim (the_task ∷ []) (codes "b") the_claim (codes "c") 5

claimed : run absolute comparable [] (claim_call ∷ []) ≡ claim_row ∷ []
unfolding run step claim_managed_owner is_bounded matches_uuid trim trim_start trim_end is_space
    is_hex ◌===◌ managed_canonical_home managed_evidence claim_bound find_binding managed_owner
    claim_found find_owner Prelude.any
claimed = refl

abbrev handed_off : ManagedOwnerBinding
handed_off = record claim_row { state = handoff_pending; revision = 1; updated_at = 6 }

abbrev ending : List OwnerCall
ending = transition claim_row handoff_pending nothing_known 6 ∷ retire handed_off 7 ∷ []

-- A handoff and a retirement free the task.
freed : active_claims the_task (run absolute comparable (claim_row ∷ []) ending) ≡ 0
unfolding run step transition_managed_owner transition_found retire_managed_owner retire_found
    managed_evidence find_owner allowed mismatches merged update_owner update_rows count_rows owns
    ◌===◌
freed = refl

claim_row_found : find_owner (claim_row ∷ []) (codes "c") ≡ some claim_row
unfolding find_owner ◌===◌
claim_row_found = refl

managed_owner_unique_example :
    (active_claims the_task (run absolute comparable [] (claim_call ∷ ending)) ≤ 1)
    × All
        (λ r. (same_state r.state ready && not (is_complete r.evidence)) ≡ false)
        (run absolute comparable [] (claim_call ∷ ending))
managed_owner_unique_example =
    managed_owner_unique absolute comparable (claim_call ∷ ending) the_task

run-Extends_example :
    (r' : ManagedOwnerBinding) × (find_owner
        (run absolute comparable (claim_row ∷ []) ending)
        (codes "c")
      ≡ some r')
    × Extends claim_row r'
run-Extends_example =
    run-Extends absolute comparable ending (claim_row ∷ []) (codes "c") claim_row claim_row_found
