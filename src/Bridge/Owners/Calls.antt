-- ===== src/Bridge/Owners/Calls.antt =====
-- src/bridge/store.ts: a claim of a task for a managed owner, its transitions and its retirement. A row of the
-- table and what `managedBinding` makes of it are one record, since a row holds checked identities only.
use vkodex.Prelude.{
  ℕ, ◌+◌, Bool, true, false, not, ◌&&◌, ◌||◌, Option, none, some, List, [], ◌∷◌, ◌++◌, map, leb,
  ◌==◌, is_none, if◌then◌else◌, Result, ok, err, ◌>>=◌, ◌>>◌, throw_if,
}
use vkodex.Prelude.JsText.{Text, ◌===◌}
use vkodex.OperationJournal.Tables.{update_rows, count_rows}
use vkodex.Identifiers.{is_bounded, matches_uuid}
use vkodex.Bridge.Owners.Evidence.{
  OwnerError, invalid_claim, no_binding, already_claimed, stale_claim, invalid_transition,
  proof_mismatch, incomplete_proof, not_handed_off, constraint_failed, ManagedOwnerBindingEvidence,
  managed_evidence, same_claim_evidence, mismatches, merged, is_complete,
}

pub data ManagedOwnerBindingState : Type 0 where
  registering ready unavailable handoff_pending retired : ManagedOwnerBindingState

abbrev pub same_state : ManagedOwnerBindingState → ManagedOwnerBindingState → Bool
same_state registering registering = true
same_state ready ready = true
same_state unavailable unavailable = true
same_state handoff_pending handoff_pending = true
same_state retired retired = true
same_state _ _ = false

-- A row of `bridge_bindings`: the columns that name the task.
pub record BindingRow : Type 0 where
  pub id : Text
  pub host_id : Text
  pub thread_id : Text
  pub source_id : Text

pub record ManagedOwnerBinding : Type 0 where
  pub id : Text
  pub binding_id : Text
  pub task : BindingRow
  pub owner_epoch : Text
  pub canonical_home : Text
  pub family_root : Text
  pub state : ManagedOwnerBindingState
  pub revision : ℕ
  pub evidence : ManagedOwnerBindingEvidence
  pub created_at : ℕ
  pub updated_at : ℕ

pub record ManagedOwnerBindingClaim : Type 0 where
  pub owner_epoch : Text
  pub canonical_home : Text
  pub family_root : Text
  pub evidence : ManagedOwnerBindingEvidence

-- `toLowerCase`, on a text that is a UUID.
abbrev pub to_lower_case : Text → Text
to_lower_case s = map (λ c. if leb 65 c && leb c 90 then c + 32 else c) s

unfoldable pub find_binding : List BindingRow → Text → Option BindingRow
find_binding [] id = none
find_binding (b ∷ bs) id = if b.id === id then some b else find_binding bs id

-- SELECT * FROM managed_owner_bindings WHERE id = ?
unfoldable pub find_owner : List ManagedOwnerBinding → Text → Option ManagedOwnerBinding
find_owner [] id = none
find_owner (r ∷ rs) id = if r.id === id then some r else find_owner rs id

-- WHERE host_id = ? AND thread_id = ? AND source_id = ? AND state <> 'retired'
unfoldable pub owns : BindingRow → ManagedOwnerBinding → Bool
owns task r =
    r.task.host_id === task.host_id
    && r.task.thread_id === task.thread_id
    && r.task.source_id === task.source_id
    && not (same_state r.state retired)

unfoldable pub managed_owner : List ManagedOwnerBinding → BindingRow → Option ManagedOwnerBinding
managed_owner [] task = none
managed_owner (r ∷ rs) task = if owns task r then some r else managed_owner rs task

-- `is_absolute` and `comparable_path` stand for what node's `path` says of a home (`path.isAbsolute`, and
-- `comparablePath` of src/core/paths.ts, which normalizes it).
module _ (is_absolute : Text → Bool) (comparable_path : Text → Text) where
  unfoldable pub managed_canonical_home : Text → Result OwnerError Text
  managed_canonical_home home =
      throw_if (not (is_bounded 4096 home) || not (is_absolute home)) invalid_claim
      >> ok (comparable_path home)

  abbrev pub new_owner :
      BindingRow → ManagedOwnerBindingClaim → Text → Text → ℕ → ManagedOwnerBinding
  new_owner task claim home id now = record {
    id = id;
    binding_id = task.id;
    task = task;
    owner_epoch = to_lower_case claim.owner_epoch;
    canonical_home = home;
    family_root = claim.family_root;
    state = registering;
    revision = 0;
    evidence = claim.evidence;
    created_at = now;
    updated_at = now;
  }

  -- The same claim again returns the row; any other is refused. `id` is what `randomUUID` gives.
  unfoldable pub claim_found :
      List ManagedOwnerBinding
      → BindingRow
      → ManagedOwnerBindingClaim
      → Text
      → Text
      → ℕ
      → Option ManagedOwnerBinding
      → Result OwnerError (List ManagedOwnerBinding × ManagedOwnerBinding)
  claim_found rows task claim home id now (some r) =
      if r.binding_id === task.id
        && r.owner_epoch === to_lower_case claim.owner_epoch
        && r.canonical_home === home
        && r.family_root === claim.family_root
        && same_claim_evidence r.evidence claim.evidence
      then ok (rows, r)
      else err already_claimed
  claim_found rows task claim home id now none =
      if is_none (find_owner rows id)
      then ok (rows ++ (new_owner task claim home id now ∷ []), new_owner task claim home id now)
      else err constraint_failed

  unfoldable pub claim_bound :
      List ManagedOwnerBinding
      → ManagedOwnerBindingClaim
      → Text
      → Text
      → ℕ
      → Option BindingRow
      → Result OwnerError (List ManagedOwnerBinding × ManagedOwnerBinding)
  claim_bound rows claim home id now none = err no_binding
  claim_bound rows claim home id now (some task) =
      claim_found rows task claim home id now (managed_owner rows task)

  unfoldable pub claim_managed_owner :
      List BindingRow
      → List ManagedOwnerBinding
      → Text
      → ManagedOwnerBindingClaim
      → Text
      → ℕ
      → Result OwnerError (List ManagedOwnerBinding × ManagedOwnerBinding)
  claim_managed_owner bindings rows binding_id claim id now =
      throw_if (not (is_bounded 256 binding_id) || not (matches_uuid claim.owner_epoch))
        invalid_claim
      >> managed_canonical_home claim.canonical_home
      >>= λ home.
          throw_if (not (is_bounded 256 claim.family_root)) invalid_claim
          >> managed_evidence claim.evidence
          >> claim_bound rows claim home id now (find_binding bindings binding_id)

-- The row is there, as the caller knows it.
abbrev pub is_current : ManagedOwnerBinding → ManagedOwnerBinding → Bool
is_current expected r =
    r.revision == expected.revision
    && same_state r.state expected.state
    && not (same_state r.state retired)

unfoldable pub allowed : ManagedOwnerBindingState → ManagedOwnerBindingState → Bool
allowed handoff_pending handoff_pending = true
allowed registering ready = true
allowed registering unavailable = true
allowed registering handoff_pending = true
allowed ready ready = true
allowed ready unavailable = true
allowed ready handoff_pending = true
allowed unavailable ready = true
allowed unavailable unavailable = true
allowed unavailable handoff_pending = true
allowed _ _ = false

-- WHERE id = ? AND revision = ? AND state = ?
abbrev pub selects : ManagedOwnerBinding → ManagedOwnerBinding → Bool
selects row r = r.id === row.id && r.revision == row.revision && same_state r.state row.state

abbrev pub write_owner :
    ManagedOwnerBindingState
    → ManagedOwnerBindingEvidence
    → ℕ
    → ManagedOwnerBinding
    → ManagedOwnerBinding
write_owner state evidence now r = record r {
  state = state;
  revision = r.revision + 1;
  evidence = evidence;
  updated_at = now;
}

unfoldable pub update_owner :
    List ManagedOwnerBinding
    → ManagedOwnerBinding
    → ManagedOwnerBindingState
    → ManagedOwnerBindingEvidence
    → ℕ
    → Result OwnerError (List ManagedOwnerBinding)
update_owner rows row state evidence now =
    if count_rows (selects row) rows == 1
    then ok (update_rows (selects row) (write_owner state evidence now) rows)
    else err stale_claim

unfoldable pub transition_found :
    List ManagedOwnerBinding
    → ManagedOwnerBinding
    → ManagedOwnerBindingState
    → ManagedOwnerBindingEvidence
    → ℕ
    → Option ManagedOwnerBinding
    → Result OwnerError (List ManagedOwnerBinding)
transition_found rows expected state evidence now none = err stale_claim
transition_found rows expected state evidence now (some row) =
    throw_if (not (is_current expected row)) stale_claim
    >> throw_if (not (allowed row.state state)) invalid_transition
    >> throw_if (mismatches row.evidence evidence) proof_mismatch
    >> throw_if (same_state state ready && not (is_complete (merged row.evidence evidence)))
        incomplete_proof
    >> update_owner rows row state (merged row.evidence evidence) now

unfoldable pub transition_managed_owner :
    List ManagedOwnerBinding
    → ManagedOwnerBinding
    → ManagedOwnerBindingState
    → ManagedOwnerBindingEvidence
    → ℕ
    → Result OwnerError (List ManagedOwnerBinding)
transition_managed_owner rows expected state evidence now =
    managed_evidence evidence
    >> transition_found rows expected state evidence now (find_owner rows expected.id)

unfoldable pub retire_found :
    List ManagedOwnerBinding
    → ManagedOwnerBinding
    → ℕ
    → Option ManagedOwnerBinding
    → Result OwnerError (List ManagedOwnerBinding)
retire_found rows expected now none = err stale_claim
retire_found rows expected now (some row) =
    throw_if (not (is_current expected row)) stale_claim
    >> update_owner rows row retired row.evidence now

unfoldable pub retire_managed_owner :
    List ManagedOwnerBinding
    → ManagedOwnerBinding
    → ℕ
    → Result OwnerError (List ManagedOwnerBinding)
retire_managed_owner rows expected now =
    throw_if (not (same_state expected.state handoff_pending)) not_handed_off
    >> retire_found rows expected now (find_owner rows expected.id)

pub data OwnerCall : Type 0 where
  claim : List BindingRow → Text → ManagedOwnerBindingClaim → Text → ℕ → OwnerCall
  transition :
      ManagedOwnerBinding → ManagedOwnerBindingState → ManagedOwnerBindingEvidence → ℕ → OwnerCall
  retire : ManagedOwnerBinding → ℕ → OwnerCall

abbrev pub kept :
    List ManagedOwnerBinding
    → Result OwnerError (List ManagedOwnerBinding)
    → List ManagedOwnerBinding
kept rows (ok rows') = rows'
kept rows (err e) = rows

abbrev pub kept_with :
    List ManagedOwnerBinding
    → Result OwnerError (List ManagedOwnerBinding × ManagedOwnerBinding)
    → List ManagedOwnerBinding
kept_with rows (ok (rows', r)) = rows'
kept_with rows (err e) = rows

-- The bindings may be others at each call.
module _ (is_absolute : Text → Bool) (comparable_path : Text → Text) where
  unfoldable pub step : List ManagedOwnerBinding → OwnerCall → List ManagedOwnerBinding
  step rows (claim bindings binding_id c id now) =
      kept_with rows
        (claim_managed_owner is_absolute comparable_path bindings rows binding_id c id now)
  step rows (transition expected state evidence now) =
      kept rows (transition_managed_owner rows expected state evidence now)
  step rows (retire expected now) = kept rows (retire_managed_owner rows expected now)

  unfoldable pub run : List ManagedOwnerBinding → List OwnerCall → List ManagedOwnerBinding
  run rows [] = rows
  run rows (c ∷ cs) = run (step rows c) cs
