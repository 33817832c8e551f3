-- ===== src/Bridge/Owners/Active.antt =====
-- src/bridge/store.ts: the claims of one task that are not retired, and the evidence of ready ones.
use vkodex.Prelude.{
  ℕ, ◌≤◌, ◌≡◌, refl, sym, subst, Bool, true, false, not, ◌&&◌, none, List, [], ◌∷◌, arith, inl, inr,
  Bool-cases, All, All-append,
}
use vkodex.Prelude.JsText.{Text, ===_iff}
use vkodex.OperationJournal.Tables.{count_rows}
use vkodex.OperationJournal.Rows.{All-update_rows, count_rows-snoc, count_rows-update_rows}
use vkodex.Bridge.Owners.Evidence.{ManagedOwnerBindingEvidence, is_complete}
use vkodex.Bridge.Owners.Calls.{
  ManagedOwnerBindingState, registering, ready, unavailable, handoff_pending, retired, same_state,
  BindingRow, ManagedOwnerBinding, owns, managed_owner, selects, write_owner, OwnerCall, step, run,
}
use vkodex.Bridge.Owners.Effects.{Effect, nothing, added, written, step-Effect}

abbrev pub active_claims : BindingRow → List ManagedOwnerBinding → ℕ
active_claims task rows = count_rows (owns task) rows

-- Two names of one task.
SameTask : BindingRow → BindingRow → Type 0
SameTask t u = (t.host_id ≡ u.host_id) × (t.thread_id ≡ u.thread_id) × (t.source_id ≡ u.source_id)

owns-SameTask : (t u : BindingRow) (r : ManagedOwnerBinding) → SameTask t u → owns t r ≡ owns u r
unfolding owns SameTask
owns-SameTask t u r (h, k, l) = rw (h, k, l) refl

unowned-count_rows :
    (rows : List ManagedOwnerBinding) (t u : BindingRow)
    → SameTask t u
    → managed_owner rows t ≡ none
    → count_rows (owns u) rows ≡ 0
unfolding managed_owner count_rows
unowned-count_rows [] t u same e = refl
unowned-count_rows (r ∷ rows) t u same e =
    ground (arith, owns-SameTask t u r same, unowned-count_rows rows t u same)

owned_task :
    (task : BindingRow) (r : ManagedOwnerBinding) → owns task r ≡ true → SameTask r.task task
unfolding owns SameTask
owned_task task r e = (
  ground (arith, ===_iff r.task.host_id task.host_id),
  ground (arith, ===_iff r.task.thread_id task.thread_id),
  ground (arith, ===_iff r.task.source_id task.source_id),
)

pub live_row :
    (a b : ManagedOwnerBindingState)
    → same_state a b ≡ true
    → same_state b retired ≡ false
    → same_state a retired ≡ false
live_row registering b e f = refl
live_row ready b e f = refl
live_row unavailable b e f = refl
live_row handoff_pending b e f = refl
live_row retired registering e f = cc
live_row retired ready e f = cc
live_row retired unavailable e f = cc
live_row retired handoff_pending e f = cc
live_row retired retired e f = cc

written-owns :
    (task : BindingRow) (row r : ManagedOwnerBinding) (state : ManagedOwnerBindingState)
    (evidence : ManagedOwnerBindingEvidence) (now : ℕ)
    → same_state row.state retired ≡ false
    → selects row r ≡ true
    → owns task (write_owner state evidence now r) ≡ true
    → owns task r ≡ true
unfolding owns
written-owns task row r state evidence now live hit e = ground (arith, live_row r.state row.state)

Effect-active_claims :
    (task : BindingRow) (rows : List ManagedOwnerBinding) {rows' : List ManagedOwnerBinding}
    → Effect rows rows'
    → active_claims task rows ≤ 1
    → active_claims task rows' ≤ 1
Effect-active_claims task rows nothing h = h
Effect-active_claims task rows (added r a) h = elim (Bool-cases (owns task r)) [
  | inl ours ↦ ground (
    arith,
    count_rows-snoc (owns task) rows r,
    unowned-count_rows rows r.task task (owned_task task r ours) a.unowned,
  )
  | inr other ↦ ground (arith, count_rows-snoc (owns task) rows r)
]
Effect-active_claims task rows (written row state evidence now w) h = omega (
  arith,
  count_rows-update_rows (owns task) (selects row) (write_owner state evidence now) rows
      (λ r hit e. written-owns task row r state evidence now w.live hit e),
)

-- A ready row has the whole evidence.
abbrev IsProven : ManagedOwnerBinding → Type 0
IsProven r = (same_state r.state ready && not (is_complete r.evidence)) ≡ false

Effect-IsProven :
    (rows : List ManagedOwnerBinding) {rows' : List ManagedOwnerBinding}
    → Effect rows rows'
    → All IsProven rows
    → All IsProven rows'
Effect-IsProven rows nothing h = h
Effect-IsProven rows (added r a) h = All-append IsProven rows (r ∷ []) h (
  subst (λ s. (same_state s ready && not (is_complete r.evidence)) ≡ false) (sym a.starts) refl,
  tt,
)
Effect-IsProven rows (written row state evidence now w) h =
    All-update_rows (selects row) (write_owner state evidence now) IsProven rows
      (λ r hit p. w.proven) h

module _ (is_absolute : Text → Bool) (comparable_path : Text → Text) where
  run-active_claims :
      (task : BindingRow) (cs : List OwnerCall) (rows : List ManagedOwnerBinding)
      → active_claims task rows ≤ 1
      → active_claims task (run is_absolute comparable_path rows cs) ≤ 1
  unfolding run
  run-active_claims task [] rows h = h
  run-active_claims task (c ∷ cs) rows h =
      run-active_claims task cs (step is_absolute comparable_path rows c)
        (Effect-active_claims task rows (step-Effect is_absolute comparable_path rows c) h)

  run-IsProven :
      (cs : List OwnerCall) (rows : List ManagedOwnerBinding)
      → All IsProven rows
      → All IsProven (run is_absolute comparable_path rows cs)
  unfolding run
  run-IsProven [] rows h = h
  run-IsProven (c ∷ cs) rows h =
      run-IsProven cs (step is_absolute comparable_path rows c)
        (Effect-IsProven rows (step-Effect is_absolute comparable_path rows c) h)

  -- Whatever claims, transitions and retirements follow on an empty table, a task has at most one claim that is
  -- not retired, and every claim that is ready has the whole evidence.
  pub managed_owner_unique :
      (cs : List OwnerCall) (task : BindingRow)
      → (active_claims task (run is_absolute comparable_path [] cs) ≤ 1)
        × All
            (λ r. (same_state r.state ready && not (is_complete r.evidence)) ≡ false)
            (run is_absolute comparable_path [] cs)
  unfolding count_rows
  managed_owner_unique cs task = (run-active_claims task cs [] (omega arith), run-IsProven cs [] tt)
