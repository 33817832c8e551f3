-- ===== src/OperationJournal/Effects.antt =====
-- src/codex/managed-worker-operation-journal.ts: the writes that a command can make. Each lemma says
-- what a command that succeeded did to the journal.
use vkodex.Prelude.{
  ◌≡◌, refl, Bool, true, false, not, ◌&&◌, ◌||◌, Option, none, some, [], ◌∷◌, ◌++◌, ◌==◌, ◌⊎◌,
  arith, is_none, Bool-cases, Result-cases, Option-cases, inl, inr, ok,
}
use vkodex.Prelude.Int.{ℤ}
use vkodex.Prelude.JsText.{Text}
use vkodex.OperationJournal.Tables.{
  WorkerOperationState, dispatching, unknown, same_state, is_open, OperationRow, SettingsRow,
  WorkerOperationIntent, SettingsOperationIntent, WorkerOperation, SettingsOperation,
  same_settings_state, find_operation, has_client, find_settings, has_unconfirmed, selects, settle,
  update_rows,
}
use vkodex.OperationJournal.Commands.{
  Journal, new_row, with_operations, validate_intent, reserve_found, reserve, write_outcome,
  settle_open, settled_again, transition_found, transition,
}
use vkodex.OperationJournal.Settings.{
  new_settings_row, with_settings, reserve_settings, reserve_settings_found, write_settings,
  advance_settings, settings_transition_found, settings_transition, confirm_found, row_state,
  same_bool, confirm_settings, selects_settings, note_ack, confirmable, set_effective,
  is_unknown_row,
}

-- A transition changed nothing, or settled one open row.
pub record Settles (j j' : Journal) (next : WorkerOperationState) (receipt : Option Text)
    (code : Option ℤ) (current : OperationRow) : Type 0 where
  pub was_open : is_open current.state ≡ true
  pub allowed : (same_state next unknown && not (same_state current.state dispatching)) ≡ false
  pub written :
      j'
      ≡ with_operations j (update_rows (selects current) (settle next receipt code) j.db.operations)

module _ (j : Journal) (next : WorkerOperationState) (receipt : Option Text) (code : Option ℤ) where
  settle_open-ok :
      (current expected : OperationRow) {j' : Journal} {a : WorkerOperation}
      → is_open current.state ≡ true
      → settle_open j current expected next receipt code ≡ ok (j', a)
      → Settles j j' next receipt code current
  unfolding settle_open write_outcome
  settle_open-ok current expected o e = ground arith

  settled_again-ok :
      (current expected : OperationRow) {j' : Journal} {a : WorkerOperation}
      → settled_again j current expected next receipt code ≡ ok (j', a)
      → j' ≡ j
  unfolding settled_again
  settled_again-ok current expected e = ground arith

  transition_found-ok :
      (found : Option OperationRow) (expected : OperationRow) {j' : Journal} {a : WorkerOperation}
      → transition_found j found expected next receipt code ≡ ok (j', a)
      → (j' ≡ j)
        ⊎ ((current : OperationRow) × (found ≡ some current)
            × Settles j j' next receipt code current)
  unfolding transition_found
  transition_found-ok none expected e = cc
  transition_found-ok (some current) expected {j'} {a} e =
      elim (Bool-cases (is_open current.state)) [
        | inl o ↦
            inr (current, refl, settle_open-ok current expected {j' = j'} {a = a} o (ground arith))
        | inr n ↦ inl (settled_again-ok current expected {j' = j'} {a = a} (ground arith))
      ]

  pub transition-ok :
      (expected : WorkerOperation) {j' : Journal} {a : WorkerOperation}
      → transition j expected next receipt code ≡ ok (j', a)
      → (j' ≡ j)
        ⊎ ((current : OperationRow) × (find_operation j.db.operations expected.row.operation_id
              ≡ some current)
            × Settles j j' next receipt code current)
  unfolding transition
  transition-ok expected {j'} {a} e =
      transition_found-ok (find_operation j.db.operations expected.row.operation_id) expected.row
        {j' = j'} {a = a} (ground arith)

-- A reservation changed nothing, or added a row that no earlier one clashes with.
pub record Inserts (j j' : Journal) (intent : WorkerOperationIntent) : Type 0 where
  pub valid : validate_intent intent ≡ ok tt
  pub apart : find_settings j.db.settings intent.operation_id ≡ none
  pub absent : find_operation j.db.operations intent.operation_id ≡ none
  pub client : has_client j.db.operations intent.client_user_message_id ≡ false
  pub free : has_unconfirmed j.db ≡ false
  pub written : j' ≡ with_operations j (j.db.operations ++ (new_row intent ∷ []))

reserve_found-ok :
    (j : Journal) (intent : WorkerOperationIntent) (found : Option OperationRow) {j' : Journal}
    {created : Bool} {a : WorkerOperation}
    → validate_intent intent ≡ ok tt
    → find_settings j.db.settings intent.operation_id ≡ none
    → find_operation j.db.operations intent.operation_id ≡ found
    → reserve_found j intent found ≡ ok (j', created, a)
    → (j' ≡ j) ⊎ Inserts j j' intent
unfolding reserve_found
reserve_found-ok j intent none v s f e = inr (record {
  valid = v;
  apart = s;
  absent = f;
  client = ground arith;
  free = ground arith;
  written = ground arith;
})
reserve_found-ok j intent (some row) v s f e = inl (ground arith)

pub reserve-ok :
    (j : Journal) (intent : WorkerOperationIntent) {j' : Journal} {created : Bool}
    {a : WorkerOperation}
    → reserve j intent ≡ ok (j', created, a)
    → (j' ≡ j) ⊎ Inserts j j' intent
unfolding reserve
reserve-ok j intent {j'} {created} {a} e = elim (Result-cases (validate_intent intent)) [
  | inl (_, valid) ↦
      reserve_found-ok j intent (find_operation j.db.operations intent.operation_id) {j' = j'}
        {created = created} {a = a} valid (ground arith) refl (ground arith)
  | inr (_, invalid) ↦ inl (ground arith)
]

-- The same for a settings operation.
pub record InsertsSettings (j j' : Journal) (intent : SettingsOperationIntent) : Type 0 where
  pub apart : find_operation j.db.operations intent.operation_id ≡ none
  pub absent : find_settings j.db.settings intent.operation_id ≡ none
  pub free : has_unconfirmed j.db ≡ false
  pub written : j' ≡ with_settings j (j.db.settings ++ (new_settings_row intent ∷ []))

reserve_settings_found-ok :
    (j : Journal) (intent : SettingsOperationIntent) (found : Option SettingsRow) {j' : Journal}
    {created : Bool} {a : SettingsOperation}
    → find_operation j.db.operations intent.operation_id ≡ none
    → find_settings j.db.settings intent.operation_id ≡ found
    → reserve_settings_found j intent found ≡ ok (j', created, a)
    → (j' ≡ j) ⊎ InsertsSettings j j' intent
unfolding reserve_settings_found
reserve_settings_found-ok j intent none s f e =
    inr (record { apart = s; absent = f; free = ground arith; written = ground arith })
reserve_settings_found-ok j intent (some row) s f e = inl (ground arith)

pub reserve_settings-ok :
    (j : Journal) (intent : SettingsOperationIntent) {j' : Journal} {created : Bool}
    {a : SettingsOperation}
    → reserve_settings j intent ≡ ok (j', created, a)
    → (j' ≡ j) ⊎ InsertsSettings j j' intent
unfolding reserve_settings
reserve_settings-ok j intent {j'} {created} {a} e =
    reserve_settings_found-ok j intent (find_settings j.db.settings intent.operation_id) {j' = j'}
      {created = created} {a = a} (ground arith) refl (ground arith)

-- A write to the settings table changes the rows that it selects.
write_settings-ok :
    (j : Journal) (id : Text) (test : SettingsRow → Bool) (set : SettingsRow → SettingsRow)
    {j' : Journal} {a : SettingsOperation}
    → write_settings j id test set ≡ ok (j', a)
    → j' ≡ with_settings j (update_rows test set j.db.settings)
unfolding write_settings
write_settings-ok j id test set e = ground arith

-- A transition of a settings operation moved one that had more to learn.
pub record Advances (j j' : Journal) (ack : Bool) (current : SettingsRow) : Type 0 where
  pub more : (is_unknown_row current && (not ack || current.rpc_ack)) ≡ false
  pub written :
      j'
      ≡ with_settings j
          (update_rows (selects_settings current) (note_ack (ack || current.rpc_ack)) j.db.settings)

advance_settings-ok :
    (j : Journal) (current : SettingsRow) (expected : SettingsOperation) (ack : Bool) {j' : Journal}
    {a : SettingsOperation}
    → advance_settings j current expected ack ≡ ok (j', a)
    → (j' ≡ j) ⊎ Advances j j' ack current
unfolding advance_settings
advance_settings-ok j current expected ack {j'} {a} e =
    elim (Bool-cases (is_unknown_row current && (not ack || current.rpc_ack))) [
      | inl known ↦ inl (ground arith)
      | inr n ↦
          let stale =
            not (current.revision == expected.revision)
            || not (same_settings_state (row_state current.state) expected.state)
            || not (same_bool current.rpc_ack expected.rpc_ack) in
          elim (Bool-cases stale) [
            | inl s ↦ inl (ground arith)
            | inr current' ↦ inr (record {
              more = n;
              written =
                  write_settings-ok j current.operation_id (selects_settings current)
                    (note_ack (ack || current.rpc_ack)) {j' = j'} {a = a} (ground arith);
            })
          ]
    ]

pub settings_transition-ok :
    (j : Journal) (expected : SettingsOperation) (ack : Bool) {j' : Journal} {a : SettingsOperation}
    → settings_transition j expected ack ≡ ok (j', a)
    → (j' ≡ j)
      ⊎ ((current : SettingsRow) × (find_settings j.db.settings expected.operation_id
            ≡ some current)
          × Advances j j' ack current)
unfolding settings_transition settings_transition_found
settings_transition-ok j expected ack {j'} {a} e =
    elim (Option-cases (find_settings j.db.settings expected.operation_id)) [
      | inl none' ↦ inl (ground arith)
      | inr (current, found) ↦ elim (Bool-cases (is_none current.effective_fingerprint)) [
        | inl open' ↦
            elim (advance_settings-ok j current expected ack {j' = j'} {a = a} (ground arith)) [
              | inl same ↦ inl same
              | inr moved ↦ inr (current, found, moved)
            ]
        | inr done ↦ inl (ground arith)
      ]
    ]

confirm_found-ok :
    (j : Journal) (current : SettingsRow) (expected : SettingsOperation) (effective : Text)
    {j' : Journal} {a : SettingsOperation}
    → confirm_found j (some current) expected effective ≡ ok (j', a)
    → j'
      ≡ with_settings j (update_rows (confirmable current) (set_effective effective) j.db.settings)
unfolding confirm_found write_settings
confirm_found-ok j current expected effective e = ground arith

pub confirm_settings-ok :
    (j : Journal) (expected : SettingsOperation) (effective : Text) {j' : Journal}
    {a : SettingsOperation}
    → confirm_settings j expected effective ≡ ok (j', a)
    → (j' ≡ j)
      ⊎ ((current : SettingsRow) × (find_settings j.db.settings expected.operation_id
            ≡ some current)
          × (j'
              ≡ with_settings j
                  (update_rows (confirmable current) (set_effective effective) j.db.settings)))
unfolding confirm_settings confirm_found
confirm_settings-ok j expected effective {j'} {a} e =
    elim (Option-cases (find_settings j.db.settings expected.operation_id)) [
      | inl none' ↦ inl (ground arith)
      | inr (current, found) ↦ inr (
        current,
        found,
        confirm_found-ok j current expected effective {j' = j'} {a = a} (ground arith),
      )
    ]
