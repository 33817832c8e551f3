-- ===== src/OperationJournal/Settings.antt =====
-- src/codex/managed-worker-operation-journal.ts: the settings operations, `reserveSettings`,
-- `markSettingsUnknown`, `noteSettingsAck`, `confirmSettings`. Each is one immediate transaction.
use vkodex.Prelude.{
  ◌+◌, Bool, true, false, not, ◌&&◌, ◌||◌, Option, none, some, List, [], ◌∷◌, ◌++◌, ◌==◌,
  if◌then◌else◌, is_none, Result, ok, err, ◌>>◌, throw_if,
}
use vkodex.Prelude.JsText.{Text, ◌===◌}
use vkodex.Identifiers.{is_uuid, is_hmac}
use vkodex.OperationJournal.Tables.{
  SettingsRowState, settings_dispatching, settings_unknown, SettingsRow, SettingsOperationIntent,
  SettingsState, view_dispatching, view_unknown, view_confirmed, same_settings_state,
  SettingsOperation, find_operation, find_settings, has_unconfirmed, update_rows, count_rows,
}
use vkodex.OperationJournal.Commands.{
  JournalError, invalid_id, invalid_fingerprint, scope_mismatch, intent_conflict,
  operation_id_conflict, unsettled_blocks, stale_identity, stale_revision, row_absent,
  confirmed_conflict, ack_and_unknown_required, Journal, same_scope, same_text,
}

abbrev pub row_state : SettingsRowState → SettingsState
row_state settings_dispatching = view_dispatching
row_state settings_unknown = view_unknown

abbrev pub view_state : SettingsRow → SettingsState
view_state row = if is_none row.effective_fingerprint then row_state row.state else view_confirmed

-- `settingsView`
abbrev pub settings_view : Journal → SettingsRow → SettingsOperation
settings_view j row = record {
  scope = j.scope;
  operation_id = row.operation_id;
  fingerprint = row.fingerprint;
  revision = row.revision;
  state = view_state row;
  rpc_ack = row.rpc_ack;
  effective_fingerprint = row.effective_fingerprint;
}

-- `getSettings`
unfoldable pub get_settings : Journal → Text → Result JournalError (Option SettingsOperation)
get_settings j id = do
  throw_if (not (is_uuid id)) invalid_id
  ok (elim (find_settings j.db.settings id) [ none ↦ none | some row ↦ some (settings_view j row) ])

-- `validateSettingsIntent`
unfoldable pub validate_settings_intent : SettingsOperationIntent → Result JournalError (Unit {0})
validate_settings_intent intent = do
  throw_if (not (is_uuid intent.operation_id)) invalid_id
  throw_if (not (is_hmac intent.fingerprint)) invalid_fingerprint

abbrev pub new_settings_row : SettingsOperationIntent → SettingsRow
new_settings_row intent = record {
  operation_id = intent.operation_id;
  fingerprint = intent.fingerprint;
  revision = 0;
  state = settings_dispatching;
  rpc_ack = false;
  effective_fingerprint = none;
}

abbrev pub with_settings : Journal → List SettingsRow → Journal
with_settings j rows = record j { db = record (j.db) { settings = rows } }

unfoldable pub reserve_settings_found :
    Journal
    → SettingsOperationIntent
    → Option SettingsRow
    → Result JournalError (Journal × Bool × SettingsOperation)
reserve_settings_found j intent (some row) = do
  throw_if (not (row.fingerprint === intent.fingerprint)) intent_conflict
  ok (j, false, settings_view j row)
reserve_settings_found j intent none = do
  throw_if (has_unconfirmed j.db) unsettled_blocks
  ok (
    with_settings j (j.db.settings ++ (new_settings_row intent ∷ [])),
    true,
    settings_view j (new_settings_row intent),
  )

unfoldable pub reserve_settings :
    Journal → SettingsOperationIntent → Result JournalError (Journal × Bool × SettingsOperation)
unfolding validate_settings_intent
reserve_settings j intent = do
  validate_settings_intent intent
  throw_if (not (is_none (find_operation j.db.operations intent.operation_id)))
      operation_id_conflict
  reserve_settings_found j intent (find_settings j.db.settings intent.operation_id)

unfoldable pub read_back_settings :
    Journal
    → List SettingsRow
    → Option SettingsRow
    → Result JournalError (Journal × SettingsOperation)
read_back_settings j rows none = err row_absent
read_back_settings j rows (some row) = ok (with_settings j rows, settings_view j row)

-- An UPDATE of the rows that a test selects, and the row that is read back.
unfoldable pub write_settings :
    Journal
    → Text
    → (SettingsRow → Bool)
    → (SettingsRow → SettingsRow)
    → Result JournalError (Journal × SettingsOperation)
unfolding read_back_settings
write_settings j id test set =
    let rows = update_rows test set j.db.settings in
    if not (count_rows test j.db.settings == 1)
    then err stale_revision
    else read_back_settings j rows (find_settings rows id)

-- WHERE operation_id=? AND revision=?
abbrev pub selects_settings : SettingsRow → SettingsRow → Bool
selects_settings current r =
    r.operation_id === current.operation_id && r.revision == current.revision

-- SET state='unknown', rpc_ack=?, revision=revision+1
abbrev pub note_ack : Bool → SettingsRow → SettingsRow
note_ack ack r = record r { state = settings_unknown; rpc_ack = ack; revision = r.revision + 1 }

abbrev pub is_unknown_row : SettingsRow → Bool
is_unknown_row r = same_settings_state (row_state r.state) view_unknown

abbrev pub same_bool : Bool → Bool → Bool
same_bool true b = b
same_bool false b = not b

-- `settingsTransition` on a row that is not confirmed.
unfoldable pub advance_settings :
    Journal
    → SettingsRow
    → SettingsOperation
    → Bool
    → Result JournalError (Journal × SettingsOperation)
advance_settings j current expected ack =
    if not (current.revision == expected.revision)
      || not (same_settings_state (row_state current.state) expected.state)
      || not (same_bool current.rpc_ack expected.rpc_ack)
    then (if ack && current.revision == expected.revision + 1 && current.rpc_ack
        then ok (j, settings_view j current)
        else err stale_revision)
    else if is_unknown_row current && (not ack || current.rpc_ack)
    then ok (j, settings_view j current)
    else write_settings j current.operation_id (selects_settings current)
        (note_ack (ack || current.rpc_ack))

unfoldable pub settings_transition_found :
    Journal
    → Option SettingsRow
    → SettingsOperation
    → Bool
    → Result JournalError (Journal × SettingsOperation)
settings_transition_found j none expected ack = err stale_identity
settings_transition_found j (some current) expected ack =
    if not (current.fingerprint === expected.fingerprint)
    then err stale_identity
    else if is_none current.effective_fingerprint
    then advance_settings j current expected ack
    else if ack && current.rpc_ack
    then ok (j, settings_view j current)
    else err confirmed_conflict

unfoldable pub settings_transition :
    Journal → SettingsOperation → Bool → Result JournalError (Journal × SettingsOperation)
settings_transition j expected ack = do
  throw_if (not (same_scope expected.scope j.scope)) scope_mismatch
  throw_if (not (is_uuid expected.operation_id)) invalid_id
  settings_transition_found j (find_settings j.db.settings expected.operation_id) expected ack

unfoldable pub mark_settings_unknown :
    Journal → SettingsOperation → Result JournalError (Journal × SettingsOperation)
mark_settings_unknown j expected = settings_transition j expected false

unfoldable pub note_settings_ack :
    Journal → SettingsOperation → Result JournalError (Journal × SettingsOperation)
note_settings_ack j expected = settings_transition j expected true

-- WHERE operation_id=? AND revision=? AND state='unknown' AND rpc_ack=1
-- AND effective_fingerprint IS NULL
abbrev pub confirmable : SettingsRow → SettingsRow → Bool
confirmable current r =
    selects_settings current r && is_unknown_row r && r.rpc_ack && is_none r.effective_fingerprint

-- SET effective_fingerprint=?, revision=revision+1
abbrev pub set_effective : Text → SettingsRow → SettingsRow
set_effective effective r = record r {
  effective_fingerprint = some effective;
  revision = r.revision + 1;
}

unfoldable pub confirm_found :
    Journal
    → Option SettingsRow
    → SettingsOperation
    → Text
    → Result JournalError (Journal × SettingsOperation)
confirm_found j none expected effective = err intent_conflict
confirm_found j (some current) expected effective = do
  throw_if (not (current.fingerprint === expected.fingerprint)) intent_conflict
  throw_if
      (not (current.revision == expected.revision)
        || not (same_settings_state (view_state current) expected.state)
        || not (same_bool current.rpc_ack expected.rpc_ack)
        || not (same_text current.effective_fingerprint expected.effective_fingerprint))
      stale_revision
  throw_if (not (same_settings_state (view_state current) view_unknown) || not current.rpc_ack)
      ack_and_unknown_required
  write_settings j current.operation_id (confirmable current) (set_effective effective)

unfoldable pub confirm_settings :
    Journal → SettingsOperation → Text → Result JournalError (Journal × SettingsOperation)
confirm_settings j expected effective = do
  throw_if (not (is_hmac effective)) invalid_fingerprint
  throw_if (not (same_scope expected.scope j.scope)) scope_mismatch
  throw_if (not (is_uuid expected.operation_id)) invalid_id
  confirm_found j (find_settings j.db.settings expected.operation_id) expected effective
