-- ===== src/StockQueue/Reserve.antt =====
-- src/codex/native-stock-queue-journal.ts: `reserve`, `markUnknown`, `markNotWritten`, `consume`, `acknowledgePublication`.
-- Each is one immediate transaction: where it throws, the database is as it was.
use vkodex.Prelude.{
  ℕ, ◌+◌, Bool, true, false, not, ◌&&◌, ◌||◌, Option, none, some, [], ◌∷◌, ◌++◌, leb, ◌==◌, length,
  if◌then◌else◌, is_none, Result, ok, err, ◌>>=◌, ◌>>◌, throw_if,
}
use vkodex.Prelude.JsText.{Text, ◌===◌, is_empty, codes}
use vkodex.Json.{Value, str, obj, keys, prop}
use vkodex.OperationJournal.Tables.{update_rows, count_rows}
use vkodex.StockQueue.Tables.{
  Runtime, Phase, reserved, accepted, unknown, same_phase, NotWrittenEvidence, OpRow, TaskRow,
  Journal, StockError, stale_version, reused_operation, unknown_freezes, prior_unresolved,
  settings_changed, incomplete_intent, non_json, missing_settings, incomplete_receipt,
  identity_conflict, not_written_conflict, cannot_downgrade, phase_conflict, incomplete_not_written,
  not_reserved, turn_required, turn_conflict, version_required, is_fingerprint, is_plain, is_array,
  is_safe, is_safe_from, find_op, select_unresolved, next_seq, task_row, version_of,
  StockQueueOperation, read_back, bump,
}

pub record StockQueueIntent : Type 0 where
  pub expected_version : ℕ
  pub op_id : Text
  pub fingerprint : Text
  pub native_entry : Value
  pub effective_settings : Value
  pub admission_evidence : Value
  pub stock_input : Value
  pub forwarded_upstream : Value

-- `plain(nativeEntry) && nativeEntry.id === opId`
abbrev names_op : Value → Text → Bool
names_op (obj fs) id = elim (prop fs (codes "id")) [ some (str s) ↦ s === id | _ ↦ false ]
names_op _ id = false

-- A plain object with at least one key.
abbrev is_nonempty_object : Value → Bool
is_nonempty_object (obj fs) = not (length (keys fs) == 0)
is_nonempty_object _ = false

unfoldable pub check_intent : Runtime → StockQueueIntent → Result StockError (Unit {0})
check_intent rt i = do
  throw_if
      (not (is_safe i.expected_version)
        || is_empty i.op_id
        || not (is_fingerprint i.fingerprint)
        || not (names_op i.native_entry i.op_id)
        || not (is_plain i.effective_settings)
        || not (is_nonempty_object i.admission_evidence)
        || not (is_array i.stock_input)
        || not (is_plain i.forwarded_upstream))
      incomplete_intent
  throw_if
      (not (rt.round_trips i.native_entry)
        || not (rt.round_trips i.effective_settings)
        || not (rt.round_trips i.admission_evidence)
        || not (rt.round_trips i.stock_input)
        || not (rt.round_trips i.forwarded_upstream))
      non_json

abbrev pub new_op : StockQueueIntent → ℕ → OpRow
new_op i seq = record {
  op_id = i.op_id;
  seq = seq;
  fingerprint = i.fingerprint;
  native_entry = i.native_entry;
  admission_evidence = i.admission_evidence;
  stock_input = i.stock_input;
  forwarded = i.forwarded_upstream;
  phase = reserved;
  stock_id = none;
  accepted_turn_id = none;
  consumed = false;
  not_written = none;
}

abbrev pub check_unresolved : Option Phase → Result StockError (Unit {0})
check_unresolved none = ok tt
check_unresolved (some unknown) = err unknown_freezes
check_unresolved (some reserved) = err prior_unresolved
check_unresolved (some accepted) = ok tt

abbrev changed_settings : Runtime → Option TaskRow → Value → Bool
changed_settings rt none v = false
changed_settings rt (some row) v = elim row.settings [
  | none ↦ false
  | some settings ↦ not (rt.deep_equal settings v)
]

-- The task row that is there, or the one that is inserted.
abbrev pub ensure_task : Journal → Value → Option TaskRow → Result StockError TaskRow
ensure_task j settings none = ok (record {
  owner_epoch = j.owner_epoch;
  source_generation = j.source_generation;
  version = 0;
  settings = some settings;
  publication_version = 0;
  publication_acked_version = 0;
})
ensure_task j settings (some row) = if is_none row.settings then err missing_settings else ok row

unfoldable pub insert_op : Journal → StockQueueIntent → TaskRow → Journal
insert_op j i row = bump (record j { ops = j.ops ++ (new_op i (next_seq j.ops) ∷ []) }) row false

unfoldable pub reserve :
    Runtime → Journal → StockQueueIntent → Result StockError (Journal × StockQueueOperation)
unfolding check_intent insert_op
reserve rt j i = do
  check_intent rt i
  task ← task_row j
  throw_if (not (version_of task == i.expected_version)) stale_version
  throw_if (not (is_none (find_op j.ops i.op_id))) reused_operation
  check_unresolved (select_unresolved j.ops)
  throw_if (changed_settings rt task i.effective_settings) settings_changed
  row ← ensure_task j i.effective_settings task
  read_back (insert_op j i row) i.op_id

-- The task row and the operation that a call names, with its fingerprint; the operation is `op`.
unfoldable pub identify : Journal → Text → Text → Result StockError (TaskRow × OpRow)
identify j id fingerprint = do
  task ← task_row j
  elim task [
    | none ↦ err identity_conflict
    | some row ↦ elim (find_op j.ops id) [
      | none ↦ err identity_conflict
      | some op ↦
          if not (op.fingerprint === fingerprint) then err identity_conflict else ok (row, op)
    ]
  ]

-- WHERE op_id=? AND phase=?
abbrev pub in_phase : Text → Phase → OpRow → Bool
in_phase id phase r = r.op_id === id && same_phase r.phase phase

-- An UPDATE that must change one row, the bump of the version, and the row that is read back.
unfoldable pub write_op :
    Journal
    → TaskRow
    → Text
    → (OpRow → Bool)
    → (OpRow → OpRow)
    → Bool
    → Result StockError (Journal × StockQueueOperation)
write_op j task id test set publication = do
  throw_if (not (count_rows test j.ops == 1)) phase_conflict
  read_back (bump (record j { ops = update_rows test set j.ops }) task publication) id

abbrev pub set_unknown : OpRow → OpRow
set_unknown r = record r { phase = unknown }

unfoldable pub mark_unknown :
    Journal → Text → Text → Result StockError (Journal × StockQueueOperation)
unfolding identify write_op
mark_unknown j id fingerprint = do
  throw_if (is_empty id || not (is_fingerprint fingerprint)) incomplete_receipt
  (task, op) ← identify j id fingerprint
  throw_if (not (is_none op.not_written)) not_written_conflict
  throw_if (same_phase op.phase accepted) cannot_downgrade
  if same_phase op.phase unknown
      then read_back j id
      else write_op j task id (in_phase id reserved) set_unknown false

abbrev pub set_not_written : NotWrittenEvidence → OpRow → OpRow
set_not_written proof r = record r { not_written = some proof }

abbrev is_op : Text → OpRow → Bool
is_op id r = r.op_id === id

-- `expected_version` is the caller's; the proof is what the worker's fence recorded.
unfoldable pub mark_not_written :
    Journal
    → ℕ
    → Text
    → Text
    → NotWrittenEvidence
    → Result StockError (Journal × StockQueueOperation)
unfolding identify write_op
mark_not_written j expected_version id fingerprint proof = do
  throw_if
      (not (is_safe_from 1 expected_version)
        || is_empty id
        || not (is_fingerprint fingerprint)
        || is_empty proof.source_client_id
        || is_empty proof.request_id
        || is_empty proof.worker_operation_id
        || not (is_fingerprint proof.worker_fingerprint)
        || not (is_safe_from 1 proof.worker_revision)
        || not (is_safe_from 1 proof.backend_generation))
      incomplete_not_written
  (task, op) ← identify j id fingerprint
  throw_if (not (task.version == expected_version)) stale_version
  throw_if
      (not (same_phase op.phase reserved)
        || op.consumed
        || not (is_none op.stock_id)
        || not (is_none op.accepted_turn_id)
        || not (is_none op.not_written))
      not_reserved
  write_op j task id (is_op id) (set_not_written proof) false

-- WHERE op_id=? AND accepted_turn_id IS NULL
abbrev pub unconsumed_op : Text → OpRow → Bool
unconsumed_op id r = r.op_id === id && is_none r.accepted_turn_id

abbrev pub set_consumed : Text → OpRow → OpRow
set_consumed turn_id r = record r { accepted_turn_id = some turn_id; consumed = true }

unfoldable pub consume_found :
    Journal
    → TaskRow
    → OpRow
    → Text
    → Option Text
    → Result StockError (Journal × StockQueueOperation)
unfolding write_op
consume_found j task op turn_id none =
    write_op j task op.op_id (unconsumed_op op.op_id) (set_consumed turn_id)
      (same_phase op.phase accepted)
consume_found j task op turn_id (some turn) = do
  throw_if (not (turn === turn_id)) turn_conflict
  read_back j op.op_id

unfoldable pub consume :
    Journal → Text → Text → Text → Bool → Result StockError (Journal × StockQueueOperation)
unfolding identify
consume j id fingerprint turn_id authoritative = do
  throw_if
      (is_empty id || not (is_fingerprint fingerprint) || is_empty turn_id || not authoritative)
      turn_required
  (task, op) ← identify j id fingerprint
  throw_if (not (is_none op.not_written)) not_written_conflict
  consume_found j task op turn_id op.accepted_turn_id

-- The row once a publication is acknowledged; that write bumps the version too.
unfoldable pub acked : TaskRow → ℕ → TaskRow
acked row version = record row { publication_acked_version = version; version = row.version + 1 }

-- What it gives are `acknowledged` and `currentVersion`.
unfoldable pub acknowledge_found : Journal → ℕ → Option TaskRow → Journal × Bool × ℕ
acknowledge_found j version none = (j, false, 0)
acknowledge_found j version (some row) =
    if not (version == row.publication_version) || leb version row.publication_acked_version
    then (j, false, row.publication_version)
    else (record j { task = some (acked row version) }, true, version)

unfoldable pub acknowledge_publication : Journal → ℕ → Result StockError (Journal × Bool × ℕ)
acknowledge_publication j version = do
  throw_if (not (is_safe_from 1 version)) version_required
  task ← task_row j
  ok (acknowledge_found j version task)
