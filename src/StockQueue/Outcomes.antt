-- ===== src/StockQueue/Outcomes.antt =====
-- src/codex/native-stock-queue-journal.ts: `markAccepted` and `reconcilePositive`, which settle an admission, and keep
-- the evidence for it.
use vkodex.Prelude.{
  ℕ, Bool, true, false, not, ◌&&◌, ◌||◌, Option, none, some, List, [], ◌∷◌, ◌++◌, any, ◌==◌,
  if◌then◌else◌, is_none, Result, err, ◌>>=◌, ◌>>◌, throw_if,
}
use vkodex.Prelude.JsText.{Text, ◌===◌, is_empty}
use vkodex.Prelude.JsMap.{has_duplicate}
use vkodex.Json.{Value, null}
use vkodex.OperationJournal.Tables.{update_rows, count_rows}
use vkodex.StockQueue.Tables.{
  Runtime, reserved, accepted, unknown, same_phase, OpRow, TaskRow, Positive, queued, started,
  PositiveProof, Evidence, positive, late_stock, EvidenceRow, Journal, StockError,
  incomplete_receipt, not_written_conflict, unknown_needs_proof, late_receipt_unproven,
  late_receipt_conflict, stock_receipt_conflict, phase_conflict, duplicate_stock_id,
  incomplete_proof, source_changed, intent_conflict, stock_conflict, turn_conflict, different_proof,
  operation_absent, stale_version, non_json, is_fingerprint, is_plain, is_array, is_safe, find_op,
  task_row, StockQueueOperation, read_back, bump,
}
use vkodex.StockQueue.Reserve.{identify, in_phase}

abbrev pub stock_ids : List OpRow → List Text
stock_ids [] = []
stock_ids (r ∷ rows) = elim r.stock_id [ none ↦ stock_ids rows | some id ↦ id ∷ stock_ids rows ]

-- An UPDATE that must change one row, under the unique index on the stock IDs; the evidence that is
-- added with it; the bump of the version; and the row that is read back.
unfoldable pub settle_op :
    Journal
    → TaskRow
    → Text
    → (OpRow → Bool)
    → (OpRow → OpRow)
    → List EvidenceRow
    → Bool
    → StockError
    → Result StockError (Journal × StockQueueOperation)
settle_op j task id test set evidence publication conflict = do
  let rows = update_rows test set j.ops
  throw_if (has_duplicate (stock_ids rows)) duplicate_stock_id
  throw_if (not (count_rows test j.ops == 1)) conflict
  read_back (bump (record j { ops = rows; evidence = j.evidence ++ evidence }) task publication) id

-- The optional arguments of `markAccepted`; `source_current` is what `assertSourceCurrent` answers.
pub record LateProof : Type 0 where
  pub input : Option Value
  pub source_generation : Option Text
  pub client_user_message_id : Option Text
  pub thread_id : Option Text
  pub source_current : Option Bool

abbrev is_given : Option Text → Text → Bool
is_given none t = false
is_given (some s) t = s === t

abbrev is_current : Option Bool → Bool
is_current none = false
is_current (some b) = b

-- The input was given as an array, and is the one that was stored.
abbrev is_stored_input : Runtime → Option Value → Value → Bool
is_stored_input rt none stored = false
is_stored_input rt (some v) stored = is_array v && rt.deep_equal v stored

abbrev pub set_stock : Text → OpRow → OpRow
set_stock stock_id r = record r { stock_id = some stock_id }

abbrev pub set_accepted : Text → OpRow → OpRow
set_accepted stock_id r = record r { phase = accepted; stock_id = some stock_id }

-- WHERE op_id=? AND phase='accepted' AND stock_id IS NULL AND consumed=1
abbrev pub lacks_stock : Text → OpRow → Bool
lacks_stock id r = in_phase id accepted r && is_none r.stock_id && r.consumed

abbrev pub late_evidence : Runtime → Journal → OpRow → Text → Option Value → EvidenceRow
late_evidence rt j op stock_id input = record {
  op_id = op.op_id;
  evidence = late_stock (record {
    source_generation = j.source_generation;
    stock_id = stock_id;
    input_hash = elim input [ none ↦ [] | some v ↦ rt.hash_json v ];
  });
}

unfoldable pub fill_late_stock :
    Runtime
    → Journal
    → TaskRow
    → OpRow
    → Text
    → LateProof
    → Result StockError (Journal × StockQueueOperation)
unfolding settle_op
fill_late_stock rt j task op stock_id late = do
  throw_if
      (not (is_given late.source_generation j.source_generation)
        || not (is_given late.client_user_message_id op.op_id)
        || not (is_given late.thread_id j.task_id)
        || not (is_current late.source_current)
        || not (is_stored_input rt late.input op.stock_input))
      late_receipt_unproven
  settle_op j task op.op_id (lacks_stock op.op_id) (set_stock stock_id)
      (late_evidence rt j op stock_id late.input ∷ []) false late_receipt_conflict

-- A receipt for an operation that is accepted already.
unfoldable pub accept_again :
    Runtime
    → Journal
    → TaskRow
    → OpRow
    → Text
    → LateProof
    → Result StockError (Journal × StockQueueOperation)
unfolding fill_late_stock
accept_again rt j task op stock_id late =
    if is_none op.stock_id && op.consumed
    then fill_late_stock rt j task op stock_id late
    else if not (is_given op.stock_id stock_id)
    then err stock_receipt_conflict
    else read_back j op.op_id

unfoldable pub mark_accepted :
    Runtime
    → Journal
    → Text
    → Text
    → Text
    → LateProof
    → Result StockError (Journal × StockQueueOperation)
unfolding accept_again settle_op
mark_accepted rt j id fingerprint stock_id late = do
  throw_if (is_empty id || not (is_fingerprint fingerprint) || is_empty stock_id) incomplete_receipt
  (task, op) ← identify j id fingerprint
  throw_if (not (is_none op.not_written)) not_written_conflict
  throw_if (same_phase op.phase unknown) unknown_needs_proof
  if same_phase op.phase accepted
      then accept_again rt j task op stock_id late
      else settle_op j task id (in_phase id reserved) (set_accepted stock_id) [] true phase_conflict

abbrev promised_id : Positive → Text
promised_id (queued stock_id) = stock_id
promised_id (started turn_id) = turn_id

abbrev same_promise : Positive → Positive → Bool
same_promise (queued a) (queued b) = a === b
same_promise (started a) (started b) = a === b
same_promise _ _ = false

-- `isDeepStrictEqual` on two proofs.
abbrev same_proof : Runtime → PositiveProof → PositiveProof → Bool
same_proof rt p q =
    p.task_id === q.task_id
    && p.owner_epoch === q.owner_epoch
    && p.source_generation === q.source_generation
    && p.source_revision == q.source_revision
    && p.client_user_message_id === q.client_user_message_id
    && rt.deep_equal p.input q.input
    && rt.deep_equal p.admission_evidence q.admission_evidence
    && rt.deep_equal p.effective_settings q.effective_settings
    && same_promise p.kind q.kind

abbrev is_this_proof : Runtime → PositiveProof → Evidence → Bool
is_this_proof rt p (positive q) = same_proof rt q p
is_this_proof rt p (late_stock _) = false

-- The stock ID, the turn ID and the mark that the row gets.
abbrev stock_after : Positive → OpRow → Option Text
stock_after (queued stock_id) op = some stock_id
stock_after (started turn_id) op = op.stock_id

abbrev turn_after : Positive → OpRow → Option Text
turn_after (queued stock_id) op = op.accepted_turn_id
turn_after (started turn_id) op = some turn_id

abbrev consumed_after : Positive → OpRow → Bool
consumed_after (queued stock_id) op = op.consumed
consumed_after (started turn_id) op = true

-- Both are there, and differ.
abbrev conflicts : Option Text → Option Text → Bool
conflicts (some a) (some b) = not (a === b)
conflicts _ _ = false

unfoldable pub check_proof : Runtime → Journal → ℕ → PositiveProof → Result StockError (Unit {0})
check_proof rt j expected_version p = do
  throw_if
      (not (is_safe expected_version)
        || not (p.task_id === j.task_id)
        || not (p.owner_epoch === j.owner_epoch)
        || not (p.source_generation === j.source_generation)
        || not p.complete
        || not (is_safe p.source_revision)
        || is_empty p.client_user_message_id
        || not (is_array p.input)
        || not (is_plain p.admission_evidence)
        || not (is_plain p.effective_settings)
        || is_empty (promised_id p.kind))
      incomplete_proof
  throw_if
      (not (rt.round_trips p.input)
        || not (rt.round_trips p.admission_evidence)
        || not (rt.round_trips p.effective_settings))
      non_json

-- WHERE op_id=? AND phase IN ('reserved','unknown')
abbrev pub reconcilable : Text → OpRow → Bool
reconcilable id r = r.op_id === id && not (same_phase r.phase accepted)

abbrev pub set_reconciled : Positive → OpRow → OpRow → OpRow
set_reconciled kind op r = record r {
  phase = accepted;
  stock_id = stock_after kind op;
  accepted_turn_id = turn_after kind op;
  consumed = consumed_after kind op;
}

abbrev settings_or_null : TaskRow → Value
settings_or_null task = elim task.settings [ none ↦ null | some v ↦ v ]

unfoldable pub reconcile_found :
    Runtime
    → Journal
    → ℕ
    → PositiveProof
    → TaskRow
    → OpRow
    → Result StockError (Journal × StockQueueOperation)
unfolding settle_op
reconcile_found rt j expected_version p task op = do
  throw_if (not (task.version == expected_version)) stale_version
  throw_if (not (is_none op.not_written)) not_written_conflict
  throw_if
      (not (rt.deep_equal p.input op.stock_input)
        || not (rt.deep_equal p.admission_evidence op.admission_evidence)
        || not (rt.deep_equal p.effective_settings (settings_or_null task)))
      intent_conflict
  throw_if (conflicts op.stock_id (stock_after p.kind op)) stock_conflict
  throw_if (conflicts op.accepted_turn_id (turn_after p.kind op)) turn_conflict
  if same_phase op.phase accepted
      then (if any (λ e. e.op_id === op.op_id && is_this_proof rt p e.evidence) j.evidence
          then read_back j op.op_id
          else err different_proof)
      else settle_op j task op.op_id (reconcilable op.op_id) (set_reconciled p.kind op)
          ((record { op_id = op.op_id; evidence = positive p }) ∷ []) true phase_conflict

-- `source_current` is what `assertSourceCurrent` answers.
unfoldable pub reconcile_positive :
    Runtime → Journal → ℕ → PositiveProof → Bool → Result StockError (Journal × StockQueueOperation)
unfolding check_proof reconcile_found
reconcile_positive rt j expected_version p source_current = do
  check_proof rt j expected_version p
  throw_if (not source_current) source_changed
  task ← task_row j
  elim task [
    | none ↦ err operation_absent
    | some row ↦ elim (find_op j.ops p.client_user_message_id) [
      | none ↦ err operation_absent
      | some op ↦ reconcile_found rt j expected_version p row op
    ]
  ]
