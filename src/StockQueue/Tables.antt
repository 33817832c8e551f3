-- ===== src/StockQueue/Tables.antt =====
-- src/codex/native-stock-queue-journal.ts: the tables, as the rows of the one task that a journal
-- serves, in the order of `seq`, which is the order of insertion. A column of JSON text holds the value
-- that the text parses to. The table `native_stock_not_written` is the field `not_written` of the row
-- that its foreign key names.
use vkodex.Prelude.{
  ℕ, ◌+◌, Bool, true, false, not, ◌&&◌, ◌||◌, Option, none, some, List, [], ◌∷◌, leb, ◌==◌, all,
  length, if◌then◌else◌, max_safe_integer, Result, ok, err, ◌>>=◌, ◌>>◌, throw_if,
}
use vkodex.Prelude.JsText.{Text, ◌===◌, is_empty, is_lower_hex}
use vkodex.Json.{Value, arr, obj}

-- The runtime's functions that the journal calls: `isDeepStrictEqual`; whether a value is what its
-- JSON text parses to; and `hashJson`, the SHA-256 of the JSON text of an array.
pub record Runtime : Type 0 where
  pub deep_equal : Value → Value → Bool
  pub round_trips : Value → Bool
  pub hash_json : Value → Text

pub data Phase : Type 0 where
  reserved accepted unknown : Phase

abbrev pub same_phase : Phase → Phase → Bool
same_phase reserved reserved = true
same_phase accepted accepted = true
same_phase unknown unknown = true
same_phase _ _ = false

pub record NotWrittenEvidence : Type 0 where
  pub source_client_id : Text
  pub request_id : Text
  pub worker_operation_id : Text
  pub worker_fingerprint : Text
  pub worker_revision : ℕ
  pub backend_generation : ℕ

pub record OpRow : Type 0 where
  pub op_id : Text
  pub seq : ℕ
  pub fingerprint : Text
  pub native_entry : Value
  pub admission_evidence : Value
  pub stock_input : Value
  pub forwarded : Value
  pub phase : Phase
  pub stock_id : Option Text
  pub accepted_turn_id : Option Text
  pub consumed : Bool
  pub not_written : Option NotWrittenEvidence

pub record TaskRow : Type 0 where
  pub owner_epoch : Text
  pub source_generation : Text
  pub version : ℕ
  pub settings : Option Value
  pub publication_version : ℕ
  pub publication_acked_version : ℕ

-- What a positive proof promises: a place in the stock queue, or a turn that has started.
pub data Positive : Type 0 where
  queued started : Text → Positive

pub record PositiveProof : Type 0 where
  pub task_id : Text
  pub owner_epoch : Text
  pub source_generation : Text
  pub source_revision : ℕ
  pub complete : Bool
  pub client_user_message_id : Text
  pub input : Value
  pub admission_evidence : Value
  pub effective_settings : Value
  pub kind : Positive

pub record LateStock : Type 0 where
  pub source_generation : Text
  pub stock_id : Text
  pub input_hash : Text

pub data Evidence : Type 0 where
  positive : PositiveProof → Evidence
  late_stock : LateStock → Evidence

pub record EvidenceRow : Type 0 where
  pub op_id : Text
  pub evidence : Evidence

pub record Journal : Type 0 where
  pub task_id : Text
  pub owner_epoch : Text
  pub source_generation : Text
  pub task : Option TaskRow
  pub ops : List OpRow
  pub evidence : List EvidenceRow

-- The reasons of `fail`, one for each place; `duplicate_stock_id` is the unique index's refusal.
pub data StockError : Type 0 where
  fields_required owner_mismatch generation_mismatch missing_settings invalid_page : StockError
  invalid_batch stale_publication not_written_blocks version_required stale_version : StockError
  unresolved_blocks incomplete_intent non_json reused_operation unknown_freezes : StockError
  prior_unresolved settings_changed incomplete_receipt identity_conflict : StockError
  not_written_conflict unknown_needs_proof late_receipt_unproven late_receipt_conflict : StockError
  stock_receipt_conflict phase_conflict duplicate_stock_id operation_absent : StockError
  incomplete_proof source_changed intent_conflict stock_conflict turn_conflict : StockError
  different_proof cannot_downgrade incomplete_not_written not_reserved : StockError
  turn_required : StockError

abbrev pub nonempty : Text → Bool
nonempty s = not (is_empty s)

-- `/^[a-f0-9]{64}$/u`
unfoldable pub is_fingerprint : Text → Bool
is_fingerprint s = length s == 64 && all is_lower_hex s

abbrev pub is_plain : Value → Bool
is_plain (obj fs) = true
is_plain _ = false

abbrev pub is_array : Value → Bool
is_array (arr vs) = true
is_array _ = false

-- `Number.isSafeInteger(n)`, and the same with a lower bound.
abbrev pub is_safe : ℕ → Bool
is_safe n = leb n max_safe_integer

abbrev pub is_safe_from : ℕ → ℕ → Bool
is_safe_from low n = leb low n && leb n max_safe_integer

-- SELECT … WHERE task_id=? AND op_id=?
unfoldable pub find_op : List OpRow → Text → Option OpRow
find_op [] id = none
find_op (r ∷ rs) id = if r.op_id === id then some r else find_op rs id

-- SELECT phase … WHERE phase IN ('reserved','unknown') LIMIT 1
unfoldable pub select_unresolved : List OpRow → Option Phase
select_unresolved [] = none
select_unresolved (r ∷ rs) =
    let rest = select_unresolved rs in if same_phase r.phase accepted then rest else some r.phase

-- SELECT COALESCE(MAX(seq),0)
unfoldable pub max_seq : List OpRow → ℕ
max_seq [] = 0
max_seq (r ∷ rs) = let rest = max_seq rs in if leb rest r.seq then r.seq else rest

unfoldable pub next_seq : List OpRow → ℕ
next_seq rs = max_seq rs + 1

-- `taskRow`
unfoldable pub task_row : Journal → Result StockError (Option TaskRow)
task_row j = elim j.task [
  | none ↦ ok none
  | some row ↦
      if not (row.owner_epoch === j.owner_epoch)
      then err owner_mismatch
      else if not (row.source_generation === j.source_generation)
      then err generation_mismatch
      else ok (some row)
]

abbrev pub version_of : Option TaskRow → ℕ
version_of none = 0
version_of (some row) = row.version

abbrev pub settings_of : Option TaskRow → Option Value
settings_of none = none
settings_of (some row) = row.settings

-- `opView`: the row, with the task's settings.
pub record StockQueueOperation : Type 0 where
  pub row : OpRow
  pub effective_settings : Value

unfoldable pub op_view : Option Value → OpRow → Result StockError StockQueueOperation
op_view none row = err missing_settings
op_view (some settings) row = ok (record { row = row; effective_settings = settings })

-- `readOperation`
unfoldable pub read_operation : Journal → Text → Result StockError (Option StockQueueOperation)
unfolding task_row op_view
read_operation j id = do
  throw_if (is_empty id) fields_required
  task ← task_row j
  elim (find_op j.ops id) [
    | none ↦ ok none
    | some row ↦ (op_view (settings_of task) row >>= λ v. ok (some v))
  ]

-- `this.readOperation(opId) ?? fail(…)`, at the end of a write.
unfoldable pub read_back : Journal → Text → Result StockError (Journal × StockQueueOperation)
unfolding read_operation
read_back j id = do
  found ← read_operation j id
  elim found [ none ↦ err operation_absent | some v ↦ ok (j, v) ]

-- `bump`: the version, and the publication's where it changed. The task row was read in the same
-- transaction, so the statement finds the version that it was given.
unfoldable pub bump : Journal → TaskRow → Bool → Journal
bump j row publication = record j {
  task = some (record row {
    version = row.version + 1;
    publication_version = row.publication_version + (if publication then 1 else 0);
  });
}

-- The constructor's checks on its arguments, less the file path.
unfoldable pub open_journal :
    Text → Text → Text → Option TaskRow → List OpRow → List EvidenceRow → Result StockError Journal
open_journal task_id owner_epoch source_generation task ops evidence = do
  throw_if (is_empty task_id || is_empty owner_epoch || is_empty source_generation) fields_required
  ok (record {
    task_id = task_id;
    owner_epoch = owner_epoch;
    source_generation = source_generation;
    task = task;
    ops = ops;
    evidence = evidence;
  })
