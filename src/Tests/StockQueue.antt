-- ===== src/Tests/StockQueue.antt =====
-- src/codex/native-stock-queue-journal.ts: concrete runs of the stock queue journal.
use vkodex.Prelude.{
  ℕ, ◌+◌, ◌≤◌, ◌≡◌, refl, Bool, true, false, not, ◌&&◌, Option, none, some, List, [], ◌∷◌, ok, err,
  arith, map,
}
use vkodex.Prelude
use vkodex.Prelude.JsText.{Text, codes, ◌===◌, is_lower_hex}
use vkodex.Prelude.JsMap.{has_duplicate}
use vkodex.Json.{obj, arr, str, field, end, nil, prop, keys}
use vkodex.OperationJournal.Tables.{count_rows, update_rows}
use vkodex.OperationJournal.Rows.{ids}
use vkodex.StockQueue.Tables.{
  Runtime, NotWrittenEvidence, OpRow, Journal, find_op, is_fingerprint, task_row, select_unresolved,
  max_seq, next_seq, read_back, read_operation, op_view, bump,
}
use vkodex.StockQueue.Reserve.{
  StockQueueIntent, new_op, reserve, check_intent, insert_op, identify, write_op, mark_not_written,
}
use vkodex.StockQueue.Outcomes.{LateProof}
use vkodex.StockQueue.Run.{reserve_write, accept_write, not_written_write, run, step}
use vkodex.StockQueue.Effects.{is_unsettled}
use vkodex.StockQueue.Sound.{op_id, VersionsOk, stock_queue_sound}
use vkodex.StockQueue.Frozen.{not_written_frozen}

-- Values are as in the journal; the hash is a toy.
abbrev runtime : Runtime
runtime = record { deep_equal = λ v w. true; round_trips = λ v. true; hash_json = λ v. codes "h" }

abbrev print_of_op : Text
print_of_op = codes "0123456789abcdef0123456789abcdef0123456789abcdef0123456789abcdef"

abbrev intent : StockQueueIntent
intent = record {
  expected_version = 0;
  op_id = codes "op";
  fingerprint = print_of_op;
  native_entry = obj (field (codes "id") (str (codes "op")) end);
  effective_settings = obj end;
  admission_evidence = obj (field (codes "kind") (str (codes "user")) end);
  stock_input = arr nil;
  forwarded_upstream = obj end;
}

abbrev fresh_journal : Journal
fresh_journal = record {
  task_id = codes "t";
  owner_epoch = codes "e";
  source_generation = codes "g";
  task = none;
  ops = [];
  evidence = [];
}

abbrev no_proof : LateProof
no_proof = record {
  input = none;
  source_generation = none;
  client_user_message_id = none;
  thread_id = none;
  source_current = none;
}

abbrev never_written : NotWrittenEvidence
never_written = record {
  source_client_id = codes "c";
  request_id = codes "r";
  worker_operation_id = codes "w";
  worker_fingerprint = print_of_op;
  worker_revision = 1;
  backend_generation = 1;
}

abbrev frozen_row : OpRow
frozen_row = record (new_op intent 1) { not_written = some never_written }

abbrev frozen_journal : Journal
frozen_journal = record fresh_journal {
  task = some (record {
    owner_epoch = codes "e";
    source_generation = codes "g";
    version = 2;
    settings = some (obj end);
    publication_version = 0;
    publication_acked_version = 0;
  });
  ops = frozen_row ∷ [];
}

freezes :
    run runtime fresh_journal
      (reserve_write intent ∷ not_written_write 1 (codes "op") print_of_op never_written ∷ [])
    ≡ frozen_journal
unfolding run step reserve check_intent is_fingerprint is_lower_hex prop keys task_row find_op
    select_unresolved insert_op next_seq max_seq bump read_back read_operation op_view
    mark_not_written identify write_op count_rows update_rows ◌===◌ Prelude.all
freezes = refl

frozen_row_found : find_op frozen_journal.ops (codes "op") ≡ some frozen_row
unfolding find_op ◌===◌
frozen_row_found = refl

stock_queue_sound_example :
    (count_rows is_unsettled (run runtime fresh_journal (reserve_write intent ∷ [])).ops ≤ 1)
    × (has_duplicate (ids op_id (run runtime fresh_journal (reserve_write intent ∷ [])).ops)
        ≡ false)
    × VersionsOk (run runtime fresh_journal (reserve_write intent ∷ [])).task
stock_queue_sound_example =
    stock_queue_sound runtime (reserve_write intent ∷ []) fresh_journal refl refl

not_written_frozen_example :
    find_op
      (run runtime frozen_journal
        (accept_write (codes "op") print_of_op (codes "s") no_proof ∷ [])).ops
      (codes "op")
    ≡ some frozen_row
not_written_frozen_example =
    not_written_frozen runtime (accept_write (codes "op") print_of_op (codes "s") no_proof ∷ [])
      frozen_journal (codes "op") frozen_row never_written frozen_row_found refl
