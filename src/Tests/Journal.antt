-- ===== src/Tests/Journal.antt =====
-- src/codex/managed-worker-operation-journal.ts: concrete runs.
use vkodex.Prelude.{◌≡◌, refl, none, some, List, [], ◌∷◌, ◌++◌, all, any, length, ok}
use vkodex.Prelude.Int.{negsuc}
use vkodex.Prelude.JsText.{
  Text, codes, ◌===◌, is_space, trim_start, trim_end, trim, is_hex, is_lower_hex,
}
use vkodex.Identifiers.{is_bounded, hex_run, dash, at_end, matches_uuid, is_uuid, is_positive}
use vkodex.OperationJournal.Tables.{
  queue_add, accepted, OperationRow, ScopeRow, WorkerOperationIntent, SettingsOperationIntent,
  WorkerOperation, find_operation, update_rows, count_rows,
}
use vkodex.OperationJournal.Commands.{
  Journal, open_journal, claim_scope, same_scope, transition, transition_found, settle_open,
  write_outcome, read_back, view, new_row,
}
use vkodex.OperationJournal.Run.{
  Command, reserve_command, accept_command, reject_command, reserve_settings_command, run,
}
use vkodex.OperationJournal.Invariant.{IsSound}
use vkodex.OperationJournal.Sound.{no_rows, journal-IsSound}
use vkodex.OperationJournal.Settled.{settled_forever, transition_again}

abbrev worker_scope : ScopeRow
worker_scope = record {
  owner_epoch = codes "00000000-0000-4000-8000-000000000001";
  backend_generation = 3;
  thread_id = codes "thread";
}

abbrev sixteen : Text
sixteen = codes "0123456789abcdef"

abbrev digest : Text
digest = sixteen ++ sixteen ++ sixteen ++ sixteen

abbrev add_intent : WorkerOperationIntent
add_intent = record {
  operation_id = codes "00000000-0000-4000-8000-00000000000a";
  client_user_message_id = codes "client";
  method = queue_add;
  fingerprint = digest;
}

abbrev settings_intent : SettingsOperationIntent
settings_intent = record {
  operation_id = codes "00000000-0000-4000-8000-00000000000b";
  fingerprint = digest;
}

abbrev opened_journal : Journal
opened_journal = record {
  scope = worker_scope;
  db = record { scope = some worker_scope; operations = []; settings = [] };
}

opened : open_journal no_rows worker_scope ≡ ok opened_journal
unfolding open_journal claim_scope is_uuid is_bounded matches_uuid hex_run dash at_end is_hex
    is_lower_hex is_positive trim trim_start trim_end is_space ◌===◌ all any length
opened = refl

abbrev pending_add : WorkerOperation
pending_add = record { scope = worker_scope; row = new_row add_intent }

abbrev commands : List Command
commands =
    reserve_command add_intent
    ∷ reserve_settings_command settings_intent
    ∷ accept_command pending_add (codes "receipt")
    ∷ reject_command pending_add (negsuc 31)
    ∷ []

journal-IsSound_example : IsSound (run opened_journal commands)
journal-IsSound_example = journal-IsSound worker_scope commands {j = opened_journal} opened

abbrev accepted_row : OperationRow
accepted_row = record (new_row add_intent) {
  state = accepted;
  revision = 1;
  receipt_id = some (codes "receipt");
}

abbrev with_row : OperationRow → Journal
with_row row = record opened_journal {
  db = record { scope = some worker_scope; operations = row ∷ []; settings = [] };
}

-- The reservation and its acceptance, computed.
accepts :
    transition (with_row (new_row add_intent)) pending_add accepted (some (codes "receipt")) none
    ≡ ok (with_row accepted_row, view opened_journal accepted_row)
unfolding transition transition_found settle_open write_outcome read_back same_scope find_operation
    update_rows count_rows is_uuid is_bounded matches_uuid hex_run dash at_end is_hex is_lower_hex
    trim trim_start trim_end is_space ◌===◌ all any length
accepts = refl

found_row :
    find_operation (with_row accepted_row).db.operations add_intent.operation_id ≡ some accepted_row
unfolding find_operation ◌===◌
found_row = refl

settled_forever_example :
    find_operation (run (with_row accepted_row) commands).db.operations add_intent.operation_id
    ≡ some accepted_row
settled_forever_example =
    settled_forever (with_row accepted_row) add_intent.operation_id accepted_row commands found_row
      refl

transition_again_example :
    transition (with_row accepted_row) pending_add accepted (some (codes "receipt")) none
    ≡ ok (with_row accepted_row, view opened_journal accepted_row)
transition_again_example =
    transition_again (with_row (new_row add_intent)) pending_add accepted (some (codes "receipt"))
      none {j' = with_row accepted_row} {a = view opened_journal accepted_row} refl accepts
