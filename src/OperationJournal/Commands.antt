-- ===== src/OperationJournal/Commands.antt =====
-- src/codex/managed-worker-operation-journal.ts: the constructor's scope, the queries, and the
-- commands `reserve`, `markUnknown`, `rejectBeforeWrite`, `accept`, `reject`. Each command is one
-- immediate transaction: where it throws, the database is as it was.
use vkodex.Prelude.{
  ℕ, ◌+◌, Bool, true, false, not, ◌&&◌, ◌||◌, Option, none, some, List, [], ◌∷◌, ◌++◌, ◌==◌,
  if◌then◌else◌, is_none, any, Result, ok, err, ◌>>=◌, ◌>>◌, throw_if, length,
}
use vkodex.Prelude.Int.{ℤ, eq_ℤ, is_safe_integer}
use vkodex.Prelude.JsText.{Text, ◌===◌, is_empty}
use vkodex.Identifiers.{is_bounded, is_uuid, is_hmac, is_positive}
use vkodex.OperationJournal.Tables.{
  WorkerMutationMethod, queue_add, same_method, WorkerOperationState, dispatching, unknown,
  accepted, rejected, same_state, is_open, OperationRow, ScopeRow, Database, WorkerOperationIntent,
  WorkerOperation, find_operation, has_client, find_settings, has_unconfirmed, selects, settle,
  update_rows, count_rows,
}

-- The errors that are thrown, one for each message. `row_absent` is the null that a `!` passes over.
pub data JournalError : Type 0 where
  invalid_id invalid_fingerprint invalid_generation invalid_receipt invalid_code : JournalError
  scope_mismatch intent_conflict operation_id_conflict client_id_conflict : JournalError
  unsettled_blocks stale_identity stale_revision settled_conflict : JournalError
  invalid_unknown not_dispatching receipt_unavailable row_absent : JournalError
  confirmed_conflict ack_and_unknown_required : JournalError

pub record Journal : Type 0 where
  pub scope : ScopeRow
  pub db : Database

unfoldable pub same_scope : ScopeRow → ScopeRow → Bool
same_scope a b =
    a.owner_epoch === b.owner_epoch
    && a.backend_generation == b.backend_generation
    && a.thread_id === b.thread_id

-- The scope that the constructor finds, or else writes.
unfoldable pub claim_scope : Database → ScopeRow → Option ScopeRow → Result JournalError Database
claim_scope db scope none = ok (record db { scope = some scope })
claim_scope db scope (some current) = do
  throw_if (not (same_scope current scope)) scope_mismatch
  ok db

-- The constructor, on the database that the file holds.
unfoldable pub open_journal : Database → ScopeRow → Result JournalError Journal
unfolding claim_scope
open_journal db scope = do
  throw_if (not (is_uuid scope.owner_epoch)) invalid_id
  throw_if (not (is_positive scope.backend_generation)) invalid_generation
  throw_if (not (is_bounded 256 scope.thread_id)) invalid_id
  db' ← claim_scope db scope db.scope
  ok (record { scope = scope; db = db' })

unfoldable pub operation_counts : Journal → ℕ × ℕ
operation_counts j = (length j.db.operations, length j.db.settings)

-- `typeof receipt_id !== 'string' || receipt_id.length === 0`
abbrev pub no_receipt : Option Text → Bool
no_receipt none = true
no_receipt (some r) = is_empty r

abbrev pub receipt_or_empty : Option Text → Text
receipt_or_empty none = []
receipt_or_empty (some r) = r

-- SELECT method, receipt_id FROM managed_worker_operations WHERE state='accepted' ORDER BY rowid
unfoldable pub accepted_rows : List OperationRow → List OperationRow
accepted_rows [] = []
accepted_rows (r ∷ rs) =
    let rest = accepted_rows rs in if same_state r.state accepted then r ∷ rest else rest

unfoldable pub receipts : List OperationRow → List (WorkerMutationMethod × Text)
receipts [] = []
receipts (r ∷ rs) = (r.method, receipt_or_empty r.receipt_id) ∷ receipts rs

unfoldable pub accepted_receipts :
    Journal → Result JournalError (List (WorkerMutationMethod × Text))
accepted_receipts j = do
  throw_if (any (λ r. no_receipt r.receipt_id) (accepted_rows j.db.operations)) receipt_unavailable
  ok (receipts (accepted_rows j.db.operations))

-- The accepted rows whose method is `thread/queue/add`.
unfoldable pub queue_rows : List OperationRow → List OperationRow
queue_rows [] = []
queue_rows (r ∷ rs) =
    let rest = queue_rows rs in if same_method r.method queue_add then r ∷ rest else rest

unfoldable pub submissions : List OperationRow → List (Text × Text)
submissions [] = []
submissions (r ∷ rs) = (r.client_user_message_id, receipt_or_empty r.receipt_id) ∷ submissions rs

unfoldable pub accepted_queue_inputs : Journal → Result JournalError (List (Text × Text))
accepted_queue_inputs j = do
  throw_if
      (any (λ r. is_empty r.client_user_message_id || no_receipt r.receipt_id)
        (queue_rows (accepted_rows j.db.operations)))
      receipt_unavailable
  ok (submissions (queue_rows (accepted_rows j.db.operations)))

unfoldable pub has_client_user_message_id : Journal → Text → Result JournalError Bool
has_client_user_message_id j id = do
  throw_if (not (is_bounded 128 id)) invalid_id
  ok (has_client j.db.operations id)

abbrev pub view : Journal → OperationRow → WorkerOperation
view j row = record { scope = j.scope; row = row }

-- `get`
unfoldable pub get : Journal → Text → Result JournalError (Option WorkerOperation)
get j id = do
  throw_if (not (is_uuid id)) invalid_id
  ok (elim (find_operation j.db.operations id) [ none ↦ none | some row ↦ some (view j row) ])

unfoldable pub validate_intent : WorkerOperationIntent → Result JournalError (Unit {0})
validate_intent intent = do
  throw_if (not (is_uuid intent.operation_id)) invalid_id
  throw_if (not (is_bounded 128 intent.client_user_message_id)) invalid_id
  throw_if (not (is_hmac intent.fingerprint)) invalid_fingerprint

abbrev pub new_row : WorkerOperationIntent → OperationRow
new_row intent = record {
  operation_id = intent.operation_id;
  client_user_message_id = intent.client_user_message_id;
  method = intent.method;
  fingerprint = intent.fingerprint;
  revision = 0;
  state = dispatching;
  receipt_id = none;
  rejection_code = none;
}

abbrev pub with_operations : Journal → List OperationRow → Journal
with_operations j rows = record j { db = record (j.db) { operations = rows } }

-- What `reserve` does once it has looked for the operation ID; `true` is `created`.
unfoldable pub reserve_found :
    Journal
    → WorkerOperationIntent
    → Option OperationRow
    → Result JournalError (Journal × Bool × WorkerOperation)
reserve_found j intent (some row) = do
  throw_if
      (not (row.client_user_message_id === intent.client_user_message_id)
        || not (same_method row.method intent.method)
        || not (row.fingerprint === intent.fingerprint))
      intent_conflict
  ok (j, false, view j row)
reserve_found j intent none = do
  throw_if (has_client j.db.operations intent.client_user_message_id) client_id_conflict
  throw_if (has_unconfirmed j.db) unsettled_blocks
  ok (with_operations j (j.db.operations ++ (new_row intent ∷ [])), true, view j (new_row intent))

unfoldable pub reserve :
    Journal → WorkerOperationIntent → Result JournalError (Journal × Bool × WorkerOperation)
reserve j intent = do
  validate_intent intent
  throw_if (not (is_none (find_settings j.db.settings intent.operation_id))) operation_id_conflict
  reserve_found j intent (find_operation j.db.operations intent.operation_id)

abbrev pub same_text : Option Text → Option Text → Bool
same_text none none = true
same_text none (some t) = false
same_text (some s) none = false
same_text (some s) (some t) = s === t

abbrev pub same_code : Option ℤ → Option ℤ → Bool
same_code none none = true
same_code none (some b) = false
same_code (some a) none = false
same_code (some a) (some b) = eq_ℤ a b

-- The identity that a caller's snapshot must share with the row.
abbrev pub same_identity : OperationRow → OperationRow → Bool
same_identity current expected =
    current.client_user_message_id === expected.client_user_message_id
    && same_method current.method expected.method
    && current.fingerprint === expected.fingerprint

-- A row that is settled already: the same outcome once more, or a conflict.
unfoldable pub settled_again :
    Journal
    → OperationRow
    → OperationRow
    → WorkerOperationState
    → Option Text
    → Option ℤ
    → Result JournalError (Journal × WorkerOperation)
settled_again j current expected next receipt code = do
  throw_if
      (not (current.revision == expected.revision && same_state current.state expected.state)
        && not (current.revision == expected.revision + 1 && is_open expected.state))
      stale_revision
  throw_if
      (not (
        same_state current.state next
        && same_text current.receipt_id receipt
        && same_code current.rejection_code code))
      settled_conflict
  ok (j, view j current)

unfoldable pub read_back :
    Journal
    → List OperationRow
    → Option OperationRow
    → Result JournalError (Journal × WorkerOperation)
read_back j rows none = err row_absent
read_back j rows (some row) = ok (with_operations j rows, view j row)

-- The UPDATE, and the row that is read back.
unfoldable pub write_outcome :
    Journal
    → OperationRow
    → WorkerOperationState
    → Option Text
    → Option ℤ
    → Result JournalError (Journal × WorkerOperation)
unfolding read_back
write_outcome j current next receipt code =
    let rows = update_rows (selects current) (settle next receipt code) j.db.operations in
    if not (count_rows (selects current) j.db.operations == 1)
    then err stale_revision
    else read_back j rows (find_operation rows current.operation_id)

unfoldable pub settle_open :
    Journal
    → OperationRow
    → OperationRow
    → WorkerOperationState
    → Option Text
    → Option ℤ
    → Result JournalError (Journal × WorkerOperation)
settle_open j current expected next receipt code = do
  throw_if
      (not (current.revision == expected.revision) || not (same_state current.state expected.state))
      stale_revision
  throw_if (same_state next unknown && not (same_state current.state dispatching)) invalid_unknown
  write_outcome j current next receipt code

unfoldable pub transition_found :
    Journal
    → Option OperationRow
    → OperationRow
    → WorkerOperationState
    → Option Text
    → Option ℤ
    → Result JournalError (Journal × WorkerOperation)
transition_found j none expected next receipt code = err stale_identity
transition_found j (some current) expected next receipt code = do
  throw_if (not (same_identity current expected)) stale_identity
  if is_open current.state
      then settle_open j current expected next receipt code
      else settled_again j current expected next receipt code

unfoldable pub transition :
    Journal
    → WorkerOperation
    → WorkerOperationState
    → Option Text
    → Option ℤ
    → Result JournalError (Journal × WorkerOperation)
transition j expected next receipt code = do
  throw_if (not (same_scope expected.scope j.scope)) scope_mismatch
  throw_if (not (is_uuid expected.row.operation_id)) invalid_id
  transition_found j (find_operation j.db.operations expected.row.operation_id) expected.row next
      receipt code

unfoldable pub mark_unknown :
    Journal → WorkerOperation → Result JournalError (Journal × WorkerOperation)
mark_unknown j expected = transition j expected unknown none none

unfoldable pub reject_before_write :
    Journal → WorkerOperation → Result JournalError (Journal × WorkerOperation)
reject_before_write j expected = do
  throw_if (not (same_state expected.row.state dispatching)) not_dispatching
  transition j expected rejected none none

unfoldable pub accept :
    Journal → WorkerOperation → Text → Result JournalError (Journal × WorkerOperation)
accept j expected receipt = do
  throw_if (not (is_bounded 256 receipt)) invalid_receipt
  transition j expected accepted (some receipt) none

unfoldable pub reject :
    Journal → WorkerOperation → ℤ → Result JournalError (Journal × WorkerOperation)
reject j expected code = do
  throw_if (not (is_safe_integer code)) invalid_code
  transition j expected rejected none (some code)
