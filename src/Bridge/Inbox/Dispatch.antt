-- ===== src/Bridge/Inbox/Dispatch.antt =====
-- src/bridge/store.ts: a prompt operation, from its reservation with the messages that form it to its
-- result, and what a restart makes of the journal.
use vkodex.Prelude.{
  ℕ, ◌+◌, ◌*◌, Bool, true, false, not, ◌&&◌, ◌||◌, Option, none, some, List, [], ◌∷◌, ◌++◌, ltb,
  leb, is_none, keep, if◌then◌else◌, Result, ok, err, ◌>>=◌, ◌>>◌, throw_if,
}
use vkodex.Prelude.JsText.{Text, ◌===◌}
use vkodex.Prelude.JsMap.{includes}
use vkodex.OperationJournal.Tables.{update_rows}
use vkodex.Bridge.Inbox.Tables.{
  InputState, processing, sending, retryable, InputRow, OperationRow, OperationState, op_sending,
  op_uncertain, DispatchRow, Inbox, InboxError, no_inbox_key, not_prepared, constraint_failed,
  is_replayable, is_preparing, input_state, find_operation, find_dispatch,
}
use vkodex.Bridge.Inbox.Replay.{set_state, finished, finish_inputs, limit_rows}

abbrev pub prepared : Option InputState → Bool
prepared none = false
prepared (some s) = is_preparing s

unfoldable pub all_prepared : List InputRow → List Text → Bool
all_prepared rows [] = true
all_prepared rows (k ∷ ks) = prepared (input_state rows k) && all_prepared rows ks

-- UPDATE bridge_inbox SET state = 'sending' WHERE id = ?
unfoldable pub send_keys : List InputRow → List Text → List InputRow
send_keys rows [] = rows
send_keys rows (k ∷ ks) = send_keys (update_rows (λ r. r.id === k) (set_state sending) rows) ks

-- INSERT INTO bridge_operations
unfoldable pub insert_operation : Inbox → Text → Text → Result InboxError Inbox
insert_operation box id task =
    if is_none (find_operation box.operations id)
    then ok (record box {
      operations = box.operations ++ (record { id = id; task_key = task; state = op_sending } ∷ []);
    })
    else err constraint_failed

abbrev pub new_dispatch : Text → Text → Text → List Text → ℕ → DispatchRow
new_dispatch id binding key keys now = record {
  operation_id = id;
  binding_id = binding;
  inbox_key = key;
  inbox_keys = some keys;
  created_at = now;
  last_checked_at = none;
}

-- INSERT INTO bridge_operation_inputs, with its primary key and the foreign key of the binding.
unfoldable pub insert_dispatch : Inbox → DispatchRow → Result InboxError Inbox
insert_dispatch box row =
    if is_none (find_dispatch box.dispatches row.operation_id)
      && includes box.bindings row.binding_id
    then ok (record box { dispatches = box.dispatches ++ (row ∷ []) })
    else err constraint_failed

unfoldable pub begin_prompt_dispatch :
    Inbox → Text → Text → List Text → Text → ℕ → Result InboxError Inbox
begin_prompt_dispatch box id task [] binding now = err no_inbox_key
begin_prompt_dispatch box id task (key ∷ keys) binding now =
    throw_if (not (all_prepared box.inputs (key ∷ keys))) not_prepared
    >> insert_operation box id task
    >>= λ opened. insert_dispatch opened (new_dispatch id binding key (key ∷ keys) now) >>= λ filed.
        ok (record filed { inputs = send_keys filed.inputs (key ∷ keys) })

unfoldable pub recorded_input :
    Inbox → Text → Option Text → Option Text → ℕ → Result InboxError Inbox
recorded_input box id (some key) (some binding) now =
    insert_dispatch box (new_dispatch id binding key (key ∷ []) now)
recorded_input box id (some key) none now = ok box
recorded_input box id none binding now = ok box

-- An empty key or binding ID counts as none.
unfoldable pub record_operation :
    Inbox → Text → Text → Option Text → Option Text → ℕ → Result InboxError Inbox
record_operation box id task key binding now =
    insert_operation box id task >>= λ opened. recorded_input opened id key binding now

unfoldable pub mark_operation_checked : Inbox → Text → ℕ → Inbox
mark_operation_checked box id now = record box {
  dispatches =
      update_rows (λ r. r.operation_id === id) (λ r. record r { last_checked_at = some now })
        box.dispatches;
}

unfoldable pub finish_operation : Inbox → Text → OperationState → Inbox
finish_operation box id s = record box {
  operations = update_rows (λ r. r.id === id) (λ r. record r { state = s }) box.operations;
}

abbrev pub is_uncertain_operation : OperationState → Bool
is_uncertain_operation op_uncertain = true
is_uncertain_operation _ = false

-- A list that is empty or damaged still leaves the first key.
unfoldable pub saved_keys : Text → Option (List Text) → List Text
saved_keys key none = key ∷ []
saved_keys key (some []) = key ∷ []
saved_keys key (some (k ∷ ks)) = k ∷ ks

unfoldable pub settle_found : Inbox → OperationState → Option DispatchRow → Inbox
settle_found box s none = box
settle_found box s (some row) = record box {
  inputs =
      finish_inputs box.inputs (saved_keys row.inbox_key row.inbox_keys) (is_uncertain_operation s);
}

unfoldable pub settle_prompt_dispatch : Inbox → Text → OperationState → Inbox
settle_prompt_dispatch box id s =
    settle_found (finish_operation box id s) s (find_dispatch box.dispatches id)

abbrev pub is_in_flight : InputState → Bool
is_in_flight processing = true
is_in_flight sending = true
is_in_flight _ = false

abbrev pub is_sending_operation : OperationState → Bool
is_sending_operation op_sending = true
is_sending_operation _ = false

-- The four statements of `recover` on these tables, in their order.
unfoldable pub recover : Inbox → Inbox
recover box =
    let prepared = update_rows (λ r. is_preparing r.state) (set_state retryable) box.inputs in
    let closed = update_rows (λ r. is_in_flight r.state) (finished true) prepared in
    let replayed =
      update_rows (λ r. is_replayable r.state) (λ r. record r { replay_after = some 0 }) closed in
    record box {
      inputs = replayed;
      operations =
          update_rows (λ r. is_sending_operation r.state) (λ r. record r { state = op_uncertain })
            box.operations;
    }

-- `last_checked_at IS NULL OR last_checked_at > ? OR last_checked_at <= ?`. Before the first five
-- minutes of the epoch the second bound is negative.
abbrev pub check_due : ℕ → Option ℕ → Bool
check_due now none = true
check_due now (some t) = ltb now t || leb (t + 5 * 60000) now

-- The operations joined with their inputs, the youngest first.
unfoldable pub uncertain_operations : List DispatchRow → ℕ → List OperationRow → List DispatchRow
uncertain_operations dispatches now [] = []
uncertain_operations dispatches now (op ∷ ops) =
    let younger = uncertain_operations dispatches now ops in
    if is_uncertain_operation op.state
    then younger
      ++ keep (λ d. d.operation_id === op.id && check_due now d.last_checked_at) dispatches
    else younger

unfoldable pub uncertain_prompt_operations : Inbox → ℕ → ℕ → List DispatchRow
uncertain_prompt_operations box now limit =
    limit_rows limit (uncertain_operations box.dispatches now box.operations)
