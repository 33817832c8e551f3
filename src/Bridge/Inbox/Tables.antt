-- ===== src/Bridge/Inbox/Tables.antt =====
-- src/bridge/store.ts: the tables `bridge_inbox`, `bridge_operations`, `bridge_operation_inputs` and
-- `bridge_input_batches`, each with its rows in rowid order, and the reads of one row. A payload is the
-- input that its JSON text holds. What `recordNativeOperation` keeps beside them is left out.
use vkodex.Prelude.{
  ℕ, ◌/◌, ◌%◌, ◌+◌, Bool, true, false, not, ◌&&◌, ◌||◌, Option, none, some, List, [], ◌∷◌, ◌++◌,
  zero, suc, ltb, if◌then◌else◌,
}
use vkodex.Prelude.JsText.{Text, ◌===◌}
use vkodex.Json.{arr, num, str, nil, cons}
use vkodex.Json.Print.{stringify}
use vkodex.InputBatcher.{BridgeInput, SavedInputBatch}

pub data InputState : Type 0 where
  received processing preparing sending retryable uncertain done : InputState

pub record InputRow : Type 0 where
  pub id : Text
  pub state : InputState
  pub payload : Option BridgeInput
  pub received_at : Option ℕ
  pub replay_after : Option ℕ

pub data OperationState : Type 0 where
  op_sending op_accepted op_rejected op_uncertain : OperationState

pub record OperationRow : Type 0 where
  pub id : Text
  pub task_key : Text
  pub state : OperationState

-- `inbox_keys` is `none` where the column is NULL or holds no JSON list of texts.
pub record DispatchRow : Type 0 where
  pub operation_id : Text
  pub binding_id : Text
  pub inbox_key : Text
  pub inbox_keys : Option (List Text)
  pub created_at : ℕ
  pub last_checked_at : Option ℕ

-- `bindings` are the IDs of `bridge_bindings`, which a foreign key names.
pub record Inbox : Type 0 where
  pub inputs : List InputRow
  pub operations : List OperationRow
  pub dispatches : List DispatchRow
  pub batches : List SavedInputBatch
  pub bindings : List Text

pub data InboxError : Type 0 where
  input_too_large invalid_input invalid_batch no_inbox_key not_prepared constraint_failed :
      InboxError

-- A safe integer has at most 16 digits.
digits : ℕ → ℕ → Text
digits zero n = []
digits (suc fuel) n =
    let rest = digits fuel (n / 10) in
    if ltb n 10 then (n + 48) ∷ [] else rest ++ ((n % 10 + 48) ∷ [])

-- `JSON.stringify([input.peerId, input.eventId])`
unfoldable pub input_key : ℕ → Text → Text
unfolding digits
input_key peer event = stringify (arr (cons (num (digits 16 peer)) (cons (str event) nil)))

-- `state IN ('received', 'retryable')`
abbrev pub is_replayable : InputState → Bool
is_replayable received = true
is_replayable retryable = true
is_replayable _ = false

abbrev pub is_processing : InputState → Bool
is_processing processing = true
is_processing _ = false

abbrev pub is_preparing : InputState → Bool
is_preparing preparing = true
is_preparing _ = false

-- `["done", "uncertain"].includes(…)`
abbrev pub is_settled : InputState → Bool
is_settled uncertain = true
is_settled done = true
is_settled _ = false

-- SELECT … FROM bridge_inbox WHERE id = ?
unfoldable pub find_input : List InputRow → Text → Option InputRow
find_input [] id = none
find_input (r ∷ rs) id = if r.id === id then some r else find_input rs id

abbrev pub state_of : Option InputRow → Option InputState
state_of none = none
state_of (some r) = some r.state

unfoldable pub input_state : List InputRow → Text → Option InputState
input_state rows id = state_of (find_input rows id)

abbrev pub known_state : Option InputState → Bool
known_state none = false
known_state (some s) = not (is_replayable s)

unfoldable pub has_input : List InputRow → Text → Bool
has_input rows id = known_state (input_state rows id)

abbrev pub settled_state : Option InputState → Bool
settled_state none = false
settled_state (some s) = is_settled s

unfoldable pub input_settled : List InputRow → Text → Bool
input_settled rows id = settled_state (input_state rows id)

-- SELECT … FROM bridge_operations WHERE id = ?
unfoldable pub find_operation : List OperationRow → Text → Option OperationRow
find_operation [] id = none
find_operation (r ∷ rs) id = if r.id === id then some r else find_operation rs id

abbrev pub state_of_operation : Option OperationRow → Option OperationState
state_of_operation none = none
state_of_operation (some r) = some r.state

unfoldable pub operation_state : List OperationRow → Text → Option OperationState
operation_state rows id = state_of_operation (find_operation rows id)

unfoldable pub is_own_operation : List OperationRow → Text → Text → Bool
is_own_operation [] id task = false
is_own_operation (r ∷ rs) id task =
    (r.id === id && r.task_key === task) || is_own_operation rs id task

-- SELECT … FROM bridge_operation_inputs WHERE operation_id = ?
unfoldable pub find_dispatch : List DispatchRow → Text → Option DispatchRow
find_dispatch [] id = none
find_dispatch (r ∷ rs) id = if r.operation_id === id then some r else find_dispatch rs id
