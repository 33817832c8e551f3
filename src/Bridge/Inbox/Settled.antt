-- ===== src/Bridge/Inbox/Settled.antt =====
-- src/bridge/store.ts: the result of a prompt operation, and the messages that formed it.
use vkodex.Prelude.{
  ℕ, ◌≡◌, refl, sym, subst, Bool, true, false, none, some, List, [], ◌∷◌, ◌++◌, arith, Option-cases,
  Bool-cases, inl, inr, ok,
}
use vkodex.Prelude.JsText.{Text, ◌===◌, ===_iff, ===_refl}
use vkodex.Prelude.JsMap.{includes}
use vkodex.OperationJournal.Tables.{update_rows}
use vkodex.Bridge.Inbox.Tables.{
  InputState, sending, uncertain, done, InputRow, OperationRow, OperationState, DispatchRow,
  op_sending, Inbox, find_input, input_state, find_operation, operation_state, find_dispatch,
}
use vkodex.Bridge.Inbox.Replay.{set_state, finished, finish_input, finish_inputs}
use vkodex.Bridge.Inbox.Dispatch.{
  send_keys, begin_prompt_dispatch, finish_operation, settle_found, saved_keys,
  is_uncertain_operation, settle_prompt_dispatch,
}
use vkodex.Bridge.Inbox.Rows.{holds, holds-update_rows}
use vkodex.Bridge.Inbox.Filed.{dispatch_row, begin_prompt_dispatch-ok}
use vkodex.Bridge.Inbox.Once.{prepared-holds}

abbrev final_state : Bool → InputState
final_state true = uncertain
final_state false = done

abbrev is_final : Bool → InputState → Bool
is_final true uncertain = true
is_final false done = true
is_final _ _ = false

abbrev is_row : InputRow → Bool
is_row r = true

module _ (k : Text) (lost : Bool) where
  finish_inputs-final :
      (keys : List Text) (rows : List InputRow)
      → holds (λ r. is_final lost r.state) (find_input rows k) ≡ true
      → holds (λ r. is_final lost r.state) (find_input (finish_inputs rows keys lost) k) ≡ true
  unfolding finish_inputs finish_input
  finish_inputs-final [] rows e = e
  finish_inputs-final (key ∷ keys) rows e =
      finish_inputs-final keys (update_rows (λ r. r.id === key) (finished lost) rows) (
        holds-update_rows (λ r. r.id === key) (finished lost) (λ r. is_final lost r.state)
          (λ r. is_final lost r.state) rows k (λ r. refl) (λ r q h. ground arith) e)

  finish_inputs_member :
      (keys : List Text) (rows : List InputRow)
      → holds is_row (find_input rows k) ≡ true
      → includes keys k ≡ true
      → holds (λ r. is_final lost r.state) (find_input (finish_inputs rows keys lost) k) ≡ true
  unfolding finish_inputs finish_input includes
  finish_inputs_member [] rows there member = cc
  finish_inputs_member (key ∷ keys) rows there member = elim (Bool-cases (key === k)) [
    | inl same ↦ finish_inputs-final keys (update_rows (λ r. r.id === key) (finished lost) rows) (
        holds-update_rows (λ r. r.id === key) (finished lost) is_row (λ r. is_final lost r.state)
          rows k (λ r. refl)
          (λ r q h.
            let hit : (r.id === key) ≡ true = ground (arith, ===_iff key k, ===_iff r.id key) in
            rw hit (ground arith))
          there)
    | inr other ↦
        finish_inputs_member keys (update_rows (λ r. r.id === key) (finished lost) rows)
          (holds-update_rows (λ r. r.id === key) (finished lost) is_row is_row rows k (λ r. refl)
            (λ r q h. refl) there)
          (ground arith)
  ]

  send_keys-holds :
      (keys : List Text) (rows : List InputRow)
      → holds is_row (find_input rows k) ≡ true
      → holds is_row (find_input (send_keys rows keys) k) ≡ true
  unfolding send_keys
  send_keys-holds [] rows e = e
  send_keys-holds (key ∷ keys) rows e =
      send_keys-holds keys (update_rows (λ r. r.id === key) (set_state sending) rows) (
        holds-update_rows (λ r. r.id === key) (set_state sending) is_row is_row rows k (λ r. refl)
          (λ r q h. refl) e)

find_dispatch-snoc :
    (rows : List DispatchRow) (r : DispatchRow) (id : Text)
    → r.operation_id ≡ id
    → find_dispatch rows id ≡ none
    → find_dispatch (rows ++ (r ∷ [])) id ≡ some r
unfolding find_dispatch
find_dispatch-snoc [] r id same e = ground (arith, ===_iff r.operation_id id)
find_dispatch-snoc (x ∷ rows) r id same e = ground (arith, find_dispatch-snoc rows r id)

dispatch_row-operation_id :
    (id binding : Text) (keys : List Text) (now : ℕ)
    → (dispatch_row id binding keys now).operation_id ≡ id
dispatch_row-operation_id id binding [] now = refl
dispatch_row-operation_id id binding (key ∷ keys) now = refl

operation_state_settled :
    (rows : List OperationRow) (r : OperationRow) (s : OperationState)
    → operation_state
        (update_rows (λ x. x.id === r.id) (λ x. record x { state = s }) (rows ++ (r ∷ [])))
        r.id
      ≡ some s
unfolding operation_state find_operation update_rows
operation_state_settled [] r s = ground (arith, ===_refl r.id)
operation_state_settled (x ∷ rows) r s = ground (arith, operation_state_settled rows r s)

saved_dispatch_row :
    (id binding : Text) (keys : List Text) (now : ℕ) (k : Text)
    → includes keys k ≡ true
    → includes
        (saved_keys
          (dispatch_row id binding keys now).inbox_key
          (dispatch_row id binding keys now).inbox_keys)
        k
      ≡ true
unfolding saved_keys includes
saved_dispatch_row id binding [] now k e = cc
saved_dispatch_row id binding (key ∷ keys) now k e = e

final_of_holds :
    (k : Text) (lost : Bool) (rows : List InputRow)
    → holds (λ r. is_final lost r.state) (find_input rows k) ≡ true
    → input_state rows k ≡ some (final_state lost)
unfolding input_state
final_of_holds k lost rows e = elim (Option-cases (find_input rows k)) [
  | inl gone ↦ ground arith
  | inr (r, found) ↦ rw found (ground arith)
]

-- Once a prompt operation has begun, settling it gives the operation that result, and every message that formed
-- it is `uncertain` where the result is, `done` otherwise.
pub settle_prompt_dispatch_all :
    (box : Inbox) (id task : Text) (keys : List Text) (binding : Text) (now : ℕ)
    (s : OperationState) (k : Text) {box' : Inbox}
    → begin_prompt_dispatch box id task keys binding now ≡ ok box'
    → includes keys k ≡ true
    → (operation_state (settle_prompt_dispatch box' id s).operations id ≡ some s)
      × (input_state (settle_prompt_dispatch box' id s).inputs k
          ≡ some (final_state (is_uncertain_operation s)))
unfolding settle_prompt_dispatch settle_found finish_operation
settle_prompt_dispatch_all box id task keys binding now s k begun member =
    let b = begin_prompt_dispatch-ok box id task keys binding now begun in
    let row = dispatch_row id binding keys now in
    let lost = is_uncertain_operation s in
    let there =
      send_keys-holds k lost keys box.inputs
        (prepared-holds k keys box.inputs b.was_prepared member) in
    let all =
      finish_inputs_member k lost (saved_keys row.inbox_key row.inbox_keys)
        (send_keys box.inputs keys) there (saved_dispatch_row id binding keys now k member) in
    let found =
      find_dispatch-snoc box.dispatches row id (dispatch_row-operation_id id binding keys now)
        b.new_row in
    subst
      (λ (x : Inbox).
        (operation_state (settle_prompt_dispatch x id s).operations id ≡ some s)
        × (input_state (settle_prompt_dispatch x id s).inputs k ≡ some (final_state lost)))
      (sym b.written)
      (rw found (
        operation_state_settled box.operations
            (record { id = id; task_key = task; state = op_sending }) s,
        final_of_holds k lost
            (finish_inputs (send_keys box.inputs keys) (saved_keys row.inbox_key row.inbox_keys)
              lost)
            all,
      ))
