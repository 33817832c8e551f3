-- ===== src/Bridge/Inbox/Filed.antt =====
-- src/bridge/store.ts: what a prompt operation finds and leaves in the tables, where its calls return.
use vkodex.Prelude.{ℕ, ◌≡◌, true, Option, none, List, [], ◌∷◌, ◌++◌, arith, ok}
use vkodex.Prelude.JsText.{Text}
use vkodex.Bridge.Inbox.Tables.{op_sending, DispatchRow, Inbox, find_operation, find_dispatch}
use vkodex.Bridge.Inbox.Dispatch.{
  all_prepared, send_keys, insert_operation, insert_dispatch, new_dispatch, begin_prompt_dispatch,
  recorded_input, record_operation,
}

abbrev opened : Inbox → Text → Text → Inbox
opened box id task = record box {
  operations = box.operations ++ (record { id = id; task_key = task; state = op_sending } ∷ []);
}

abbrev filed : Inbox → DispatchRow → Inbox
filed box row = record box { dispatches = box.dispatches ++ (row ∷ []) }

insert_operation-ok :
    (box : Inbox) (id task : Text) {box' : Inbox}
    → insert_operation box id task ≡ ok box'
    → (find_operation box.operations id ≡ none) × (box' ≡ opened box id task)
unfolding insert_operation
insert_operation-ok box id task e = ground arith

insert_dispatch-ok :
    (box : Inbox) (row : DispatchRow) {box' : Inbox}
    → insert_dispatch box row ≡ ok box'
    → (find_dispatch box.dispatches row.operation_id ≡ none) × (box' ≡ filed box row)
unfolding insert_dispatch
insert_dispatch-ok box row e = ground arith

-- The first row of the keys, as the operation files it.
abbrev pub dispatch_row : Text → Text → List Text → ℕ → DispatchRow
dispatch_row id binding [] now = new_dispatch id binding [] [] now
dispatch_row id binding (key ∷ keys) now = new_dispatch id binding key (key ∷ keys) now

pub record Begun (box : Inbox) (id task : Text) (keys : List Text) (binding : Text) (now : ℕ)
    (box' : Inbox) : Type 0 where
  pub was_prepared : all_prepared box.inputs keys ≡ true
  pub new_operation : find_operation box.operations id ≡ none
  pub new_row : find_dispatch box.dispatches id ≡ none
  pub written : box' ≡ record box {
    inputs = send_keys box.inputs keys;
    operations = box.operations ++ (record { id = id; task_key = task; state = op_sending } ∷ []);
    dispatches = box.dispatches ++ (dispatch_row id binding keys now ∷ []);
  }

pub begin_prompt_dispatch-ok :
    (box : Inbox) (id task : Text) (keys : List Text) (binding : Text) (now : ℕ) {box' : Inbox}
    → begin_prompt_dispatch box id task keys binding now ≡ ok box'
    → Begun box id task keys binding now box'
unfolding begin_prompt_dispatch insert_operation insert_dispatch
begin_prompt_dispatch-ok box id task [] binding now e = cc
begin_prompt_dispatch-ok box id task (key ∷ keys) binding now {box'} e = record {
  was_prepared = ground arith;
  new_operation = ground arith;
  new_row = ground arith;
  written = ground arith;
}

pub record_operation-inputs :
    (box : Inbox) (id task : Text) (key binding : Option Text) (now : ℕ) {box' : Inbox}
    → record_operation box id task key binding now ≡ ok box'
    → box'.inputs ≡ box.inputs
unfolding record_operation recorded_input insert_operation insert_dispatch
record_operation-inputs box id task key binding now e = ground arith
