-- ===== src/Tests/Inbox.antt =====
-- src/bridge/store.ts: concrete runs of the message journal.
use vkodex.Prelude.{
  if◌then◌else◌, ltb, keep, ℕ, ◌+◌, ◌<◌, ◌≤◌, ◌≡◌, refl, Bool, true, false, not, ◌&&◌, Option, none,
  some, List, [], ◌∷◌, ok, err, All, arith, is_none, length,
}
use vkodex.Prelude
use vkodex.Prelude.JsText.{Text, codes, ◌===◌}
use vkodex.Prelude.JsMap.{includes}
use vkodex.OperationJournal.Tables.{update_rows}
use vkodex.OperationJournal.Rows.{ids}
use vkodex.Json.Print.{stringify}
use vkodex.InputBatcher.{BridgeInput}
use vkodex.Bridge.Inbox.Tables.{
  preparing, InputRow, op_accepted, Inbox, find_input, input_state, input_key, input_settled,
  operation_state, find_operation, find_dispatch, not_prepared, done,
}
use vkodex.Bridge.Inbox.Replay.{
  receive_input, receive_known, reserve_replayable_inputs, claim_input, due_rows, is_due, sort_rows,
  insert_row, limit_rows, payloads, checked_payload, postpone,
}
use vkodex.Bridge.Inbox.Dispatch.{
  begin_prompt_dispatch, all_prepared, insert_operation, insert_dispatch, send_keys, recover,
  settle_prompt_dispatch,
}
use vkodex.Bridge.Inbox.Run.{Call, receive, reserve, claim, dispatch, settle, restart, step, run}
use vkodex.Bridge.Inbox.Once.{begin_prompt_dispatch_once}
use vkodex.Bridge.Inbox.Restart.{restarted, recover_resumes}
use vkodex.Bridge.Inbox.Handed.{key, reserve_replayable_inputs_total}
use vkodex.Bridge.Inbox.HeldBack.{reserve_replayable_inputs_apart}
use vkodex.Bridge.Inbox.Keyed.{is_safe_call}
use vkodex.Bridge.Inbox.Late.{is_restart}
use vkodex.Bridge.Inbox.Life.{Life}
use vkodex.Bridge.Inbox.Refines.{run-Life}
use vkodex.Bridge.Inbox.Settled.{settle_prompt_dispatch_all}

abbrev hello : BridgeInput
hello = record {
  event_id = codes "message:7";
  merged_event_ids = none;
  peer_id = 2000000005;
  sender_id = 8;
  text = codes "hello";
  has_action = false;
  is_edit = false;
  is_reply = false;
  has_attachment = false;
}

abbrev size : BridgeInput → ℕ
size input = 120

abbrev empty : Inbox
empty = record {
  inputs = [];
  operations = [];
  dispatches = [];
  batches = [];
  bindings = codes "b" ∷ [];
}

abbrev hello_key : Text
hello_key = codes "[2000000005,\"message:7\"]"

key_of_hello : input_key 2000000005 (codes "message:7") ≡ hello_key
unfolding input_key stringify
key_of_hello = refl

abbrev hello_row : InputRow
hello_row = record {
  id = codes "k";
  state = preparing;
  payload = some hello;
  received_at = some 5;
  replay_after = some 10005;
}

abbrev ready : Inbox
ready = record empty { inputs = hello_row ∷ [] }

abbrev begun : Inbox
unfolding begin_prompt_dispatch all_prepared input_state find_input insert_operation insert_dispatch
    find_operation find_dispatch includes send_keys update_rows ◌===◌
begun =
    elim (begin_prompt_dispatch ready (codes "op") (codes "task") (codes "k" ∷ []) (codes "b") 6) [
      | ok box ↦ box
      | err e ↦ ready
    ]

begins :
    begin_prompt_dispatch ready (codes "op") (codes "task") (codes "k" ∷ []) (codes "b") 6
    ≡ ok begun
unfolding begin_prompt_dispatch all_prepared input_state find_input insert_operation insert_dispatch
    find_operation find_dispatch includes send_keys update_rows ◌===◌
begins = refl

is_key : includes (codes "k" ∷ []) (codes "k") ≡ true
unfolding includes ◌===◌
is_key = refl

begin_prompt_dispatch_once_example :
    ((claim_input (run size begun (restart ∷ settle (codes "op") op_accepted ∷ [])) (codes "k")).1
      ≡ false)
    × (begin_prompt_dispatch
          (run size begun (restart ∷ settle (codes "op") op_accepted ∷ []))
          (codes "again")
          (codes "task")
          (codes "k" ∷ [])
          (codes "b")
          9
        ≡ err not_prepared)
begin_prompt_dispatch_once_example =
    begin_prompt_dispatch_once size ready (codes "op") (codes "task") (codes "k" ∷ []) (codes "b") 6
      (restart ∷ settle (codes "op") op_accepted ∷ []) (codes "k") (codes "again") (codes "task")
      (codes "k" ∷ []) (codes "b") 9 begins is_key is_key

found : find_input ready.inputs (codes "k") ≡ some hello_row
unfolding find_input ◌===◌
found = refl

recover_resumes_example :
    (find_input (recover ready).inputs (codes "k") ≡ some (restarted hello_row))
    × ((claim_input (recover ready) (codes "k")).1 ≡ true)
    × (input_settled (recover ready).inputs (codes "k") ≡ false)
    × (is_due 0 (restarted hello_row) ≡ true)
recover_resumes_example = recover_resumes ready (codes "k") 0 found

abbrev calls : List Call
calls = receive hello 100 ∷ restart ∷ []

abbrev between : List Call
between = reserve 250 5 ∷ receive hello 300 ∷ claim hello_key ∷ []

safe_calls : Prelude.all is_safe_call calls ≡ true
unfolding Prelude.all
safe_calls = refl

safe_between : Prelude.all is_safe_call between ≡ true
unfolding Prelude.all
safe_between = refl

no_restart : Prelude.all (λ c. not (is_restart c)) between ≡ true
unfolding Prelude.all
no_restart = refl

reserve_replayable_inputs_total_example :
    (box' : Inbox) × (inputs : List BridgeInput) × (reserve_replayable_inputs
        (run size empty calls)
        200
        10
      ≡ ok (box', inputs))
    × (length inputs ≡ (
        if ltb 10 (length (keep (is_due 200) (run size empty calls).inputs))
        then 10
        else length (keep (is_due 200) (run size empty calls).inputs)))
    × (ids key inputs ≡ ids (λ r. r.id) (due_rows (run size empty calls).inputs 200 10))
reserve_replayable_inputs_total_example =
    reserve_replayable_inputs_total size empty calls 200 10 refl safe_calls

reserve_replayable_inputs_apart_example :
    (box1 : Inbox) × (inputs1 : List BridgeInput) × (box2 : Inbox) × (inputs2 : List BridgeInput)
    × (reserve_replayable_inputs (run size empty calls) 200 10 ≡ ok (box1, inputs1))
    × (reserve_replayable_inputs (run size box1 between) 30199 10 ≡ ok (box2, inputs2))
    × All (λ k. includes (ids key inputs1) k ≡ false) (ids key inputs2)
reserve_replayable_inputs_apart_example =
    reserve_replayable_inputs_apart size empty calls between 200 10 30199 10 refl safe_calls
      safe_between no_restart (omega arith)

settle_prompt_dispatch_all_example :
    (operation_state (settle_prompt_dispatch begun (codes "op") op_accepted).operations (codes "op")
      ≡ some op_accepted)
    × (input_state (settle_prompt_dispatch begun (codes "op") op_accepted).inputs (codes "k")
        ≡ some done)
settle_prompt_dispatch_all_example =
    settle_prompt_dispatch_all ready (codes "op") (codes "task") (codes "k" ∷ []) (codes "b") 6
      op_accepted (codes "k") begins is_key

run-Life_example : Life (input_state ready.inputs (codes "k")) (
    input_state
      (run size ready
        (dispatch (codes "op") (codes "task") (codes "k" ∷ []) (codes "b") 6 ∷ calls)).inputs
      (codes "k"))
run-Life_example =
    run-Life size (dispatch (codes "op") (codes "task") (codes "k" ∷ []) (codes "b") 6 ∷ calls)
      ready (codes "k")

-- The message is handed out after the restart.
handed_out :
    ids key (elim (reserve_replayable_inputs (run size empty calls) 200 10) [
      | ok (box, inputs) ↦ inputs
      | err e ↦ []
    ])
    ≡ hello_key ∷ []
unfolding run step receive_input receive_known input_key stringify input_state find_input recover
    update_rows reserve_replayable_inputs due_rows payloads checked_payload postpone sort_rows
    insert_row limit_rows is_due ◌===◌ ids Prelude.keep
handed_out = refl
