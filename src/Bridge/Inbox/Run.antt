-- ===== src/Bridge/Inbox/Run.antt =====
-- src/bridge/store.ts: the calls on the message journal, in any order, restarts among them. A call that
-- throws rolls its transaction back.
use vkodex.Prelude.{ℕ, Bool, Option, List, [], ◌∷◌, Result, ok, err}
use vkodex.Prelude.JsText.{Text}
use vkodex.InputBatcher.{BridgeInput, SavedInputBatch}
use vkodex.Bridge.Inbox.Tables.{Inbox, InboxError, OperationState}
use vkodex.Bridge.Inbox.Replay.{
  set_inputs, receive_input, reserve_replayable_inputs, claim_input, mark_input_preparing,
  mark_input_sending, finish_input, finish_inputs, save_input_batch, remove_input_batch,
}
use vkodex.Bridge.Inbox.Dispatch.{
  begin_prompt_dispatch, record_operation, mark_operation_checked, finish_operation,
  settle_prompt_dispatch, recover,
}

pub data Call : Type 0 where
  receive : BridgeInput → ℕ → Call
  reserve : ℕ → ℕ → Call
  claim : Text → Call
  prepare : List Text → Call
  mark_sending : List Text → Call
  finish : Text → Bool → Call
  finish_all : List Text → Bool → Call
  save_batch : SavedInputBatch → Call
  remove_batch : ℕ → Text → Call
  dispatch : Text → Text → List Text → Text → ℕ → Call
  record_call : Text → Text → Option Text → Option Text → ℕ → Call
  check : Text → ℕ → Call
  finish_call : Text → OperationState → Call
  settle : Text → OperationState → Call
  restart : Call

abbrev pub kept : Inbox → Result InboxError Inbox → Inbox
kept box (ok box') = box'
kept box (err e) = box

abbrev pub kept_with : {A : Type 0} → Inbox → Result InboxError (Inbox × A) → Inbox
kept_with box (ok (box', a)) = box'
kept_with box (err e) = box

module _ (byte_length : BridgeInput → ℕ) where
  unfoldable pub step : Inbox → Call → Inbox
  step box (receive input now) = kept_with box (receive_input byte_length box input now)
  step box (reserve now limit) = kept_with box (reserve_replayable_inputs box now limit)
  step box (claim id) = (claim_input box id).0
  step box (prepare ids) = set_inputs box (mark_input_preparing box.inputs ids)
  step box (mark_sending ids) = set_inputs box (mark_input_sending box.inputs ids)
  step box (finish id lost) = set_inputs box (finish_input box.inputs id lost)
  step box (finish_all ids lost) = set_inputs box (finish_inputs box.inputs ids lost)
  step box (save_batch b) = record box { batches = save_input_batch box.batches b }
  step box (remove_batch peer id) = record box { batches = remove_input_batch box.batches peer id }
  step box (dispatch id task keys binding now) =
      kept box (begin_prompt_dispatch box id task keys binding now)
  step box (record_call id task key binding now) =
      kept box (record_operation box id task key binding now)
  step box (check id now) = mark_operation_checked box id now
  step box (finish_call id s) = finish_operation box id s
  step box (settle id s) = settle_prompt_dispatch box id s
  step box restart = recover box

  unfoldable pub run : Inbox → List Call → Inbox
  run box [] = box
  run box (c ∷ cs) = run (step box c) cs
