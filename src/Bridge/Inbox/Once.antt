-- ===== src/Bridge/Inbox/Once.antt =====
-- src/bridge/store.ts: the messages of a prompt operation, across every later call and restart.
use vkodex.Prelude.{
  ℕ, ◌≡◌, refl, sym, subst, true, false, Option, none, some, List, [], ◌∷◌, arith, Option-cases,
  Bool-cases, Result-cases, inl, inr, ok, err,
}
use vkodex.Prelude.JsText.{Text, ◌===◌, ===_iff}
use vkodex.Prelude.JsMap.{includes}
use vkodex.OperationJournal.Tables.{update_rows}
use vkodex.InputBatcher.{BridgeInput}
use vkodex.Bridge.Inbox.Tables.{
  sending, InputRow, DispatchRow, OperationState, Inbox, find_input, input_state, not_prepared,
  find_dispatch, input_key,
}
use vkodex.Bridge.Inbox.Replay.{
  set_state, receive_input, reserve_replayable_inputs, payloads, due_rows, claim_known, claim_input,
}
use vkodex.Bridge.Inbox.Dispatch.{
  all_prepared, send_keys, begin_prompt_dispatch, record_operation, finish_operation, settle_found,
  saved_keys, is_uncertain_operation, settle_prompt_dispatch, mark_operation_checked,
}
use vkodex.Bridge.Inbox.Run.{
  Call, receive, reserve, claim, prepare, mark_sending, finish, finish_all, save_batch,
  remove_batch, dispatch, record_call, check, finish_call, settle, restart, step, run,
}
use vkodex.Bridge.Inbox.Rows.{holds, holds-update_rows}
use vkodex.Bridge.Inbox.Filed.{begin_prompt_dispatch-ok, record_operation-inputs}
use vkodex.Bridge.Inbox.Spent.{
  is_spent, spent, receive_known-spent, postpone-spent, claim_known-spent,
  mark_input_preparing-spent, mark_input_sending-spent, finish_input-spent, finish_inputs-spent,
  send_keys-spent, recover-spent,
}

settle_found-spent :
    (k : Text) (box : Inbox) (s : OperationState) (o : Option DispatchRow)
    → spent box.inputs k ≡ true
    → spent (settle_found box s o).inputs k ≡ true
unfolding settle_found
settle_found-spent k box s none e = e
settle_found-spent k box s (some row) e =
    finish_inputs-spent k (saved_keys row.inbox_key row.inbox_keys) box.inputs
      (is_uncertain_operation s) e

module _ (byte_length : BridgeInput → ℕ) (k : Text) where
  step-spent :
      (box : Inbox) (c : Call)
      → spent box.inputs k ≡ true
      → spent (step byte_length box c).inputs k ≡ true
  unfolding step receive_input reserve_replayable_inputs claim_input mark_operation_checked
      finish_operation settle_prompt_dispatch
  step-spent box (receive input now) e = ground (
    arith,
    receive_known-spent k box input now (input_key input.peer_id input.event_id)
        (input_state box.inputs (input_key input.peer_id input.event_id)) e,
  )
  step-spent box (reserve now limit) e =
      elim (Result-cases (payloads (due_rows box.inputs now limit))) [
        | inl (inputs, found) ↦
            rw found (postpone-spent k _ (due_rows box.inputs now limit) box.inputs e)
        | inr (x, failed) ↦ rw failed e
      ]
  step-spent box (claim id) e = claim_known-spent k box id _ e
  step-spent box (prepare ids) e = mark_input_preparing-spent k ids box.inputs e
  step-spent box (mark_sending ids) e = mark_input_sending-spent k ids box.inputs e
  step-spent box (finish id lost) e = finish_input-spent k box.inputs id lost e
  step-spent box (finish_all ids lost) e = finish_inputs-spent k ids box.inputs lost e
  step-spent box (save_batch b) e = e
  step-spent box (remove_batch peer id) e = e
  step-spent box (dispatch id task keys binding now) e =
      elim (Result-cases (begin_prompt_dispatch box id task keys binding now)) [
        | inl (box', begun) ↦ rw begun (
            subst (λ b. spent b.inputs k ≡ true)
              (sym (begin_prompt_dispatch-ok box id task keys binding now begun).written)
              (send_keys-spent k keys box.inputs e))
        | inr (x, failed) ↦ rw failed e
      ]
  step-spent box (record_call id task key binding now) e =
      elim (Result-cases (record_operation box id task key binding now)) [
        | inl (box', recorded) ↦ rw recorded (
            subst (λ rows. spent rows k ≡ true)
              (sym (record_operation-inputs box id task key binding now recorded)) e)
        | inr (x, failed) ↦ rw failed e
      ]
  step-spent box (check id now) e = e
  step-spent box (finish_call id s) e = e
  step-spent box (settle id s) e =
      settle_found-spent k (finish_operation box id s) s (find_dispatch box.dispatches id) e
  step-spent box restart e = recover-spent k box e

  run-spent :
      (cs : List Call) (box : Inbox)
      → spent box.inputs k ≡ true
      → spent (run byte_length box cs).inputs k ≡ true
  unfolding run
  run-spent [] box e = e
  run-spent (c ∷ cs) box e = run-spent cs (step byte_length box c) (step-spent box c e)

-- A prepared message is there, and each key of the operation is sent.
module _ (k : Text) where
  pub prepared-holds :
      (keys : List Text) (rows : List InputRow)
      → all_prepared rows keys ≡ true
      → includes keys k ≡ true
      → holds (λ r. true) (find_input rows k) ≡ true
  unfolding includes all_prepared input_state
  prepared-holds [] rows ready member = cc
  prepared-holds (key ∷ keys) rows ready member =
      ground (arith, ===_iff key k, prepared-holds keys rows, Option-cases (find_input rows k))

  held-spent :
      (keys : List Text) (rows : List InputRow)
      → holds (λ r. true) (find_input rows k) ≡ true
      → includes keys k ≡ true
      → spent (send_keys rows keys) k ≡ true
  unfolding includes send_keys spent
  held-spent [] rows there member = cc
  held-spent (key ∷ keys) rows there member = elim (Bool-cases (key === k)) [
    | inl same ↦ send_keys-spent k keys (update_rows (λ r. r.id === key) (set_state sending) rows) (
        holds-update_rows (λ r. r.id === key) (set_state sending) (λ r. true)
          (λ r. is_spent r.state) rows k (λ r. refl)
          (λ r q h.
            let hit : (r.id === key) ≡ true = ground (arith, ===_iff key k, ===_iff r.id key) in
            rw hit refl)
          there)
    | inr other ↦
        held-spent keys (update_rows (λ r. r.id === key) (set_state sending) rows)
          (holds-update_rows (λ r. r.id === key) (set_state sending) (λ r. true) (λ r. true) rows k
            (λ r. refl) (λ r q h. refl) there)
          (ground arith)
  ]

  spent-all_prepared :
      (keys : List Text) (rows : List InputRow)
      → spent rows k ≡ true
      → includes keys k ≡ true
      → all_prepared rows keys ≡ false
  unfolding includes all_prepared spent input_state
  spent-all_prepared [] rows e member = cc
  spent-all_prepared (key ∷ keys) rows e member =
      ground (arith, ===_iff key k, spent-all_prepared keys rows, Option-cases (find_input rows k))

  begin_prompt_dispatch_refused :
      (box : Inbox) (id task : Text) (keys : List Text) (binding : Text) (now : ℕ)
      → spent box.inputs k ≡ true
      → includes keys k ≡ true
      → begin_prompt_dispatch box id task keys binding now ≡ err not_prepared
  unfolding begin_prompt_dispatch includes
  begin_prompt_dispatch_refused box id task [] binding now e member = cc
  begin_prompt_dispatch_refused box id task (key ∷ keys) binding now e member =
      rw (spent-all_prepared (key ∷ keys) box.inputs e member) refl

  claim_input_refused : (box : Inbox) → spent box.inputs k ≡ true → (claim_input box k).1 ≡ false
  unfolding claim_input claim_known spent input_state
  claim_input_refused box e = ground (arith, Option-cases (find_input box.inputs k))

-- Once a prompt operation has begun, whatever calls follow (results, further messages, restarts), none of its
-- messages can be claimed again, and every prompt operation that names one of them is refused.
pub begin_prompt_dispatch_once :
    (byte_length : BridgeInput → ℕ) (box : Inbox) (id task : Text) (keys : List Text)
    (binding : Text) (now : ℕ) (cs : List Call) (k id2 task2 : Text) (keys2 : List Text)
    (binding2 : Text) (now2 : ℕ) {box' : Inbox}
    → begin_prompt_dispatch box id task keys binding now ≡ ok box'
    → includes keys k ≡ true
    → includes keys2 k ≡ true
    → ((claim_input (run byte_length box' cs) k).1 ≡ false)
      × (begin_prompt_dispatch (run byte_length box' cs) id2 task2 keys2 binding2 now2
          ≡ err not_prepared)
begin_prompt_dispatch_once byte_length box id task keys binding now cs k id2 task2 keys2 binding2
      now2 begun member again =
    let b = begin_prompt_dispatch-ok box id task keys binding now begun in
    let sent =
      subst (λ x. spent x.inputs k ≡ true) (sym b.written)
        (held-spent k keys box.inputs (prepared-holds k keys box.inputs b.was_prepared member)
          member) in
    let later = run-spent byte_length k cs _ sent in
    (
      claim_input_refused k _ later,
      begin_prompt_dispatch_refused k _ id2 task2 keys2 binding2 now2 later again,
    )
