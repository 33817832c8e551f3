-- ===== src/Bridge/Inbox/Keyed.antt =====
-- src/bridge/store.ts: the payloads of the message journal, each under the key of its message.
use vkodex.Prelude.{
  ℕ, ◌≡◌, refl, sym, subst, Bool, true, ◌&&◌, Option, none, some, List, [], ◌∷◌, arith, Bool-cases,
  Result-cases, inl, inr, All, All-append, ltb, all,
}
use vkodex.Prelude.JsText.{Text, ◌===◌, ===_iff}
use vkodex.OperationJournal.Tables.{update_rows}
use vkodex.OperationJournal.Rows.{All-update_rows}
use vkodex.InputBatcher.{BridgeInput}
use vkodex.Bridge.Inbox.Tables.{
  InputState, processing, preparing, sending, retryable, InputRow, DispatchRow, OperationState,
  Inbox, input_key, input_state, is_replayable, is_processing, is_preparing, find_dispatch,
}
use vkodex.Bridge.Inbox.Replay.{
  or_else, set_state, fill, finished, new_input, receive_known, receive_input, postpone,
  reserve_replayable_inputs, payloads, due_rows, claim_known, claim_input, mark_input_preparing,
  mark_input_sending, finish_input, finish_inputs, is_safe_integer,
}
use vkodex.Bridge.Inbox.Dispatch.{
  send_keys, begin_prompt_dispatch, record_operation, mark_operation_checked, finish_operation,
  settle_found, saved_keys, is_uncertain_operation, settle_prompt_dispatch, is_in_flight, recover,
}
use vkodex.Bridge.Inbox.Run.{
  Call, receive, reserve, claim, prepare, mark_sending, finish, finish_all, save_batch,
  remove_batch, dispatch, record_call, check, finish_call, settle, restart, step, run,
}
use vkodex.Bridge.Inbox.Filed.{begin_prompt_dispatch-ok, record_operation-inputs}

abbrev pub has_safe_ids : BridgeInput → Bool
has_safe_ids input = is_safe_integer input.peer_id && is_safe_integer input.sender_id

-- A call that brings a message has the messenger's IDs, which are safe integers.
abbrev pub is_safe_call : Call → Bool
is_safe_call (receive input now) = has_safe_ids input
is_safe_call _ = true

abbrev pub KeyedBy : Text → Option BridgeInput → Type 0
KeyedBy id none = Unit
KeyedBy id (some input) =
    (input_key input.peer_id input.event_id ≡ id) × (has_safe_ids input ≡ true)

abbrev pub IsKeyed : InputRow → Type 0
IsKeyed r = KeyedBy r.id r.payload

-- An update that touches no payload.
module _ (test : InputRow → Bool) (s : InputState) where
  set_state-IsKeyed :
      (rows : List InputRow) → All IsKeyed rows → All IsKeyed (update_rows test (set_state s) rows)
  set_state-IsKeyed rows h = All-update_rows test (set_state s) IsKeyed rows (λ r t p. p) h

fill-IsKeyed :
    (input : BridgeInput) (now : ℕ) (r : InputRow)
    → (r.id === input_key input.peer_id input.event_id) ≡ true
    → has_safe_ids input ≡ true
    → (o : Option BridgeInput) → KeyedBy r.id o
    → KeyedBy r.id (or_else o input)
fill-IsKeyed input now r t safe none h =
    (sym ((===_iff r.id (input_key input.peer_id input.event_id)).0 t), safe)
fill-IsKeyed input now r t safe (some i) h = h

receive_known-IsKeyed :
    (box : Inbox) (input : BridgeInput) (now : ℕ) (s : Option InputState)
    → has_safe_ids input ≡ true
    → All IsKeyed box.inputs
    → All IsKeyed (receive_known box input now (input_key input.peer_id input.event_id) s).0.inputs
unfolding receive_known
receive_known-IsKeyed box input now none safe h =
    All-append IsKeyed box.inputs
      (new_input (input_key input.peer_id input.event_id) input now ∷ []) h ((refl, safe), tt)
receive_known-IsKeyed box input now (some s) safe h = elim (Bool-cases (is_replayable s)) [
  | inl again ↦ rw again (
      All-update_rows
        (λ r. r.id === input_key input.peer_id input.event_id && is_replayable r.state)
        (fill input now) IsKeyed box.inputs
        (λ r t p. fill-IsKeyed input now r (ground arith) safe r.payload p) h)
  | inr known ↦ rw known h
]

pub postpone-IsKeyed :
    (until : ℕ) (taken rows : List InputRow)
    → All IsKeyed rows
    → All IsKeyed (postpone until taken rows)
unfolding postpone
postpone-IsKeyed until [] rows h = h
postpone-IsKeyed until (r ∷ taken) rows h =
    postpone-IsKeyed until taken
      (update_rows (λ x. x.id === r.id) (λ x. record x { replay_after = some until }) rows)
      (All-update_rows (λ x. x.id === r.id) (λ x. record x { replay_after = some until }) IsKeyed
        rows (λ x t p. p) h)

claim_known-IsKeyed :
    (box : Inbox) (id : Text) (s : Option InputState)
    → All IsKeyed box.inputs
    → All IsKeyed (claim_known box id s).0.inputs
unfolding claim_known
claim_known-IsKeyed box id none h = All-append IsKeyed box.inputs _ h (tt, tt)
claim_known-IsKeyed box id (some s) h =
    set_state-IsKeyed (λ r. r.id === id && is_replayable r.state) processing box.inputs h

mark_input_preparing-IsKeyed :
    (ids : List Text) (rows : List InputRow)
    → All IsKeyed rows
    → All IsKeyed (mark_input_preparing rows ids)
unfolding mark_input_preparing
mark_input_preparing-IsKeyed [] rows h = h
mark_input_preparing-IsKeyed (id ∷ ids) rows h =
    mark_input_preparing-IsKeyed ids
      (update_rows (λ r. r.id === id && is_processing r.state) (set_state preparing) rows)
      (set_state-IsKeyed (λ r. r.id === id && is_processing r.state) preparing rows h)

mark_input_sending-IsKeyed :
    (ids : List Text) (rows : List InputRow)
    → All IsKeyed rows
    → All IsKeyed (mark_input_sending rows ids)
unfolding mark_input_sending
mark_input_sending-IsKeyed [] rows h = h
mark_input_sending-IsKeyed (id ∷ ids) rows h =
    mark_input_sending-IsKeyed ids
      (update_rows (λ r. r.id === id && is_preparing r.state) (set_state sending) rows)
      (set_state-IsKeyed (λ r. r.id === id && is_preparing r.state) sending rows h)

send_keys-IsKeyed :
    (keys : List Text) (rows : List InputRow) → All IsKeyed rows → All IsKeyed (send_keys rows keys)
unfolding send_keys
send_keys-IsKeyed [] rows h = h
send_keys-IsKeyed (k ∷ keys) rows h =
    send_keys-IsKeyed keys (update_rows (λ r. r.id === k) (set_state sending) rows)
      (set_state-IsKeyed (λ r. r.id === k) sending rows h)

finish_input-IsKeyed :
    (rows : List InputRow) (id : Text) (lost : Bool)
    → All IsKeyed rows
    → All IsKeyed (finish_input rows id lost)
unfolding finish_input
finish_input-IsKeyed rows id lost h =
    All-update_rows (λ r. r.id === id) (finished lost) IsKeyed rows (λ r t p. tt) h

finish_inputs-IsKeyed :
    (ids : List Text) (rows : List InputRow) (lost : Bool)
    → All IsKeyed rows
    → All IsKeyed (finish_inputs rows ids lost)
unfolding finish_inputs
finish_inputs-IsKeyed [] rows lost h = h
finish_inputs-IsKeyed (id ∷ ids) rows lost h =
    finish_inputs-IsKeyed ids (finish_input rows id lost) lost (finish_input-IsKeyed rows id lost h)

settle_found-IsKeyed :
    (box : Inbox) (s : OperationState) (o : Option DispatchRow)
    → All IsKeyed box.inputs
    → All IsKeyed (settle_found box s o).inputs
unfolding settle_found
settle_found-IsKeyed box s none h = h
settle_found-IsKeyed box s (some row) h =
    finish_inputs-IsKeyed (saved_keys row.inbox_key row.inbox_keys) box.inputs
      (is_uncertain_operation s) h

recover-IsKeyed : (box : Inbox) → All IsKeyed box.inputs → All IsKeyed (recover box).inputs
unfolding recover
recover-IsKeyed box h =
    All-update_rows (λ r. is_replayable r.state) (λ r. record r { replay_after = some 0 }) IsKeyed _
      (λ r t p. p)
      (All-update_rows (λ r. is_in_flight r.state) (finished true) IsKeyed _ (λ r t p. tt)
        (set_state-IsKeyed (λ r. is_preparing r.state) retryable box.inputs h))

module _ (byte_length : BridgeInput → ℕ) where
  step-IsKeyed :
      (box : Inbox) (c : Call)
      → is_safe_call c ≡ true
      → All IsKeyed box.inputs
      → All IsKeyed (step byte_length box c).inputs
  unfolding step receive_input reserve_replayable_inputs claim_input mark_operation_checked
      finish_operation settle_prompt_dispatch
  step-IsKeyed box (receive input now) safe h = elim (Bool-cases (ltb 262144 (byte_length input))) [
    | inl long ↦ rw long h
    | inr fits ↦ rw fits (
        receive_known-IsKeyed box input now
          (input_state box.inputs (input_key input.peer_id input.event_id)) safe h)
  ]
  step-IsKeyed box (reserve now limit) safe h =
      elim (Result-cases (payloads (due_rows box.inputs now limit))) [
        | inl (inputs, found) ↦
            rw found (postpone-IsKeyed _ (due_rows box.inputs now limit) box.inputs h)
        | inr (x, failed) ↦ rw failed h
      ]
  step-IsKeyed box (claim id) safe h = claim_known-IsKeyed box id (input_state box.inputs id) h
  step-IsKeyed box (prepare ids) safe h = mark_input_preparing-IsKeyed ids box.inputs h
  step-IsKeyed box (mark_sending ids) safe h = mark_input_sending-IsKeyed ids box.inputs h
  step-IsKeyed box (finish id lost) safe h = finish_input-IsKeyed box.inputs id lost h
  step-IsKeyed box (finish_all ids lost) safe h = finish_inputs-IsKeyed ids box.inputs lost h
  step-IsKeyed box (save_batch b) safe h = h
  step-IsKeyed box (remove_batch peer id) safe h = h
  step-IsKeyed box (dispatch id task keys binding now) safe h =
      elim (Result-cases (begin_prompt_dispatch box id task keys binding now)) [
        | inl (box', begun) ↦ rw begun (
            subst (λ b. All IsKeyed b.inputs)
              (sym (begin_prompt_dispatch-ok box id task keys binding now begun).written)
              (send_keys-IsKeyed keys box.inputs h))
        | inr (x, failed) ↦ rw failed h
      ]
  step-IsKeyed box (record_call id task key binding now) safe h =
      elim (Result-cases (record_operation box id task key binding now)) [
        | inl (box', recorded) ↦ rw recorded (
            subst (All IsKeyed) (sym (record_operation-inputs box id task key binding now recorded))
              h)
        | inr (x, failed) ↦ rw failed h
      ]
  step-IsKeyed box (check id now) safe h = h
  step-IsKeyed box (finish_call id s) safe h = h
  step-IsKeyed box (settle id s) safe h =
      settle_found-IsKeyed (finish_operation box id s) s (find_dispatch box.dispatches id) h
  step-IsKeyed box restart safe h = recover-IsKeyed box h

  pub run-IsKeyed :
      (cs : List Call) (box : Inbox)
      → all is_safe_call cs ≡ true
      → All IsKeyed box.inputs
      → All IsKeyed (run byte_length box cs).inputs
  unfolding run all
  run-IsKeyed [] box safe h = h
  run-IsKeyed (c ∷ cs) box safe h =
      run-IsKeyed cs (step byte_length box c) (ground arith) (step-IsKeyed box c (ground arith) h)
