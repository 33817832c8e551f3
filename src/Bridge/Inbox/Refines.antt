-- ===== src/Bridge/Inbox/Refines.antt =====
-- src/bridge/store.ts: every call on the message journal, as moves of one message.
use vkodex.Prelude.{
  ℕ, ◌*◌, ltb, ◌≡◌, refl, if◌then◌else◌, sym, subst, Bool, true, false, ◌&&◌, Option, none, some,
  List, [], ◌∷◌, arith, Bool-cases, Result-cases, inl, inr,
}
use vkodex.Prelude.JsText.{Text, ◌===◌, ===_iff}
use vkodex.OperationJournal.Tables.{update_rows}
use vkodex.InputBatcher.{BridgeInput}
use vkodex.Bridge.Inbox.Tables.{
  InputState, received, processing, preparing, sending, retryable, uncertain, done, InputRow,
  DispatchRow, OperationState, Inbox, find_input, input_state, find_dispatch, input_key,
  is_preparing,
}
use vkodex.Bridge.Inbox.Replay.{
  set_state, receive_input, reserve_replayable_inputs, payloads, due_rows, claim_input,
}
use vkodex.Bridge.Inbox.Dispatch.{
  prepared, all_prepared, send_keys, begin_prompt_dispatch, record_operation, finish_operation,
  settle_found, saved_keys, is_uncertain_operation, settle_prompt_dispatch, mark_operation_checked,
}
use vkodex.Bridge.Inbox.Run.{
  Call, receive, reserve, claim, prepare, mark_sending, finish, finish_all, save_batch,
  remove_batch, dispatch, record_call, check, finish_call, settle, restart, step, run,
}
use vkodex.Bridge.Inbox.Rows.{holds, holds-update_rows, find_input-id}
use vkodex.Bridge.Inbox.Filed.{begin_prompt_dispatch-ok, record_operation-inputs}
use vkodex.Bridge.Inbox.Life.{
  Life, same, one, send, Life-trans, update_rows-Life, receive_known-Life, postpone-Life,
  claim_known-Life, mark_input_preparing-Life, mark_input_sending-Life, finish_input-Life,
  finish_inputs-Life, recover-Life,
}

-- While the keys of an operation are sent one by one, each is still prepared or was just sent.
abbrev is_sendable : InputState → Bool
is_sendable preparing = true
is_sendable sending = true
is_sendable _ = false

unfoldable sendable : List InputRow → Text → Bool
sendable rows k = holds (λ r. is_sendable r.state) (find_input rows k)

unfoldable all_sendable : List InputRow → List Text → Bool
all_sendable rows [] = true
all_sendable rows (k ∷ ks) = sendable rows k && all_sendable rows ks

sent : (s : InputState) → is_sendable s ≡ true → Life (some s) (some sending)
sent preparing e = one send
sent sending e = same
sent received e = cc
sent processing e = cc
sent retryable e = cc
sent uncertain e = cc
sent done e = cc

prepared-sendable : (s : InputState) → is_preparing s ≡ true → is_sendable s ≡ true
prepared-sendable preparing e = refl
prepared-sendable received e = cc
prepared-sendable processing e = cc
prepared-sendable sending e = cc
prepared-sendable retryable e = cc
prepared-sendable uncertain e = cc
prepared-sendable done e = cc

one_sendable :
    (o : Option InputRow) (k : Text) (rows : List InputRow)
    → find_input rows k ≡ o
    → prepared (input_state rows k) ≡ true
    → sendable rows k ≡ true
unfolding input_state sendable
one_sendable none k rows f e = ground arith
one_sendable (some r) k rows f e = ground (arith, prepared-sendable r.state)

all_prepared-all_sendable :
    (keys : List Text) (rows : List InputRow)
    → all_prepared rows keys ≡ true
    → all_sendable rows keys ≡ true
unfolding all_prepared all_sendable
all_prepared-all_sendable [] rows e = refl
all_prepared-all_sendable (k ∷ keys) rows e =
    ground
      (arith, all_prepared-all_sendable keys rows, one_sendable (find_input rows k) k rows refl)

sent_or_kept :
    (key : Text) (r : InputRow)
    → is_sendable r.state ≡ true
    → is_sendable (if r.id === key then set_state sending r else r).state ≡ true
sent_or_kept key r e = elim (Bool-cases (r.id === key)) [
  | inl hit ↦ rw hit refl
  | inr miss ↦ rw miss e
]

sendable-update_rows :
    (rows : List InputRow) (key k : Text)
    → sendable rows k ≡ true
    → sendable (update_rows (λ r. r.id === key) (set_state sending) rows) k ≡ true
unfolding sendable
sendable-update_rows rows key k e =
    holds-update_rows (λ r. r.id === key) (set_state sending) (λ r. is_sendable r.state)
      (λ r. is_sendable r.state) rows k (λ r. refl) (λ r q h. sent_or_kept key r h) e

all_sendable-update_rows :
    (keys : List Text) (rows : List InputRow) (key : Text)
    → all_sendable rows keys ≡ true
    → all_sendable (update_rows (λ r. r.id === key) (set_state sending) rows) keys ≡ true
unfolding all_sendable
all_sendable-update_rows [] rows key e = refl
all_sendable-update_rows (k ∷ keys) rows key e =
    ground (arith, all_sendable-update_rows keys rows key, sendable-update_rows rows key k)

found_sendable :
    (rows : List InputRow) (key k : Text) (r : InputRow)
    → sendable rows key ≡ true
    → find_input rows k ≡ some r
    → k ≡ key
    → is_sendable r.state ≡ true
unfolding sendable
found_sendable rows key k r e f hit = ground arith

module _ (k : Text) where
  send_keys-Life :
      (keys : List Text) (rows : List InputRow)
      → all_sendable rows keys ≡ true
      → Life (input_state rows k) (input_state (send_keys rows keys) k)
  unfolding send_keys all_sendable
  send_keys-Life [] rows e = same
  send_keys-Life (key ∷ keys) rows e =
      let first : sendable rows key ≡ true = ground arith in
      let others : all_sendable rows keys ≡ true = ground arith in
      Life-trans
        (update_rows-Life (λ r. r.id === key) (set_state sending) rows k (λ r. refl)
          (λ r f t.
            let id : r.id ≡ k = find_input-id rows k f in
            let hit : k ≡ key = ground (arith, ===_iff r.id key) in
            sent r.state (found_sendable rows key k r first f hit)))
        (send_keys-Life keys (update_rows (λ r. r.id === key) (set_state sending) rows)
          (all_sendable-update_rows keys rows key others))

  settle_found-Life :
      (box : Inbox) (s : OperationState) (o : Option DispatchRow)
      → Life (input_state box.inputs k) (input_state (settle_found box s o).inputs k)
  unfolding settle_found
  settle_found-Life box s none = same
  settle_found-Life box s (some row) =
      finish_inputs-Life k (saved_keys row.inbox_key row.inbox_keys) box.inputs
        (is_uncertain_operation s)

module _ (byte_length : BridgeInput → ℕ) (k : Text) where
  pub step-Life :
      (box : Inbox) (c : Call)
      → Life (input_state box.inputs k) (input_state (step byte_length box c).inputs k)
  unfolding step receive_input reserve_replayable_inputs claim_input mark_operation_checked
      finish_operation settle_prompt_dispatch
  step-Life box (receive input now) =
      let id = input_key input.peer_id input.event_id in
      elim (Bool-cases (ltb (256 * 1024) (byte_length input))) [
        | inl large ↦ rw large same
        | inr fits ↦ rw fits (receive_known-Life k box input now id (input_state box.inputs id))
      ]
  step-Life box (reserve now limit) =
      elim (Result-cases (payloads (due_rows box.inputs now limit))) [
        | inl (inputs, found) ↦
            rw found (postpone-Life k _ (due_rows box.inputs now limit) box.inputs)
        | inr (x, failed) ↦ rw failed same
      ]
  step-Life box (claim id) = claim_known-Life k box id _
  step-Life box (prepare ids) = mark_input_preparing-Life k ids box.inputs
  step-Life box (mark_sending ids) = mark_input_sending-Life k ids box.inputs
  step-Life box (finish id lost) = finish_input-Life k box.inputs id lost
  step-Life box (finish_all ids lost) = finish_inputs-Life k ids box.inputs lost
  step-Life box (save_batch b) = same
  step-Life box (remove_batch peer id) = same
  step-Life box (dispatch id task keys binding now) =
      elim (Result-cases (begin_prompt_dispatch box id task keys binding now)) [
        | inl (box', begun) ↦
            let b = begin_prompt_dispatch-ok box id task keys binding now begun in
            rw begun (
              subst (λ x. Life (input_state box.inputs k) (input_state x.inputs k)) (sym b.written)
                (send_keys-Life k keys box.inputs
                  (all_prepared-all_sendable keys box.inputs b.was_prepared)))
        | inr (x, failed) ↦ rw failed same
      ]
  step-Life box (record_call id task key binding now) =
      elim (Result-cases (record_operation box id task key binding now)) [
        | inl (box', recorded) ↦ rw recorded (
            subst (λ rows. Life (input_state box.inputs k) (input_state rows k))
              (sym (record_operation-inputs box id task key binding now recorded)) same)
        | inr (x, failed) ↦ rw failed same
      ]
  step-Life box (check id now) = same
  step-Life box (finish_call id s) = same
  step-Life box (settle id s) =
      settle_found-Life k (finish_operation box id s) s (find_dispatch box.dispatches id)
  step-Life box restart = recover-Life k box

-- Under any calls, restarts and refused calls among them, the state of the message with an ID changes by a sequence of
-- moves alone: an unknown message is received or claimed, a received or retryable one claimed, a claimed one
-- prepared, a prepared one sent or made retryable, and any known one made done or uncertain.
pub run-Life :
    (byte_length : BridgeInput → ℕ) (cs : List Call) (box : Inbox) (k : Text)
    → Life (input_state box.inputs k) (input_state (run byte_length box cs).inputs k)
unfolding run
run-Life byte_length [] box k = same
run-Life byte_length (c ∷ cs) box k =
    Life-trans (step-Life byte_length k box c) (run-Life byte_length cs (step byte_length box c) k)
