-- ===== src/Bridge/Inbox/Late.antt =====
-- src/bridge/store.ts: messages that were handed out for another try, across the calls of one run of the program.
use vkodex.Prelude.{
  ℕ, ◌+◌, ◌≡◌, refl, sym, subst, Bool, true, false, not, ◌&&◌, Option, List, [], ◌∷◌, leb, ltb, all,
  arith, is_none, All, All-map, Bool-cases, Option-cases, Result-cases, inl, inr,
}
use vkodex.Prelude.JsText.{Text}
use vkodex.InputBatcher.{BridgeInput}
use vkodex.Bridge.Inbox.Tables.{InputState, InputRow, Inbox, input_state, find_dispatch, input_key}
use vkodex.Bridge.Inbox.Replay.{
  is_due, receive_input, reserve_replayable_inputs, payloads, due_rows, claim_input,
}
use vkodex.Bridge.Inbox.Dispatch.{
  begin_prompt_dispatch, record_operation, finish_operation, settle_prompt_dispatch,
  mark_operation_checked,
}
use vkodex.Bridge.Inbox.Run.{
  Call, receive, reserve, claim, prepare, mark_sending, finish, finish_all, save_batch,
  remove_batch, dispatch, record_call, check, finish_call, settle, restart, step, run,
}
use vkodex.Bridge.Inbox.Filed.{begin_prompt_dispatch-ok, record_operation-inputs}
use vkodex.Bridge.Inbox.Life.{
  Life, same, next, Move, arrive, seize, take_received, take_retryable, prepare, send, give_back,
  lose,
}
use vkodex.Bridge.Inbox.Life
use vkodex.Bridge.Inbox.Refines.{step-Life}
use vkodex.Bridge.Inbox.Handed.{All-due_rows}
use vkodex.Bridge.Inbox.Held.{
  IsHeld, receive_known-IsHeld, claim_known-IsHeld, postpone_again, mark_input_preparing-IsHeld,
  mark_input_sending-IsHeld, send_keys-IsHeld, finish_input-IsHeld, finish_inputs-IsHeld,
  settle_found-IsHeld,
}

unfoldable pub is_known : List InputRow → Text → Bool
is_known rows k = not (is_none (input_state rows k))

Move-some : {s t : Option InputState} → Move s t → is_none t ≡ false
Move-some arrive = refl
Move-some seize = refl
Move-some take_received = refl
Move-some take_retryable = refl
Move-some Life.prepare = refl
Move-some send = refl
Move-some give_back = refl
Move-some (Life.settle s) = refl
Move-some (lose s) = refl

pub Life-some : {s t : Option InputState} → Life s t → is_none s ≡ false → is_none t ≡ false
Life-some same e = e
Life-some (next p m) e = Move-some m

-- The wanted messages are in the journal, and none is due before a time.
pub record IsApart (until : ℕ) (wanted : Text → Bool) (rows : List InputRow) : Type 0 where
  pub held : All (IsHeld until wanted) rows
  pub known : (k : Text) → wanted k ≡ true → is_known rows k ≡ true

abbrev pub is_restart : Call → Bool
is_restart restart = true
is_restart _ = false

module _ (until : ℕ) (wanted : Text → Bool) (byte_length : BridgeInput → ℕ) where
  absent :
      (rows : List InputRow) (id : Text)
      → IsApart until wanted rows
      → is_none (input_state rows id) ≡ true
      → wanted id ≡ false
  unfolding is_known
  absent rows id a e = elim (Bool-cases (wanted id)) [
    | inl yes' ↦ let there = a.known id yes' in ground arith
    | inr no' ↦ no'
  ]

  -- A held row that is due shows that its time has come.
  due_again :
      (now : ℕ) (r : InputRow)
      → IsHeld until wanted r × (is_due now r ≡ true)
      → (wanted r.id && not (leb until (now + 30000))) ≡ false
  unfolding is_due
  due_again now r h = let (held, due) = h in ground (arith, Option-cases r.replay_after)

  step-IsHeld :
      (box : Inbox) (c : Call)
      → is_restart c ≡ false
      → IsApart until wanted box.inputs
      → All (IsHeld until wanted) (step byte_length box c).inputs
  unfolding step receive_input reserve_replayable_inputs claim_input mark_operation_checked
      finish_operation settle_prompt_dispatch
  step-IsHeld box (receive input now) e a = elim (Bool-cases (ltb 262144 (byte_length input))) [
    | inl long ↦ rw long a.held
    | inr fits ↦ rw fits (
        receive_known-IsHeld until wanted box input now (input_key input.peer_id input.event_id) _
          (absent box.inputs (input_key input.peer_id input.event_id) a) a.held)
  ]
  step-IsHeld box (reserve now limit) e a =
      elim (Result-cases (payloads (due_rows box.inputs now limit))) [
        | inl (inputs, found) ↦ rw found (
            postpone_again until wanted (now + 30000) (due_rows box.inputs now limit) box.inputs
              (All-map _ _ (due_rows box.inputs now limit) (λ r p. due_again now r p)
                (All-due_rows (IsHeld until wanted) box.inputs now limit a.held))
              a.held)
        | inr (x, failed) ↦ rw failed a.held
      ]
  step-IsHeld box (claim id) e a =
      claim_known-IsHeld until wanted box id _ (absent box.inputs id a) a.held
  step-IsHeld box (prepare ids) e a = mark_input_preparing-IsHeld until wanted ids box.inputs a.held
  step-IsHeld box (mark_sending ids) e a =
      mark_input_sending-IsHeld until wanted ids box.inputs a.held
  step-IsHeld box (finish id lost) e a = finish_input-IsHeld until wanted box.inputs id lost a.held
  step-IsHeld box (finish_all ids lost) e a =
      finish_inputs-IsHeld until wanted ids box.inputs lost a.held
  step-IsHeld box (save_batch b) e a = a.held
  step-IsHeld box (remove_batch peer id) e a = a.held
  step-IsHeld box (dispatch id task keys binding now) e a =
      elim (Result-cases (begin_prompt_dispatch box id task keys binding now)) [
        | inl (box', begun) ↦ rw begun (
            subst (λ b. All (IsHeld until wanted) b.inputs)
              (sym (begin_prompt_dispatch-ok box id task keys binding now begun).written)
              (send_keys-IsHeld until wanted keys box.inputs a.held))
        | inr (x, failed) ↦ rw failed a.held
      ]
  step-IsHeld box (record_call id task key binding now) e a =
      elim (Result-cases (record_operation box id task key binding now)) [
        | inl (box', recorded) ↦ rw recorded (
            subst (All (IsHeld until wanted))
              (sym (record_operation-inputs box id task key binding now recorded)) a.held)
        | inr (x, failed) ↦ rw failed a.held
      ]
  step-IsHeld box (check id now) e a = a.held
  step-IsHeld box (finish_call id s) e a = a.held
  step-IsHeld box (settle id s) e a =
      settle_found-IsHeld until wanted (finish_operation box id s) s
        (find_dispatch box.dispatches id) a.held
  step-IsHeld box restart e a = cc

  pub run-IsApart :
      (cs : List Call) (box : Inbox)
      → all (λ c. not (is_restart c)) cs ≡ true
      → IsApart until wanted box.inputs
      → IsApart until wanted (run byte_length box cs).inputs
  unfolding run all is_known
  run-IsApart [] box e a = a
  run-IsApart (c ∷ cs) box e a = run-IsApart cs (step byte_length box c) (ground arith) (record {
    held = step-IsHeld box c (ground arith) a;
    known = λ k w.
        let there = a.known k w in
        let still = Life-some (step-Life byte_length k box c) (ground arith) in ground arith;
  })
