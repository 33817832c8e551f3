-- ===== src/Bridge/Inbox/Held.antt =====
-- src/bridge/store.ts: statements that leave the time of another try as it is, or put it off.
use vkodex.Prelude.{
  ℕ, ◌≡◌, refl, sym, subst, Bool, true, false, not, ◌&&◌, Option, none, some, List, [], ◌∷◌, ◌++◌,
  leb, arith, is_none, All, All-append, Bool-cases, Option-cases, inl, inr,
}
use vkodex.Prelude.JsText.{Text, ◌===◌, ===_iff}
use vkodex.OperationJournal.Tables.{update_rows}
use vkodex.OperationJournal.Rows.{All-update_rows}
use vkodex.InputBatcher.{BridgeInput}
use vkodex.Bridge.Inbox.Tables.{
  InputState, processing, preparing, sending, InputRow, DispatchRow, OperationState, Inbox,
  is_replayable, is_processing, is_preparing,
}
use vkodex.Bridge.Inbox.Replay.{
  fill, finished, new_input, receive_known, postpone, set_state, claim_known, mark_input_preparing,
  mark_input_sending, finish_input, finish_inputs,
}
use vkodex.Bridge.Inbox.Dispatch.{send_keys, settle_found, saved_keys, is_uncertain_operation}

abbrev pub late : ℕ → Option ℕ → Bool
late until none = false
late until (some t) = leb until t

-- A row whose ID is among the wanted ones is not due before a time.
abbrev pub IsHeld : ℕ → (Text → Bool) → InputRow → Type 0
IsHeld until wanted r = (wanted r.id && not (late until r.replay_after)) ≡ false

module _ (until : ℕ) (wanted : Text → Bool) where
  set_state-IsHeld :
      (test : InputRow → Bool) (s : InputState) (rows : List InputRow)
      → All (IsHeld until wanted) rows
      → All (IsHeld until wanted) (update_rows test (set_state s) rows)
  set_state-IsHeld test s rows h =
      All-update_rows test (set_state s) (IsHeld until wanted) rows (λ r t p. p) h

  new_row-IsHeld :
      (rows : List InputRow) (x : InputRow)
      → wanted x.id ≡ false
      → All (IsHeld until wanted) rows
      → All (IsHeld until wanted) (rows ++ (x ∷ []))
  new_row-IsHeld rows x e h = All-append (IsHeld until wanted) rows (x ∷ []) h (rw e refl, tt)

  fill-IsHeld :
      (input : BridgeInput) (now : ℕ) (r : InputRow)
      → IsHeld until wanted r
      → IsHeld until wanted (fill input now r)
  fill-IsHeld input now r h = ground (arith, Option-cases r.replay_after)

  pub receive_known-IsHeld :
      (box : Inbox) (input : BridgeInput) (now : ℕ) (id : Text) (s : Option InputState)
      → (is_none s ≡ true → wanted id ≡ false)
      → All (IsHeld until wanted) box.inputs
      → All (IsHeld until wanted) (receive_known box input now id s).0.inputs
  unfolding receive_known
  receive_known-IsHeld box input now id none absent h =
      new_row-IsHeld box.inputs (new_input id input now) (absent refl) h
  receive_known-IsHeld box input now id (some s) absent h = elim (Bool-cases (is_replayable s)) [
    | inl again ↦ rw again (
        All-update_rows (λ r. r.id === id && is_replayable r.state) (fill input now)
          (IsHeld until wanted) box.inputs (λ r t p. fill-IsHeld input now r p) h)
    | inr known ↦ rw known h
  ]

  pub claim_known-IsHeld :
      (box : Inbox) (id : Text) (s : Option InputState)
      → (is_none s ≡ true → wanted id ≡ false)
      → All (IsHeld until wanted) box.inputs
      → All (IsHeld until wanted) (claim_known box id s).0.inputs
  unfolding claim_known
  claim_known-IsHeld box id none absent h = new_row-IsHeld box.inputs _ (absent refl) h
  claim_known-IsHeld box id (some s) absent h =
      set_state-IsHeld (λ r. r.id === id && is_replayable r.state) processing box.inputs h

  pub postpone_again :
      (time : ℕ) (handed rows : List InputRow)
      → All (λ r. (wanted r.id && not (leb until time)) ≡ false) handed
      → All (IsHeld until wanted) rows
      → All (IsHeld until wanted) (postpone time handed rows)
  unfolding postpone
  postpone_again time [] rows d h = h
  postpone_again time (r ∷ handed) rows d h =
      postpone_again time handed
        (update_rows (λ x. x.id === r.id) (λ x. record x { replay_after = some time }) rows) d.1
        (All-update_rows (λ x. x.id === r.id) (λ x. record x { replay_after = some time })
          (IsHeld until wanted) rows
          (λ x t p.
            subst (λ k. (wanted k && not (leb until time)) ≡ false) (sym ((===_iff x.id r.id).0 t))
              d.0)
          h)

  pub mark_input_preparing-IsHeld :
      (ids : List Text) (rows : List InputRow)
      → All (IsHeld until wanted) rows
      → All (IsHeld until wanted) (mark_input_preparing rows ids)
  unfolding mark_input_preparing
  mark_input_preparing-IsHeld [] rows h = h
  mark_input_preparing-IsHeld (id ∷ ids) rows h =
      mark_input_preparing-IsHeld ids _
        (set_state-IsHeld (λ r. r.id === id && is_processing r.state) preparing rows h)

  pub mark_input_sending-IsHeld :
      (ids : List Text) (rows : List InputRow)
      → All (IsHeld until wanted) rows
      → All (IsHeld until wanted) (mark_input_sending rows ids)
  unfolding mark_input_sending
  mark_input_sending-IsHeld [] rows h = h
  mark_input_sending-IsHeld (id ∷ ids) rows h =
      mark_input_sending-IsHeld ids _
        (set_state-IsHeld (λ r. r.id === id && is_preparing r.state) sending rows h)

  pub send_keys-IsHeld :
      (keys : List Text) (rows : List InputRow)
      → All (IsHeld until wanted) rows
      → All (IsHeld until wanted) (send_keys rows keys)
  unfolding send_keys
  send_keys-IsHeld [] rows h = h
  send_keys-IsHeld (k ∷ keys) rows h =
      send_keys-IsHeld keys _ (set_state-IsHeld (λ r. r.id === k) sending rows h)

  pub finish_input-IsHeld :
      (rows : List InputRow) (id : Text) (lost : Bool)
      → All (IsHeld until wanted) rows
      → All (IsHeld until wanted) (finish_input rows id lost)
  unfolding finish_input
  finish_input-IsHeld rows id lost h =
      All-update_rows (λ r. r.id === id) (finished lost) (IsHeld until wanted) rows (λ r t p. p) h

  pub finish_inputs-IsHeld :
      (ids : List Text) (rows : List InputRow) (lost : Bool)
      → All (IsHeld until wanted) rows
      → All (IsHeld until wanted) (finish_inputs rows ids lost)
  unfolding finish_inputs
  finish_inputs-IsHeld [] rows lost h = h
  finish_inputs-IsHeld (id ∷ ids) rows lost h =
      finish_inputs-IsHeld ids (finish_input rows id lost) lost (finish_input-IsHeld rows id lost h)

  pub settle_found-IsHeld :
      (box : Inbox) (s : OperationState) (o : Option DispatchRow)
      → All (IsHeld until wanted) box.inputs
      → All (IsHeld until wanted) (settle_found box s o).inputs
  unfolding settle_found
  settle_found-IsHeld box s none h = h
  settle_found-IsHeld box s (some row) h =
      finish_inputs-IsHeld (saved_keys row.inbox_key row.inbox_keys) box.inputs
        (is_uncertain_operation s) h
