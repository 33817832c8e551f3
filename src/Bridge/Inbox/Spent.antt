-- ===== src/Bridge/Inbox/Spent.antt =====
-- src/bridge/store.ts: a message that Codex may have been given, and the statements of each call.
use vkodex.Prelude.{
  ℕ, ◌≡◌, refl, Bool, true, false, ◌&&◌, Option, none, some, List, [], ◌∷◌, ◌++◌, arith,
  if◌then◌else◌,
}
use vkodex.Prelude.JsText.{Text, ◌===◌}
use vkodex.OperationJournal.Tables.{update_rows}
use vkodex.InputBatcher.{BridgeInput}
use vkodex.Bridge.Inbox.Tables.{
  InputState, processing, preparing, sending, retryable, uncertain, done, InputRow, Inbox,
  find_input, is_replayable, is_processing, is_preparing,
}
use vkodex.Bridge.Inbox.Replay.{
  set_state, fill, finished, new_input, receive_known, postpone, claim_known, mark_input_preparing,
  mark_input_sending, finish_input, finish_inputs,
}
use vkodex.Bridge.Inbox.Dispatch.{send_keys, is_in_flight, recover}
use vkodex.Bridge.Inbox.Rows.{holds, holds-update_rows, holds-snoc}

-- The message was sent, or is finished with.
abbrev pub is_spent : InputState → Bool
is_spent sending = true
is_spent uncertain = true
is_spent done = true
is_spent _ = false

unfoldable pub spent : List InputRow → Text → Bool
spent rows k = holds (λ r. is_spent r.state) (find_input rows k)

-- An update that leaves spent rows spent, and the IDs as they are.
pub update_rows-spent :
    (test : InputRow → Bool) (set : InputRow → InputRow) (rows : List InputRow) (k : Text)
    → ((r : InputRow) → (set r).id ≡ r.id)
    → ((r : InputRow)
        → r.id ≡ k
        → is_spent r.state ≡ true
        → is_spent (if test r then set r else r).state ≡ true)
    → spent rows k ≡ true
    → spent (update_rows test set rows) k ≡ true
unfolding spent
update_rows-spent test set rows k keeps h e =
    holds-update_rows test set (λ r. is_spent r.state) (λ r. is_spent r.state) rows k keeps h e

snoc-spent :
    (rows : List InputRow) (r : InputRow) (k : Text)
    → spent rows k ≡ true
    → spent (rows ++ (r ∷ [])) k ≡ true
unfolding spent
snoc-spent rows r k e = holds-snoc (λ x. is_spent x.state) rows r k e

module _ (k : Text) where
  pub receive_known-spent :
      (box : Inbox) (input : BridgeInput) (now : ℕ) (id : Text) (s : Option InputState)
      → spent box.inputs k ≡ true
      → spent (receive_known box input now id s).0.inputs k ≡ true
  unfolding receive_known
  receive_known-spent box input now id none e = snoc-spent box.inputs (new_input id input now) k e
  receive_known-spent box input now id (some s) e = ground (
    arith,
    update_rows-spent (λ r. r.id === id && is_replayable r.state) (fill input now) box.inputs k
        (λ r. refl) (λ r q h. ground arith) e,
  )

  pub postpone-spent :
      (until : ℕ) (taken rows : List InputRow)
      → spent rows k ≡ true
      → spent (postpone until taken rows) k ≡ true
  unfolding postpone
  postpone-spent until [] rows e = e
  postpone-spent until (r ∷ taken) rows e =
      postpone-spent until taken
        (update_rows (λ x. x.id === r.id) (λ x. record x { replay_after = some until }) rows)
        (update_rows-spent (λ x. x.id === r.id) (λ x. record x { replay_after = some until }) rows k
          (λ x. refl) (λ x q h. ground arith) e)

  pub claim_known-spent :
      (box : Inbox) (id : Text) (s : Option InputState)
      → spent box.inputs k ≡ true
      → spent (claim_known box id s).0.inputs k ≡ true
  unfolding claim_known
  claim_known-spent box id none e = snoc-spent box.inputs _ k e
  claim_known-spent box id (some s) e =
      update_rows-spent (λ r. r.id === id && is_replayable r.state) (set_state processing)
        box.inputs k (λ r. refl) (λ r q h. ground arith) e

  pub mark_input_preparing-spent :
      (ids : List Text) (rows : List InputRow)
      → spent rows k ≡ true
      → spent (mark_input_preparing rows ids) k ≡ true
  unfolding mark_input_preparing
  mark_input_preparing-spent [] rows e = e
  mark_input_preparing-spent (id ∷ ids) rows e =
      mark_input_preparing-spent ids
        (update_rows (λ r. r.id === id && is_processing r.state) (set_state preparing) rows)
        (update_rows-spent (λ r. r.id === id && is_processing r.state) (set_state preparing) rows k
          (λ r. refl) (λ r q h. ground arith) e)

  pub mark_input_sending-spent :
      (ids : List Text) (rows : List InputRow)
      → spent rows k ≡ true
      → spent (mark_input_sending rows ids) k ≡ true
  unfolding mark_input_sending
  mark_input_sending-spent [] rows e = e
  mark_input_sending-spent (id ∷ ids) rows e =
      mark_input_sending-spent ids
        (update_rows (λ r. r.id === id && is_preparing r.state) (set_state sending) rows)
        (update_rows-spent (λ r. r.id === id && is_preparing r.state) (set_state sending) rows k
          (λ r. refl) (λ r q h. ground arith) e)

  pub finish_input-spent :
      (rows : List InputRow) (id : Text) (lost : Bool)
      → spent rows k ≡ true
      → spent (finish_input rows id lost) k ≡ true
  unfolding finish_input
  finish_input-spent rows id lost e =
      update_rows-spent (λ r. r.id === id) (finished lost) rows k (λ r. refl)
        (λ r q h. ground arith) e

  pub finish_inputs-spent :
      (ids : List Text) (rows : List InputRow) (lost : Bool)
      → spent rows k ≡ true
      → spent (finish_inputs rows ids lost) k ≡ true
  unfolding finish_inputs
  finish_inputs-spent [] rows lost e = e
  finish_inputs-spent (id ∷ ids) rows lost e =
      finish_inputs-spent ids (finish_input rows id lost) lost (finish_input-spent rows id lost e)

  pub send_keys-spent :
      (keys : List Text) (rows : List InputRow)
      → spent rows k ≡ true
      → spent (send_keys rows keys) k ≡ true
  unfolding send_keys
  send_keys-spent [] rows e = e
  send_keys-spent (key ∷ keys) rows e =
      send_keys-spent keys (update_rows (λ r. r.id === key) (set_state sending) rows) (
        update_rows-spent (λ r. r.id === key) (set_state sending) rows k (λ r. refl)
          (λ r q h. ground arith) e)

  pub recover-spent :
      (box : Inbox) → spent box.inputs k ≡ true → spent (recover box).inputs k ≡ true
  unfolding recover
  recover-spent box e =
      update_rows-spent (λ r. is_replayable r.state) (λ r. record r { replay_after = some 0 }) _ k
        (λ r. refl) (λ r q h. ground arith)
        (update_rows-spent (λ r. is_in_flight r.state) (finished true) _ k (λ r. refl)
          (λ r q h. ground arith)
          (update_rows-spent (λ r. is_preparing r.state) (set_state retryable) box.inputs k
            (λ r. refl) (λ r q h. ground arith) e))
