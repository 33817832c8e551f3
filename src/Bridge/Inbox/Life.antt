-- ===== src/Bridge/Inbox/Life.antt =====
-- src/bridge/store.ts: the life of one message as a relation on its states, and the statements that move it.
use vkodex.Prelude.{
  ℕ, ◌≡◌, refl, Bool, true, false, ◌&&◌, Option, none, some, List, [], ◌∷◌, ◌++◌, arith,
  if◌then◌else◌, Option-cases, Bool-cases, inl, inr,
}
use vkodex.Prelude.JsText.{Text, ◌===◌}
use vkodex.OperationJournal.Tables.{update_rows}
use vkodex.InputBatcher.{BridgeInput}
use vkodex.Bridge.Inbox.Tables.{
  InputState, received, processing, preparing, sending, retryable, uncertain, done, InputRow, Inbox,
  find_input, input_state, is_replayable, is_processing, is_preparing,
}
use vkodex.Bridge.Inbox.Replay.{
  set_state, fill, finished, new_input, receive_known, postpone, claim_known, mark_input_preparing,
  mark_input_sending, finish_input, finish_inputs,
}
use vkodex.Bridge.Inbox.Dispatch.{is_in_flight, recover}
use vkodex.Bridge.Inbox.Rows.{find_input-update_rows}

-- What may happen to a message: it is received or claimed for the first time, claimed again, prepared, sent, given
-- back by a restart while it is prepared, or finished at any time.
pub data Move : Option InputState → Option InputState → Type 0 where
  arrive : Move none (some received)
  seize : Move none (some processing)
  take_received : Move (some received) (some processing)
  take_retryable : Move (some retryable) (some processing)
  prepare : Move (some processing) (some preparing)
  send : Move (some preparing) (some sending)
  give_back : Move (some preparing) (some retryable)
  settle : (s : InputState) → Move (some s) (some done)
  lose : (s : InputState) → Move (some s) (some uncertain)

pub data Life : Option InputState → Option InputState → Type 0 where
  same : {s : Option InputState} → Life s s
  next : {s t u : Option InputState} → Life s t → Move t u → Life s u

pub Life-trans : {s t u : Option InputState} → Life s t → Life t u → Life s u
Life-trans p same = p
Life-trans p (next q m) = next (Life-trans p q) m

abbrev pub one : {s t : Option InputState} → Move s t → Life s t
one m = next same m

pub update_rows-Life :
    (test : InputRow → Bool) (set : InputRow → InputRow) (rows : List InputRow) (k : Text)
    → ((r : InputRow) → (set r).id ≡ r.id)
    → ((r : InputRow)
        → find_input rows k ≡ some r
        → test r ≡ true
        → Life (some r.state) (some (set r).state))
    → Life (input_state rows k) (input_state (update_rows test set rows) k)
unfolding input_state
update_rows-Life test set rows k keeps h =
    rw (find_input-update_rows test set rows k keeps) elim (Option-cases (find_input rows k)) [
      | inl gone ↦ rw gone same
      | inr (r, found) ↦ elim (Bool-cases (test r)) [
        | inl hit ↦ rw (found, hit) (h r found hit)
        | inr miss ↦ rw (found, miss) same
      ]
    ]

taken : (s : InputState) → is_replayable s ≡ true → Life (some s) (some processing)
taken received e = one take_received
taken retryable e = one take_retryable
taken processing e = cc
taken preparing e = cc
taken sending e = cc
taken uncertain e = cc
taken done e = cc

readied : (s : InputState) → is_processing s ≡ true → Life (some s) (some preparing)
readied processing e = one prepare
readied received e = cc
readied retryable e = cc
readied preparing e = cc
readied sending e = cc
readied uncertain e = cc
readied done e = cc

from_preparing :
    (s t : InputState)
    → Move (some preparing) (some t)
    → is_preparing s ≡ true
    → Life (some s) (some t)
from_preparing preparing t m e = one m
from_preparing processing t m e = cc
from_preparing received t m e = cc
from_preparing retryable t m e = cc
from_preparing sending t m e = cc
from_preparing uncertain t m e = cc
from_preparing done t m e = cc

ended : (lost : Bool) (r : InputRow) → Life (some r.state) (some (finished lost r).state)
ended true r = one (lose r.state)
ended false r = one (settle r.state)

kept_row :
    (rows : List InputRow) (x : InputRow) (k : Text) {r : InputRow}
    → find_input rows k ≡ some r
    → find_input (rows ++ (x ∷ [])) k ≡ some r
unfolding find_input
kept_row [] x k e = cc
kept_row (y ∷ rows) x k {r} e = ground (arith, kept_row rows x k {r = r})

new_row :
    (rows : List InputRow) (x : InputRow) (k : Text)
    → find_input rows k ≡ none
    → find_input (rows ++ (x ∷ [])) k ≡ (if x.id === k then some x else none)
unfolding find_input
new_row [] x k e = refl
new_row (y ∷ rows) x k e = ground (arith, new_row rows x k)

snoc-Life :
    (rows : List InputRow) (x : InputRow) (k : Text)
    → Move none (some x.state)
    → Life (input_state rows k) (input_state (rows ++ (x ∷ [])) k)
unfolding input_state
snoc-Life rows x k m = elim (Option-cases (find_input rows k)) [
  | inr (r, found) ↦ rw (found, kept_row rows x k found) same
  | inl gone ↦ elim (Bool-cases (x.id === k)) [
    | inl hit ↦ rw (gone, new_row rows x k gone, hit) (one m)
    | inr miss ↦ rw (gone, new_row rows x k gone, miss) same
  ]
]

module _ (k : Text) where
  pub receive_known-Life :
      (box : Inbox) (input : BridgeInput) (now : ℕ) (id : Text) (s : Option InputState)
      → Life (input_state box.inputs k) (input_state (receive_known box input now id s).0.inputs k)
  unfolding receive_known
  receive_known-Life box input now id none = snoc-Life box.inputs (new_input id input now) k arrive
  receive_known-Life box input now id (some s) = elim (Bool-cases (is_replayable s)) [
    | inl again ↦ rw again (
        update_rows-Life (λ r. r.id === id && is_replayable r.state) (fill input now) box.inputs k
          (λ r. refl) (λ r f t. same))
    | inr known ↦ rw known same
  ]

  pub postpone-Life :
      (until : ℕ) (handed rows : List InputRow)
      → Life (input_state rows k) (input_state (postpone until handed rows) k)
  unfolding postpone
  postpone-Life until [] rows = same
  postpone-Life until (r ∷ handed) rows =
      Life-trans
        (update_rows-Life (λ x. x.id === r.id) (λ x. record x { replay_after = some until }) rows k
          (λ x. refl) (λ x f t. same))
        (postpone-Life until handed
          (update_rows (λ x. x.id === r.id) (λ x. record x { replay_after = some until }) rows))

  pub claim_known-Life :
      (box : Inbox) (id : Text) (s : Option InputState)
      → Life (input_state box.inputs k) (input_state (claim_known box id s).0.inputs k)
  unfolding claim_known
  claim_known-Life box id none = snoc-Life box.inputs _ k seize
  claim_known-Life box id (some s) =
      update_rows-Life (λ r. r.id === id && is_replayable r.state) (set_state processing) box.inputs
        k (λ r. refl) (λ r f t. taken r.state (ground arith))

  pub mark_input_preparing-Life :
      (ids : List Text) (rows : List InputRow)
      → Life (input_state rows k) (input_state (mark_input_preparing rows ids) k)
  unfolding mark_input_preparing
  mark_input_preparing-Life [] rows = same
  mark_input_preparing-Life (id ∷ ids) rows =
      Life-trans
        (update_rows-Life (λ r. r.id === id && is_processing r.state) (set_state preparing) rows k
          (λ r. refl) (λ r f t. readied r.state (ground arith)))
        (mark_input_preparing-Life ids
          (update_rows (λ r. r.id === id && is_processing r.state) (set_state preparing) rows))

  pub mark_input_sending-Life :
      (ids : List Text) (rows : List InputRow)
      → Life (input_state rows k) (input_state (mark_input_sending rows ids) k)
  unfolding mark_input_sending
  mark_input_sending-Life [] rows = same
  mark_input_sending-Life (id ∷ ids) rows =
      Life-trans
        (update_rows-Life (λ r. r.id === id && is_preparing r.state) (set_state sending) rows k
          (λ r. refl) (λ r f t. from_preparing r.state sending send (ground arith)))
        (mark_input_sending-Life ids
          (update_rows (λ r. r.id === id && is_preparing r.state) (set_state sending) rows))

  pub finish_input-Life :
      (rows : List InputRow) (id : Text) (lost : Bool)
      → Life (input_state rows k) (input_state (finish_input rows id lost) k)
  unfolding finish_input
  finish_input-Life rows id lost =
      update_rows-Life (λ r. r.id === id) (finished lost) rows k (λ r. refl) (λ r f t. ended lost r)

  pub finish_inputs-Life :
      (ids : List Text) (rows : List InputRow) (lost : Bool)
      → Life (input_state rows k) (input_state (finish_inputs rows ids lost) k)
  unfolding finish_inputs
  finish_inputs-Life [] rows lost = same
  finish_inputs-Life (id ∷ ids) rows lost =
      Life-trans (finish_input-Life rows id lost)
        (finish_inputs-Life ids (finish_input rows id lost) lost)

  pub recover-Life :
      (box : Inbox) → Life (input_state box.inputs k) (input_state (recover box).inputs k)
  unfolding recover
  recover-Life box =
      Life-trans
        (update_rows-Life (λ r. is_preparing r.state) (set_state retryable) box.inputs k (λ r. refl)
          (λ r f t. from_preparing r.state retryable give_back t))
        (Life-trans
          (update_rows-Life (λ r. is_in_flight r.state) (finished true) _ k (λ r. refl)
            (λ r f t. ended true r))
          (update_rows-Life (λ r. is_replayable r.state) (λ r. record r { replay_after = some 0 }) _
            k (λ r. refl) (λ r f t. same)))
