-- ===== src/Bridge/Inbox/Restart.antt =====
-- src/bridge/store.ts: the message journal after a restart.
use vkodex.Prelude.{
  ℕ, ◌≡◌, refl, Bool, true, false, not, ◌&&◌, none, some, arith, Option-cases, inl, inr, is_none,
}
use vkodex.Prelude.JsText.{Text}
use vkodex.OperationJournal.Tables.{update_rows}
use vkodex.Bridge.Inbox.Tables.{
  InputState, received, processing, preparing, sending, retryable, uncertain, done, InputRow, Inbox,
  find_input, input_state, is_replayable, is_preparing, input_settled,
}
use vkodex.Bridge.Inbox.Replay.{set_state, finished, claim_known, claim_input, is_due}
use vkodex.Bridge.Inbox.Dispatch.{is_in_flight, recover}
use vkodex.Bridge.Inbox.Rows.{mapped, find_input-update_rows}

-- What a restart makes of one message.
abbrev pub restarted : InputRow → InputRow
restarted r = elim r.state [
  | received ↦ record r { replay_after = some 0 }
  | processing ↦ record r { state = uncertain; payload = none }
  | preparing ↦ record r { state = retryable; replay_after = some 0 }
  | sending ↦ record r { state = uncertain; payload = none }
  | retryable ↦ record r { replay_after = some 0 }
  | uncertain ↦ r
  | done ↦ r
]

find_input-recover :
    (box : Inbox) (k : Text)
    → find_input (recover box).inputs k ≡ mapped restarted (find_input box.inputs k)
unfolding recover
find_input-recover box k =
    rw
      (find_input-update_rows (λ r. is_replayable r.state) (λ r. record r { replay_after = some 0 })
        (update_rows (λ r. is_in_flight r.state) (finished true)
          (update_rows (λ r. is_preparing r.state) (set_state retryable) box.inputs))
        k (λ r. refl))
      rw
      (find_input-update_rows (λ r. is_in_flight r.state) (finished true)
        (update_rows (λ r. is_preparing r.state) (set_state retryable) box.inputs) k (λ r. refl))
      rw
      (find_input-update_rows (λ r. is_preparing r.state) (set_state retryable) box.inputs k
        (λ r. refl))
      elim (Option-cases (find_input box.inputs k)) [
        | inl gone ↦ rw gone refl
        | inr (r, found) ↦ rw found ground arith
      ]

-- `received`, `preparing` or `retryable`: Codex has not been given the message.
abbrev pub is_waiting : InputState → Bool
is_waiting received = true
is_waiting preparing = true
is_waiting retryable = true
is_waiting _ = false

-- A restart loses no message: each one in the journal is afterwards either claimable, when it was received,
-- being prepared or to be tried again, and then it is due at any time if its text is kept; or it is settled.
pub recover_resumes :
    (box : Inbox) (k : Text) (now : ℕ) {r : InputRow}
    → find_input box.inputs k ≡ some r
    → (find_input (recover box).inputs k ≡ some (restarted r))
      × ((claim_input (recover box) k).1 ≡ is_waiting r.state)
      × (input_settled (recover box).inputs k ≡ not (is_waiting r.state))
      × (is_due now (restarted r) ≡ (is_waiting r.state && not (is_none r.payload)))
unfolding claim_input claim_known input_settled input_state is_due
recover_resumes box k now {r} found = rw (find_input-recover box k, found) ground arith
