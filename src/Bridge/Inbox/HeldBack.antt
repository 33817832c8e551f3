-- ===== src/Bridge/Inbox/HeldBack.antt =====
-- src/bridge/store.ts: two requests for messages to try again, with any calls but a restart between.
use vkodex.Prelude.{
  ℕ, ◌+◌, ◌<◌, ◌≡◌, refl, sym, subst, Bool, true, false, not, ◌||◌, some, List, [], ◌∷◌, arith,
  if◌then◌else◌, ok, All, All-map, all, Bool-cases, Option-cases, inl, inr,
}
use vkodex.Prelude.JsText.{Text, ◌===◌, ===_iff, ===_refl}
use vkodex.Prelude.JsMap.{includes}
use vkodex.OperationJournal.Tables.{update_rows}
use vkodex.OperationJournal.Rows.{ids}
use vkodex.InputBatcher.{BridgeInput}
use vkodex.Bridge.Inbox.Tables.{InputRow, Inbox, find_input, input_state}
use vkodex.Bridge.Inbox.Replay.{set_inputs, is_due, due_rows, postpone, reserve_replayable_inputs}
use vkodex.Bridge.Inbox.Run.{Call, run}
use vkodex.Bridge.Inbox.Keyed.{IsKeyed, is_safe_call, run-IsKeyed, postpone-IsKeyed}
use vkodex.Bridge.Inbox.Late.{IsApart, is_known, is_restart, Life-some, run-IsApart}
use vkodex.Bridge.Inbox.Held.{IsHeld}
use vkodex.Bridge.Inbox.Life.{postpone-Life}
use vkodex.Bridge.Inbox.Handed.{key, payloads_found, All-due_rows}

module _ (until : ℕ) where
  hold-IsHeld :
      (id : Text) (r : InputRow) (wanted : Text → Bool)
      → IsHeld until wanted r
      → IsHeld until
          (λ t. id === t || wanted t)
          (if r.id === id then record r { replay_after = some until } else r)
  hold-IsHeld id r wanted h = ground (arith, ===_iff r.id id, ===_iff id r.id)

  update_rows-IsHeld :
      (id : Text) (rows : List InputRow) (wanted : Text → Bool)
      → All (IsHeld until wanted) rows
      → All
          (IsHeld until (λ t. id === t || wanted t))
          (update_rows (λ x. x.id === id) (λ x. record x { replay_after = some until }) rows)
  unfolding update_rows
  update_rows-IsHeld id [] wanted h = tt
  update_rows-IsHeld id (r ∷ rows) wanted h =
      (hold-IsHeld id r wanted h.0, update_rows-IsHeld id rows wanted h.1)

  postpone-IsHeld :
      (taken rows : List InputRow) (wanted : Text → Bool)
      → All (IsHeld until wanted) rows
      → All
          (IsHeld until (λ t. includes (ids (λ r. r.id) taken) t || wanted t))
          (postpone until taken rows)
  unfolding postpone ids includes
  postpone-IsHeld [] rows wanted h = h
  postpone-IsHeld (r ∷ taken) rows wanted h =
      All-map _ _ _ (λ x p. ground arith)
        (postpone-IsHeld taken
          (update_rows (λ x. x.id === r.id) (λ x. record x { replay_after = some until }) rows)
          (λ t. r.id === t || wanted t) (update_rows-IsHeld r.id rows wanted h))

All-nothing : (until : ℕ) (rows : List InputRow) → All (IsHeld until (λ t. false)) rows
All-nothing until [] = tt
All-nothing until (r ∷ rows) = (refl, All-nothing until rows)

apart :
    (now later : ℕ) (wanted : Text → Bool) (r : InputRow)
    → later < now + 30000
    → IsHeld (now + 30000) wanted r × (is_due later r ≡ true)
    → wanted r.id ≡ false
unfolding is_due
apart now later wanted r lt h = let (held, due) = h in ground (arith, Option-cases r.replay_after)

-- What holds of the IDs of rows holds of the keys of inputs that are the same texts.
All-ids :
    {R : Type 0} (P : Text → Type 0) (f : R → Text) (rows : List R)
    → All (λ r. P (f r)) rows
    → All P (ids f rows)
unfolding ids
All-ids P f [] h = tt
All-ids P f (r ∷ rows) h = (h.0, All-ids P f rows h.1)

-- Each row is found under its ID, so the rows that are due are.
rows-is_known : (rows : List InputRow) → All (λ r. is_known rows r.id ≡ true) rows
unfolding is_known input_state find_input
rows-is_known [] = tt
rows-is_known (x ∷ rows) =
    (ground (arith, ===_refl x.id), All-map _ _ rows (λ r p. ground arith) (rows-is_known rows))

due_rows-is_known :
    (rows : List InputRow) (now limit : ℕ)
    → All (λ r. is_known rows r.id ≡ true) (due_rows rows now limit)
due_rows-is_known rows now limit =
    All-map _ _ (due_rows rows now limit) (λ r p. p.0)
      (All-due_rows (λ r. is_known rows r.id ≡ true) rows now limit (rows-is_known rows))

ids-is_known :
    (rows taken : List InputRow) (k : Text)
    → All (λ r. is_known rows r.id ≡ true) taken
    → includes (ids (λ r. r.id) taken) k ≡ true
    → is_known rows k ≡ true
unfolding ids includes
ids-is_known rows [] k h e = cc
ids-is_known rows (r ∷ taken) k h e = elim (Bool-cases (r.id === k)) [
  | inl same ↦ subst (λ x. is_known rows x ≡ true) ((===_iff r.id k).0 same) h.0
  | inr other ↦ ids-is_known rows taken k h.1 (rw other at e)
]

-- The rows that a request postpones are there and not due before its time.
postpone-IsApart :
    (until now limit : ℕ) (rows : List InputRow)
    → IsApart until
        (λ t. includes (ids (λ r. r.id) (due_rows rows now limit)) t || false)
        (postpone until (due_rows rows now limit) rows)
unfolding is_known
postpone-IsApart until now limit rows =
    let taken = due_rows rows now limit in
    record {
      held = postpone-IsHeld until taken rows (λ t. false) (All-nothing until rows);
      known = λ k w.
          let there : is_known rows k ≡ true =
            ids-is_known rows taken k (due_rows-is_known rows now limit) (ground arith) in
          let still = Life-some (postpone-Life k until taken rows) (ground arith) in ground arith;
    }

-- After any calls on an empty journal, a request for messages to try again returns; and after any further calls but a
-- restart, a second request that is made less than 30 seconds after the first returns as well, and
-- no message is among the results of both. Each message received has safe integers as its IDs.
pub reserve_replayable_inputs_apart :
    (byte_length : BridgeInput → ℕ) (box : Inbox) (cs between : List Call)
    (now limit later limit2 : ℕ)
    → box.inputs ≡ []
    → all is_safe_call cs ≡ true
    → all is_safe_call between ≡ true
    → all (λ c. not (is_restart c)) between ≡ true
    → later < now + 30000
    → (box1 : Inbox) × (inputs1 : List BridgeInput) × (box2 : Inbox) × (inputs2 : List BridgeInput)
      × (reserve_replayable_inputs (run byte_length box cs) now limit ≡ ok (box1, inputs1))
      × (reserve_replayable_inputs (run byte_length box1 between) later limit2 ≡ ok (box2, inputs2))
      × All (λ k. includes (ids key inputs1) k ≡ false) (ids key inputs2)
unfolding reserve_replayable_inputs
reserve_replayable_inputs_apart byte_length box cs between now limit later limit2 e safe safe2 runs
      lt =
    let box0 = run byte_length box cs in
    let keyed = run-IsKeyed byte_length cs box safe (subst (All IsKeyed) (sym e) tt) in
    let rows1 = due_rows box0.inputs now limit in
    let wanted : Text → Bool = λ t. includes (ids (λ r. r.id) rows1) t || false in
    let (inputs1, paid1) =
      payloads_found rows1 now (All-due_rows IsKeyed box0.inputs now limit keyed) in
    let box1 = set_inputs box0 (postpone (now + 30000) rows1 box0.inputs) in
    let later_box = run byte_length box1 between in
    let apart_then =
      run-IsApart (now + 30000) wanted byte_length between box1 runs
        (postpone-IsApart (now + 30000) now limit box0.inputs) in
    let rows2 = due_rows later_box.inputs later limit2 in
    let (inputs2, paid2) = payloads_found rows2 later (
      All-due_rows IsKeyed later_box.inputs later limit2 (
        run-IsKeyed byte_length between box1 safe2
          (postpone-IsKeyed (now + 30000) rows1 box0.inputs keyed))) in
    (
      box1,
      inputs1,
      set_inputs later_box (postpone (later + 30000) rows2 later_box.inputs),
      inputs2,
      rw paid1.found refl,
      rw paid2.found refl,
      rw (paid1.keys, paid2.keys)
          (All-ids (λ k. includes (ids (λ r. r.id) rows1) k ≡ false) (λ r. r.id) rows2
            (All-map _ _ rows2 (λ r p. let away = apart now later wanted r lt p in ground arith)
              (All-due_rows (IsHeld (now + 30000) wanted) later_box.inputs later limit2
                apart_then.held))),
    )
