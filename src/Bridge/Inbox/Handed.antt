-- ===== src/Bridge/Inbox/Handed.antt =====
-- src/bridge/store.ts: the messages that one call hands out for another try.
use vkodex.Prelude.{
  ℕ, ◌+◌, ◌≡◌, refl, sym, subst, Bool, true, List, [], ◌∷◌, arith, zero, suc, Option-cases,
  Bool-cases, inl, inr, ok, All, keep, length, ap, all, ◌∙◌, ltb, if◌then◌else◌,
}
use vkodex.Prelude.JsText.{Text, ===_iff}
use vkodex.OperationJournal.Rows.{ids}
use vkodex.InputBatcher.{BridgeInput}
use vkodex.Bridge.Inbox.Tables.{InputRow, Inbox, input_key}
use vkodex.Bridge.Inbox.Replay.{
  set_inputs, before, insert_row, sort_rows, limit_rows, is_due, due_rows, checked_payload,
  payloads, postpone, reserve_replayable_inputs,
}
use vkodex.Bridge.Inbox.Run.{Call, run}
use vkodex.Bridge.Inbox.Keyed.{KeyedBy, is_safe_call, IsKeyed, run-IsKeyed}

-- What holds of every row holds of the rows handed out, and they are due.
module _ {κ} (P : InputRow → Type κ) where
  All-insert_row :
      (r : InputRow) (rows : List InputRow) → P r → All P rows → All P (insert_row r rows)
  unfolding insert_row
  All-insert_row r [] p h = (p, tt)
  All-insert_row r (x ∷ rows) p h = elim (Bool-cases (before r.received_at x.received_at)) [
    | inl first ↦ rw first (p, h)
    | inr later ↦ rw later (h.0, All-insert_row r rows p h.1)
  ]

  All-sort_rows : (rows : List InputRow) → All P rows → All P (sort_rows rows)
  unfolding sort_rows
  All-sort_rows [] h = tt
  All-sort_rows (r ∷ rows) h = All-insert_row r (sort_rows rows) h.0 (All-sort_rows rows h.1)

  All-limit_rows : (n : ℕ) (rows : List InputRow) → All P rows → All P (limit_rows n rows)
  unfolding limit_rows
  All-limit_rows zero rows h = tt
  All-limit_rows (suc n) [] h = tt
  All-limit_rows (suc n) (r ∷ rows) h = (h.0, All-limit_rows n rows h.1)

  All-keep_due :
      (test : InputRow → Bool) (rows : List InputRow)
      → All P rows
      → All (λ r. P r × (test r ≡ true)) (keep test rows)
  unfolding keep
  All-keep_due test [] h = tt
  All-keep_due test (r ∷ rows) h = elim (Bool-cases (test r)) [
    | inl yes' ↦ rw yes' ((h.0, yes'), All-keep_due test rows h.1)
    | inr no' ↦ rw no' (All-keep_due test rows h.1)
  ]

pub All-due_rows {κ} :
    (P : InputRow → Type κ) (rows : List InputRow) (now limit : ℕ)
    → All P rows
    → All (λ r. P r × (is_due now r ≡ true)) (due_rows rows now limit)
unfolding due_rows
All-due_rows P rows now limit h =
    All-limit_rows (λ r. P r × (is_due now r ≡ true)) limit (sort_rows (keep (is_due now) rows))
      (All-sort_rows (λ r. P r × (is_due now r ≡ true)) (keep (is_due now) rows)
        (All-keep_due P (is_due now) rows h))

length-limit_rows :
    (n : ℕ) (rows : List InputRow)
    → length (limit_rows n rows) ≡ (if ltb n (length rows) then n else length rows)
unfolding limit_rows
length-limit_rows zero rows = ground arith
length-limit_rows (suc n) [] = ground arith
length-limit_rows (suc n) (r ∷ rows) = ground (arith, length-limit_rows n rows)

length-insert_row :
    (r : InputRow) (rows : List InputRow) → length (insert_row r rows) ≡ length rows + 1
unfolding insert_row
length-insert_row r [] = omega arith
length-insert_row r (x ∷ rows) = ground (arith, length-insert_row r rows)

length-sort_rows : (rows : List InputRow) → length (sort_rows rows) ≡ length rows
unfolding sort_rows
length-sort_rows [] = refl
length-sort_rows (r ∷ rows) =
    omega (arith, length-sort_rows rows, length-insert_row r (sort_rows rows))

abbrev pub key : BridgeInput → Text
key input = input_key input.peer_id input.event_id

-- The payloads of rows that carry one under its key are there, in the rows' order.
pub record Paid (rows : List InputRow) (inputs : List BridgeInput) : Type 0 where
  pub found : payloads rows ≡ ok inputs
  pub keys : ids key inputs ≡ ids (λ r. r.id) rows

payload_found :
    (r : InputRow) (now : ℕ)
    → IsKeyed r × (is_due now r ≡ true)
    → (input : BridgeInput) × (checked_payload r r.payload ≡ ok input) × (key input ≡ r.id)
unfolding checked_payload is_due
payload_found r now h = elim (Option-cases r.payload) [
  | inl gone ↦ absurd (let due = h.1 in ground arith)
  | inr (input, there) ↦
      let same = subst (KeyedBy r.id) there h.0 in
      (input, rw (there, (===_iff (key input) r.id).1 same.0) ground (arith, same.1), same.0)
]

pub payloads_found :
    (rows : List InputRow) (now : ℕ)
    → All (λ r. IsKeyed r × (is_due now r ≡ true)) rows
    → (inputs : List BridgeInput) × Paid rows inputs
unfolding payloads ids
payloads_found [] now h = ([], record { found = refl; keys = refl })
payloads_found (r ∷ rows) now h =
    let (input, e, k) = payload_found r now h.0 in
    let (inputs, rest) = payloads_found rows now h.1 in
    (input ∷ inputs, record { found = rw (e, rest.found) refl; keys = rw (k, rest.keys) refl })

length-ids : {R : Type 0} (f : R → Text) (rows : List R) → length (ids f rows) ≡ length rows
unfolding ids
length-ids f [] = refl
length-ids f (r ∷ rows) = omega (arith, length-ids f rows)

-- After any calls on an empty journal, in which each message received has a peer ID and a sender ID that are safe
-- integers, a request for messages to try again returns: as many as are due, but at most the number asked
-- for, and their keys are the IDs of the rows that the query finds.
pub reserve_replayable_inputs_total :
    (byte_length : BridgeInput → ℕ) (box : Inbox) (cs : List Call) (now limit : ℕ)
    → box.inputs ≡ []
    → all is_safe_call cs ≡ true
    → (box' : Inbox) × (inputs : List BridgeInput) × (reserve_replayable_inputs
          (run byte_length box cs)
          now
          limit
        ≡ ok (box', inputs))
      × (length inputs ≡ (
          if ltb limit (length (keep (is_due now) (run byte_length box cs).inputs))
          then limit
          else length (keep (is_due now) (run byte_length box cs).inputs)))
      × (ids key inputs ≡ ids (λ r. r.id) (due_rows (run byte_length box cs).inputs now limit))
unfolding reserve_replayable_inputs due_rows
reserve_replayable_inputs_total byte_length box cs now limit e safe =
    let keyed = run-IsKeyed byte_length cs box safe (subst (All IsKeyed) (sym e) tt) in
    let rows = due_rows (run byte_length box cs).inputs now limit in
    let due = keep (is_due now) (run byte_length box cs).inputs in
    let (inputs, paid) =
      payloads_found rows now
        (All-due_rows IsKeyed (run byte_length box cs).inputs now limit keyed) in
    (
      set_inputs (run byte_length box cs)
          (postpone (now + 30000) rows (run byte_length box cs).inputs),
      inputs,
      rw paid.found refl,
      sym (length-ids key inputs)
          ∙ ap length paid.keys
          ∙ length-ids (λ r. r.id) rows
          ∙ length-limit_rows limit (sort_rows due)
          ∙ ap (λ n. if ltb limit n then limit else n) (length-sort_rows due),
      paid.keys,
    )
