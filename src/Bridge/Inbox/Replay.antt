-- ===== src/Bridge/Inbox/Replay.antt =====
-- src/bridge/store.ts: how a message enters the journal, is handed out again, claimed and finished.
use vkodex.Prelude.{
  ℕ, ◌+◌, ◌*◌, Bool, true, false, not, ◌&&◌, ◌||◌, Option, none, some, List, [], ◌∷◌, ◌++◌, zero,
  suc, ltb, leb, ◌==◌, is_none, all, keep, length, if◌then◌else◌, Result, ok, err, ◌>>=◌,
}
use vkodex.Prelude.JsText.{Text, ◌===◌}
use vkodex.OperationJournal.Tables.{update_rows}
use vkodex.InputBatcher.{BridgeInput, SavedInputBatch, BatchState, dispatching}
use vkodex.Bridge.Inbox.Tables.{
  InputState, received, processing, preparing, sending, uncertain, done, InputRow, Inbox,
  InboxError, input_too_large, invalid_input, invalid_batch, input_key, is_replayable,
  is_processing, is_preparing, input_state,
}

abbrev pub or_else : {A : Type 0} → Option A → A → Option A
or_else none a = some a
or_else (some b) a = some b

abbrev pub set_inputs : Inbox → List InputRow → Inbox
set_inputs box rows = record box { inputs = rows }

-- UPDATE … SET payload = COALESCE(payload, ?), received_at = …, replay_after = …
abbrev pub fill : BridgeInput → ℕ → InputRow → InputRow
fill input now r = record r {
  payload = or_else r.payload input;
  received_at = or_else r.received_at now;
  replay_after = or_else r.replay_after (now + 10000);
}

abbrev pub new_input : Text → BridgeInput → ℕ → InputRow
new_input id input now = record {
  id = id;
  state = received;
  payload = some input;
  received_at = some now;
  replay_after = some (now + 10000);
}

unfoldable pub receive_known : Inbox → BridgeInput → ℕ → Text → Option InputState → Inbox × Bool
receive_known box input now id none =
    (set_inputs box (box.inputs ++ (new_input id input now ∷ [])), true)
receive_known box input now id (some s) =
    if is_replayable s
    then (
      set_inputs box
          (update_rows (λ r. r.id === id && is_replayable r.state) (fill input now) box.inputs),
      true,
    )
    else (box, false)

-- `byte_length` is the size of the input's JSON text in UTF-8.
unfoldable pub receive_input :
    (BridgeInput → ℕ) → Inbox → BridgeInput → ℕ → Result InboxError (Inbox × Bool)
receive_input byte_length box input now =
    let id = input_key input.peer_id input.event_id in
    if ltb (256 * 1024) (byte_length input)
    then err input_too_large
    else ok (receive_known box input now id (input_state box.inputs id))

-- `COALESCE(replay_after, 0) <= ?`
abbrev pub is_due_at : ℕ → Option ℕ → Bool
is_due_at now none = true
is_due_at now (some t) = leb t now

unfoldable pub is_due : ℕ → InputRow → Bool
is_due now r = is_replayable r.state && not (is_none r.payload) && is_due_at now r.replay_after

-- ORDER BY received_at, rowid: NULL stands first, and equal times keep their order.
abbrev pub before : Option ℕ → Option ℕ → Bool
before none t = true
before (some s) none = false
before (some s) (some t) = leb s t

unfoldable pub insert_row : InputRow → List InputRow → List InputRow
insert_row r [] = r ∷ []
insert_row r (x ∷ rows) =
    let rest = insert_row r rows in
    if before r.received_at x.received_at then r ∷ x ∷ rows else x ∷ rest

unfoldable pub sort_rows : List InputRow → List InputRow
sort_rows [] = []
sort_rows (r ∷ rows) = insert_row r (sort_rows rows)

-- LIMIT ?
unfoldable pub limit_rows : {R : Type 0} → ℕ → List R → List R
limit_rows zero rows = []
limit_rows (suc n) [] = []
limit_rows (suc n) (r ∷ rows) = r ∷ limit_rows n rows

unfoldable pub due_rows : List InputRow → ℕ → ℕ → List InputRow
due_rows rows now limit = limit_rows limit (sort_rows (keep (is_due now) rows))

-- `Number.isSafeInteger`, of a number that is not negative.
abbrev pub is_safe_integer : ℕ → Bool
is_safe_integer n = leb n 9007199254740991

unfoldable pub checked_payload : InputRow → Option BridgeInput → Result InboxError BridgeInput
checked_payload r none = err invalid_input
checked_payload r (some input) =
    if not (is_safe_integer input.peer_id)
      || not (is_safe_integer input.sender_id)
      || not (input_key input.peer_id input.event_id === r.id)
    then err invalid_input
    else ok input

unfoldable pub payloads : List InputRow → Result InboxError (List BridgeInput)
payloads [] = ok []
payloads (r ∷ rows) =
    checked_payload r r.payload >>= λ input. payloads rows >>= λ rest. ok (input ∷ rest)

-- UPDATE bridge_inbox SET replay_after = ? WHERE id = ?, for each row handed out.
unfoldable pub postpone : ℕ → List InputRow → List InputRow → List InputRow
postpone until [] rows = rows
postpone until (r ∷ taken) rows =
    postpone until taken
      (update_rows (λ x. x.id === r.id) (λ x. record x { replay_after = some until }) rows)

unfoldable pub reserve_replayable_inputs :
    Inbox → ℕ → ℕ → Result InboxError (Inbox × List BridgeInput)
reserve_replayable_inputs box now limit =
    let taken = due_rows box.inputs now limit in
    payloads taken >>= λ inputs.
    ok (set_inputs box (postpone (now + 30000) taken box.inputs), inputs)

abbrev pub set_state : InputState → InputRow → InputRow
set_state s r = record r { state = s }

unfoldable pub claim_known : Inbox → Text → Option InputState → Inbox × Bool
claim_known box id none =
    let row : InputRow = record {
      id = id;
      state = processing;
      payload = none;
      received_at = none;
      replay_after = none;
    } in
    (set_inputs box (box.inputs ++ (row ∷ [])), true)
claim_known box id (some s) = (
  set_inputs box
      (update_rows (λ r. r.id === id && is_replayable r.state) (set_state processing) box.inputs),
  is_replayable s,
)

unfoldable pub claim_input : Inbox → Text → Inbox × Bool
claim_input box id = claim_known box id (input_state box.inputs id)

unfoldable pub mark_input_preparing : List InputRow → List Text → List InputRow
mark_input_preparing rows [] = rows
mark_input_preparing rows (id ∷ ids) =
    mark_input_preparing
      (update_rows (λ r. r.id === id && is_processing r.state) (set_state preparing) rows) ids

unfoldable pub mark_input_sending : List InputRow → List Text → List InputRow
mark_input_sending rows [] = rows
mark_input_sending rows (id ∷ ids) =
    mark_input_sending
      (update_rows (λ r. r.id === id && is_preparing r.state) (set_state sending) rows) ids

-- `state = ?, payload = NULL`
abbrev pub finished : Bool → InputRow → InputRow
finished lost r = record r { state = if lost then uncertain else done; payload = none }

unfoldable pub finish_input : List InputRow → Text → Bool → List InputRow
finish_input rows id lost = update_rows (λ r. r.id === id) (finished lost) rows

unfoldable pub finish_inputs : List InputRow → List Text → Bool → List InputRow
finish_inputs rows [] lost = rows
finish_inputs rows (id ∷ ids) lost = finish_inputs (finish_input rows id lost) ids lost

-- The table's key is the peer, so its rows stand in the order of `ORDER BY peer_id`.
unfoldable pub save_input_batch : List SavedInputBatch → SavedInputBatch → List SavedInputBatch
save_input_batch [] b = b ∷ []
save_input_batch (c ∷ cs) b =
    let rest = save_input_batch cs b in
    if b.peer_id == c.peer_id
    then b ∷ cs
    else if ltb b.peer_id c.peer_id
    then b ∷ c ∷ cs
    else c ∷ rest

unfoldable pub input_batches : List SavedInputBatch → Result InboxError (List SavedInputBatch)
input_batches [] = ok []
input_batches (b ∷ bs) =
    if all (λ p. p.peer_id == b.peer_id) (b.batch.first ∷ b.batch.rest)
    then (input_batches bs >>= λ rest. ok (b ∷ rest))
    else err invalid_batch

unfoldable pub remove_input_batch : List SavedInputBatch → ℕ → Text → List SavedInputBatch
remove_input_batch bs peer id = keep (λ b. not (b.peer_id == peer && b.batch.id === id)) bs

abbrev pub is_dispatching : BatchState → Bool
is_dispatching dispatching = true
is_dispatching _ = false

abbrev pub least : Option ℕ → ℕ → Option ℕ
least none t = some t
least (some s) t = if ltb t s then some t else some s

-- MIN(updated_at)
unfoldable pub oldest_update : List SavedInputBatch → Option ℕ
oldest_update [] = none
oldest_update (b ∷ bs) = least (oldest_update bs) b.batch.updated

unfoldable pub input_batch_stats : List SavedInputBatch → ℕ × Option ℕ × ℕ
input_batch_stats bs = (length bs, oldest_update bs, length (keep (λ b. is_dispatching b.state) bs))
