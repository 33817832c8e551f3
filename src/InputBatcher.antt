-- ===== src/InputBatcher.antt =====
-- src/bridge/input-batcher.ts: long messages that the messenger splits are collected and sent as one. What the code
-- does to the store and to the sender is a list of effects; a timer that fires is a call of `flush`.
pub mod Shown
pub mod Apart
pub mod Order
use vkodex.Prelude.{
  ℕ, ◌+◌, ◌-◌, Bool, true, false, not, ◌&&◌, ◌||◌, Option, none, some, List, [], ◌∷◌, ◌++◌, map,
  any, leb, ltb, ◌==◌, length, is_none, if◌then◌else◌,
}
use vkodex.Prelude.JsText.{Text, codes, ◌===◌, is_empty, trim, trim_start}

-- `action`, `edit_of`, `reply_to` and the last field tell whether the source's fields are there.
pub record BridgeInput : Type 0 where
  pub event_id : Text
  pub merged_event_ids : Option (List Text)
  pub peer_id : ℕ
  pub sender_id : ℕ
  pub text : Text
  pub has_action : Bool
  pub is_edit : Bool
  pub is_reply : Bool
  pub has_attachment : Bool

-- `parts` is the first part and those behind it; there is always one.
pub record Pending : Type 0 where
  pub id : Text
  pub first : BridgeInput
  pub rest : List BridgeInput
  pub started : ℕ
  pub updated : ℕ

pub data BatchState : Type 0 where
  collecting dispatching : BatchState

pub record SavedInputBatch : Type 0 where
  pub peer_id : ℕ
  pub batch : Pending
  pub state : BatchState

-- A call of the sender, and of `saveInputBatch` and `removeInputBatch` of the store.
pub data Effect : Type 0 where
  send : BridgeInput → Effect
  save : SavedInputBatch → Effect
  remove : ℕ → Text → Effect

-- `pending`, by peer.
unfoldable pub get : List (ℕ × Pending) → ℕ → Option Pending
get [] peer = none
get ((p, b) ∷ m) peer = if p == peer then some b else get m peer

unfoldable pub delete : List (ℕ × Pending) → ℕ → List (ℕ × Pending)
delete [] peer = []
delete ((p, b) ∷ m) peer = let rest = delete m peer in if p == peer then rest else (p, b) ∷ rest

unfoldable pub set : List (ℕ × Pending) → ℕ → Pending → List (ℕ × Pending)
set [] peer b = (peer, b) ∷ []
set ((p, c) ∷ m) peer b = if p == peer then (p, b) ∷ m else (p, c) ∷ set m peer b

unfoldable pub join : Text → Text → List Text → Text
join separator s [] = s
join separator s (t ∷ ts) = s ++ (separator ++ join separator t ts)

abbrev pub event_ids : List BridgeInput → List Text
event_ids = map (λ i. i.event_id)

-- `mergedInput`
unfoldable pub merged_input : BridgeInput → List BridgeInput → BridgeInput
unfolding join
merged_input first [] = first
merged_input first (next ∷ rest) = record first {
  event_id = codes "merged:" ++ join (codes ",") first.event_id (event_ids (next ∷ rest));
  merged_event_ids = some (first.event_id ∷ event_ids (next ∷ rest));
  text = join (10 ∷ []) first.text (map (λ i. i.text) (next ∷ rest));
}

abbrev starts_with_slash : Text → Bool
starts_with_slash [] = false
starts_with_slash (c ∷ s) = c == b'/'

-- `plain`; `eligible` is what the callback answers.
unfoldable pub is_plain : Bool → BridgeInput → Bool
is_plain eligible input =
    eligible
    && not input.has_action
    && not input.is_edit
    && not input.is_reply
    && not (starts_with_slash (trim_start input.text))
    && not (is_empty (trim input.text))
    && not input.has_attachment

-- The sum of the parts' lengths, one more for each.
unfoldable pub total : List BridgeInput → ℕ
total [] = 0
total (i ∷ is) = length i.text + 1 + total is

unfoldable pub append :
    List (ℕ × Pending) → Pending → BridgeInput → ℕ → List (ℕ × Pending) × List Effect
append pending batch input now =
    let known = any (λ p. p.event_id === input.event_id) (batch.first ∷ batch.rest) in
    let rest = if known then batch.rest else batch.rest ++ (input ∷ []) in
    let batch' : Pending = record batch { rest = rest; updated = now } in
    (
      set pending input.peer_id batch',
      save (record { peer_id = input.peer_id; batch = batch'; state = collecting }) ∷ [],
    )

unfoldable pub flush_found :
    List (ℕ × Pending) → ℕ → Option Pending → List (ℕ × Pending) × List Effect
unfolding merged_input
flush_found pending peer none = (pending, [])
flush_found pending peer (some batch) = (
  delete pending peer,
  save (record { peer_id = peer; batch = batch; state = dispatching })
      ∷ send (merged_input batch.first batch.rest)
      ∷ [],
)

-- The first half of `flush`, up to the sender's answer.
unfoldable pub flush : List (ℕ × Pending) → ℕ → List (ℕ × Pending) × List Effect
flush pending peer = flush_found pending peer (get pending peer)

-- The second half, when the sender answered: the batch is kept in the store if it failed.
unfoldable pub sent : ℕ → Text → Bool → List Effect
sent peer id true = remove peer id ∷ []
sent peer id false = []

abbrev pub new_batch : BridgeInput → Text → ℕ → Pending
new_batch input id now = record { id = id; first = input; rest = []; started = now; updated = now }

-- A message whose peer has no batch: it is sent, or begins one.
unfoldable pub start_batch :
    List (ℕ × Pending) → ℕ → BridgeInput → Bool → Text → ℕ → List (ℕ × Pending) × List Effect
start_batch pending threshold input plain id now =
    if not plain || ltb (length input.text) threshold
    then (pending, send input ∷ [])
    else append pending (new_batch input id now) input now

-- A message that does not go on with its peer's batch: the batch is flushed before it.
unfoldable pub begin_batch :
    List (ℕ × Pending) → ℕ → BridgeInput → Bool → Text → ℕ → List (ℕ × Pending) × List Effect
begin_batch pending threshold input plain id now =
    let before = flush pending input.peer_id in
    let after = start_batch before.0 threshold input plain id now in (after.0, before.1 ++ after.1)

-- Whether the message goes on with the batch that its peer has.
unfoldable pub goes_on : Pending → BridgeInput → Bool → ℕ → Bool
unfolding total
goes_on batch input plain now =
    plain
    && batch.first.sender_id == input.sender_id
    && ltb now (batch.started + 10000)
    && leb (total (batch.first ∷ batch.rest) + length input.text) 64000

unfoldable pub handle_found :
    List (ℕ × Pending)
    → ℕ
    → BridgeInput
    → Bool
    → Text
    → ℕ
    → Option Pending
    → List (ℕ × Pending) × List Effect
handle_found pending threshold input plain id now none =
    begin_batch pending threshold input plain id now
handle_found pending threshold input plain id now (some batch) =
    if goes_on batch input plain now
    then append pending batch input now
    else begin_batch pending threshold input plain id now

-- `handle`; `id` is the UUID that is drawn, `now` the time.
unfoldable pub handle :
    List (ℕ × Pending) → ℕ → BridgeInput → Bool → Text → ℕ → List (ℕ × Pending) × List Effect
handle pending threshold input eligible id now =
    handle_found pending threshold input (is_plain eligible input) id now
      (get pending input.peer_id)

-- `["processing","sending","done","uncertain"].includes(state ?? "")`
unfoldable pub is_processed : Option Text → Bool
is_processed none = false
is_processed (some s) =
    s === codes "processing"
    || s === codes "sending"
    || s === codes "done"
    || s === codes "uncertain"

-- `inputState` of the store, for a peer and an event ID, is an argument.
unfoldable pub restore :
    (ℕ → Text → Option Text)
    → List (ℕ × Pending)
    → List SavedInputBatch
    → List (ℕ × Pending) × List Effect
unfolding is_processed merged_input
restore state pending [] = (pending, [])
restore state pending (saved ∷ batches) =
    let b = saved.batch in
    let done =
      is_processed (state saved.peer_id (merged_input b.first b.rest).event_id)
      || any (λ p. is_processed (state saved.peer_id p.event_id)) (b.first ∷ b.rest) in
    let skipped = restore state pending batches in
    let (pending', effects) = restore state pending batches in
    let restored = restore state (set pending saved.peer_id b) batches in
    if not (is_none (get pending saved.peer_id))
    then skipped
    else if done
    then (pending', remove saved.peer_id b.id ∷ effects)
    else restored

-- The delay before a restored batch is flushed.
unfoldable pub restored_delay : ℕ → SavedInputBatch → ℕ → ℕ
restored_delay delay saved now = elim saved.state [
  | dispatching ↦ 0
  | collecting ↦
      if leb (saved.batch.started + 10000) now then 0 else delay + saved.batch.updated - now
]

-- `abandon`: the batches stay in the store.
unfoldable pub abandon : List (ℕ × Pending) → List (ℕ × Pending)
abandon pending = []
