-- ===== src/QueueState.antt =====
-- src/codex/native-queue-state.ts: `classifyNativeQueueState`, which tells whether a native queue that
-- was received is a replay of the durable one or appends one entry to it.
mod Known
mod Loops
pub mod Classified
use vkodex.Prelude.{
  ℕ, suc, ◌+◌, Bool, true, false, not, ◌&&◌, ◌||◌, Option, none, some, List, [], ◌∷◌, ◌++◌, map,
  ◌==◌, ltb, if◌then◌else◌, all, length, Result, ok, err, ◌>>=◌, ◌>>◌, throw_if,
}
use vkodex.Prelude.JsText.{Text, ◌===◌, is_empty, is_lower_hex}
use vkodex.Prelude.JsMap
use vkodex.Prelude.JsMap.{JsMap, includes}

pub record QueueEntryIdentity : Type 0 where
  pub id : Text
  pub fingerprint : Text

pub record NativeQueueState : Type 0 where
  pub current_pending : List QueueEntryIdentity
  pub consumed : List QueueEntryIdentity
  pub incoming : List QueueEntryIdentity

pub data NativeQueueStateClassification : Type 0 where
  replay : List Text → List Text → NativeQueueStateClassification
  append : List Text → List Text → Text → NativeQueueStateClassification

-- The errors that are thrown, one for each message.
pub data QueueStateError : Type 0 where
  invalid_identity duplicate_durable duplicate_incoming tombstone_reorder : QueueStateError
  changed_body pending_omission multiple_new reused_known : QueueStateError

abbrev pub ids_of : List QueueEntryIdentity → List Text
ids_of [] = []
ids_of (row ∷ rows) = row.id ∷ ids_of rows

-- `/^[a-f0-9]{64}$/u`
unfoldable pub is_fingerprint : Text → Bool
is_fingerprint s = length s == 64 && all is_lower_hex s

unfoldable pub is_identity : QueueEntryIdentity → Bool
unfolding is_fingerprint
is_identity row = not (is_empty row.id) && is_fingerprint row.fingerprint

unfoldable pub require_identities : List QueueEntryIdentity → Result QueueStateError (Unit {0})
unfolding is_identity
require_identities rows = throw_if (not (all is_identity rows)) invalid_identity

-- The loop that fills `known`.
unfoldable pub add_known :
    JsMap QueueEntryIdentity
    → List QueueEntryIdentity
    → Result QueueStateError (JsMap QueueEntryIdentity)
add_known m [] = ok m
add_known m (row ∷ rows) =
    let rest = add_known (JsMap.set m row.id row) rows in
    if JsMap.has m row.id then err duplicate_durable else rest

unfoldable pub has_duplicate_id : List QueueEntryIdentity → Bool
has_duplicate_id [] = false
has_duplicate_id (row ∷ rows) = includes (ids_of rows) row.id || has_duplicate_id rows

-- `consumedOrder.get(id)`; the IDs of the tombstones are distinct where this is called.
unfoldable pub consumed_index : List QueueEntryIdentity → Text → Option ℕ
consumed_index [] id = none
consumed_index (row ∷ rows) id =
    if row.id === id
    then some 0
    else elim (consumed_index rows id) [ none ↦ none | some i ↦ some (suc i) ]

-- `known.get(row.id)!.fingerprint !== row.fingerprint`
unfoldable pub body_changed : JsMap QueueEntryIdentity → QueueEntryIdentity → Bool
body_changed known row = elim (JsMap.get known row.id) [
  | none ↦ true
  | some r ↦ not (r.fingerprint === row.fingerprint)
]

-- The while loop over the consumed prefix; `next` is `lastConsumedIndex + 1`. What it gives are the
-- stripped rows and the remaining ones.
unfoldable pub strip_consumed :
    List QueueEntryIdentity
    → JsMap QueueEntryIdentity
    → ℕ
    → List QueueEntryIdentity
    → Result QueueStateError (List QueueEntryIdentity × List QueueEntryIdentity)
strip_consumed tombstones known next [] = ok ([], [])
strip_consumed tombstones known next (row ∷ rows) = elim (consumed_index tombstones row.id) [
  | none ↦ ok ([], row ∷ rows)
  | some index ↦
      if ltb index next
      then err tombstone_reorder
      else if body_changed known row
      then err changed_body
      else (strip_consumed tombstones known (suc index) rows >>= λ r. ok (row ∷ r.0, r.1))
]

-- The loop that compares the pending rows with what remains; what it gives is the tail behind them.
unfoldable pub match_pending :
    JsMap QueueEntryIdentity
    → List QueueEntryIdentity
    → List QueueEntryIdentity
    → Result QueueStateError (List QueueEntryIdentity)
match_pending known [] remaining = ok remaining
match_pending known (expected ∷ pending) [] = err pending_omission
match_pending known (expected ∷ pending) (actual ∷ remaining) =
    let rest = match_pending known pending remaining in
    if not (actual.id === expected.id)
    then (if JsMap.has known actual.id && body_changed known actual
        then err changed_body
        else err pending_omission)
    else if not (actual.fingerprint === expected.fingerprint)
    then err changed_body
    else rest

unfoldable pub classify_tail :
    JsMap QueueEntryIdentity
    → List Text
    → List Text
    → List QueueEntryIdentity
    → Result QueueStateError NativeQueueStateClassification
classify_tail known canonical stripped [] = ok (replay canonical stripped)
classify_tail known canonical stripped (next ∷ []) =
    if JsMap.has known next.id
    then (if body_changed known next then err changed_body else err reused_known)
    else ok (append (canonical ++ (next.id ∷ [])) stripped next.id)
classify_tail known canonical stripped (next ∷ _ ∷ _) = err multiple_new

unfoldable pub classify : NativeQueueState → Result QueueStateError NativeQueueStateClassification
classify state = do
  require_identities state.current_pending
  require_identities state.consumed
  require_identities state.incoming
  known ← add_known [] (state.current_pending ++ state.consumed)
  throw_if (has_duplicate_id state.incoming) duplicate_incoming
  (stripped, remaining) ← strip_consumed state.consumed known 0 state.incoming
  throw_if (ltb (length remaining) (length state.current_pending)) pending_omission
  tail ← match_pending known state.current_pending remaining
  classify_tail known (ids_of state.current_pending) (ids_of stripped) tail
