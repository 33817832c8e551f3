-- ===== src/Tests/Bridge.antt =====
-- src/bridge/input-batcher.ts, src/core/turn-coordinator.ts and src/lib/text.ts: concrete runs.
use vkodex.Prelude.{
  ℕ, ◌≡◌, refl, Bool, true, false, not, ◌&&◌, ◌||◌, map, ◌==◌, none, some, List, [], ◌∷◌, ◌++◌, ok,
  err, All, arith,
}
use vkodex.Prelude.JsText.{Text, codes, ◌===◌, trim, trim_start, trim_end, is_space}
use vkodex.Prelude.JsMap
use vkodex.Prelude.JsMap.{JsMap, includes}
use vkodex.Prelude
use vkodex.TurnCoordinator.{
  session_busy, is_busy, start, finish, Event, starts, finishes, stops, run, keeps_turn, is_apart,
  turns_exclude,
}
use vkodex.TextChunks.{chunk_text, chunks, cut, split_at, last_index, take, drop}
use vkodex.TextChunks.Bounds.{Fits, chunk_text-Fits}
use vkodex.InputBatcher.{BridgeInput, Pending, Effect, get, handle}
use vkodex.InputBatcher.Shown.{event_ids_of, said, sent_of, waiting_of, has_part, IsBatch}
use vkodex.InputBatcher.Order.{handle_in_order}

abbrev message : Text → Text → BridgeInput
message id text = record {
  event_id = id;
  merged_event_ids = none;
  peer_id = 5;
  sender_id = 8;
  text = text;
  has_action = false;
  is_edit = false;
  is_reply = false;
  has_attachment = false;
}

abbrev batch : Pending
batch = record {
  id = codes "batch";
  first = message (codes "one") (codes "a long part");
  rest = [];
  started = 100;
  updated = 100;
}

abbrev next_message : BridgeInput
next_message = message (codes "two") (codes "its end")

abbrev pending : List (ℕ × Pending)
pending = (5, batch) ∷ []

is_batch : IsBatch 5 (get pending 5)
unfolding get
is_batch = ((refl, refl, refl), tt)

new_id : has_part (get pending 5) (codes "two") ≡ false
unfolding get ◌===◌ Prelude.any
new_id = refl

abbrev handled : List (ℕ × Pending) × List Effect
handled = handle pending 3000 next_message true (codes "id") 1000

handle_in_order_example :
    (sent_of event_ids_of handled.1 ++ waiting_of event_ids_of handled.0 5
      ≡ waiting_of event_ids_of pending 5 ++ (codes "two" ∷ []))
    × (sent_of said handled.1 ++ waiting_of said handled.0 5
        ≡ waiting_of said pending 5 ++ said next_message)
    × (get handled.0 6 ≡ get pending 6)
    × IsBatch 5 (get handled.0 5)
handle_in_order_example =
    handle_in_order pending 3000 next_message true (codes "id") 1000 6 is_batch refl new_id refl

abbrev active : JsMap Bool
active = (codes "s", false) ∷ []

starts_free : start [] (codes "s") ≡ ok active
unfolding start JsMap.get JsMap.set
starts_free = refl

abbrev during : List Event
during = starts (codes "s") ∷ stops (codes "s") ∷ starts (codes "t") ∷ finishes (codes "t") ∷ []

abbrev after : List Event
after = starts (codes "t") ∷ stops (codes "s") ∷ []

kept_during : Prelude.all (keeps_turn (codes "s")) during ≡ true
unfolding Prelude.all ◌===◌
kept_during = refl

apart_after : Prelude.all (is_apart (codes "s")) after ≡ true
unfolding Prelude.all ◌===◌
apart_after = refl

turns_exclude_example :
    (is_busy [] (codes "s") ≡ false)
    × (start (run active during) (codes "s") ≡ err session_busy)
    × (is_busy (run (finish (run active during) (codes "s")) after) (codes "s") ≡ false)
turns_exclude_example =
    turns_exclude [] (codes "s") during after {active' = active} starts_free kept_during apart_after

-- Two words are cut at the space between them.
chunk_text_two : chunk_text (codes "hello world") 8 ≡ some (codes "hello" ∷ codes "world" ∷ [])
unfolding chunk_text chunks cut split_at last_index take drop trim trim_start trim_end is_space
chunk_text_two = refl

chunk_text-Fits_example :
    (cs : List Text) × (chunk_text (codes "hello world") 8 ≡ some cs) × All (Fits 8) cs
chunk_text-Fits_example = chunk_text-Fits (codes "hello world") 8 (omega arith)
