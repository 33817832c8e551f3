-- ===== src/Tests/Actions.antt =====
-- src/bridge/store.ts: concrete runs of the buttons and of the queue receipts.
use vkodex.Prelude.{
  ℕ, ◌+◌, ◌≡◌, refl, Bool, true, false, not, ◌&&◌, Option, none, some, List, [], ◌∷◌, ok, arith,
}
use vkodex.Prelude
use vkodex.Prelude.JsText.{codes, ◌===◌}
use vkodex.Json.{null}
use vkodex.OperationJournal.Tables.{update_rows, count_rows}
use vkodex.Bridge.Actions.{
  action, consume_action, get_action, scoped_action, ActionCall, offer, press, run, step,
}
use vkodex.Bridge.Actions.Once.{consume_action_once}
use vkodex.Bridge.Receipts
use vkodex.Bridge.Receipts.{
  ReceiptRow, ReceiptCall, settled, is_accepted, find_receipt, managed_queue_receipt,
}
use vkodex.Bridge.Receipts.Readable.{managed_queue_receipt_total, settled_receipt_final}

abbrev offered : List ActionCall
offered = offer null 100 (some 5) (codes "a") ∷ []

abbrev later : List ActionCall
later = offer null 200 none (codes "b") ∷ press (codes "a") 5 300 ∷ []

pressed : (consume_action (run [] offered) (codes "a") 5 150).1 ≡ true
unfolding consume_action run step action count_rows update_rows ◌===◌ Prelude.any
pressed = refl

consume_action_once_example :
    ((consume_action
        (run (consume_action (run [] offered) (codes "a") 5 150).0 later)
        (codes "a")
        5
        400).1
      ≡ false)
    × (get_action (run (consume_action (run [] offered) (codes "a") 5 150).0 later) (codes "a") 400
        ≡ none)
    × (scoped_action
          (run (consume_action (run [] offered) (codes "a") 5 150).0 later)
          (codes "a")
          5
          true
          400
        ≡ none)
consume_action_once_example = consume_action_once offered later (codes "a") 5 150 5 400 true pressed

abbrev settled_row : ReceiptRow
settled_row = record {
  operation_id = codes "op";
  submission_id = codes "s";
  state = settled;
  last_checked_at = some 7;
  terminal_turn_id = some (codes "turn");
}

abbrev receipt_calls : List ReceiptCall
receipt_calls =
    Receipts.remember (ok true) (codes "op") (codes "s")
    ∷ Receipts.check (codes "op") 9
    ∷ Receipts.settle (codes "op") (codes "s") (codes "other")
    ∷ []

row_found : find_receipt (settled_row ∷ []) (codes "op") ≡ some settled_row
unfolding find_receipt ◌===◌
row_found = refl

managed_queue_receipt_total_example :
    managed_queue_receipt (Receipts.run [] receipt_calls) (codes "op")
    ≡ ok (find_receipt (Receipts.run [] receipt_calls) (codes "op"))
managed_queue_receipt_total_example = managed_queue_receipt_total receipt_calls (codes "op")

settled_receipt_final_example :
    find_receipt (Receipts.run (settled_row ∷ []) receipt_calls) (codes "op") ≡ some settled_row
settled_receipt_final_example =
    settled_receipt_final receipt_calls (settled_row ∷ []) (codes "op") settled_row refl row_found
