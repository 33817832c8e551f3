-- ===== src/Bridge/Receipts.antt =====
-- src/bridge/store.ts: the receipts of operations that a managed worker queued, the table
-- `bridge_managed_queue_receipts`. What `managedOperationAuthority` answers on another table is an argument.
pub mod Readable
use vkodex.Prelude.{
  ℕ, ◌+◌, ◌≡◌, refl, Bool, true, false, not, ◌&&◌, ◌||◌, Option, none, some, List, [], ◌∷◌, ◌++◌,
  arith, any, leb, ltb, ◌==◌, length, is_none, if◌then◌else◌, Bool-cases, Result-cases, inl, inr,
  Result, ok, err, ◌>>=◌, ◌>>◌, throw_if,
}
use vkodex.Prelude.JsText.{Text, ◌===◌, ===_iff, is_empty}
use vkodex.OperationJournal.Tables.{update_rows}

pub data ReceiptState : Type 0 where
  accepted settled : ReceiptState

abbrev pub is_accepted : ReceiptState → Bool
is_accepted accepted = true
is_accepted settled = false

pub record ReceiptRow : Type 0 where
  pub operation_id : Text
  pub submission_id : Text
  pub state : ReceiptState
  pub last_checked_at : Option ℕ
  pub terminal_turn_id : Option Text

pub data ReceiptError : Type 0 where
  invalid_receipt no_authority corrupted_authority receipt_conflict invalid_terminal
        corrupted_receipt :
      ReceiptError

-- A text of 1 to 256 code units, `/[\u0000-\u001f\u007f]/u` not among them.
unfoldable pub valid_id : Text → Bool
valid_id s = not (is_empty s) && leb (length s) 256 && not (any (λ c. ltb c 32 || c == 127) s)

unfoldable pub find_receipt : List ReceiptRow → Text → Option ReceiptRow
find_receipt [] id = none
find_receipt (r ∷ rs) id = if r.operation_id === id then some r else find_receipt rs id

abbrev pub new_receipt : Text → Text → ReceiptRow
new_receipt id submission = record {
  operation_id = id;
  submission_id = submission;
  state = accepted;
  last_checked_at = none;
  terminal_turn_id = none;
}

unfoldable pub remember_found :
    List ReceiptRow → Text → Text → Option ReceiptRow → Result ReceiptError (List ReceiptRow)
remember_found rows id submission none = ok (rows ++ (new_receipt id submission ∷ []))
remember_found rows id submission (some known) =
    if known.submission_id === submission then ok rows else err receipt_conflict

-- The authority is there, is not, or is found corrupted.
unfoldable pub remember_managed_queue_receipt :
    List ReceiptRow → Result ReceiptError Bool → Text → Text → Result ReceiptError (List ReceiptRow)
remember_managed_queue_receipt rows authority id submission =
    throw_if (not (valid_id submission)) invalid_receipt >> authority >>= λ held.
    throw_if (not held) no_authority >> remember_found rows id submission (find_receipt rows id)

-- WHERE operation_id = ? AND state = 'accepted'
abbrev pub is_pending : Text → ReceiptRow → Bool
is_pending id r = r.operation_id === id && is_accepted r.state

unfoldable pub mark_managed_queue_receipt_checked : List ReceiptRow → Text → ℕ → List ReceiptRow
mark_managed_queue_receipt_checked rows id now =
    update_rows (is_pending id) (λ r. record r { last_checked_at = some now }) rows

abbrev pub finish : Text → ReceiptRow → ReceiptRow
finish turn_id r = record r { state = settled; terminal_turn_id = some turn_id }

unfoldable pub settle_managed_queue_receipt :
    List ReceiptRow → Text → Text → Text → Result ReceiptError (List ReceiptRow)
settle_managed_queue_receipt rows id submission turn_id =
    if not (valid_id turn_id)
    then err invalid_terminal
    else ok
        (update_rows (λ r. is_pending id r && r.submission_id === submission) (finish turn_id) rows)

abbrev pub bad_turn : ReceiptState → Option Text → Bool
bad_turn accepted turn = not (is_none turn)
bad_turn settled none = true
bad_turn settled (some turn) = not (valid_id turn)

unfoldable pub checked_receipt : Option ReceiptRow → Result ReceiptError (Option ReceiptRow)
checked_receipt none = ok none
checked_receipt (some r) =
    if not (valid_id r.submission_id) || bad_turn r.state r.terminal_turn_id
    then err corrupted_receipt
    else ok (some r)

unfoldable pub managed_queue_receipt :
    List ReceiptRow → Text → Result ReceiptError (Option ReceiptRow)
managed_queue_receipt rows id = checked_receipt (find_receipt rows id)

pub data ReceiptCall : Type 0 where
  remember : Result ReceiptError Bool → Text → Text → ReceiptCall
  check : Text → ℕ → ReceiptCall
  settle : Text → Text → Text → ReceiptCall

abbrev pub kept : List ReceiptRow → Result ReceiptError (List ReceiptRow) → List ReceiptRow
kept rows (ok rows') = rows'
kept rows (err e) = rows

unfoldable pub step : List ReceiptRow → ReceiptCall → List ReceiptRow
step rows (remember authority id submission) =
    kept rows (remember_managed_queue_receipt rows authority id submission)
step rows (check id now) = mark_managed_queue_receipt_checked rows id now
step rows (settle id submission turn_id) =
    kept rows (settle_managed_queue_receipt rows id submission turn_id)

unfoldable pub run : List ReceiptRow → List ReceiptCall → List ReceiptRow
run rows [] = rows
run rows (c ∷ cs) = run (step rows c) cs
