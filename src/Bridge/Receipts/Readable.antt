-- ===== src/Bridge/Receipts/Readable.antt =====
-- src/bridge/store.ts: the receipts that any calls leave.
use vkodex.Prelude.{
  ◌≡◌, refl, Bool, true, false, not, ◌&&◌, ◌||◌, Option, none, some, List, [], ◌∷◌, ◌++◌, arith,
  Bool-cases, Result-cases, inl, inr, ok, All, All-append,
}
use vkodex.Prelude.JsText.{Text, ◌===◌}
use vkodex.OperationJournal.Tables.{update_rows}
use vkodex.OperationJournal.Rows.{All-update_rows}
use vkodex.Bridge.Receipts.{
  is_accepted, ReceiptRow, valid_id, find_receipt, new_receipt, remember_found,
  remember_managed_queue_receipt, is_pending, mark_managed_queue_receipt_checked, finish,
  settle_managed_queue_receipt, bad_turn, checked_receipt, managed_queue_receipt, ReceiptCall,
  remember, check, settle, kept, step, run,
}

abbrev IsReadable : ReceiptRow → Type 0
IsReadable r = (not (valid_id r.submission_id) || bad_turn r.state r.terminal_turn_id) ≡ false

remember_found-IsReadable :
    (rows : List ReceiptRow) (id submission : Text) (o : Option ReceiptRow)
    → valid_id submission ≡ true
    → All IsReadable rows
    → All IsReadable (kept rows (remember_found rows id submission o))
unfolding remember_found
remember_found-IsReadable rows id submission none valid h =
    All-append IsReadable rows (new_receipt id submission ∷ []) h (rw valid refl, tt)
remember_found-IsReadable rows id submission (some known) valid h =
    elim (Bool-cases (known.submission_id === submission)) [
      | inl same ↦ rw same h
      | inr other ↦ rw other h
    ]

step-IsReadable :
    (rows : List ReceiptRow) (c : ReceiptCall) → All IsReadable rows → All IsReadable (step rows c)
unfolding step remember_managed_queue_receipt mark_managed_queue_receipt_checked
    settle_managed_queue_receipt
step-IsReadable rows (remember authority id submission) h =
    elim (Bool-cases (valid_id submission)) [
      | inr bad ↦ rw bad h
      | inl valid ↦ rw valid elim (Result-cases authority) [
        | inr (x, failed) ↦ rw failed h
        | inl (true, held) ↦
            rw held (remember_found-IsReadable rows id submission (find_receipt rows id) valid h)
        | inl (false, gone) ↦ rw gone h
      ]
    ]
step-IsReadable rows (check id now) h =
    All-update_rows (is_pending id) (λ r. record r { last_checked_at = some now }) IsReadable rows
      (λ r t p. p) h
step-IsReadable rows (settle id submission turn_id) h = elim (Bool-cases (valid_id turn_id)) [
  | inr bad ↦ rw bad h
  | inl valid ↦ rw valid (
      All-update_rows (λ r. is_pending id r && r.submission_id === submission) (finish turn_id)
        IsReadable rows (λ r t p. ground arith) h)
]

run-IsReadable :
    (cs : List ReceiptCall) (rows : List ReceiptRow)
    → All IsReadable rows
    → All IsReadable (run rows cs)
unfolding run
run-IsReadable [] rows h = h
run-IsReadable (c ∷ cs) rows h = run-IsReadable cs (step rows c) (step-IsReadable rows c h)

All-find_receipt :
    (rows : List ReceiptRow) (id : Text)
    → All IsReadable rows
    → checked_receipt (find_receipt rows id) ≡ ok (find_receipt rows id)
unfolding find_receipt checked_receipt
All-find_receipt [] id h = refl
All-find_receipt (r ∷ rows) id h = elim (Bool-cases (r.operation_id === id)) [
  | inl same ↦ rw same (rw h.0 refl)
  | inr other ↦ rw other (All-find_receipt rows id h.1)
]

find_receipt-snoc :
    (rows : List ReceiptRow) (x : ReceiptRow) (id : Text) {r : ReceiptRow}
    → find_receipt rows id ≡ some r
    → find_receipt (rows ++ (x ∷ [])) id ≡ some r
unfolding find_receipt
find_receipt-snoc [] x id e = cc
find_receipt-snoc (y ∷ rows) x id {r} e = ground (arith, find_receipt-snoc rows x id {r = r})

find_receipt-update_rows :
    (test : ReceiptRow → Bool) (set : ReceiptRow → ReceiptRow) (rows : List ReceiptRow) (id : Text)
    {r : ReceiptRow}
    → ((x : ReceiptRow) → (set x).operation_id ≡ x.operation_id)
    → ((x : ReceiptRow) → test x ≡ true → is_accepted x.state ≡ true)
    → is_accepted r.state ≡ false
    → find_receipt rows id ≡ some r
    → find_receipt (update_rows test set rows) id ≡ some r
unfolding find_receipt update_rows
find_receipt-update_rows test set [] id keeps open_only done e = cc
find_receipt-update_rows test set (x ∷ rows) id {r} keeps open_only done e = ground (
  arith,
  keeps x,
  open_only x,
  find_receipt-update_rows test set rows id {r = r} keeps open_only done,
)

remember_found-settled :
    (rows : List ReceiptRow) (k submission : Text) (o : Option ReceiptRow) (id : Text)
    (r : ReceiptRow)
    → find_receipt rows id ≡ some r
    → find_receipt (kept rows (remember_found rows k submission o)) id ≡ some r
unfolding remember_found
remember_found-settled rows k submission none id r e =
    find_receipt-snoc rows (new_receipt k submission) id e
remember_found-settled rows k submission (some known) id r e =
    elim (Bool-cases (known.submission_id === submission)) [
      | inl same ↦ rw same e
      | inr other ↦ rw other e
    ]

-- A settled receipt is found again as it is.
step-settled :
    (rows : List ReceiptRow) (c : ReceiptCall) (id : Text) (r : ReceiptRow)
    → is_accepted r.state ≡ false
    → find_receipt rows id ≡ some r
    → find_receipt (step rows c) id ≡ some r
unfolding step remember_managed_queue_receipt mark_managed_queue_receipt_checked
    settle_managed_queue_receipt
step-settled rows (remember authority k submission) id r done e =
    elim (Bool-cases (valid_id submission)) [
      | inr bad ↦ rw bad e
      | inl valid ↦ rw valid elim (Result-cases authority) [
        | inr (x, failed) ↦ rw failed e
        | inl (true, held) ↦
            rw held (remember_found-settled rows k submission (find_receipt rows k) id r e)
        | inl (false, gone) ↦ rw gone e
      ]
    ]
step-settled rows (check k now) id r done e =
    find_receipt-update_rows (is_pending k) (λ x. record x { last_checked_at = some now }) rows id
      (λ x. refl) (λ x t. ground arith) done e
step-settled rows (settle k submission turn_id) id r done e = elim (Bool-cases (valid_id turn_id)) [
  | inr bad ↦ rw bad e
  | inl valid ↦ rw valid (
      find_receipt-update_rows (λ x. is_pending k x && x.submission_id === submission)
        (finish turn_id) rows id (λ x. refl) (λ x t. ground arith) done e)
]

-- After any calls on an empty table, a receipt is read without finding it corrupted.
pub managed_queue_receipt_total :
    (cs : List ReceiptCall) (id : Text)
    → managed_queue_receipt (run [] cs) id ≡ ok (find_receipt (run [] cs) id)
unfolding managed_queue_receipt
managed_queue_receipt_total cs id = All-find_receipt (run [] cs) id (run-IsReadable cs [] tt)

-- A settled receipt keeps its row, with its submission and its turn, under any further calls.
pub settled_receipt_final :
    (cs : List ReceiptCall) (rows : List ReceiptRow) (id : Text) (r : ReceiptRow)
    → is_accepted r.state ≡ false
    → find_receipt rows id ≡ some r
    → find_receipt (run rows cs) id ≡ some r
unfolding run
settled_receipt_final [] rows id r done e = e
settled_receipt_final (c ∷ cs) rows id r done e =
    settled_receipt_final cs (step rows c) id r done (step-settled rows c id r done e)
