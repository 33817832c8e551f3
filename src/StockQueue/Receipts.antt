-- ===== src/StockQueue/Receipts.antt =====
-- src/codex/native-stock-queue-journal.ts: the effect of `markAccepted` and `reconcilePositive`.
use vkodex.Prelude.{
  ℕ, ◌≡◌, refl, Bool, true, false, ◌&&◌, none, some, [], ◌∷◌, arith, is_none, inl, inr, ok,
  Bool-cases, Option-cases, Result-cases,
}
use vkodex.Prelude.JsText.{Text, ===_iff}
use vkodex.StockQueue.Tables.{
  Runtime, reserved, accepted, same_phase, OpRow, TaskRow, Journal, PositiveProof, find_op,
  task_row, StockQueueOperation, positive, phase_conflict, late_receipt_conflict,
}
use vkodex.StockQueue.Reserve.{identify, in_phase}
use vkodex.StockQueue.Outcomes.{
  LateProof, set_stock, set_accepted, lacks_stock, fill_late_stock, late_evidence, accept_again,
  mark_accepted, reconcilable, set_reconciled, reconcile_found, reconcile_positive,
}
use vkodex.StockQueue.Effects.{Effect, task_row-ok, Identified, find_op-Identified, identify-ok}
use vkodex.StockQueue.Writes.{rewrites, settle_op-Effect, in_phase-names, read_back-Effect, own_id}

lacks_stock-names : (id : Text) (r : OpRow) → lacks_stock id r ≡ true → r.op_id ≡ id
lacks_stock-names id r t = ground (arith, ===_iff r.op_id id)

fill_late_stock-Effect :
    (rt : Runtime) (j : Journal) (task : TaskRow) (op : OpRow) (stock_id : Text) (late : LateProof)
    {j' : Journal} {a : StockQueueOperation}
    → Identified j op.op_id task op
    → op.not_written ≡ none
    → fill_late_stock rt j task op stock_id late ≡ ok (j', a)
    → Effect j j'
unfolding fill_late_stock
fill_late_stock-Effect rt j task op stock_id late {j'} {a} h open_op e =
    settle_op-Effect j op.op_id task op h (lacks_stock op.op_id) (set_stock stock_id)
      (late_evidence rt j op stock_id late.input ∷ []) false late_receipt_conflict {a = a}
      (rewrites j op.op_id task op h (lacks_stock op.op_id) (set_stock stock_id) open_op
        (lacks_stock-names op.op_id) (λ r. refl) (λ r t u. u))
      (ground arith)

accept_again-Effect :
    (rt : Runtime) (j : Journal) (task : TaskRow) (op : OpRow) (stock_id : Text) (late : LateProof)
    {j' : Journal} {a : StockQueueOperation}
    → Identified j op.op_id task op
    → op.not_written ≡ none
    → accept_again rt j task op stock_id late ≡ ok (j', a)
    → Effect j j'
unfolding accept_again
accept_again-Effect rt j task op stock_id late {j'} {a} h open_op e =
    elim (Bool-cases (is_none op.stock_id && op.consumed)) [
      | inl filling ↦
          fill_late_stock-Effect rt j task op stock_id late {a = a} h open_op (ground arith)
      | inr kept ↦ read_back-Effect j op.op_id {a = a} (ground arith)
    ]

pub mark_accepted-Effect :
    (rt : Runtime) (j : Journal) (id fingerprint stock_id : Text) (late : LateProof) {j' : Journal}
    {a : StockQueueOperation}
    → mark_accepted rt j id fingerprint stock_id late ≡ ok (j', a)
    → Effect j j'
unfolding mark_accepted
mark_accepted-Effect rt j id fingerprint stock_id late {j'} {a} e =
    elim (Result-cases (identify j id fingerprint)) [
      | inr (x, failed) ↦ absurd (ground arith)
      | inl ((task, op), found) ↦
          let h = identify-ok j id fingerprint found in
          let open_op : op.not_written ≡ none = ground arith in
          elim (Bool-cases (same_phase op.phase accepted)) [
            | inl again ↦
                accept_again-Effect rt j task op stock_id late {a = a} (own_id j id task op h)
                  open_op (ground arith)
            | inr first ↦
                settle_op-Effect j id task op h (in_phase id reserved) (set_accepted stock_id) []
                  true phase_conflict {a = a}
                  (rewrites j id task op h (in_phase id reserved) (set_accepted stock_id) open_op
                    (in_phase-names j id task op h reserved) (λ r. refl) (λ r t u. ground arith))
                  (ground arith)
          ]
    ]

reconcilable-names : (id : Text) (r : OpRow) → reconcilable id r ≡ true → r.op_id ≡ id
reconcilable-names id r t = ground (arith, ===_iff r.op_id id)

reconcile_found-Effect :
    (rt : Runtime) (j : Journal) (version : ℕ) (p : PositiveProof) (task : TaskRow) (op : OpRow)
    {j' : Journal} {a : StockQueueOperation}
    → Identified j op.op_id task op
    → reconcile_found rt j version p task op ≡ ok (j', a)
    → Effect j j'
unfolding reconcile_found
reconcile_found-Effect rt j version p task op {j'} {a} h e =
    elim (Bool-cases (same_phase op.phase accepted)) [
      | inl again ↦ read_back-Effect j op.op_id {a = a} (ground arith)
      | inr first ↦
          settle_op-Effect j op.op_id task op h (reconcilable op.op_id) (set_reconciled p.kind op)
            ((record { op_id = op.op_id; evidence = positive p }) ∷ []) true phase_conflict {a = a}
            (rewrites j op.op_id task op h (reconcilable op.op_id) (set_reconciled p.kind op)
              (ground arith) (reconcilable-names op.op_id) (λ r. refl) (λ r t u. ground arith))
            (ground arith)
    ]

pub reconcile_positive-Effect :
    (rt : Runtime) (j : Journal) (version : ℕ) (p : PositiveProof) (source_current : Bool)
    {j' : Journal} {a : StockQueueOperation}
    → reconcile_positive rt j version p source_current ≡ ok (j', a)
    → Effect j j'
unfolding reconcile_positive
reconcile_positive-Effect rt j version p source_current {j'} {a} e =
    elim (Result-cases (task_row j)) [
      | inr (x, failed) ↦ absurd (ground arith)
      | inl (none, held) ↦ absurd (ground arith)
      | inl (some row, held) ↦ elim (Option-cases (find_op j.ops p.client_user_message_id)) [
        | inl gone ↦ absurd (ground arith)
        | inr (op, found) ↦
            reconcile_found-Effect rt j version p row op {a = a}
              (own_id j p.client_user_message_id row op
                (find_op-Identified j p.client_user_message_id row op (task_row-ok j held) found))
              (ground arith)
      ]
    ]
