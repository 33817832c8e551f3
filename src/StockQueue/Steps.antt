-- ===== src/StockQueue/Steps.antt =====
-- src/codex/native-stock-queue-journal.ts: the effect of `acknowledgePublication` and `reserve`, and of any write.
use vkodex.Prelude.{
  ap, ℕ, ◌≡◌, refl, subst, ◌∙◌, Bool, not, ◌||◌, Option, none, some, List, [], ◌∷◌, arith, ◌==◌,
  inl, inr, ok, Bool-cases, Result-cases, leb,
}
use vkodex.StockQueue.Tables.{
  Runtime, Phase, reserved, accepted, unknown, OpRow, TaskRow, Journal, find_op, select_unresolved,
  task_row, StockQueueOperation, read_back,
}
use vkodex.StockQueue.Reserve.{
  mark_unknown, mark_not_written, consume, acknowledge_found, acknowledge_publication, acked,
  StockQueueIntent, insert_op, reserve, ensure_task, check_unresolved,
}
use vkodex.StockQueue.Outcomes.{mark_accepted, reconcile_positive}
use vkodex.StockQueue.Run.{
  Write, reserve_write, accept_write, reconcile_write, unknown_write, not_written_write,
  consume_write, acknowledge_write, step,
}
use vkodex.StockQueue.Effects.{Effect, nothing, begun, acknowledged, task_row-ok, read_back-ok}
use vkodex.StockQueue.Writes.{mark_unknown-Effect, mark_not_written-Effect, consume-Effect}
use vkodex.StockQueue.Receipts.{mark_accepted-Effect, reconcile_positive-Effect}

acknowledge_found-Effect :
    (j : Journal) (version : ℕ) (o : Option TaskRow)
    → j.task ≡ o
    → Effect j (acknowledge_found j version o).0
unfolding acknowledge_found acked
acknowledge_found-Effect j version none held = nothing
acknowledge_found-Effect j version (some row) held =
    elim (Bool-cases
      (not (version == row.publication_version) || leb version row.publication_acked_version)) [
        | inl stale ↦ rw stale nothing
        | inr current ↦
            let same : version ≡ row.publication_version = ground arith in
            rw current (rw same (acknowledged row held))
      ]

acknowledge_publication-Effect :
    (j : Journal) (version : ℕ) {j' : Journal} {b : Bool} {n : ℕ}
    → acknowledge_publication j version ≡ ok (j', b, n)
    → Effect j j'
unfolding acknowledge_publication
acknowledge_publication-Effect j version {j'} {b} {n} e = elim (Result-cases (task_row j)) [
  | inr (x, failed) ↦ absurd (ground arith)
  | inl (o, held) ↦
      let same : acknowledge_found j version o ≡ (j', b, n) = ground arith in
      subst (Effect j) (ap (λ (x : Journal × Bool × ℕ). x.0) same)
        (acknowledge_found-Effect j version o (task_row-ok j held))
]

unresolved_open : (rows : List OpRow) → ¬ (select_unresolved rows ≡ some accepted)
unfolding select_unresolved
unresolved_open [] e = cc
unresolved_open (r ∷ rows) e = ground (arith, unresolved_open rows)

-- A check of the open phase that passes found none.
nothing_open :
    (rows : List OpRow) (o : Option Phase)
    → select_unresolved rows ≡ o
    → check_unresolved o ≡ ok tt
    → o ≡ none
nothing_open rows none e h = refl
nothing_open rows (some reserved) e h = cc
nothing_open rows (some unknown) e h = cc
nothing_open rows (some accepted) e h = absurd (unresolved_open rows e)

inserted-Effect :
    (j : Journal) (i : StockQueueIntent) (o : Option TaskRow) (row : TaskRow) {j' : Journal}
    {a : StockQueueOperation}
    → j.task ≡ o
    → ensure_task j i.effective_settings o ≡ ok row
    → find_op j.ops i.op_id ≡ none
    → check_unresolved (select_unresolved j.ops) ≡ ok tt
    → read_back (insert_op j i row) i.op_id ≡ ok (j', a)
    → Effect j j'
inserted-Effect j i none row {j'} {a} held ensured fresh check e =
    subst (Effect j) (read_back-ok (insert_op j i row) i.op_id {j' = j'} {a = a} e) (
      begun i row (record {
        fresh = fresh;
        settled = nothing_open j.ops (select_unresolved j.ops) refl check;
        known = inr (ground arith, ground arith, ground arith);
      }))
inserted-Effect j i (some known) row {j'} {a} held ensured fresh check e =
    subst (Effect j) (read_back-ok (insert_op j i row) i.op_id {j' = j'} {a = a} e) (
      begun i row (record {
        fresh = fresh;
        settled = nothing_open j.ops (select_unresolved j.ops) refl check;
        known = inl (held ∙ ground arith);
      }))

reserve-Effect :
    (rt : Runtime) (j : Journal) (i : StockQueueIntent) {j' : Journal} {a : StockQueueOperation}
    → reserve rt j i ≡ ok (j', a)
    → Effect j j'
unfolding reserve
reserve-Effect rt j i {j'} {a} e = elim (Result-cases (task_row j)) [
  | inr (x, failed) ↦ absurd (ground arith)
  | inl (o, held) ↦ elim (Result-cases (ensure_task j i.effective_settings o)) [
    | inr (x, failed) ↦ absurd (ground arith)
    | inl (row, ensured) ↦
        inserted-Effect j i o row {a = a} (task_row-ok j held) ensured (ground arith) (ground arith)
          (ground arith)
  ]
]

-- Each write that returns has one of the effects, and one that throws has none.
pub step-Effect : (rt : Runtime) (j : Journal) (w : Write) → Effect j (step rt j w)
unfolding step
step-Effect rt j (reserve_write i) = elim (Result-cases (reserve rt j i)) [
  | inl ((j', a), e) ↦ rw e (reserve-Effect rt j i e)
  | inr (x, e) ↦ rw e nothing
]
step-Effect rt j (accept_write id f s l) = elim (Result-cases (mark_accepted rt j id f s l)) [
  | inl ((j', a), e) ↦ rw e (mark_accepted-Effect rt j id f s l e)
  | inr (x, e) ↦ rw e nothing
]
step-Effect rt j (reconcile_write v p c) = elim (Result-cases (reconcile_positive rt j v p c)) [
  | inl ((j', a), e) ↦ rw e (reconcile_positive-Effect rt j v p c e)
  | inr (x, e) ↦ rw e nothing
]
step-Effect rt j (unknown_write id f) = elim (Result-cases (mark_unknown j id f)) [
  | inl ((j', a), e) ↦ rw e (mark_unknown-Effect j id f e)
  | inr (x, e) ↦ rw e nothing
]
step-Effect rt j (not_written_write v id f p) = elim (Result-cases (mark_not_written j v id f p)) [
  | inl ((j', a), e) ↦ rw e (mark_not_written-Effect j v id f p e)
  | inr (x, e) ↦ rw e nothing
]
step-Effect rt j (consume_write id f t b) = elim (Result-cases (consume j id f t b)) [
  | inl ((j', a), e) ↦ rw e (consume-Effect j id f t b e)
  | inr (x, e) ↦ rw e nothing
]
step-Effect rt j (acknowledge_write v) = elim (Result-cases (acknowledge_publication j v)) [
  | inl ((j', b, n), e) ↦ rw e (acknowledge_publication-Effect j v e)
  | inr (x, e) ↦ rw e nothing
]
