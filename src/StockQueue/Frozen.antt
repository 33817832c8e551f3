-- ===== src/StockQueue/Frozen.antt =====
-- src/codex/native-stock-queue-journal.ts: an operation with the evidence that it was never written.
use vkodex.Prelude.{
  ◌≡◌, sym, subst, ◌∙◌, Bool, false, none, some, List, [], ◌∷◌, ◌++◌, arith, if◌then◌else◌, inl,
  inr, Bool-cases,
}
use vkodex.Prelude.JsText.{Text}
use vkodex.OperationJournal.Tables.{update_rows}
use vkodex.StockQueue.Tables.{
  Runtime, NotWrittenEvidence, OpRow, TaskRow, Journal, find_op, bump, next_seq,
}
use vkodex.StockQueue.Reserve.{new_op, insert_op}
use vkodex.StockQueue.Run.{Write, step, run}
use vkodex.StockQueue.Effects.{
  Effect, nothing, begun, rewritten, acknowledged, Rewritten, find_op-id,
}
use vkodex.StockQueue.Steps.{step-Effect}

find_op-snoc :
    (rows : List OpRow) (x : OpRow) (id : Text) {r : OpRow}
    → find_op rows id ≡ some r
    → find_op (rows ++ (x ∷ [])) id ≡ some r
unfolding find_op
find_op-snoc [] x id e = cc
find_op-snoc (y ∷ rows) x id {r} e = ground (arith, find_op-snoc rows x id {r = r})

find_op-update_rows :
    (test : OpRow → Bool) (set : OpRow → OpRow) (rows : List OpRow) (id : Text) {r : OpRow}
    → ((x : OpRow) → (set x).op_id ≡ x.op_id)
    → find_op rows id ≡ some r
    → find_op (update_rows test set rows) id ≡ some (if test r then set r else r)
unfolding find_op update_rows
find_op-update_rows test set [] id keeps e = cc
find_op-update_rows test set (x ∷ rows) id {r} keeps e =
    ground (arith, keeps x, find_op-update_rows test set rows id {r = r} keeps)

module _ (id : Text) (r : OpRow) (proof : NotWrittenEvidence)
    (proven : r.not_written ≡ some proof) where
  -- A write finds another operation.
  missed :
      (j : Journal) (task : TaskRow) (op : OpRow) (test : OpRow → Bool) (set : OpRow → OpRow)
      → find_op j.ops id ≡ some r
      → Rewritten j task op test set
      → test r ≡ false
  missed j task op test set e w = elim (Bool-cases (test r)) [
    | inr miss ↦ miss
    | inl hit ↦
        let same : op.op_id ≡ id = sym (w.names r hit) ∙ find_op-id j.ops id e in
        let found = subst (λ i. find_op j.ops i ≡ some op) same w.found in
        let this : op ≡ r = ground arith in
        let open_row = subst (λ (x : OpRow). x.not_written ≡ none) this w.open_op in cc
  ]

  Effect-frozen :
      (j : Journal) {j' : Journal}
      → Effect j j'
      → find_op j.ops id ≡ some r
      → find_op j'.ops id ≡ some r
  unfolding insert_op bump
  Effect-frozen j nothing e = e
  Effect-frozen j (begun i row b) e = find_op-snoc j.ops (new_op i (next_seq j.ops)) id e
  Effect-frozen j (rewritten task op test set evidence publication w) e =
      rw (missed j task op test set e w) at (find_op-update_rows test set j.ops id w.keeps e)
  Effect-frozen j (acknowledged row held) e = e

-- An operation with the evidence that it was never written keeps its row for good, whatever writes follow:
-- it is neither accepted nor consumed nor forgotten.
pub not_written_frozen :
    (rt : Runtime) (ws : List Write) (j : Journal) (id : Text) (r : OpRow)
    (proof : NotWrittenEvidence)
    → find_op j.ops id ≡ some r
    → r.not_written ≡ some proof
    → find_op (run rt j ws).ops id ≡ some r
unfolding run
not_written_frozen rt [] j id r proof e proven = e
not_written_frozen rt (w ∷ ws) j id r proof e proven =
    not_written_frozen rt ws (step rt j w) id r proof
      (Effect-frozen id r proof proven j (step-Effect rt j w) e) proven
