-- ===== src/StockQueue/Effects.antt =====
-- src/codex/native-stock-queue-journal.ts: what a write leaves in the tables, where it returns.
use vkodex.Prelude.{
  ◌+◌, ◌≡◌, sym, subst, ◌∙◌, Bool, true, not, Option, none, some, List, [], ◌∷◌, ◌++◌, arith, ◌⊎◌,
  inl, inr, ok, Option-cases, Result-cases,
}
use vkodex.Prelude.JsText.{Text, ===_iff}
use vkodex.OperationJournal.Tables.{update_rows}
use vkodex.StockQueue.Tables.{
  accepted, same_phase, OpRow, TaskRow, EvidenceRow, Journal, StockError, find_op,
  select_unresolved, task_row, read_operation, StockQueueOperation, read_back, bump,
}
use vkodex.StockQueue.Reserve.{identify, write_op, insert_op, StockQueueIntent}
use vkodex.StockQueue.Outcomes.{settle_op}

abbrev pub is_unsettled : OpRow → Bool
is_unsettled r = not (same_phase r.phase accepted)

-- An update of the operation `op`, which a call found with no evidence that it was not written.
pub record Rewritten (j : Journal) (task : TaskRow) (op : OpRow) (test : OpRow → Bool)
    (set : OpRow → OpRow) : Type 0 where
  pub held : j.task ≡ some task
  pub found : find_op j.ops op.op_id ≡ some op
  pub open_op : op.not_written ≡ none
  pub names : (r : OpRow) → test r ≡ true → r.op_id ≡ op.op_id
  pub keeps : (r : OpRow) → (set r).op_id ≡ r.op_id
  pub settles : (r : OpRow) → test r ≡ true → is_unsettled (set r) ≡ true → is_unsettled r ≡ true

-- The versions of the row that a reservation finds or inserts.
pub record Begun (j : Journal) (i : StockQueueIntent) (row : TaskRow) : Type 0 where
  pub fresh : find_op j.ops i.op_id ≡ none
  pub settled : select_unresolved j.ops ≡ none
  pub known :
      (j.task ≡ some row)
      ⊎ ((row.version ≡ 0) × (row.publication_version ≡ 0) × (row.publication_acked_version ≡ 0))

pub data Effect (j : Journal) : Journal → Type 0 where
  nothing : Effect j j
  begun : (i : StockQueueIntent) (row : TaskRow) → Begun j i row → Effect j (insert_op j i row)
  rewritten :
      (task : TaskRow) (op : OpRow) (test : OpRow → Bool) (set : OpRow → OpRow)
      (evidence : List EvidenceRow) (publication : Bool)
      → Rewritten j task op test set
      → Effect j (
          bump
            (record j { ops = update_rows test set j.ops; evidence = evidence })
            task
            publication)
  acknowledged :
      (row : TaskRow)
      → j.task ≡ some row
      → Effect j (record j {
        task = some (record row {
          publication_acked_version = row.publication_version;
          version = row.version + 1;
        });
      })

pub task_row-ok : (j : Journal) {o : Option TaskRow} → task_row j ≡ ok o → j.task ≡ o
unfolding task_row
task_row-ok j {o} e = elim (Option-cases j.task) [
  | inl gone ↦ let e' = rw gone at e in gone ∙ ground arith
  | inr (row, there) ↦ let e' = rw there at e in there ∙ ground arith
]

pub read_back-ok :
    (j : Journal) (id : Text) {j' : Journal} {a : StockQueueOperation}
    → read_back j id ≡ ok (j', a)
    → j ≡ j'
unfolding read_back
read_back-ok j id e = elim (Result-cases (read_operation j id)) [
  | inr (x, failed) ↦ let e' = rw failed at e in cc
  | inl (none, found) ↦ let e' = rw found at e in cc
  | inl (some v, found) ↦ let e' = rw found at e in ground arith
]

pub write_op-ok :
    (j : Journal) (task : TaskRow) (id : Text) (test : OpRow → Bool) (set : OpRow → OpRow)
    (publication : Bool) {j' : Journal} {a : StockQueueOperation}
    → write_op j task id test set publication ≡ ok (j', a)
    → bump (record j { ops = update_rows test set j.ops }) task publication ≡ j'
unfolding write_op
write_op-ok j task id test set publication {j'} {a} e =
    read_back-ok (bump (record j { ops = update_rows test set j.ops }) task publication) id
      {j' = j'} {a = a} (ground arith)

pub settle_op-ok :
    (j : Journal) (task : TaskRow) (id : Text) (test : OpRow → Bool) (set : OpRow → OpRow)
    (evidence : List EvidenceRow) (publication : Bool) (conflict : StockError) {j' : Journal}
    {a : StockQueueOperation}
    → settle_op j task id test set evidence publication conflict ≡ ok (j', a)
    → bump
        (record j { ops = update_rows test set j.ops; evidence = j.evidence ++ evidence })
        task
        publication
      ≡ j'
unfolding settle_op
settle_op-ok j task id test set evidence publication conflict {j'} {a} e =
    read_back-ok
      (bump (record j { ops = update_rows test set j.ops; evidence = j.evidence ++ evidence }) task
        publication)
      id {j' = j'} {a = a} (ground arith)

pub find_op-id :
    (rows : List OpRow) (id : Text) {op : OpRow} → find_op rows id ≡ some op → op.op_id ≡ id
unfolding find_op
find_op-id [] id e = cc
find_op-id (r ∷ rows) id {op} e = ground (arith, ===_iff r.op_id id, find_op-id rows id {op = op})

-- What `identify` answers.
pub record Identified (j : Journal) (id : Text) (task : TaskRow) (op : OpRow) : Type 0 where
  pub held : j.task ≡ some task
  pub named : op.op_id ≡ id
  pub found : find_op j.ops op.op_id ≡ some op

pub find_op-Identified :
    (j : Journal) (id : Text) (task : TaskRow) (op : OpRow)
    → j.task ≡ some task
    → find_op j.ops id ≡ some op
    → Identified j id task op
find_op-Identified j id task op held found =
    let same = find_op-id j.ops id found in
    record {
      held = held;
      named = same;
      found = subst (λ i. find_op j.ops i ≡ some op) (sym same) found;
    }

pub identify-ok :
    (j : Journal) (id fingerprint : Text) {task : TaskRow} {op : OpRow}
    → identify j id fingerprint ≡ ok (task, op)
    → Identified j id task op
unfolding identify
identify-ok j id fingerprint {task} {op} e = elim (Result-cases (task_row j)) [
  | inr (x, failed) ↦ let e' = rw failed at e in cc
  | inl (none, held) ↦ let e' = rw held at e in cc
  | inl (some row, held) ↦ elim (Option-cases (find_op j.ops id)) [
    | inl gone ↦ absurd (ground arith)
    | inr (r, found) ↦
        find_op-Identified j id task op (task_row-ok j held ∙ ground arith) (found ∙ ground arith)
  ]
]
