-- ===== src/StockQueue/Sound.antt =====
-- src/codex/native-stock-queue-journal.ts: the soundness of the tables under any writes.
use vkodex.Prelude.{
  ◌≤◌, ◌≡◌, refl, sym, subst, false, Option, none, some, List, [], ◌∷◌, arith, inl, inr,
}
use vkodex.Prelude.JsText.{Text}
use vkodex.Prelude.JsMap.{includes, has_duplicate, has_duplicate-snoc}
use vkodex.OperationJournal.Tables.{count_rows}
use vkodex.OperationJournal.Rows.{
  ids, ids-snoc, ids-update_rows, count_rows-snoc, count_rows-update_rows,
}
use vkodex.StockQueue.Tables.{
  Runtime, OpRow, TaskRow, Journal, find_op, select_unresolved, bump, next_seq,
}
use vkodex.StockQueue.Reserve.{new_op, insert_op, StockQueueIntent}
use vkodex.StockQueue.Run.{Write, step, run}
use vkodex.StockQueue.Effects.{is_unsettled, Begun, Effect, nothing, begun, rewritten, acknowledged}
use vkodex.StockQueue.Steps.{step-Effect}

-- What is acknowledged was published, and every publication has its own version of the task.
abbrev pub VersionsOk : Option TaskRow → Type 0
VersionsOk none = Unit
VersionsOk (some row) =
    (row.publication_acked_version ≤ row.publication_version)
    × (row.publication_version ≤ row.version)

abbrev pub op_id : OpRow → Text
op_id r = r.op_id

pub record IsSound (j : Journal) : Type 0 where
  pub one_unsettled : count_rows is_unsettled j.ops ≤ 1
  pub distinct : has_duplicate (ids op_id j.ops) ≡ false
  pub versions : VersionsOk j.task

settled-count_rows :
    (rows : List OpRow) → select_unresolved rows ≡ none → count_rows is_unsettled rows ≡ 0
unfolding select_unresolved count_rows
settled-count_rows [] e = refl
settled-count_rows (r ∷ rows) e = ground (arith, settled-count_rows rows)

find_op-includes :
    (rows : List OpRow) (id : Text) → find_op rows id ≡ none → includes (ids op_id rows) id ≡ false
unfolding find_op ids includes
find_op-includes [] id e = refl
find_op-includes (r ∷ rows) id e = ground (arith, find_op-includes rows id)

held_versions :
    (j : Journal) (row : TaskRow)
    → VersionsOk j.task
    → j.task ≡ some row
    → (row.publication_acked_version ≤ row.publication_version)
      × (row.publication_version ≤ row.version)
held_versions j row h held = subst VersionsOk held h

row_versions :
    (j : Journal) (i : StockQueueIntent) (row : TaskRow)
    → VersionsOk j.task
    → Begun j i row
    → (row.publication_acked_version ≤ row.publication_version)
      × (row.publication_version ≤ row.version)
row_versions j i row h b = elim b.known [
  | inl held ↦ held_versions j row h held
  | inr (version, published, acked) ↦
      (omega (arith, published, acked), omega (arith, version, published))
]

Effect-IsSound : (j : Journal) {j' : Journal} → Effect j j' → IsSound j → IsSound j'
unfolding insert_op bump
Effect-IsSound j nothing h = h
Effect-IsSound j (begun i row b) h =
    let r = new_op i (next_seq j.ops) in
    record {
      one_unsettled =
          ground (arith, count_rows-snoc is_unsettled j.ops r, settled-count_rows j.ops b.settled);
      distinct = rw (ids-snoc op_id j.ops r) (
          has_duplicate-snoc (ids op_id j.ops) i.op_id h.distinct
            (find_op-includes j.ops i.op_id b.fresh));
      versions =
          let (low, high) = row_versions j i row h.versions b in
          (omega (arith, low), omega (arith, high));
    }
Effect-IsSound j (rewritten task op test set evidence publication w) h = record {
  one_unsettled =
      omega (arith, h.one_unsettled, count_rows-update_rows is_unsettled test set j.ops w.settles);
  distinct = rw (ids-update_rows test set op_id j.ops w.keeps) h.distinct;
  versions =
      let (low, high) = held_versions j task h.versions w.held in
      (ground (arith, low), ground (arith, high));
}
Effect-IsSound j (acknowledged row held) h = record {
  one_unsettled = h.one_unsettled;
  distinct = h.distinct;
  versions =
      let (low, high) = held_versions j row h.versions held in (omega arith, omega (arith, high));
}

run-IsSound : (rt : Runtime) (ws : List Write) (j : Journal) → IsSound j → IsSound (run rt j ws)
unfolding run
run-IsSound rt [] j h = h
run-IsSound rt (w ∷ ws) j h =
    run-IsSound rt ws (step rt j w) (Effect-IsSound j (step-Effect rt j w) h)

-- Whatever writes follow on the empty tables of a task, refused ones included, at most one operation is reserved or
-- unknown, no operation ID is repeated, the acknowledged publication is not ahead of the published one, and
-- that is not ahead of the task's version.
pub stock_queue_sound :
    (rt : Runtime) (ws : List Write) (j : Journal)
    → j.ops ≡ []
    → j.task ≡ none
    → (count_rows is_unsettled (run rt j ws).ops ≤ 1)
      × (has_duplicate (ids op_id (run rt j ws).ops) ≡ false)
      × VersionsOk (run rt j ws).task
unfolding count_rows ids has_duplicate
stock_queue_sound rt ws j none_op none_task =
    let start : IsSound j = record {
      one_unsettled = rw none_op (omega arith);
      distinct = rw none_op refl;
      versions = subst VersionsOk (sym none_task) tt;
    } in
    let h = run-IsSound rt ws j start in (h.one_unsettled, h.distinct, h.versions)
