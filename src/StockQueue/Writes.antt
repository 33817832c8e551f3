-- ===== src/StockQueue/Writes.antt =====
-- src/codex/native-stock-queue-journal.ts: the effect of `markUnknown`, `markNotWritten` and `consume`.
use vkodex.Prelude.{
  ℕ, ◌≡◌, refl, sym, subst, ◌∙◌, Bool, true, false, Option, none, some, List, ◌++◌, arith, inl, inr,
  ok, Bool-cases, Result-cases,
}
use vkodex.Prelude.JsText.{Text, ◌===◌, ===_iff}
use vkodex.StockQueue.Tables.{
  Phase, reserved, accepted, unknown, same_phase, NotWrittenEvidence, OpRow, TaskRow, EvidenceRow,
  Journal, StockError, StockQueueOperation, read_back,
}
use vkodex.StockQueue.Reserve.{
  identify, write_op, in_phase, set_unknown, mark_unknown, set_not_written, mark_not_written,
  unconsumed_op, set_consumed, consume_found, consume,
}
use vkodex.StockQueue.Outcomes.{settle_op}
use vkodex.StockQueue.Effects.{
  is_unsettled, Rewritten, Effect, nothing, rewritten, read_back-ok, write_op-ok, settle_op-ok,
  Identified, identify-ok,
}

-- An update by `write_op`, and by `settle_op`.
module _ (j : Journal) (id : Text) (task : TaskRow) (op : OpRow) (h : Identified j id task op) where
  pub rewrites :
      (test : OpRow → Bool) (set : OpRow → OpRow)
      → op.not_written ≡ none
      → ((r : OpRow) → test r ≡ true → r.op_id ≡ id)
      → ((r : OpRow) → (set r).op_id ≡ r.op_id)
      → ((r : OpRow) → test r ≡ true → is_unsettled (set r) ≡ true → is_unsettled r ≡ true)
      → Rewritten j task op test set
  rewrites test set open_op names keeps settles = record {
    held = h.held;
    found = h.found;
    open_op = open_op;
    names = λ r t. names r t ∙ sym h.named;
    keeps = keeps;
    settles = settles;
  }

  pub write_op-Effect :
      (test : OpRow → Bool) (set : OpRow → OpRow) (publication : Bool) {j' : Journal}
      {a : StockQueueOperation}
      → Rewritten j task op test set
      → write_op j task id test set publication ≡ ok (j', a)
      → Effect j j'
  write_op-Effect test set publication r e =
      subst (Effect j) (write_op-ok j task id test set publication e)
        (rewritten task op test set j.evidence publication r)

  pub settle_op-Effect :
      (test : OpRow → Bool) (set : OpRow → OpRow) (evidence : List EvidenceRow) (publication : Bool)
      (conflict : StockError) {j' : Journal} {a : StockQueueOperation}
      → Rewritten j task op test set
      → settle_op j task id test set evidence publication conflict ≡ ok (j', a)
      → Effect j j'
  settle_op-Effect test set evidence publication conflict r e =
      subst (Effect j) (settle_op-ok j task id test set evidence publication conflict e)
        (rewritten task op test set (j.evidence ++ evidence) publication r)

  pub in_phase-names : (phase : Phase) (r : OpRow) → in_phase id phase r ≡ true → r.op_id ≡ id
  in_phase-names phase r t = ground (arith, ===_iff r.op_id id)

pub read_back-Effect :
    (j : Journal) (id : Text) {j' : Journal} {a : StockQueueOperation}
    → read_back j id ≡ ok (j', a)
    → Effect j j'
read_back-Effect j id {j'} {a} e = subst (Effect j) (read_back-ok j id {j' = j'} {a = a} e) nothing

pub mark_unknown-Effect :
    (j : Journal) (id fingerprint : Text) {j' : Journal} {a : StockQueueOperation}
    → mark_unknown j id fingerprint ≡ ok (j', a)
    → Effect j j'
unfolding mark_unknown
mark_unknown-Effect j id fingerprint {j'} {a} e = elim (Result-cases (identify j id fingerprint)) [
  | inr (x, failed) ↦ absurd (ground arith)
  | inl ((task, op), found) ↦
      let h = identify-ok j id fingerprint found in
      elim (Bool-cases (same_phase op.phase unknown)) [
        | inl again ↦ read_back-Effect j id {a = a} (ground arith)
        | inr first ↦
            write_op-Effect j id task op h (in_phase id reserved) set_unknown false {a = a}
              (rewrites j id task op h (in_phase id reserved) set_unknown (ground arith)
                (in_phase-names j id task op h reserved) (λ r. refl) (λ r t u. ground arith))
              (ground arith)
      ]
]

pub mark_not_written-Effect :
    (j : Journal) (version : ℕ) (id fingerprint : Text) (proof : NotWrittenEvidence) {j' : Journal}
    {a : StockQueueOperation}
    → mark_not_written j version id fingerprint proof ≡ ok (j', a)
    → Effect j j'
unfolding mark_not_written
mark_not_written-Effect j version id fingerprint proof {j'} {a} e =
    elim (Result-cases (identify j id fingerprint)) [
      | inr (x, failed) ↦ absurd (ground arith)
      | inl ((task, op), found) ↦
          let h = identify-ok j id fingerprint found in
          write_op-Effect j id task op h (λ r. r.op_id === id) (set_not_written proof) false {a = a}
            (rewrites j id task op h (λ r. r.op_id === id) (set_not_written proof) (ground arith)
              (λ r t. (===_iff r.op_id id).0 t) (λ r. refl) (λ r t u. u))
            (ground arith)
    ]

unconsumed_names : (id : Text) (r : OpRow) → unconsumed_op id r ≡ true → r.op_id ≡ id
unconsumed_names id r t = ground (arith, ===_iff r.op_id id)

consume_found-Effect :
    (j : Journal) (task : TaskRow) (op : OpRow) (turn_id : Text) (o : Option Text) {j' : Journal}
    {a : StockQueueOperation}
    → Identified j op.op_id task op
    → op.not_written ≡ none
    → consume_found j task op turn_id o ≡ ok (j', a)
    → Effect j j'
unfolding consume_found
consume_found-Effect j task op turn_id none {j'} {a} h open_op e =
    write_op-Effect j op.op_id task op h (unconsumed_op op.op_id) (set_consumed turn_id)
      (same_phase op.phase accepted) {a = a}
      (rewrites j op.op_id task op h (unconsumed_op op.op_id) (set_consumed turn_id) open_op
        (unconsumed_names op.op_id) (λ r. refl) (λ r t u. u))
      e
consume_found-Effect j task op turn_id (some turn) {j'} {a} h open_op e =
    read_back-Effect j op.op_id {a = a} (ground arith)

pub own_id :
    (j : Journal) (id : Text) (task : TaskRow) (op : OpRow)
    → Identified j id task op
    → Identified j op.op_id task op
own_id j id task op h = record { held = h.held; named = refl; found = h.found }

pub consume-Effect :
    (j : Journal) (id fingerprint turn_id : Text) (authoritative : Bool) {j' : Journal}
    {a : StockQueueOperation}
    → consume j id fingerprint turn_id authoritative ≡ ok (j', a)
    → Effect j j'
unfolding consume
consume-Effect j id fingerprint turn_id authoritative {j'} {a} e =
    elim (Result-cases (identify j id fingerprint)) [
      | inr (x, failed) ↦ absurd (ground arith)
      | inl ((task, op), found) ↦
          consume_found-Effect j task op turn_id op.accepted_turn_id {a = a}
            (own_id j id task op (identify-ok j id fingerprint found)) (ground arith) (ground arith)
    ]
