-- ===== src/StockQueue/Run.antt =====
-- src/codex/native-stock-queue-journal.ts: the writes of one journal, in any order. A write that throws rolls its
-- transaction back.
use vkodex.Prelude.{ℕ, Bool, List, [], ◌∷◌, Result, ok, err}
use vkodex.Prelude.JsText.{Text}
use vkodex.StockQueue.Tables.{Runtime, NotWrittenEvidence, PositiveProof, Journal, StockError}
use vkodex.StockQueue.Reserve.{
  StockQueueIntent, reserve, mark_unknown, mark_not_written, consume, acknowledge_publication,
}
use vkodex.StockQueue.Outcomes.{LateProof, mark_accepted, reconcile_positive}

pub data Write : Type 0 where
  reserve_write : StockQueueIntent → Write
  accept_write : Text → Text → Text → LateProof → Write
  reconcile_write : ℕ → PositiveProof → Bool → Write
  unknown_write : Text → Text → Write
  not_written_write : ℕ → Text → Text → NotWrittenEvidence → Write
  consume_write : Text → Text → Text → Bool → Write
  acknowledge_write : ℕ → Write

-- The journal after a write's transaction, which is committed or rolled back.
abbrev pub after {ℓ} : {A : Type ℓ} → Journal → Result StockError (Journal × A) → Journal
after j (ok (j', a)) = j'
after j (err e) = j

abbrev pub after_ack : Journal → Result StockError (Journal × Bool × ℕ) → Journal
after_ack j (ok (j', acknowledged, version)) = j'
after_ack j (err e) = j

unfoldable pub step : Runtime → Journal → Write → Journal
step rt j (reserve_write i) = after j (reserve rt j i)
step rt j (accept_write id f s l) = after j (mark_accepted rt j id f s l)
step rt j (reconcile_write v p c) = after j (reconcile_positive rt j v p c)
step rt j (unknown_write id f) = after j (mark_unknown j id f)
step rt j (not_written_write v id f p) = after j (mark_not_written j v id f p)
step rt j (consume_write id f t a) = after j (consume j id f t a)
step rt j (acknowledge_write v) = after_ack j (acknowledge_publication j v)

unfoldable pub run : Runtime → Journal → List Write → Journal
run rt j [] = j
run rt j (w ∷ ws) = run rt (step rt j w) ws
