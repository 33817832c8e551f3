-- ===== src/StockQueue/Reads.antt =====
-- src/codex/native-stock-queue-journal.ts: the reads, each in one snapshot: `readTask`, `quiescence`, the pages,
-- `lookupIncomingIdentities`, the publication, and `confirmReplay`.
use vkodex.Prelude.{
  ℕ, zero, suc, ◌+◌, Bool, true, false, not, ◌&&◌, ◌||◌, Option, none, some, List, [], ◌∷◌, ltb,
  ◌==◌, any, keep, length, if◌then◌else◌, is_none, Result, ok, err, ◌>>=◌, ◌>>◌, throw_if,
}
use vkodex.Prelude.JsText.{Text, ◌===◌, is_empty}
use vkodex.Prelude.JsMap.{has_duplicate}
use vkodex.Json.{Value}
use vkodex.StockQueue.Tables.{
  accepted, same_phase, OpRow, TaskRow, EvidenceRow, Journal, StockError, fields_required,
  invalid_page, invalid_batch, stale_publication, not_written_blocks, version_required,
  stale_version, owner_mismatch, unresolved_blocks, is_safe, is_safe_from, find_op,
  select_unresolved, task_row, version_of, settings_of, StockQueueOperation, op_view,
}

abbrev pub max_page_size : ℕ
max_page_size = 500

abbrev pub published_version : Option TaskRow → ℕ
published_version none = 0
published_version (some row) = row.publication_version

abbrev pub acked_version : Option TaskRow → ℕ
acked_version none = 0
acked_version (some row) = row.publication_acked_version

pub record TaskView : Type 0 where
  pub task_id : Text
  pub owner_epoch : Text
  pub source_generation : Text
  pub version : ℕ
  pub effective_settings : Option Value
  pub publication_version : ℕ
  pub publication_acked_version : ℕ

-- `taskView`
unfoldable pub task_view : Journal → Option TaskRow → TaskView
task_view j row = record {
  task_id = j.task_id;
  owner_epoch = j.owner_epoch;
  source_generation = j.source_generation;
  version = version_of row;
  effective_settings = settings_of row;
  publication_version = published_version row;
  publication_acked_version = acked_version row;
}

unfoldable pub read_task : Journal → Result StockError TaskView
unfolding task_view
read_task j = do row ← task_row j; ok (task_view j row)

pub record Quiescence : Type 0 where
  pub task_version : ℕ
  pub unresolved : ℕ
  pub unconsumed : ℕ

-- The counts of the rows whose phase is reserved or unknown, and of those that are not consumed.
unfoldable pub quiescence : Journal → Result StockError Quiescence
quiescence j = do
  row ← task_row j
  ok (record {
    task_version = version_of row;
    unresolved = length (keep (λ r. not (same_phase r.phase accepted)) j.ops);
    unconsumed = length (keep (λ r. not r.consumed) j.ops);
  })

unfoldable pub page_args : ℕ → ℕ → Result StockError (Unit {0})
page_args after limit =
    throw_if (not (is_safe after) || not (is_safe_from 1 limit) || ltb max_page_size limit)
      invalid_page

-- The first rows, at most so many: `slice(0, limit)`.
unfoldable pub first_rows {ℓ} : {A : Type ℓ} → ℕ → List A → List A
first_rows zero rows = []
first_rows (suc n) [] = []
first_rows (suc n) (r ∷ rows) = r ∷ first_rows n rows

-- `items.at(-1)?.seq ?? afterSeq`
unfoldable pub last_seq : ℕ → List OpRow → ℕ
last_seq after [] = after
last_seq after (r ∷ rows) = last_seq r.seq rows

pub record Page (A : Type 0) : Type 0 where
  pub task_version : ℕ
  pub items : List A
  pub has_more : Bool
  pub next_cursor : ℕ

unfoldable pub views : Option Value → List OpRow → Result StockError (List StockQueueOperation)
views settings [] = ok []
views settings (r ∷ rows) = do v ← op_view settings r; vs ← views settings rows; ok (v ∷ vs)

-- WHERE consumed=? AND seq>? ORDER BY seq LIMIT ?
unfoldable pub page_rows : Journal → Bool → ℕ → ℕ → List OpRow
page_rows j consumed after limit =
    first_rows limit
      (keep (λ r. (if consumed then r.consumed else not r.consumed) && ltb after r.seq) j.ops)

unfoldable pub page : Journal → Bool → ℕ → ℕ → Result StockError (Page StockQueueOperation)
unfolding page_args page_rows
page j consumed after limit = do
  page_args after limit
  task ← task_row j
  let rows = page_rows j consumed after (limit + 1)
  items ← views (settings_of task) (first_rows limit rows)
  ok (record {
    task_version = version_of task;
    items = items;
    has_more = ltb limit (length rows);
    next_cursor = last_seq after (first_rows limit rows);
  })

unfoldable pub pending_page : Journal → ℕ → ℕ → Result StockError (Page StockQueueOperation)
pending_page j after limit = page j false after limit

unfoldable pub consumed_page : Journal → ℕ → ℕ → Result StockError (Page StockQueueOperation)
consumed_page j after limit = page j true after limit

-- The rows that `lookupIncomingIdentities` finds, in the order of the IDs.
unfoldable pub lookups : List OpRow → List Text → List (Option OpRow)
lookups rows [] = []
lookups rows (id ∷ ids) = find_op rows id ∷ lookups rows ids

unfoldable pub lookup_incoming_identities :
    Journal → List Text → Result StockError (ℕ × List (Option OpRow))
unfolding lookups
lookup_incoming_identities j ids = do
  throw_if (ltb max_page_size (length ids) || any is_empty ids || has_duplicate ids) invalid_batch
  task ← task_row j
  ok (version_of task, lookups j.ops ids)

pub record PublicationStatus : Type 0 where
  pub version : ℕ
  pub acknowledged_version : ℕ
  pub pending : Bool

unfoldable pub publication_status : Journal → Result StockError PublicationStatus
publication_status j = do
  row ← task_row j
  ok (record {
    version = published_version row;
    acknowledged_version = acked_version row;
    pending = ltb (acked_version row) (published_version row);
  })

-- SELECT op_id FROM native_stock_not_written LIMIT 1
abbrev pub any_not_written : Journal → Bool
any_not_written j = any (λ r. not (is_none r.not_written)) j.ops

-- WHERE phase='accepted' AND consumed=0 AND seq>? ORDER BY seq LIMIT ?
unfoldable pub publication_rows : Journal → ℕ → List OpRow
publication_rows j after =
    keep (λ r. same_phase r.phase accepted && not r.consumed && ltb after r.seq) j.ops

-- What a page tells of a row: its sequence number, ID, fingerprint and native entry.
pub record PublicationItem : Type 0 where
  pub seq : ℕ
  pub op_id : Text
  pub fingerprint : Text
  pub native_entry : Value

unfoldable pub publication_items : List OpRow → List PublicationItem
publication_items [] = []
publication_items (r ∷ rows) =
    (record {
      seq = r.seq;
      op_id = r.op_id;
      fingerprint = r.fingerprint;
      native_entry = r.native_entry;
    })
    ∷ publication_items rows

-- A page of the current publication; `task_version` is the publication's version here.
unfoldable pub publication_page : Journal → ℕ → ℕ → ℕ → Result StockError (Page PublicationItem)
unfolding page_args publication_status publication_rows
publication_page j version after limit = do
  page_args after limit
  status ← publication_status j
  throw_if (not status.pending || not (version == status.version)) stale_publication
  throw_if (any_not_written j) not_written_blocks
  let rows = first_rows (limit + 1) (publication_rows j after)
  ok (record {
    task_version = version;
    items = publication_items (first_rows limit rows);
    has_more = ltb limit (length rows);
    next_cursor = last_seq after (first_rows limit rows);
  })

unfoldable pub current_queue_page : Journal → ℕ → ℕ → ℕ → Result StockError (Page PublicationItem)
unfolding page_args publication_rows
current_queue_page j expected_version after limit = do
  page_args after limit
  throw_if (not (is_safe expected_version)) version_required
  task ← task_row j
  throw_if (not (version_of task == expected_version)) stale_version
  throw_if (any_not_written j) not_written_blocks
  let rows = first_rows (limit + 1) (publication_rows j after)
  ok (record {
    task_version = version_of task;
    items = publication_items (first_rows limit rows);
    has_more = ltb limit (length rows);
    next_cursor = last_seq after (first_rows limit rows);
  })

-- `publication`: the whole of what a pending publication holds.
unfoldable pub publication : Journal → Result StockError (Option (ℕ × List PublicationItem))
unfolding publication_status publication_rows
publication j = do
  status ← publication_status j
  if not status.pending
      then ok none
      else if any_not_written j
      then err not_written_blocks
      else ok (some (status.version, publication_items (publication_rows j 0)))

-- `read`: the view of the task and of every operation.
unfoldable pub read : Journal → Result StockError (TaskView × List StockQueueOperation)
unfolding read_task task_view
read j = do task ← task_row j; vs ← views (settings_of task) j.ops; ok (task_view j task, vs)

-- `confirmReplay`; what it gives is the version.
unfoldable pub confirm_replay : Journal → ℕ → Text → Result StockError ℕ
confirm_replay j expected_version owner_epoch = do
  throw_if (not (is_safe expected_version) || not (owner_epoch === j.owner_epoch)) owner_mismatch
  row ← task_row j
  throw_if (not (version_of row == expected_version)) stale_version
  throw_if (not (is_none (select_unresolved j.ops))) unresolved_blocks
  ok (version_of row)

-- `reconciliationEvidence`
unfoldable pub reconciliation_evidence : Journal → Text → Result StockError (List EvidenceRow)
reconciliation_evidence j id = do
  throw_if (is_empty id) fields_required
  task ← task_row j
  ok (keep (λ e. e.op_id === id) j.evidence)
