-- ===== src/Bridge/Staging/Calls.antt =====
-- src/bridge/store.ts: a staged file, from its reservation to its recycling, and the calls in any order.
use vkodex.Prelude.{
  ℕ, ◌+◌, ◌*◌, Bool, true, false, not, ◌&&◌, ◌||◌, Option, none, some, List, [], ◌∷◌, ◌++◌, ltb,
  leb, ◌==◌, if◌then◌else◌, any, keep, map, is_none, Result, ok, err,
}
use vkodex.Prelude.JsText.{Text, ◌===◌, is_empty}
use vkodex.Prelude.JsMap.{includes}
use vkodex.OperationJournal.Tables.{update_rows, count_rows}
use vkodex.Bridge.Identity.{ManagedOwnerProcessIdentity, is_identity, same_identity}
use vkodex.Bridge.Staging.Tables.{
  reserved, ready, is_reserved, StageRow, RecycleState, pending, recycled, is_pending, RecycleRow,
  Stages, recycle_state, stage_reserved_bytes, stage_reserved_count, is_of, every_row,
}

pub data StageError : Type 0 where
  invalid_reservation invalid_identity conflicting_reservation constraint_failed : StageError
  missing_reservation not_pending : StageError

pub data Reservation : Type 0 where
  made existing limit : Reservation

-- What a caller asks for; `free` is the space observed on the disk, where it was.
pub record StageRequest : Type 0 where
  pub file_key : Text
  pub binding_id : Text
  pub operation_id : Text
  pub bytes : ℕ
  pub path : Text
  pub free : Option ℕ
  pub writer : Option ManagedOwnerProcessIdentity

unfoldable pub find_stage : List StageRow → Text → Option StageRow
find_stage [] k = none
find_stage (r ∷ rs) k = if r.file_key === k then some r else find_stage rs k

abbrev pub bad_writer : Option ManagedOwnerProcessIdentity → Bool
bad_writer none = false
bad_writer (some w) = not (is_identity w)

abbrev pub short_of : Option ℕ → ℕ → Bool
short_of none needed = false
short_of (some free) needed = ltb free (512 * 1024 * 1024 + needed)

abbrev pub max_stage_files_per_operation : ℕ
max_stage_files_per_operation = 256

abbrev pub max_stage_files_global : ℕ
max_stage_files_global = 2048

unfoldable pub over_limit : Stages → StageRequest → Bool
over_limit s q =
    let owned = is_of q.binding_id q.operation_id in
    let operation_bytes = stage_reserved_bytes owned s in
    let global_bytes = stage_reserved_bytes every_row s in
    short_of q.free (global_bytes + q.bytes)
    || ltb (512 * 1024 * 1024) (operation_bytes + q.bytes)
    || ltb (2 * 1024 * 1024 * 1024) (global_bytes + q.bytes)
    || leb max_stage_files_per_operation (stage_reserved_count owned s)
    || leb max_stage_files_global (stage_reserved_count every_row s)

abbrev pub new_stage : StageRequest → ℕ → StageRow
new_stage q now = record {
  file_key = q.file_key;
  binding_id = q.binding_id;
  operation_id = q.operation_id;
  bytes = q.bytes;
  path = q.path;
  state = reserved;
  created_at = now;
  writer = q.writer;
}

-- The table admits one row for a path.
unfoldable pub reserve_found :
    Stages → StageRequest → ℕ → Option StageRow → Result StageError (Stages × Reservation)
reserve_found s q now (some r) =
    if is_of q.binding_id q.operation_id r && r.bytes == q.bytes
    then ok (s, existing)
    else err conflicting_reservation
reserve_found s q now none =
    if over_limit s q
    then ok (s, limit)
    else if any (λ r. r.path === q.path) s.reservations
    then err constraint_failed
    else ok (record s { reservations = s.reservations ++ (new_stage q now ∷ []) }, made)

unfoldable pub reserve_stage : Stages → StageRequest → ℕ → Result StageError (Stages × Reservation)
reserve_stage s q now =
    if ltb (200 * 1024 * 1024) q.bytes || is_empty q.path
    then err invalid_reservation
    else if bad_writer q.writer
    then err invalid_identity
    else if s.legacy_unaccounted
    then ok (s, limit)
    else reserve_found s q now (find_stage s.reservations q.file_key)

-- The value under `file-stage-index:…`: none, one that is no object, or an object with these keys.
pub data StageReceipt : Type 0 where
  no_receipt damaged_receipt : StageReceipt
  receipt_of : List Text → StageReceipt

abbrev pub may_hold : StageReceipt → Text → Bool
may_hold no_receipt k = false
may_hold damaged_receipt k = true
may_hold (receipt_of keys) k = includes keys k

pub record StageCandidate : Type 0 where
  pub file_key : Text
  pub binding_id : Text
  pub operation_id : Text
  pub path : Text
  pub writer : ManagedOwnerProcessIdentity

abbrev pub written_by : ManagedOwnerProcessIdentity → Option ManagedOwnerProcessIdentity → Bool
written_by w none = false
written_by w (some v) = same_identity v w

-- The statements' condition, `NOT EXISTS` on the recycling row included.
unfoldable pub abandons : List RecycleRow → StageCandidate → StageRow → Bool
abandons recycling c r =
    r.file_key === c.file_key
    && is_of c.binding_id c.operation_id r
    && r.path === c.path
    && is_reserved r.state
    && written_by c.writer r.writer
    && is_none (recycle_state recycling c.file_key)

-- The rows deleted are those recorded, so the audit that follows the deletion cannot fail.
unfoldable pub abandon_stage_reservation :
    Stages → StageReceipt → StageCandidate → ℕ → Stages × Bool
abandon_stage_reservation s receipt c now =
    if may_hold receipt c.file_key
    then (s, false)
    else if count_rows (abandons s.recycling c) s.reservations == 1
    then (
      record s {
        reservations = keep (λ r. not (abandons s.recycling c r)) s.reservations;
        abandoned =
            s.abandoned
            ++ map (λ r. record { row = r; abandoned_at = now })
                (keep (abandons s.recycling c) s.reservations);
      },
      true,
    )
    else (s, false)

unfoldable pub mark_stage_ready : Stages → Text → Text → Result StageError Stages
mark_stage_ready s k path =
    let test : StageRow → Bool = λ r. r.file_key === k && r.path === path && is_reserved r.state in
    if count_rows test s.reservations == 1
    then ok (record s {
      reservations = update_rows test (λ r. record r { state = ready }) s.reservations;
    })
    else err missing_reservation

abbrev pub is_ready_at : Text → Text → StageRow → Bool
is_ready_at k path r = r.file_key === k && r.path === path && not (is_reserved r.state)

unfoldable pub pending_from : Stages → Text → ℕ → Option RecycleState → Stages × Bool
pending_from s k now (some recycled) = (s, false)
pending_from s k now (some pending) = (s, true)
pending_from s k now none = (
  record s {
    recycling = s.recycling ++ (record { file_key = k; state = pending; updated_at = now } ∷ []);
  },
  true,
)

unfoldable pub mark_stage_recycle_pending : Stages → Text → Text → ℕ → Stages × Bool
mark_stage_recycle_pending s k path now =
    if any (is_ready_at k path) s.reservations
    then pending_from s k now (recycle_state s.recycling k)
    else (s, false)

unfoldable pub mark_stage_recycled : Stages → Text → Text → ℕ → Result StageError Stages
mark_stage_recycled s k path now =
    let test : RecycleRow → Bool =
      λ c. c.file_key === k && is_pending c.state && any (is_ready_at k path) s.reservations in
    if count_rows test s.recycling == 1
    then ok (record s {
      recycling =
          update_rows test (λ c. record c { state = recycled; updated_at = now }) s.recycling;
    })
    else err not_pending

pub data StageCall : Type 0 where
  reserve : StageRequest → ℕ → StageCall
  abandon : StageReceipt → StageCandidate → ℕ → StageCall
  mark_ready : Text → Text → StageCall
  recycle_pending : Text → Text → ℕ → StageCall
  recycle_done : Text → Text → ℕ → StageCall

abbrev pub kept : Stages → Result StageError Stages → Stages
kept s (ok s') = s'
kept s (err e) = s

abbrev pub kept_with : Stages → Result StageError (Stages × Reservation) → Stages
kept_with s (ok (s', r)) = s'
kept_with s (err e) = s

unfoldable pub step : Stages → StageCall → Stages
step s (reserve q now) = kept_with s (reserve_stage s q now)
step s (abandon receipt c now) = (abandon_stage_reservation s receipt c now).0
step s (mark_ready k path) = kept s (mark_stage_ready s k path)
step s (recycle_pending k path now) = (mark_stage_recycle_pending s k path now).0
step s (recycle_done k path now) = kept s (mark_stage_recycled s k path now)

unfoldable pub run : Stages → List StageCall → Stages
run s [] = s
run s (c ∷ cs) = run (step s c) cs
