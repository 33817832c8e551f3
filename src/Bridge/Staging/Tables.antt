-- ===== src/Bridge/Staging/Tables.antt =====
-- src/bridge/store.ts: the tables `bridge_stage_reservations`, `bridge_stage_recycling` and
-- `bridge_stage_abandoned`, rows in rowid order, and the sums over them.
use vkodex.Prelude.{ℕ, Bool, true, false, ◌&&◌, Option, none, some, List, [], ◌∷◌, if◌then◌else◌}
use vkodex.Prelude.JsText.{Text, ◌===◌}
use vkodex.OperationJournal.Rows.{sum_rows}
use vkodex.Bridge.Identity.{ManagedOwnerProcessIdentity}

pub data StageState : Type 0 where
  reserved ready : StageState

abbrev pub is_reserved : StageState → Bool
is_reserved reserved = true
is_reserved ready = false

pub record StageRow : Type 0 where
  pub file_key : Text
  pub binding_id : Text
  pub operation_id : Text
  pub bytes : ℕ
  pub path : Text
  pub state : StageState
  pub created_at : ℕ
  pub writer : Option ManagedOwnerProcessIdentity

pub data RecycleState : Type 0 where
  pending recycled : RecycleState

abbrev pub is_pending : RecycleState → Bool
is_pending pending = true
is_pending recycled = false

pub record RecycleRow : Type 0 where
  pub file_key : Text
  pub state : RecycleState
  pub updated_at : ℕ

pub record AbandonedRow : Type 0 where
  pub row : StageRow
  pub abandoned_at : ℕ

-- `legacy_unaccounted` is the flag `stageLegacyUnaccounted`, set when the store is opened.
pub record Stages : Type 0 where
  pub reservations : List StageRow
  pub recycling : List RecycleRow
  pub abandoned : List AbandonedRow
  pub legacy_unaccounted : Bool

-- SELECT state FROM bridge_stage_recycling WHERE file_key = ?
unfoldable pub recycle_state : List RecycleRow → Text → Option RecycleState
recycle_state [] k = none
recycle_state (c ∷ cs) k = if c.file_key === k then some c.state else recycle_state cs k

-- `c.state IS NULL OR c.state <> 'recycled'`
abbrev pub not_recycled : Option RecycleState → Bool
not_recycled none = true
not_recycled (some pending) = true
not_recycled (some recycled) = false

unfoldable pub is_charged : List RecycleRow → StageRow → Bool
is_charged recycling r = not_recycled (recycle_state recycling r.file_key)

-- `r.binding_id = ? AND r.operation_id = ?`
abbrev pub is_of : Text → Text → StageRow → Bool
is_of binding operation r = r.binding_id === binding && r.operation_id === operation

abbrev pub charged_bytes : (StageRow → Bool) → List RecycleRow → StageRow → ℕ
charged_bytes owned recycling r = if is_charged recycling r && owned r then r.bytes else 0

abbrev pub charged_count : (StageRow → Bool) → List RecycleRow → StageRow → ℕ
charged_count owned recycling r = if is_charged recycling r && owned r then 1 else 0

-- The joined sums, of the rows that belong to an operation, or of all.
unfoldable pub stage_reserved_bytes : (StageRow → Bool) → Stages → ℕ
stage_reserved_bytes owned s = sum_rows (charged_bytes owned s.recycling) s.reservations

unfoldable pub stage_reserved_count : (StageRow → Bool) → Stages → ℕ
stage_reserved_count owned s = sum_rows (charged_count owned s.recycling) s.reservations

abbrev pub every_row : StageRow → Bool
every_row r = true
