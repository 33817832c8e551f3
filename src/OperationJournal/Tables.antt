-- ===== src/OperationJournal/Tables.antt =====
-- src/codex/managed-worker-operation-journal.ts: the tables, the rows as callers see them, and the SQL
-- statements as functions on the rows in rowid order. The columns `created_at` and `updated_at`,
-- which no statement reads, are left out.
use vkodex.Prelude.{
  ℕ, ◌+◌, Bool, true, false, ◌&&◌, ◌||◌, Option, none, some, List, [], ◌∷◌, ◌==◌, if◌then◌else◌,
  is_none, any,
}
use vkodex.Prelude.Int.{ℤ}
use vkodex.Prelude.JsText.{Text, ◌===◌}

pub data WorkerMutationMethod : Type 0 where
  turn_start queue_add : WorkerMutationMethod

abbrev pub same_method : WorkerMutationMethod → WorkerMutationMethod → Bool
same_method turn_start turn_start = true
same_method queue_add queue_add = true
same_method _ _ = false

pub data WorkerOperationState : Type 0 where
  dispatching unknown accepted rejected : WorkerOperationState

abbrev pub same_state : WorkerOperationState → WorkerOperationState → Bool
same_state dispatching dispatching = true
same_state unknown unknown = true
same_state accepted accepted = true
same_state rejected rejected = true
same_state _ _ = false

-- `state IN ('dispatching','unknown')`
abbrev pub is_open : WorkerOperationState → Bool
is_open dispatching = true
is_open unknown = true
is_open accepted = false
is_open rejected = false

pub record OperationRow : Type 0 where
  pub operation_id : Text
  pub client_user_message_id : Text
  pub method : WorkerMutationMethod
  pub fingerprint : Text
  pub revision : ℕ
  pub state : WorkerOperationState
  pub receipt_id : Option Text
  pub rejection_code : Option ℤ

-- The states that the table admits; an operation with an effective fingerprint shows as confirmed.
pub data SettingsRowState : Type 0 where
  settings_dispatching settings_unknown : SettingsRowState

pub record SettingsRow : Type 0 where
  pub operation_id : Text
  pub fingerprint : Text
  pub revision : ℕ
  pub state : SettingsRowState
  pub rpc_ack : Bool
  pub effective_fingerprint : Option Text

pub record ScopeRow : Type 0 where
  pub owner_epoch : Text
  pub backend_generation : ℕ
  pub thread_id : Text

pub record Database : Type 0 where
  pub scope : Option ScopeRow
  pub operations : List OperationRow
  pub settings : List SettingsRow

pub record WorkerOperationIntent : Type 0 where
  pub operation_id : Text
  pub client_user_message_id : Text
  pub method : WorkerMutationMethod
  pub fingerprint : Text

pub record SettingsOperationIntent : Type 0 where
  pub operation_id : Text
  pub fingerprint : Text

-- What the journal gives to its callers: the scope, and the row.
pub record WorkerOperation : Type 0 where
  pub scope : ScopeRow
  pub row : OperationRow

pub data SettingsState : Type 0 where
  view_dispatching view_unknown view_confirmed : SettingsState

abbrev pub same_settings_state : SettingsState → SettingsState → Bool
same_settings_state view_dispatching view_dispatching = true
same_settings_state view_unknown view_unknown = true
same_settings_state view_confirmed view_confirmed = true
same_settings_state _ _ = false

pub record SettingsOperation : Type 0 where
  pub scope : ScopeRow
  pub operation_id : Text
  pub fingerprint : Text
  pub revision : ℕ
  pub state : SettingsState
  pub rpc_ack : Bool
  pub effective_fingerprint : Option Text

-- SELECT * FROM managed_worker_operations WHERE operation_id=?
unfoldable pub find_operation : List OperationRow → Text → Option OperationRow
find_operation [] id = none
find_operation (r ∷ rs) id = if r.operation_id === id then some r else find_operation rs id

-- SELECT 1 FROM managed_worker_operations WHERE client_user_message_id=?
unfoldable pub has_client : List OperationRow → Text → Bool
has_client [] id = false
has_client (r ∷ rs) id = r.client_user_message_id === id || has_client rs id

unfoldable pub find_settings : List SettingsRow → Text → Option SettingsRow
find_settings [] id = none
find_settings (r ∷ rs) id = if r.operation_id === id then some r else find_settings rs id

-- SELECT 1 FROM managed_worker_operations WHERE state IN ('dispatching','unknown')
-- UNION ALL SELECT 1 FROM managed_worker_settings_operations WHERE effective_fingerprint IS NULL
unfoldable pub has_unconfirmed : Database → Bool
has_unconfirmed db =
    any (λ r. is_open r.state) db.operations
    || any (λ r. is_none r.effective_fingerprint) db.settings

-- WHERE operation_id=? AND revision=? AND state=?
abbrev pub selects : OperationRow → OperationRow → Bool
selects current r =
    r.operation_id === current.operation_id
    && r.revision == current.revision
    && same_state r.state current.state

-- UPDATE managed_worker_operations SET state=?, revision=revision+1, receipt_id=?, rejection_code=?
abbrev pub settle : WorkerOperationState → Option Text → Option ℤ → OperationRow → OperationRow
settle next receipt code r = record r {
  state = next;
  revision = r.revision + 1;
  receipt_id = receipt;
  rejection_code = code;
}

module _ {R : Type 0} (test : R → Bool) (set : R → R) where
  unfoldable pub update_rows : List R → List R
  update_rows [] = []
  update_rows (r ∷ rs) = (if test r then set r else r) ∷ update_rows rs

-- `changes` of the update.
unfoldable pub count_rows : {R : Type 0} → (R → Bool) → List R → ℕ
count_rows test [] = 0
count_rows test (r ∷ rs) = (if test r then 1 else 0) + count_rows test rs
