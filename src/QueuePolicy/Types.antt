-- ===== src/QueuePolicy/Types.antt =====
-- src/codex/homogeneous-queue-policy.ts: the state of `HomogeneousStockQueuePolicy`, its tickets,
-- observations and requests.
use vkodex.Prelude.{ℕ, Bool, true, false, Option, List}
use vkodex.Prelude.Int.{ℤ}
use vkodex.Prelude.JsText.{Text}
use vkodex.Prelude.JsMap.{JsMap}
use vkodex.Json.{Value, Items}

-- `MutationOutcome`, and `pending` before there is one.
pub data Outcome : Type 0 where
  accepted definitively_rejected unknown pending : Outcome

abbrev pub is_pending : Outcome → Bool
is_pending pending = true
is_pending _ = false

abbrev pub is_rejected : Outcome → Bool
is_rejected definitively_rejected = true
is_rejected _ = false

abbrev pub is_unknown : Outcome → Bool
is_unknown unknown = true
is_unknown _ = false

abbrev pub is_accepted : Outcome → Bool
is_accepted accepted = true
is_accepted _ = false

pub record QueueObservation : Type 0 where
  pub task_id : Text
  pub owner_epoch : Text
  pub revision : ℤ
  pub complete : Bool
  pub serialized : Bool
  pub effective_settings : Value
  pub queue_client_ids : List Text
  pub active_client_ids : List Text
  pub terminal_client_ids : List Text
  pub idle : Bool

-- `identity` stands for the identity of the frozen ticket object, by which a `WeakSet` knows it.
pub record ObservationTicket : Type 0 where
  pub task_id : Text
  pub owner_epoch : Text
  pub epoch_generation : ℕ
  pub serial : ℕ
  pub sequence : ℕ
  pub identity : ℕ

pub record QueueAddTicket : Type 0 where
  pub task_id : Text
  pub owner_epoch : Text
  pub epoch_generation : ℕ
  pub client_user_message_id : Text
  pub sequence : ℕ

pub record SettingsChangeTicket : Type 0 where
  pub task_id : Text
  pub owner_epoch : Text
  pub epoch_generation : ℕ
  pub sequence : ℕ

pub record ReserveAddRequest : Type 0 where
  pub owner_epoch : Text
  pub client_user_message_id : Text
  pub input : Items
  pub effective_settings : Value

pub record Operation : Type 0 where
  pub owner_epoch : Text
  pub epoch_generation : ℕ
  pub outcome : Outcome
  pub terminal : Bool
  pub sequence : ℕ

pub record SettingsWrite : Type 0 where
  pub sequence : ℕ
  pub previous : Text
  pub desired : Text
  pub outcome : Outcome

pub record Policy : Type 0 where
  pub task_id : Text
  pub owner_epoch : Text
  pub epoch_generation : ℕ
  pub revision : ℤ
  pub serial : ℕ
  pub next_ticket : ℕ
  pub settings : Option Text
  pub lock_settings : Option Text
  pub operations : JsMap Operation
  pub used_ids : List Text
  pub settings_write : Option SettingsWrite
  pub idle : Bool
  pub foreign : Bool
  pub poisoned : Bool
  pub observed_busy : Bool
  pub observation_tickets : List ℕ

pub record Status : Type 0 where
  pub task_id : Text
  pub owner_epoch : Text
  pub revision : ℤ
  pub locked : Bool
  pub unresolved_count : ℕ
  pub settings_write_outcome : Option Outcome
  pub foreign : Bool
  pub poisoned : Bool
