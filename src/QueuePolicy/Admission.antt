-- ===== src/QueuePolicy/Admission.antt =====
-- src/codex/homogeneous-queue-policy.ts: the constructor, `beginObservation`, `reserveAdd`,
-- `recordAddOutcome`, `reserveSettingsChange`, `recordSettingsOutcome`, `changeOwnerEpoch`, `status`.
-- A method that may throw gives `err`, and the object is then as it was.
use vkodex.Prelude.{
  ℕ, ◌+◌, Bool, false, not, ◌&&◌, ◌||◌, Option, none, some, [], ◌∷◌, ◌==◌, if◌then◌else◌, is_none,
  any, keep, length, Result, ok, err, ◌>>=◌, ◌>>◌, throw_if,
}
use vkodex.Prelude.Int.{negsuc}
use vkodex.Prelude.JsText.{Text, ◌===◌, is_empty}
use vkodex.Prelude.JsMap
use vkodex.Prelude.JsMap.{JsMap, includes}
use vkodex.Json.{Value}
use vkodex.QueuePolicy.Validation.{
  PolicyError, owner_required, stale_ticket, epoch_mismatch, reused_client_id, unresolved_admission,
  admission_denied, invalid_add_outcome, settings_frozen, invalid_settings_outcome,
  new_epoch_required, valid_settings, valid_input,
}
use vkodex.QueuePolicy.Types.{
  Outcome, unknown, pending, is_pending, is_rejected, is_unknown, ObservationTicket, QueueAddTicket,
  SettingsChangeTicket, ReserveAddRequest, Operation, SettingsWrite, Policy, Status,
}

-- The fields of a new object.
unfoldable pub fresh : Text → Text → Policy
fresh task_id owner_epoch = record {
  task_id = task_id;
  owner_epoch = owner_epoch;
  epoch_generation = 0;
  revision = negsuc 0;
  serial = 0;
  next_ticket = 0;
  settings = none;
  lock_settings = none;
  operations = [];
  used_ids = [];
  settings_write = none;
  idle = false;
  foreign = false;
  poisoned = false;
  observed_busy = false;
  observation_tickets = [];
}

-- The constructor.
unfoldable pub new : Text → Text → Result PolicyError Policy
new task_id owner_epoch = do
  throw_if (is_empty task_id || is_empty owner_epoch) owner_required
  ok (fresh task_id owner_epoch)

-- The ticket object is known by its sequence number, which no other ticket of this object has.
unfoldable pub begin_observation : Policy → Policy × ObservationTicket
begin_observation s =
    let n = s.next_ticket + 1 in
    (
      record s { next_ticket = n; observation_tickets = n ∷ s.observation_tickets },
      record {
        task_id = s.task_id;
        owner_epoch = s.owner_epoch;
        epoch_generation = s.epoch_generation;
        serial = s.serial;
        sequence = n;
        identity = n;
      },
    )

-- `checkTicket`: the task, the owner and the generation that the ticket was issued under.
unfoldable pub check_ticket : Policy → Text → Text → ℕ → Result PolicyError (Unit {0})
check_ticket s task_id owner_epoch epoch_generation =
    throw_if
      (not (task_id === s.task_id)
        || not (owner_epoch === s.owner_epoch)
        || not (epoch_generation == s.epoch_generation))
      stale_ticket

unfoldable pub require_epoch : Policy → Text → Result PolicyError (Unit {0})
require_epoch s owner_epoch = throw_if (not (owner_epoch === s.owner_epoch)) epoch_mismatch

-- `outcome !== "definitively-rejected" && !terminal`.
unfoldable pub is_unresolved : Operation → Bool
is_unresolved op = not op.terminal && not (is_rejected op.outcome)

-- An unresolved operation of unknown outcome, or of an earlier generation, blocks every add.
unfoldable pub blocks : ℕ → Operation → Bool
unfolding is_unresolved
blocks generation op =
    is_unresolved op && (is_unknown op.outcome || not (op.epoch_generation == generation))

abbrev pub is_text : Option Text → Text → Bool
is_text none t = false
is_text (some s) t = t === s

abbrev pub differs : Option Text → Text → Bool
differs none t = false
differs (some s) t = not (t === s)

-- The guards of `reserveAdd`; what it returns is the canonical text of the requested settings.
unfoldable pub check_add : Policy → ReserveAddRequest → Result PolicyError Text
unfolding require_epoch blocks
check_add s r = do
  require_epoch s r.owner_epoch
  valid_input r.input
  requested ← valid_settings r.effective_settings
  throw_if (is_empty r.client_user_message_id || includes s.used_ids r.client_user_message_id)
      reused_client_id
  throw_if (any (λ e. blocks s.epoch_generation e.1) s.operations) unresolved_admission
  throw_if
      (not (is_none s.settings_write)
        || s.poisoned
        || s.foreign
        || (s.observed_busy && length s.operations == 0)
        || not (is_text s.settings requested)
        || differs s.lock_settings requested)
      admission_denied
  ok requested

-- The reservation itself, once the guards have passed.
unfoldable pub admit : Policy → ReserveAddRequest → Text → Policy × QueueAddTicket
admit s r requested =
    let n = s.next_ticket + 1 in
    let id = r.client_user_message_id in
    let op : Operation = record {
      owner_epoch = r.owner_epoch;
      epoch_generation = s.epoch_generation;
      outcome = pending;
      terminal = false;
      sequence = n;
    } in
    (
      record s {
        next_ticket = n;
        operations = JsMap.set s.operations id op;
        used_ids = id ∷ s.used_ids;
        lock_settings = some requested;
        serial = s.serial + 1;
      },
      record {
        task_id = s.task_id;
        owner_epoch = r.owner_epoch;
        epoch_generation = s.epoch_generation;
        client_user_message_id = id;
        sequence = n;
      },
    )

unfoldable pub reserve_add :
    Policy → ReserveAddRequest → Result PolicyError (Policy × QueueAddTicket)
reserve_add s r = do requested ← check_add s r; ok (admit s r requested)

-- The operation that the ticket names, if there is one, takes the outcome.
unfoldable pub set_outcome :
    Policy → QueueAddTicket → Outcome → Option Operation → Result PolicyError Policy
set_outcome s t outcome none = err invalid_add_outcome
set_outcome s t outcome (some op) =
    if not (op.sequence == t.sequence) || not (is_pending op.outcome) || is_pending outcome
    then err invalid_add_outcome
    else ok (record s {
      operations =
          JsMap.set s.operations t.client_user_message_id (record op { outcome = outcome });
      serial = s.serial + 1;
    })

unfoldable pub record_add_outcome : Policy → QueueAddTicket → Outcome → Result PolicyError Policy
record_add_outcome s t outcome = do
  check_ticket s t.task_id t.owner_epoch t.epoch_generation
  set_outcome s t outcome (JsMap.get s.operations t.client_user_message_id)

unfoldable pub start_write :
    Policy → Text → Text → Option Text → Result PolicyError (Policy × SettingsChangeTicket)
start_write s owner_epoch desired none = err settings_frozen
start_write s owner_epoch desired (some previous) =
    let n = s.next_ticket + 1 in
    if not (is_none s.lock_settings)
      || not (length s.operations == 0)
      || not (is_none s.settings_write)
      || s.foreign
      || s.poisoned
      || not s.idle
      || s.observed_busy
    then err settings_frozen
    else ok (
      record s {
        next_ticket = n;
        serial = s.serial + 1;
        settings_write =
            some
              (record { sequence = n; previous = previous; desired = desired; outcome = pending });
      },
      record {
        task_id = s.task_id;
        owner_epoch = owner_epoch;
        epoch_generation = s.epoch_generation;
        sequence = n;
      },
    )

unfoldable pub reserve_settings_change :
    Policy → Text → Value → Result PolicyError (Policy × SettingsChangeTicket)
reserve_settings_change s owner_epoch effective_settings = do
  require_epoch s owner_epoch
  desired ← valid_settings effective_settings
  start_write s owner_epoch desired s.settings

unfoldable pub set_write_outcome :
    Policy → SettingsChangeTicket → Outcome → Option SettingsWrite → Result PolicyError Policy
set_write_outcome s t outcome none = err invalid_settings_outcome
set_write_outcome s t outcome (some w) =
    if not (w.sequence == t.sequence) || not (is_pending w.outcome) || is_pending outcome
    then err invalid_settings_outcome
    else ok
        (record s { settings_write = some (record w { outcome = outcome }); serial = s.serial + 1 })

unfoldable pub record_settings_outcome :
    Policy → SettingsChangeTicket → Outcome → Result PolicyError Policy
record_settings_outcome s t outcome = do
  check_ticket s t.task_id t.owner_epoch t.epoch_generation
  set_write_outcome s t outcome s.settings_write

unfoldable pub lose_operation : Operation → Operation
lose_operation op = if is_pending op.outcome then record op { outcome = unknown } else op

unfoldable pub lose_operations : JsMap Operation → JsMap Operation
unfolding lose_operation
lose_operations [] = []
lose_operations ((id, op) ∷ ops) = (id, lose_operation op) ∷ lose_operations ops

unfoldable pub lose_write : Option SettingsWrite → Option SettingsWrite
lose_write none = none
lose_write (some w) = some (if is_pending w.outcome then record w { outcome = unknown } else w)

unfoldable pub change_owner_epoch : Policy → Text → Result PolicyError Policy
change_owner_epoch s owner_epoch = do
  throw_if (is_empty owner_epoch || owner_epoch === s.owner_epoch) new_epoch_required
  ok (record s {
    owner_epoch = owner_epoch;
    epoch_generation = s.epoch_generation + 1;
    revision = negsuc 0;
    serial = s.serial + 1;
    settings = none;
    idle = false;
    observed_busy = false;
    operations = lose_operations s.operations;
    settings_write = lose_write s.settings_write;
  })

abbrev pub outcome_of : Option SettingsWrite → Option Outcome
outcome_of none = none
outcome_of (some w) = some w.outcome

unfoldable pub status : Policy → Status
unfolding is_unresolved
status s = record {
  task_id = s.task_id;
  owner_epoch = s.owner_epoch;
  revision = s.revision;
  locked =
      not (is_none s.lock_settings)
      || not (length s.operations == 0)
      || not (is_none s.settings_write)
      || s.observed_busy
      || s.foreign
      || s.poisoned;
  unresolved_count = length (keep (λ e. is_unresolved e.1) s.operations);
  settings_write_outcome = outcome_of s.settings_write;
  foreign = s.foreign;
  poisoned = s.poisoned;
}
