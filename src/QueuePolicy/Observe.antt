-- ===== src/QueuePolicy/Observe.antt =====
-- src/codex/homogeneous-queue-policy.ts: `observe`, which takes in a complete, serialized snapshot
-- of the native queue. A refused observation is `err`, and the object is then as it was.
use vkodex.Prelude.{
  ℕ, Bool, true, not, ◌&&◌, ◌||◌, Option, none, some, List, [], ◌∷◌, ◌++◌, ◌==◌, if◌then◌else◌,
  is_none, any, all, keep, length, Result, ok, ◌>>=◌, ◌>>◌, throw_if,
}
use vkodex.Prelude.Int.{leb_ℤ, is_safe_integer}
use vkodex.Prelude.JsText.{Text, ◌===◌}
use vkodex.Prelude.JsMap
use vkodex.Prelude.JsMap.{JsMap, includes}
use vkodex.QueuePolicy.Validation.{
  PolicyError, reused_ticket, stale_observation, contradictory_state, valid_settings, valid_ids,
}
use vkodex.QueuePolicy.Types.{
  is_rejected, is_unknown, is_accepted, QueueObservation, ObservationTicket, Operation,
  SettingsWrite, Policy,
}
use vkodex.QueuePolicy.Admission.{check_ticket, differs}

abbrev pub nothing_runs : QueueObservation → Bool
nothing_runs o = o.idle && length o.queue_client_ids == 0 && length o.active_client_ids == 0

-- A settings write ends when the drained task shows the settings that its outcome promises.
unfoldable pub confirm_write : Option SettingsWrite → Text → Bool → Option SettingsWrite
confirm_write none observed drained = none
confirm_write (some w) observed drained =
    if (is_accepted w.outcome && observed === w.desired && drained)
      || (is_rejected w.outcome && observed === w.previous && drained)
    then none
    else some w

-- One round of the loop over the terminal IDs, after the operation is looked up.
unfoldable pub mark_found : Policy → Text → JsMap Operation → Option Operation → JsMap Operation
mark_found s id ops none = ops
mark_found s id ops (some op) =
    if op.owner_epoch === s.owner_epoch
      && op.epoch_generation == s.epoch_generation
      && not (is_rejected op.outcome)
    then JsMap.set ops id (record op { terminal = true })
    else ops

unfoldable pub mark_terminal : Policy → Text → JsMap Operation → JsMap Operation
unfolding mark_found
mark_terminal s id ops = mark_found s id ops (JsMap.get ops id)

unfoldable pub mark_all_terminal : Policy → List Text → JsMap Operation → JsMap Operation
unfolding mark_terminal
mark_all_terminal s [] ops = ops
mark_all_terminal s (id ∷ ids) ops = mark_all_terminal s ids (mark_terminal s id ops)

abbrev pub is_settled : Operation → Bool
is_settled op =
    is_rejected op.outcome || (op.terminal && (is_accepted op.outcome || is_unknown op.outcome))

-- The fields that an admitted observation replaces, before the operations may be cleared.
unfoldable pub absorb : Policy → QueueObservation → Text → Policy
absorb s o observed = record s {
  revision = o.revision;
  idle = o.idle;
  foreign = any (λ id. not (JsMap.has s.operations id)) (o.queue_client_ids ++ o.active_client_ids);
  observed_busy = not (nothing_runs o);
  poisoned = s.poisoned || differs s.lock_settings observed;
  settings_write = confirm_write s.settings_write observed (nothing_runs o);
  settings = some observed;
  operations = mark_all_terminal s o.terminal_client_ids s.operations;
}

-- Nothing is queued or runs, nothing is foreign or in doubt, and every operation is settled.
unfoldable pub is_drained : Policy → QueueObservation → Bool
is_drained s o =
    nothing_runs o
    && not s.foreign
    && not s.poisoned
    && is_none s.settings_write
    && all (λ e. is_settled e.1) s.operations

abbrev pub release : Policy → Policy
release s = record s { operations = []; lock_settings = none }

unfoldable pub clear_settled : Policy → QueueObservation → Policy
clear_settled s o = if is_drained s o then release s else s

unfoldable pub is_contradictory : List Text → List Text → List Text → Bool
is_contradictory queue active terminal =
    any (λ id. includes active id || includes terminal id) queue
    || any (λ id. includes terminal id) active

unfoldable pub known_ticket : List ℕ → ℕ → Bool
known_ticket ids i = any (λ j. j == i) ids

-- The guards of `observe`; what it returns is the canonical text of the observed settings.
unfoldable pub check_observation :
    Policy → ObservationTicket → QueueObservation → Result PolicyError Text
unfolding check_ticket is_contradictory known_ticket
check_observation s t o = do
  check_ticket s t.task_id t.owner_epoch t.epoch_generation
  throw_if (not (known_ticket s.observation_tickets t.identity)) reused_ticket
  throw_if
      (not (t.serial == s.serial)
        || not (o.task_id === s.task_id)
        || not (o.owner_epoch === s.owner_epoch)
        || not o.complete
        || not o.serialized
        || not (is_safe_integer o.revision)
        || leb_ℤ o.revision s.revision)
      stale_observation
  observed ← valid_settings o.effective_settings
  queue ← valid_ids o.queue_client_ids
  active ← valid_ids o.active_client_ids
  terminal ← valid_ids o.terminal_client_ids
  throw_if (is_contradictory queue active terminal) contradictory_state
  ok observed

unfoldable pub observe : Policy → ObservationTicket → QueueObservation → Result PolicyError Policy
observe s t o = do
  observed ← check_observation s t o
  let tickets = keep (λ j. not (j == t.identity)) s.observation_tickets
  ok (clear_settled (absorb (record s { observation_tickets = tickets }) o observed) o)
