-- ===== src/Tests/Policy.antt =====
-- src/codex/homogeneous-queue-policy.ts: concrete runs.
use vkodex.Prelude.{
  ◌≡◌, ◌≤◌, refl, true, false, some, List, [], ◌∷◌, ok, err, arith, all, any, keep,
}
use vkodex.Prelude.Int.{pos, ◌<ℤ◌}
use vkodex.Prelude.JsText.{Text, codes, ◌===◌, text_le}
use vkodex.Prelude.JsMap
use vkodex.Prelude.JsMap.{includes, has_duplicate}
use vkodex.Json.{
  Value, null, str, arr, obj, nil, cons, end, field, visit, insert_field, unsafe_key, keys, prop,
}
use vkodex.Json.Print.{stringify}
use vkodex.Json.Keys.{key_le}
use vkodex.QueuePolicy.Validation.{PolicyError, stale_ticket, valid_settings, valid_ids}
use vkodex.QueuePolicy.Types.{
  accepted, pending, QueueObservation, ObservationTicket, QueueAddTicket, SettingsChangeTicket,
  ReserveAddRequest, Operation, Policy,
}
use vkodex.QueuePolicy.Admission.{
  fresh, new, begin_observation, check_ticket, change_owner_epoch, lose_operation, lose_operations,
  lose_write, is_unresolved, reserve_add, record_add_outcome, record_settings_outcome,
}
use vkodex.QueuePolicy.Observe.{
  observe, check_observation, absorb, clear_settled, is_drained, known_ticket, is_contradictory,
  confirm_write, mark_all_terminal,
}
use vkodex.QueuePolicy.Run.{Call, begin, observe_call, add, epoch, run, reservations}
use vkodex.QueuePolicy.Invariant.{IsCoherent, policy-IsCoherent}
use vkodex.QueuePolicy.Issued.{numbers, count_down}
use vkodex.QueuePolicy.Stranded.{epoch_change_freezes}
use vkodex.QueuePolicy.Tickets.{observe_once, observation_is_current, epoch_change_voids_tickets}

abbrev settings : Value
settings = obj (
    field (codes "cwd") (str (codes "/w")) (
      field (codes "runtimeWorkspaceRoots") (arr (cons (str (codes "/w")) nil)) (
        field (codes "approvalPolicy") (str (codes "never")) (
          field (codes "approvalsReviewer") null (
            field (codes "permissions") null (
              field (codes "sandboxPolicy") (obj end) (
                field (codes "model") (str (codes "m")) (
                  field (codes "serviceTier") null (
                    field (codes "effort") null (
                      field (codes "summary") null (
                        field (codes "collaborationMode") null
                          (field (codes "personality") null end))))))))))))

abbrev task : Text
task = codes "task"

abbrev owner : Text
owner = codes "owner"

abbrev observation : QueueObservation
observation = record {
  task_id = task;
  owner_epoch = owner;
  revision = pos 1;
  complete = true;
  serialized = true;
  effective_settings = settings;
  queue_client_ids = [];
  active_client_ids = [];
  terminal_client_ids = [];
  idle = true;
}

abbrev first_ticket : ObservationTicket
first_ticket = record {
  task_id = task;
  owner_epoch = owner;
  epoch_generation = 0;
  serial = 0;
  sequence = 1;
  identity = 1;
}

abbrev request : ReserveAddRequest
request = record {
  owner_epoch = owner;
  client_user_message_id = codes "client";
  input =
      cons
        (obj (
          field (codes "type") (str (codes "text"))
            (field (codes "text") (str (codes "hello")) end)))
        nil;
  effective_settings = settings;
}

abbrev calls : List Call
calls = begin ∷ observe_call first_ticket observation ∷ add request ∷ epoch (codes "next") ∷ []

abbrev started : Policy
started = fresh task owner

creates : new task owner ≡ ok started
unfolding new
creates = refl

policy-IsCoherent_example :
    IsCoherent (run started calls) (reservations started [] calls)
    × (numbers started [] calls ≡ count_down (run started calls).next_ticket)
policy-IsCoherent_example = policy-IsCoherent task owner calls {s = started} creates

-- A policy that holds one pending addition, and what it is after a change of the owner.
abbrev held : Operation
held = record {
  owner_epoch = owner;
  epoch_generation = 0;
  outcome = pending;
  terminal = false;
  sequence = 2;
}

abbrev holding : Policy
holding = record (fresh task owner) {
  next_ticket = 2;
  operations = (codes "client", held) ∷ [];
  used_ids = codes "client" ∷ [];
  lock_settings = some (codes "{}");
}

abbrev moved : Policy
moved = record (fresh task owner) {
  owner_epoch = codes "next";
  epoch_generation = 1;
  serial = 1;
  next_ticket = 2;
  operations = (codes "client", lose_operation held) ∷ [];
  used_ids = codes "client" ∷ [];
  lock_settings = some (codes "{}");
}

moves : change_owner_epoch holding (codes "next") ≡ ok moved
unfolding change_owner_epoch lose_operations lose_write fresh ◌===◌
moves = refl

holds : JsMap.get holding.operations (codes "client") ≡ some held
unfolding JsMap.get ◌===◌
holds = refl

pends : is_unresolved held ≡ true
unfolding is_unresolved
pends = refl

epoch_change_freezes_example :
    (JsMap.get (run moved calls).operations (codes "client") ≡ some (lose_operation held))
    × (is_unresolved (lose_operation held) ≡ true)
    × (x : PolicyError) × (reserve_add (run moved calls) request ≡ err x)
unfolding fresh
epoch_change_freezes_example =
    epoch_change_freezes holding (codes "next") (codes "client") held calls request {s' = moved}
      holds pends (omega arith) moves

abbrev add_ticket : QueueAddTicket
add_ticket = record {
  task_id = task;
  owner_epoch = owner;
  epoch_generation = 0;
  client_user_message_id = codes "client";
  sequence = 2;
}

abbrev settings_ticket : SettingsChangeTicket
settings_ticket = record { task_id = task; owner_epoch = owner; epoch_generation = 0; sequence = 3 }

epoch_change_voids_tickets_example :
    (observe (run moved calls) first_ticket observation ≡ err stale_ticket)
    × (record_add_outcome (run moved calls) add_ticket accepted ≡ err stale_ticket)
    × (record_settings_outcome (run moved calls) settings_ticket accepted ≡ err stale_ticket)
unfolding fresh
epoch_change_voids_tickets_example =
    epoch_change_voids_tickets holding (codes "next") calls first_ticket observation add_ticket
      settings_ticket accepted {s' = moved} moves (omega arith) (omega arith) (omega arith)

-- The canonical text of the settings.
abbrev settings_text : Text
settings_text =
    codes
      "{\"approvalPolicy\":\"never\",\"approvalsReviewer\":null,\"collaborationMode\":null,\"cwd\":\"/w\",\"effort\":null,\"model\":\"m\",\"permissions\":null,\"personality\":null,\"runtimeWorkspaceRoots\":[\"/w\"],\"sandboxPolicy\":{},\"serviceTier\":null,\"summary\":null}"

canonical_settings : valid_settings settings ≡ ok settings_text
unfolding valid_settings visit insert_field unsafe_key keys prop stringify key_le text_le ◌===◌ all
    any
canonical_settings = refl

abbrev observed : Policy
observed = record (fresh task owner) {
  revision = pos 1;
  idle = true;
  next_ticket = 1;
  settings = some settings_text;
}

observes : observe (begin_observation started).0 first_ticket observation ≡ ok observed
unfolding observe check_observation absorb clear_settled is_drained begin_observation fresh
    valid_ids confirm_write mark_all_terminal check_ticket known_ticket is_contradictory includes
    has_duplicate valid_settings visit insert_field unsafe_key keys prop stringify key_le text_le
    ◌===◌ all any keep
observes = refl

issued : first_ticket.identity ≤ (begin_observation started).0.next_ticket
unfolding begin_observation fresh
issued = omega arith

observes_now :
    observe (run (begin_observation started).0 []) (begin_observation started).1 observation
    ≡ ok observed
unfolding begin_observation fresh run
observes_now = observes

observe_once_example :
    (observed.revision ≡ pos 1)
    × ((begin_observation started).0.revision <ℤ pos 1)
    × ((x : PolicyError) × (observe (run observed calls) first_ticket observation ≡ err x))
observe_once_example =
    observe_once (begin_observation started).0 first_ticket observation observation calls
      {s' = observed} issued observes

observation_is_current_example :
    ((run (begin_observation started).0 []).used_ids ≡ started.used_ids)
    × ((run (begin_observation started).0 []).epoch_generation ≡ started.epoch_generation)
observation_is_current_example =
    observation_is_current started [] observation {s' = observed} observes_now
