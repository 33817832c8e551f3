-- ===== src/QueuePolicy/Tickets.antt =====
-- src/codex/homogeneous-queue-policy.ts: tickets, their use and their age.
use vkodex.Prelude.{
  ℕ, ◌+◌, ◌≤◌, ◌<◌, ◌≡◌, refl, ◌∙◌, false, not, List, [], ◌∷◌, ◌==◌, inl, inr, arith, any, ok, err,
  Result-cases, keep,
}
use vkodex.Prelude.Int.{◌<ℤ◌}
use vkodex.Prelude.JsText.{Text}
use vkodex.QueuePolicy.Validation.{PolicyError, stale_ticket, reused_ticket}
use vkodex.QueuePolicy.Types.{
  Outcome, ObservationTicket, QueueAddTicket, SettingsChangeTicket, QueueObservation, Policy,
}
use vkodex.QueuePolicy.Admission.{
  begin_observation, admit, reserve_add, set_outcome, record_add_outcome, start_write,
  reserve_settings_change, set_write_outcome, record_settings_outcome, change_owner_epoch,
  check_ticket,
}
use vkodex.QueuePolicy.Observe.{absorb, clear_settled, check_observation, observe, known_ticket}
use vkodex.QueuePolicy.Run.{
  Call, begin, observe_call, add, add_outcome, settings_change, settings_outcome, epoch, state_or,
  step, run,
}

-- The ticket object `i` has been issued and is no longer in the set.
record IsSpent (i : ℕ) (s : Policy) : Type 0 where
  unknown_ticket : known_ticket s.observation_tickets i ≡ false
  issued : i ≤ s.next_ticket

known_ticket-keep :
    (ids : List ℕ) (i j : ℕ)
    → known_ticket ids i ≡ false
    → known_ticket (keep (λ k. not (k == j)) ids) i ≡ false
unfolding known_ticket any keep
known_ticket-keep [] i j h = refl
known_ticket-keep (k ∷ ids) i j h = ground (arith, known_ticket-keep ids i j)

known_ticket-keep_self :
    (ids : List ℕ) (i : ℕ) → known_ticket (keep (λ k. not (k == i)) ids) i ≡ false
unfolding known_ticket any keep
known_ticket-keep_self [] i = refl
known_ticket-keep_self (k ∷ ids) i = ground (arith, known_ticket-keep_self ids i)

observe-step-IsSpent :
    (i : ℕ) (s : Policy) (t : ObservationTicket) (o : QueueObservation)
    → IsSpent i s
    → IsSpent i (state_or s (observe s t o))
unfolding observe absorb clear_settled
observe-step-IsSpent i s t o h =
    ground (arith, known_ticket-keep s.observation_tickets i t.identity)

step-IsSpent : (i : ℕ) (s : Policy) (c : Call) → IsSpent i s → IsSpent i (step s c)
unfolding step begin_observation reserve_add admit record_add_outcome set_outcome
    record_settings_outcome set_write_outcome reserve_settings_change start_write change_owner_epoch
    known_ticket any
step-IsSpent i s begin h = ground arith
step-IsSpent i s (observe_call t o) h = observe-step-IsSpent i s t o h
step-IsSpent i s (add r) h = ground arith
step-IsSpent i s (add_outcome t o) h = ground arith
step-IsSpent i s (settings_change e v) h = ground arith
step-IsSpent i s (settings_outcome t o) h = ground arith
step-IsSpent i s (epoch e) h = ground arith

run-IsSpent : (i : ℕ) (s : Policy) (cs : List Call) → IsSpent i s → IsSpent i (run s cs)
unfolding run
run-IsSpent i s [] h = h
run-IsSpent i s (c ∷ cs) h = run-IsSpent i (step s c) cs (step-IsSpent i s c h)

observe-spends :
    (s : Policy) (t : ObservationTicket) (o : QueueObservation) {s' : Policy}
    → t.identity ≤ s.next_ticket
    → observe s t o ≡ ok s'
    → IsSpent t.identity s'
unfolding observe absorb clear_settled
observe-spends s t o issued e =
    ground (arith, known_ticket-keep_self s.observation_tickets t.identity)

spent-refused :
    (s : Policy) (t : ObservationTicket) (o : QueueObservation)
    → IsSpent t.identity s
    → (x : PolicyError) × (observe s t o ≡ err x)
unfolding observe check_observation
spent-refused s t o h =
    elim (Result-cases (check_ticket s t.task_id t.owner_epoch t.epoch_generation)) [
      | inl (u, e) ↦ (reused_ticket, ground arith)
      | inr (x, e) ↦ (x, rw e)
    ]

revision-observe :
    (s : Policy) (t : ObservationTicket) (o : QueueObservation) {s' : Policy}
    → observe s t o ≡ ok s'
    → (s'.revision ≡ o.revision) × (s.revision <ℤ o.revision)
unfolding observe absorb clear_settled check_observation
revision-observe s t o e = ground arith

-- An admitted observation has a higher revision than the policy had, and becomes its revision; and
-- its ticket, which the policy had issued, is never admitted again, whatever is called in between.
pub observe_once :
    (s : Policy) (t : ObservationTicket) (o o' : QueueObservation) (cs : List Call) {s' : Policy}
    → t.identity ≤ s.next_ticket
    → observe s t o ≡ ok s'
    → (s'.revision ≡ o.revision)
      × (s.revision <ℤ o.revision)
      × ((x : PolicyError) × (observe (run s' cs) t o' ≡ err x))
observe_once s t o o' cs {s'} issued e =
    let (now, before) = revision-observe s t o e in
    (
      now,
      before,
      spent-refused (run s' cs) t o' (run-IsSpent t.identity s' cs (observe-spends s t o issued e)),
    )

-- How far a policy has moved: the serial only grows, and where it has not grown nothing was
-- reserved and the owner is the same.
record IsLater (s s' : Policy) : Type 0 where
  serial_le : s.serial ≤ s'.serial
  generation_le : s.epoch_generation ≤ s'.epoch_generation
  same_ids : s'.serial ≡ s.serial → s'.used_ids ≡ s.used_ids
  same_generation : s'.serial ≡ s.serial → s'.epoch_generation ≡ s.epoch_generation

IsLater-trans : (s s' s'' : Policy) → IsLater s s' → IsLater s' s'' → IsLater s s''
IsLater-trans s s' s'' h k = record {
  serial_le = omega (arith, h.serial_le, k.serial_le);
  generation_le = omega (arith, h.generation_le, k.generation_le);
  same_ids = λ e.
      k.same_ids (omega (arith, h.serial_le, k.serial_le))
      ∙ h.same_ids (omega (arith, h.serial_le, k.serial_le));
  same_generation = λ e.
      k.same_generation (omega (arith, h.serial_le, k.serial_le))
      ∙ h.same_generation (omega (arith, h.serial_le, k.serial_le));
}

observe-IsLater :
    (s : Policy) (t : ObservationTicket) (o : QueueObservation)
    → IsLater s (state_or s (observe s t o))
unfolding observe absorb clear_settled
observe-IsLater s t o = ground arith

step-IsLater : (s : Policy) (c : Call) → IsLater s (step s c)
unfolding step begin_observation reserve_add admit record_add_outcome set_outcome
    record_settings_outcome set_write_outcome reserve_settings_change start_write change_owner_epoch
step-IsLater s begin = ground arith
step-IsLater s (observe_call t o) = observe-IsLater s t o
step-IsLater s (add r) = ground arith
step-IsLater s (add_outcome t o) = ground arith
step-IsLater s (settings_change e v) = ground arith
step-IsLater s (settings_outcome t o) = ground arith
step-IsLater s (epoch e) = ground arith

run-IsLater : (s : Policy) (cs : List Call) → IsLater s (run s cs)
unfolding run
run-IsLater s [] = ground arith
run-IsLater s (c ∷ cs) =
    IsLater-trans s (step s c) (run (step s c) cs) (step-IsLater s c) (run-IsLater (step s c) cs)

serial-observe :
    (s : Policy) (t : ObservationTicket) (o : QueueObservation) {s' : Policy}
    → observe s t o ≡ ok s'
    → s.serial ≡ t.serial
unfolding observe check_observation
serial-observe s t o e = ground arith

-- If a snapshot whose ticket was drawn in `s` is admitted after further calls, then none of them
-- reserved an addition or changed the owner: no snapshot that a reservation overtook is taken in.
pub observation_is_current :
    (s : Policy) (cs : List Call) (o : QueueObservation) {s' : Policy}
    → observe (run (begin_observation s).0 cs) (begin_observation s).1 o ≡ ok s'
    → ((run (begin_observation s).0 cs).used_ids ≡ s.used_ids)
      × ((run (begin_observation s).0 cs).epoch_generation ≡ s.epoch_generation)
unfolding begin_observation
observation_is_current s cs o e =
    let (s1, t) = begin_observation s in
    let later = run-IsLater s1 cs in
    let serial = serial-observe (run s1 cs) t o e in
    (later.same_ids serial, later.same_generation serial)

stale_ticket_refused :
    (s : Policy) (task owner : Text) (g : ℕ)
    → g < s.epoch_generation
    → check_ticket s task owner g ≡ err stale_ticket
unfolding check_ticket
stale_ticket_refused s task owner g h = ground arith

change_owner_epoch-generation :
    (s : Policy) (e : Text) {s' : Policy}
    → change_owner_epoch s e ≡ ok s'
    → s'.epoch_generation ≡ s.epoch_generation + 1
unfolding change_owner_epoch
change_owner_epoch-generation s e h = ground arith

-- After a change of the owner epoch, and any further calls (which may change it back), every ticket
-- that was issued before is stale: its observation, its addition's outcome and its settings change's
-- outcome are all refused.
pub epoch_change_voids_tickets :
    (s : Policy) (e : Text) (cs : List Call) (t : ObservationTicket) (o : QueueObservation)
    (a : QueueAddTicket) (w : SettingsChangeTicket) (outcome : Outcome) {s' : Policy}
    → change_owner_epoch s e ≡ ok s'
    → t.epoch_generation ≤ s.epoch_generation
    → a.epoch_generation ≤ s.epoch_generation
    → w.epoch_generation ≤ s.epoch_generation
    → (observe (run s' cs) t o ≡ err stale_ticket)
      × (record_add_outcome (run s' cs) a outcome ≡ err stale_ticket)
      × (record_settings_outcome (run s' cs) w outcome ≡ err stale_ticket)
unfolding observe check_observation record_add_outcome record_settings_outcome
epoch_change_voids_tickets s e cs t o a w outcome {s'} changed ht ha hw =
    let g = change_owner_epoch-generation s e changed in
    let later = (run-IsLater s' cs).generation_le in
    (
      rw (
          stale_ticket_refused (run s' cs) t.task_id t.owner_epoch t.epoch_generation
            (omega arith)),
      rw (
          stale_ticket_refused (run s' cs) a.task_id a.owner_epoch a.epoch_generation
            (omega arith)),
      rw (
          stale_ticket_refused (run s' cs) w.task_id w.owner_epoch w.epoch_generation
            (omega arith)),
    )
