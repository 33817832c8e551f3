-- ===== src/QueuePolicy/Invariant.antt =====
-- src/codex/homogeneous-queue-policy.ts: what holds of a policy after any calls. The log is the list
-- of the additions reserved so far (`reservations`).

use vkodex.Prelude.{
  ℕ, ◌+◌, ◌≤◌, ◌≡◌, refl, sym, ◌∙◌, ap, subst, Bool, true, false, Option, none, some, List, [], ◌∷◌,
  ◌++◌, map, ◌⊎◌, inl, inr, arith, if◌then◌else◌, is_none, Result, ok, err, ◌>>◌, Result-cases,
}
use vkodex.Prelude.Int.{negsuc}
use vkodex.Prelude.JsText.{Text, ===_refl}
use vkodex.Prelude.JsMap
use vkodex.Prelude.JsMap.{
  JsMap, includes, has_duplicate, AllEntries, AllEntries-get, AllEntries-set, AllEntries-map,
}
use vkodex.QueuePolicy.Validation.{PolicyError}
use vkodex.QueuePolicy.Types.{
  Outcome, pending, ObservationTicket, QueueAddTicket, SettingsChangeTicket, QueueObservation,
  ReserveAddRequest, Operation, SettingsWrite, Policy,
}
use vkodex.QueuePolicy.Admission.{
  new, begin_observation, check_add, admit, reserve_add, set_outcome, record_add_outcome,
  start_write, set_write_outcome, record_settings_outcome, lose_operations, lose_write,
  change_owner_epoch, check_ticket, fresh,
}
use vkodex.QueuePolicy.Observe.{
  confirm_write, absorb, is_drained, release, clear_settled, check_observation, observe,
}
use vkodex.QueuePolicy.Run.{
  Call, begin, observe_call, add, add_outcome, settings_change, settings_outcome, epoch, state_or,
  first_or, step, run, log_add, log_step, reservations,
}
use vkodex.QueuePolicy.Issued.{numbers, count_down, run-numbers}
use vkodex.QueuePolicy.Entries.{
  is_nil, length-is_nil, is_nil-set, mark_all_terminal-AllEntries, mark_all_terminal-is_nil,
  lose_operations-AllEntries, lose_operations-is_nil, AllEntries-is_nil, is_nil_of_get, differs-eq,
  state_or-if, state_or-throw, first_or-if, first_or-settings_change,
}

abbrev pub Log : Type 0
Log = List (Text × Text)

-- What an operation is held to: its reservation is in the log under the settings of the lock, and
-- its numbers are not ahead of the policy's.
abbrev pub Entry : Log → Option Text → ℕ → ℕ → Text → Operation → Type 0
Entry log lock n generation id op =
    (JsMap.get log id ≡ lock) × (op.sequence ≤ n) × (op.epoch_generation ≤ generation)

pub record IsCoherent (s : Policy) (log : Log) : Type 0 where
  pub logged : s.used_ids ≡ map (λ e. e.0) log
  pub distinct : has_duplicate s.used_ids ≡ false
  pub entries : AllEntries (Entry log s.lock_settings s.next_ticket s.epoch_generation) s.operations
  pub locked : is_none s.lock_settings ≡ is_nil s.operations
  pub exclusive : is_none s.settings_write ≡ false → is_nil s.operations ≡ true

-- What an admitted addition has passed.
record Admitted (s : Policy) (r : ReserveAddRequest) (requested : Text) : Type 0 where
  fresh : includes s.used_ids r.client_user_message_id ≡ false
  no_write : is_none s.settings_write ≡ true
  same_lock : (s.lock_settings ≡ none) ⊎ (s.lock_settings ≡ some requested)

check_add-Admitted :
    (s : Policy) (r : ReserveAddRequest) {requested : Text}
    → check_add s r ≡ ok requested
    → Admitted s r requested
unfolding check_add
check_add-Admitted s r {requested} h = ground (arith, differs-eq s.lock_settings requested)

-- Under a new reservation the entries still agree with the lock.
admit-entries :
    (s : Policy) (r : ReserveAddRequest) (requested : Text) (log : Log)
    → IsCoherent s log
    → (s.lock_settings ≡ none) ⊎ (s.lock_settings ≡ some requested)
    → AllEntries
        (Entry
          ((r.client_user_message_id, requested) ∷ log)
          (some requested)
          (s.next_ticket + 1)
          s.epoch_generation)
        s.operations
unfolding JsMap.get
admit-entries s r requested log h (inl free) =
    AllEntries-is_nil _ s.operations (ground (arith, h.locked))
admit-entries s r requested log h (inr same) =
    AllEntries-map _ _ s.operations (λ k op p. (ground arith, omega arith, p.2)) h.entries

admit-IsCoherent :
    (s : Policy) (r : ReserveAddRequest) (requested : Text) (log : Log)
    → IsCoherent s log
    → Admitted s r requested
    → IsCoherent (admit s r requested).0 ((r.client_user_message_id, requested) ∷ log)
unfolding admit has_duplicate JsMap.get
admit-IsCoherent s r requested log h a = record {
  logged = ap (◌∷◌ r.client_user_message_id) h.logged;
  distinct = ground (arith, a.fresh, h.distinct);
  entries =
      AllEntries-set _ _ _ _ (rw ===_refl refl, omega arith, omega arith)
        (admit-entries s r requested log h a.same_lock);
  locked = sym (is_nil-set _ _ _);
  exclusive = ground (arith, a.no_write);
}

reserve_add-IsCoherent :
    (s : Policy) (r : ReserveAddRequest) (log : Log)
    → IsCoherent s log
    → IsCoherent (first_or s (reserve_add s r)) (log_add r (check_add s r) ++ log)
unfolding reserve_add
reserve_add-IsCoherent s r log h = elim (Result-cases (check_add s r)) [
  | inl (requested, e) ↦ rw e (admit-IsCoherent s r requested log h (check_add-Admitted s r e))
  | inr (x, e) ↦ rw e h
]

-- A change that keeps the IDs, the lock and the emptiness of the operations.
IsCoherent-change :
    (s s' : Policy) (log : Log)
    → IsCoherent s log
    → s'.used_ids ≡ s.used_ids
    → s'.lock_settings ≡ s.lock_settings
    → is_nil s'.operations ≡ is_nil s.operations
    → AllEntries (Entry log s'.lock_settings s'.next_ticket s'.epoch_generation) s'.operations
    → (is_none s'.settings_write ≡ false → is_nil s.operations ≡ true)
    → IsCoherent s' log
IsCoherent-change s s' log h ids lock nil entries write = record {
  logged = ids ∙ h.logged;
  distinct = ap has_duplicate ids ∙ h.distinct;
  entries = entries;
  locked = ground (arith, h.locked);
  exclusive = λ w. nil ∙ write w;
}

set_outcome-IsCoherent :
    (s : Policy) (t : QueueAddTicket) (o : Outcome) (log : Log) (found : Option Operation)
    → JsMap.get s.operations t.client_user_message_id ≡ found
    → IsCoherent s log
    → IsCoherent (state_or s (set_outcome s t o found)) log
unfolding set_outcome
set_outcome-IsCoherent s t o log none e h = h
set_outcome-IsCoherent s t o log (some op) e h =
    let id = t.client_user_message_id in
    let op' : Operation = record op { outcome = o } in
    let s' : Policy = record s {
      operations = JsMap.set s.operations id op';
      serial = s.serial + 1;
    } in
    state_or-if (λ x. IsCoherent x log) _ _ s s' h
      (IsCoherent-change s s' log h refl refl
        (is_nil-set s.operations id op' ∙ sym (is_nil_of_get s.operations id e))
        (AllEntries-set _ s.operations id op' (AllEntries-get _ s.operations id h.entries e)
          h.entries)
        h.exclusive)

-- A ticket number is issued.
entries-issue :
    (s : Policy) (log : Log)
    → IsCoherent s log
    → AllEntries (Entry log s.lock_settings (s.next_ticket + 1) s.epoch_generation) s.operations
entries-issue s log h =
    AllEntries-map _ _ s.operations (λ k op p. (p.0, omega arith, p.2)) h.entries

start_write-IsCoherent :
    (s : Policy) (e d : Text) (log : Log) (current : Option Text)
    → IsCoherent s log
    → IsCoherent (first_or s (start_write s e d current)) log
unfolding start_write
start_write-IsCoherent s e d log none h = h
start_write-IsCoherent s e d log (some p) h =
    let n = s.next_ticket + 1 in
    let w : SettingsWrite = record { sequence = n; previous = p; desired = d; outcome = pending } in
    let s' : Policy = record s {
      next_ticket = n;
      serial = s.serial + 1;
      settings_write = some w;
    } in
    first_or-if (λ x. IsCoherent x log) _ _ s s' _ h
      λ frozen.
        IsCoherent-change s s' log h refl refl refl (entries-issue s log h)
          (λ _. ground (arith, length-is_nil s.operations))

set_write_outcome-IsCoherent :
    (s : Policy) (t : SettingsChangeTicket) (o : Outcome) (log : Log) (found : Option SettingsWrite)
    → s.settings_write ≡ found
    → IsCoherent s log
    → IsCoherent (state_or s (set_write_outcome s t o found)) log
unfolding set_write_outcome
set_write_outcome-IsCoherent s t o log none e h = h
set_write_outcome-IsCoherent s t o log (some w) e h =
    let s' : Policy = record s {
      settings_write = some (record w { outcome = o });
      serial = s.serial + 1;
    } in
    state_or-if (λ x. IsCoherent x log) _ _ s s' h
      (IsCoherent-change s s' log h refl refl refl h.entries (λ _. h.exclusive (ap is_none e)))

lose_write-is_none : (w : Option SettingsWrite) → is_none (lose_write w) ≡ false → is_none w ≡ false
unfolding lose_write
lose_write-is_none none h = h
lose_write-is_none (some w) h = refl

change_owner_epoch-IsCoherent :
    (s : Policy) (e : Text) (log : Log)
    → IsCoherent s log
    → IsCoherent (state_or s (change_owner_epoch s e)) log
unfolding change_owner_epoch
change_owner_epoch-IsCoherent s e log h =
    let s' : Policy = record s {
      owner_epoch = e;
      epoch_generation = s.epoch_generation + 1;
      revision = negsuc 0;
      serial = s.serial + 1;
      settings = none;
      idle = false;
      observed_busy = false;
      operations = lose_operations s.operations;
      settings_write = lose_write s.settings_write;
    } in
    state_or-throw (λ x. IsCoherent x log) _ _ s s' h
      (IsCoherent-change s s' log h refl refl (lose_operations-is_nil s.operations)
        (lose_operations-AllEntries _ (λ k op p. p) s.operations
          (AllEntries-map _ _ s.operations (λ k op p. (p.0, p.1, omega arith)) h.entries))
        (λ w. h.exclusive (lose_write-is_none s.settings_write w)))

confirm_write-is_none :
    (w : Option SettingsWrite) (t : Text) (b : Bool)
    → is_none (confirm_write w t b) ≡ false
    → is_none w ≡ false
unfolding confirm_write
confirm_write-is_none none t b h = h
confirm_write-is_none (some w) t b h = refl

absorb-IsCoherent :
    (s : Policy) (o : QueueObservation) (t : Text) (log : Log)
    → IsCoherent s log
    → IsCoherent (absorb s o t) log
unfolding absorb
absorb-IsCoherent s o t log h =
    IsCoherent-change s _ log h refl refl
      (mark_all_terminal-is_nil s o.terminal_client_ids s.operations)
      (mark_all_terminal-AllEntries _ (λ k op p. p) s o.terminal_client_ids s.operations h.entries)
      (λ w. h.exclusive (confirm_write-is_none s.settings_write t _ w))

IsCoherent-if :
    (b : Bool) (s s' : Policy) (log : Log)
    → IsCoherent s log
    → IsCoherent s' log
    → IsCoherent (if b then s else s') log
IsCoherent-if true s s' log h h' = h
IsCoherent-if false s s' log h h' = h'

clear_settled-IsCoherent :
    (s : Policy) (o : QueueObservation) (log : Log)
    → IsCoherent s log
    → IsCoherent (clear_settled s o) log
unfolding clear_settled
clear_settled-IsCoherent s o log h =
    IsCoherent-if (is_drained s o) (release s) s log
      (record {
        logged = h.logged;
        distinct = h.distinct;
        entries = tt;
        locked = refl;
        exclusive = λ _. refl;
      })
      h

observe-IsCoherent :
    (s : Policy) (t : ObservationTicket) (o : QueueObservation) (log : Log)
    → IsCoherent s log
    → IsCoherent (state_or s (observe s t o)) log
unfolding observe
observe-IsCoherent s t o log h = elim (Result-cases (check_observation s t o)) [
  | inl (observed, e) ↦
      rw e (clear_settled-IsCoherent _ o log (absorb-IsCoherent _ o observed log (drop h _)))
  | inr (x, e) ↦ rw e h
]
  where
    drop :
        IsCoherent s log → (ids : List ℕ) → IsCoherent (record s { observation_tickets = ids }) log
    drop h ids = record {
      logged = h.logged;
      distinct = h.distinct;
      entries = h.entries;
      locked = h.locked;
      exclusive = h.exclusive;
    }

begin_observation-IsCoherent :
    (s : Policy) (log : Log) → IsCoherent s log → IsCoherent (begin_observation s).0 log
unfolding begin_observation
begin_observation-IsCoherent s log h =
    IsCoherent-change s _ log h refl refl refl (entries-issue s log h) h.exclusive

-- A check that throws leaves the object as it was.
after_check-IsCoherent :
    (c : Result PolicyError (Unit {0})) (s : Policy) (r : Result PolicyError Policy) (log : Log)
    → IsCoherent s log
    → IsCoherent (state_or s r) log
    → IsCoherent (state_or s (c >> r)) log
after_check-IsCoherent (ok u) s r log h h' = h'
after_check-IsCoherent (err x) s r log h h' = h

-- Every call keeps the invariant, whether it throws or not.
pub step-IsCoherent :
    (s : Policy) (c : Call) (log : Log)
    → IsCoherent s log
    → IsCoherent (step s c) (log_step s c ++ log)
unfolding step log_step record_add_outcome record_settings_outcome
step-IsCoherent s begin log h = begin_observation-IsCoherent s log h
step-IsCoherent s (observe_call t o) log h = observe-IsCoherent s t o log h
step-IsCoherent s (add r) log h = reserve_add-IsCoherent s r log h
step-IsCoherent s (add_outcome t o) log h =
    after_check-IsCoherent (check_ticket s t.task_id t.owner_epoch t.epoch_generation) s
      (set_outcome s t o (JsMap.get s.operations t.client_user_message_id)) log h
      (set_outcome-IsCoherent s t o log _ refl h)
step-IsCoherent s (settings_change e v) log h =
    first_or-settings_change (λ x. IsCoherent x log) s e v h
      (λ d. start_write-IsCoherent s e d log s.settings h)
step-IsCoherent s (settings_outcome t o) log h =
    after_check-IsCoherent (check_ticket s t.task_id t.owner_epoch t.epoch_generation) s
      (set_write_outcome s t o s.settings_write) log h
      (set_write_outcome-IsCoherent s t o log _ refl h)
step-IsCoherent s (epoch e) log h = change_owner_epoch-IsCoherent s e log h

pub run-IsCoherent :
    (s : Policy) (cs : List Call) (log : Log)
    → IsCoherent s log
    → IsCoherent (run s cs) (reservations s log cs)
unfolding run reservations
run-IsCoherent s [] log h = h
run-IsCoherent s (c ∷ cs) log h =
    run-IsCoherent (step s c) cs (log_step s c ++ log) (step-IsCoherent s c log h)

fresh-IsCoherent : (task owner : Text) → IsCoherent (fresh task owner) []
unfolding fresh has_duplicate
fresh-IsCoherent task owner = record {
  logged = refl;
  distinct = refl;
  entries = tt;
  locked = refl;
  exclusive = λ _. refl;
}

new-eq-ok : (task owner : Text) {s : Policy} → new task owner ≡ ok s → s ≡ fresh task owner
unfolding new
new-eq-ok task owner e = ground arith

-- After any calls on a new policy, refused ones included: no client ID was ever reserved twice;
-- every operation that is held was reserved under the one canonical settings text of the lock; there
-- is a lock exactly when operations are held; the ticket number and the generation of a held operation
-- are not ahead of the policy's; a settings change is never in flight while an operation is held; and
-- the tickets that were issued, of all three kinds, are numbered 1, 2, 3 and so on up to the policy's
-- last number, without a gap or a repetition.
pub policy-IsCoherent :
    (task owner : Text) (cs : List Call) {s : Policy}
    → new task owner ≡ ok s
    → IsCoherent (run s cs) (reservations s [] cs)
      × (numbers s [] cs ≡ count_down (run s cs).next_ticket)
unfolding fresh count_down
policy-IsCoherent task owner cs {s} e =
    subst
      (λ x.
        IsCoherent (run x cs) (reservations x [] cs)
        × (numbers x [] cs ≡ count_down (run x cs).next_ticket))
      (sym (new-eq-ok task owner e))
      (
        run-IsCoherent (fresh task owner) cs [] (fresh-IsCoherent task owner),
        run-numbers (fresh task owner) [] cs refl,
      )
