-- ===== src/QueuePolicy/Issued.antt =====
-- src/codex/homogeneous-queue-policy.ts: the numbers of the tickets that a policy issues, the newest first.
use vkodex.Prelude.{
  ℕ, ◌+◌, ◌≡◌, refl, ◌∙◌, ap, sym, subst, List, [], ◌∷◌, ◌++◌, arith, zero, suc, Result, ok, err,
  ◌>>◌, Result-cases, inl, inr, Option, none, some,
}
use vkodex.Prelude.JsText.{Text}
use vkodex.Json.{Value}
use vkodex.QueuePolicy.Validation.{PolicyError, valid_settings}
use vkodex.QueuePolicy.Types.{
  Outcome, QueueAddTicket, SettingsChangeTicket, ObservationTicket, QueueObservation,
  ReserveAddRequest, Operation, SettingsWrite, Policy,
}
use vkodex.Prelude.JsMap
use vkodex.QueuePolicy.Admission.{
  begin_observation, check_add, admit, reserve_add, set_outcome, record_add_outcome, start_write,
  reserve_settings_change, require_epoch, set_write_outcome, record_settings_outcome,
  change_owner_epoch, check_ticket,
}
use vkodex.QueuePolicy.Observe.{absorb, clear_settled, check_observation, observe}
use vkodex.QueuePolicy.Run.{
  Call, begin, observe_call, add, add_outcome, settings_change, settings_outcome, epoch, state_or,
  first_or, step, run,
}

abbrev number_of {ℓ} : {T : Type ℓ} → (T → ℕ) → Result PolicyError (Policy × T) → List ℕ
number_of f (ok (s, t)) = f t ∷ []
number_of f (err e) = []

unfoldable pub number_step : Policy → Call → List ℕ
number_step s begin = (begin_observation s).1.sequence ∷ []
number_step s (add r) = number_of (λ t. t.sequence) (reserve_add s r)
number_step s (settings_change e v) = number_of (λ t. t.sequence) (reserve_settings_change s e v)
number_step s _ = []

unfoldable pub numbers : Policy → List ℕ → List Call → List ℕ
unfolding number_step
numbers s log [] = log
numbers s log (c ∷ cs) = numbers (step s c) (number_step s c ++ log) cs

unfoldable pub count_down : ℕ → List ℕ
count_down zero = []
count_down (suc n) = suc n ∷ count_down n

count_down-suc : (n : ℕ) → (n + 1) ∷ count_down n ≡ count_down (n + 1)
unfolding count_down
count_down-suc n =
    let e : suc n ≡ n + 1 = omega arith in subst (λ m. m ∷ count_down n ≡ count_down m) e refl

observe-next_ticket :
    (s : Policy) (t : ObservationTicket) (o : QueueObservation)
    → (state_or s (observe s t o)).next_ticket ≡ s.next_ticket
unfolding observe clear_settled absorb
observe-next_ticket s t o = ground (arith, Result-cases (check_observation s t o))

start_write-numbers :
    (s : Policy) (e d : Text) (previous : Option Text)
    → number_of (λ t. t.sequence) (start_write s e d previous) ++ count_down s.next_ticket
      ≡ count_down (first_or s (start_write s e d previous)).next_ticket
unfolding start_write
start_write-numbers s e d none = refl
start_write-numbers s e d (some p) = ground (arith, count_down-suc s.next_ticket)

reserve_settings_change-numbers :
    (s : Policy) (e : Text) (v : Value)
    → number_of (λ t. t.sequence) (reserve_settings_change s e v) ++ count_down s.next_ticket
      ≡ count_down (first_or s (reserve_settings_change s e v)).next_ticket
unfolding reserve_settings_change
reserve_settings_change-numbers s e v = elim (Result-cases (require_epoch s e)) [
  | inr (x, failed) ↦ rw failed refl
  | inl (u, passed) ↦ elim (Result-cases (valid_settings v)) [
    | inr (x, failed) ↦ rw (passed, failed) refl
    | inl (d, valid) ↦ rw (passed, valid) (start_write-numbers s e d s.settings)
  ]
]

reserve_add-numbers :
    (s : Policy) (r : ReserveAddRequest)
    → number_of (λ t. t.sequence) (reserve_add s r) ++ count_down s.next_ticket
      ≡ count_down (first_or s (reserve_add s r)).next_ticket
unfolding reserve_add admit
reserve_add-numbers s r = elim (Result-cases (check_add s r)) [
  | inl (d, e) ↦ rw e (count_down-suc s.next_ticket)
  | inr (x, e) ↦ rw e refl
]

set_outcome-next_ticket :
    (s : Policy) (t : QueueAddTicket) (o : Outcome) (c : Result PolicyError (Unit {0}))
    (found : Option Operation)
    → (state_or s (c >> set_outcome s t o found)).next_ticket ≡ s.next_ticket
unfolding set_outcome
set_outcome-next_ticket s t o (err x) found = refl
set_outcome-next_ticket s t o (ok u) none = refl
set_outcome-next_ticket s t o (ok u) (some op) = ground arith

set_write_outcome-next_ticket :
    (s : Policy) (t : SettingsChangeTicket) (o : Outcome) (c : Result PolicyError (Unit {0}))
    (found : Option SettingsWrite)
    → (state_or s (c >> set_write_outcome s t o found)).next_ticket ≡ s.next_ticket
unfolding set_write_outcome
set_write_outcome-next_ticket s t o (err x) found = refl
set_write_outcome-next_ticket s t o (ok u) none = refl
set_write_outcome-next_ticket s t o (ok u) (some w) = ground arith

change_owner_epoch-next_ticket :
    (s : Policy) (e : Text) → (state_or s (change_owner_epoch s e)).next_ticket ≡ s.next_ticket
unfolding change_owner_epoch
change_owner_epoch-next_ticket s e = ground arith

step-numbers :
    (s : Policy) (c : Call)
    → number_step s c ++ count_down s.next_ticket ≡ count_down (step s c).next_ticket
unfolding step number_step begin_observation record_add_outcome record_settings_outcome
step-numbers s begin = count_down-suc s.next_ticket
step-numbers s (observe_call t o) = ap count_down (sym (observe-next_ticket s t o))
step-numbers s (add r) = reserve_add-numbers s r
step-numbers s (add_outcome t o) = ap count_down (
    sym (
      set_outcome-next_ticket s t o (check_ticket s t.task_id t.owner_epoch t.epoch_generation)
        (JsMap.get s.operations t.client_user_message_id)))
step-numbers s (settings_change e v) = reserve_settings_change-numbers s e v
step-numbers s (settings_outcome t o) = ap count_down (
    sym (
      set_write_outcome-next_ticket s t o
        (check_ticket s t.task_id t.owner_epoch t.epoch_generation) s.settings_write))
step-numbers s (epoch e) = ap count_down (sym (change_owner_epoch-next_ticket s e))

pub run-numbers :
    (s : Policy) (log : List ℕ) (cs : List Call)
    → log ≡ count_down s.next_ticket
    → numbers s log cs ≡ count_down (run s cs).next_ticket
unfolding numbers run
run-numbers s log [] e = e
run-numbers s log (c ∷ cs) e =
    run-numbers (step s c) (number_step s c ++ log) cs
      (ap (λ l. number_step s c ++ l) e ∙ step-numbers s c)
