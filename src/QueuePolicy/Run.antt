-- ===== src/QueuePolicy/Run.antt =====
-- src/codex/homogeneous-queue-policy.ts: the calls of one `HomogeneousStockQueuePolicy`, in any order.
-- A call that throws leaves the object as it was.
use vkodex.Prelude.{List, [], ◌∷◌, ◌++◌, Result, ok, err}
use vkodex.Prelude.JsText.{Text}
use vkodex.Json.{Value}
use vkodex.QueuePolicy.Validation.{PolicyError}
use vkodex.QueuePolicy.Types.{
  Outcome, QueueObservation, ObservationTicket, QueueAddTicket, SettingsChangeTicket,
  ReserveAddRequest, Policy,
}
use vkodex.QueuePolicy.Admission.{
  begin_observation, check_add, reserve_add, record_add_outcome, reserve_settings_change,
  record_settings_outcome, change_owner_epoch,
}
use vkodex.QueuePolicy.Observe.{observe}

pub data Call : Type 0 where
  begin : Call
  observe_call : ObservationTicket → QueueObservation → Call
  add : ReserveAddRequest → Call
  add_outcome : QueueAddTicket → Outcome → Call
  settings_change : Text → Value → Call
  settings_outcome : SettingsChangeTicket → Outcome → Call
  epoch : Text → Call

abbrev pub state_or : Policy → Result PolicyError Policy → Policy
state_or s (ok s') = s'
state_or s (err e) = s

abbrev pub first_or {ℓ} : {T : Type ℓ} → Policy → Result PolicyError (Policy × T) → Policy
first_or s (ok (s', t)) = s'
first_or s (err e) = s

unfoldable pub step : Policy → Call → Policy
step s begin = (begin_observation s).0
step s (observe_call t o) = state_or s (observe s t o)
step s (add r) = first_or s (reserve_add s r)
step s (add_outcome t o) = state_or s (record_add_outcome s t o)
step s (settings_change e v) = first_or s (reserve_settings_change s e v)
step s (settings_outcome t o) = state_or s (record_settings_outcome s t o)
step s (epoch e) = state_or s (change_owner_epoch s e)

unfoldable pub run : Policy → List Call → Policy
run s [] = s
run s (c ∷ cs) = run (step s c) cs

-- The additions that a call reserved, each with the canonical text of the settings asked for.
abbrev pub log_add : ReserveAddRequest → Result PolicyError Text → List (Text × Text)
log_add r (ok requested) = (r.client_user_message_id, requested) ∷ []
log_add r (err e) = []

unfoldable pub log_step : Policy → Call → List (Text × Text)
log_step s (add r) = log_add r (check_add s r)
log_step s _ = []

-- The additions of a whole run, the newest first.
unfoldable pub reservations : Policy → List (Text × Text) → List Call → List (Text × Text)
unfolding log_step
reservations s log [] = log
reservations s log (c ∷ cs) = reservations (step s c) (log_step s c ++ log) cs
