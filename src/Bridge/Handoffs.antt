-- ===== src/Bridge/Handoffs.antt =====
-- src/bridge/store.ts: the mark that a Desktop client was opened for a task, one per binding: the values under
-- `desktop-handoff:` and a binding's ID. A cleared mark is a row that holds null. A task is its `taskKey`.
pub mod Progress
pub mod Onward
use vkodex.Prelude.{
  ℕ, Bool, true, false, ◌&&◌, Option, none, some, List, [], ◌∷◌, leb, if◌then◌else◌,
}
use vkodex.Prelude.JsText.{Text, ◌===◌}
use vkodex.Prelude.JsMap.{JsMap, get, set}

pub data HandoffStatus : Type 0 where
  launching : HandoffStatus
  launched : HandoffStatus
  live : HandoffStatus

pub record DesktopHandoffState : Type 0 where
  pub task_key : Text
  pub status : HandoffStatus
  pub updated_at : ℕ

-- The rows by the binding's ID.
abbrev pub Handoffs : Type 0
Handoffs = JsMap (Option DesktopHandoffState)

abbrev pub order : HandoffStatus → ℕ
order launching = 0
order launched = 1
order live = 2

-- `getValue`: a missing row and a null value read alike.
abbrev pub value_of : {A : Type 0} → Option (Option A) → Option A
value_of none = none
value_of (some v) = v

unfoldable pub get_value : Handoffs → Text → Option DesktopHandoffState
get_value h binding = value_of (get h binding)

abbrev pub is_for : Text → Option DesktopHandoffState → Bool
is_for expected none = false
is_for expected (some current) = current.task_key === expected

abbrev pub is_past : HandoffStatus → Option DesktopHandoffState → Bool
is_past status none = false
is_past status (some current) = leb (order status) (order current.status)

abbrev pub handoff : Text → HandoffStatus → ℕ → Option DesktopHandoffState
handoff task status now = some (record { task_key = task; status = status; updated_at = now })

unfoldable pub claim_initial_handoff : Handoffs → Text → Text → ℕ → Handoffs × Bool
claim_initial_handoff h binding task now =
    if is_for task (get_value h binding)
    then (h, false)
    else (set h binding (handoff task launching now), true)

unfoldable pub mark_desktop_handoff : Handoffs → Text → Text → HandoffStatus → ℕ → Handoffs
mark_desktop_handoff h binding task status now =
    if is_for task (get_value h binding) && is_past status (get_value h binding)
    then h
    else set h binding (handoff task status now)

unfoldable pub clear_desktop_handoff : Handoffs → Text → Text → Handoffs
clear_desktop_handoff h binding task =
    if is_for task (get_value h binding) then set h binding none else h

-- `switch_transfer` is the write of null that a transfer's switch does to the mark of its binding.
pub data HandoffCall : Type 0 where
  claim : Text → Text → ℕ → HandoffCall
  mark : Text → Text → HandoffStatus → ℕ → HandoffCall
  clear : Text → Text → HandoffCall
  switch_transfer : Text → HandoffCall

unfoldable pub step : Handoffs → HandoffCall → Handoffs
step h (claim binding task now) = (claim_initial_handoff h binding task now).0
step h (mark binding task status now) = mark_desktop_handoff h binding task status now
step h (clear binding task) = clear_desktop_handoff h binding task
step h (switch_transfer binding) = set h binding none

unfoldable pub run : Handoffs → List HandoffCall → Handoffs
run h [] = h
run h (c ∷ cs) = run (step h c) cs
