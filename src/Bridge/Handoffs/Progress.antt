-- ===== src/Bridge/Handoffs/Progress.antt =====
-- src/bridge/store.ts: how far the mark of a task's handoff has come, and what one write does to it.
use vkodex.Prelude.{
  ℕ, ◌+◌, ◌≤◌, ◌≡◌, refl, Bool, true, false, not, ◌&&◌, ◌||◌, Option, none, some, List, [], ◌∷◌,
  arith, if◌then◌else◌,
}
use vkodex.Prelude.JsText.{Text, ◌===◌, ===_iff}
use vkodex.Prelude.JsMap.{set, get-set}
use vkodex.Bridge.Handoffs.{
  HandoffStatus, launching, DesktopHandoffState, Handoffs, order, get_value, is_for, is_past,
  handoff, claim_initial_handoff, mark_desktop_handoff, clear_desktop_handoff, HandoffCall, claim,
  mark, clear, switch_transfer,
}

-- How far the handoff of a task has come: 0 where the mark is missing or another task's.
abbrev pub progress_of : Text → Option DesktopHandoffState → ℕ
progress_of task none = 0
progress_of task (some current) = if current.task_key === task then 1 + order current.status else 0

unfoldable pub progress : Handoffs → Text → Text → ℕ
progress h binding task = progress_of task (get_value h binding)

-- A call that neither clears the task's mark, nor marks the binding for another task, nor switches a transfer of it.
unfoldable pub spares : Text → Text → HandoffCall → Bool
spares binding task (claim b t now) = not (b === binding) || t === task
spares binding task (mark b t status now) = not (b === binding) || t === task
spares binding task (switch_transfer b) = not (b === binding)
spares binding task (clear b t) = not (b === binding) || not (t === task)

unfoldable pub all_spare : Text → Text → List HandoffCall → Bool
all_spare binding task [] = true
all_spare binding task (c ∷ cs) = spares binding task c && all_spare binding task cs

pub get_value-set :
    (h : Handoffs) (b binding : Text) (v : Option DesktopHandoffState)
    → get_value (set h b v) binding ≡ (if b === binding then v else get_value h binding)
unfolding get_value
get_value-set h b binding v = ground (arith, get-set h b binding v)

-- The mark that a call finds, where it writes one for the task.
pub claimed_onward :
    (task : Text) (o : Option DesktopHandoffState) (now : ℕ)
    → is_for task o ≡ false
    → progress_of task o ≤ progress_of task (handoff task launching now)
claimed_onward task none now e = ground arith
claimed_onward task (some current) now e = ground arith

pub marked_onward :
    (task : Text) (o : Option DesktopHandoffState) (status : HandoffStatus) (now : ℕ)
    → (is_for task o && is_past status o) ≡ false
    → progress_of task o ≤ progress_of task (handoff task status now)
marked_onward task none status now e = ground arith
marked_onward task (some current) status now e =
    ground (arith, ===_iff task task, ===_iff current.task_key task)

pub cleared_onward :
    (task t : Text) (o : Option DesktopHandoffState)
    → is_for t o ≡ true
    → (t === task) ≡ false
    → progress_of task o ≡ 0
cleared_onward task t none e n = refl
cleared_onward task t (some current) e n =
    ground (arith, ===_iff t task, ===_iff current.task_key t, ===_iff current.task_key task)

pub mark_desktop_handoff-kept :
    (h : Handoffs) (b t : Text) (status : HandoffStatus) (now : ℕ)
    → (is_for t (get_value h b) && is_past status (get_value h b)) ≡ true
    → mark_desktop_handoff h b t status now ≡ h
unfolding mark_desktop_handoff
mark_desktop_handoff-kept h b t status now e = ground arith

pub mark_desktop_handoff-set :
    (h : Handoffs) (b t : Text) (status : HandoffStatus) (now : ℕ)
    → (is_for t (get_value h b) && is_past status (get_value h b)) ≡ false
    → mark_desktop_handoff h b t status now ≡ set h b (handoff t status now)
unfolding mark_desktop_handoff
mark_desktop_handoff-set h b t status now e = ground arith

pub claim_initial_handoff-kept :
    (h : Handoffs) (b t : Text) (now : ℕ)
    → is_for t (get_value h b) ≡ true
    → (claim_initial_handoff h b t now).0 ≡ h
unfolding claim_initial_handoff
claim_initial_handoff-kept h b t now e = ground arith

pub claim_initial_handoff-set :
    (h : Handoffs) (b t : Text) (now : ℕ)
    → is_for t (get_value h b) ≡ false
    → (claim_initial_handoff h b t now).0 ≡ set h b (handoff t launching now)
unfolding claim_initial_handoff
claim_initial_handoff-set h b t now e = ground arith

pub clear_desktop_handoff-kept :
    (h : Handoffs) (b t : Text) → is_for t (get_value h b) ≡ false → clear_desktop_handoff h b t ≡ h
unfolding clear_desktop_handoff
clear_desktop_handoff-kept h b t e = ground arith

pub clear_desktop_handoff-set :
    (h : Handoffs) (b t : Text)
    → is_for t (get_value h b) ≡ true
    → clear_desktop_handoff h b t ≡ set h b none
unfolding clear_desktop_handoff
clear_desktop_handoff-set h b t e = ground arith
