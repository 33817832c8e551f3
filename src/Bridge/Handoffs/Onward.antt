-- ===== src/Bridge/Handoffs/Onward.antt =====
-- src/bridge/store.ts: a binding's handoff mark over later calls.
use vkodex.Prelude.{
  ℕ, ◌+◌, ◌≤◌, ◌<◌, ◌≡◌, ◌==◌, subst, true, false, ◌&&◌, Option, none, some, List, [], ◌∷◌, arith,
  Option-cases, Bool-cases, inl, inr,
}
use vkodex.Prelude.JsText.{Text, ◌===◌, ===_iff, ===_refl}
use vkodex.Prelude.JsMap.{set}
use vkodex.Bridge.Handoffs.{
  HandoffStatus, launching, DesktopHandoffState, Handoffs, order, get_value, is_for, is_past,
  handoff, claim_initial_handoff, mark_desktop_handoff, HandoffCall, claim, mark, clear,
  switch_transfer, step, run,
}
use vkodex.Bridge.Handoffs.Progress.{
  all_spare, claim_initial_handoff-kept, claim_initial_handoff-set, claimed_onward,
  clear_desktop_handoff-kept, clear_desktop_handoff-set, cleared_onward, get_value-set,
  mark_desktop_handoff-kept, mark_desktop_handoff-set, marked_onward, progress, progress_of, spares,
}

module _ (binding task : Text) where
  -- A row written for the binding and the task moves the task onward, and a row of another binding keeps it.
  set-progress :
      (h : Handoffs) (b : Text) (v : Option DesktopHandoffState)
      → ((b === binding) ≡ true → progress_of task (get_value h b) ≤ progress_of task v)
      → progress h binding task ≤ progress (set h b v) binding task
  unfolding progress
  set-progress h b v onward = elim (Bool-cases (b === binding)) [
    | inl hit ↦
        let there : b ≡ binding = ground (arith, ===_iff b binding) in
        rw (get_value-set h b binding v, hit)
          (subst (λ x. progress_of task (get_value h x) ≤ progress_of task v) there (onward hit))
    | inr miss ↦ rw (get_value-set h b binding v, miss) (omega arith)
  ]

  step-progress :
      (h : Handoffs) (c : HandoffCall)
      → spares binding task c ≡ true
      → progress h binding task ≤ progress (step h c) binding task
  unfolding step spares
  step-progress h (claim b t now) e = elim (Bool-cases (is_for t (get_value h b))) [
    | inl known ↦ rw (claim_initial_handoff-kept h b t now known) (omega arith)
    | inr new ↦ rw (claim_initial_handoff-set h b t now new) (
        set-progress h b (handoff t launching now) (λ hit.
          let for_task : t ≡ task = ground (arith, ===_iff t task) in
          rw for_task (claimed_onward task (get_value h b) now (rw for_task at new))))
  ]
  step-progress h (mark b t status now) e =
      elim (Bool-cases (is_for t (get_value h b) && is_past status (get_value h b))) [
        | inl past ↦ rw (mark_desktop_handoff-kept h b t status now past) (omega arith)
        | inr new ↦ rw (mark_desktop_handoff-set h b t status now new) (
            set-progress h b (handoff t status now) (λ hit.
              let for_task : t ≡ task = ground (arith, ===_iff t task) in
              rw for_task (marked_onward task (get_value h b) status now (rw for_task at new))))
      ]
  step-progress h (clear b t) e = elim (Bool-cases (is_for t (get_value h b))) [
    | inl known ↦ rw (clear_desktop_handoff-set h b t known) (
        set-progress h b none (λ hit.
          let none_yet : progress_of task (get_value h b) ≡ 0 =
            cleared_onward task t (get_value h b) known (ground arith) in
          omega arith))
    | inr other ↦ rw (clear_desktop_handoff-kept h b t other) (omega arith)
  ]
  step-progress h (switch_transfer b) e = set-progress h b none (λ hit. let e' = rw hit at e in cc)

  run-progress :
      (cs : List HandoffCall) (h : Handoffs)
      → all_spare binding task cs ≡ true
      → progress h binding task ≤ progress (run h cs) binding task
  unfolding run all_spare
  run-progress [] h e = omega arith
  run-progress (c ∷ cs) h e =
      let first = step-progress h c (ground arith) in
      let later = run-progress cs (step h c) (ground arith) in omega arith

  claimed-progress :
      (h : Handoffs) (now : ℕ)
      → 0 < progress (claim_initial_handoff h binding task now).0 binding task
  unfolding claim_initial_handoff progress
  claimed-progress h now = elim (Bool-cases (is_for task (get_value h binding))) [
    | inl known ↦ rw known (known_progress (get_value h binding) known)
    | inr new ↦ rw new (
        rw
          (
            get_value-set h binding binding (handoff task launching now),
            ===_refl binding,
            ===_refl task,
          )
          (omega arith))
  ]
    where
      known_progress :
          (o : Option DesktopHandoffState) → is_for task o ≡ true → 0 < progress_of task o
      known_progress none e = cc
      known_progress (some current) e = rw e (omega arith)

  claim_refused :
      (h : Handoffs) (now : ℕ)
      → 0 < progress h binding task
      → (claim_initial_handoff h binding task now).1 ≡ false
  unfolding claim_initial_handoff progress
  claim_refused h now e = ground (arith, Option-cases (get_value h binding))

  claimed_progress :
      (h : Handoffs) (now : ℕ)
      → (claim_initial_handoff h binding task now).1 ≡ (progress h binding task == 0)
  unfolding claim_initial_handoff progress
  claimed_progress h now = ground (arith, Option-cases (get_value h binding))

  mark_desktop_handoff-progress :
      (h : Handoffs) (status : HandoffStatus) (now : ℕ)
      → 1 + order status ≤ progress (mark_desktop_handoff h binding task status now) binding task
  unfolding progress
  mark_desktop_handoff-progress h status now =
      elim (Bool-cases
        (is_for task (get_value h binding) && is_past status (get_value h binding))) [
          | inl past ↦
              rw (mark_desktop_handoff-kept h binding task status now past)
                (reached (get_value h binding) past)
          | inr new ↦
              rw
                (
                  mark_desktop_handoff-set h binding task status now new,
                  get_value-set h binding binding (handoff task status now),
                  ===_refl binding,
                  ===_refl task,
                )
                (omega arith)
        ]
    where
      reached :
          (o : Option DesktopHandoffState)
          → (is_for task o && is_past status o) ≡ true
          → 1 + order status ≤ progress_of task o
      reached none e = cc
      reached (some current) e = ground arith

-- A claim of a task's handoff succeeds exactly where the task has no mark. After it, under any calls that neither clear
-- the task's mark, nor mark the binding for another task, nor switch a transfer of the binding: the
-- handoff never goes back, a second claim of it fails, and marking it with a status brings it at least that far.
pub handoff_onward :
    (h : Handoffs) (binding task : Text) (cs : List HandoffCall) (status : HandoffStatus)
    (now later : ℕ)
    → all_spare binding task cs ≡ true
    → ((claim_initial_handoff h binding task now).1 ≡ (progress h binding task == 0))
      × (progress h binding task
          ≤ progress (claim_initial_handoff h binding task now).0 binding task)
      × (progress (claim_initial_handoff h binding task now).0 binding task
          ≤ progress (run (claim_initial_handoff h binding task now).0 cs) binding task)
      × ((claim_initial_handoff
            (run (claim_initial_handoff h binding task now).0 cs)
            binding
            task
            later).1
          ≡ false)
      × (1 + order status
          ≤ progress
              (mark_desktop_handoff
                (run (claim_initial_handoff h binding task now).0 cs)
                binding
                task
                status
                later)
              binding
              task)
unfolding step spares
handoff_onward h binding task cs status now later e =
    let h' = (claim_initial_handoff h binding task now).0 in
    let held = claimed-progress binding task h now in
    let onward = run-progress binding task cs h' e in
    (
      claimed_progress binding task h now,
      step-progress binding task h (claim binding task now) (ground (arith, ===_refl task)),
      onward,
      claim_refused binding task (run h' cs) later (omega arith),
      mark_desktop_handoff-progress binding task (run h' cs) status later,
    )
