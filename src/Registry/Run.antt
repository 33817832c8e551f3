-- ===== src/Registry/Run.antt =====
-- src/codex/managed-worker-registry.ts: the commands of one registry, in any order. A command that throws rolls its
-- transaction back.
use vkodex.Prelude.{ℕ, Option, List, [], ◌∷◌, Result, ok, err}
use vkodex.Prelude.JsText.{Text}
use vkodex.Registry.Attempts.{
  ProcessIdentity, BackendIdentity, CleanupEvidence, WorkerAttempt, RegistryError, reserve,
}
use vkodex.Registry.Transitions.{register_host, register_backend, mark_ready, mark_lost, retire}

pub data Command : Type 0 where
  reserve_command : Option Text → Text → Text → ℕ → Command
  host_command : WorkerAttempt → ProcessIdentity → Command
  backend_command : WorkerAttempt → ProcessIdentity → BackendIdentity → Command
  ready_command : WorkerAttempt → ProcessIdentity → BackendIdentity → Text → Command
  lost_command : WorkerAttempt → ProcessIdentity → BackendIdentity → Command
  retire_command : WorkerAttempt → ProcessIdentity → BackendIdentity → CleanupEvidence → Command

abbrev pub rows_or :
    List WorkerAttempt
    → Result RegistryError (List WorkerAttempt × WorkerAttempt)
    → List WorkerAttempt
rows_or rows (ok (rows', a)) = rows'
rows_or rows (err e) = rows

unfoldable pub outcome :
    List WorkerAttempt → Command → Result RegistryError (List WorkerAttempt × WorkerAttempt)
outcome rows (reserve_command home family epoch now) = reserve rows home family epoch now
outcome rows (host_command e h) = register_host rows e h
outcome rows (backend_command e h b) = register_backend rows e h b
outcome rows (ready_command e h b r) = mark_ready rows e h b r
outcome rows (lost_command e h b) = mark_lost rows e h b
outcome rows (retire_command e h b v) = retire rows e h b v

unfoldable pub run : List WorkerAttempt → List Command → List WorkerAttempt
run rows [] = rows
run rows (c ∷ cs) = run (rows_or rows (outcome rows c)) cs
