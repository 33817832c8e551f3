-- ===== src/Tests/Queue.antt =====
-- src/codex/native-queue-state.ts and src/codex/managed-worker-registry.ts: concrete runs.
use vkodex.Prelude.{◌≡◌, ◌↔◌, some, List, [], ◌∷◌, ◌++◌, ok}
use vkodex.Prelude.JsText.{Text, codes}
use vkodex.QueueState.{
  QueueEntryIdentity, NativeQueueState, NativeQueueStateClassification, append, classify,
}
use vkodex.QueueState.Classified.{IsQualified, Explains, classify_iff}
use vkodex.Registry.Attempts.{ProcessIdentity, WorkerAttempt, new_attempt}
use vkodex.Registry.Run.{Command, reserve_command, host_command, run}
use vkodex.Registry.Ledger.{IsWellFormed, registry-IsWellFormed}

abbrev half : Text
half = codes "0123456789abcdef0123456789abcdef"

abbrev entry : Text → QueueEntryIdentity
entry id = record { id = id; fingerprint = half ++ half }

-- One entry is consumed, one is pending, and one is new.
abbrev grown : NativeQueueState
grown = record {
  current_pending = entry (codes "b") ∷ [];
  consumed = entry (codes "a") ∷ [];
  incoming = entry (codes "a") ∷ entry (codes "b") ∷ entry (codes "c") ∷ [];
}

abbrev grown_by : NativeQueueStateClassification
grown_by = append (codes "b" ∷ codes "c" ∷ []) (codes "a" ∷ []) (codes "c")

classify_iff_example :
    (classify grown ≡ ok grown_by) ↔ (IsQualified grown × Explains grown grown_by)
classify_iff_example = classify_iff grown grown_by

abbrev first_attempt : WorkerAttempt
first_attempt = new_attempt (codes "epoch") (codes "/home") (codes "family") 1

abbrev host : ProcessIdentity
host = record { pid = 7; birth_ticks = codes "100" }

abbrev registrations : List Command
registrations =
    reserve_command (some (codes "/home")) (codes "family") (codes "epoch") 1
    ∷ host_command first_attempt host
    ∷ reserve_command (some (codes "/home")) (codes "family") (codes "other") 2
    ∷ []

registry-IsWellFormed_example : IsWellFormed (run [] registrations)
registry-IsWellFormed_example = registry-IsWellFormed registrations
