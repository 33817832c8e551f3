-- ===== src/Registry/Transitions.antt =====
-- src/codex/managed-worker-registry.ts: `transition` and the commands that are made of it, `registerHost`,
-- `registerBackend`, `markReady`, `markLost`, `retire`. Each is one immediate transaction.
use vkodex.Prelude.{
  ◌+◌, Bool, true, false, not, ◌&&◌, ◌||◌, Option, none, some, List, [], ◌∷◌, ◌==◌, any,
  if◌then◌else◌, Result, ok, err, ◌>>◌, throw_if,
}
use vkodex.Prelude.JsText.{Text, ◌===◌}
use vkodex.Identifiers.{is_bounded, matches_uuid}
use vkodex.OperationJournal.Tables.{update_rows, count_rows}
use vkodex.Registry.Attempts.{
  ProcessIdentity, BackendIdentity, WorkerState, reserved, host_registered, backend_registered,
  ready, lost, retired, same_worker_state, CleanupEvidence, WorkerAttempt, RegistryError,
  invalid_endpoint, stale_epoch, invalid_transition, host_mismatch, backend_mismatch,
  evidence_mismatch, check_process, check_backend, same_process, same_backend, find_epoch,
}

abbrev pub is_host : Option ProcessIdentity → ProcessIdentity → Bool
is_host none p = false
is_host (some q) p = same_process q p

abbrev pub is_backend : Option BackendIdentity → BackendIdentity → Bool
is_backend none b = false
is_backend (some c) b = same_backend c b

-- `requireIdentities`
unfoldable pub require_identities :
    WorkerAttempt → ProcessIdentity → Option BackendIdentity → Result RegistryError (Unit {0})
require_identities row host none = throw_if (not (is_host row.host host)) host_mismatch
require_identities row host (some backend) = do
  throw_if (not (is_host row.host host)) host_mismatch
  throw_if (not (is_backend row.backend backend)) backend_mismatch

-- WHERE epoch = ? AND revision = ? AND state = ?
abbrev pub selects : WorkerAttempt → WorkerAttempt → Bool
selects row r =
    r.epoch === row.epoch && r.revision == row.revision && same_worker_state r.state row.state

-- SET state = ?, revision = revision + 1, and the fields.
abbrev pub advance : WorkerState → (WorkerAttempt → WorkerAttempt) → WorkerAttempt → WorkerAttempt
advance next set r = record (set r) { state = next; revision = r.revision + 1 }

unfoldable pub write_row :
    List WorkerAttempt
    → WorkerAttempt
    → WorkerState
    → (WorkerAttempt → WorkerAttempt)
    → Result RegistryError (List WorkerAttempt × WorkerAttempt)
write_row rows row next set =
    let rows' = update_rows (selects row) (advance next set) rows in
    if not (count_rows (selects row) rows == 1)
    then err stale_epoch
    else elim (find_epoch rows' row.epoch) [ none ↦ err stale_epoch | some r ↦ ok (rows', r) ]

-- `transition`, on the row that is found.
unfoldable pub transition_found :
    List WorkerAttempt
    → WorkerAttempt
    → List WorkerState
    → WorkerState
    → (WorkerAttempt → WorkerAttempt)
    → (WorkerAttempt → Result RegistryError (Unit {0}))
    → Option WorkerAttempt
    → Result RegistryError (List WorkerAttempt × WorkerAttempt)
transition_found rows expected states next set check none = err stale_epoch
transition_found rows expected states next set check (some row) = do
  throw_if
      (not (row.revision == expected.revision)
        || not (row.canonical_home === expected.canonical_home)
        || not (row.family_root === expected.family_root))
      stale_epoch
  throw_if (not (any (λ s. same_worker_state s row.state) states)) invalid_transition
  check row
  write_row rows row next set

unfoldable pub transition :
    List WorkerAttempt
    → WorkerAttempt
    → List WorkerState
    → WorkerState
    → (WorkerAttempt → WorkerAttempt)
    → (WorkerAttempt → Result RegistryError (Unit {0}))
    → Result RegistryError (List WorkerAttempt × WorkerAttempt)
transition rows expected states next set check =
    transition_found rows expected states next set check (find_epoch rows expected.epoch)

unfoldable pub register_host :
    List WorkerAttempt
    → WorkerAttempt
    → ProcessIdentity
    → Result RegistryError (List WorkerAttempt × WorkerAttempt)
register_host rows expected host = do
  check_process host
  transition rows expected (reserved ∷ []) host_registered (λ r. record r { host = some host })
      (λ r. ok tt)

unfoldable pub register_backend :
    List WorkerAttempt
    → WorkerAttempt
    → ProcessIdentity
    → BackendIdentity
    → Result RegistryError (List WorkerAttempt × WorkerAttempt)
register_backend rows expected host backend = do
  check_process host
  check_backend backend
  transition rows expected (host_registered ∷ []) backend_registered
      (λ r. record r { backend = some backend }) (λ r. require_identities r host none)

unfoldable pub mark_ready :
    List WorkerAttempt
    → WorkerAttempt
    → ProcessIdentity
    → BackendIdentity
    → Text
    → Result RegistryError (List WorkerAttempt × WorkerAttempt)
mark_ready rows expected host backend endpoint = do
  check_process host
  check_backend backend
  throw_if (not (is_bounded 128 endpoint) || not (matches_uuid endpoint)) invalid_endpoint
  transition rows expected (backend_registered ∷ []) ready
      (λ r. record r { endpoint_ref = some endpoint })
      (λ r. require_identities r host (some backend))

-- The one reason that there is goes without saying.
unfoldable pub mark_lost :
    List WorkerAttempt
    → WorkerAttempt
    → ProcessIdentity
    → BackendIdentity
    → Result RegistryError (List WorkerAttempt × WorkerAttempt)
mark_lost rows expected host backend = do
  check_process host
  check_backend backend
  transition rows expected (backend_registered ∷ ready ∷ []) lost
      (λ r. record r { is_backend_unavailable = true })
      (λ r. require_identities r host (some backend))

unfoldable pub retire :
    List WorkerAttempt
    → WorkerAttempt
    → ProcessIdentity
    → BackendIdentity
    → CleanupEvidence
    → Result RegistryError (List WorkerAttempt × WorkerAttempt)
retire rows expected host backend evidence = do
  check_process host
  check_backend backend
  check_process evidence.host
  check_backend evidence.backend
  throw_if (not (same_process host evidence.host) || not (same_backend backend evidence.backend))
      evidence_mismatch
  transition rows expected (backend_registered ∷ ready ∷ lost ∷ []) retired
      (λ r. record r {
        cleanup_evidence = some (record {
          host = host;
          host_observation = evidence.host_observation;
          backend = backend;
          backend_observation = evidence.backend_observation;
        });
      })
      (λ r. require_identities r host (some backend))
