-- ===== src/Registry/Shapes.antt =====
-- src/codex/managed-worker-registry.ts: the columns of a row in each state.
use vkodex.Prelude.{◌≤◌, ◌≡◌, true, false, none, some, [], ◌∷◌, any, arith, is_none}
use vkodex.Prelude.JsText.{Text}
use vkodex.Registry.Attempts.{
  ProcessIdentity, BackendIdentity, WorkerState, reserved, host_registered, backend_registered,
  ready, lost, retired, same_worker_state, CleanupEvidence, WorkerAttempt,
}
use vkodex.Registry.Transitions.{advance}

-- What the columns of a row are in each state.
abbrev pub Shape : WorkerState → WorkerAttempt → Type 0
Shape reserved r =
    (r.revision ≡ 0)
    × (r.host ≡ none)
    × (r.backend ≡ none)
    × (r.endpoint_ref ≡ none)
    × (r.cleanup_evidence ≡ none)
Shape host_registered r =
    (r.revision ≡ 1)
    × (is_none r.host ≡ false)
    × (r.backend ≡ none)
    × (r.endpoint_ref ≡ none)
    × (r.cleanup_evidence ≡ none)
Shape backend_registered r =
    (r.revision ≡ 2)
    × (is_none r.host ≡ false)
    × (is_none r.backend ≡ false)
    × (r.endpoint_ref ≡ none)
    × (r.cleanup_evidence ≡ none)
Shape ready r =
    (r.revision ≡ 3)
    × (is_none r.host ≡ false)
    × (is_none r.backend ≡ false)
    × (is_none r.endpoint_ref ≡ false)
    × (r.cleanup_evidence ≡ none)
Shape lost r =
    (3 ≤ r.revision)
    × (r.revision ≤ 4)
    × (is_none r.host ≡ false)
    × (is_none r.backend ≡ false)
    × (r.is_backend_unavailable ≡ true)
    × (r.cleanup_evidence ≡ none)
Shape retired r =
    (3 ≤ r.revision)
    × (r.revision ≤ 5)
    × (is_none r.host ≡ false)
    × (is_none r.backend ≡ false)
    × (is_none r.cleanup_evidence ≡ false)

abbrev pub IsAttempt : WorkerAttempt → Type 0
IsAttempt r = Shape r.state r

pub host-Shape :
    (s : WorkerState) (r : WorkerAttempt) (host : ProcessIdentity)
    → any (λ t. same_worker_state t s) (reserved ∷ []) ≡ true
    → Shape s r
    → Shape host_registered (advance host_registered (λ x. record x { host = some host }) r)
unfolding any
host-Shape reserved r host l p = ground arith
host-Shape host_registered r host l p = ground arith
host-Shape backend_registered r host l p = ground arith
host-Shape ready r host l p = ground arith
host-Shape lost r host l p = ground arith
host-Shape retired r host l p = ground arith

pub backend-Shape :
    (s : WorkerState) (r : WorkerAttempt) (backend : BackendIdentity)
    → any (λ t. same_worker_state t s) (host_registered ∷ []) ≡ true
    → Shape s r
    → Shape backend_registered
        (advance backend_registered (λ x. record x { backend = some backend }) r)
unfolding any
backend-Shape reserved r backend l p = ground arith
backend-Shape host_registered r backend l p = ground arith
backend-Shape backend_registered r backend l p = ground arith
backend-Shape ready r backend l p = ground arith
backend-Shape lost r backend l p = ground arith
backend-Shape retired r backend l p = ground arith

pub ready-Shape :
    (s : WorkerState) (r : WorkerAttempt) (endpoint : Text)
    → any (λ t. same_worker_state t s) (backend_registered ∷ []) ≡ true
    → Shape s r
    → Shape ready (advance ready (λ x. record x { endpoint_ref = some endpoint }) r)
unfolding any
ready-Shape reserved r endpoint l p = ground arith
ready-Shape host_registered r endpoint l p = ground arith
ready-Shape backend_registered r endpoint l p = ground arith
ready-Shape ready r endpoint l p = ground arith
ready-Shape lost r endpoint l p = ground arith
ready-Shape retired r endpoint l p = ground arith

pub lost-Shape :
    (s : WorkerState) (r : WorkerAttempt)
    → any (λ t. same_worker_state t s) (backend_registered ∷ ready ∷ []) ≡ true
    → Shape s r
    → Shape lost (advance lost (λ x. record x { is_backend_unavailable = true }) r)
unfolding any
lost-Shape reserved r l p = ground arith
lost-Shape host_registered r l p = ground arith
lost-Shape backend_registered r l p = ground arith
lost-Shape ready r l p = ground arith
lost-Shape lost r l p = ground arith
lost-Shape retired r l p = ground arith

pub retired-Shape :
    (s : WorkerState) (r : WorkerAttempt) (evidence : CleanupEvidence)
    → any (λ t. same_worker_state t s) (backend_registered ∷ ready ∷ lost ∷ []) ≡ true
    → Shape s r
    → Shape retired (advance retired (λ x. record x { cleanup_evidence = some evidence }) r)
unfolding any
retired-Shape reserved r evidence l p = ground arith
retired-Shape host_registered r evidence l p = ground arith
retired-Shape backend_registered r evidence l p = ground arith
retired-Shape ready r evidence l p = ground arith
retired-Shape lost r evidence l p = ground arith
retired-Shape retired r evidence l p = ground arith
