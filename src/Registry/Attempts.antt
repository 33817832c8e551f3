-- ===== src/Registry/Attempts.antt =====
-- src/codex/managed-worker-registry.ts: the rows, the constructor's indices, `reserve`, `get`, `history`. The rows stand
-- in rowid order. The directory that `canonicalHome` resolves, the UUID and the time are arguments.
use vkodex.Prelude.{
  ℕ, Bool, true, false, not, ◌&&◌, ◌||◌, Option, none, some, List, [], ◌∷◌, ◌++◌, leb, ◌==◌, keep,
  if◌then◌else◌, is_none, Result, ok, err, ◌>>=◌, ◌>>◌, throw_if,
}
use vkodex.Prelude.JsText.{Text, ◌===◌}
use vkodex.Identifiers.{is_bounded, is_birth_ticks, is_positive}

pub record ProcessIdentity : Type 0 where
  pub pid : ℕ
  pub birth_ticks : Text

pub record BackendIdentity : Type 0 where
  pub pid : ℕ
  pub birth_ticks : Text
  pub generation : ℕ

pub data WorkerState : Type 0 where
  reserved host_registered backend_registered ready lost retired : WorkerState

abbrev pub same_worker_state : WorkerState → WorkerState → Bool
same_worker_state reserved reserved = true
same_worker_state host_registered host_registered = true
same_worker_state backend_registered backend_registered = true
same_worker_state ready ready = true
same_worker_state lost lost = true
same_worker_state retired retired = true
same_worker_state _ _ = false

abbrev pub is_retired : WorkerState → Bool
is_retired retired = true
is_retired _ = false

-- `absent` or `reused`.
pub data Observation : Type 0 where
  absent reused : Observation

pub record CleanupEvidence : Type 0 where
  pub host : ProcessIdentity
  pub host_observation : Observation
  pub backend : BackendIdentity
  pub backend_observation : Observation

-- A row, and what `attempt` makes of it: the columns of an identity are written together.
pub record WorkerAttempt : Type 0 where
  pub epoch : Text
  pub revision : ℕ
  pub canonical_home : Text
  pub family_root : Text
  pub state : WorkerState
  pub host : Option ProcessIdentity
  pub backend : Option BackendIdentity
  pub endpoint_ref : Option Text
  pub is_backend_unavailable : Bool
  pub cleanup_evidence : Option CleanupEvidence
  pub created_at : ℕ

-- The errors that are thrown, one for each message.
pub data RegistryError : Type 0 where
  invalid_home invalid_family invalid_process invalid_backend invalid_endpoint : RegistryError
  already_reserved duplicate_epoch stale_epoch invalid_transition : RegistryError
  host_mismatch backend_mismatch evidence_mismatch : RegistryError

-- `processIdentity` and `backendIdentity`.
unfoldable pub check_process : ProcessIdentity → Result RegistryError (Unit {0})
check_process p =
    throw_if (not (is_positive p.pid) || not (is_birth_ticks p.birth_ticks)) invalid_process

unfoldable pub check_backend : BackendIdentity → Result RegistryError (Unit {0})
check_backend b = do
  throw_if (not (is_positive b.pid) || not (is_birth_ticks b.birth_ticks)) invalid_process
  throw_if (not (is_positive b.generation)) invalid_backend

unfoldable pub same_process : ProcessIdentity → ProcessIdentity → Bool
same_process a b = a.pid == b.pid && a.birth_ticks === b.birth_ticks

unfoldable pub same_backend : BackendIdentity → BackendIdentity → Bool
same_backend a b = a.pid == b.pid && a.birth_ticks === b.birth_ticks && a.generation == b.generation

abbrev pub in_family : Text → Text → WorkerAttempt → Bool
in_family home family r = r.canonical_home === home && r.family_root === family

-- SELECT epoch … WHERE canonical_home = ? AND family_root = ? AND state <> 'retired'
unfoldable pub has_active : List WorkerAttempt → Text → Text → Bool
has_active [] home family = false
has_active (r ∷ rs) home family =
    (in_family home family r && not (is_retired r.state)) || has_active rs home family

-- SELECT * … WHERE epoch = ?
unfoldable pub find_epoch : List WorkerAttempt → Text → Option WorkerAttempt
find_epoch [] epoch = none
find_epoch (r ∷ rs) epoch = if r.epoch === epoch then some r else find_epoch rs epoch

-- `canonicalHome`, whose answer is `none` where it throws.
abbrev pub resolved : Option Text → Result RegistryError Text
resolved none = err invalid_home
resolved (some home) = ok home

abbrev pub new_attempt : Text → Text → Text → ℕ → WorkerAttempt
new_attempt epoch home family now = record {
  epoch = epoch;
  revision = 0;
  canonical_home = home;
  family_root = family;
  state = reserved;
  host = none;
  backend = none;
  endpoint_ref = none;
  is_backend_unavailable = false;
  cleanup_evidence = none;
  created_at = now;
}

-- `home` is what the directory resolves to, `epoch` the UUID that is drawn, `now` the time.
unfoldable pub reserve :
    List WorkerAttempt
    → Option Text
    → Text
    → Text
    → ℕ
    → Result RegistryError (List WorkerAttempt × WorkerAttempt)
reserve rows home family epoch now = do
  canonical ← resolved home
  throw_if (not (is_bounded 256 family)) invalid_family
  throw_if (has_active rows canonical family) already_reserved
  throw_if (not (is_none (find_epoch rows epoch))) duplicate_epoch
  ok (rows ++ (new_attempt epoch canonical family now ∷ []), new_attempt epoch canonical family now)

-- ORDER BY created_at, rowid: a row goes behind those that are not later.
unfoldable pub insert_by_time : WorkerAttempt → List WorkerAttempt → List WorkerAttempt
insert_by_time r [] = r ∷ []
insert_by_time r (s ∷ rs) =
    let rest = insert_by_time r rs in if leb r.created_at s.created_at then r ∷ s ∷ rs else s ∷ rest

unfoldable pub by_time : List WorkerAttempt → List WorkerAttempt
unfolding insert_by_time
by_time [] = []
by_time (r ∷ rs) = insert_by_time r (by_time rs)

unfoldable pub history :
    List WorkerAttempt → Option Text → Text → Result RegistryError (List WorkerAttempt)
unfolding by_time
history rows home family = do
  canonical ← resolved home
  throw_if (not (is_bounded 256 family)) invalid_family
  ok (by_time (keep (in_family canonical family) rows))

-- ORDER BY (state <> 'retired') DESC, created_at DESC, rowid DESC LIMIT 1: whether the second row,
-- which is later in rowid order, stands before the first.
unfoldable pub precedes : WorkerAttempt → WorkerAttempt → Bool
precedes later earlier =
    if is_retired later.state
    then is_retired earlier.state && leb earlier.created_at later.created_at
    else is_retired earlier.state || leb earlier.created_at later.created_at

unfoldable pub best : Option WorkerAttempt → List WorkerAttempt → Option WorkerAttempt
unfolding precedes
best found [] = found
best none (r ∷ rs) = best (some r) rs
best (some b) (r ∷ rs) = best (some (if precedes r b then r else b)) rs

unfoldable pub get :
    List WorkerAttempt → Option Text → Text → Result RegistryError (Option WorkerAttempt)
unfolding best
get rows home family = do
  canonical ← resolved home
  throw_if (not (is_bounded 256 family)) invalid_family
  ok (best none (keep (in_family canonical family) rows))
