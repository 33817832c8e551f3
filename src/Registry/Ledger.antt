-- ===== src/Registry/Ledger.antt =====
-- src/codex/managed-worker-registry.ts: what holds of the ledger after any commands.
use vkodex.Prelude.{
  ℕ, ◌≡◌, refl, sym, ap, subst, ◌∙◌, true, false, not, ◌||◌, Option, none, some, List, [], ◌∷◌,
  ◌++◌, any, arith, is_none, All, All-append, Result-cases, Option-cases, ◌⊎◌, inl, inr, Result, ok,
  err, ◌>>◌, throw_if,
}
use vkodex.Prelude.JsText.{Text}
use vkodex.Prelude.JsMap.{includes, has_duplicate, has_duplicate-snoc}
use vkodex.Identifiers.{is_bounded, matches_uuid}
use vkodex.OperationJournal.Tables.{update_rows}
use vkodex.OperationJournal.Rows.{ids, ids-snoc, ids-update_rows, All-update_rows}
use vkodex.Registry.Attempts.{
  WorkerState, reserved, host_registered, backend_registered, ready, lost, retired,
  same_worker_state, is_retired, CleanupEvidence, WorkerAttempt, RegistryError, has_active,
  find_epoch, reserve, new_attempt, check_process, check_backend, invalid_endpoint,
  evidence_mismatch, same_process, same_backend,
}
use vkodex.Registry.Transitions.{
  selects, advance, write_row, transition_found, transition, require_identities, register_host,
  register_backend, mark_ready, mark_lost, retire,
}
use vkodex.Registry.Run.{
  Command, reserve_command, host_command, backend_command, ready_command, lost_command,
  retire_command, rows_or, outcome, run,
}
use vkodex.Registry.Shapes.{
  Shape, IsAttempt, host-Shape, backend-Shape, ready-Shape, lost-Shape, retired-Shape,
}
use vkodex.Registry.Exclusive.{is_exclusive, is_exclusive-update_rows, is_exclusive-snoc}

abbrev pub epochs : List WorkerAttempt → List Text
epochs = ids (λ r. r.epoch)

pub record IsWellFormed (rows : List WorkerAttempt) : Type 0 where
  pub shapes : All IsAttempt rows
  pub exclusive : is_exclusive rows ≡ true
  pub distinct : has_duplicate (epochs rows) ≡ false

find_epoch-includes :
    (rows : List WorkerAttempt) (epoch : Text)
    → find_epoch rows epoch ≡ none
    → includes (epochs rows) epoch ≡ false
unfolding find_epoch ids includes
find_epoch-includes [] epoch h = refl
find_epoch-includes (r ∷ rows) epoch h = ground (arith, find_epoch-includes rows epoch)

same_worker_state-eq : (s t : WorkerState) → same_worker_state s t ≡ true → s ≡ t
same_worker_state-eq reserved t h = ground arith
same_worker_state-eq host_registered t h = ground arith
same_worker_state-eq backend_registered t h = ground arith
same_worker_state-eq ready t h = ground arith
same_worker_state-eq lost t h = ground arith
same_worker_state-eq retired t h = ground arith

-- A transition that succeeded found a row in one of its states and advanced the rows like it.
record Advances (rows rows' : List WorkerAttempt) (states : List WorkerState) (next : WorkerState)
    (set : WorkerAttempt → WorkerAttempt) (row : WorkerAttempt) : Type 0 where
  listed : any (λ s. same_worker_state s row.state) states ≡ true
  written : rows' ≡ update_rows (selects row) (advance next set) rows

module _ (rows : List WorkerAttempt) (expected : WorkerAttempt) (states : List WorkerState)
    (next : WorkerState) (set : WorkerAttempt → WorkerAttempt)
    (check : WorkerAttempt → Result RegistryError (Unit {0})) where
  write_row-ok :
      (row : WorkerAttempt) {rows' : List WorkerAttempt} {a : WorkerAttempt}
      → write_row rows row next set ≡ ok (rows', a)
      → rows' ≡ update_rows (selects row) (advance next set) rows
  unfolding write_row
  write_row-ok row e = ground arith

  transition_found-ok :
      (row : WorkerAttempt) {rows' : List WorkerAttempt} {a : WorkerAttempt}
      → transition_found rows expected states next set check (some row) ≡ ok (rows', a)
      → Advances rows rows' states next set row
  unfolding transition_found
  transition_found-ok row {rows'} {a} e = elim (Result-cases (check row)) [
    | inl (_, fine) ↦ record {
      listed = ground arith;
      written = write_row-ok row {rows' = rows'} {a = a} (ground arith);
    }
    | inr (_, refused) ↦ record { listed = ground arith; written = ground arith }
  ]

  transition-ok :
      {rows' : List WorkerAttempt} {a : WorkerAttempt}
      → transition rows expected states next set check ≡ ok (rows', a)
      → (rows' ≡ rows) ⊎ ((row : WorkerAttempt) × Advances rows rows' states next set row)
  unfolding transition transition_found
  transition-ok {rows'} {a} e = elim (Option-cases (find_epoch rows expected.epoch)) [
    | inl absent ↦ inl (ground arith)
    | inr (row, found) ↦ inr (row, transition_found-ok row {rows' = rows'} {a = a} (ground arith))
  ]

  transition-IsWellFormed :
      ((s : WorkerState) → any (λ t. same_worker_state t s) states ≡ true → is_retired s ≡ false)
      → ((r : WorkerAttempt)
          → ((set r).canonical_home ≡ r.canonical_home)
            × ((set r).family_root ≡ r.family_root)
            × ((set r).epoch ≡ r.epoch))
      → ((s : WorkerState) (r : WorkerAttempt)
          → any (λ t. same_worker_state t s) states ≡ true
          → Shape s r
          → Shape next (advance next set r))
      → IsWellFormed rows
      → IsWellFormed (rows_or rows (transition rows expected states next set check))
  transition-IsWellFormed live keeps shape h =
      elim (Result-cases (transition rows expected states next set check)) [
        | inl ((rows', a), e) ↦ rw e elim (transition-ok {rows' = rows'} {a = a} e) [
          | inl same ↦ subst IsWellFormed (sym same) h
          | inr (row, step) ↦ subst IsWellFormed (sym step.written) (advanced row step.listed)
        ]
        | inr (x, e) ↦ rw e h
      ]
    where
      advanced :
          (row : WorkerAttempt)
          → any (λ s. same_worker_state s row.state) states ≡ true
          → IsWellFormed (update_rows (selects row) (advance next set) rows)
      advanced row listed =
          let alike : (r : WorkerAttempt) → selects row r ≡ true → row.state ≡ r.state =
            λ r t. sym (same_worker_state-eq r.state row.state (ground arith)) in
          record {
            shapes =
                All-update_rows (selects row) (advance next set) IsAttempt rows
                  (λ r t p.
                    shape r.state r
                      (subst (λ s. any (λ t. same_worker_state t s) states ≡ true) (alike r t)
                        listed)
                      p)
                  h.shapes;
            exclusive =
                is_exclusive-update_rows (selects row) (advance next set)
                  (λ r t. live r.state (
                    subst (λ s. any (λ t. same_worker_state t s) states ≡ true) (alike r t) listed))
                  (λ r. ((keeps r).0, (keeps r).1)) rows h.exclusive;
            distinct =
                ap has_duplicate (
                  ids-update_rows (selects row) (advance next set) (λ r. r.epoch) rows
                    (λ r. (keeps r).2))
                ∙ h.distinct;
          }

reserve-IsWellFormed :
    (rows : List WorkerAttempt) (home : Option Text) (family epoch : Text) (now : ℕ)
    → IsWellFormed rows
    → IsWellFormed (rows_or rows (reserve rows home family epoch now))
unfolding reserve
reserve-IsWellFormed rows none family epoch now h = h
reserve-IsWellFormed rows (some home) family epoch now h =
    elim (Result-cases (reserve rows (some home) family epoch now)) [
      | inl ((rows', a), e) ↦
          let row = new_attempt epoch home family now in
          let written : rows' ≡ rows ++ (row ∷ []) = ground arith in
          let free : has_active rows home family ≡ false = ground arith in
          let fresh : is_none (find_epoch rows epoch) ≡ true = ground arith in
          rw e (
            subst IsWellFormed (sym written) (record {
              shapes =
                  All-append IsAttempt rows (row ∷ []) h.shapes
                    ((refl, refl, refl, refl, refl), tt);
              exclusive = is_exclusive-snoc rows row h.exclusive free;
              distinct =
                  ap has_duplicate (ids-snoc (λ r. r.epoch) rows row)
                  ∙ has_duplicate-snoc (epochs rows) epoch h.distinct
                      (find_epoch-includes rows epoch (ground arith));
            }))
      | inr (x, e) ↦ rw e h
    ]

-- A check before a transition refuses, or changes nothing.
guarded-IsWellFormed :
    (rows : List WorkerAttempt) (check : Result RegistryError (Unit {0}))
    (next : Result RegistryError (List WorkerAttempt × WorkerAttempt))
    → IsWellFormed rows
    → IsWellFormed (rows_or rows next)
    → IsWellFormed (rows_or rows (check >> next))
guarded-IsWellFormed rows (ok _) next h k = k
guarded-IsWellFormed rows (err e) next h k = h

live :
    (states : List WorkerState)
    → any is_retired states ≡ false
    → (s : WorkerState) → any (λ t. same_worker_state t s) states ≡ true
    → is_retired s ≡ false
unfolding any
live [] h s l = ground arith
live (t ∷ ts) h s l = ground (arith, live ts, same_worker_state-eq t s)

step-IsWellFormed :
    (rows : List WorkerAttempt) (c : Command)
    → IsWellFormed rows
    → IsWellFormed (rows_or rows (outcome rows c))
unfolding any outcome register_host register_backend mark_ready mark_lost retire
step-IsWellFormed rows (reserve_command home family epoch now) h =
    reserve-IsWellFormed rows home family epoch now h
step-IsWellFormed rows (host_command e host) h =
    let states = reserved ∷ [] in
    let set : WorkerAttempt → WorkerAttempt = λ r. record r { host = some host } in
    let check : WorkerAttempt → Result RegistryError (Unit {0}) = λ r. ok tt in
    let moved =
      transition-IsWellFormed rows e states host_registered set check (live states refl)
        (λ r. (refl, refl, refl)) (λ s r l p. host-Shape s r host l p) h in
    let last = transition rows e states host_registered set check in
    guarded-IsWellFormed rows (check_process host) last h moved
step-IsWellFormed rows (backend_command e host backend) h =
    let states = host_registered ∷ [] in
    let set : WorkerAttempt → WorkerAttempt = λ r. record r { backend = some backend } in
    let check : WorkerAttempt → Result RegistryError (Unit {0}) =
      λ r. require_identities r host none in
    let moved =
      transition-IsWellFormed rows e states backend_registered set check (live states refl)
        (λ r. (refl, refl, refl)) (λ s r l p. backend-Shape s r backend l p) h in
    let last = transition rows e states backend_registered set check in
    guarded-IsWellFormed rows (check_process host) ((check_backend backend) >> last) h
      (guarded-IsWellFormed rows (check_backend backend) last h moved)
step-IsWellFormed rows (ready_command e host backend endpoint) h =
    let states = backend_registered ∷ [] in
    let set : WorkerAttempt → WorkerAttempt = λ r. record r { endpoint_ref = some endpoint } in
    let check : WorkerAttempt → Result RegistryError (Unit {0}) =
      λ r. require_identities r host (some backend) in
    let moved =
      transition-IsWellFormed rows e states ready set check (live states refl)
        (λ r. (refl, refl, refl)) (λ s r l p. ready-Shape s r endpoint l p) h in
    let last = transition rows e states ready set check in
    guarded-IsWellFormed rows (check_process host)
      ((check_backend backend)
        >> ((throw_if (not (is_bounded 128 endpoint) || not (matches_uuid endpoint))
              invalid_endpoint)
            >> last))
      h
      (guarded-IsWellFormed rows (check_backend backend)
        ((throw_if (not (is_bounded 128 endpoint) || not (matches_uuid endpoint)) invalid_endpoint)
          >> last)
        h
        (guarded-IsWellFormed rows
          (throw_if (not (is_bounded 128 endpoint) || not (matches_uuid endpoint)) invalid_endpoint)
          last h moved))
step-IsWellFormed rows (lost_command e host backend) h =
    let states = backend_registered ∷ ready ∷ [] in
    let set : WorkerAttempt → WorkerAttempt = λ r. record r { is_backend_unavailable = true } in
    let check : WorkerAttempt → Result RegistryError (Unit {0}) =
      λ r. require_identities r host (some backend) in
    let moved =
      transition-IsWellFormed rows e states lost set check (live states refl)
        (λ r. (refl, refl, refl)) (λ s r l p. lost-Shape s r l p) h in
    let last = transition rows e states lost set check in
    guarded-IsWellFormed rows (check_process host) ((check_backend backend) >> last) h
      (guarded-IsWellFormed rows (check_backend backend) last h moved)
step-IsWellFormed rows (retire_command e host backend evidence) h =
    let stored : CleanupEvidence = record {
      host = host;
      host_observation = evidence.host_observation;
      backend = backend;
      backend_observation = evidence.backend_observation;
    } in
    let states = backend_registered ∷ ready ∷ lost ∷ [] in
    let set : WorkerAttempt → WorkerAttempt = λ r. record r { cleanup_evidence = some stored } in
    let check : WorkerAttempt → Result RegistryError (Unit {0}) =
      λ r. require_identities r host (some backend) in
    let moved =
      transition-IsWellFormed rows e states retired set check (live states refl)
        (λ r. (refl, refl, refl)) (λ s r l p. retired-Shape s r stored l p) h in
    let last = transition rows e states retired set check in
    guarded-IsWellFormed rows (check_process host)
      ((check_backend backend)
        >> ((check_process evidence.host)
            >> ((check_backend evidence.backend)
                >> ((throw_if
                      (not (same_process host evidence.host)
                        || not (same_backend backend evidence.backend))
                      evidence_mismatch)
                    >> last))))
      h
      (guarded-IsWellFormed rows (check_backend backend)
        ((check_process evidence.host)
          >> ((check_backend evidence.backend)
              >> ((throw_if
                    (not (same_process host evidence.host)
                      || not (same_backend backend evidence.backend))
                    evidence_mismatch)
                  >> last)))
        h
        (guarded-IsWellFormed rows (check_process evidence.host)
          ((check_backend evidence.backend)
            >> ((throw_if
                  (not (same_process host evidence.host)
                    || not (same_backend backend evidence.backend))
                  evidence_mismatch)
                >> last))
          h
          (guarded-IsWellFormed rows (check_backend evidence.backend)
            ((throw_if
                (not (same_process host evidence.host)
                  || not (same_backend backend evidence.backend))
                evidence_mismatch)
              >> last)
            h
            (guarded-IsWellFormed rows
              (throw_if
                (not (same_process host evidence.host)
                  || not (same_backend backend evidence.backend))
                evidence_mismatch)
              last h moved))))

run-IsWellFormed :
    (rows : List WorkerAttempt) (cs : List Command) → IsWellFormed rows → IsWellFormed (run rows cs)
unfolding run
run-IsWellFormed rows [] h = h
run-IsWellFormed rows (c ∷ cs) h =
    run-IsWellFormed (rows_or rows (outcome rows c)) cs (step-IsWellFormed rows c h)

-- After any commands on an empty ledger, refused ones included: no home and family root has two
-- attempts that are not retired, no two attempts have one epoch, and each attempt's revision, host,
-- backend, endpoint and cleanup evidence are those of its state (so a retired one has evidence).
pub registry-IsWellFormed : (cs : List Command) → IsWellFormed (run [] cs)
unfolding is_exclusive has_duplicate ids
registry-IsWellFormed cs =
    run-IsWellFormed [] cs (record { shapes = tt; exclusive = refl; distinct = refl })
