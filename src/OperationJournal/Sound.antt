-- ===== src/OperationJournal/Sound.antt =====
-- src/codex/managed-worker-operation-journal.ts: the commands and the soundness of the tables.
use vkodex.Prelude.{
  ℕ, ◌≡◌, refl, sym, subst, Bool, true, false, not, ◌&&◌, ◌||◌, Option, none, some, List, [], ◌∷◌,
  arith, is_none, Bool-cases, Result-cases, inl, inr, ok,
}
use vkodex.Prelude.Int.{ℤ, is_safe_integer}
use vkodex.Prelude.JsText.{Text, is_empty}
use vkodex.Prelude.JsMap.{has_duplicate}
use vkodex.Identifiers.{is_bounded}
use vkodex.OperationJournal.Tables.{
  WorkerOperationState, dispatching, unknown, accepted, rejected, same_state, settings_dispatching,
  settings_unknown, SettingsRow, SettingsRowState, Database, ScopeRow, WorkerOperationIntent,
  SettingsOperationIntent, WorkerOperation, SettingsOperation, same_settings_state, view_unknown,
}
use vkodex.OperationJournal.Commands.{
  Journal, no_receipt, validate_intent, reserve, transition, mark_unknown, reject_before_write,
  accept, reject, open_journal,
}
use vkodex.OperationJournal.Settings.{
  reserve_settings, settings_transition, confirm_settings, mark_settings_unknown, note_settings_ack,
  selects_settings, note_ack, confirmable, set_effective, row_state,
}
use vkodex.OperationJournal.Run.{
  after, after_reserve, Command, reserve_command, unknown_command, refuse_command, accept_command,
  reject_command, reserve_settings_command, settings_unknown_command, settings_ack_command,
  confirm_command, step, run,
}
use vkodex.OperationJournal.Rows.{
  ids, sum_rows, find_operation-includes, find_settings-includes, All-find_settings,
}
use vkodex.OperationJournal.Effects.{
  transition-ok, reserve-ok, reserve_settings-ok, settings_transition-ok, confirm_settings-ok,
}
use vkodex.OperationJournal.Invariant.{
  IsSound, OutcomeOk, IsSettingsRow, SettingsShape, write-IsSound, insert-IsSound,
  insert_settings-IsSound, write_settings-IsSound,
}

-- What a caller may ask a transition to write.
abbrev Claim : WorkerOperationState → Option Text → Option ℤ → Type 0
Claim dispatching receipt code = ⊥
Claim unknown receipt code = (receipt ≡ none) × (code ≡ none)
Claim accepted receipt code = (no_receipt receipt ≡ false) × (code ≡ none)
Claim rejected receipt code = receipt ≡ none

Claim-OutcomeOk :
    (current next : WorkerOperationState) (receipt : Option Text) (code : Option ℤ)
    → Claim next receipt code
    → (same_state next unknown && not (same_state current dispatching)) ≡ false
    → OutcomeOk current next receipt code
Claim-OutcomeOk current dispatching receipt code c g = c
Claim-OutcomeOk current unknown receipt code c g = ground arith
Claim-OutcomeOk current accepted receipt code c g = c
Claim-OutcomeOk current rejected receipt code c g = c

-- A bounded text is not empty.
no_receipt_of_bounded : (n : ℕ) (t : Text) → is_bounded n t ≡ true → is_empty t ≡ false
unfolding is_bounded
no_receipt_of_bounded n [] h = ground arith
no_receipt_of_bounded n (c ∷ t) h = refl

named_of_valid :
    (intent : WorkerOperationIntent)
    → validate_intent intent ≡ ok tt
    → is_empty intent.client_user_message_id ≡ false
unfolding validate_intent
named_of_valid intent h = ground (arith, no_receipt_of_bounded 128 intent.client_user_message_id)

transition-IsSound :
    (j : Journal) (expected : WorkerOperation) (next : WorkerOperationState) (receipt : Option Text)
    (code : Option ℤ)
    → Claim next receipt code
    → IsSound j
    → IsSound (after j (transition j expected next receipt code))
transition-IsSound j expected next receipt code c h =
    elim (Result-cases (transition j expected next receipt code)) [
      | inl ((j', a), e) ↦
          rw e elim (transition-ok j next receipt code expected {j' = j'} {a = a} e) [
            | inl same ↦ subst IsSound (sym same) h
            | inr (current, found, s) ↦ subst IsSound (sym s.written) (
                write-IsSound j current next receipt code s.was_open
                  (Claim-OutcomeOk current.state next receipt code c s.allowed) h)
          ]
      | inr (x, e) ↦ rw e h
    ]

reserve-IsSound :
    (j : Journal) (intent : WorkerOperationIntent)
    → IsSound j
    → IsSound (after_reserve j (reserve j intent))
reserve-IsSound j intent h = elim (Result-cases (reserve j intent)) [
  | inl ((j', created, a), e) ↦
      rw e elim (reserve-ok j intent {j' = j'} {created = created} {a = a} e) [
        | inl same ↦ subst IsSound (sym same) h
        | inr s ↦ subst IsSound (sym s.written) (
            insert-IsSound j intent (named_of_valid intent s.valid)
              (find_settings-includes j.db.settings intent.operation_id s.apart) s.absent s.client
              s.free h)
      ]
  | inr (x, e) ↦ rw e h
]

reserve_settings-IsSound :
    (j : Journal) (intent : SettingsOperationIntent)
    → IsSound j
    → IsSound (after_reserve j (reserve_settings j intent))
reserve_settings-IsSound j intent h = elim (Result-cases (reserve_settings j intent)) [
  | inl ((j', created, a), e) ↦
      rw e elim (reserve_settings-ok j intent {j' = j'} {created = created} {a = a} e) [
        | inl same ↦ subst IsSound (sym same) h
        | inr s ↦ subst IsSound (sym s.written) (
            insert_settings-IsSound j intent
              (find_operation-includes j.db.operations intent.operation_id s.apart) s.absent s.free
              h)
      ]
  | inr (x, e) ↦ rw e h
]

note_ack-SettingsShape :
    (was : SettingsRowState) (state : SettingsRowState) (current r : SettingsRow) (ack : Bool)
    → (same_settings_state (row_state was) view_unknown && (not ack || current.rpc_ack)) ≡ false
    → selects_settings current r ≡ true
    → SettingsShape was current
    → SettingsShape state r
    → SettingsShape settings_unknown (note_ack (ack || current.rpc_ack) r)
note_ack-SettingsShape settings_dispatching settings_dispatching current r ack more s c h =
    ground arith
note_ack-SettingsShape settings_dispatching settings_unknown current r ack more s c h = ground arith
note_ack-SettingsShape settings_unknown settings_dispatching current r ack more s c h = ground arith
note_ack-SettingsShape settings_unknown settings_unknown current r ack more s c h = ground arith

set_effective-SettingsShape :
    (state : SettingsRowState) (r : SettingsRow) (effective : Text)
    → (same_settings_state (row_state state) view_unknown
        && r.rpc_ack
        && is_none r.effective_fingerprint)
      ≡ true
    → SettingsShape state r
    → SettingsShape state (set_effective effective r)
set_effective-SettingsShape settings_dispatching r effective s h = ground arith
set_effective-SettingsShape settings_unknown r effective s h = ground arith

settings_transition-IsSound :
    (j : Journal) (expected : SettingsOperation) (ack : Bool)
    → IsSound j
    → IsSound (after j (settings_transition j expected ack))
settings_transition-IsSound j expected ack h =
    elim (Result-cases (settings_transition j expected ack)) [
      | inl ((j', a), e) ↦ rw e elim (settings_transition-ok j expected ack {j' = j'} {a = a} e) [
        | inl same ↦ subst IsSound (sym same) h
        | inr (current, found, s) ↦
            let shape =
              All-find_settings IsSettingsRow j.db.settings expected.operation_id {row = current}
                h.settings_rows found in
            subst IsSound (sym s.written) (
              write_settings-IsSound j (selects_settings current)
                (note_ack (ack || current.rpc_ack)) (λ r. refl) (λ r t e. e)
                (λ r t p.
                  note_ack-SettingsShape current.state r.state current r ack s.more t shape p)
                h)
      ]
      | inr (x, e) ↦ rw e h
    ]

confirm_settings-IsSound :
    (j : Journal) (expected : SettingsOperation) (effective : Text)
    → IsSound j
    → IsSound (after j (confirm_settings j expected effective))
confirm_settings-IsSound j expected effective h =
    elim (Result-cases (confirm_settings j expected effective)) [
      | inl ((j', a), e) ↦
          rw e elim (confirm_settings-ok j expected effective {j' = j'} {a = a} e) [
            | inl same ↦ subst IsSound (sym same) h
            | inr (current, found, written) ↦ subst IsSound (sym written) (
                write_settings-IsSound j (confirmable current) (set_effective effective) (λ r. refl)
                  (λ r t e. refl)
                  (λ r t p. set_effective-SettingsShape r.state r effective (ground arith) p) h)
          ]
      | inr (x, e) ↦ rw e h
    ]

accept-IsSound :
    (j : Journal) (expected : WorkerOperation) (receipt : Text)
    → IsSound j
    → IsSound (after j (accept j expected receipt))
unfolding accept
accept-IsSound j expected receipt h = elim (Bool-cases (is_bounded 256 receipt)) [
  | inl yes' ↦ rw yes' (
      transition-IsSound j expected accepted (some receipt) none
        (no_receipt_of_bounded 256 receipt yes', refl) h)
  | inr no' ↦ rw no' h
]

reject-IsSound :
    (j : Journal) (expected : WorkerOperation) (code : ℤ)
    → IsSound j
    → IsSound (after j (reject j expected code))
unfolding reject
reject-IsSound j expected code h = elim (Bool-cases (is_safe_integer code)) [
  | inl yes' ↦ rw yes' (transition-IsSound j expected rejected none (some code) refl h)
  | inr no' ↦ rw no' h
]

refuse-IsSound :
    (j : Journal) (expected : WorkerOperation)
    → IsSound j
    → IsSound (after j (reject_before_write j expected))
unfolding reject_before_write
refuse-IsSound j expected h = elim (Bool-cases (same_state expected.row.state dispatching)) [
  | inl yes' ↦ rw yes' (transition-IsSound j expected rejected none none refl h)
  | inr no' ↦ rw no' h
]

-- Every command, whether it succeeds or throws, keeps the tables sound.
pub step-IsSound : (j : Journal) (c : Command) → IsSound j → IsSound (step j c)
unfolding step mark_unknown mark_settings_unknown note_settings_ack
step-IsSound j (reserve_command i) h = reserve-IsSound j i h
step-IsSound j (unknown_command o) h = transition-IsSound j o unknown none none (refl, refl) h
step-IsSound j (refuse_command o) h = refuse-IsSound j o h
step-IsSound j (accept_command o r) h = accept-IsSound j o r h
step-IsSound j (reject_command o c) h = reject-IsSound j o c h
step-IsSound j (reserve_settings_command i) h = reserve_settings-IsSound j i h
step-IsSound j (settings_unknown_command o) h = settings_transition-IsSound j o false h
step-IsSound j (settings_ack_command o) h = settings_transition-IsSound j o true h
step-IsSound j (confirm_command o f) h = confirm_settings-IsSound j o f h

run-IsSound : (j : Journal) (cs : List Command) → IsSound j → IsSound (run j cs)
unfolding run
run-IsSound j [] h = h
run-IsSound j (c ∷ cs) h = run-IsSound (step j c) cs (step-IsSound j c h)

abbrev pub no_rows : Database
no_rows = record { scope = none; operations = []; settings = [] }

abbrev fresh_journal : ScopeRow → Journal
fresh_journal scope = record { scope = scope; db = record no_rows { scope = some scope } }

fresh-IsSound : (scope : ScopeRow) → IsSound (fresh_journal scope)
unfolding ids sum_rows has_duplicate
fresh-IsSound scope = record {
  rows = tt;
  settings_rows = tt;
  one_unsettled = ground arith;
  distinct = refl;
  distinct_clients = refl;
  distinct_settings = refl;
  disjoint = tt;
}

opened :
    (scope : ScopeRow) {j : Journal} → open_journal no_rows scope ≡ ok j → j ≡ fresh_journal scope
unfolding open_journal
opened scope e = ground arith

-- A journal that is opened on an empty file and then given any commands, in any order, failing ones
-- included, has sound tables: no two rows of one table share an operation ID or a client message
-- ID, no operation ID is in both tables, at most one mutation of either kind is unsettled, and each
-- row's revision, receipt, code, acknowledgement and effective fingerprint are those of its state.
pub journal-IsSound :
    (scope : ScopeRow) (cs : List Command) {j : Journal}
    → open_journal no_rows scope ≡ ok j
    → IsSound (run j cs)
journal-IsSound scope cs {j} e =
    subst (λ j. IsSound (run j cs)) (sym (opened scope {j = j} e))
      (run-IsSound _ cs (fresh-IsSound scope))
