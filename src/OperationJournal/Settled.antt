-- ===== src/OperationJournal/Settled.antt =====
-- src/codex/managed-worker-operation-journal.ts: the rows of settled mutations, and a caller
-- that asks again for the outcome it got.
use vkodex.Prelude.{
  ◌≡◌, refl, sym, ap, subst, Bool, true, false, Option, none, some, List, [], ◌∷◌, arith,
  Result-cases, inl, inr, ok, ◌>>◌, throw_if,
}
use vkodex.Prelude.Int.{ℤ, pos, negsuc}
use vkodex.Prelude.JsText.{Text, ===_refl}
use vkodex.Identifiers.{is_uuid}
use vkodex.OperationJournal.Tables.{
  WorkerOperationState, dispatching, unknown, accepted, rejected, same_state, is_open, OperationRow,
  WorkerOperationIntent, SettingsOperationIntent, WorkerOperation, SettingsOperation,
  find_operation, selects, settle, update_rows,
}
use vkodex.OperationJournal.Commands.{
  JournalError, Journal, new_row, transition, transition_found, settled_again, same_text, same_code,
  mark_unknown, reject_before_write, accept, reject, reserve, view, same_scope, write_outcome,
  settle_open, same_identity,
}
use vkodex.OperationJournal.Settings.{
  reserve_settings, settings_transition, confirm_settings, mark_settings_unknown, note_settings_ack,
}
use vkodex.OperationJournal.Run.{
  after, after_reserve, Command, reserve_command, unknown_command, refuse_command, accept_command,
  reject_command, reserve_settings_command, settings_unknown_command, settings_ack_command,
  confirm_command, step, run,
}
use vkodex.OperationJournal.Rows.{
  find_operation-snoc, find_operation-id, find_operation-update_rows,
}
use vkodex.OperationJournal.Effects.{
  transition-ok, reserve-ok, reserve_settings-ok, settings_transition-ok, confirm_settings-ok,
}

-- A row with an operation ID that is in the table.
abbrev Holds : Text → OperationRow → Journal → Type 0
Holds id row j = find_operation j.db.operations id ≡ some row

not_selected :
    (current row : OperationRow)
    → is_open current.state ≡ true
    → is_open row.state ≡ false
    → selects current row ≡ false
not_selected current row o s = ground arith

module _ (id : Text) (row : OperationRow) (settled : is_open row.state ≡ false) where
  transition-Holds :
      (j : Journal) (expected : WorkerOperation) (next : WorkerOperationState)
      (receipt : Option Text) (code : Option ℤ)
      → Holds id row j
      → Holds id row (after j (transition j expected next receipt code))
  transition-Holds j expected next receipt code h =
      elim (Result-cases (transition j expected next receipt code)) [
        | inl ((j', a), e) ↦
            rw e elim (transition-ok j next receipt code expected {j' = j'} {a = a} e) [
              | inl same ↦ subst (Holds id row) (sym same) h
              | inr (current, found, s) ↦
                  let apart = not_selected current row s.was_open settled in
                  let kept =
                    find_operation-update_rows (selects current) (settle next receipt code)
                      j.db.operations id {row = row} (λ r. refl) h in
                  subst (Holds id row) (sym s.written) (ground (arith, kept, apart))
            ]
        | inr (x, e) ↦ rw e h
      ]

  reserve-Holds :
      (j : Journal) (intent : WorkerOperationIntent)
      → Holds id row j
      → Holds id row (after_reserve j (reserve j intent))
  reserve-Holds j intent h = elim (Result-cases (reserve j intent)) [
    | inl ((j', created, a), e) ↦
        rw e elim (reserve-ok j intent {j' = j'} {created = created} {a = a} e) [
          | inl same ↦ subst (Holds id row) (sym same) h
          | inr s ↦
              subst (Holds id row) (sym s.written)
                (find_operation-snoc j.db.operations (new_row intent) id {row = row} h)
        ]
    | inr (x, e) ↦ rw e h
  ]

  reserve_settings-Holds :
      (j : Journal) (intent : SettingsOperationIntent)
      → Holds id row j
      → Holds id row (after_reserve j (reserve_settings j intent))
  reserve_settings-Holds j intent h = elim (Result-cases (reserve_settings j intent)) [
    | inl ((j', created, a), e) ↦
        rw e elim (reserve_settings-ok j intent {j' = j'} {created = created} {a = a} e) [
          | inl same ↦ subst (Holds id row) (sym same) h
          | inr s ↦ subst (Holds id row) (sym s.written) h
        ]
    | inr (x, e) ↦ rw e h
  ]

  settings_transition-Holds :
      (j : Journal) (expected : SettingsOperation) (ack : Bool)
      → Holds id row j
      → Holds id row (after j (settings_transition j expected ack))
  settings_transition-Holds j expected ack h =
      elim (Result-cases (settings_transition j expected ack)) [
        | inl ((j', a), e) ↦ rw e elim (settings_transition-ok j expected ack {j' = j'} {a = a} e) [
          | inl same ↦ subst (Holds id row) (sym same) h
          | inr (current, found, s) ↦ subst (Holds id row) (sym s.written) h
        ]
        | inr (x, e) ↦ rw e h
      ]

  confirm_settings-Holds :
      (j : Journal) (expected : SettingsOperation) (effective : Text)
      → Holds id row j
      → Holds id row (after j (confirm_settings j expected effective))
  confirm_settings-Holds j expected effective h =
      elim (Result-cases (confirm_settings j expected effective)) [
        | inl ((j', a), e) ↦
            rw e elim (confirm_settings-ok j expected effective {j' = j'} {a = a} e) [
              | inl same ↦ subst (Holds id row) (sym same) h
              | inr (current, found, written) ↦ subst (Holds id row) (sym written) h
            ]
        | inr (x, e) ↦ rw e h
      ]

  guarded-Holds :
      (j : Journal) (expected : WorkerOperation) (next : WorkerOperationState)
      (receipt : Option Text) (code : Option ℤ) (b : Bool) (x : JournalError)
      → Holds id row j
      → Holds id row (after j (throw_if b x >> transition j expected next receipt code))
  guarded-Holds j expected next receipt code true x h = h
  guarded-Holds j expected next receipt code false x h =
      transition-Holds j expected next receipt code h

  step-Holds : (j : Journal) (c : Command) → Holds id row j → Holds id row (step j c)
  unfolding step mark_unknown mark_settings_unknown note_settings_ack accept reject
      reject_before_write
  step-Holds j (reserve_command i) h = reserve-Holds j i h
  step-Holds j (unknown_command o) h = transition-Holds j o unknown none none h
  step-Holds j (refuse_command o) h = guarded-Holds j o rejected none none _ _ h
  step-Holds j (accept_command o r) h = guarded-Holds j o accepted (some r) none _ _ h
  step-Holds j (reject_command o c) h = guarded-Holds j o rejected none (some c) _ _ h
  step-Holds j (reserve_settings_command i) h = reserve_settings-Holds j i h
  step-Holds j (settings_unknown_command o) h = settings_transition-Holds j o false h
  step-Holds j (settings_ack_command o) h = settings_transition-Holds j o true h
  step-Holds j (confirm_command o f) h = confirm_settings-Holds j o f h

-- Once the row that an operation ID finds is accepted or rejected, any commands, in any order,
-- leave that ID with that very row: its outcome, receipt, code and revision are never rewritten.
pub settled_forever :
    (j : Journal) (id : Text) (row : OperationRow) (cs : List Command)
    → find_operation j.db.operations id ≡ some row
    → is_open row.state ≡ false
    → find_operation (run j cs).db.operations id ≡ some row
unfolding run
settled_forever j id row [] h settled = h
settled_forever j id row (c ∷ cs) h settled =
    settled_forever (step j c) id row cs (step-Holds id row settled j c h) settled

same_text_refl : (t : Option Text) → same_text t t ≡ true
same_text_refl none = refl
same_text_refl (some t) = ===_refl t

same_code_refl : (c : Option ℤ) → same_code c c ≡ true
same_code_refl none = refl
same_code_refl (some (pos n)) = ground arith
same_code_refl (some (negsuc n)) = ground arith

same_state_refl : (s : WorkerOperationState) → same_state s s ≡ true
same_state_refl dispatching = refl
same_state_refl unknown = refl
same_state_refl accepted = refl
same_state_refl rejected = refl

module _ (j : Journal) (next : WorkerOperationState) (receipt : Option Text) (code : Option ℤ)
    (current : OperationRow) where
  -- The row that was settled is found again, settled.
  found_again :
      (id : Text)
      → find_operation j.db.operations id ≡ some current
      → find_operation (update_rows (selects current) (settle next receipt code) j.db.operations) id
        ≡ some (settle next receipt code current)
  found_again id found =
      let kept =
        find_operation-update_rows (selects current) (settle next receipt code) j.db.operations id
          {row = current} (λ r. refl) found in
      ground (arith, kept, ===_refl current.operation_id, same_state_refl current.state)

  -- A transition that settles a row agreed with the caller's snapshot and returned the settled row.
  record Agrees (expected : WorkerOperation) (a : WorkerOperation) : Type 0 where
    scoped : same_scope expected.scope j.scope ≡ true
    named : is_uuid expected.row.operation_id ≡ true
    alike : same_identity current expected.row ≡ true
    revised : current.revision ≡ expected.row.revision
    stated : is_open expected.row.state ≡ true
    answer : a ≡ view j (settle next receipt code current)

  agrees :
      (expected : WorkerOperation) {j' : Journal} {a : WorkerOperation}
      → find_operation j.db.operations expected.row.operation_id ≡ some current
      → is_open current.state ≡ true
      → transition j expected next receipt code ≡ ok (j', a)
      → Agrees expected a
  unfolding transition transition_found settle_open write_outcome
  agrees expected found o e =
      let id = find_operation-id j.db.operations expected.row.operation_id {row = current} found in
      let again = found_again expected.row.operation_id found in
      record {
        scoped = ground arith;
        named = ground arith;
        alike = ground arith;
        revised = ground arith;
        stated = ground arith;
        answer = ground (arith, id, again);
      }

  answered_again :
      (expected : WorkerOperation) (a : WorkerOperation) (j' : Journal)
      → is_open next ≡ false
      → j'.scope ≡ j.scope
      → find_operation j'.db.operations expected.row.operation_id
        ≡ some (settle next receipt code current)
      → Agrees expected a
      → transition j' expected next receipt code ≡ ok (j', a)
  unfolding transition transition_found settled_again
  answered_again expected a j' settled scope found h = ground (
    arith,
    h.scoped,
    h.named,
    h.alike,
    h.revised,
    h.stated,
    h.answer,
    same_state_refl next,
    same_text_refl receipt,
    same_code_refl code,
  )

-- If a transition to an accepted or rejected outcome succeeds, the same call once more, with the
-- same snapshot from before it, succeeds too, changes nothing and returns the same operation.
pub transition_again :
    (j : Journal) (expected : WorkerOperation) (next : WorkerOperationState) (receipt : Option Text)
    (code : Option ℤ) {j' : Journal} {a : WorkerOperation}
    → is_open next ≡ false
    → transition j expected next receipt code ≡ ok (j', a)
    → transition j' expected next receipt code ≡ ok (j', a)
transition_again j expected next receipt code {j'} {a} settled e =
    elim (transition-ok j next receipt code expected {j' = j'} {a = a} e) [
      | inl same ↦ subst (λ k. transition k expected next receipt code ≡ ok (j', a)) (sym same) e
      | inr (current, found, s) ↦
          answered_again j next receipt code current expected a j' settled
            (ap (λ k. k.scope) s.written)
            (subst
              (λ k.
                find_operation k.db.operations expected.row.operation_id
                ≡ some (settle next receipt code current))
              (sym s.written)
              (found_again j next receipt code current expected.row.operation_id found))
            (agrees j next receipt code current expected {j' = j'} {a = a} found s.was_open e)
    ]
