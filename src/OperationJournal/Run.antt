-- ===== src/OperationJournal/Run.antt =====
-- src/codex/managed-worker-operation-journal.ts: the commands of one journal, in any order. A command
-- that throws rolls its transaction back.
use vkodex.Prelude.{List, [], ◌∷◌, Result, ok, err, Bool}
use vkodex.Prelude.Int.{ℤ}
use vkodex.Prelude.JsText.{Text}
use vkodex.OperationJournal.Tables.{
  WorkerOperationIntent, SettingsOperationIntent, WorkerOperation, SettingsOperation,
}
use vkodex.OperationJournal.Commands.{
  JournalError, Journal, reserve, mark_unknown, reject_before_write, accept, reject,
}
use vkodex.OperationJournal.Settings.{
  reserve_settings, mark_settings_unknown, note_settings_ack, confirm_settings,
}

pub data Command : Type 0 where
  reserve_command : WorkerOperationIntent → Command
  unknown_command : WorkerOperation → Command
  refuse_command : WorkerOperation → Command
  accept_command : WorkerOperation → Text → Command
  reject_command : WorkerOperation → ℤ → Command
  reserve_settings_command : SettingsOperationIntent → Command
  settings_unknown_command : SettingsOperation → Command
  settings_ack_command : SettingsOperation → Command
  confirm_command : SettingsOperation → Text → Command

-- The journal after a command, and after a reservation.
abbrev pub after {ℓ} : {A : Type ℓ} → Journal → Result JournalError (Journal × A) → Journal
after j (ok (j', a)) = j'
after j (err e) = j

abbrev pub after_reserve {ℓ} :
    {A : Type ℓ} → Journal → Result JournalError (Journal × Bool × A) → Journal
after_reserve j (ok (j', b, a)) = j'
after_reserve j (err e) = j

unfoldable pub step : Journal → Command → Journal
step j (reserve_command i) = after_reserve j (reserve j i)
step j (unknown_command o) = after j (mark_unknown j o)
step j (refuse_command o) = after j (reject_before_write j o)
step j (accept_command o r) = after j (accept j o r)
step j (reject_command o c) = after j (reject j o c)
step j (reserve_settings_command i) = after_reserve j (reserve_settings j i)
step j (settings_unknown_command o) = after j (mark_settings_unknown j o)
step j (settings_ack_command o) = after j (note_settings_ack j o)
step j (confirm_command o f) = after j (confirm_settings j o f)

unfoldable pub run : Journal → List Command → Journal
run j [] = j
run j (c ∷ cs) = run (step j c) cs
