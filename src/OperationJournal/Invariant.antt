-- ===== src/OperationJournal/Invariant.antt =====
-- src/codex/managed-worker-operation-journal.ts: what holds of the tables after any commands.
use vkodex.Prelude.{
  ℕ, ◌+◌, ◌≤◌, ◌≡◌, refl, ap, ◌∙◌, Bool, true, false, Option, none, List, [], ◌∷◌, ◌++◌, arith,
  if◌then◌else◌, is_none, All, All-append,
}
use vkodex.Prelude.Int.{ℤ}
use vkodex.Prelude.JsText.{Text, ===_iff, is_empty}
use vkodex.Prelude.JsMap.{includes, has_duplicate, has_duplicate-snoc, includes-snoc}
use vkodex.OperationJournal.Tables.{
  WorkerOperationState, dispatching, unknown, accepted, rejected, is_open, OperationRow,
  settings_dispatching, settings_unknown, SettingsRow, SettingsRowState, WorkerOperationIntent,
  SettingsOperationIntent, find_operation, has_client, find_settings, has_unconfirmed, selects,
  settle, update_rows,
}
use vkodex.OperationJournal.Commands.{Journal, no_receipt, new_row, with_operations}
use vkodex.OperationJournal.Settings.{new_settings_row, with_settings}
use vkodex.OperationJournal.Rows.{
  sum_rows, ids, sum_rows-update_rows, ids-update_rows, All-update_rows, sum_rows-snoc, ids-snoc,
  sum_rows_of_any, find_operation-includes, find_settings-includes, has_client-includes,
}

abbrev pub operation_ids : List OperationRow → List Text
operation_ids = ids (λ r. r.operation_id)

abbrev pub client_ids : List OperationRow → List Text
client_ids = ids (λ r. r.client_user_message_id)

abbrev pub settings_ids : List SettingsRow → List Text
settings_ids = ids (λ r. r.operation_id)

-- What the columns of a row are in each state.
abbrev pub Shape : WorkerOperationState → OperationRow → Type 0
Shape dispatching r = (r.revision ≡ 0) × (r.receipt_id ≡ none) × (r.rejection_code ≡ none)
Shape unknown r = (r.revision ≡ 1) × (r.receipt_id ≡ none) × (r.rejection_code ≡ none)
Shape accepted r =
    (1 ≤ r.revision)
    × (r.revision ≤ 2)
    × (no_receipt r.receipt_id ≡ false)
    × (r.rejection_code ≡ none)
Shape rejected r = (1 ≤ r.revision) × (r.revision ≤ 2) × (r.receipt_id ≡ none)

abbrev pub IsRow : OperationRow → Type 0
IsRow r = Shape r.state r × (is_empty r.client_user_message_id ≡ false)

abbrev pub SettingsShape : SettingsRowState → SettingsRow → Type 0
SettingsShape settings_dispatching r =
    (r.revision ≡ 0) × (r.rpc_ack ≡ false) × (r.effective_fingerprint ≡ none)
SettingsShape settings_unknown r =
    (1 ≤ r.revision)
    × (r.revision ≤ 3)
    × (is_none r.effective_fingerprint ≡ false → r.rpc_ack ≡ true)
    × (r.rpc_ack ≡ false → r.revision ≡ 1)
    × (is_none r.effective_fingerprint ≡ true → r.revision ≤ 2)

abbrev pub IsSettingsRow : SettingsRow → Type 0
IsSettingsRow r = SettingsShape r.state r

-- How many mutations of either kind are unsettled.
abbrev pub unsettled : Journal → ℕ
unsettled j =
    sum_rows (λ r. if is_open r.state then 1 else 0) j.db.operations
    + sum_rows (λ r. if is_none r.effective_fingerprint then 1 else 0) j.db.settings

pub record IsSound (j : Journal) : Type 0 where
  pub rows : All IsRow j.db.operations
  pub settings_rows : All IsSettingsRow j.db.settings
  pub one_unsettled : unsettled j ≤ 1
  pub distinct : has_duplicate (operation_ids j.db.operations) ≡ false
  pub distinct_clients : has_duplicate (client_ids j.db.operations) ≡ false
  pub distinct_settings : has_duplicate (settings_ids j.db.settings) ≡ false
  pub disjoint :
      All (λ r. includes (settings_ids j.db.settings) r.operation_id ≡ false) j.db.operations

-- What an outcome that is about to be written must be, from a row's state.
abbrev pub OutcomeOk : WorkerOperationState → WorkerOperationState → Option Text → Option ℤ → Type 0
OutcomeOk current dispatching receipt code = ⊥
OutcomeOk current unknown receipt code = (current ≡ dispatching) × (receipt ≡ none) × (code ≡ none)
OutcomeOk current accepted receipt code = (no_receipt receipt ≡ false) × (code ≡ none)
OutcomeOk current rejected receipt code = receipt ≡ none

settle-IsRow :
    (current r : OperationRow) (next : WorkerOperationState) (receipt : Option Text)
    (code : Option ℤ)
    → is_open current.state ≡ true
    → OutcomeOk current.state next receipt code
    → selects current r ≡ true
    → IsRow r
    → IsRow (settle next receipt code r)
settle-IsRow current r dispatching receipt code o k s h = elim k [ ]
settle-IsRow current r unknown receipt code o k s h = ground arith
settle-IsRow current r accepted receipt code o k s h = ground arith
settle-IsRow current r rejected receipt code o k s h = ground arith

-- A change of the operation table alone, row by row.
pub write-IsSound :
    (j : Journal) (current : OperationRow) (next : WorkerOperationState) (receipt : Option Text)
    (code : Option ℤ)
    → is_open current.state ≡ true
    → OutcomeOk current.state next receipt code
    → IsSound j
    → IsSound (
        with_operations j
          (update_rows (selects current) (settle next receipt code) j.db.operations))
write-IsSound j current next receipt code o k h =
    let test = selects current in
    let set = settle next receipt code in
    let rows = j.db.operations in
    let fewer =
      sum_rows-update_rows test set (λ r. if is_open r.state then 1 else 0) rows
        (λ r t. ground arith) in
    record {
      rows =
          All-update_rows test set IsRow rows
            (λ r t p. settle-IsRow current r next receipt code o k t p) h.rows;
      settings_rows = h.settings_rows;
      one_unsettled = omega (arith, fewer, h.one_unsettled);
      distinct =
          ap has_duplicate (ids-update_rows test set (λ r. r.operation_id) rows (λ r. refl))
          ∙ h.distinct;
      distinct_clients =
          ap has_duplicate
            (ids-update_rows test set (λ r. r.client_user_message_id) rows (λ r. refl))
          ∙ h.distinct_clients;
      distinct_settings = h.distinct_settings;
      disjoint =
          All-update_rows test set
            (λ r. includes (settings_ids j.db.settings) r.operation_id ≡ false) rows (λ r t p. p)
            h.disjoint;
    }

nothing_unsettled : (j : Journal) → has_unconfirmed j.db ≡ false → unsettled j ≡ 0
unfolding has_unconfirmed
nothing_unsettled j h = ground (
  arith,
  sum_rows_of_any (λ r. is_open r.state) j.db.operations,
  sum_rows_of_any (λ r. is_none r.effective_fingerprint) j.db.settings,
)

-- A new operation row.
pub insert-IsSound :
    (j : Journal) (intent : WorkerOperationIntent)
    → is_empty intent.client_user_message_id ≡ false
    → includes (settings_ids j.db.settings) intent.operation_id ≡ false
    → find_operation j.db.operations intent.operation_id ≡ none
    → has_client j.db.operations intent.client_user_message_id ≡ false
    → has_unconfirmed j.db ≡ false
    → IsSound j
    → IsSound (with_operations j (j.db.operations ++ (new_row intent ∷ [])))
insert-IsSound j intent named apart absent client free h =
    let rows = j.db.operations in
    let row = new_row intent in
    let none_open = nothing_unsettled j free in
    let more = sum_rows-snoc (λ r. if is_open r.state then 1 else 0) rows row in
    record {
      rows = All-append IsRow rows (row ∷ []) h.rows (((refl, refl, refl), named), tt);
      settings_rows = h.settings_rows;
      one_unsettled = omega (arith, more, none_open);
      distinct =
          ap has_duplicate (ids-snoc (λ r. r.operation_id) rows row)
          ∙ has_duplicate-snoc (operation_ids rows) intent.operation_id h.distinct
              (find_operation-includes rows intent.operation_id absent);
      distinct_clients =
          ap has_duplicate (ids-snoc (λ r. r.client_user_message_id) rows row)
          ∙ has_duplicate-snoc (client_ids rows) intent.client_user_message_id h.distinct_clients
              (has_client-includes rows intent.client_user_message_id ∙ client);
      distinct_settings = h.distinct_settings;
      disjoint =
          All-append (λ r. includes (settings_ids j.db.settings) r.operation_id ≡ false) rows
            (row ∷ []) h.disjoint (apart, tt);
    }

apart_rows :
    (rows : List OperationRow) (settings : List SettingsRow) (row : SettingsRow)
    → includes (operation_ids rows) row.operation_id ≡ false
    → All (λ r. includes (settings_ids settings) r.operation_id ≡ false) rows
    → All (λ r. includes (settings_ids (settings ++ (row ∷ []))) r.operation_id ≡ false) rows
unfolding includes ids
apart_rows [] settings row a h = tt
apart_rows (r ∷ rows) settings row a h = (
  ground (
    arith,
    ids-snoc (λ (x : SettingsRow). x.operation_id) settings row,
    includes-snoc (settings_ids settings) row.operation_id r.operation_id,
    ===_iff row.operation_id r.operation_id,
    ===_iff r.operation_id row.operation_id,
  ),
  apart_rows rows settings row (ground arith) h.1,
)

-- A new settings row.
pub insert_settings-IsSound :
    (j : Journal) (intent : SettingsOperationIntent)
    → includes (operation_ids j.db.operations) intent.operation_id ≡ false
    → find_settings j.db.settings intent.operation_id ≡ none
    → has_unconfirmed j.db ≡ false
    → IsSound j
    → IsSound (with_settings j (j.db.settings ++ (new_settings_row intent ∷ [])))
insert_settings-IsSound j intent apart absent free h =
    let rows = j.db.settings in
    let row = new_settings_row intent in
    let none_open = nothing_unsettled j free in
    let more = sum_rows-snoc (λ r. if is_none r.effective_fingerprint then 1 else 0) rows row in
    record {
      rows = h.rows;
      settings_rows =
          All-append IsSettingsRow rows (row ∷ []) h.settings_rows ((refl, refl, refl), tt);
      one_unsettled = omega (arith, more, none_open);
      distinct = h.distinct;
      distinct_clients = h.distinct_clients;
      distinct_settings =
          ap has_duplicate (ids-snoc (λ r. r.operation_id) rows row)
          ∙ has_duplicate-snoc (settings_ids rows) intent.operation_id h.distinct_settings
              (find_settings-includes rows intent.operation_id absent);
      disjoint = apart_rows j.db.operations rows row apart h.disjoint;
    }

-- A change of the settings table alone, row by row.
pub write_settings-IsSound :
    (j : Journal) (test : SettingsRow → Bool) (set : SettingsRow → SettingsRow)
    → ((r : SettingsRow) → (set r).operation_id ≡ r.operation_id)
    → ((r : SettingsRow)
        → test r ≡ true
        → is_none r.effective_fingerprint ≡ false
        → is_none (set r).effective_fingerprint ≡ false)
    → ((r : SettingsRow) → test r ≡ true → IsSettingsRow r → IsSettingsRow (set r))
    → IsSound j
    → IsSound (with_settings j (update_rows test set j.db.settings))
write_settings-IsSound j test set keeps confirmed shape h =
    let rows = j.db.settings in
    let fewer =
      sum_rows-update_rows test set (λ r. if is_none r.effective_fingerprint then 1 else 0) rows
        (λ r t. ground (arith, confirmed r t)) in
    let same_ids = ids-update_rows test set (λ r. r.operation_id) rows keeps in
    record {
      rows = h.rows;
      settings_rows = All-update_rows test set IsSettingsRow rows shape h.settings_rows;
      one_unsettled = omega (arith, fewer, h.one_unsettled);
      distinct = h.distinct;
      distinct_clients = h.distinct_clients;
      distinct_settings = ap has_duplicate same_ids ∙ h.distinct_settings;
      disjoint = rw same_ids h.disjoint;
    }
