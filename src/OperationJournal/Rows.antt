-- ===== src/OperationJournal/Rows.antt =====
-- src/codex/managed-worker-operation-journal.ts: what the SQL statements keep of the rows.

use vkodex.Prelude.{
  ℕ, ◌+◌, ◌≤◌, ◌≡◌, refl, ap, subst, Bool, true, false, none, some, List, [], ◌∷◌, ◌++◌, arith,
  if◌then◌else◌, any, All, Bool-cases, inl, inr,
}
use vkodex.Prelude.JsText.{Text, ◌===◌, ===_iff}
use vkodex.Prelude.JsMap.{includes}
use vkodex.OperationJournal.Tables.{
  OperationRow, SettingsRow, find_operation, has_client, find_settings, update_rows, count_rows,
}

unfoldable pub sum_rows : {R : Type 0} → (R → ℕ) → List R → ℕ
sum_rows w [] = 0
sum_rows w (r ∷ rs) = w r + sum_rows w rs

unfoldable pub ids : {R : Type 0} → (R → Text) → List R → List Text
ids f [] = []
ids f (r ∷ rs) = f r ∷ ids f rs

module _ {R : Type 0} (test : R → Bool) (set : R → R) where
  pub sum_rows-update_rows :
      (w : R → ℕ) (rows : List R)
      → ((r : R) → test r ≡ true → w (set r) ≤ w r)
      → sum_rows w (update_rows test set rows) ≤ sum_rows w rows
  unfolding sum_rows update_rows
  sum_rows-update_rows w [] h = omega arith
  sum_rows-update_rows w (r ∷ rs) h = ground (arith, h r, sum_rows-update_rows w rs h)

  pub ids-update_rows :
      (f : R → Text) (rows : List R)
      → ((r : R) → f (set r) ≡ f r)
      → ids f (update_rows test set rows) ≡ ids f rows
  unfolding ids update_rows
  ids-update_rows f [] h = refl
  ids-update_rows f (r ∷ rs) h = ground (arith, h r, ids-update_rows f rs h)

  pub All-update_rows {κ} :
      (P : R → Type κ) (rows : List R)
      → ((r : R) → test r ≡ true → P r → P (set r))
      → All P rows
      → All P (update_rows test set rows)
  unfolding update_rows
  All-update_rows P [] h a = tt
  All-update_rows P (r ∷ rs) h a = elim (Bool-cases (test r)) [
    | inl yes' ↦ rw yes' (h r yes' a.0, All-update_rows P rs h a.1)
    | inr no' ↦ rw no' (a.0, All-update_rows P rs h a.1)
  ]

module _ {R : Type 0} where
  pub sum_rows-snoc :
      (w : R → ℕ) (rows : List R) (r : R) → sum_rows w (rows ++ (r ∷ [])) ≡ sum_rows w rows + w r
  unfolding sum_rows
  sum_rows-snoc w [] r = omega arith
  sum_rows-snoc w (x ∷ rows) r = omega (arith, sum_rows-snoc w rows r)

  pub ids-snoc :
      (f : R → Text) (rows : List R) (r : R) → ids f (rows ++ (r ∷ [])) ≡ ids f rows ++ (f r ∷ [])
  unfolding ids
  ids-snoc f [] r = refl
  ids-snoc f (x ∷ rows) r = ap (◌∷◌ (f x)) (ids-snoc f rows r)

  -- No row passes the test exactly when the rows that pass it count nothing.
  pub sum_rows_of_any :
      (test : R → Bool) (rows : List R)
      → any test rows ≡ false
      → sum_rows (λ r. if test r then 1 else 0) rows ≡ 0
  unfolding any sum_rows
  sum_rows_of_any test [] h = refl
  sum_rows_of_any test (r ∷ rows) h = ground (arith, sum_rows_of_any test rows)

pub count_rows-snoc :
    {R : Type 0} (test : R → Bool) (rows : List R) (r : R)
    → count_rows test (rows ++ (r ∷ [])) ≡ count_rows test rows + (if test r then 1 else 0)
unfolding count_rows
count_rows-snoc test [] r = omega arith
count_rows-snoc test (x ∷ rows) r = omega (arith, count_rows-snoc test rows r)

pub count_rows-update_rows :
    {R : Type 0} (counts test : R → Bool) (set : R → R) (rows : List R)
    → ((r : R) → test r ≡ true → counts (set r) ≡ true → counts r ≡ true)
    → count_rows counts (update_rows test set rows) ≤ count_rows counts rows
unfolding count_rows update_rows
count_rows-update_rows counts test set [] h = omega arith
count_rows-update_rows counts test set (r ∷ rows) h =
    ground (arith, h r, count_rows-update_rows counts test set rows h)

pub find_operation-includes :
    (rows : List OperationRow) (id : Text)
    → find_operation rows id ≡ none
    → includes (ids (λ r. r.operation_id) rows) id ≡ false
unfolding find_operation ids includes
find_operation-includes [] id h = refl
find_operation-includes (r ∷ rows) id h = ground (arith, find_operation-includes rows id)

pub find_settings-includes :
    (rows : List SettingsRow) (id : Text)
    → find_settings rows id ≡ none
    → includes (ids (λ r. r.operation_id) rows) id ≡ false
unfolding find_settings ids includes
find_settings-includes [] id h = refl
find_settings-includes (r ∷ rows) id h = ground (arith, find_settings-includes rows id)

pub has_client-includes :
    (rows : List OperationRow) (id : Text)
    → includes (ids (λ r. r.client_user_message_id) rows) id ≡ has_client rows id
unfolding has_client ids includes
has_client-includes [] id = refl
has_client-includes (r ∷ rows) id = ground (arith, has_client-includes rows id)

pub All-find_operation {κ} :
    (P : OperationRow → Type κ) (rows : List OperationRow) (id : Text) {row : OperationRow}
    → All P rows
    → find_operation rows id ≡ some row
    → P row
unfolding find_operation
All-find_operation P [] id a e = cc
All-find_operation P (r ∷ rows) id {row} a e = elim (Bool-cases (r.operation_id === id)) [
  | inl same ↦ let eq : r ≡ row = ground arith in subst P eq a.0
  | inr other ↦ All-find_operation P rows id a.1 (ground arith)
]

pub All-find_settings {κ} :
    (P : SettingsRow → Type κ) (rows : List SettingsRow) (id : Text) {row : SettingsRow}
    → All P rows
    → find_settings rows id ≡ some row
    → P row
unfolding find_settings
All-find_settings P [] id a e = cc
All-find_settings P (r ∷ rows) id {row} a e = elim (Bool-cases (r.operation_id === id)) [
  | inl same ↦ let eq : r ≡ row = ground arith in subst P eq a.0
  | inr other ↦ All-find_settings P rows id a.1 (ground arith)
]

pub find_operation-id :
    (rows : List OperationRow) (id : Text) {row : OperationRow}
    → find_operation rows id ≡ some row
    → row.operation_id ≡ id
unfolding find_operation
find_operation-id [] id e = cc
find_operation-id (r ∷ rows) id {row} e =
    ground (arith, ===_iff r.operation_id id, find_operation-id rows id {row = row})

pub find_operation-snoc :
    (rows : List OperationRow) (r : OperationRow) (id : Text) {row : OperationRow}
    → find_operation rows id ≡ some row
    → find_operation (rows ++ (r ∷ [])) id ≡ some row
unfolding find_operation
find_operation-snoc [] r id e = cc
find_operation-snoc (x ∷ rows) r id {row} e =
    ground (arith, find_operation-snoc rows r id {row = row})

-- The first row with an ID is updated in its place.
pub find_operation-update_rows :
    (test : OperationRow → Bool) (set : OperationRow → OperationRow) (rows : List OperationRow)
    (id : Text) {row : OperationRow}
    → ((r : OperationRow) → (set r).operation_id ≡ r.operation_id)
    → find_operation rows id ≡ some row
    → find_operation (update_rows test set rows) id ≡ some (if test row then set row else row)
unfolding find_operation update_rows
find_operation-update_rows test set [] id keeps e = cc
find_operation-update_rows test set (r ∷ rows) id {row} keeps e =
    ground (arith, keeps r, find_operation-update_rows test set rows id {row = row} keeps)
