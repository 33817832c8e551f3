-- ===== src/Bridge/Inbox/Rows.antt =====
-- src/bridge/store.ts: what the SQL statements on the message journal keep of the row with an ID.
use vkodex.Prelude.{
  ◌≡◌, refl, Bool, true, false, Option, none, some, List, [], ◌∷◌, ◌++◌, arith, if◌then◌else◌,
  Option-cases, inl, inr,
}
use vkodex.Prelude.JsText.{Text, ===_iff}
use vkodex.OperationJournal.Tables.{update_rows}
use vkodex.Bridge.Inbox.Tables.{InputRow, find_input}

-- The row with an ID is there and passes a test.
abbrev pub holds : (InputRow → Bool) → Option InputRow → Bool
holds p none = false
holds p (some r) = p r

abbrev pub mapped : (InputRow → InputRow) → Option InputRow → Option InputRow
mapped f none = none
mapped f (some r) = some (f r)

pub find_input-id :
    (rows : List InputRow) (k : Text) {row : InputRow} → find_input rows k ≡ some row → row.id ≡ k
unfolding find_input
find_input-id [] k e = cc
find_input-id (r ∷ rows) k {row} e =
    ground (arith, ===_iff r.id k, find_input-id rows k {row = row})

module _ (test : InputRow → Bool) (set : InputRow → InputRow) where
  pub find_input-update_rows :
      (rows : List InputRow) (k : Text)
      → ((r : InputRow) → (set r).id ≡ r.id)
      → find_input (update_rows test set rows) k
        ≡ mapped (λ r. if test r then set r else r) (find_input rows k)
  unfolding find_input update_rows
  find_input-update_rows [] k keeps = refl
  find_input-update_rows (r ∷ rows) k keeps =
      ground (arith, keeps r, find_input-update_rows rows k keeps)

  pub holds-update_rows :
      (p q : InputRow → Bool) (rows : List InputRow) (k : Text)
      → ((r : InputRow) → (set r).id ≡ r.id)
      → ((r : InputRow) → r.id ≡ k → p r ≡ true → q (if test r then set r else r) ≡ true)
      → holds p (find_input rows k) ≡ true
      → holds q (find_input (update_rows test set rows) k) ≡ true
  unfolding find_input
  holds-update_rows p q rows k keeps h e =
      rw (find_input-update_rows rows k keeps) elim (Option-cases (find_input rows k)) [
        | inl gone ↦ ground arith
        | inr (r, found) ↦ rw found (h r (find_input-id rows k found) (rw found at e))
      ]

pub holds-snoc :
    (p : InputRow → Bool) (rows : List InputRow) (r : InputRow) (k : Text)
    → holds p (find_input rows k) ≡ true
    → holds p (find_input (rows ++ (r ∷ [])) k) ≡ true
unfolding find_input
holds-snoc p [] r k e = cc
holds-snoc p (x ∷ rows) r k e = ground (arith, holds-snoc p rows r k)
