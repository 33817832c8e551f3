-- ===== src/Bridge/Staging/Shed.antt =====
-- src/bridge/store.ts: what the statements on staged files make of the sums over their rows.
use vkodex.Prelude.{
  ℕ, ◌≤◌, ◌≡◌, refl, Bool, true, not, ◌&&◌, Option, none, some, List, [], ◌∷◌, ◌++◌, arith, keep,
  Bool-cases, inl, inr, Result-cases, ok, any,
}
use vkodex.Prelude.JsText.{Text, ◌===◌}
use vkodex.OperationJournal.Tables.{update_rows}
use vkodex.OperationJournal.Rows.{sum_rows, sum_rows-update_rows}
use vkodex.Bridge.Staging.Tables.{
  StageRow, ready, is_reserved, RecycleRow, RecycleState, pending, recycled, is_pending, Stages,
  recycle_state, not_recycled, is_charged,
}
use vkodex.Bridge.Staging.Calls.{
  StageReceipt, StageCandidate, abandons, abandon_stage_reservation, mark_stage_ready, is_ready_at,
  pending_from, mark_stage_recycle_pending, mark_stage_recycled, StageCall, reserve, abandon,
  mark_ready, recycle_pending, recycle_done, step,
}

module _ {R : Type 0} where
  sum_rows-le :
      (f g : R → ℕ) (rows : List R) → ((r : R) → f r ≤ g r) → sum_rows f rows ≤ sum_rows g rows
  unfolding sum_rows
  sum_rows-le f g [] h = omega arith
  sum_rows-le f g (r ∷ rows) h = omega (arith, h r, sum_rows-le f g rows h)

  sum_rows-keep :
      (f : R → ℕ) (p : R → Bool) (rows : List R) → sum_rows f (keep p rows) ≤ sum_rows f rows
  unfolding sum_rows keep
  sum_rows-keep f p [] = omega arith
  sum_rows-keep f p (r ∷ rows) = ground (arith, sum_rows-keep f p rows)

recycle_state-snoc :
    (cs : List RecycleRow) (c : RecycleRow) (k : Text)
    → recycle_state cs c.file_key ≡ none
    → is_pending c.state ≡ true
    → not_recycled (recycle_state (cs ++ (c ∷ [])) k) ≡ not_recycled (recycle_state cs k)
unfolding recycle_state
recycle_state-snoc [] c k e p = ground arith
recycle_state-snoc (x ∷ cs) c k e p = ground (arith, recycle_state-snoc cs c k)

recycle_state-recycled :
    (test : RecycleRow → Bool) (now : ℕ) (cs : List RecycleRow) (k : Text)
    → not_recycled (
        recycle_state
          (update_rows test (λ c. record c { state = recycled; updated_at = now }) cs)
          k)
      ≡ true
    → not_recycled (recycle_state cs k) ≡ true
unfolding recycle_state update_rows
recycle_state-recycled test now [] k e = refl
recycle_state-recycled test now (c ∷ cs) k e = ground (arith, recycle_state-recycled test now cs k)

-- Of the calls, only a reservation can add to a sum.
abbrev pub NoReserve : StageCall → Type 0
NoReserve (reserve q now) = ⊥
NoReserve _ = Unit

-- A weight of a row that counts only while the row is charged, and that its state does not change.
module _ (w : List RecycleRow → StageRow → ℕ)
    (settles : (cs : List RecycleRow) (r : StageRow) → w cs (record r { state = ready }) ≤ w cs r)
    (falls : (cs cs' : List RecycleRow) (r : StageRow)
      → (is_charged cs' r ≡ true → is_charged cs r ≡ true)
      → w cs' r ≤ w cs r) where
  abbrev pub total : Stages → ℕ
  total s = sum_rows (w s.recycling) s.reservations

  abandon-le :
      (s : Stages) (index : StageReceipt) (c : StageCandidate) (now : ℕ)
      → total (abandon_stage_reservation s index c now).0 ≤ total s
  unfolding abandon_stage_reservation
  abandon-le s index c now =
      ground
        (arith, sum_rows-keep (w s.recycling) (λ r. not (abandons s.recycling c r)) s.reservations)

  ready-le :
      (s : Stages) (k path : Text) {s' : Stages}
      → mark_stage_ready s k path ≡ ok s'
      → total s' ≤ total s
  unfolding mark_stage_ready
  ready-le s k path {s'} e = ground (
    arith,
    sum_rows-update_rows (λ r. r.file_key === k && r.path === path && is_reserved r.state)
        (λ r. record r { state = ready }) (w s.recycling) s.reservations
        (λ r t. settles s.recycling r),
  )

  pending_from-le :
      (s : Stages) (k : Text) (now : ℕ) (o : Option RecycleState)
      → recycle_state s.recycling k ≡ o
      → total (pending_from s k now o).0 ≤ total s
  unfolding pending_from is_charged
  pending_from-le s k now (some recycled) e = omega arith
  pending_from-le s k now (some pending) e = omega arith
  pending_from-le s k now none e =
      let row : RecycleRow = record { file_key = k; state = pending; updated_at = now } in
      sum_rows-le (w (s.recycling ++ (row ∷ []))) (w s.recycling) s.reservations (λ r.
        falls s.recycling (s.recycling ++ (row ∷ [])) r
          (λ h. ground (arith, recycle_state-snoc s.recycling row r.file_key e)))

  recycle_pending-le :
      (s : Stages) (k path : Text) (now : ℕ)
      → total (mark_stage_recycle_pending s k path now).0 ≤ total s
  unfolding mark_stage_recycle_pending
  recycle_pending-le s k path now = elim (Bool-cases (any (is_ready_at k path) s.reservations)) [
    | inl there ↦ rw there (pending_from-le s k now (recycle_state s.recycling k) refl)
    | inr gone ↦ rw gone (omega arith)
  ]

  recycle_done-le :
      (s : Stages) (k path : Text) (now : ℕ) {s' : Stages}
      → mark_stage_recycled s k path now ≡ ok s'
      → total s' ≤ total s
  unfolding mark_stage_recycled is_charged
  recycle_done-le s k path now {s'} e =
      let test : RecycleRow → Bool =
        λ c. c.file_key === k && is_pending c.state && any (is_ready_at k path) s.reservations in
      let cs : List RecycleRow =
        update_rows test (λ c. record c { state = recycled; updated_at = now }) s.recycling in
      let less : sum_rows (w cs) s.reservations ≤ total s =
        sum_rows-le (w cs) (w s.recycling) s.reservations
          (λ r. falls s.recycling cs r (recycle_state-recycled test now s.recycling r.file_key)) in
      ground arith

  pub step-le : (s : Stages) (c : StageCall) → NoReserve c → total (step s c) ≤ total s
  unfolding step
  step-le s (reserve q now) n = absurd n
  step-le s (abandon index c now) n = abandon-le s index c now
  step-le s (mark_ready k path) n = elim (Result-cases (mark_stage_ready s k path)) [
    | inl (s', e) ↦ rw e (ready-le s k path e)
    | inr (x, e) ↦ rw e (omega arith)
  ]
  step-le s (recycle_pending k path now) n = recycle_pending-le s k path now
  step-le s (recycle_done k path now) n = elim (Result-cases (mark_stage_recycled s k path now)) [
    | inl (s', e) ↦ rw e (recycle_done-le s k path now e)
    | inr (x, e) ↦ rw e (omega arith)
  ]
