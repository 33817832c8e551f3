-- ===== src/Registry/Exclusive.antt =====
-- src/codex/managed-worker-registry.ts: the unique index on the active attempts of a family.
use vkodex.Prelude.{◌≡◌, refl, Bool, true, false, not, ◌&&◌, ◌||◌, List, [], ◌∷◌, ◌++◌, arith}
use vkodex.Prelude.JsText.{Text, ===_iff}
use vkodex.OperationJournal.Tables.{update_rows}
use vkodex.Registry.Attempts.{is_retired, in_family, WorkerAttempt, has_active}

-- No two rows that are not retired have one home and family root.
unfoldable pub is_exclusive : List WorkerAttempt → Bool
is_exclusive [] = true
is_exclusive (r ∷ rs) =
    (is_retired r.state || not (has_active rs r.canonical_home r.family_root)) && is_exclusive rs

module _ (test : WorkerAttempt → Bool) (set : WorkerAttempt → WorkerAttempt)
    (active : (r : WorkerAttempt) → test r ≡ true → is_retired r.state ≡ false)
    (keeps : (r : WorkerAttempt)
      → ((set r).canonical_home ≡ r.canonical_home) × ((set r).family_root ≡ r.family_root)) where
  pub has_active-update_rows :
      (rows : List WorkerAttempt) (home family : Text)
      → has_active rows home family ≡ false
      → has_active (update_rows test set rows) home family ≡ false
  unfolding has_active update_rows
  has_active-update_rows [] home family h = refl
  has_active-update_rows (r ∷ rows) home family h =
      ground (arith, active r, keeps r, has_active-update_rows rows home family)

  pub is_exclusive-update_rows :
      (rows : List WorkerAttempt)
      → is_exclusive rows ≡ true
      → is_exclusive (update_rows test set rows) ≡ true
  unfolding is_exclusive update_rows
  is_exclusive-update_rows [] h = refl
  is_exclusive-update_rows (r ∷ rows) h = ground (
    arith,
    active r,
    keeps r,
    is_exclusive-update_rows rows,
    has_active-update_rows rows r.canonical_home r.family_root,
  )

pub has_active-snoc :
    (rows : List WorkerAttempt) (r : WorkerAttempt) (home family : Text)
    → has_active (rows ++ (r ∷ [])) home family
      ≡ (has_active rows home family || (in_family home family r && not (is_retired r.state)))
unfolding has_active
has_active-snoc [] r home family = ground arith
has_active-snoc (s ∷ rows) r home family = ground (arith, has_active-snoc rows r home family)

pub is_exclusive-snoc :
    (rows : List WorkerAttempt) (r : WorkerAttempt)
    → is_exclusive rows ≡ true
    → has_active rows r.canonical_home r.family_root ≡ false
    → is_exclusive (rows ++ (r ∷ [])) ≡ true
unfolding is_exclusive has_active
is_exclusive-snoc [] r e h = ground arith
is_exclusive-snoc (s ∷ rows) r e h = ground (
  arith,
  is_exclusive-snoc rows r,
  has_active-snoc rows r s.canonical_home s.family_root,
  ===_iff r.canonical_home s.canonical_home,
  ===_iff s.canonical_home r.canonical_home,
  ===_iff r.family_root s.family_root,
  ===_iff s.family_root r.family_root,
)
