-- ===== src/QueueState/Loops.antt =====
-- src/codex/native-queue-state.ts: the two loops of `classifyNativeQueueState`.

use vkodex.Prelude.{
  ℕ, suc, ◌≤◌, ◌≡◌, refl, ap₂, subst, ◌⊎◌, false, none, some, List, [], ◌∷◌, ◌++◌, arith, ok,
  get_elem?, drop, Subsequence, nil, drop-take, drop-take_inv, Option-cases, Result-cases, inl, inr,
}
use vkodex.Prelude.JsText.{===_iff, ===_refl}
use vkodex.Prelude.JsMap
use vkodex.Prelude.JsMap.{JsMap, includes}
use vkodex.QueueState.{
  QueueEntryIdentity, has_duplicate_id, consumed_index, body_changed, strip_consumed, match_pending,
}
use vkodex.QueueState.Known.{consumed_index_sound, consumed_index-finds}

abbrev pub Rows : Type 0
Rows = List QueueEntryIdentity

abbrev pub Covers : JsMap QueueEntryIdentity → Rows → Type 0
Covers known tombstones =
    (i : ℕ) (r : QueueEntryIdentity)
    → get_elem? tombstones i ≡ some r
    → JsMap.get known r.id ≡ some r

-- A row whose body is the known one is that row.
row_of_body :
    (known : JsMap QueueEntryIdentity) (row r : QueueEntryIdentity)
    → JsMap.get known r.id ≡ some r
    → r.id ≡ row.id
    → body_changed known row ≡ false
    → r ≡ row
unfolding body_changed
row_of_body known row r e same b = ground (arith, ===_iff r.fingerprint row.fingerprint)

body_unchanged :
    (known : JsMap QueueEntryIdentity) (row : QueueEntryIdentity)
    → JsMap.get known row.id ≡ some row
    → body_changed known row ≡ false
unfolding body_changed
body_unchanged known row e = ground (arith, ===_refl row.fingerprint)

-- One round that succeeded: the row is no tombstone and the loop ends, or it is the next one.
strip_consumed-round :
    (t : Rows) (k : JsMap QueueEntryIdentity) (n : ℕ) (row : QueueEntryIdentity) (rows s r : Rows)
    → strip_consumed t k n (row ∷ rows) ≡ ok (s, r)
    → ((s ≡ []) × (r ≡ row ∷ rows))
      ⊎ ((i : ℕ) × (s' : Rows) × (consumed_index t row.id ≡ some i)
          × (n ≤ i)
          × (body_changed k row ≡ false)
          × (strip_consumed t k (suc i) rows ≡ ok (s', r))
          × (s ≡ row ∷ s'))
unfolding strip_consumed
strip_consumed-round t k n row rows s r e = elim (Option-cases (consumed_index t row.id)) [
  | inl absent ↦ inl (ground arith, ground arith)
  | inr (i, f) ↦ elim (Result-cases (strip_consumed t k (suc i) rows)) [
    | inl ((s', r'), g) ↦ inr (i, s', f, ground arith, ground arith, ground arith, ground arith)
    | inr (x, g) ↦ absurd (ground arith)
  ]
]

pub strip_consumed_sound :
    (t : Rows) (k : JsMap QueueEntryIdentity) (n : ℕ) (offered s r : Rows)
    → Covers k t
    → strip_consumed t k n offered ≡ ok (s, r)
    → (offered ≡ s ++ r) × Subsequence s (drop n t)
unfolding strip_consumed
strip_consumed_sound t k n [] s r c e =
    let empty : [] ≡ s = ground arith in
    let rest : [] ≡ r = ground arith in
    (ap₂ ◌++◌ empty rest, subst (λ z. Subsequence z (drop n t)) empty nil)
strip_consumed_sound t k n (row ∷ rows) s r c e = elim (strip_consumed-round t k n row rows s r e) [
  | inl (empty, rest) ↦ (rw (empty, rest), rw empty nil)
  | inr (i, s', f, le, same, more, e') ↦
      let (split, sub) = strip_consumed_sound t k (suc i) rows s' r c more in
      let (x, found, id) = consumed_index_sound t row.id i f in
      let x_row = row_of_body k row x (c i x found) id same in
      (rw (e', split), rw (e', ← x_row) (drop-take t n i le found sub))
]

-- The head of what remains is no tombstone.
abbrev pub Stops : Rows → Rows → Type 0
Stops t [] = Unit
Stops t (row ∷ rows) = consumed_index t row.id ≡ none

pub strip_consumed_complete :
    (t : Rows) (k : JsMap QueueEntryIdentity) (n : ℕ) (s r : Rows)
    → Covers k t
    → has_duplicate_id t ≡ false
    → Subsequence s (drop n t)
    → Stops t r
    → strip_consumed t k n (s ++ r) ≡ ok (s, r)
unfolding strip_consumed
strip_consumed_complete t k n [] [] c d sub stop = refl
strip_consumed_complete t k n [] (row ∷ r) c d sub stop = rw (stop, strip_consumed)
strip_consumed_complete t k n (row ∷ s) r c d sub stop =
    let (i, le, found, sub') = drop-take_inv t n sub in
    let index = consumed_index-finds t i row d found in
    let rest = strip_consumed_complete t k (suc i) s r c d sub' stop in
    let same = body_unchanged k row (c i row found) in ground arith

pub match_pending_sound :
    (known : JsMap QueueEntryIdentity) (pending remaining tail : Rows)
    → match_pending known pending remaining ≡ ok tail
    → remaining ≡ pending ++ tail
unfolding match_pending
match_pending_sound k [] r tail e = ground arith
match_pending_sound k (x ∷ p) [] tail e = cc
match_pending_sound k (x ∷ p) (y ∷ r) tail e =
    ground (
      arith,
      match_pending_sound k p r tail,
      ===_iff y.id x.id,
      ===_iff y.fingerprint x.fingerprint,
    )

pub match_pending_complete :
    (known : JsMap QueueEntryIdentity) (pending tail : Rows)
    → match_pending known pending (pending ++ tail) ≡ ok tail
unfolding match_pending
match_pending_complete k [] tail = refl
match_pending_complete k (x ∷ p) tail =
    ground (arith, match_pending_complete k p tail, ===_refl x.id, ===_refl x.fingerprint)
