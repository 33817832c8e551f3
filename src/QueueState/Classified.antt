-- ===== src/QueueState/Classified.antt =====
-- src/codex/native-queue-state.ts: `classifyNativeQueueState` against its description: the incoming
-- rows are some consumed rows in their order, then all pending rows, then at most one new row.
use mathlib.Core.List.{append-nil}
use native.Mathlib.Nat.{zero-add, suc-add}
use vkodex.Prelude.{
  ℕ, ◌+◌, ◌≡◌, ◌↔◌, refl, ◌∙◌, ap, subst, false, List, [], ◌∷◌, ◌++◌, arith, inl, inr, ok,
  get_elem?, Subsequence, Result-cases, length, length-append,
}
use vkodex.Prelude.JsText.{Text}
use vkodex.Prelude.JsMap
use vkodex.Prelude.JsMap.{JsMap, includes}
use vkodex.QueueState.{
  QueueEntryIdentity, NativeQueueState, NativeQueueStateClassification, replay, append, ids_of,
  require_identities, add_known, has_duplicate_id, strip_consumed, match_pending, classify_tail,
  classify,
}
use vkodex.QueueState.Known.{
  add_known-holds, add_known-absent, add_known-total, add_known-distinct, add_known-missing,
  consumed_index-absent,
}
use vkodex.QueueState.Loops.{
  Rows, Covers, Stops, strip_consumed_sound, strip_consumed_complete, match_pending_sound,
  match_pending_complete,
}

-- What the state must be for the description below to apply: every identity well formed, the IDs of
-- the durable rows distinct, those of the incoming rows distinct.
pub record IsQualified (state : NativeQueueState) : Type 0 where
  pub pending_ok : require_identities state.current_pending ≡ ok tt
  pub consumed_ok : require_identities state.consumed ≡ ok tt
  pub incoming_ok : require_identities state.incoming ≡ ok tt
  pub durable : has_duplicate_id (state.current_pending ++ state.consumed) ≡ false
  pub offered : has_duplicate_id state.incoming ≡ false

get_elem?-append_right :
    {A : Type 0} (xs ys : List A) (i : ℕ) → get_elem? (xs ++ ys) (length xs + i) ≡ get_elem? ys i
get_elem?-append_right [] ys i = rw zero-add
get_elem?-append_right (x ∷ xs) ys i = rw suc-add (get_elem?-append_right xs ys i)

has_duplicate_id-append :
    (xs ys : Rows) → has_duplicate_id (xs ++ ys) ≡ false → has_duplicate_id ys ≡ false
unfolding has_duplicate_id
has_duplicate_id-append [] ys h = h
has_duplicate_id-append (x ∷ xs) ys h = ground (arith, has_duplicate_id-append xs ys)

includes-append :
    (xs ys : Rows) (id : Text)
    → includes (ids_of (xs ++ ys)) id ≡ false
    → includes (ids_of ys) id ≡ false
unfolding includes
includes-append [] ys id h = h
includes-append (x ∷ xs) ys id h = ground (arith, includes-append xs ys id)

Covers-consumed :
    (pending consumed : Rows) (known : JsMap QueueEntryIdentity)
    → add_known [] (pending ++ consumed) ≡ ok known
    → Covers known consumed
Covers-consumed pending consumed known e = λ i r found.
    add_known-holds [] known (pending ++ consumed) (length pending + i) r e
      (get_elem?-append_right pending consumed i ∙ found)

-- The description of each classification.
pub data Explains (state : NativeQueueState) : NativeQueueStateClassification → Type 0 where
  replayed :
      (stripped : Rows)
      → Subsequence stripped state.consumed
      → state.incoming ≡ stripped ++ state.current_pending
      → Explains state (replay (ids_of state.current_pending) (ids_of stripped))
  appended :
      (stripped : Rows) (next : QueueEntryIdentity)
      → Subsequence stripped state.consumed
      → state.incoming ≡ stripped ++ (state.current_pending ++ (next ∷ []))
      → includes (ids_of (state.current_pending ++ state.consumed)) next.id ≡ false
      → Explains state
          (append (ids_of state.current_pending ++ (next.id ∷ [])) (ids_of stripped) next.id)

-- The tail decides which of the two it is.
classify_tail-Explains :
    (state : NativeQueueState) (known : JsMap QueueEntryIdentity) (stripped tail : Rows)
    {c : NativeQueueStateClassification}
    → add_known [] (state.current_pending ++ state.consumed) ≡ ok known
    → Subsequence stripped state.consumed
    → state.incoming ≡ stripped ++ (state.current_pending ++ tail)
    → classify_tail known (ids_of state.current_pending) (ids_of stripped) tail ≡ ok c
    → Explains state c
unfolding classify_tail
classify_tail-Explains state known stripped [] added sub split e =
    subst (Explains state) (ground arith) (replayed stripped sub (split ∙ rw append-nil))
classify_tail-Explains state known stripped (next ∷ []) added sub split e =
    subst (Explains state) (ground arith) (
      appended stripped next sub split (
        add_known-missing [] known (state.current_pending ++ state.consumed) next.id added
          (ground arith)))
classify_tail-Explains state known stripped (_ ∷ _ ∷ _) added sub split e = cc

classify_sound :
    (state : NativeQueueState) {c : NativeQueueStateClassification}
    → classify state ≡ ok c
    → IsQualified state × Explains state c
unfolding classify
classify_sound state {c} e =
    elim (Result-cases (add_known [] (state.current_pending ++ state.consumed))) [
      | inr (x, f) ↦ absurd (ground arith)
      | inl (known, f) ↦
          elim (Result-cases (strip_consumed state.consumed known 0 state.incoming)) [
            | inr (x, g) ↦ absurd (ground arith)
            | inl ((stripped, remaining), g) ↦
                elim (Result-cases (match_pending known state.current_pending remaining)) [
                  | inr (x, h) ↦ absurd (ground arith)
                  | inl (tail, h) ↦
                      let (split, sub) =
                        strip_consumed_sound state.consumed known 0 state.incoming stripped
                          remaining (Covers-consumed state.current_pending state.consumed known f)
                          g in
                      let rest = match_pending_sound known state.current_pending remaining tail h in
                      let distinct =
                        add_known-distinct [] known (state.current_pending ++ state.consumed) f in
                      let qualified : IsQualified state = ground arith in
                      (
                        qualified,
                        classify_tail-Explains state known stripped tail f sub
                            (split ∙ ap (◌++◌ stripped) rest) (ground arith),
                      )
                ]
          ]
    ]

-- The first row behind the stripped ones is no tombstone.
stops :
    (pending consumed tail : Rows)
    → has_duplicate_id (pending ++ consumed) ≡ false
    → Stops consumed tail
    → Stops consumed (pending ++ tail)
unfolding has_duplicate_id
stops [] consumed tail d h = h
stops (p ∷ pending) consumed tail d h =
    consumed_index-absent consumed p.id (includes-append pending consumed p.id (ground arith))

-- The run of `classify` up to the tail.
classify_to_tail :
    (state : NativeQueueState) (stripped tail : Rows)
    → IsQualified state
    → Subsequence stripped state.consumed
    → state.incoming ≡ stripped ++ (state.current_pending ++ tail)
    → Stops state.consumed tail
    → (known : JsMap QueueEntryIdentity) × (add_known [] (state.current_pending ++ state.consumed)
        ≡ ok known)
      × (classify state ≡ classify_tail known (ids_of state.current_pending) (ids_of stripped) tail)
unfolding classify JsMap.get
classify_to_tail state stripped tail q sub split stop =
    let durable = state.current_pending ++ state.consumed in
    let (known, added) = add_known-total [] durable (λ id _. refl) q.durable in
    let strip =
      strip_consumed_complete state.consumed known 0 stripped (state.current_pending ++ tail)
        (Covers-consumed state.current_pending state.consumed known added)
        (has_duplicate_id-append state.current_pending state.consumed q.durable) sub
        (stops state.current_pending state.consumed tail q.durable stop) in
    let matched = match_pending_complete known state.current_pending tail in
    let long = length-append state.current_pending tail in
    (known, added, ground (arith, added, strip, matched, long))

classify_complete :
    (state : NativeQueueState) {c : NativeQueueStateClassification}
    → IsQualified state
    → Explains state c
    → classify state ≡ ok c
unfolding classify_tail JsMap.get
classify_complete state q (replayed stripped sub split) =
    let (known, added, run) = classify_to_tail state stripped [] q sub (split ∙ rw append-nil) tt in
    run
classify_complete state q (appended stripped next sub split new) =
    let stop =
      consumed_index-absent state.consumed next.id
        (includes-append state.current_pending state.consumed next.id new) in
    let (known, added, run) = classify_to_tail state stripped (next ∷ []) q sub split stop in
    let absent =
      add_known-absent [] known (state.current_pending ++ state.consumed) next.id added refl new in
    run ∙ ground (arith, absent)

-- `classifyNativeQueueState` gives a classification exactly when every identity is well formed, the
-- durable IDs and the incoming IDs are distinct, and the incoming rows are some consumed rows in their
-- order, then every pending row in its order, then nothing (a replay) or one row whose ID is not
-- durable (an append); the classification lists the IDs accordingly. In every other case it throws.
pub classify_iff :
    (state : NativeQueueState) (c : NativeQueueStateClassification)
    → (classify state ≡ ok c) ↔ (IsQualified state × Explains state c)
classify_iff state c = (classify_sound state, λ h. classify_complete state h.0 h.1)
