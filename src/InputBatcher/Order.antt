-- ===== src/InputBatcher/Order.antt =====
-- src/bridge/input-batcher.ts: the order of a peer's messages.
use mathlib.Core.List.{append-nil, append_assoc}
use vkodex.Prelude.{
  ℕ, ◌≡◌, refl, sym, ap, ◌∙◌, Bool, true, false, not, ◌||◌, Option, none, some, List, [], ◌∷◌, ◌++◌,
  any, arith, Bool-cases, inl, inr, ◌==◌, ltb, length, All-append, Option-cases,
}
use vkodex.Prelude.JsText.{Text, ◌===◌, ===_refl}
use vkodex.InputBatcher.{
  BridgeInput, Pending, Effect, send, save, remove, get, flush_found, start_batch, handle_found,
  new_batch, append, flush, begin_batch, handle, goes_on, is_plain,
}
use vkodex.InputBatcher.Shown.{
  of_all, sent_of, parts_of, waiting_of, event_ids_of, said, has_part, IsPart, IsBatch, Keeps,
  keeps_ids, keeps_said,
}
use vkodex.InputBatcher.Apart.{get-delete, set_here, handle_found_apart}

flushed : (pending : List (ℕ × Pending)) (peer : ℕ) → get (flush pending peer).0 peer ≡ none
unfolding flush flush_found
flushed pending peer = elim (Option-cases (get pending peer)) [
  | inl gone ↦ rw gone gone
  | inr (b, found) ↦ rw found ground (arith, get-delete pending peer peer)
]

module _ {A : Type 0} (f : BridgeInput → List A) where
  of_all-append : (is js : List BridgeInput) → of_all f (is ++ js) ≡ of_all f is ++ of_all f js
  unfolding of_all
  of_all-append [] js = refl
  of_all-append (i ∷ is) js =
      ap (λ l. f i ++ l) (of_all-append is js) ∙ sym (append_assoc (f i) _ _)

  sent_of-append : (a b : List Effect) → sent_of f (a ++ b) ≡ sent_of f a ++ sent_of f b
  unfolding sent_of
  sent_of-append [] b = refl
  sent_of-append (send i ∷ a) b =
      ap (λ l. f i ++ l) (sent_of-append a b) ∙ sym (append_assoc (f i) _ _)
  sent_of-append (save s ∷ a) b = sent_of-append a b
  sent_of-append (remove p id ∷ a) b = sent_of-append a b

  -- `flush` sends what waits, in order.
  flush_found-sent :
      (pending : List (ℕ × Pending)) (peer : ℕ) (found : Option Pending)
      → Keeps f
      → IsBatch peer found
      → sent_of f (flush_found pending peer found).1 ≡ of_all f (parts_of found)
  unfolding flush_found sent_of of_all
  flush_found-sent pending peer none law h = refl
  flush_found-sent pending peer (some b) law h = append-nil _ ∙ law peer b h

  append-sent :
      (pending : List (ℕ × Pending)) (b : Pending) (input : BridgeInput) (now : ℕ)
      → has_part (some b) input.event_id ≡ false
      → sent_of f (append pending b input now).1
          ++ waiting_of f (append pending b input now).0 input.peer_id
        ≡ of_all f (b.first ∷ b.rest) ++ f input
  unfolding append sent_of of_all
  append-sent pending b input now fresh = rw fresh (
      rw
        (set_here pending input.peer_id (record b { rest = b.rest ++ (input ∷ []); updated = now }))
        (of_all-append (b.first ∷ b.rest) (input ∷ [])
          ∙ ap (λ l. of_all f (b.first ∷ b.rest) ++ l) (append-nil (f input))))

  start_batch-sent :
      (pending : List (ℕ × Pending)) (threshold : ℕ) (input : BridgeInput) (plain : Bool)
      (id : Text) (now : ℕ)
      → get pending input.peer_id ≡ none
      → sent_of f (start_batch pending threshold input plain id now).1
          ++ waiting_of f (start_batch pending threshold input plain id now).0 input.peer_id
        ≡ f input
  unfolding start_batch append sent_of any of_all
  start_batch-sent pending threshold input plain id now absent =
      elim (Bool-cases (not plain || ltb (length input.text) threshold)) [
        | inl short ↦ rw short (rw absent (append-nil _ ∙ append-nil _))
        | inr long ↦ rw long (
            rw (===_refl input.event_id)
              (rw (set_here pending input.peer_id (new_batch input id now)) (append-nil _)))
      ]

  begin_batch-sent :
      (pending : List (ℕ × Pending)) (threshold : ℕ) (input : BridgeInput) (plain : Bool)
      (id : Text) (now : ℕ)
      → Keeps f
      → IsBatch input.peer_id (get pending input.peer_id)
      → sent_of f (begin_batch pending threshold input plain id now).1
          ++ waiting_of f (begin_batch pending threshold input plain id now).0 input.peer_id
        ≡ waiting_of f pending input.peer_id ++ f input
  unfolding begin_batch flush
  begin_batch-sent pending threshold input plain id now law h =
      let before = flush pending input.peer_id in
      let after = start_batch before.0 threshold input plain id now in
      let sent = flush_found-sent pending input.peer_id (get pending input.peer_id) law h in
      let gone = flushed pending input.peer_id in
      ap (λ x. x ++ waiting_of f after.0 input.peer_id) (sent_of-append before.1 after.1)
      ∙ append_assoc (sent_of f before.1) _ _
      ∙ ap (λ x. x ++ (sent_of f after.1 ++ waiting_of f after.0 input.peer_id)) sent
      ∙ ap (λ x. waiting_of f pending input.peer_id ++ x)
          (start_batch-sent before.0 threshold input plain id now gone)

  handle_found-sent :
      (pending : List (ℕ × Pending)) (threshold : ℕ) (input : BridgeInput) (plain : Bool)
      (id : Text) (now : ℕ) (found : Option Pending)
      → get pending input.peer_id ≡ found
      → Keeps f
      → IsBatch input.peer_id found
      → has_part found input.event_id ≡ false
      → sent_of f (handle_found pending threshold input plain id now found).1
          ++ waiting_of f (handle_found pending threshold input plain id now found).0 input.peer_id
        ≡ of_all f (parts_of found) ++ f input
  unfolding handle_found
  handle_found-sent pending threshold input plain id now none e law h fresh =
      begin_batch-sent pending threshold input plain id now law (rw e tt) ∙ rw e refl
  handle_found-sent pending threshold input plain id now (some b) e law h fresh =
      elim (Bool-cases (goes_on b input plain now)) [
        | inl on ↦ rw on (append-sent pending b input now fresh)
        | inr off ↦
            rw off (begin_batch-sent pending threshold input plain id now law (rw e h) ∙ rw e refl)
      ]

append-IsBatch :
    (pending : List (ℕ × Pending)) (b : Pending) (input : BridgeInput) (now : ℕ)
    → IsBatch input.peer_id (some b)
    → IsPart input.peer_id b.first.sender_id input
    → IsBatch input.peer_id (get (append pending b input now).0 input.peer_id)
unfolding append
append-IsBatch pending b input now h part =
    elim (Bool-cases (any (λ p. p.event_id === input.event_id) (b.first ∷ b.rest))) [
      | inl known ↦ rw known (rw (set_here pending input.peer_id (record b { updated = now })) h)
      | inr new ↦ rw new (
          rw
            (set_here pending input.peer_id
              (record b { rest = b.rest ++ (input ∷ []); updated = now }))
            (
              h.0,
              All-append (IsPart input.peer_id b.first.sender_id) b.rest (input ∷ []) h.1
                  (part, tt),
            ))
    ]

begin_batch-IsBatch :
    (pending : List (ℕ × Pending)) (threshold : ℕ) (input : BridgeInput) (plain : Bool) (id : Text)
    (now : ℕ)
    → input.merged_event_ids ≡ none
    → IsBatch input.peer_id (get (begin_batch pending threshold input plain id now).0 input.peer_id)
unfolding begin_batch flush start_batch
begin_batch-IsBatch pending threshold input plain id now raw =
    elim (Bool-cases (not plain || ltb (length input.text) threshold)) [
      | inl short ↦ rw (short, flushed pending input.peer_id) tt
      | inr long ↦ rw long (
          append-IsBatch _ (new_batch input id now) input now ((raw, refl, refl), tt)
            (raw, refl, refl))
    ]

goes_on_own :
    (b : Pending) (input : BridgeInput) (plain : Bool) (now : ℕ)
    → goes_on b input plain now ≡ true
    → input.sender_id ≡ b.first.sender_id
unfolding goes_on
goes_on_own b input plain now on = ground arith

handle_found-IsBatch :
    (pending : List (ℕ × Pending)) (threshold : ℕ) (input : BridgeInput) (plain : Bool) (id : Text)
    (now : ℕ) (found : Option Pending)
    → IsBatch input.peer_id found
    → input.merged_event_ids ≡ none
    → IsBatch input.peer_id
        (get (handle_found pending threshold input plain id now found).0 input.peer_id)
unfolding handle_found
handle_found-IsBatch pending threshold input plain id now none h raw =
    begin_batch-IsBatch pending threshold input plain id now raw
handle_found-IsBatch pending threshold input plain id now (some b) h raw =
    elim (Bool-cases (goes_on b input plain now)) [
      | inl on ↦
          rw on (append-IsBatch pending b input now h (raw, goes_on_own b input plain now on, refl))
      | inr off ↦ rw off (begin_batch-IsBatch pending threshold input plain id now raw)
    ]

-- A message that comes to a peer is added behind the ones that wait. What `handle` sends, followed by what waits
-- afterwards, is what waited before, in order, followed by the message: by the event IDs, and by the
-- characters with the peer and the sender of each. Other peers' batches stay as they are. It holds for a message
-- that is no merged one and whose event ID does not wait already, where the batch of its peer has
-- parts of that peer and of one sender, none of them merged; and that stays so.
pub handle_in_order :
    (pending : List (ℕ × Pending)) (threshold : ℕ) (input : BridgeInput) (eligible : Bool)
    (id : Text) (now other : ℕ)
    → IsBatch input.peer_id (get pending input.peer_id)
    → input.merged_event_ids ≡ none
    → has_part (get pending input.peer_id) input.event_id ≡ false
    → (input.peer_id == other) ≡ false
    → (sent_of event_ids_of (handle pending threshold input eligible id now).1
          ++ waiting_of event_ids_of
              (handle pending threshold input eligible id now).0
              input.peer_id
        ≡ waiting_of event_ids_of pending input.peer_id ++ event_ids_of input)
      × (sent_of said (handle pending threshold input eligible id now).1
            ++ waiting_of said (handle pending threshold input eligible id now).0 input.peer_id
          ≡ waiting_of said pending input.peer_id ++ said input)
      × (get (handle pending threshold input eligible id now).0 other ≡ get pending other)
      × IsBatch input.peer_id (get (handle pending threshold input eligible id now).0 input.peer_id)
unfolding handle
handle_in_order pending threshold input eligible id now other h raw fresh apart =
    let found = get pending input.peer_id in
    let plain = is_plain eligible input in
    (
      handle_found-sent event_ids_of pending threshold input plain id now found refl
          (λ peer b p. keeps_ids peer b.first b.rest p) h fresh,
      handle_found-sent said pending threshold input plain id now found refl
          (λ peer b p. keeps_said peer b.first b.rest p) h fresh,
      handle_found_apart pending threshold input plain id now found other apart,
      handle_found-IsBatch pending threshold input plain id now found h raw,
    )
