-- ===== src/InputBatcher/Apart.antt =====
-- src/bridge/input-batcher.ts: the map of pending batches by peer, and that a message leaves other peers' batches.

use vkodex.Prelude.{
  ℕ, ◌≡◌, refl, ◌∙◌, Bool, false, not, ◌||◌, Option, none, some, List, [], ◌∷◌, arith,
  if◌then◌else◌, Bool-cases, inl, inr, ◌==◌, ltb, length, Option-cases,
}
use vkodex.Prelude.JsText.{Text}
use vkodex.InputBatcher.{
  BridgeInput, Pending, get, set, delete, flush_found, start_batch, handle_found, new_batch, append,
  flush, begin_batch, goes_on,
}

get-set :
    (m : List (ℕ × Pending)) (peer other : ℕ) (b : Pending)
    → get (set m peer b) other ≡ (if peer == other then some b else get m other)
unfolding get set
get-set [] peer other b = refl
get-set ((p, c) ∷ m) peer other b = ground (arith, get-set m peer other b)

pub get-delete :
    (m : List (ℕ × Pending)) (peer other : ℕ)
    → get (delete m peer) other ≡ (if peer == other then none else get m other)
unfolding get delete
get-delete [] peer other = ground arith
get-delete ((p, c) ∷ m) peer other = ground (arith, get-delete m peer other)

pub set_here : (m : List (ℕ × Pending)) (peer : ℕ) (b : Pending) → get (set m peer b) peer ≡ some b
set_here m peer b = ground (arith, get-set m peer peer b)

append_apart :
    (pending : List (ℕ × Pending)) (b : Pending) (input : BridgeInput) (now other : ℕ)
    → (input.peer_id == other) ≡ false
    → get (append pending b input now).0 other ≡ get pending other
unfolding append
append_apart pending b input now other e = get-set pending input.peer_id other _ ∙ rw e refl

flush_apart :
    (pending : List (ℕ × Pending)) (peer other : ℕ)
    → (peer == other) ≡ false
    → get (flush pending peer).0 other ≡ get pending other
unfolding flush flush_found
flush_apart pending peer other e = elim (Option-cases (get pending peer)) [
  | inl gone ↦ rw gone refl
  | inr (b, found) ↦ rw found (get-delete pending peer other ∙ rw e refl)
]

begin_batch_apart :
    (pending : List (ℕ × Pending)) (threshold : ℕ) (input : BridgeInput) (plain : Bool) (id : Text)
    (now other : ℕ)
    → (input.peer_id == other) ≡ false
    → get (begin_batch pending threshold input plain id now).0 other ≡ get pending other
unfolding begin_batch start_batch
begin_batch_apart pending threshold input plain id now other e =
    elim (Bool-cases (not plain || ltb (length input.text) threshold)) [
      | inl short ↦ rw short (flush_apart pending input.peer_id other e)
      | inr long ↦ rw long (
          append_apart (flush pending input.peer_id).0 (new_batch input id now) input now other e
          ∙ flush_apart pending input.peer_id other e)
    ]

pub handle_found_apart :
    (pending : List (ℕ × Pending)) (threshold : ℕ) (input : BridgeInput) (plain : Bool) (id : Text)
    (now : ℕ) (found : Option Pending) (other : ℕ)
    → (input.peer_id == other) ≡ false
    → get (handle_found pending threshold input plain id now found).0 other ≡ get pending other
unfolding handle_found
handle_found_apart pending threshold input plain id now none other e =
    begin_batch_apart pending threshold input plain id now other e
handle_found_apart pending threshold input plain id now (some b) other e =
    elim (Bool-cases (goes_on b input plain now)) [
      | inl on ↦ rw on (append_apart pending b input now other e)
      | inr off ↦ rw off (begin_batch_apart pending threshold input plain id now other e)
    ]
