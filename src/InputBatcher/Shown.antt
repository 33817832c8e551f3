-- ===== src/InputBatcher/Shown.antt =====
-- src/bridge/input-batcher.ts: what a message carries and says, and that a merged one keeps both of its parts.
use mathlib.Core.List.{append-nil, append_assoc}
use vkodex.Prelude.{
  ℕ, ◌≡◌, refl, sym, ap, ap₂, ◌∙◌, subst, Bool, false, Option, none, some, List, [], ◌∷◌, ◌++◌, any,
  map, All,
}
use vkodex.Prelude.JsText.{Text, ◌===◌}
use vkodex.InputBatcher.{BridgeInput, Pending, Effect, send, save, remove, get, join, merged_input}

-- What a list of messages shows of each, one after the other, and what effects send of it.
unfoldable pub of_all : {A : Type 0} → (BridgeInput → List A) → List BridgeInput → List A
of_all f [] = []
of_all f (i ∷ is) = f i ++ of_all f is

unfoldable pub sent_of : {A : Type 0} → (BridgeInput → List A) → List Effect → List A
sent_of f [] = []
sent_of f (send i ∷ es) = f i ++ sent_of f es
sent_of f (save b ∷ es) = sent_of f es
sent_of f (remove p id ∷ es) = sent_of f es

abbrev pub parts_of : Option Pending → List BridgeInput
parts_of none = []
parts_of (some b) = b.first ∷ b.rest

-- What waits in a peer's batch.
abbrev pub waiting_of : {A : Type 0} → (BridgeInput → List A) → List (ℕ × Pending) → ℕ → List A
waiting_of f pending peer = of_all f (parts_of (get pending peer))

-- The event IDs that a message carries.
abbrev carried : Option (List Text) → Text → List Text
carried none id = id ∷ []
carried (some ids) id = ids

abbrev pub event_ids_of : BridgeInput → List Text
event_ids_of i = carried i.merged_event_ids i.event_id

-- What a message says: each character, a line break behind the last one, with the peer and the sender.
abbrev tagged : ℕ → ℕ → Text → List (ℕ × ℕ × ℕ)
tagged peer sender = map (λ c. (peer, sender, c))

abbrev pub said : BridgeInput → List (ℕ × ℕ × ℕ)
said i = tagged i.peer_id i.sender_id (i.text ++ (10 ∷ []))

abbrev pub has_part : Option Pending → Text → Bool
has_part none id = false
has_part (some b) id = any (λ p. p.event_id === id) (b.first ∷ b.rest)

-- The parts of a peer's batch are messages of that peer as they came, not merged ones, all by one sender.
abbrev pub IsPart : ℕ → ℕ → BridgeInput → Type 0
IsPart peer sender i = (i.merged_event_ids ≡ none) × (i.sender_id ≡ sender) × (i.peer_id ≡ peer)

abbrev pub IsBatch : ℕ → Option Pending → Type 0
IsBatch peer none = Unit
IsBatch peer (some b) = All (IsPart peer b.first.sender_id) (b.first ∷ b.rest)

-- What `merged_input` keeps of its parts.
abbrev pub Keeps : {A : Type 0} → (BridgeInput → List A) → Type 0
Keeps f =
    (peer : ℕ) (b : Pending)
    → IsBatch peer (some b)
    → f (merged_input b.first b.rest) ≡ of_all f (b.first ∷ b.rest)

event_ids_of_all :
    (peer sender : ℕ) (is : List BridgeInput)
    → All (IsPart peer sender) is
    → of_all event_ids_of is ≡ map (λ i. i.event_id) is
unfolding of_all
event_ids_of_all peer sender [] h = refl
event_ids_of_all peer sender (i ∷ is) h =
    rw h.0.0 (ap (◌∷◌ i.event_id) (event_ids_of_all peer sender is h.1))

pub keeps_ids :
    (peer : ℕ) (first : BridgeInput) (rest : List BridgeInput)
    → All (IsPart peer first.sender_id) (first ∷ rest)
    → event_ids_of (merged_input first rest) ≡ of_all event_ids_of (first ∷ rest)
unfolding merged_input of_all
keeps_ids peer first [] h = sym (append-nil _)
keeps_ids peer first (i ∷ is) h = sym (event_ids_of_all peer first.sender_id (first ∷ i ∷ is) h)

tagged-append :
    (peer sender : ℕ) (s t : Text)
    → tagged peer sender (s ++ t) ≡ tagged peer sender s ++ tagged peer sender t
tagged-append peer sender [] t = refl
tagged-append peer sender (c ∷ s) t = ap (◌∷◌ (peer, sender, c)) (tagged-append peer sender s t)

said_part :
    (peer sender : ℕ) (i : BridgeInput)
    → IsPart peer sender i
    → tagged peer sender (i.text ++ (10 ∷ [])) ≡ said i
said_part peer sender i h = ap₂ (λ p s. tagged p s (i.text ++ (10 ∷ []))) (sym h.2) (sym h.1)

said-join :
    (peer sender : ℕ) (t : Text) (is : List BridgeInput)
    → All (IsPart peer sender) is
    → tagged peer sender (join (10 ∷ []) t (map (λ i. i.text) is) ++ (10 ∷ []))
      ≡ tagged peer sender (t ++ (10 ∷ [])) ++ of_all said is
unfolding join of_all
said-join peer sender t [] h = sym (append-nil _)
said-join peer sender t (i ∷ is) h =
    let lines = join (10 ∷ []) i.text (map (λ j. j.text) is) in
    ap (tagged peer sender) (
      append_assoc t ((10 ∷ []) ++ lines) (10 ∷ [])
      ∙ sym (append_assoc t (10 ∷ []) (lines ++ (10 ∷ []))))
    ∙ tagged-append peer sender (t ++ (10 ∷ [])) (lines ++ (10 ∷ []))
    ∙ ap (λ l. tagged peer sender (t ++ (10 ∷ [])) ++ l)
        (said-join peer sender i.text is h.1
          ∙ ap (λ l. l ++ of_all said is) (said_part peer sender i h.0))

pub keeps_said :
    (peer : ℕ) (first : BridgeInput) (rest : List BridgeInput)
    → All (IsPart peer first.sender_id) (first ∷ rest)
    → said (merged_input first rest) ≡ of_all said (first ∷ rest)
unfolding merged_input of_all
keeps_said peer first [] h = sym (append-nil _)
keeps_said peer first (i ∷ is) h =
    let own : All (IsPart first.peer_id first.sender_id) (i ∷ is) =
      subst (λ p. All (IsPart p first.sender_id) (i ∷ is)) (sym h.0.2) h.1 in
    said-join first.peer_id first.sender_id first.text (i ∷ is) own
