-- ===== src/QueuePolicy/Entries.antt =====
-- src/codex/homogeneous-queue-policy.ts: what the loops over `operations` keep of every entry.
use vkodex.Prelude.{
  ◌≡◌, refl, ◌∙◌, Bool, true, false, Option, none, some, List, [], ◌∷◌, ◌==◌, arith, if◌then◌else◌,
  Bool-cases, ◌⊎◌, inl, inr, ok, err, Result-cases, ◌>>◌, throw_if, length,
}
use vkodex.Prelude.JsText.{Text, ===_iff}
use vkodex.Prelude.JsMap
use vkodex.Prelude.JsMap.{
  JsMap, includes, AllEntries, AllEntries-get, AllEntries-set, AllEntries-map, get-set,
}
use vkodex.QueuePolicy.Types.{unknown, is_pending, SettingsChangeTicket, Operation, Policy}
use vkodex.QueuePolicy.Admission.{
  differs, require_epoch, start_write, reserve_settings_change, lose_operation, lose_operations,
}
use vkodex.Json.{Value}
use vkodex.QueuePolicy.Validation.{PolicyError, valid_settings}
use vkodex.QueuePolicy.Run.{state_or, first_or}
use vkodex.QueuePolicy.Observe.{mark_found, mark_terminal, mark_all_terminal}

abbrev pub is_nil {ℓ} : {A : Type ℓ} → List A → Bool
is_nil [] = true
is_nil (_ ∷ _) = false

pub length-is_nil {ℓ} : {A : Type ℓ} (xs : List A) → (length xs == 0) ≡ is_nil xs
length-is_nil [] = refl
length-is_nil (x ∷ xs) = ground arith

pub is_nil-set {ℓ} :
    {V : Type ℓ} (m : JsMap V) (k : Text) (v : V) → is_nil (JsMap.set m k v) ≡ false
unfolding JsMap.set
is_nil-set [] k v = refl
is_nil-set ((j, w) ∷ m) k v = ground arith

module _ {κ} (P : Text → Operation → Type κ) where
  AllEntries-if :
      (b : Bool) (m m' : JsMap Operation)
      → AllEntries P m
      → AllEntries P m'
      → AllEntries P (if b then m else m')
  AllEntries-if true m m' h h' = h
  AllEntries-if false m m' h h' = h'

  module _ (mark : (k : Text) (op : Operation) → P k op → P k (record op { terminal = true })) where
    mark_found-AllEntries :
        (s : Policy) (id : Text) (ops : JsMap Operation) (o : Option Operation)
        → JsMap.get ops id ≡ o
        → AllEntries P ops
        → AllEntries P (mark_found s id ops o)
    unfolding mark_found
    mark_found-AllEntries s id ops none e h = h
    mark_found-AllEntries s id ops (some op) e h =
        AllEntries-if _ _ ops
          (AllEntries-set P ops id _ (mark id op (AllEntries-get P ops id h e)) h) h

    pub mark_all_terminal-AllEntries :
        (s : Policy) (ids : List Text) (ops : JsMap Operation)
        → AllEntries P ops
        → AllEntries P (mark_all_terminal s ids ops)
    unfolding mark_all_terminal mark_terminal
    mark_all_terminal-AllEntries s [] ops h = h
    mark_all_terminal-AllEntries s (id ∷ ids) ops h =
        mark_all_terminal-AllEntries s ids (mark_terminal s id ops)
          (mark_found-AllEntries s id ops (JsMap.get ops id) refl h)

  lose_operation-P :
      ((k : Text) (op : Operation) → P k op → P k (record op { outcome = unknown }))
      → (k : Text) (op : Operation) → P k op
      → P k (lose_operation op)
  unfolding lose_operation
  lose_operation-P lose k op h = elim (Bool-cases (is_pending op.outcome)) [
    | inl p ↦ rw p (lose k op h)
    | inr n ↦ rw n h
  ]

  pub lose_operations-AllEntries :
      ((k : Text) (op : Operation) → P k op → P k (record op { outcome = unknown }))
      → (ops : JsMap Operation) → AllEntries P ops
      → AllEntries P (lose_operations ops)
  unfolding lose_operations
  lose_operations-AllEntries lose [] h = h
  lose_operations-AllEntries lose ((k, op) ∷ ops) h =
      (lose_operation-P lose k op h.0, lose_operations-AllEntries lose ops h.1)

mark_found-is_nil :
    (s : Policy) (id : Text) (e : Text × Operation) (ops : JsMap Operation) (o : Option Operation)
    → is_nil (mark_found s id (e ∷ ops) o) ≡ false
unfolding mark_found
mark_found-is_nil s id e ops none = refl
mark_found-is_nil s id e ops (some op) =
    ground (arith, is_nil-set (e ∷ ops) id (record op { terminal = true }))

mark_terminal-is_nil :
    (s : Policy) (id : Text) (ops : JsMap Operation) → is_nil (mark_terminal s id ops) ≡ is_nil ops
unfolding mark_terminal JsMap.get
mark_terminal-is_nil s id [] = refl
mark_terminal-is_nil s id (e ∷ ops) = mark_found-is_nil s id e ops (JsMap.get (e ∷ ops) id)

pub mark_all_terminal-is_nil :
    (s : Policy) (ids : List Text) (ops : JsMap Operation)
    → is_nil (mark_all_terminal s ids ops) ≡ is_nil ops
unfolding mark_all_terminal
mark_all_terminal-is_nil s [] ops = refl
mark_all_terminal-is_nil s (id ∷ ids) ops =
    mark_all_terminal-is_nil s ids (mark_terminal s id ops) ∙ mark_terminal-is_nil s id ops

pub lose_operations-is_nil : (ops : JsMap Operation) → is_nil (lose_operations ops) ≡ is_nil ops
unfolding lose_operations
lose_operations-is_nil [] = refl
lose_operations-is_nil (e ∷ ops) = refl

pub is_nil_of_get {ℓ} :
    {V : Type ℓ} (m : JsMap V) (k : Text) {v : V} → JsMap.get m k ≡ some v → is_nil m ≡ false
unfolding JsMap.get
is_nil_of_get [] k h = cc
is_nil_of_get (e ∷ m) k h = refl

pub differs-eq : (l : Option Text) (t : Text) → differs l t ≡ false → (l ≡ none) ⊎ (l ≡ some t)
differs-eq none t h = inl refl
differs-eq (some s) t h = ground (arith, ===_iff t s)

-- A call that throws under a test leaves what holds of the object.
pub state_or-if {κ} :
    (P : Policy → Type κ) (b : Bool) (x : PolicyError) (s s' : Policy)
    → P s
    → P s'
    → P (state_or s (if b then err x else ok s'))
state_or-if P true x s s' h h' = h
state_or-if P false x s s' h h' = h'

pub AllEntries-is_nil {κ} :
    {V : Type 0} (P : Text → V → Type κ) (m : JsMap V) → is_nil m ≡ true → AllEntries P m
AllEntries-is_nil P [] h = tt
AllEntries-is_nil P (e ∷ m) h = cc

pub state_or-throw {κ} :
    (P : Policy → Type κ) (b : Bool) (x : PolicyError) (s s' : Policy)
    → P s
    → P s'
    → P (state_or s (throw_if b x >> ok s'))
state_or-throw P true x s s' h h' = h
state_or-throw P false x s s' h h' = h'

pub first_or-if {κ} :
    (P : Policy → Type κ) (b : Bool) (x : PolicyError) (s s' : Policy) (t : SettingsChangeTicket)
    → P s
    → (b ≡ false → P s')
    → P (first_or s (if b then err x else ok (s', t)))
first_or-if P true x s s' t h h' = h
first_or-if P false x s s' t h h' = h' refl

pub first_or-settings_change {κ} :
    (P : Policy → Type κ) (s : Policy) (e : Text) (v : Value)
    → P s
    → ((d : Text) → P (first_or s (start_write s e d s.settings)))
    → P (first_or s (reserve_settings_change s e v))
unfolding reserve_settings_change
first_or-settings_change P s e v h f = elim (Result-cases (require_epoch s e)) [
  | inl (u, p) ↦
      rw p
        (elim (Result-cases (valid_settings v)) [ inl (d, q) ↦ rw q (f d) | inr (x, q) ↦ rw q h ])
  | inr (x, p) ↦ rw p h
]
