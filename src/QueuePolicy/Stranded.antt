-- ===== src/QueuePolicy/Stranded.antt =====
-- src/codex/homogeneous-queue-policy.ts: an addition whose outcome was still open when the owner
-- epoch changed.
use vkodex.Prelude.{
  ℕ, ◌≤◌, ◌<◌, ◌≡◌, refl, sym, ◌∙◌, Bool, true, false, Option, none, some, List, [], ◌∷◌,
  true≢false, inl, inr, arith, any, all, ok, err, Result-cases,
}
use vkodex.Prelude.JsText.{Text, ===_iff}
use vkodex.Prelude.JsMap
use vkodex.Prelude.JsMap.{JsMap, includes, get-set}
use vkodex.QueuePolicy.Validation.{PolicyError}
use vkodex.QueuePolicy.Types.{
  Outcome, is_pending, ObservationTicket, QueueAddTicket, SettingsChangeTicket, QueueObservation,
  ReserveAddRequest, Operation, SettingsWrite, Policy,
}
use vkodex.QueuePolicy.Admission.{
  begin_observation, check_add, reserve_add, set_outcome, record_add_outcome, start_write,
  set_write_outcome, record_settings_outcome, lose_operation, lose_operations, change_owner_epoch,
  is_unresolved, blocks,
}
use vkodex.QueuePolicy.Observe.{
  is_settled, mark_found, mark_terminal, mark_all_terminal, absorb, is_drained, clear_settled,
  check_observation, observe,
}
use vkodex.QueuePolicy.Run.{
  Call, begin, observe_call, add, add_outcome, settings_change, settings_outcome, epoch, state_or,
  first_or, step, run,
}
use vkodex.QueuePolicy.Entries.{first_or-settings_change}

-- `op` is held under `id`, is unresolved, has an outcome, and belongs to an earlier generation.
pub record IsStranded (id : Text) (op : Operation) (s : Policy) : Type 0 where
  pub held : JsMap.get s.operations id ≡ some op
  pub unresolved : is_unresolved op ≡ true
  pub not_pending : is_pending op.outcome ≡ false
  pub earlier : op.epoch_generation < s.epoch_generation

module _ {ℓ} {V : Type ℓ} (p : Text × V → Bool) where
  any-get :
      (m : JsMap V) (k : Text) (v : V)
      → ((j : Text) → p (j, v) ≡ true)
      → JsMap.get m k ≡ some v
      → any p m ≡ true
  unfolding any JsMap.get
  any-get [] k v h e = cc
  any-get ((j, w) ∷ m) k v h e = ground (arith, h j, any-get m k v h)

  all-get :
      (m : JsMap V) (k : Text) (v : V)
      → ((j : Text) → p (j, v) ≡ false)
      → JsMap.get m k ≡ some v
      → all p m ≡ false
  unfolding all JsMap.get
  all-get [] k v h e = cc
  all-get ((j, w) ∷ m) k v h e = ground (arith, h j, all-get m k v h)

check_add-clear :
    (s : Policy) (r : ReserveAddRequest) {requested : Text}
    → check_add s r ≡ ok requested
    → any (λ e. blocks s.epoch_generation e.1) s.operations ≡ false
unfolding check_add
check_add-clear s r h = ground arith

module _ (id : Text) (op : Operation) where
  stranded_blocks : (s : Policy) → IsStranded id op s → blocks s.epoch_generation op ≡ true
  unfolding blocks is_unresolved
  stranded_blocks s h = ground arith

  add-refused :
      (s : Policy) (r : ReserveAddRequest)
      → IsStranded id op s
      → (x : PolicyError) × (check_add s r ≡ err x)
  add-refused s r h = elim (Result-cases (check_add s r)) [
    | inl (q, e) ↦
        let blocked =
          any-get (λ e. blocks s.epoch_generation e.1) s.operations id op (λ _. stranded_blocks s h)
            h.held in
        absurd (true≢false (sym blocked ∙ check_add-clear s r e))
    | inr (x, e) ↦ (x, e)
  ]

  mark_found-held :
      (s : Policy) (j : Text) (ops : JsMap Operation) (o : Option Operation)
      → JsMap.get ops j ≡ o
      → op.epoch_generation < s.epoch_generation
      → JsMap.get ops id ≡ some op
      → JsMap.get (mark_found s j ops o) id ≡ some op
  unfolding mark_found
  mark_found-held s j ops none e g h = h
  mark_found-held s j ops (some x) e g h =
      ground (arith, ===_iff j id, get-set ops j id (record x { terminal = true }))

  lose_operations-held :
      (ops : JsMap Operation)
      → is_pending op.outcome ≡ false
      → JsMap.get ops id ≡ some op
      → JsMap.get (lose_operations ops) id ≡ some op
  unfolding lose_operations lose_operation JsMap.get
  lose_operations-held [] p h = cc
  lose_operations-held ((j, x) ∷ ops) p h = ground (arith, lose_operations-held ops p)

  mark_all_terminal-held :
      (s : Policy) (ids : List Text) (ops : JsMap Operation)
      → op.epoch_generation < s.epoch_generation
      → JsMap.get ops id ≡ some op
      → JsMap.get (mark_all_terminal s ids ops) id ≡ some op
  unfolding mark_all_terminal mark_terminal
  mark_all_terminal-held s [] ops g h = h
  mark_all_terminal-held s (j ∷ js) ops g h =
      mark_all_terminal-held s js (mark_found s j ops (JsMap.get ops j)) g
        (mark_found-held s j ops (JsMap.get ops j) refl g h)

  not-is_settled : (s : Policy) → IsStranded id op s → is_settled op ≡ false
  unfolding is_unresolved
  not-is_settled s h = ground arith

  not-is_drained : (s : Policy) (o : QueueObservation) → IsStranded id op s → is_drained s o ≡ false
  unfolding is_drained
  not-is_drained s o h =
      ground
        (arith, all-get (λ e. is_settled e.1) s.operations id op (λ _. not-is_settled s h) h.held)

  absorb-IsStranded :
      (s : Policy) (ids : List ℕ) (o : QueueObservation) (t : Text)
      → IsStranded id op s
      → IsStranded id op (absorb (record s { observation_tickets = ids }) o t)
  unfolding absorb
  absorb-IsStranded s ids o t h = record {
    held =
        mark_all_terminal-held (record s { observation_tickets = ids }) o.terminal_client_ids
          s.operations h.earlier h.held;
    unresolved = h.unresolved;
    not_pending = h.not_pending;
    earlier = h.earlier;
  }

  settled-IsStranded :
      (s : Policy) (ids : List ℕ) (o : QueueObservation) (t : Text)
      → IsStranded id op s
      → IsStranded id op (clear_settled (absorb (record s { observation_tickets = ids }) o t) o)
  unfolding clear_settled
  settled-IsStranded s ids o t h =
      let h' = absorb-IsStranded s ids o t h in
      rw (not-is_drained (absorb (record s { observation_tickets = ids }) o t) o h') h'

  set_outcome-IsStranded :
      (s : Policy) (t : QueueAddTicket) (o : Outcome) (found : Option Operation)
      → JsMap.get s.operations t.client_user_message_id ≡ found
      → IsStranded id op s
      → IsStranded id op (state_or s (set_outcome s t o found))
  unfolding set_outcome
  set_outcome-IsStranded s t o none e h = h
  set_outcome-IsStranded s t o (some x) e h = ground (
    arith,
    ===_iff t.client_user_message_id id,
    get-set s.operations t.client_user_message_id id (record x { outcome = o }),
  )

  observe-IsStranded :
      (s : Policy) (t : ObservationTicket) (o : QueueObservation)
      → IsStranded id op s
      → IsStranded id op (state_or s (observe s t o))
  unfolding observe
  observe-IsStranded s t o h = elim (Result-cases (check_observation s t o)) [
    | inl (observed, e) ↦ rw e (settled-IsStranded s _ o observed h)
    | inr (x, e) ↦ rw e h
  ]

  start_write-IsStranded :
      (s : Policy) (e d : Text) (current : Option Text)
      → IsStranded id op s
      → IsStranded id op (first_or s (start_write s e d current))
  unfolding start_write
  start_write-IsStranded s e d none h = h
  start_write-IsStranded s e d (some p) h = ground arith

  set_write_outcome-IsStranded :
      (s : Policy) (t : SettingsChangeTicket) (o : Outcome) (found : Option SettingsWrite)
      → IsStranded id op s
      → IsStranded id op (state_or s (set_write_outcome s t o found))
  unfolding set_write_outcome
  set_write_outcome-IsStranded s t o none h = h
  set_write_outcome-IsStranded s t o (some w) h = ground arith

  change_owner_epoch-IsStranded :
      (s : Policy) (e : Text)
      → IsStranded id op s
      → IsStranded id op (state_or s (change_owner_epoch s e))
  unfolding change_owner_epoch
  change_owner_epoch-IsStranded s e h = ground (arith, lose_operations-held s.operations)

  step-IsStranded : (s : Policy) (c : Call) → IsStranded id op s → IsStranded id op (step s c)
  unfolding step begin_observation reserve_add record_add_outcome record_settings_outcome
  step-IsStranded s begin h = ground arith
  step-IsStranded s (observe_call t o) h = observe-IsStranded s t o h
  step-IsStranded s (add r) h = let (x, e) = add-refused s r h in rw e h
  step-IsStranded s (add_outcome t o) h =
      ground (arith, set_outcome-IsStranded s t o (JsMap.get s.operations t.client_user_message_id))
  step-IsStranded s (settings_change e v) h =
      first_or-settings_change (IsStranded id op) s e v h
        (λ d. start_write-IsStranded s e d s.settings h)
  step-IsStranded s (settings_outcome t o) h =
      ground (arith, set_write_outcome-IsStranded s t o s.settings_write)
  step-IsStranded s (epoch e) h = change_owner_epoch-IsStranded s e h

  run-IsStranded : (s : Policy) (cs : List Call) → IsStranded id op s → IsStranded id op (run s cs)
  unfolding run
  run-IsStranded s [] h = h
  run-IsStranded s (c ∷ cs) h = run-IsStranded (step s c) cs (step-IsStranded s c h)

get-lose_operations :
    (ops : JsMap Operation) (id : Text) (op : Operation)
    → JsMap.get ops id ≡ some op
    → JsMap.get (lose_operations ops) id ≡ some (lose_operation op)
unfolding lose_operations JsMap.get
get-lose_operations [] id op h = cc
get-lose_operations ((j, x) ∷ ops) id op h = ground (arith, get-lose_operations ops id op)

-- What an addition becomes when the owner epoch changes under it.
change_owner_epoch-strands :
    (s : Policy) (e id : Text) (op : Operation) {s' : Policy}
    → JsMap.get s.operations id ≡ some op
    → is_unresolved op ≡ true
    → op.epoch_generation ≤ s.epoch_generation
    → change_owner_epoch s e ≡ ok s'
    → IsStranded id (lose_operation op) s'
unfolding change_owner_epoch lose_operation is_unresolved
change_owner_epoch-strands s e id op held unresolved earlier changed =
    ground (arith, get-lose_operations s.operations id op held)

-- If the owner epoch changes while an addition of this or an earlier generation is unresolved (not
-- terminal and not rejected), then whatever is called afterwards, that addition stays held and
-- unresolved, and every further addition is refused.
pub epoch_change_freezes :
    (s : Policy) (e id : Text) (op : Operation) (cs : List Call) (r : ReserveAddRequest)
    {s' : Policy}
    → JsMap.get s.operations id ≡ some op
    → is_unresolved op ≡ true
    → op.epoch_generation ≤ s.epoch_generation
    → change_owner_epoch s e ≡ ok s'
    → (JsMap.get (run s' cs).operations id ≡ some (lose_operation op))
      × (is_unresolved (lose_operation op) ≡ true)
      × (x : PolicyError) × (reserve_add (run s' cs) r ≡ err x)
epoch_change_freezes s e id op cs r {s'} held unresolved earlier changed =
    let h =
      run-IsStranded id (lose_operation op) s' cs
        (change_owner_epoch-strands s e id op held unresolved earlier changed) in
    let (x, refused) = add-refused id (lose_operation op) (run s' cs) r h in
    (h.held, h.unresolved, x, unfold reserve_add in rw refused)
