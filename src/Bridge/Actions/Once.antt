-- ===== src/Bridge/Actions/Once.antt =====
-- src/bridge/store.ts: a button that was pressed, and the calls that follow.
use vkodex.Prelude.{
  ℕ, ◌+◌, ◌≤◌, ◌≡◌, refl, Bool, true, false, not, ◌&&◌, none, List, [], ◌∷◌, arith, any, Bool-cases,
  inl, inr,
}
use vkodex.Prelude.JsText.{Text, ◌===◌, ===_iff}
use vkodex.OperationJournal.Tables.{update_rows, count_rows}
use vkodex.OperationJournal.Rows.{count_rows-snoc, count_rows-update_rows}
use vkodex.Bridge.Actions.{
  ActionRow, new_action, action, is_usable, first_payload, get_action, in_scope, is_peer,
  scoped_action, consume_action, ActionCall, offer, press, step, run,
}

abbrev has_id : Text → ActionRow → Bool
has_id id r = r.id === id

-- The row is there and was not pressed.
abbrev is_live : Text → ActionRow → Bool
is_live id r = r.id === id && not r.consumed

count_rows-le :
    (test wider : ActionRow → Bool) (rows : List ActionRow)
    → ((r : ActionRow) → test r ≡ true → wider r ≡ true)
    → count_rows test rows ≤ count_rows wider rows
unfolding count_rows
count_rows-le test wider [] h = omega arith
count_rows-le test wider (r ∷ rows) h = ground (arith, h r, count_rows-le test wider rows h)

count_rows_of_any :
    (test : ActionRow → Bool) (rows : List ActionRow)
    → any test rows ≡ false
    → count_rows test rows ≡ 0
unfolding any count_rows
count_rows_of_any test [] e = refl
count_rows_of_any test (r ∷ rows) e = ground (arith, count_rows_of_any test rows)

count_rows-same :
    (id : Text) (test : ActionRow → Bool) (rows : List ActionRow)
    → count_rows (has_id id) (update_rows test (λ r. record r { consumed = true }) rows)
      ≡ count_rows (has_id id) rows
unfolding count_rows update_rows
count_rows-same id test [] = refl
count_rows-same id test (r ∷ rows) = ground (arith, count_rows-same id test rows)

unmatched_payload :
    (test : ActionRow → Bool) (rows : List ActionRow)
    → count_rows test rows ≡ 0
    → first_payload test rows ≡ none
unfolding count_rows first_payload
unmatched_payload test [] e = refl
unmatched_payload test (r ∷ rows) e = ground (arith, unmatched_payload test rows)

-- The presses that hit are taken from the live rows.
count_rows-pressed :
    (id : Text) (test : ActionRow → Bool) (rows : List ActionRow)
    → ((r : ActionRow) → test r ≡ true → is_live id r ≡ true)
    → count_rows (is_live id) (update_rows test (λ r. record r { consumed = true }) rows)
        + count_rows test rows
      ≡ count_rows (is_live id) rows
unfolding count_rows update_rows
count_rows-pressed id test [] h = refl
count_rows-pressed id test (r ∷ rows) h = ground (arith, h r, count_rows-pressed id test rows h)

-- At most one row has an ID.
step_unique :
    (id : Text) (rows : List ActionRow) (c : ActionCall)
    → count_rows (has_id id) rows ≤ 1
    → count_rows (has_id id) (step rows c) ≤ 1
unfolding step action consume_action
step_unique id rows (offer value now peer k) h = elim (Bool-cases (any (has_id k) rows)) [
  | inl known ↦ rw known h
  | inr fresh ↦ rw fresh (elim (Bool-cases (k === id)) [
    | inl same ↦
        let eq : k ≡ id = (===_iff k id).0 same in
        ground (
          arith,
          count_rows-snoc (has_id id) rows (new_action value now peer k),
          rw eq at (count_rows_of_any (has_id k) rows fresh),
        )
    | inr other ↦ ground (arith, count_rows-snoc (has_id id) rows (new_action value now peer k))
  ])
]
step_unique id rows (press k peer now) h = omega (arith, count_rows-same id _ rows)

run_unique :
    (id : Text) (cs : List ActionCall) (rows : List ActionRow)
    → count_rows (has_id id) rows ≤ 1
    → count_rows (has_id id) (run rows cs) ≤ 1
unfolding run
run_unique id [] rows h = h
run_unique id (c ∷ cs) rows h = run_unique id cs (step rows c) (step_unique id rows c h)

-- A button that was pressed: its row is there, and no row with its ID is live.
record Pressed (id : Text) (rows : List ActionRow) : Type 0 where
  there : 1 ≤ count_rows (has_id id) rows
  spent : count_rows (is_live id) rows ≡ 0

step-Pressed :
    (id : Text) (rows : List ActionRow) (c : ActionCall)
    → Pressed id rows
    → Pressed id (step rows c)
unfolding step action consume_action
step-Pressed id rows (offer value now peer k) h = elim (Bool-cases (any (has_id k) rows)) [
  | inl known ↦ rw known h
  | inr fresh ↦ elim (Bool-cases (k === id)) [
    | inl same ↦
        let eq : k ≡ id = (===_iff k id).0 same in
        let gone = rw eq at (count_rows_of_any (has_id k) rows fresh) in
        absurd (omega (arith, gone, h.there))
    | inr other ↦ rw fresh (record {
      there =
          ground (arith, h.there, count_rows-snoc (has_id id) rows (new_action value now peer k));
      spent =
          ground (arith, h.spent, count_rows-snoc (is_live id) rows (new_action value now peer k));
    })
  ]
]
step-Pressed id rows (press k peer now) h =
    let test : ActionRow → Bool = λ r. is_usable k now r && is_peer peer r.peer_id in
    record {
      there = omega (arith, h.there, count_rows-same id test rows);
      spent = omega (
        arith,
        h.spent,
        count_rows-update_rows (is_live id) test (λ r. record r { consumed = true }) rows
            (λ r t u. ground arith),
      );
    }

run-Pressed :
    (id : Text) (cs : List ActionCall) (rows : List ActionRow)
    → Pressed id rows
    → Pressed id (run rows cs)
unfolding run
run-Pressed id [] rows h = h
run-Pressed id (c ∷ cs) rows h = run-Pressed id cs (step rows c) (step-Pressed id rows c h)

-- On the rows of any run a press that hits leaves the button pressed.
consume_action-Pressed :
    (rows : List ActionRow) (id : Text) (peer now : ℕ)
    → count_rows (has_id id) rows ≤ 1
    → (consume_action rows id peer now).1 ≡ true
    → Pressed id (consume_action rows id peer now).0
unfolding consume_action
consume_action-Pressed rows id peer now unique hit =
    let test : ActionRow → Bool = λ r. is_usable id now r && is_peer peer r.peer_id in
    let one : count_rows test rows ≡ 1 = ground arith in
    let live = count_rows-le (is_live id) (has_id id) rows (λ r t. ground arith) in
    let taken = count_rows-pressed id test rows (λ r t. ground arith) in
    record {
      there = omega (arith, one, live, taken, count_rows-same id test rows);
      spent = omega (arith, one, live, taken, unique);
    }

refused :
    (rows : List ActionRow) (id : Text) (peer now : ℕ) (manager : Bool)
    → Pressed id rows
    → ((consume_action rows id peer now).1 ≡ false)
      × (get_action rows id now ≡ none)
      × (scoped_action rows id peer manager now ≡ none)
unfolding consume_action get_action scoped_action
refused rows id peer now manager h =
    let pressed =
      count_rows-le (λ r. is_usable id now r && is_peer peer r.peer_id) (is_live id) rows
        (λ r t. ground arith) in
    let usable = count_rows-le (is_usable id now) (is_live id) rows (λ r t. ground arith) in
    let scoped =
      count_rows-le (λ r. is_usable id now r && in_scope peer manager r.peer_id) (is_live id) rows
        (λ r t. ground arith) in
    let spent = h.spent in
    let zero_pressed : count_rows (λ r. is_usable id now r && is_peer peer r.peer_id) rows ≡ 0 =
      omega (arith, pressed, spent) in
    (
      rw zero_pressed (ground arith),
      unmatched_payload (is_usable id now) rows (omega (arith, usable, spent)),
      unmatched_payload (λ r. is_usable id now r && in_scope peer manager r.peer_id) rows
          (omega (arith, scoped, spent)),
    )

-- Once a button was consumed, on a table that any calls made of an empty one, then after any further calls no
-- press consumes it again and nobody reads its action, at any time.
pub consume_action_once :
    (before after : List ActionCall) (id : Text) (peer now peer2 now2 : ℕ) (manager : Bool)
    → (consume_action (run [] before) id peer now).1 ≡ true
    → ((consume_action (run (consume_action (run [] before) id peer now).0 after) id peer2 now2).1
        ≡ false)
      × (get_action (run (consume_action (run [] before) id peer now).0 after) id now2 ≡ none)
      × (scoped_action
            (run (consume_action (run [] before) id peer now).0 after)
            id
            peer2
            manager
            now2
          ≡ none)
unfolding count_rows
consume_action_once before after id peer now peer2 now2 manager hit =
    refused (run (consume_action (run [] before) id peer now).0 after) id peer2 now2 manager (
      run-Pressed id after (consume_action (run [] before) id peer now).0 (
        consume_action-Pressed (run [] before) id peer now (run_unique id before [] (omega arith))
          hit))
