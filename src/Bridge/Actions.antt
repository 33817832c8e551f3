-- ===== src/Bridge/Actions.antt =====
-- src/bridge/store.ts: the buttons of a panel, each of which acts once: the table `bridge_actions`. An action is the
-- value that its JSON text holds.
pub mod Once
use vkodex.Prelude.{
  ℕ, ◌+◌, ◌*◌, Bool, true, false, not, ◌&&◌, ◌||◌, Option, none, some, List, [], ◌∷◌, ◌++◌, any,
  ltb, ◌==◌, if◌then◌else◌, Result, ok, err,
}
use vkodex.Prelude.JsText.{Text, ◌===◌}
use vkodex.Json.{Value}
use vkodex.OperationJournal.Tables.{update_rows, count_rows}

pub record ActionRow : Type 0 where
  pub id : Text
  pub payload : Value
  pub expires_at : ℕ
  pub peer_id : Option ℕ
  pub consumed : Bool

pub data ActionError : Type 0 where
  constraint_failed : ActionError

abbrev pub new_action : Value → ℕ → Option ℕ → Text → ActionRow
new_action value now peer id = record {
  id = id;
  payload = value;
  expires_at = now + 30 * 60000;
  peer_id = peer;
  consumed = false;
}

-- `id` is what `randomUUID` gives.
unfoldable pub action :
    List ActionRow → Value → ℕ → Option ℕ → Text → Result ActionError (List ActionRow)
action rows value now peer id =
    if any (λ r. r.id === id) rows
    then err constraint_failed
    else ok (rows ++ (new_action value now peer id ∷ []))

-- WHERE id = ? AND expires_at > ? AND consumed = 0
abbrev pub is_usable : Text → ℕ → ActionRow → Bool
is_usable id now r = r.id === id && ltb now r.expires_at && not r.consumed

unfoldable pub first_payload : (ActionRow → Bool) → List ActionRow → Option Value
first_payload test [] = none
first_payload test (r ∷ rs) = if test r then some r.payload else first_payload test rs

unfoldable pub get_action : List ActionRow → Text → ℕ → Option Value
get_action rows id now = first_payload (is_usable id now) rows

abbrev pub is_peer : ℕ → Option ℕ → Bool
is_peer peer none = false
is_peer peer (some p) = p == peer

-- `peer_id = ? OR (peer_id IS NULL AND ? = 1)`
abbrev pub in_scope : ℕ → Bool → Option ℕ → Bool
in_scope peer manager none = manager
in_scope peer manager (some p) = p == peer

unfoldable pub scoped_action : List ActionRow → Text → ℕ → Bool → ℕ → Option Value
scoped_action rows id peer manager now =
    first_payload (λ r. is_usable id now r && in_scope peer manager r.peer_id) rows

unfoldable pub consume_action : List ActionRow → Text → ℕ → ℕ → List ActionRow × Bool
consume_action rows id peer now =
    let test : ActionRow → Bool = λ r. is_usable id now r && is_peer peer r.peer_id in
    (update_rows test (λ r. record r { consumed = true }) rows, count_rows test rows == 1)

pub data ActionCall : Type 0 where
  offer : Value → ℕ → Option ℕ → Text → ActionCall
  press : Text → ℕ → ℕ → ActionCall

abbrev pub kept : List ActionRow → Result ActionError (List ActionRow) → List ActionRow
kept rows (ok rows') = rows'
kept rows (err e) = rows

unfoldable pub step : List ActionRow → ActionCall → List ActionRow
step rows (offer value now peer id) = kept rows (action rows value now peer id)
step rows (press id peer now) = (consume_action rows id peer now).0

unfoldable pub run : List ActionRow → List ActionCall → List ActionRow
run rows [] = rows
run rows (c ∷ cs) = run (step rows c) cs
