-- ===== src/TurnCoordinator.antt =====
-- src/core/turn-coordinator.ts: at most one turn of a session runs. `run` is two steps, its start and the
-- `finally` that ends it; what an active turn holds is whether its controller was aborted.
use vkodex.Prelude.{
  List, [], ◌∷◌, all, not, refl, ◌∙◌, ◌≡◌, Bool, true, false, Option, none, some, arith, inl, inr,
  Option-cases, Result, ok, err, if◌then◌else◌,
}
use vkodex.Prelude.JsText.{Text, ◌===◌, ===_refl, ===_iff}
use vkodex.Prelude.JsMap
use vkodex.Prelude.JsMap.{JsMap}

pub data TurnError : Type 0 where
  session_busy : TurnError

unfoldable pub is_busy : JsMap Bool → Text → Bool
is_busy active session = JsMap.has active session

unfoldable pub start : JsMap Bool → Text → Result TurnError (JsMap Bool)
start active session =
    if JsMap.has active session then err session_busy else ok (JsMap.set active session false)

unfoldable pub finish : JsMap Bool → Text → JsMap Bool
finish active session = JsMap.delete active session

unfoldable pub stop_found : JsMap Bool → Text → Option Bool → JsMap Bool × Bool
stop_found active session none = (active, false)
stop_found active session (some aborted) = (JsMap.set active session true, true)

unfoldable pub stop : JsMap Bool → Text → JsMap Bool × Bool
unfolding stop_found
stop active session = stop_found active session (JsMap.get active session)

-- What happens to a coordinator, in any order: a call of `run` begins, or its `finally` runs, or a call of `stop`. A
-- call of `run` that throws leaves the map as it was.
pub data Event : Type 0 where
  starts : Text → Event
  finishes : Text → Event
  stops : Text → Event

abbrev kept : JsMap Bool → Result TurnError (JsMap Bool) → JsMap Bool
kept active (ok active') = active'
kept active (err e) = active

unfoldable pub step : JsMap Bool → Event → JsMap Bool
step active (starts session) = kept active (start active session)
step active (finishes session) = finish active session
step active (stops session) = (stop active session).0

unfoldable pub run : JsMap Bool → List Event → JsMap Bool
run active [] = active
run active (e ∷ es) = run (step active e) es

-- An event that does not end a turn of the session, and one that is of other sessions.
abbrev pub keeps_turn : Text → Event → Bool
keeps_turn session (starts s) = true
keeps_turn session (finishes s) = not (s === session)
keeps_turn session (stops s) = true

abbrev pub is_apart : Text → Event → Bool
is_apart session (starts s) = not (s === session)
is_apart session (finishes s) = not (s === session)
is_apart session (stops s) = true

module _ (session : Text) where
  stop-is_busy :
      (active : JsMap Bool) (s : Text) → is_busy (stop active s).0 session ≡ is_busy active session
  unfolding stop is_busy
  stop-is_busy active s = elim (Option-cases (JsMap.get active s)) [
    | inl gone ↦ rw gone refl
    | inr (b, found) ↦
        rw found ground (arith, JsMap.get-set active s session true, ===_iff s session)
  ]

  step-is_busy :
      (active : JsMap Bool) (e : Event)
      → keeps_turn session e ≡ true
      → is_busy active session ≡ true
      → is_busy (step active e) session ≡ true
  unfolding step start finish is_busy
  step-is_busy active (starts s) k h = ground (arith, JsMap.get-set active s session false)
  step-is_busy active (finishes s) k h = ground (arith, JsMap.get-delete active s session)
  step-is_busy active (stops s) k h = stop-is_busy active s ∙ h

  run-is_busy :
      (es : List Event) (active : JsMap Bool)
      → all (keeps_turn session) es ≡ true
      → is_busy active session ≡ true
      → is_busy (run active es) session ≡ true
  unfolding run all
  run-is_busy [] active k h = h
  run-is_busy (e ∷ es) active k h =
      run-is_busy es (step active e) (ground arith) (step-is_busy active e (ground arith) h)

  step_apart :
      (active : JsMap Bool) (e : Event)
      → is_apart session e ≡ true
      → is_busy (step active e) session ≡ is_busy active session
  unfolding step start finish is_busy
  step_apart active (starts s) k = ground (arith, JsMap.get-set active s session false)
  step_apart active (finishes s) k = ground (arith, JsMap.get-delete active s session)
  step_apart active (stops s) k = stop-is_busy active s

  run_apart :
      (es : List Event) (active : JsMap Bool)
      → all (is_apart session) es ≡ true
      → is_busy (run active es) session ≡ is_busy active session
  unfolding run all
  run_apart [] active k = refl
  run_apart (e ∷ es) active k =
      run_apart es (step active e) (ground arith) ∙ step_apart active e (ground arith)

-- A turn that starts on a session had it free, and excludes another turn of that session under any events of any
-- sessions but its own end: further starts, stops of it, and ends of other turns. Behind its end the session
-- is free, and stays so under any events but a start or an end of a turn of that session.
pub turns_exclude :
    (active : JsMap Bool) (session : Text) (during after : List Event) {active' : JsMap Bool}
    → start active session ≡ ok active'
    → all (keeps_turn session) during ≡ true
    → all (is_apart session) after ≡ true
    → (is_busy active session ≡ false)
      × (start (run active' during) session ≡ err session_busy)
      × (is_busy (run (finish (run active' during) session) after) session ≡ false)
unfolding start finish is_busy
turns_exclude active session during after {active'} e k a =
    let held = JsMap.get-set active session session false in
    let same = ===_refl session in
    let eq : active' ≡ JsMap.set active session false = ground arith in
    let busy : JsMap.has active' session ≡ true = ground (arith, held, same, eq) in
    let still : JsMap.has (run active' during) session ≡ true =
      run-is_busy session during active' k busy in
    let ended = JsMap.get-delete (run active' during) session session in
    let gone : JsMap.has (finish (run active' during) session) session ≡ false =
      ground (arith, ended, same) in
    (
      ground arith,
      ground (arith, still),
      run_apart session after (finish (run active' during) session) a ∙ gone,
    )
