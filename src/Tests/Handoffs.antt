-- ===== src/Tests/Handoffs.antt =====
-- src/bridge/store.ts: concrete runs of the handoff marks.
use vkodex.Prelude.{◌≤◌, ◌≡◌, ◌==◌, ◌+◌, refl, true, false, List, [], ◌∷◌}
use vkodex.Prelude.JsText.{codes, ◌===◌}
use vkodex.Prelude.JsMap.{get, set}
use vkodex.Bridge.Handoffs.{
  Handoffs, order, switch_transfer, launched, live, claim_initial_handoff, mark_desktop_handoff,
  clear_desktop_handoff, get_value, HandoffCall, claim, mark, clear, step, run,
}
use vkodex.Bridge.Handoffs.Progress.{progress, spares, all_spare}
use vkodex.Bridge.Handoffs.Onward.{handoff_onward}

abbrev marks : List HandoffCall
marks =
    claim (codes "b") (codes "t") 5
    ∷ mark (codes "b") (codes "t") live 6
    ∷ mark (codes "b") (codes "t") launched 7
    ∷ switch_transfer (codes "c")
    ∷ clear (codes "b") (codes "u")
    ∷ []

all_are_spared : all_spare (codes "b") (codes "t") marks ≡ true
unfolding all_spare spares ◌===◌
all_are_spared = refl

abbrev claimed : Handoffs
claimed = (claim_initial_handoff [] (codes "b") (codes "t") 5).0

handoff_onward_example :
    ((claim_initial_handoff [] (codes "b") (codes "t") 5).1
      ≡ (progress [] (codes "b") (codes "t") == 0))
    × (progress [] (codes "b") (codes "t") ≤ progress claimed (codes "b") (codes "t"))
    × (progress claimed (codes "b") (codes "t")
        ≤ progress (run claimed marks) (codes "b") (codes "t"))
    × ((claim_initial_handoff (run claimed marks) (codes "b") (codes "t") 9).1 ≡ false)
    × (1 + order live
        ≤ progress
            (mark_desktop_handoff (run claimed marks) (codes "b") (codes "t") live 9)
            (codes "b")
            (codes "t"))
handoff_onward_example = handoff_onward [] (codes "b") (codes "t") marks live 5 9 all_are_spared

stays_live : progress (run [] marks) (codes "b") (codes "t") ≡ 3
unfolding progress run step claim_initial_handoff mark_desktop_handoff clear_desktop_handoff
    get_value get set ◌===◌
stays_live = refl
