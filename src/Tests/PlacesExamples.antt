-- ===== src/Tests/PlacesExamples.antt =====
-- The theorem about the places of the screens, at a concrete run.
use celo_desktop_app.Base.{◌≡◌, refl, some, List, [], ◌∷◌, arith}
use celo_desktop_app.Base.Int.{pos, negsuc}
use celo_desktop_app.Gui.Windows.{Screen, opens, scr_visible, wnd_run}
use celo_desktop_app.Gui.Places.{Frame, Placed, PlaceEvent, asks, drags, place_run, corner}
use celo_desktop_app.Gui.Places.Spot.{spot}
use celo_desktop_app.Gui.Places.Dragged.{
  spot_run, spot_step, spot_request, requests, AllTidy, place_run_lem,
}
use celo_desktop_app.Gui.Windows.Single.{IsTidy}
use celo_desktop_app.Tests.GuiExamples.{first_windows}

abbrev frame_of : Screen → Frame
frame_of Screen.settings = record { x = pos 0; y = pos 0; width = 776 }
frame_of _ = record { x = pos 100; y = pos 50; width = 375 }

abbrev first_placed : Placed
first_placed = record { windows = first_windows; frames = frame_of; x = pos 100; y = pos 50 }

-- The settings are wider, and stand at 100 + 187 - 388.
abbrev dragged : List PlaceEvent
dragged = asks (opens Screen.settings) ∷ drags Screen.settings (pos 30) (negsuc 9) ∷ []

dragged-spot :
    spot_run (dragged) (spot first_placed)
    ≡ record { shown = some Screen.settings; here = (pos 130, pos 40); saved = (pos 100, pos 50) }
unfolding spot_run spot_step spot_request scr_visible corner
dragged-spot = refl

-- The settings are asked for once more, and move back.
dragged-back :
    spot_run (asks (opens Screen.settings) ∷ []) (spot_run dragged (spot first_placed))
    ≡ record { shown = some Screen.settings; here = (pos 100, pos 50); saved = (pos 100, pos 50) }
unfolding spot_run spot_step spot_request scr_visible corner
dragged-back = refl

place_run_lem_example :
    (spot (place_run dragged first_placed) ≡ spot_run dragged (spot first_placed))
    × ((place_run dragged first_placed).windows ≡ wnd_run (requests dragged) first_windows)
unfolding AllTidy IsTidy
place_run_lem_example = place_run_lem dragged (tt, tt) first_placed (omega arith)
