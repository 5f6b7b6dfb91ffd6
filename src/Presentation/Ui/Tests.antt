-- ===== src/Presentation/Ui/Tests.antt =====
-- Runs of the display of presentation/termbox.go.
use memsniff.Mctext.Text.{codes}
use memsniff.Analysis.Pool.{KeyReport}
use memsniff.Analysis.Pool
use memsniff.Presentation.Screen.{runes, runes_from, decode_rune, Size, Stats}
use memsniff.Presentation.Screen.Rows.{Regions, screen-Regions}
use memsniff.Presentation.Ui.{Ui, tick, event, key, new_ui, handle_pause, runs}
use memsniff.Presentation.Ui.Pausing.{pause-stuck}
use memsniff.Common.{ℕ, ◌≡◌, refl, false, List, [], ◌∷◌, none, some, arith, replicate, ℤ, pos}

abbrev size : Size
size = record { width = 80; height = 9 }

abbrev width_of : ℕ → ℕ
width_of r = 1

abbrev rate : ℤ → ℤ → List ℕ
rate dropped passed = codes " 0.00"

abbrev zeros : Stats
zeros = record {
  entered_filter = pos 0;
  passed_filter = pos 0;
  captured = pos 0;
  dropped_kernel = pos 0;
  dropped_parser = pos 0;
  dropped_analysis = pos 0;
  dropped_total = pos 0;
  responses_parsed = pos 0;
}

abbrev row : KeyReport
row = record { name = codes "key"; size = pos 10; requests = pos 3; traffic = pos 30 }

-- "é", a byte that begins nothing, and "€".
decoded : runes (195 ∷ 169 ∷ 255 ∷ 226 ∷ 130 ∷ 172 ∷ []) ≡ 233 ∷ 65533 ∷ 8364 ∷ []
unfolding runes runes_from decode_rune
decoded = refl

-- Room for two of the three keys.
screen-Regions_example :
    Regions width_of size rate [] zeros (row ∷ row ∷ row ∷ []) (codes "one" ∷ codes "two" ∷ [])
screen-Regions_example =
    screen-Regions width_of size rate [] zeros (row ∷ row ∷ row ∷ [])
      (codes "one" ∷ codes "two" ∷ []) (omega arith) (omega arith)

abbrev fresh : Ui
fresh = new_ui (Pool.new_pool 2 10) false

-- The channel is full.
abbrev busy : Ui
busy = record fresh { msg_chan = replicate 128 (codes "dropped") }

pause-stuck_example :
    (runs width_of size rate [] zeros (event (key b'p' 0) ∷ []) busy
      ≡ some (handle_pause busy b'p' 0))
    × (runs width_of size rate [] zeros (event (key b'p' 0) ∷ tick ∷ []) busy ≡ none)
unfolding new_ui
pause-stuck_example = pause-stuck width_of size rate [] zeros busy 0 tick [] refl (omega arith)
