-- ===== src/Analysis/Worker/Tests.antt =====
-- Runs of analysis/worker.go: a batch with a miss before its last hit, and a worker with a batch
-- waiting.
use memsniff.Model.{Event, EventType, event_get_hit, event_get_miss}
use memsniff.Hotlist.Counts.{occurrences}
use memsniff.Analysis.Worker.{KeyInfo, Worker, same_info?, blank, put, copy_hits}
use memsniff.Analysis.Worker.Copy.{slot, copy_hits-slot}
use memsniff.Analysis.Worker.Steps.{Action, sends, takes, act_all, accepted, known, known-act_all}
use memsniff.Common.{ℕ, ◌≡◌, refl, List, [], ◌∷◌, ◌++◌, map, pos, ◌+ℤ◌}

abbrev event : EventType → ℕ → Event
event t c = record { type = t; key = c ∷ []; size = pos c }

abbrev key_info : ℕ → KeyInfo
key_info c = record { name = c ∷ []; size = pos c }

copy_hits-slot_example :
    copy_hits 0 [] (
      (event event_get_hit 1 ∷ event event_get_miss 2 ∷ [])
      ++ event event_get_hit 3 ∷ event event_get_miss 4 ∷ [])
    ≡ map slot ((event event_get_hit 1 ∷ event event_get_miss 2 ∷ []) ++ event event_get_hit 3 ∷ [])
copy_hits-slot_example =
    copy_hits-slot (event event_get_hit 1 ∷ event event_get_miss 2 ∷ []) (event event_get_hit 3)
      (event event_get_miss 4 ∷ []) refl (refl, tt)

-- The miss leaves a keyInfo with no name.
blank_counted :
    copy_hits 0 [] (event event_get_miss 2 ∷ event event_get_hit 3 ∷ []) ≡ blank ∷ key_info 3 ∷ []
unfolding copy_hits put
blank_counted = refl

abbrev busy : Worker
busy = record {
  hl = record { item = key_info 3; count = pos 2 } ∷ [];
  waiting = (key_info 3 ∷ key_info 5 ∷ []) ∷ [];
}

abbrev steps : List Action
steps = sends (event event_get_hit 3 ∷ []) ∷ takes ∷ sends (event event_get_hit 5 ∷ []) ∷ takes ∷ []

known-act_all_example :
    known (act_all busy steps) (key_info 3)
    ≡ known busy (key_info 3) +ℤ pos (occurrences same_info? (accepted busy steps) (key_info 3))
known-act_all_example = known-act_all steps busy (key_info 3)
