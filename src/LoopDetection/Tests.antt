-- ===== src/LoopDetection/Tests.antt =====
-- Small histories and texts on which the theorems are tried.
use eclaire.Prelude.{◌≤◌, ◌<◌, ◌≡◌, ◌↔◌, true, List, [], ◌∷◌, String}
use eclaire.LoopDetection.{is_looping}
use eclaire.LoopDetection.Laws.{times, is_looping_iff}

abbrev turns : List String
turns = "a" ∷ "b" ∷ "a" ∷ "a" ∷ []

is_looping_iff_example :
    (is_looping turns 3 1 ≡ true)
    ↔ ((3 ≤ 4) × ((k : String) × (1 < times k ("b" ∷ "a" ∷ "a" ∷ []))))
is_looping_iff_example = is_looping_iff turns 3 1
