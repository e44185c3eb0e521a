-- ===== src/Padding/Tests.antt =====
-- Two sequences of two rows, of which the first has one row of padding.
use ctranslate.Prelude.{ℕ, true, List, [], ◌∷◌, ◌≡◌}
use ctranslate.Padding.Gather.{gather, gather_op}
use ctranslate.Padding.InPlace.{gather_op-gather}
use ctranslate.Padding.Padder.{Padder}
use ctranslate.Padding.Rows.{Sequence}

gather_op-gather_example :
    gather_op {A = ℕ} true (5 ∷ 6 ∷ 7 ∷ []) (0 ∷ 2 ∷ []) ≡ gather (5 ∷ 6 ∷ 7 ∷ []) (0 ∷ 2 ∷ [])
gather_op-gather_example = gather_op-gather true (5 ∷ 6 ∷ 7 ∷ []) (0 ∷ 2 ∷ [])

abbrev two : List (Sequence ℕ)
two =
    record { init = []; last = 5; padding = 0 ∷ [] }
    ∷ record { init = 6 ∷ []; last = 7; padding = [] }
    ∷ []
