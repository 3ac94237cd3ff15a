-- ===== src/Exhaustion/Tests.antt =====
-- The exhaustion tracker on concrete observations.
use go_block_walk.Prelude.{◌≡◌, ◌↔◌, true, false, [], ◌∷◌}
use go_block_walk.Prelude.Int.{pos}
use go_block_walk.Exhaustion.{observe, observed, LastDown, observe_iff}

observe_iff_example :
    ((observe (observed (pos 2) (false ∷ true ∷ [])) false).0 ≡ true)
    ↔ LastDown 2 (false ∷ false ∷ true ∷ [])
observe_iff_example = observe_iff 1 (false ∷ true ∷ []) false
