-- ===== src/VirtualChain/Tests.antt =====
-- Windows of three responses.
use simply_kaspa_indexer.Prelude.{◌≡◌, ◌≤◌, refl, true, false, some, [], ◌∷◌, arith}
use simply_kaspa_indexer.VirtualChain.{start, Tip, Response, tip_step, tip_run}
use simply_kaspa_indexer.VirtualChain.Window.{
  NeverLower, IsWindow, tip_run-IsWindow, tip_run_keeps_distance,
}

abbrev quiet : Response
quiet = record { has_reorg = false; added_blocks_count = 10 }

abbrev reorg : Response
reorg = record { has_reorg = true; added_blocks_count = 10 }

abbrev calm_tip : Tip
calm_tip = record { tip_distance = 5; tip_distance_history = false ∷ false ∷ false ∷ [] }

abbrev lowered : Tip
lowered = record { tip_distance = 4; tip_distance_history = true ∷ false ∷ false ∷ [] }

abbrev reorgs_tip : Tip
reorgs_tip = record { tip_distance = 5; tip_distance_history = true ∷ true ∷ false ∷ [] }

-- A third reorg raises the distance, and does not count again.
raises :
    tip_step 3 reorg reorgs_tip
    ≡ some (record { tip_distance = 6; tip_distance_history = false ∷ true ∷ true ∷ [] })
unfolding tip_step
raises = refl

ran :
    tip_run 3 (reorg ∷ reorg ∷ reorg ∷ []) start
    ≡ some (record { tip_distance = 11; tip_distance_history = false ∷ true ∷ true ∷ [] })
unfolding tip_run tip_step
ran = refl

tip_run-IsWindow_example :
    IsWindow 3 (record { tip_distance = 11; tip_distance_history = false ∷ true ∷ true ∷ [] })
tip_run-IsWindow_example = tip_run-IsWindow 3 (reorg ∷ reorg ∷ reorg ∷ []) (omega arith) ran

lowers : tip_step 3 quiet calm_tip ≡ some lowered
unfolding tip_step
lowers = refl

tip_run_keeps_distance_example :
    NeverLower 3 (quiet ∷ reorg ∷ []) lowered
    × ((tip : Tip) × (tip_run 3 (quiet ∷ reorg ∷ []) lowered ≡ some tip) × (4 ≤ tip.tip_distance))
tip_run_keeps_distance_example =
    tip_run_keeps_distance 3 quiet (quiet ∷ reorg ∷ []) calm_tip lowers (omega arith) refl
      (omega arith) (omega arith)
