-- ===== src/Sync/Searching.antt =====
-- The search of the sync worker in src/sync.cpp for a fork point ends.
use xayax.Prelude.{ℕ, zero, suc, ◌≡◌, ◌⊎◌, String, List, Option, minus_one}
use xayax.Prelude.Action.{Action, After}
use xayax.BlockData.{BlockData, Codec}
use xayax.BaseChain.{BaseChain}
use xayax.Chainstate.Methods.{Chainstate}
use xayax.Sync.{Core, Sync}
use xayax.Sync.Step.{asked, update_step}
use xayax.Sync.Attaching.{Attached}

module _ {Json World Env : Type 0} (codec : Codec Json) (base : BaseChain Json World)
    (cb : Option (String → List (BlockData Json) → Action (Core World Env) (Unit {0})))
    (block_range pruning_depth : ℕ) where
  -- A step between these states has attached a range that the base chain returned, and no search is on.
  abbrev pub Finds : Sync World Env → Sync World Env → Type 0
  Finds s s' =
      (s'.next_start_height ≡ minus_one)
      × ((h : ℕ) × Attached codec base h (asked s.num_blocks) s.chain)

  -- One of the next steps, at most so many, attaches blocks, if each step returns.
  abbrev pub AttachesSoon : ℕ → Sync World Env → Type 0
  AttachesSoon zero s = ⊥
  AttachesSoon (suc n) s =
      After (λ s'. Finds s s' ⊎ AttachesSoon n s')
        (update_step codec base cb block_range pruning_depth s)
