-- ===== src/Sync/Progress.antt =====
-- The number of blocks that the sync worker of src/sync.cpp asks for keeps within its limits.
use xayax.Prelude.{
  ℕ, zero, max, ◌^◌, ◌≤◌, ◌<◌, arith, String, List, [], ◌∷◌, Option, ℤ, pos, negsuc,
}
use xayax.Prelude.Action.{Action, Ever}
use xayax.BlockData.{BlockData, Codec}
use xayax.BaseChain.{BaseChain}
use xayax.Chainstate.Ops.{get_tip_height}
use xayax.Sync.{Core, Sync, on_core}
use xayax.Sync.Step.{
  increase_num_blocks, go_back, finish_step, take_blocks, request, update_step, round, asked,
}

-- numBlocks is at least one and at most --xayax_block_range.
abbrev pub InRange : {World Env : Type 0} → ℕ → Sync World Env → Type 0
InRange block_range s = (1 ≤ s.num_blocks) × (s.num_blocks ≤ block_range)

-- With -1 no search is on, and the tip is the start.
abbrev pub start_height : ℤ → ℤ → ℤ
start_height tip (negsuc zero) = tip
start_height tip next = next

module _ {Json World Env : Type 0} (codec : Codec Json) (base : BaseChain Json World)
    (cb : Option (String → List (BlockData Json) → Action (Core World Env) (Unit {0})))
    (block_range pruning_depth : ℕ) where
  module _ (small : block_range < 2 ^ 31) where
    increase_num_blocks-InRange :
        (s : Sync World Env)
        → InRange block_range s
        → Ever (InRange block_range) (increase_num_blocks codec base cb block_range pruning_depth s)
    unfolding increase_num_blocks
    increase_num_blocks-InRange s h = ground arith

    go_back-InRange :
        (start_height num : ℕ) (s : Sync World Env)
        → InRange block_range s
        → Ever
            (InRange block_range)
            (go_back codec base cb block_range pruning_depth start_height num s)
    unfolding go_back increase_num_blocks
    go_back-InRange start_height num s h = ground arith

    on_core-InRange :
        {A : Type 0} (m : Action (Core World Env) A) (s : Sync World Env)
        → InRange block_range s
        → Ever (InRange block_range) (on_core m s)
    on_core-InRange m s h = ground arith

    finish_step-InRange :
        (genesis_height num received : ℕ) (last : BlockData Json) (s : Sync World Env)
        → InRange block_range s
        → Ever
            (InRange block_range)
            (finish_step codec base cb block_range pruning_depth genesis_height num received last s)
    unfolding finish_step increase_num_blocks
    finish_step-InRange genesis_height num received last s h = ground arith

    take_blocks-InRange :
        (genesis_height start_height num : ℕ) (blocks : List (BlockData Json)) (s : Sync World Env)
        → InRange block_range s
        → Ever (InRange block_range) (
            take_blocks codec base cb block_range pruning_depth genesis_height start_height num
              blocks s)
    unfolding take_blocks
    take_blocks-InRange genesis_height start_height num [] s h =
        go_back-InRange start_height num s h
    take_blocks-InRange genesis_height start_height num (first ∷ rest) s h =
        grind (arith, go_back-InRange, finish_step-InRange)

    request-InRange :
        (genesis_height : ℕ) (start : ℤ) (s : Sync World Env)
        → InRange block_range s
        → Ever
            (InRange block_range)
            (request codec base cb block_range pruning_depth genesis_height start s)
    unfolding request
    request-InRange genesis_height (pos h) s r = grind (arith, take_blocks-InRange)
    request-InRange genesis_height (negsuc h) s r = tt

    update_step-InRange :
        (s : Sync World Env)
        → InRange block_range s
        → Ever (InRange block_range) (update_step codec base cb block_range pruning_depth s)
    unfolding update_step
    update_step-InRange s h = grind (arith, request-InRange)

    -- For a range below 2 ^ 31: if numBlocks is at least one and at most --xayax_block_range, it is so
    -- after a round of the worker, also if an exception ends its step. The number of blocks that the
    -- next step then asks for is at least three, and at most the range or, if that is smaller, three.
    pub round-InRange :
        (s : Sync World Env)
        → InRange block_range s
        → Ever
            (λ s'.
              InRange block_range s'
              × (3 ≤ asked s'.num_blocks)
              × (asked s'.num_blocks ≤ max block_range 3))
            (round codec base cb block_range pruning_depth s)
    unfolding round asked
    round-InRange s h = ground (arith, update_step-InRange s)

  -- The height that a step starts from: that of the search for a fork point, if one is on.
  abbrev pub start_of : Sync World Env → ℤ
  start_of s = start_height (get_tip_height s.chain.blocks) s.next_start_height
