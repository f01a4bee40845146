-- ===== src/Tests/Serving.antt =====
-- Instances for the block cache and the sync worker.
use xayax.Prelude.{ℕ, zero, suc, max, ◌+◌, ◌≤◌, ◌<◌, ◌≡◌, refl, arith, List, [], ◌∷◌, none, pos}
use xayax.Prelude.Action.{Ever, Post}
use xayax.BlockData.{BlockData}
use xayax.BlockCache.{CacheState, get_block_range}
use xayax.BlockCache.Memory.{memory_storage}
use xayax.BlockCache.Serving.{slice, IsFaithful, get_block_range-slice}
use xayax.Chainstate.Methods.{Chainstate}
use xayax.Chainstate.Ops.{row_of, get_lowest_unpruned_height}
use xayax.Sync.{Sync}
use xayax.Sync.Step.{asked, round}
use xayax.Sync.Progress.{InRange, round-InRange}
use xayax.Tests.Fixtures.{Js, honest, chain_block, blocks_from, by_hash, genesis}

abbrev cache : CacheState (Unit {0}) (List (ℕ × BlockData Js))
cache = record { base = tt; storage = (2, chain_block 2) ∷ []; last_tip_height = 9 }

honest_blocks : (start count : ℕ) → blocks_from start count ≡ slice chain_block start count
honest_blocks start zero = refl
honest_blocks start (suc n) = rw (honest_blocks (suc start) n)

get_block_range-slice_example :
    Post
      (λ bs s'.
        IsFaithful chain_block s'.storage
        × (2 + 3 + 3 ≤ 9 + 1 → bs ≡ slice chain_block 2 3)
        × (9 + 1 < 2 + 3 + 3 → s'.storage ≡ cache.storage))
      (λ s'. IsFaithful chain_block s'.storage)
      (Unit {0})
      (get_block_range honest memory_storage 3 2 3 cache)
get_block_range-slice_example =
    get_block_range-slice chain_block (λ h. refl) honest 3 2 3 cache
      (λ start count w h. honest_blocks start count) ((refl, omega arith), tt) (omega arith)
      (omega arith)

abbrev with_genesis : Chainstate
with_genesis = record {
  contents = record { blocks = row_of by_hash genesis 0 ∷ []; chain = none };
  savepoints = [];
}

abbrev worker : Sync (Unit {0}) (Unit {0})
worker = record {
  core = record { base = tt; chain = with_genesis; env = tt };
  num_blocks = 1;
  next_start_height = pos 5;
}

round-InRange_example :
    Ever
      (λ s'. InRange 128 s' × (3 ≤ asked s'.num_blocks) × (asked s'.num_blocks ≤ max 128 3))
      (round by_hash honest none 128 1000 worker)
round-InRange_example =
    round-InRange by_hash honest none 128 1000 (omega arith) worker (omega arith)

lowest : get_lowest_unpruned_height worker.chain.blocks ≡ pos 0
unfolding get_lowest_unpruned_height
lowest = refl
