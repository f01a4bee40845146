-- ===== src/Sync/Step.antt =====
-- Sync::UpdateStep of src/sync.cpp, with ImportNewTip and IncreaseNumBlocks.
use xayax.Prelude.{
  ℕ, zero, ◌-◌, ◌*◌, ◌%◌, ◌^◌, min, max, String, Bool, true, false, not, List, [], ◌∷◌, ◌++◌,
  Option, none, some, ltb, leb, if◌then◌else◌, length, last?, reverse, ℤ, pos, negsuc, ltb_ℤ, sub_ℕ,
  max_ℤ, minus_one,
}
use xayax.Prelude.Texts.{same}
use xayax.Prelude.Action.{
  Action, done, threw, aborted, ◌>>=◌, ◌>>◌, get, put, pure, abort, check, checked,
}
use xayax.BlockData.{BlockData, Codec}
use xayax.BaseChain.{BaseChain}
use xayax.Chainstate.Ops.{get_tip_height, get_lowest_unpruned_height}
use xayax.Chainstate.Fork.{get_fork_branch}
use xayax.Chainstate.Methods.{Chainstate, import_tip, set_tip, set_chain, with_batch}
use xayax.Sync.{Core, Sync, on_base, on_chain, on_core}

-- Without a result, `branch` is empty.
abbrev or_empty {ℓ} : {A : Type ℓ} → Option (List A) → List A
or_empty none = []
or_empty (some xs) = xs

-- CHECK_GE (startHeight, 0), and the height.
abbrev as_height : {S : Type 0} → ℤ → Action S ℕ
as_height (pos h) s = done h s
as_height (negsuc h) s = aborted

-- The number of blocks that a step asks for.
unfoldable pub asked : ℕ → ℕ
asked num_blocks = max num_blocks 3

-- `cb` is the callback TipUpdatedFrom, if one is set, and `block_range` is --xayax_block_range.
module _ {Json World Env : Type 0} (codec : Codec Json) (base : BaseChain Json World)
    (cb : Option (String → List (BlockData Json) → Action (Core World Env) (Unit {0})))
    (block_range pruning_depth : ℕ) where
  -- numBlocks << 1 in an unsigned of 32 bits
  unfoldable pub increase_num_blocks : Action (Sync World Env) (Unit {0})
  increase_num_blocks = do
    check (leb 1 block_range)
    s ← get
    put (record s { num_blocks = min block_range (s.num_blocks * 2 % 2 ^ 32) })

  abbrev notify : String → List (BlockData Json) → Action (Core World Env) (Unit {0})
  notify old_tip blocks = elim cb [ none ↦ pure tt | some f ↦ f old_tip blocks ]

  unfoldable pub import_blocks : List (BlockData Json) → Action (Core World Env) Bool
  import_blocks [] = pure false
  import_blocks (blk ∷ []) = do on_chain (import_tip codec blk); notify "" (blk ∷ []); pure true
  import_blocks (blk ∷ next ∷ rest) = abort

  unfoldable pub import_new_tip : ℕ → Action (Core World Env) Bool
  import_new_tip height = do blocks ← on_base (base.get_block_range height 1); import_blocks blocks

  -- The loop that attaches the blocks after the first.
  unfoldable pub attach_rest : BlockData Json → List (BlockData Json) → Action Chainstate (Unit {0})
  attach_rest before [] = pure tt
  attach_rest before (blk ∷ rest) = do
    (attached, prev) ← set_tip codec blk
    check attached
    check (same prev blk.parent)
    check (same prev before.hash)
    attach_rest blk rest

  -- The first block does not fit: go back to look for the fork point.
  unfoldable pub go_back : ℕ → ℕ → Action (Sync World Env) Bool
  go_back start_height num = do
    increase_num_blocks
    s ← get
    let next = max_ℤ (get_lowest_unpruned_height s.chain.blocks) (sub_ℕ start_height num)
    put (record s { next_start_height = next })
    check (ltb_ℤ next (pos start_height))
    pure true

  -- After the first block has been attached: the other blocks, and the callback.
  unfoldable pub attach_blocks :
      String
      → List (BlockData Json)
      → BlockData Json
      → List (BlockData Json)
      → BlockData Json
      → Action (Core World Env) (Unit {0})
  attach_blocks old_tip old_fork_branch first rest last = do
    on_chain (with_batch (attach_rest first rest))
    if same old_tip last.hash
        then pure tt
        else notify old_tip (reverse old_fork_branch ++ (first ∷ rest))

  -- Whether more blocks are wanted.
  unfoldable pub finish_step : ℕ → ℕ → ℕ → BlockData Json → Action (Sync World Env) Bool
  finish_step genesis_height num received last =
      if ltb received num then (do s ← get; put (record s { num_blocks = 1 }); pure false) else (do
        imported ←
            (if ltb last.height genesis_height
              then on_core (import_new_tip genesis_height)
              else pure false)
        if imported then pure true else (increase_num_blocks >> pure true))

  unfoldable pub take_blocks : ℕ → ℕ → ℕ → List (BlockData Json) → Action (Sync World Env) Bool
  take_blocks genesis_height start_height num [] = go_back start_height num
  take_blocks genesis_height start_height num (first ∷ rest) = do
    s ← get
    fork ← checked (get_fork_branch codec s.chain.blocks first.parent)
    (attached, old_tip) ← on_core (on_chain (set_tip codec first))
    if not attached then go_back start_height num else do
      s' ← get
      put (record s' { next_start_height = minus_one })
      last ← checked (last? (first ∷ rest))
      on_core (attach_blocks old_tip (or_empty fork) first rest last)
      finish_step genesis_height num (length (first ∷ rest)) last

  abbrev genesis_of : ℕ → ℕ
  genesis_of base_tip = if ltb base_tip pruning_depth then 0 else base_tip - pruning_depth

  unfoldable pub request : ℕ → ℤ → Action (Sync World Env) Bool
  unfolding asked
  request genesis_height start = do
    s ← get
    start_height ← as_height start
    let num = asked s.num_blocks
    blocks ← on_core (on_base (base.get_block_range start_height num))
    take_blocks genesis_height start_height num blocks

  -- The height to start from is that of the tip, unless the search for a fork point has set one.
  abbrev from_tip : ℕ → ℤ → Action (Sync World Env) Bool
  from_tip genesis_height (negsuc zero) = on_core (import_new_tip genesis_height)
  from_tip genesis_height tip = request genesis_height tip

  abbrev start_from : ℕ → ℤ → Action (Sync World Env) Bool
  start_from genesis_height (negsuc zero) s =
      from_tip genesis_height (get_tip_height s.chain.blocks) s
  start_from genesis_height start s = request genesis_height start s

  unfoldable pub update_step : Action (Sync World Env) Bool
  update_step = do
    base_tip ← on_core (on_base base.get_tip_height)
    s ← get
    start_from (genesis_of base_tip) s.next_start_height

  -- Sync::Start before the thread runs: an exception of the base chain is fatal there.
  abbrev fatal : {S A : Type 0} → Action S A → Action S A
  fatal m s = elim (m s) [ done a s' ↦ done a s' | threw s' ↦ aborted | aborted ↦ aborted ]

  unfoldable pub start : Action (Core World Env) (Sync World Env)
  start = do
    chain ← fatal (on_base base.get_chain)
    on_chain (set_chain chain)
    c ← get
    pure (record { core = c; num_blocks = 1; next_start_height = minus_one })

  -- One round of the thread's loop: exceptions are logged, and end the step with no more to do.
  unfoldable pub round : Action (Sync World Env) Bool
  round s = elim (update_step s) [
    | done more s' ↦ done more s'
    | threw s' ↦ done false s'
    | aborted ↦ aborted
  ]
