-- ===== src/CoreChain/Ranges.antt =====
-- The ranges of blocks that CoreChain::GetBlockRange of xayacore/corechain.cpp returns.
use mathlib.Core.List.{append-nil}
use xayax.Prelude.{
  ℕ, zero, suc, ◌+◌, ◌-◌, ◌≤◌, ◌<◌, ◌≡◌, arith, String, List, [], ◌∷◌, ◌++◌, Option, none, some,
  min, u64_mod, ◌%◌, ◌∙◌, ap, dec_lt,
}
use xayax.Prelude.Action.{done}
use xayax.BlockData.{BlockData}
use xayax.BlockCache.Serving.{slice}
use xayax.Values.{Values, answer, field}
use xayax.CoreChain.Blocks.{
  CoreRpc, construct_block_data, fetch_block, find_end, walk_back, get_block_range,
}

module _ {Json Double World : Type 0} (values : Values Json Double)
    (unhexlify : String → Option String) (rpc : CoreRpc Json World) where
  -- A node that has the blocks of a main chain up to a tip and stays in one state.
  pub record Serves (w : World) (block : ℕ → BlockData Json) (tip : ℕ) : Type 0 where
    pub info : Json
    pub gives_info : rpc.getblockchaininfo w ≡ done (answer info) w
    pub blocks : field values values.as_uint64 "blocks" info w ≡ done tip w
    pub best : field values values.as_string "bestblockhash" info w ≡ done (block tip).hash w
    pub hashes : (h : ℕ) → h ≤ tip → rpc.getblockhash h w ≡ done (answer (block h).hash) w
    pub json : ℕ → Json
    pub bodies : (h : ℕ) → h ≤ tip → rpc.getblock (block h).hash w ≡ done (answer (json h)) w
    pub parsed :
        (h : ℕ) → h ≤ tip → construct_block_data values unhexlify (json h) w ≡ done (block h) w
    pub heights : (h : ℕ) → h ≤ tip → (block h).height ≡ h
    pub linked : (h : ℕ) → suc h ≤ tip → (block (suc h)).parent ≡ (block h).hash

  module _ (w : World) (block : ℕ → BlockData Json) (tip : ℕ) (node : Serves w block tip) where
    slice-snoc :
        (start n : ℕ) (res : List (BlockData Json))
        → slice block start n ++ block (start + n) ∷ res ≡ slice block start (suc n) ++ res
    slice-snoc start zero res = ap (λ h. block h ∷ res) (omega arith)
    slice-snoc start (suc n) res =
        ap (λ h. block start ∷ (slice block (suc start) n ++ block h ∷ res)) (omega arith)
        ∙ ap (λ bs. block start ∷ bs) (slice-snoc (suc start) n res)

    walk_back-slice :
        (n fuel start : ℕ) (res : List (BlockData Json))
        → start + n ≤ tip
        → n < fuel
        → walk_back values unhexlify rpc fuel start (block (start + n)).hash res w
          ≡ done (some (slice block start (suc n) ++ res)) w
    unfolding walk_back fetch_block
    walk_back-slice n zero start res h f = absurd (omega arith)
    walk_back-slice zero (suc fuel) start res h f = ground (
      arith,
      node.bodies (start + 0),
      node.parsed (start + 0),
      node.heights (start + 0),
      slice-snoc start 0 res,
    )
    walk_back-slice (suc n) (suc fuel) start res h f = ground (
      arith,
      node.bodies (start + suc n),
      node.parsed (start + suc n),
      node.heights (start + suc n),
      node.linked (start + n),
      walk_back-slice n fuel start (block (start + suc n) ∷ res),
      slice-snoc start (suc n) res,
    )

    find_end-min :
        (fuel start end_height : ℕ)
        → start ≤ tip
        → find_end values unhexlify rpc (suc fuel) start end_height w
          ≡ done (some (some (block (min end_height tip)).hash)) w
    unfolding find_end
    find_end-min fuel start end_height h =
        ground (arith, node.gives_info, node.blocks, node.best, node.hashes end_height)

    find_end-none :
        (fuel start end_height : ℕ)
        → tip < start
        → find_end values unhexlify rpc (suc fuel) start end_height w ≡ done (some none) w
    unfolding find_end
    find_end-none fuel start end_height h = ground (arith, node.gives_info, node.blocks)

    end_height_of :
        (start n : ℕ) → start + suc n ≤ u64_mod → (start + suc n - 1) % u64_mod ≡ start + n
    end_height_of start n b = omega arith

    get_block_range_none :
        (fuel start n : ℕ)
        → start + suc n ≤ u64_mod
        → tip < start
        → get_block_range values unhexlify rpc (suc fuel) start (suc n) w ≡ done (some []) w
    unfolding get_block_range
    get_block_range_none fuel start n b h =
        ground (arith, find_end-none fuel start (start + n) h, end_height_of start n b)

    get_block_range-walk_back :
        (fuel start n m : ℕ)
        → start + suc n ≤ u64_mod
        → start ≤ tip
        → m ≡ min (start + n) tip
        → get_block_range values unhexlify rpc (suc fuel) start (suc n) w
          ≡ walk_back values unhexlify rpc (suc fuel) start (block m).hash [] w
    unfolding get_block_range
    get_block_range-walk_back fuel start n m b h e =
        ground (arith, find_end-min fuel start (start + n) h, end_height_of start n b)

    -- With a node that has the blocks of a main chain and stays in one state, GetBlockRange returns, if
    -- the range fits uint64_t: the blocks of the main chain from the start on, as many as asked for and
    -- as there are.
    pub get_block_range_main_chain :
        (fuel start count : ℕ)
        → count ≤ fuel
        → start + count ≤ u64_mod
        → get_block_range values unhexlify rpc fuel start count w
          ≡ done (some (slice block start (min count (tip + 1 - start)))) w
    unfolding get_block_range
    get_block_range_main_chain fuel start zero f b = ground arith
    get_block_range_main_chain zero start (suc n) f b = absurd (omega arith)
    get_block_range_main_chain (suc fuel) start (suc n) f b = elim (dec_lt tip start) [
      | yes h ↦
          get_block_range_none fuel start n b h
          ∙ ap (λ k. done (some (slice block start k)) w) {x = 0} (omega arith)
      | no h ↦
          let m = min n (tip - start) in
          get_block_range-walk_back fuel start n (start + m) b (omega arith) (omega arith)
          ∙ walk_back-slice m (suc fuel) start [] (omega arith) (omega arith)
          ∙ ap (λ bs. done (some bs) w) (append-nil (slice block start (suc m)))
          ∙ ap (λ k. done (some (slice block start k)) w) {x = suc m} (omega arith)
    ]
