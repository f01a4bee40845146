-- ===== src/CoreChain/Client.antt =====
-- Class CoreChain of xayacore/corechain.cpp as a BaseChain, and behind the block cache of
-- src/blockcache.cpp.
use xayax.Prelude.{
  ℕ, ◌+◌, ◌≤◌, ◌<◌, ◌≡◌, arith, String, List, Option, none, some, u64_mod, if◌then◌else◌, ap, ◌∙◌,
}
use xayax.Prelude.Action.{Action, Post, done, ◌>>=◌, pure, abort}
use xayax.BlockData.{BlockData}
use xayax.BaseChain.{BaseChain, Callbacks}
use xayax.BlockCache.{CacheState, get_block_range as cached_range}
use xayax.BlockCache.Memory.{memory_storage}
use xayax.BlockCache.Serving.{slice, IsFaithful, get_range-slice, store_slice-IsFaithful}
use xayax.Values.{Values}
use xayax.CoreChain.Blocks.{CoreRpc, get_block_range}
use xayax.CoreChain.Calls.{
  get_tip_height, get_mainchain_height, get_mempool, verify_message, get_chain, get_version,
}
use xayax.CoreChain.Listening.{CoreChain, on_node, start, enable_pending}
use xayax.CoreChain.Ranges.{Serves, get_block_range_main_chain}

module _ {Json Double World Env : Type 0} (values : Values Json Double)
    (unhexlify : String → Option String) (hexlify encode_base64 : String → String)
    (rpc : CoreRpc Json World) (cb : Callbacks Json Env) where
  -- A call without enough fuel does not return.
  abbrev returned : {A : Type 0} → Option A → Action (CoreChain Json World Env) A
  returned none = abort
  returned (some a) = pure a

  -- CoreChain with the callbacks of the one that uses it, and fuel for GetBlockRange.
  unfoldable pub core_chain : ℕ → BaseChain Json (CoreChain Json World Env)
  unfolding get_block_range start enable_pending get_tip_height get_mainchain_height get_mempool
      verify_message get_chain get_version
  core_chain fuel = record {
    set_callbacks = λ is_set c. done tt (record c { callbacks = if is_set then some cb else none });
    start = start values unhexlify hexlify rpc;
    enable_pending = enable_pending values unhexlify hexlify rpc;
    get_tip_height = on_node (get_tip_height values rpc);
    get_block_range = λ first count.
        on_node (get_block_range values unhexlify rpc fuel first count) >>= λ r. returned r;
    get_mainchain_height = λ hash. on_node (get_mainchain_height values rpc hash);
    get_mempool = on_node (get_mempool values rpc);
    verify_message =
        λ msg signature. on_node (verify_message values rpc encode_base64 msg signature);
    get_chain = on_node (get_chain values rpc);
    get_version = on_node (get_version values rpc);
  }

  module _ (block : ℕ → BlockData Json) (numbered : (h : ℕ) → (block h).height ≡ h)
      (tip fuel min_depth : ℕ) (enough : tip < fuel) (fits : tip + 1 < u64_mod)
      (node : (w : World)
        → (height : ℕ) × (tip ≤ height) × Serves values unhexlify rpc w block height) where
    range_returned :
        (first count height : ℕ) (c : CoreChain Json World Env)
        → first + count ≤ tip + 1
        → tip ≤ height
        → Serves values unhexlify rpc c.node block height
        → get_block_range values unhexlify rpc fuel first count c.node
          ≡ done (some (slice block first count)) c.node
    range_returned first count height c h l s =
        get_block_range_main_chain values unhexlify rpc c.node block height s fuel first count
          (omega arith) (omega arith)
        ∙ ap (λ n. done (some (slice block first n)) c.node) {y = count} (omega arith)

    core_range_returned :
        (first count : ℕ) (c : CoreChain Json World Env)
        → first + count ≤ tip + 1
        → (core_chain fuel).get_block_range first count c ≡ done (slice block first count) c
    unfolding core_chain
    core_range_returned first count c h =
        let (height, l, s) = node c.node in
        ground (arith, range_returned first count height c h l s)

    -- The block cache with a Xaya Core client behind it and the in-memory storage: if the node has the
    -- blocks of one main chain that reaches the last tip that the cache has seen in each of its states,
    -- a range that is final at this tip is returned as the blocks of the main chain, whether from the
    -- memory or from the node, and the storage stays faithful to the main chain.
    pub cached_core_chain :
        (first count : ℕ) (s : CacheState (CoreChain Json World Env) (List (ℕ × BlockData Json)))
        → s.last_tip_height ≡ tip
        → IsFaithful block s.storage
        → first + count + min_depth ≤ tip + 1
        → Post
            (λ bs s'. (bs ≡ slice block first count) × IsFaithful block s'.storage)
            (λ _. ⊥)
            ⊥
            (cached_range (core_chain fuel) memory_storage min_depth first count s)
    unfolding cached_range memory_storage
    cached_core_chain first count s e f h = ground (
      arith,
      core_range_returned first count s.base (omega arith),
      get_range-slice block numbered first count s.storage (omega arith) f,
      store_slice-IsFaithful block numbered first count s.storage (omega arith) f,
    )
