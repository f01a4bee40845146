-- ===== src/BlockCache.antt =====
-- src/blockcache.cpp and src/blockcache.hpp: a base chain that keeps finalised blocks in a storage.
pub mod Memory
pub mod MySql
pub mod Rows
pub mod Backed
pub mod Persisting
pub mod Serving
use xayax.Prelude.{ℕ, ◌+◌, ◌%◌, Bool, List, ltb, ◌==◌, if◌then◌else◌, length, u64_mod}
use xayax.Prelude.Action.{Action, done, threw, aborted, ◌>>=◌, ◌>>◌, get, put, pure}
use xayax.BlockData.{BlockData}
use xayax.BaseChain.{BaseChain}

-- BlockCacheChain::Storage
pub record Storage (Json Store : Type 0) : Type 0 where
  pub store : List (BlockData Json) → Action Store (Unit {0})
  pub get_range : ℕ → ℕ → Action Store (List (BlockData Json))

pub record CacheState (World Store : Type 0) : Type 0 where
  pub base : World
  pub storage : Store
  pub last_tip_height : ℕ

module _ {World Store : Type 0} where
  abbrev pub on_base : {A : Type 0} → Action World A → Action (CacheState World Store) A
  on_base m s = elim (m s.base) [
    | done a w ↦ done a (record s { base = w })
    | threw w ↦ threw (record s { base = w })
    | aborted ↦ aborted
  ]

  abbrev pub on_storage : {A : Type 0} → Action Store A → Action (CacheState World Store) A
  on_storage m s = elim (m s.storage) [
    | done a w ↦ done a (record s { storage = w })
    | threw w ↦ threw (record s { storage = w })
    | aborted ↦ aborted
  ]

-- start + count + minDepth > lastTipHeight + 1, in uint64_t
abbrev pub near_tip : ℕ → ℕ → ℕ → ℕ → Bool
near_tip min_depth last_tip start count =
    ltb ((last_tip + 1) % u64_mod) ((start + count + min_depth) % u64_mod)

module _ {Json World Store : Type 0} (chain : BaseChain Json World) (cache : Storage Json Store)
    (min_depth : ℕ) where
  unfoldable pub get_tip_height : Action (CacheState World Store) ℕ
  get_tip_height = do
    tip ← on_base chain.get_tip_height
    s ← get
    put (record s { last_tip_height = tip })
    pure tip

  unfoldable pub get_block_range : ℕ → ℕ → Action (CacheState World Store) (List (BlockData Json))
  get_block_range start count = do
    s ← get
    if near_tip min_depth s.last_tip_height start count
        then on_base (chain.get_block_range start count)
        else do
          res ← on_storage (cache.get_range start count)
          if length res == count then pure res else do
            res' ← on_base (chain.get_block_range start count)
            on_storage (cache.store res')
            pure res'

  -- The cache is a base chain itself; the other calls go through.
  unfoldable pub block_cache_chain : BaseChain Json (CacheState World Store)
  unfolding get_tip_height get_block_range
  block_cache_chain = record {
    set_callbacks = λ c. on_base (chain.set_callbacks c);
    start = on_base chain.start;
    enable_pending = on_base chain.enable_pending;
    get_tip_height = get_tip_height;
    get_block_range = get_block_range;
    get_mainchain_height = λ hash. on_base (chain.get_mainchain_height hash);
    get_mempool = on_base chain.get_mempool;
    verify_message = λ msg signature. on_base (chain.verify_message msg signature);
    get_chain = on_base chain.get_chain;
    get_version = on_base chain.get_version;
  }
