-- ===== src/BlockCache/Backed.antt =====
-- The block cache in front of any storage that keeps what it is given.
use xayax.Prelude.{ℕ, ◌+◌, ◌≤◌, ◌<◌, ◌≡◌, List, length, arith, u64_mod, ◌==◌, if◌then◌else◌}
use xayax.Prelude.Action.{Post, Post-if, Post-bind, Outcome, ◌>>=◌, ◌>>◌, pure}
use xayax.BlockData.{BlockData}
use xayax.BaseChain.{BaseChain}
use xayax.BlockCache.{Storage, CacheState, get_block_range, on_base, on_storage, near_tip}
use xayax.BlockCache.Serving.{slice}

module _ {Json : Type 0} (chain : ℕ → BlockData Json) where
  module _ {World : Type 0} (base : BaseChain Json World) (min_depth : ℕ) where
    -- The client does not abort the process, and it returns the chain's blocks of each range whose last
    -- block lies at least `min_depth` blocks below the tip, or throws.
    abbrev pub IsSteady : ℕ → Type 0
    IsSteady tip =
        (start count : ℕ) (w : World)
        → Post (λ bs _. start + count + min_depth ≤ tip + 1 → bs ≡ slice chain start count)
            (λ _. Unit {0}) ⊥ (base.get_block_range start count w)

  module _ {Store : Type 0} (storage : Storage Json Store) (Inv : Store → Type 0) (Broken : Type 0)
      (bound : ℕ) where
    -- What the cache relies on: the storage keeps its invariant when blocks of the chain are stored that
    -- lie below the bound, a range that it returns in full has the chain's blocks, and it aborts the process
    -- only if it is broken.
    pub record IsBacking : Type 0 where
      pub stores :
          (start n : ℕ) (s : Store)
          → start + n ≤ bound
          → Inv s
          → Post (λ _. Inv) (λ _. ⊥) Broken (storage.store (slice chain start n) s)
      pub serves :
          (start n : ℕ) (s : Store)
          → start + n < bound
          → Inv s
          → Post
              (λ bs s'. Inv s' × (length bs ≡ n → bs ≡ slice chain start n))
              (λ _. ⊥)
              Broken
              (storage.get_range start n s)

    module _ {World : Type 0} (backing : IsBacking) (base : BaseChain Json World)
        (min_depth : ℕ) where
      abbrev Served : ℕ → ℕ → Outcome (CacheState World Store) (List (BlockData Json)) → Type 0
      Served start count =
          Post (λ bs s'. (bs ≡ slice chain start count) × Inv s'.storage) (λ s'. Inv s'.storage)
            Broken

      fetch-Served :
          (start count : ℕ) (s : CacheState World Store)
          → Post
              (λ bs _. bs ≡ slice chain start count)
              (λ _. Unit {0})
              ⊥
              (base.get_block_range start count s.base)
          → Inv s.storage
          → start + count ≤ bound
          → Served start count (
              (on_base {Store = Store} (base.get_block_range start count) >>= λ res.
              on_storage (storage.store res) >> pure res)
                s)
      fetch-Served start count s h f l = ground (arith, backing.stores start count s.storage)

      fetched :
          (tip start count : ℕ) (s : CacheState World Store)
          → IsSteady base min_depth tip
          → start + count + min_depth ≤ tip + 1
          → Post
              (λ bs _. bs ≡ slice chain start count)
              (λ _. Unit {0})
              ⊥
              (base.get_block_range start count s.base)
      fetched tip start count s h d = ground (arith, h start count s.base)

      complete-Served :
          (tip start count : ℕ)
          → IsSteady base min_depth tip
          → tip + 1 < bound
          → start + count + min_depth ≤ tip + 1
          → (res : List (BlockData Json)) (s : CacheState World Store)
          → Inv s.storage × (length res ≡ count → res ≡ slice chain start count)
          → Served start count (
              (if length res == count
                  then pure res
                  else (on_base (base.get_block_range start count) >>= λ res'.
                      on_storage (storage.store res') >> pure res'))
                s)
      complete-Served tip start count h b d res s k =
          ground (arith, fetch-Served start count s (fetched tip start count s h d))

      abbrev Answered :
          ℕ
          → ℕ
          → CacheState World Store
          → Outcome (CacheState World Store) (List (BlockData Json))
          → Type 0
      Answered start count s =
          Post
            (λ bs s'.
              Inv s'.storage
              × (start + count + min_depth ≤ s.last_tip_height + 1 → bs ≡ slice chain start count)
              × (s.last_tip_height + 1 < start + count + min_depth → s'.storage ≡ s.storage))
            (λ s'. Inv s'.storage) Broken

      from_chain-Answered :
          (start count : ℕ) (s : CacheState World Store)
          → IsSteady base min_depth s.last_tip_height
          → Inv s.storage
          → s.last_tip_height + 1 < start + count + min_depth
          → Answered start count s (on_base (base.get_block_range start count) s)
      from_chain-Answered start count s h f l = ground (arith, h start count s.base)

      final-Answered :
          (start count : ℕ) (s : CacheState World Store)
          (o : Outcome (CacheState World Store) (List (BlockData Json)))
          → start + count + min_depth ≤ s.last_tip_height + 1
          → Served start count o
          → Answered start count s o
      final-Answered start count s o l h = ground (arith, h)

      -- With any storage that the cache can rely on: for a range that is final at the last tip seen, the
      -- cache returns the chain's blocks, whether from the storage or from the client. The storage keeps its
      -- invariant after any request, also if the client throws, and a request for a range that is not
      -- final leaves it as it was.
      pub get_block_range-Answered :
          (start count : ℕ) (s : CacheState World Store)
          → IsSteady base min_depth s.last_tip_height
          → Inv s.storage
          → bound ≤ u64_mod
          → s.last_tip_height + 1 < bound
          → start + count + min_depth < u64_mod
          → Answered start count s (get_block_range base storage min_depth start count s)
      unfolding get_block_range
      get_block_range-Answered start count s h f u b d =
          Post-if _ _ _ (near_tip min_depth s.last_tip_height start count) _ _ s
            (λ e. from_chain-Answered start count s h f (ground arith))
            (λ e.
              let l : start + count + min_depth ≤ s.last_tip_height + 1 = ground arith in
              final-Answered start count s _ l (
                Post-bind
                  (λ bs s'. Inv s'.storage × (length bs ≡ count → bs ≡ slice chain start count)) _ _
                  _ (on_storage (storage.get_range start count) s) _
                  (ground (arith, backing.serves start count s.storage))
                  (complete-Served s.last_tip_height start count h b l)))
