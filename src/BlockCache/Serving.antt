-- ===== src/BlockCache/Serving.antt =====
-- The cache serves what the chain holds.
use native.Mathlib.Numerals.{sub-one}
use xayax.Prelude.{
  ℕ, zero, suc, ◌+◌, ◌≤◌, ◌<◌, ◌≡◌, refl, List, [], ◌∷◌, some, arith, All, length, u64_mod, ap, inl,
  inr, Option-cases,
}
use xayax.Prelude.Action.{Post}
use xayax.BlockData.{BlockData}
use xayax.BaseChain.{BaseChain}
use xayax.BlockCache.{CacheState, get_block_range}
use xayax.BlockCache.Memory.{
  emplace, store_all, find_from, extend, run_from, get_range, memory_storage,
}

module _ {Json : Type 0} (chain : ℕ → BlockData Json) where
  -- The blocks of the chain from a height on.
  abbrev pub slice : ℕ → ℕ → List (BlockData Json)
  slice start zero = []
  slice start (suc n) = chain start ∷ slice (suc start) n

  -- Every stored block is the chain's block of that height.
  abbrev pub IsFaithful : List (ℕ × BlockData Json) → Type 0
  IsFaithful m = All (λ e. (e.1 ≡ chain e.0) × (e.0 < u64_mod)) m

  abbrev StartsAt : ℕ → List (ℕ × BlockData Json) → Type 0
  StartsAt start [] = Unit {0}
  StartsAt start ((k, b) ∷ m) = k ≡ start

  module _ (numbered : (h : ℕ) → (chain h).height ≡ h) where
    emplace-IsFaithful :
        (h : ℕ) (m : List (ℕ × BlockData Json))
        → h < u64_mod
        → IsFaithful m
        → IsFaithful (emplace (chain h) m)
    unfolding emplace
    emplace-IsFaithful h [] b f = ground (arith, numbered h)
    emplace-IsFaithful h ((k, c) ∷ m) b f = ground (arith, numbered h, emplace-IsFaithful h m b f.1)

    pub store_slice-IsFaithful :
        (start n : ℕ) (m : List (ℕ × BlockData Json))
        → start + n ≤ u64_mod
        → IsFaithful m
        → IsFaithful (store_all (slice start n) m)
    unfolding store_all
    store_slice-IsFaithful start zero m h f = f
    store_slice-IsFaithful start (suc n) m h f =
        store_slice-IsFaithful (suc start) n (emplace (chain start) m) (omega arith)
          (emplace-IsFaithful start m (omega arith) f)

    find_from-IsFaithful :
        (start : ℕ) (m : List (ℕ × BlockData Json)) → IsFaithful m → IsFaithful (find_from start m)
    unfolding find_from
    find_from-IsFaithful start [] f = tt
    find_from-IsFaithful start ((k, b) ∷ m) f = ground (arith, find_from-IsFaithful start m f.1)

    extend-slice :
        (n h : ℕ) (a : BlockData Json) (m : List (ℕ × BlockData Json)) (bs : List (BlockData Json))
        → a ≡ chain h
        → h + n < u64_mod
        → IsFaithful m
        → extend n a m ≡ some bs
        → bs ≡ slice (suc h) n
    unfolding extend
    extend-slice zero h a m bs p b f e = ground arith
    extend-slice (suc n) h a [] bs p b f e = cc
    extend-slice (suc n) h a ((k, c) ∷ m) bs p b f e = elim (Option-cases (extend n c m)) [
      | inl d ↦ absurd (ground arith)
      | inr (bs', d) ↦ ground (
        arith,
        numbered h,
        ap (λ (x : BlockData Json). x.height) p,
        ap (λ (x : BlockData Json). x.height) f.0.0,
        numbered k,
        extend-slice n (suc h) c m bs',
      )
    ]

    run_from-slice :
        (start n : ℕ) (l : List (ℕ × BlockData Json))
        → start + n < u64_mod
        → IsFaithful l
        → StartsAt start l
        → length (run_from n l) ≡ n
        → run_from n l ≡ slice start n
    unfolding extend
    run_from-slice start zero [] b f k e = refl
    run_from-slice start (suc n) [] b f k e = absurd (omega arith)
    run_from-slice start zero ((k, c) ∷ l) b f p e = absurd (ground arith)
    run_from-slice start (suc n) ((k, c) ∷ l) b f p e = elim (Option-cases (extend n c l)) [
      | inl d ↦ absurd (ground (arith, sub-one (suc n)))
      | inr (bs, d) ↦ ground (arith, extend-slice n start c l bs)
    ]

    find_from-StartsAt :
        (start : ℕ) (m : List (ℕ × BlockData Json)) → StartsAt start (find_from start m)
    unfolding find_from
    find_from-StartsAt start [] = tt
    find_from-StartsAt start ((k, c) ∷ m) = ground (arith, find_from-StartsAt start m)

    -- If the memory returns as many blocks as a range asks for, they are the chain's.
    pub get_range-slice :
        (start n : ℕ) (m : List (ℕ × BlockData Json))
        → start + n < u64_mod
        → IsFaithful m
        → length (get_range start n m) ≡ n
        → get_range start n m ≡ slice start n
    unfolding get_range
    get_range-slice start n m b f e =
        run_from-slice start n (find_from start m) b (find_from-IsFaithful start m f)
          (find_from-StartsAt start m) e

    module _ {World : Type 0} (base : BaseChain Json World) (min_depth : ℕ) where
      -- The client returns the chain's blocks of each range whose last block lies at least `min_depth`
      -- blocks below the tip, or throws.
      abbrev pub IsFinal : ℕ → Type 0
      IsFinal tip =
          (start count : ℕ) (w : World)
          → start + count + min_depth ≤ tip + 1
          → Post (λ bs _. bs ≡ slice start count) (λ _. Unit {0}) (Unit {0})
              (base.get_block_range start count w)

      -- If the client returns the chain's blocks for ranges that are final at the last tip seen: the cache
      -- returns the chain's blocks for such a range, whether from its memory or from the client. What it
      -- stores is the chain's after any request, also if the client throws, and a request for a range that
      -- is not final leaves the memory as it was. The heights that are compared do not overflow.
      pub get_block_range-slice :
          (start count : ℕ) (s : CacheState World (List (ℕ × BlockData Json)))
          → IsFinal s.last_tip_height
          → IsFaithful s.storage
          → s.last_tip_height + 1 < u64_mod
          → start + count + min_depth < u64_mod
          → Post
              (λ bs s'.
                IsFaithful s'.storage
                × (start + count + min_depth ≤ s.last_tip_height + 1 → bs ≡ slice start count)
                × (s.last_tip_height + 1 < start + count + min_depth → s'.storage ≡ s.storage))
              (λ s'. IsFaithful s'.storage)
              (Unit {0})
              (get_block_range base memory_storage min_depth start count s)
      unfolding get_block_range memory_storage
      get_block_range-slice start count s h f b d = ground (
        arith,
        h start count s.base,
        get_range-slice start count s.storage,
        store_slice-IsFaithful start count s.storage,
      )
