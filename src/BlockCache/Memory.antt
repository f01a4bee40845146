-- ===== src/BlockCache/Memory.antt =====
-- InMemoryBlockStorage of src/blockcache.cpp: a std::map from heights to blocks, as a list in the
-- order of the heights.
use xayax.Prelude.{
  ℕ, zero, suc, ◌+◌, ◌-◌, ◌%◌, List, [], ◌∷◌, Option, none, some, ltb, ◌==◌, if◌then◌else◌, u64_mod,
}
use xayax.Prelude.Action.{done}
use xayax.BlockData.{BlockData}
use xayax.BlockCache.{Storage}

module _ {Json : Type 0} where
  -- data.emplace (height, blk): a block that is there stays.
  unfoldable pub emplace : BlockData Json → List (ℕ × BlockData Json) → List (ℕ × BlockData Json)
  emplace blk [] = (blk.height, blk) ∷ []
  emplace blk ((k, b) ∷ rest) =
      let later = emplace blk rest in
      if blk.height == k
      then (k, b) ∷ rest
      else if ltb blk.height k
      then (blk.height, blk) ∷ (k, b) ∷ rest
      else (k, b) ∷ later

  unfoldable pub store_all :
      List (BlockData Json) → List (ℕ × BlockData Json) → List (ℕ × BlockData Json)
  unfolding emplace
  store_all [] m = m
  store_all (blk ∷ blks) m = store_all blks (emplace blk m)

  -- data.find (start) and what follows it in the map
  unfoldable pub find_from : ℕ → List (ℕ × BlockData Json) → List (ℕ × BlockData Json)
  find_from start [] = []
  find_from start ((k, b) ∷ rest) =
      let later = find_from start rest in if k == start then (k, b) ∷ rest else later

  -- The loop: `missing` more blocks, each one above the last; `none` is the early return of {}.
  unfoldable pub extend :
      ℕ → BlockData Json → List (ℕ × BlockData Json) → Option (List (BlockData Json))
  extend zero last rest = some []
  extend (suc missing) last [] = none
  extend (suc missing) last ((k, b) ∷ rest) =
      let more = extend missing b rest in
      if b.height == (last.height + 1) % u64_mod
      then (elim more [ none ↦ none | some bs ↦ some (b ∷ bs) ])
      else none

  abbrev pub run_from : ℕ → List (ℕ × BlockData Json) → List (BlockData Json)
  run_from count [] = []
  run_from count ((k, b) ∷ rest) = elim (extend (count - 1) b rest) [ none ↦ [] | some bs ↦ b ∷ bs ]

  unfoldable pub get_range : ℕ → ℕ → List (ℕ × BlockData Json) → List (BlockData Json)
  unfolding find_from extend
  get_range start count m = run_from count (find_from start m)

  unfoldable pub memory_storage : Storage Json (List (ℕ × BlockData Json))
  unfolding store_all get_range
  memory_storage = record {
    store = λ blocks m. done tt (store_all blocks m);
    get_range = λ start count m. done (get_range start count m) m;
  }
