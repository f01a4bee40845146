-- ===== src/Sync/Attaching.antt =====
-- What a step of the sync worker in src/sync.cpp does when it returns: it attaches the blocks that it has asked
-- for, or goes back.
use xayax.Prelude.{ℕ, ◌<◌, ◌≡◌, ◌⊎◌, String, true, List, [], ◌∷◌, Option, pos, minus_one}
use xayax.Prelude.Action.{Action, Outcome, done, threw, aborted}
use xayax.BlockData.{BlockData, Codec}
use xayax.BaseChain.{BaseChain}
use xayax.Chainstate.Methods.{Chainstate, savepoint, set_tip}
use xayax.Sync.{Core, Sync}
use xayax.Sync.Step.{asked}

module _ {Json : Type 0} (codec : Codec Json) where
  -- The blocks become the tip one after the other, each on top of the one before.
  abbrev pub Attaches : BlockData Json → List (BlockData Json) → Chainstate → Chainstate → Type 0
  Attaches before [] c c' = c ≡ c'
  Attaches before (blk ∷ rest) c c' =
      (c1 : Chainstate) × (set_tip codec blk c ≡ done (true, before.hash) c1)
      × (blk.parent ≡ before.hash)
      × Attaches blk rest c1 c'

  -- A range whose first block the chainstate takes as its tip; the others follow in a batch.
  pub record Attached {World : Type 0} (base : BaseChain Json World) (h num : ℕ) (c : Chainstate)
      : Type 0 where
    pub before : World
    pub after : World
    pub first : BlockData Json
    pub rest : List (BlockData Json)
    pub returned : base.get_block_range h num before ≡ done (first ∷ rest) after
    pub old_tip : String
    pub first_chain : Chainstate
    pub taken : set_tip codec first c ≡ done (true, old_tip) first_chain
    pub last_chain : Chainstate
    pub attached : Attaches first rest (savepoint first_chain) last_chain

-- The next step starts from a lower height, and the chainstate is as before.
abbrev pub GoesBack : {World Env : Type 0} → ℕ → Chainstate → Sync World Env → Type 0
GoesBack h c s = (k : ℕ) × (s.next_start_height ≡ pos k) × (k < h) × (s.chain ≡ c)

module _ {Json World Env : Type 0} (codec : Codec Json) (base : BaseChain Json World)
    (cb : Option (String → List (BlockData Json) → Action (Core World Env) (Unit {0})))
    (block_range pruning_depth : ℕ) where
  -- A call of the base chain or the chainstate leaves the rest of the worker as it was.
  abbrev with_base : {A : Type 0} → Sync World Env → Outcome World A → Outcome (Sync World Env) A
  with_base s (done a w) = done a (record s { core = record s.core { base = w } })
  with_base s (threw w) = threw (record s { core = record s.core { base = w } })
  with_base s aborted = aborted

  abbrev with_chain :
      {A : Type 0} → Sync World Env → Outcome Chainstate A → Outcome (Sync World Env) A
  with_chain s (done a c) = done a (record s { core = record s.core { chain = c } })
  with_chain s (threw c) = threw (record s { core = record s.core { chain = c } })
  with_chain s aborted = aborted

  -- What a step comes to.
  abbrev pub Moved : ℕ → Sync World Env → Sync World Env → Type 0
  Moved h s s' =
      ((s'.next_start_height ≡ minus_one) × Attached codec base h (asked s.num_blocks) s.chain)
      ⊎ GoesBack h s.chain s'
