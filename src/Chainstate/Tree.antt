-- ===== src/Chainstate/Tree.antt =====
-- The well-formed tables of src/chainstate.cpp: the invariant of the tree of blocks.
use xayax.Prelude.{◌+◌, ◌≤◌, ◌<◌, ◌≡◌, ◌≢◌, List, some, true}
use xayax.BlockData.{BlockData, Codec}
use xayax.Chainstate.Table.{Row, constraints_hold}
use xayax.Chainstate.Fork.{decode}
use xayax.Chainstate.Members.{In}

module _ {Json : Type 0} (codec : Codec Json) where
  pub record IsTree (rs : List Row) : Type 0 where
    -- The constraints of the table.
    pub keys : constraints_hold rs ≡ true
    -- The stored bytes are those of a block that agrees with the columns.
    pub stored : (r : Row) → In r rs → (blk : BlockData Json) × (decode codec r ≡ some blk)
    -- A block is one above its parent.
    pub heights : (r p : Row) → In r rs → In p rs → p.hash ≡ r.parent → p.height + 1 ≡ r.height
    -- A block above another of its branch has its parent on the branch.
    pub linked :
        (r q : Row)
        → In r rs
        → In q rs
        → q.branch ≡ r.branch
        → q.height < r.height
        → (p : Row) × In p rs × (p.hash ≡ r.parent) × (p.branch ≡ r.branch)
    -- Where the parent of a block on a branch is missing, it has been pruned: the main chain's blocks
    -- start at the block's height at least.
    pub pruned :
        (r q : Row)
        → In r rs
        → In q rs
        → r.branch ≢ 0
        → ((p : Row) → In p rs → p.hash ≢ r.parent)
        → q.branch ≡ 0
        → r.height ≤ q.height
