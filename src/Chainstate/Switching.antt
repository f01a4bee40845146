-- ===== src/Chainstate/Switching.antt =====
-- MarkAsTip and SetTip of src/chainstate.cpp for a block on a branch and for a new block: the main
-- chain is switched to the block's.
use xayax.Prelude.{
  ◌+◌, ◌<◌, ◌≡◌, ◌≢◌, ◌⊎◌, ◌↔◌, inl, inr, refl, arith, true, List, some, last?, sym, ◌∙◌, ap, subst,
  i64_bound, pos, select,
}
use xayax.BlockData.{BlockData, Codec}
use xayax.Chainstate.Table.{Row, has_hash, only}
use xayax.Chainstate.Fork.{get_fork_branch}
use xayax.Chainstate.Members.{In}
use xayax.Chainstate.Tree.{IsTree}
use xayax.Chainstate.Ops.{
  get_free_branch_number, get_tip_height, detach_where, adopt_all, mark_as_tip,
}
use xayax.Chainstate.Segments.{PathTo}
use xayax.Chainstate.Forking.{get_fork_branch-PathTo}
use xayax.Chainstate.Detaching.{detach_where-IsTree}
use xayax.Chainstate.Rewinding.{query_row}
use xayax.Chainstate.Paths.{is_among, is_among-ge_last, is_among-first}
use xayax.Chainstate.Heights.{last_row}
use xayax.Chainstate.Reorganising.{
  from_height, reorganised, reorganised-IsTree, adopted, get_tip_height-reorganised, final_on_main,
  from_height-IsUpward,
}

module _ {Json : Type 0} (codec : Codec Json) (rs : List Row) (tree : IsTree codec rs) where
  -- What is read for a block of the table is a path.
  pub path_of :
      (r : Row) (bs : List (BlockData Json))
      → In r rs
      → get_fork_branch codec rs r.hash ≡ some (some bs)
      → PathTo codec rs tree r.hash bs
  path_of r bs i e = elim (get_fork_branch-PathTo codec rs tree r.hash) [
    | inl (bs', path, f) ↦ subst (PathTo codec rs tree r.hash) (cc) path
    | inr (u, f) ↦ absurd (u r i refl)
  ]

  mark_as_tip_on_branch :
      (blk : BlockData Json) (r : Row) (bs : List (BlockData Json)) (z : BlockData Json)
      (rs' : List Row)
      → only (select (has_hash blk.hash) rs) ≡ some (some r)
      → r.branch ≢ 0
      → get_fork_branch codec rs blk.hash ≡ some (some bs)
      → last? bs ≡ some z
      → z.height < i64_bound
      → detach_where (from_height z.height) rs ≡ some rs'
      → mark_as_tip codec blk rs ≡ adopt_all codec bs rs'
  unfolding mark_as_tip
  mark_as_tip_on_branch blk r bs z rs' e n f l b d = ground arith

  -- On a well-formed table, MarkAsTip for a block on a branch returns, if the block where its path meets
  -- the main chain has not been pruned and the block's height and the new branch number fit int64_t. The
  -- table stays well-formed, the tip's height is the block's, and the main chain consists of the path
  -- and the old main chain below it.
  pub mark_as_tip_switches-IsTree :
      (blk : BlockData Json) (r : Row) (bs : List (BlockData Json)) (z : BlockData Json)
      (point : Row)
      → In r rs
      → r.hash ≡ blk.hash
      → r.branch ≢ 0
      → get_fork_branch codec rs blk.hash ≡ some (some bs)
      → last? bs ≡ some z
      → In point rs
      → point.hash ≡ z.parent
      → point.branch ≡ 0
      → r.height < i64_bound
      → get_free_branch_number rs < i64_bound
      → (rs' : List Row) × (mark_as_tip codec blk rs ≡ some rs')
        × IsTree codec rs'
        × (get_tip_height rs' ≡ pos r.height)
        × ((q : Row)
            → In q rs
            → (q' : Row) × In q' rs'
              × (q'.hash ≡ q.hash)
              × ((q'.branch ≡ 0)
                  ↔ ((is_among bs q ≡ true) ⊎ ((q.branch ≡ 0) × (q.height < z.height)))))
  mark_as_tip_switches-IsTree blk r bs z point i e n f l j h m b free =
      let path = path_of r bs i (ap (get_fork_branch codec rs) e ∙ f) in
      let (s, k, sh, sp, sl) = last_row codec rs tree r.hash bs z path l in
      let level : point.height + 1 ≡ z.height =
        omega (arith, tree.heights s point k j (h ∙ sym sp)) in
      let low : z.height < i64_bound = omega (
        arith,
        is_among-ge_last codec rs tree r.hash bs r z path i
            (is_among-first codec rs tree r.hash bs r path i refl n) l,
      ) in
      let found =
        subst (λ x. only (select (has_hash x) rs) ≡ some (some r)) e
          (query_row codec rs tree r i) in
      let (rs', d, t, w) =
        detach_where-IsTree codec (from_height z.height)
          (from_height-IsUpward codec rs tree r.hash bs path z l point j h m level) rs tree free in
      (
        reorganised codec rs tree r.hash bs path z l point j h m level,
        mark_as_tip_on_branch blk r bs z rs' found n f l low d
            ∙ ap (adopt_all codec bs) w
            ∙ (adopted codec rs tree r.hash bs path z l point j h m level).0,
        reorganised-IsTree codec rs tree r.hash bs path z l point j h m level,
        get_tip_height-reorganised codec rs tree r.hash bs path z l point j h m level r i refl n,
        final_on_main codec rs tree r.hash bs path z l point j h m level,
      )
