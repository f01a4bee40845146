-- ===== src/Chainstate/Extending.antt =====
-- InsertBlock of src/chainstate.cpp for a new block on a new branch, and SetTip for such a block.
use xayax.Prelude.{
  ℕ, ◌+◌, ◌<◌, ◌≡◌, ◌≢◌, ◌⊎◌, ◌↔◌, inl, inr, refl, arith, true, false, List, [], ◌∷◌, ◌++◌, none,
  some, last?, sym, ◌∙◌, ap, subst, i64_bound, pos, select,
}
use xayax.Prelude.Action.{done}
use xayax.BlockData.{BlockData, Codec, ReadsBack}
use xayax.Chainstate.Table.{
  Row, has_hash, only, on_branch, highest, clashes, clashes_any, constraints_hold, constrained,
}
use xayax.Chainstate.Fork.{decode, get_fork_branch}
use xayax.Chainstate.Members.{In, query-Finds, same_row}
use xayax.Chainstate.Tree.{IsTree}
use xayax.Chainstate.Ops.{get_free_branch_number, get_tip_height, row_of, insert_block, mark_as_tip}
use xayax.Chainstate.Methods.{Chainstate, savepoint, release, with_batch, set_tip}
use xayax.Chainstate.Detaching.{lt-get_free_branch_number}
use xayax.Chainstate.Rewinding.{query_row, highest_on_main}
use xayax.Chainstate.Switching.{path_of, mark_as_tip_switches-IsTree}
use xayax.Chainstate.Paths.{is_among, is_among-first}

pub In-snoc : (x n : Row) (rs : List Row) → In x (rs ++ n ∷ []) ↔ (In x rs ⊎ (x ≡ n))
In-snoc x n [] = ground arith
In-snoc x n (r ∷ rs) = ground (arith, In-snoc x n rs)

clashes_any-snoc :
    (r n : Row) (rs : List Row)
    → clashes n r ≡ false
    → clashes_any r rs ≡ false
    → clashes_any r (rs ++ n ∷ []) ≡ false
unfolding clashes_any
clashes_any-snoc r n [] e k = ground arith
clashes_any-snoc r n (q ∷ rs) e k = ground (arith, clashes_any-snoc r n rs)

pub constraints_hold-snoc :
    (n : Row) (rs : List Row)
    → ((r : Row) → In r rs → clashes n r ≡ false)
    → constraints_hold rs ≡ true
    → constraints_hold (rs ++ n ∷ []) ≡ true
unfolding constraints_hold clashes_any
constraints_hold-snoc n [] e k = refl
constraints_hold-snoc n (r ∷ rs) e k = ground (
  arith,
  clashes_any-snoc r n rs (e r (inl refl)),
  constraints_hold-snoc n rs (λ q i. e q (inr i)),
)

module _ {Json : Type 0} (codec : Codec Json) (rs : List Row) (tree : IsTree codec rs)
    (blk : BlockData Json) (reads : ReadsBack codec blk)
    (fresh : (r : Row) → In r rs → r.hash ≢ blk.hash) (parent : Row) (known : In parent rs)
    (at_parent : parent.hash ≡ blk.parent) (level : blk.height ≡ parent.height + 1)
    (children : (r : Row) → In r rs → r.parent ≡ blk.hash → blk.height + 1 ≡ r.height) where
  abbrev pub new : Row
  new = row_of codec blk (get_free_branch_number rs)

  abbrev pub extended : List Row
  extended = rs ++ new ∷ []

  decode-new : decode codec new ≡ some blk
  unfolding decode
  decode-new = ground (arith, reads)

  not_own_parent : (r p : Row) → r ≡ new → p ≡ new → p.hash ≡ r.parent → ⊥
  not_own_parent r p f g e =
      fresh parent known
        (at_parent ∙ ap (λ (x : Row). x.parent) (sym f) ∙ sym e ∙ ap (λ (x : Row). x.hash) g)

  row_is : (r : Row) → In r extended → In r rs ⊎ (r ≡ new)
  row_is r i = (In-snoc r new rs).0 i

  pub extended-IsTree : IsTree codec extended
  extended-IsTree = record {
    keys =
        constraints_hold-snoc new rs
          (λ r i. ground (arith, fresh r i, lt-get_free_branch_number r rs i)) tree.keys;
    stored = λ r i. elim (row_is r i) [
      | inl j ↦ tree.stored r j
      | inr e ↦ (blk, ap (decode codec) e ∙ decode-new)
    ];
    heights = λ r p i j e. elim (row_is r i) [
      | inl k ↦ elim (row_is p j) [
        | inl l ↦ tree.heights r p k l e
        | inr f ↦ ground (arith, children r k)
      ]
      | inr f ↦ elim (row_is p j) [
        | inl l ↦ ground (
          arith,
          same_row p parent rs tree.keys l known
              (inl (e ∙ ap (λ (x : Row). x.parent) f ∙ sym at_parent)),
        )
        | inr g ↦ absurd (not_own_parent r p f g e)
      ]
    ];
    linked = λ r q i j e l. elim (row_is r i) [
      | inl k ↦ elim (row_is q j) [
        | inl m ↦
            let (p, n, f, g) = tree.linked r q k m e l in (p, (In-snoc p new rs).1 (inl n), f, g)
        | inr g ↦ absurd (ground (arith, lt-get_free_branch_number r rs k))
      ]
      | inr f ↦ elim (row_is q j) [
        | inl m ↦ absurd (ground (arith, lt-get_free_branch_number q rs m))
        | inr g ↦ absurd (ground arith)
      ]
    ];
    pruned = λ r q i j n u e. elim (row_is r i) [
      | inl k ↦ elim (row_is q j) [
        | inl m ↦ tree.pruned r q k m n (λ p o. u p ((In-snoc p new rs).1 (inl o))) e
        | inr g ↦ absurd (ground (arith, lt-get_free_branch_number parent rs known))
      ]
      | inr f ↦ absurd (
          u parent ((In-snoc parent new rs).1 (inl known))
            (at_parent ∙ sym (ap (λ (x : Row). x.parent) f)))
    ];
  }

module _ {Json : Type 0} (codec : Codec Json) (c : Chainstate) (tree : IsTree codec c.blocks)
    (blk : BlockData Json) where
  pub not_found :
      ((r : Row) → In r c.blocks → r.hash ≢ blk.hash)
      → only (select (has_hash blk.hash) c.blocks) ≡ some none
  not_found fresh = elim (query-Finds blk.hash c.blocks tree.keys) [
    | inl (e, u) ↦ e
    | inr (q, e, j, h) ↦ absurd (fresh q j h)
  ]

  pub insert_block_new :
      (b : ℕ) (rs' : List Row)
      → rs' ≡ c.blocks ++ row_of codec blk b ∷ []
      → blk.height < i64_bound
      → b < i64_bound
      → constraints_hold rs' ≡ true
      → insert_block codec blk b c.blocks ≡ some rs'
  unfolding insert_block constrained
  insert_block_new b rs' e h f k = ground (arith, ap constraints_hold e)

  set_tip_inserts :
      (parent old : Row) (rs' rs'' : List Row)
      → highest (select (on_branch 0) c.blocks) ≡ some old
      → only (select (has_hash blk.hash) c.blocks) ≡ some none
      → only (select (has_hash blk.parent) c.blocks) ≡ some (some parent)
      → blk.height ≡ parent.height + 1
      → insert_block codec blk (get_free_branch_number c.blocks) c.blocks ≡ some rs'
      → mark_as_tip codec blk rs' ≡ some rs''
      → set_tip codec blk c
        ≡ done (true, old.hash) (record c { contents = record c.contents { blocks = rs'' } })
  unfolding set_tip with_batch savepoint release
  set_tip_inserts parent old rs' rs'' o n p l i m = ground arith

  -- On a well-formed table, SetTip for a new block returns true and keeps the table well-formed, where
  -- the block can be read back from its bytes, its parent is known, it is one above it and one below
  -- the blocks that it is the parent of, the block where its path meets the main chain has not been
  -- pruned, and the block's height and the new branch numbers fit int64_t. It gives the hash of the
  -- old tip, which is the block of the main chain at the tip's height. Afterwards the table has the block on
  -- the main chain and as high as the tip, no row is lost, and the main chain consists of the path from the
  -- block and the old main chain below it.
  pub set_tip_new-IsTree :
      (reads : ReadsBack codec blk) (fresh : (r : Row) → In r c.blocks → r.hash ≢ blk.hash)
      (parent : Row) (known : In parent c.blocks) (at_parent : parent.hash ≡ blk.parent)
      (level : blk.height ≡ parent.height + 1)
      (children : (r : Row) → In r c.blocks → r.parent ≡ blk.hash → blk.height + 1 ≡ r.height)
      (bs : List (BlockData Json)) (z : BlockData Json) (point : Row)
      → get_fork_branch codec
          (c.blocks ++ row_of codec blk (get_free_branch_number c.blocks) ∷ [])
          blk.hash
        ≡ some (some bs)
      → last? bs ≡ some z
      → In point c.blocks
      → point.hash ≡ z.parent
      → point.branch ≡ 0
      → blk.height < i64_bound
      → get_free_branch_number (c.blocks ++ row_of codec blk (get_free_branch_number c.blocks) ∷ [])
        < i64_bound
      → (old : Row) × (c' : Chainstate) × (set_tip codec blk c ≡ done (true, old.hash) c')
        × In old c.blocks
        × (old.branch ≡ 0)
        × (get_tip_height c.blocks ≡ pos old.height)
        × IsTree codec c'.blocks
        × (get_tip_height c'.blocks ≡ pos blk.height)
        × ((n : Row) × In n c'.blocks × (n.hash ≡ blk.hash) × (n.branch ≡ 0))
        × ((q : Row)
            → In q (c.blocks ++ row_of codec blk (get_free_branch_number c.blocks) ∷ [])
            → (q' : Row) × In q' c'.blocks
              × (q'.hash ≡ q.hash)
              × ((q'.branch ≡ 0)
                  ↔ ((is_among bs q ≡ true) ⊎ ((q.branch ≡ 0) × (q.height < z.height)))))
  set_tip_new-IsTree reads fresh parent known at_parent level children bs z point f l j h m b free =
      let rs' =
        extended codec c.blocks tree blk reads fresh parent known at_parent level children in
      let n = new codec c.blocks tree blk reads fresh parent known at_parent level children in
      let tree' =
        extended-IsTree codec c.blocks tree blk reads fresh parent known at_parent level children in
      let (old, o, i, y, t) = highest_on_main codec c tree point j m in
      let last : In n rs' = (In-snoc n n c.blocks).1 (inr refl) in
      let (rs'', k, w, tip, on) =
        mark_as_tip_switches-IsTree codec rs' tree' blk n bs z point last refl
          (ground (arith, lt-get_free_branch_number parent c.blocks known)) f l
          ((In-snoc point n c.blocks).1 (inl j)) h m b free in
      let found =
        subst (λ x. only (select (has_hash x) c.blocks) ≡ some (some parent)) at_parent
          (query_row codec c.blocks tree parent known) in
      let fits : get_free_branch_number c.blocks < i64_bound =
        omega (arith, lt-get_free_branch_number n rs' last, free) in
      let beside : n.branch ≢ 0 = ground (arith, lt-get_free_branch_number parent c.blocks known) in
      let (n', in_table, same_hash, main) = on n last in
      (
        old,
        record c { contents = record c.contents { blocks = rs'' } },
        set_tip_inserts parent old rs' rs'' o (not_found fresh) found level
            (insert_block_new (get_free_branch_number c.blocks) rs' refl b fits tree'.keys) k,
        i,
        y,
        t,
        w,
        tip,
        (
          n',
          in_table,
          same_hash,
          main.1 (
              inl (
                is_among-first codec rs' tree' blk.hash bs n (path_of codec rs' tree' n bs last f)
                  last refl beside)),
        ),
        on,
      )
