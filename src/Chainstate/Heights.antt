-- ===== src/Chainstate/Heights.antt =====
-- The heights along a path from a block over branches down to the main chain.
use xayax.Prelude.{◌+◌, ◌≤◌, ◌≡◌, arith, String, List, [], ◌∷◌, All, some, last?, sym, ◌∙◌}
use xayax.BlockData.{BlockData, Codec}
use xayax.Chainstate.Table.{Row}
use xayax.Chainstate.Members.{In}
use xayax.Chainstate.Tree.{IsTree}
use xayax.Chainstate.Segments.{PathTo, Stands-fields}
use xayax.Chainstate.Paths.{by_hash, below_start}

module _ {Json : Type 0} (codec : Codec Json) (rs : List Row) (tree : IsTree codec rs) where
  All-mono :
      (P Q : BlockData Json → Type 0) (bs : List (BlockData Json))
      → ((b : BlockData Json) → P b → Q b)
      → All P bs
      → All Q bs
  All-mono P Q [] f a = tt
  All-mono P Q (b ∷ bs) f (p, a) = (f b p, All-mono P Q bs f a)

  -- The blocks of a path lie at the height of its first row at most.
  path_le :
      (cur : String) (bs : List (BlockData Json)) (f : Row)
      → PathTo codec rs tree cur bs
      → In f rs
      → f.hash ≡ cur
      → All (λ x. x.height ≤ f.height) bs
  path_le cur [] f path i e = tt
  path_le cur (b ∷ []) f ((s, k, g, n, st), path) i e = (
    ground (arith, by_hash codec rs tree s f k i (g ∙ sym e), Stands-fields codec rs tree s b st),
    tt,
  )
  path_le cur (b ∷ b' ∷ bs) f ((s, k, g, n, st), ((s', k', g', n', st'), path)) i e =
      let at_first = by_hash codec rs tree s f k i (g ∙ sym e) in
      let (p, h) = below_start codec rs tree cur b s s' (k, g, n, st) k' g' in
      (
        ground (arith, Stands-fields codec rs tree s b st),
        All-mono (λ x. x.height ≤ s'.height) (λ x. x.height ≤ f.height) (b' ∷ bs)
            (λ x l. ground arith)
            (path_le b.parent (b' ∷ bs) s' ((s', k', g', n', st'), path) k' g'),
      )

  -- Below its first, the blocks of a path lie lower.
  pub path_lt :
      (cur : String) (b : BlockData Json) (bs : List (BlockData Json))
      → PathTo codec rs tree cur (b ∷ bs)
      → All (λ x. x.height + 1 ≤ b.height) bs
  path_lt cur b [] path = tt
  path_lt cur b (b' ∷ bs) ((s, k, g, n, st), ((s', k', g', n', st'), path)) =
      let (p, h) = below_start codec rs tree cur b s s' (k, g, n, st) k' g' in
      let (q, r, l) = Stands-fields codec rs tree s b st in
      All-mono (λ x. x.height ≤ s'.height) (λ x. x.height + 1 ≤ b.height) (b' ∷ bs)
        (λ x m. omega arith) (path_le b.parent (b' ∷ bs) s' ((s', k', g', n', st'), path) k' g')

  -- The blocks of a path lie at the height of its last at least.
  pub path_ge :
      (cur : String) (bs : List (BlockData Json)) (z : BlockData Json)
      → PathTo codec rs tree cur bs
      → last? bs ≡ some z
      → All (λ x. z.height ≤ x.height) bs
  path_ge cur [] z path e = tt
  path_ge cur (b ∷ []) z path e = (ground arith, tt)
  path_ge cur (b ∷ b' ∷ bs) z ((s, k, g, n, st), ((s', k', g', n', st'), path)) e =
      let rest = path_ge b.parent (b' ∷ bs) z ((s', k', g', n', st'), path) e in
      let (p, h) = below_start codec rs tree cur b s s' (k, g, n, st) k' g' in
      let (q, r, l) = Stands-fields codec rs tree s b st in
      let (q', r', l') = Stands-fields codec rs tree s' b' st' in
      let first = rest.0 in (omega arith, rest)

  -- The row of its last block.
  pub last_row :
      (cur : String) (bs : List (BlockData Json)) (z : BlockData Json)
      → PathTo codec rs tree cur bs
      → last? bs ≡ some z
      → (s : Row) × In s rs × (s.hash ≡ z.hash) × (s.parent ≡ z.parent) × (s.height ≡ z.height)
  last_row cur [] z path e = cc
  last_row cur (b ∷ []) z ((s, k, g, n, st), path) e =
      let (h, p, l) = Stands-fields codec rs tree s b st in
      (s, k, ground arith, ground arith, ground arith)
  last_row cur (b ∷ b' ∷ bs) z (st, path) e = last_row b.parent (b' ∷ bs) z path e
