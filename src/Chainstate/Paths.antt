-- ===== src/Chainstate/Paths.antt =====
-- The rows on a path that Chainstate::GetForkBranch of src/chainstate.cpp reads.
use xayax.Prelude.{
  ◌+◌, ◌≤◌, ◌≡◌, ◌≢◌, ◌⊎◌, inl, inr, refl, arith, String, Bool, true, false, ◌||◌, List, [], ◌∷◌,
  some, last?, sym, ◌∙◌, Bool-cases, ltb,
}
use xayax.Prelude.Texts.{same}
use xayax.BlockData.{BlockData, Codec}
use xayax.Chainstate.Table.{Row}
use xayax.Chainstate.Members.{In, same_row}
use xayax.Chainstate.Tree.{IsTree}
use xayax.Chainstate.Segments.{PathTo, Stands, Stands-fields}

-- The row of one of the blocks.
unfoldable pub is_among : {Json : Type 0} → List (BlockData Json) → Row → Bool
is_among [] r = false
is_among (b ∷ bs) r = same r.hash b.hash || is_among bs r

pub is_among_same :
    {Json : Type 0} (bs : List (BlockData Json)) (r q : Row)
    → r.hash ≡ q.hash
    → is_among bs r ≡ is_among bs q
unfolding is_among
is_among_same [] r q e = refl
is_among_same (b ∷ bs) r q e = ground (arith, is_among_same bs r q e)

module _ {Json : Type 0} (codec : Codec Json) (rs : List Row) (tree : IsTree codec rs) where
  pub by_hash : (r s : Row) → In r rs → In s rs → r.hash ≡ s.hash → r ≡ s
  by_hash r s i j h = same_row r s rs tree.keys i j (inl h)

  -- The row that stands for the first block of a path.
  abbrev pub Starts : String → BlockData Json → Row → Type 0
  Starts cur b s = In s rs × (s.hash ≡ cur) × (s.branch ≢ 0) × Stands codec rs tree s b

  pub first_of_path :
      (cur : String) (b : BlockData Json) (s r : Row)
      → Starts cur b s
      → In r rs
      → r.hash ≡ b.hash
      → r ≡ s
  first_of_path cur b s r (i, h, n, st) j e =
      by_hash r s j i (e ∙ (Stands-fields codec rs tree s b st).0)

  -- A row whose hash is the parent of a block that stands for a row.
  pub below_start :
      (cur : String) (b : BlockData Json) (s p : Row)
      → Starts cur b s
      → In p rs
      → p.hash ≡ b.parent
      → (p.hash ≡ s.parent) × (p.height + 1 ≡ s.height)
  below_start cur b s p (i, h, n, st) j e =
      let f = e ∙ (Stands-fields codec rs tree s b st).1 in (f, tree.heights s p i j f)

  -- A row on a path is on a branch.
  pub is_among-off_main :
      (cur : String) (bs : List (BlockData Json)) (r : Row)
      → PathTo codec rs tree cur bs
      → In r rs
      → is_among bs r ≡ true
      → r.branch ≢ 0
  unfolding is_among
  is_among-off_main cur [] r path i e = cc
  is_among-off_main cur (b ∷ bs) r ((s, k, h, n, st), path) i e =
      elim (Bool-cases (same r.hash b.hash)) [
        | inl f ↦ ground (arith, first_of_path cur b s r (k, h, n, st) i)
        | inr f ↦ is_among-off_main b.parent bs r path i (ground arith)
      ]

  -- The rows on a path lie at the height of the first at most.
  pub is_among-le_first :
      (cur : String) (bs : List (BlockData Json)) (r f : Row)
      → PathTo codec rs tree cur bs
      → In r rs
      → is_among bs r ≡ true
      → In f rs
      → f.hash ≡ cur
      → r.height ≤ f.height
  unfolding is_among
  is_among-le_first cur [] r f path i e j h = cc
  is_among-le_first cur (b ∷ []) r f ((s, k, g, n, st), path) i e j h =
      ground (arith, first_of_path cur b s r (k, g, n, st) i, by_hash s f k j (g ∙ sym h))
  is_among-le_first cur (b ∷ b' ∷ bs) r f ((s, k, g, n, st), ((s', k', g', n', st'), path)) i e j
        h =
      elim (Bool-cases (same r.hash b.hash)) [
        | inl l ↦
            ground (arith, first_of_path cur b s r (k, g, n, st) i, by_hash s f k j (g ∙ sym h))
        | inr l ↦ ground (
          arith,
          by_hash s f k j (g ∙ sym h),
          below_start cur b s s' (k, g, n, st) k' g',
          is_among-le_first b.parent (b' ∷ bs) r s' ((s', k', g', n', st'), path) i (ground arith)
              k' g',
        )
      ]

  -- They lie at the height of the last at least.
  pub is_among-ge_last :
      (cur : String) (bs : List (BlockData Json)) (r : Row) (z : BlockData Json)
      → PathTo codec rs tree cur bs
      → In r rs
      → is_among bs r ≡ true
      → last? bs ≡ some z
      → z.height ≤ r.height
  unfolding is_among
  is_among-ge_last cur [] r z path i e l = cc
  is_among-ge_last cur (b ∷ []) r z ((s, k, g, n, st), path) i e l =
      ground (arith, first_of_path cur b s r (k, g, n, st) i, Stands-fields codec rs tree s b st)
  is_among-ge_last cur (b ∷ b' ∷ bs) r z ((s, k, g, n, st), ((s', k', g', n', st'), path)) i e l =
      elim (Bool-cases (same r.hash b.hash)) [
        | inl f ↦ ground (
          arith,
          first_of_path cur b s r (k, g, n, st) i,
          below_start cur b s s' (k, g, n, st) k' g',
          is_among-ge_last b.parent (b' ∷ bs) s' z ((s', k', g', n', st'), path) k'
              (ground (arith, Stands-fields codec rs tree s' b' st')) l,
        )
        | inr f ↦
            is_among-ge_last b.parent (b' ∷ bs) r z ((s', k', g', n', st'), path) i (ground arith) l
      ]

  -- Each row on a path but the last has its parent on it.
  pub is_among-parent :
      (cur : String) (bs : List (BlockData Json)) (r : Row) (z : BlockData Json)
      → PathTo codec rs tree cur bs
      → In r rs
      → is_among bs r ≡ true
      → last? bs ≡ some z
      → ((r.hash ≡ z.hash) × (r.parent ≡ z.parent) × (r.height ≡ z.height))
        ⊎ ((p : Row) × In p rs × (p.hash ≡ r.parent) × (is_among bs p ≡ true))
  unfolding is_among
  is_among-parent cur [] r z path i e l = cc
  is_among-parent cur (b ∷ []) r z ((s, k, g, n, st), path) i e l =
      inl (
        ground (arith, first_of_path cur b s r (k, g, n, st) i, Stands-fields codec rs tree s b st))
  is_among-parent cur (b ∷ b' ∷ bs) r z ((s, k, g, n, st), ((s', k', g', n', st'), path)) i e l =
      elim (Bool-cases (same r.hash b.hash)) [
        | inl f ↦ inr (
          s',
          k',
          ground (
            arith,
            first_of_path cur b s r (k, g, n, st) i,
            below_start cur b s s' (k, g, n, st) k' g',
          ),
          ground (arith, Stands-fields codec rs tree s' b' st'),
        )
        | inr f ↦
            elim (is_among-parent b.parent (b' ∷ bs) r z ((s', k', g', n', st'), path) i
              (ground arith) l) [ inl m ↦ inl m | inr (p, j, q, m) ↦ inr (p, j, q, ground arith) ]
      ]

  pub is_among-first :
      (cur : String) (bs : List (BlockData Json)) (p : Row)
      → PathTo codec rs tree cur bs
      → In p rs
      → p.hash ≡ cur
      → p.branch ≢ 0
      → is_among bs p ≡ true
  unfolding is_among
  is_among-first cur [] p (inl u) i e n = absurd (u p i e)
  is_among-first cur [] p (inr (m, j, f, z)) i e n = ground (arith, by_hash p m i j (e ∙ sym f))
  is_among-first cur (b ∷ bs) p ((s, k, g, m, st), path) i e n =
      ground (arith, by_hash p s i k (e ∙ sym g), Stands-fields codec rs tree s b st)

  -- With a row, a path has all rows of its branch below.
  pub is_among-closed :
      (cur : String) (bs : List (BlockData Json)) (r q : Row)
      → PathTo codec rs tree cur bs
      → In r rs
      → In q rs
      → is_among bs r ≡ true
      → q.branch ≡ r.branch
      → q.height ≤ r.height
      → is_among bs q ≡ true
  unfolding is_among
  is_among-closed cur [] r q path i j e h l = cc
  is_among-closed cur (b ∷ bs) r q ((s, k, g, n, st), path) i j e h l =
      elim (Bool-cases (same r.hash b.hash)) [
        | inr f ↦ ground (arith, is_among-closed b.parent bs r q path i j (ground arith) h l)
        | inl f ↦ elim (Bool-cases (ltb q.height r.height)) [
          | inr above ↦ ground (arith, same_row q r rs tree.keys j i (inr (h, ground arith)))
          | inl lower ↦
              let (p, m, f', b') = tree.linked r q i j h (ground arith) in
              let off : p.branch ≢ 0 = ground (arith, first_of_path cur b s r (k, g, n, st) i) in
              let at_parent : p.hash ≡ b.parent = ground (
                arith,
                first_of_path cur b s r (k, g, n, st) i,
                Stands-fields codec rs tree s b st,
              ) in
              ground (
                arith,
                is_among-closed b.parent bs p q path m j
                    (is_among-first b.parent bs p path m at_parent off) (h ∙ sym b')
                    (ground (arith, tree.heights r p i m f')),
              )
        ]
      ]
