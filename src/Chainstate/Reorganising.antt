-- ===== src/Chainstate/Reorganising.antt =====
-- MarkAsTip of src/chainstate.cpp for a block on a branch: the table after the main chain has been
-- detached down to the fork point and the path from the block been adopted.
use xayax.Prelude.{
  ℕ, ◌+◌, ◌≤◌, ◌<◌, ◌≡◌, ◌≢◌, ◌⊎◌, ◌↔◌, inl, inr, refl, arith, String, Bool, true, false, ◌&&◌,
  List, some, last?, leb, sym, ◌∙◌, ap, pos,
}
use xayax.BlockData.{BlockData, Codec}
use xayax.Chainstate.Table.{Row, on_branch, set_branch, constraints_hold}
use xayax.Chainstate.Fork.{decode}
use xayax.Chainstate.Members.{In}
use xayax.Chainstate.Tree.{IsTree}
use xayax.Chainstate.Ops.{get_free_branch_number, adopt_all, get_tip_height}
use xayax.Chainstate.Segments.{PathTo}
use xayax.Chainstate.Detaching.{
  moved, IsUpward, detached-IsTree, In-set_branch, In-set_branch_inv, lt-get_free_branch_number,
}
use xayax.Chainstate.Rewinding.{get_tip_height-pos}
use xayax.Chainstate.Paths.{
  is_among, is_among-off_main, is_among-first, is_among-le_first, is_among-ge_last, is_among-parent,
  is_among-closed, is_among_same,
}
use xayax.Chainstate.Heights.{path_ge}
use xayax.Chainstate.Adopting.{AreFree, adopt_all-set_branch, path-AreFree}

-- The main chain from a height on.
abbrev pub from_height : ℕ → Row → Bool
from_height h r = leb h r.height

module _ {Json : Type 0} (codec : Codec Json) (rs : List Row) (tree : IsTree codec rs)
    (cur : String) (bs : List (BlockData Json)) (path : PathTo codec rs tree cur bs)
    (z : BlockData Json) (ends : last? bs ≡ some z) (point : Row) (known : In point rs)
    (at_parent : point.hash ≡ z.parent) (main : point.branch ≡ 0)
    (level : point.height + 1 ≡ z.height) where
  abbrev leaves : Row → Bool
  leaves r = on_branch 0 r && from_height z.height r

  abbrev detached : List Row
  detached = set_branch (get_free_branch_number rs) leaves rs

  abbrev pub reorganised : List Row
  reorganised = set_branch 0 (is_among bs) detached

  -- The branch of a row afterwards.
  abbrev final : Row → Row
  final r = moved 0 (is_among bs) (moved (get_free_branch_number rs) leaves r)

  In-final : (r : Row) → In r rs → In (final r) reorganised
  In-final r i =
      In-set_branch 0 (is_among bs) (moved (get_free_branch_number rs) leaves r) detached
        (In-set_branch (get_free_branch_number rs) leaves r rs i)

  In-final_inv : (r : Row) → In r reorganised → (q : Row) × In q rs × (r ≡ final q)
  In-final_inv r i =
      let (s, j, e) = In-set_branch_inv 0 (is_among bs) r detached i in
      let (q, k, f) = In-set_branch_inv (get_free_branch_number rs) leaves s rs j in
      (q, k, e ∙ ap (moved 0 (is_among bs)) f)

  -- A path does not look at the branches.
  is_among-moved : (b : ℕ) (p : Row → Bool) (r : Row) → is_among bs (moved b p r) ≡ is_among bs r
  is_among-moved b p r = is_among_same bs (moved b p r) r (ground arith)

  -- The branch of a row afterwards: on the path or on the main chain below the fork, on the new
  -- branch, or the one before.
  abbrev Where : Row → Type 0
  Where r =
      ((is_among bs r ≡ true) × ((final r).branch ≡ 0) × (r.branch ≢ 0) × (z.height ≤ r.height))
      ⊎ ((is_among bs r ≡ false) × ((final r).branch ≡ 0) × (r.branch ≡ 0) × (r.height < z.height))
      ⊎ ((is_among bs r ≡ false)
          × ((final r).branch ≡ get_free_branch_number rs)
          × (r.branch ≡ 0)
          × (z.height ≤ r.height))
      ⊎ ((is_among bs r ≡ false) × ((final r).branch ≡ r.branch) × (r.branch ≢ 0))

  placed : (r : Row) → In r rs → Where r
  placed r i = ground (
    arith,
    is_among-moved (get_free_branch_number rs) leaves r,
    is_among-off_main codec rs tree cur bs r path i,
    is_among-ge_last codec rs tree cur bs r z path i,
  )

  parents_kept :
      (r q : Row)
      → In r rs
      → In q rs
      → (final q).branch ≡ (final r).branch
      → q.height < r.height
      → (p : Row) × In p rs × (p.hash ≡ r.parent) × ((final p).branch ≡ (final r).branch)
  parents_kept r q i j e l = elim (placed r i) [
    | inl (on, b, n, h) ↦ elim (is_among-parent codec rs tree cur bs r z path i on ends) [
      | inl (f, g, k) ↦ (point, known, at_parent ∙ sym g, ground (arith, placed point known))
      | inr (p, k, f, m) ↦ (p, k, f, ground (arith, placed p k))
    ]
    | inr (inl (off, b, m, h)) ↦
        let stays : q.branch ≡ r.branch =
          ground (arith, placed q j, lt-get_free_branch_number q rs j) in
        let (p, k, f, g) = tree.linked r q i j stays l in
        (p, k, f, ground (arith, placed p k, tree.heights r p i k f))
    | inr (inr (inl (off, b, m, h))) ↦
        let was : (q.branch ≡ r.branch) × (z.height ≤ q.height) =
          ground (arith, placed q j, lt-get_free_branch_number q rs j) in
        let (p, k, f, g) = tree.linked r q i j was.0 l in
        (p, k, f, ground (arith, placed p k, tree.heights r p i k f))
    | inr (inr (inr (off, b, n))) ↦
        let was : (q.branch ≡ r.branch) × (is_among bs q ≡ false) =
          ground (arith, placed q j, lt-get_free_branch_number r rs i) in
        let (p, k, f, g) = tree.linked r q i j was.0 l in
        (
          p,
          k,
          f,
          ground (
            arith,
            placed p k,
            tree.heights r p i k f,
            is_among-closed codec rs tree cur bs p q path k j,
          ),
        )
  ]

  orphans_low :
      (r q : Row)
      → In r rs
      → In q rs
      → (final r).branch ≢ 0
      → ((p : Row) → In p rs → p.hash ≢ r.parent)
      → (final q).branch ≡ 0
      → r.height ≤ q.height
  orphans_low r q i j n u e = elim (placed r i) [
    | inl (on, b, m, h) ↦ absurd (n b)
    | inr (inl (off, b, m, h)) ↦ absurd (n b)
    | inr (inr (inl (off, b, m, h))) ↦
        let (p, k, f, g) = tree.linked r point i known (main ∙ sym m) (omega arith) in
        absurd (u p k f)
    | inr (inr (inr (off, b, m))) ↦
        ground (arith, placed q j, tree.pruned r point i known m u main, tree.pruned r q i j m u)
  ]

  final_same :
      (r q : Row)
      → r ≡ final q
      → (r.hash ≡ q.hash) × (r.parent ≡ q.parent) × (r.height ≡ q.height) × (r.blob ≡ q.blob)
  final_same r q e = ground arith

  pub from_height-IsUpward : IsUpward (from_height z.height)
  from_height-IsUpward r q e l = ground arith

  pub rows-AreFree : AreFree bs detached
  rows-AreFree =
      path-AreFree codec rs tree detached z.height
        (λ q i b.
          let (s, j, e) = In-set_branch_inv (get_free_branch_number rs) leaves q rs i in
          ground (arith, lt-get_free_branch_number s rs j))
        (λ q i.
          let (s, j, e) = In-set_branch_inv (get_free_branch_number rs) leaves q rs i in
          (s, j, ground arith, ground arith))
        cur bs path (path_ge codec rs tree cur bs z path ends)

  -- Each update of the loop keeps the constraints.
  pub adopted :
      (adopt_all codec bs detached ≡ some reorganised) × (constraints_hold reorganised ≡ true)
  adopted =
      adopt_all-set_branch codec bs detached
        (detached-IsTree codec (from_height z.height) from_height-IsUpward rs tree).keys
        rows-AreFree

  pub reorganised-IsTree : IsTree codec reorganised
  unfolding decode
  reorganised-IsTree = record {
    keys = adopted.1;
    stored = λ r i.
        let (q, j, e) = In-final_inv r i in
        let (blk, d) = tree.stored q j in (blk, ground (arith, final_same r q e));
    heights = λ r s i j f.
        let (q, k, e) = In-final_inv r i in
        let (t, l, g) = In-final_inv s j in
        ground (arith, final_same r q e, final_same s t g, tree.heights q t k l);
    linked = λ r s i j f l.
        let (q, k, e) = In-final_inv r i in
        let (t, m, g) = In-final_inv s j in
        let (u, n, v, w) =
          parents_kept q t k m (ground arith)
            (ground (arith, final_same r q e, final_same s t g)) in
        (
          final u,
          In-final u n,
          ground (arith, final_same r q e, final_same (final u) u refl),
          ground arith,
        );
    pruned = λ r s i j n u x.
        let (q, k, e) = In-final_inv r i in
        let (t, m, g) = In-final_inv s j in
        ground (
          arith,
          final_same r q e,
          final_same s t g,
          orphans_low q t k m (ground arith)
              (λ y l f.
                u (final y) (In-final y l)
                  (ground (arith, final_same r q e, final_same (final y) y refl)))
              (ground arith),
        );
  }

  le_first :
      (f t : Row)
      → In f rs
      → f.hash ≡ cur
      → f.branch ≢ 0
      → In t rs
      → (final t).branch ≡ 0
      → t.height ≤ f.height
  le_first f t i e n k m =
      let among = is_among-first codec rs tree cur bs f path i e n in
      elim (placed t k) [
        | inl (on, b, o, h) ↦ is_among-le_first codec rs tree cur bs t f path k on i e
        | inr (inl (off, b, o, h)) ↦
            omega (arith, is_among-ge_last codec rs tree cur bs f z path i among ends)
        | inr (inr (inl (off, b, o, h))) ↦ absurd (ground (arith, lt-get_free_branch_number t rs k))
        | inr (inr (inr (off, b, o))) ↦ absurd (o (sym b ∙ m))
      ]

  -- The block that the path starts from is the tip.
  pub get_tip_height-reorganised :
      (f : Row) → In f rs → f.hash ≡ cur → f.branch ≢ 0 → get_tip_height reorganised ≡ pos f.height
  get_tip_height-reorganised f i e n =
      let among = is_among-first codec rs tree cur bs f path i e n in
      let (h, p, l, b) = final_same (final f) f refl in
      get_tip_height-pos (final f) reorganised (In-final f i) (ground (arith, placed f i)) (λ q j m.
        let (t, k, g) = In-final_inv q j in
        let (h', p', l', b') = final_same q t g in
        omega (arith, l, l', le_first f t i e n k (ap (λ (x : Row). x.branch) (sym g) ∙ m)))
      ∙ ap pos l

  -- The main chain is the path, and the old main chain below the fork.
  pub final_on_main :
      (q : Row)
      → In q rs
      → (q' : Row) × In q' reorganised
        × (q'.hash ≡ q.hash)
        × ((q'.branch ≡ 0) ↔ ((is_among bs q ≡ true) ⊎ ((q.branch ≡ 0) × (q.height < z.height))))
  final_on_main q i = (
    final q,
    In-final q i,
    (final_same (final q) q refl).0,
    ground (arith, placed q i, lt-get_free_branch_number q rs i),
  )
