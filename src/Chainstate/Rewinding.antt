-- ===== src/Chainstate/Rewinding.antt =====
-- MarkAsTip and SetTip of src/chainstate.cpp for a block of the main chain: the blocks above it are
-- detached.
use xayax.Prelude.{
  true, ℕ, ◌≤◌, ◌<◌, ◌≡◌, ◌≢◌, inl, inr, refl, arith, Bool, ◌&&◌, List, [], ◌∷◌, Option, some, none,
  ltb, i64_bound, pos, select, ◌∙◌, ap, sym, subst, Option-cases,
}
use xayax.BlockData.{BlockData, Codec}
use xayax.Chainstate.Table.{Row, has_hash, on_branch, set_branch, highest, only}
use xayax.Chainstate.Members.{In, In-select, In-select_inv, query-Finds, same_row}
use xayax.Chainstate.Tree.{IsTree}
use xayax.Chainstate.Ops.{get_tip_height, get_free_branch_number, detach_where, mark_as_tip}
use xayax.Prelude.Action.{done}
use xayax.Chainstate.Methods.{Chainstate, savepoint, release, with_batch, set_tip}
use xayax.Chainstate.Detaching.{
  moved, IsUpward, In-set_branch, In-set_branch_inv, lt-get_free_branch_number, detach_where-IsTree,
}

-- What the row of the greatest height is.
abbrev IsHighest : List Row → Option Row → Type 0
IsHighest rs none = rs ≡ []
IsHighest rs (some q) = In q rs × ((r : Row) → In r rs → r.height ≤ q.height)

highest-IsHighest : (rs : List Row) → IsHighest rs (highest rs)
unfolding highest
highest-IsHighest [] = refl
highest-IsHighest (r ∷ rs) = grind (arith, highest-IsHighest rs)

-- A block of the main chain with no other above it is the tip.
pub get_tip_height-pos :
    (r : Row) (rs : List Row)
    → In r rs
    → r.branch ≡ 0
    → ((q : Row) → In q rs → q.branch ≡ 0 → q.height ≤ r.height)
    → get_tip_height rs ≡ pos r.height
unfolding get_tip_height
get_tip_height-pos r rs i z h = elim (Option-cases (highest (select (on_branch 0) rs))) [
  | inl e ↦
      let none_left =
        subst (IsHighest (select (on_branch 0) rs)) e
          (highest-IsHighest (select (on_branch 0) rs)) in
      elim (subst (In r) none_left (In-select (on_branch 0) r rs i (ground arith))) [ ]
  | inr (q, e) ↦
      let best =
        subst (IsHighest (select (on_branch 0) rs)) e
          (highest-IsHighest (select (on_branch 0) rs)) in
      ground (
        arith,
        best.1 r (In-select (on_branch 0) r rs i (ground arith)),
        In-select_inv (on_branch 0) q rs best.0,
        h q,
      )
]

-- The blocks above a height.
abbrev above : ℕ → Row → Bool
above h q = ltb h q.height

above-IsUpward : (h : ℕ) → IsUpward (above h)
above-IsUpward h r q e l = ground arith

-- Of the main chain, the blocks up to the height are left.
In-above :
    (b h : ℕ) (r : Row) (rs : List Row)
    → In r rs
    → r.height ≡ h
    → In r (set_branch b (λ q. on_branch 0 q && above h q) rs)
In-above b h r rs i e =
    let stays : moved b (λ q. on_branch 0 q && above h q) r ≡ r = ground arith in
    subst (λ x. In x (set_branch b (λ q. on_branch 0 q && above h q) rs)) stays
      (In-set_branch b (λ q. on_branch 0 q && above h q) r rs i)

get_tip_height-above :
    (b h : ℕ) (r : Row) (rs : List Row)
    → b ≢ 0
    → In r rs
    → r.branch ≡ 0
    → r.height ≡ h
    → get_tip_height (set_branch b (λ q. on_branch 0 q && above h q) rs) ≡ pos h
get_tip_height-above b h r rs n i z e =
    get_tip_height-pos r (set_branch b (λ q. on_branch 0 q && above h q) rs) (In-above b h r rs i e)
      z (λ q j f. ground (arith, In-set_branch_inv b (λ s. on_branch 0 s && above h s) q rs j))
    ∙ ap pos e

module _ {Json : Type 0} (codec : Codec Json) (rs : List Row) (tree : IsTree codec rs) where
  pub query_row : (r : Row) → In r rs → only (select (has_hash r.hash) rs) ≡ some (some r)
  query_row r i = elim (query-Finds r.hash rs tree.keys) [
    | inl (e, u) ↦ absurd (u r i refl)
    | inr (q, e, j, h) ↦ e ∙ ap (λ x. some (some x)) (same_row q r rs tree.keys j i (inl h))
  ]

  mark_as_tip_on_main :
      (blk : BlockData Json) (r : Row)
      → only (select (has_hash blk.hash) rs) ≡ some (some r)
      → r.branch ≡ 0
      → blk.height < i64_bound
      → mark_as_tip codec blk rs ≡ detach_where (above blk.height) rs
  unfolding mark_as_tip
  mark_as_tip_on_main blk r e z b = ground arith

  -- On a well-formed table, MarkAsTip for a block of the main chain returns, if the block's height and
  -- the new branch number fit int64_t: the table stays well-formed, and the tip's height is the
  -- block's.
  pub mark_as_tip-IsTree :
      (blk : BlockData Json) (r : Row)
      → In r rs
      → r.hash ≡ blk.hash
      → r.height ≡ blk.height
      → r.branch ≡ 0
      → blk.height < i64_bound
      → get_free_branch_number rs < i64_bound
      → (rs' : List Row) × (mark_as_tip codec blk rs ≡ some rs')
        × IsTree codec rs'
        × In r rs'
        × (get_tip_height rs' ≡ pos blk.height)
  mark_as_tip-IsTree blk r i e h z b f =
      let (rs', d, t, w) =
        detach_where-IsTree codec (above blk.height) (above-IsUpward blk.height) rs tree f in
      let found = subst (λ x. only (select (has_hash x) rs) ≡ some (some r)) e (query_row r i) in
      (
        rs',
        mark_as_tip_on_main blk r found z b ∙ d,
        t,
        subst (In r) (sym w) (In-above (get_free_branch_number rs) blk.height r rs i h),
        ap get_tip_height w
            ∙ get_tip_height-above (get_free_branch_number rs) blk.height r rs
                (ground (arith, lt-get_free_branch_number r rs i)) i z h,
      )

module _ {Json : Type 0} (codec : Codec Json) (c : Chainstate) (tree : IsTree codec c.blocks) where
  -- The highest block of a main chain that has one.
  pub highest_on_main :
      (r : Row)
      → In r c.blocks
      → r.branch ≡ 0
      → (old : Row) × (highest (select (on_branch 0) c.blocks) ≡ some old)
        × In old c.blocks
        × (old.branch ≡ 0)
        × (get_tip_height c.blocks ≡ pos old.height)
  unfolding get_tip_height
  highest_on_main r i z = elim (Option-cases (highest (select (on_branch 0) c.blocks))) [
    | inl e ↦
        let none_left =
          subst (IsHighest (select (on_branch 0) c.blocks)) e
            (highest-IsHighest (select (on_branch 0) c.blocks)) in
        elim (subst (In r) none_left (In-select (on_branch 0) r c.blocks i (ground arith))) [ ]
    | inr (q, e) ↦
        let best =
          subst (IsHighest (select (on_branch 0) c.blocks)) e
            (highest-IsHighest (select (on_branch 0) c.blocks)) in
        let from = In-select_inv (on_branch 0) q c.blocks best.0 in
        (q, e, from.0, ground arith, rw e refl)
  ]

  set_tip_known :
      (blk : BlockData Json) (r old : Row) (rs' : List Row)
      → highest (select (on_branch 0) c.blocks) ≡ some old
      → only (select (has_hash blk.hash) c.blocks) ≡ some (some r)
      → blk.parent ≡ r.parent
      → blk.height ≡ r.height
      → mark_as_tip codec blk c.blocks ≡ some rs'
      → set_tip codec blk c
        ≡ done (true, old.hash) (record c { contents = record c.contents { blocks = rs' } })
  unfolding set_tip with_batch savepoint release
  set_tip_known blk r old rs' h e p k m = ground arith

  -- On a well-formed table, SetTip for a block that the main chain has returns true, if the block agrees
  -- with its row and the block's height and the new branch number fit int64_t. It gives the hash of the
  -- old tip, which is the block of the main chain at the tip's height, keeps the table well-formed, and
  -- leaves the block on the main chain with a tip of its height.
  pub set_tip-IsTree :
      (blk : BlockData Json) (r : Row)
      → In r c.blocks
      → r.hash ≡ blk.hash
      → r.parent ≡ blk.parent
      → r.height ≡ blk.height
      → r.branch ≡ 0
      → blk.height < i64_bound
      → get_free_branch_number c.blocks < i64_bound
      → (old : Row) × (c' : Chainstate) × (set_tip codec blk c ≡ done (true, old.hash) c')
        × In old c.blocks
        × (old.branch ≡ 0)
        × (get_tip_height c.blocks ≡ pos old.height)
        × IsTree codec c'.blocks
        × In r c'.blocks
        × (get_tip_height c'.blocks ≡ pos blk.height)
  set_tip-IsTree blk r i e p h z b f =
      let (old, o, j, y, t) = highest_on_main r i z in
      let (rs', m, w, k, tip) = mark_as_tip-IsTree codec c.blocks tree blk r i e h z b f in
      let found =
        subst (λ x. only (select (has_hash x) c.blocks) ≡ some (some r)) e
          (query_row codec c.blocks tree r i) in
      (
        old,
        record c { contents = record c.contents { blocks = rs' } },
        set_tip_known blk r old rs' o found (sym p) (sym h) m,
        j,
        y,
        t,
        w,
        k,
        tip,
      )
