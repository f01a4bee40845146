-- ===== src/CoreChain/Linking.antt =====
-- What CoreChain::GetBlockRange of xayacore/corechain.cpp returns while the node's chain changes.
use xayax.Prelude.{
  ℕ, zero, suc, ◌+◌, ◌-◌, ◌%◌, u64_mod, leb, ltb, ◌==◌, ◌≡◌, refl, arith, String, List, [], ◌∷◌,
  Option, none, some,
}
use xayax.Prelude.Action.{Outcome, Post, Post-bind, Post-check, Post-if, Post-any}
use xayax.BlockData.{BlockData, Linked, IsRange}
use xayax.Values.{Values}
use xayax.CoreChain.Blocks.{CoreRpc, fetch_block, find_end, walk_back, walk_from, get_block_range}

-- The blocks collected so far lead down to a block.
abbrev LeadsTo : {Json : Type 0} → String → List (BlockData Json) → Type 0
LeadsTo hash [] = Unit {0}
LeadsTo hash (b ∷ bs) = (b.parent ≡ hash) × Linked (b ∷ bs)

module _ {Json Double World : Type 0} (values : Values Json Double)
    (unhexlify : String → Option String) (rpc : CoreRpc Json World) where
  -- What the node returns for a hash is the block of this hash.
  abbrev pub GivesAsked : Type 0
  GivesAsked =
      (hash : String) (w : World)
      → Post (λ b _. b.hash ≡ hash) (λ _. Unit {0}) (Unit {0})
          (fetch_block values unhexlify rpc hash w)

  abbrev Ranged : ℕ → Outcome World (Option (List (BlockData Json))) → Type 0
  Ranged start = Post (λ r _. IsRange start r) (λ _. Unit {0}) (Unit {0})

  module _ (asked : GivesAsked) where
    extended :
        (hash : String) (res : List (BlockData Json))
        → LeadsTo hash res
        → (b : BlockData Json) → b.hash ≡ hash
        → Linked (b ∷ res)
    extended hash [] h b e = tt
    extended hash (c ∷ res) h b e = ground (arith, h)

    walk_back-IsRange :
        (fuel start : ℕ) (hash : String) (res : List (BlockData Json)) (w : World)
        → LeadsTo hash res
        → Ranged start (walk_back values unhexlify rpc fuel start hash res w)
    unfolding walk_back
    walk_back-IsRange zero start hash res w h = tt
    walk_back-IsRange (suc fuel) start hash res w h =
        Post-bind _ _ _ _ (fetch_block values unhexlify rpc hash w) _ (asked hash w) (λ cur w' e.
          Post-check _ _ _ (leb start cur.height) _ w' tt (λ low.
            Post-if _ _ _ (ltb start cur.height) _ _ w'
              (λ above.
                walk_back-IsRange fuel start cur.parent (cur ∷ res) w'
                  (refl, extended hash res h cur e))
              (λ reached. (ground arith, extended hash res h cur e))))

    walk_from-IsRange :
        (fuel start : ℕ) (found : Option (Option String)) (w : World)
        → Ranged start (walk_from values unhexlify rpc fuel start found w)
    walk_from-IsRange fuel start none w = tt
    walk_from-IsRange fuel start (some none) w = (tt, tt)
    walk_from-IsRange fuel start (some (some hash)) w = walk_back-IsRange fuel start hash [] w tt

    -- Whatever the node does between the calls, if it returns for a hash the block of this hash: the
    -- blocks that GetBlockRange returns start at the height that was asked for, if there are any, and
    -- each is the parent of the next.
    pub get_block_range-IsRange :
        (fuel start count : ℕ) (w : World)
        → Ranged start (get_block_range values unhexlify rpc fuel start count w)
    unfolding get_block_range
    get_block_range-IsRange fuel start count w =
        Post-if _ _ _ (count == 0) _ _ w (λ none_asked. (tt, tt))
          (λ asked_some.
            Post-check _ _ _ (leb start ((start + count - 1) % u64_mod)) _ w tt (λ fits.
              Post-bind _ _ _ _
                (find_end values unhexlify rpc fuel start ((start + count - 1) % u64_mod) w) _
                (Post-any _) (λ found w' _. walk_from-IsRange fuel start found w')))
