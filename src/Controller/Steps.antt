-- ===== src/Controller/Steps.antt =====
-- The parts of Controller::RunData::PushZmqBlocks of src/controller.cpp. `back ()` of an empty vector, which is
-- undefined behaviour in the source, aborts here.
use xayax.Prelude.{
  ℕ, ◌+◌, ◌-◌, ◌%◌, ◌^◌, min, String, Bool, true, false, not, List, [], ◌∷◌, ◌++◌, Option, none,
  some, ltb, leb, ◌==◌, if◌then◌else◌, last?, reverse, ℤ, pos, negsuc, u64_mod,
}
use xayax.Prelude.Texts.{same}
use xayax.Prelude.Action.{Action, done, aborted, ◌>>=◌, ◌>>◌, get, pure, check, checked}
use xayax.BlockData.{BlockData, Codec}
use xayax.BaseChain.{BaseChain}
use xayax.Chainstate.Ops.{get_height_for_hash}
use xayax.Sync.{on_base}
use xayax.ZmqPub.{JsonLib, Socket}
use xayax.ZmqPub.Blocks.{send_block_attach, send_block_detach}
use xayax.Controller.{Run, on_zmq}

-- The result, with `detach` and `queriedAttach`.
pub record Pushed (Json : Type 0) : Type 0 where
  pub ok : Bool
  pub detach : List (BlockData Json)
  pub queried_attach : List (BlockData Json)

-- Where the main chain is met: the last block detached to, and its height.
pub record ForkPoint : Type 0 where
  pub height : ℕ
  pub hash : String

abbrev pub no_blocks {ℓ} : {A : Type ℓ} → List A → Bool
no_blocks [] = true
no_blocks (x ∷ xs) = false

abbrev pub as_height : {S : Type 0} → ℤ → Action S ℕ
as_height (pos h) s = done h s
as_height (negsuc h) s = aborted

module _ {Json World Wire : Type 0} (codec : Codec Json) (base : BaseChain Json World)
    (json : JsonLib Json) (socket : Socket Wire) where
  unfoldable pub send_attaches :
      String → List (BlockData Json) → Action (Run Json World Wire) (Unit {0})
  send_attaches reqtoken [] = pure tt
  send_attaches reqtoken (blk ∷ rest) = do
    on_zmq (send_block_attach json socket blk reqtoken)
    send_attaches reqtoken rest

  unfoldable pub send_detaches :
      String → List (BlockData Json) → Action (Run Json World Wire) (Unit {0})
  send_detaches reqtoken [] = pure tt
  send_detaches reqtoken (blk ∷ rest) = do
    on_zmq (send_block_detach json socket blk reqtoken)
    send_detaches reqtoken rest

  abbrev pub failed : List (BlockData Json) → Pushed Json
  failed detach = record { ok = false; detach = detach; queried_attach = [] }

  abbrev pub pushed : List (BlockData Json) → List (BlockData Json) → Pushed Json
  pushed detach queried = record { ok = true; detach = detach; queried_attach = queried }

  -- forkHeight and forkPoint when `from` is known: it is on the main chain, or the blocks of `detach`
  -- lead to it.
  unfoldable pub fork_point :
      String → List (BlockData Json) → Action (Run Json World Wire) ForkPoint
  fork_point from [] = do
    s ← get
    known ← checked (get_height_for_hash s.chain.blocks from)
    height ← checked known
    pure (record { height = height; hash = from })
  fork_point from (blk ∷ rest) = do
    last ← checked (last? (blk ∷ rest))
    pure (record { height = (last.height + u64_mod - 1) % u64_mod; hash = last.parent })

  -- The loop over the given attaches, with foundForkPoint.
  unfoldable pub send_given :
      String → ForkPoint → Bool → List (BlockData Json) → Action (Run Json World Wire) (Unit {0})
  unfolding send_attaches
  send_given reqtoken fork found [] = check found
  send_given reqtoken fork found (blk ∷ rest) = do
    let at_fork = blk.height == (fork.height + 1) % u64_mod
    check (if at_fork then same blk.parent fork.hash else true)
    if ltb fork.height blk.height
        then on_zmq (send_block_attach json socket blk reqtoken)
        else pure tt
    send_given reqtoken fork (if at_fork then true else found) rest

  -- attaches.back ().hash == detach.back ().parent, if blocks have been detached
  unfoldable pub ends_at_parent : Option (BlockData Json) → Option (BlockData Json) → Bool
  ends_at_parent (some a) (some d) = same a.hash d.parent
  ends_at_parent (some a) none = false
  ends_at_parent none d = false

  -- The blocks asked for from the base chain, if they fit the fork point and the chainstate.
  unfoldable pub check_queried :
      String
      → ℕ
      → ForkPoint
      → List (BlockData Json)
      → List (BlockData Json)
      → Action (Run Json World Wire) (Pushed Json)
  unfolding send_attaches
  check_queried reqtoken pruning_depth fork detach [] = pure (pushed detach [])
  check_queried reqtoken pruning_depth fork detach (blk ∷ rest) =
      if not (same blk.parent fork.hash) then pure (failed detach) else (do
        last ← checked (last? (blk ∷ rest))
        s ← get
        known ←
            (if leb pruning_depth last.height
              then checked (get_height_for_hash s.chain.blocks last.hash)
              else pure (some last.height))
        elim known [
          | none ↦ pure (failed detach)
          | some height ↦ do
            check (height == last.height)
            send_attaches reqtoken (blk ∷ rest)
            pure (pushed detach (blk ∷ rest))
        ])

  unfoldable pub query_attaches :
      String
      → ℕ
      → ℕ
      → ForkPoint
      → ℕ
      → List (BlockData Json)
      → Action (Run Json World Wire) (Pushed Json)
  unfolding check_queried
  query_attaches reqtoken pruning_depth num fork target_height detach = do
    check (leb fork.height target_height)
    blocks ←
        on_base (
          base.get_block_range (fork.height + 1) (min num ((target_height - fork.height) % 2 ^ 32)))
    check_queried reqtoken pruning_depth fork detach blocks

  -- More detaches, from the fork point down to a `to` block below it.
  unfoldable pub detach_towards :
      String
      → ℕ
      → ForkPoint
      → ℕ
      → List (BlockData Json)
      → Action (Run Json World Wire) (Pushed Json)
  unfolding send_detaches
  detach_towards reqtoken num fork to_height detach = do
    let n = min num ((fork.height - to_height) % 2 ^ 32)
    to_detach ← on_base (base.get_block_range ((fork.height + u64_mod - n + 1) % u64_mod) n)
    last ← checked (last? to_detach)
    if same last.hash fork.hash
        then (do
          send_detaches reqtoken (reverse to_detach)
          pure (pushed (detach ++ reverse to_detach) []))
        else pure (failed detach)
