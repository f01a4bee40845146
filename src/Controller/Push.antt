-- ===== src/Controller/Push.antt =====
-- Controller::RunData::PushZmqBlocks of src/controller.cpp. The pieces that it
-- is put together from stand in Steps.antt.
use xayax.Prelude.{
  ℕ, String, true, false, not, List, [], none, some, ltb, leb, ◌==◌, if◌then◌else◌, last?, pos,
  negsuc, ◌&&◌, i64_bound,
}
use xayax.Prelude.Texts.{is_empty}
use xayax.Prelude.Action.{Action, ◌>>=◌, ◌>>◌, get, pure, check, checked}
use xayax.BlockData.{BlockData, Codec}
use xayax.BaseChain.{BaseChain}
use xayax.Chainstate.Ops.{get_tip_height, get_lowest_unpruned_height}
use xayax.Chainstate.Fork.{get_fork_branch}
use xayax.Sync.{on_base}
use xayax.ZmqPub.{JsonLib, Socket}
use xayax.Controller.{Run}
use xayax.Controller.Steps.{
  Pushed, ForkPoint, no_blocks, as_height, detach_towards, ends_at_parent, failed, fork_point,
  pushed, query_attaches, send_attaches, send_detaches, send_given,
}

module _ {Json World Wire : Type 0} (codec : Codec Json) (base : BaseChain Json World)
    (json : JsonLib Json) (socket : Socket Wire) where
  -- With a `to` block on the main chain at a height. A forkHeight from 2 ^ 63 on, below a genesis block
  -- that has been detached, is negative in the comparison.
  unfoldable pub push_towards :
      String
      → ℕ
      → ℕ
      → ForkPoint
      → ℕ
      → List (BlockData Json)
      → Action (Run Json World Wire) (Pushed Json)
  unfolding detach_towards query_attaches
  push_towards reqtoken pruning_depth num fork to_height detach =
      if to_height == fork.height
      then pure (failed codec base json socket detach)
      else if ltb to_height fork.height && ltb fork.height i64_bound
      then detach_towards codec base json socket reqtoken num fork to_height detach
      else (do
        check (ltb fork.height to_height)
        query_attaches codec base json socket reqtoken pruning_depth num fork to_height detach)

  -- With attaches at hand: those above the fork point.
  unfoldable pub push_given :
      String
      → ForkPoint
      → List (BlockData Json)
      → List (BlockData Json)
      → Action (Run Json World Wire) (Pushed Json)
  unfolding send_given ends_at_parent
  push_given reqtoken fork attaches detach =
      if ends_at_parent codec base json socket (last? attaches) (last? detach)
      then pure (pushed codec base json socket detach [])
      else (send_given codec base json socket reqtoken fork false attaches
          >> pure (pushed codec base json socket detach []))

  -- What follows the detaches.
  unfoldable pub push_from :
      String
      → List (BlockData Json)
      → ℕ
      → String
      → ℕ
      → ForkPoint
      → List (BlockData Json)
      → Action (Run Json World Wire) (Pushed Json)
  unfolding push_towards push_given query_attaches
  push_from to attaches num reqtoken pruning_depth fork detach =
      if not (is_empty to)
      then (do
        to_height ← on_base (base.get_mainchain_height to)
        elim to_height [
          | negsuc _ ↦ pure (failed codec base json socket detach)
          | pos h ↦ push_towards reqtoken pruning_depth num fork h detach
        ])
      else if no_blocks attaches
      then (do
        s ← get
        target ← as_height (get_tip_height s.chain.blocks)
        query_attaches codec base json socket reqtoken pruning_depth num fork target detach)
      else push_given reqtoken fork attaches detach

  -- A `from` block that the chainstate does not know: a pruned block of the main chain, or an error.
  unfoldable pub push_unknown :
      String
      → String
      → List (BlockData Json)
      → ℕ
      → String
      → ℕ
      → Action (Run Json World Wire) (Pushed Json)
  unfolding push_from
  push_unknown from to attaches num reqtoken pruning_depth = do
    mainchain_height ← on_base (base.get_mainchain_height from)
    elim mainchain_height [
      | negsuc _ ↦ pure (failed codec base json socket [])
      | pos h ↦
          if leb pruning_depth h
          then pure (failed codec base json socket [])
          else push_from to attaches num reqtoken pruning_depth (record { height = h; hash = from })
              []
    ]

  unfoldable pub push_known :
      String
      → String
      → List (BlockData Json)
      → ℕ
      → String
      → ℕ
      → Action (Run Json World Wire) (Pushed Json)
  unfolding push_from push_unknown fork_point send_detaches
  push_known from to attaches num reqtoken pruning_depth = do
    s ← get
    found ← checked (get_fork_branch codec s.chain.blocks from)
    elim found [
      | none ↦ push_unknown from to attaches num reqtoken pruning_depth
      | some detach ↦ do
        send_detaches codec base json socket reqtoken detach
        fork ← fork_point codec base json socket from detach
        push_from to attaches num reqtoken pruning_depth fork detach
    ]

  unfoldable pub push_zmq_blocks :
      String
      → String
      → List (BlockData Json)
      → ℕ
      → String
      → Action (Run Json World Wire) (Pushed Json)
  unfolding push_known send_attaches
  push_zmq_blocks from to attaches num reqtoken = do
    check (if is_empty to then true else no_blocks attaches)
    if is_empty from
        then (send_attaches codec base json socket reqtoken attaches
            >> pure (pushed codec base json socket [] []))
        else (do
          s ← get
          pruning_depth ← as_height (get_lowest_unpruned_height s.chain.blocks)
          push_known from to attaches num reqtoken pruning_depth)
