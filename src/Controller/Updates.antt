-- ===== src/Controller/Updates.antt =====
-- The callbacks of Controller::RunData in src/controller.cpp: TipChanged, PendingMoves and
-- TipUpdatedFrom.
use xayax.Prelude.{ℕ, ◌+◌, ◌-◌, String, Bool, List, ltb, if◌then◌else◌, last?, ℤ, pos, negsuc}
use xayax.Prelude.Action.{Action, done, threw, aborted, ◌>>=◌, ◌>>◌, get, pure, checked}
use xayax.BlockData.{BlockData, MoveData, Codec}
use xayax.BaseChain.{BaseChain}
use xayax.Chainstate.Ops.{get_tip_height}
use xayax.Chainstate.Methods.{prune}
use xayax.Chainstate.Sanity.{sanity_check}
use xayax.Pending.{Shared}
use xayax.Pending
use xayax.Sync.{on_chain}
use xayax.ZmqPub.{JsonLib, Socket, ZmqPub}
use xayax.ZmqPub.Blocks.{send_pending_moves}
use xayax.Controller.{Run}
use xayax.Controller.Push.{push_zmq_blocks}

module _ {Json World Wire : Type 0} where
  abbrev pub on_pending :
      {A : Type 0} → Action (Shared Json (ZmqPub Wire)) A → Action (Run Json World Wire) A
  on_pending m s = elim (m (record { manager = s.env.pendings; zmq = s.env.zmq })) [
    | done a p ↦ done a (record s { env = record { zmq = p.zmq; pendings = p.manager } })
    | threw p ↦ threw (record s { env = record { zmq = p.zmq; pendings = p.manager } })
    | aborted ↦ aborted
  ]

  -- try { ... } catch (const std::exception&) { LOG }
  abbrev pub ignoring :
      {A : Type 0} → Action (Run Json World Wire) A → Action (Run Json World Wire) (Unit {0})
  ignoring m s = elim (m s) [ done a s' ↦ done tt s' | threw s' ↦ done tt s' | aborted ↦ aborted ]

module _ {Json World Wire : Type 0} (codec : Codec Json) (base : BaseChain Json World)
    (json : JsonLib Json) (socket : Socket Wire) where
  -- The base chain's notifications; NewBaseChainTip only wakes the sync worker.
  unfoldable pub tip_changed : String → Action (Run Json World Wire) (Unit {0})
  tip_changed tip = on_pending (Pending.tip_changed (send_pending_moves json socket) tip)

  unfoldable pub pending_moves : List (MoveData Json) → Action (Run Json World Wire) (Unit {0})
  pending_moves moves = on_pending (Pending.pending_moves (send_pending_moves json socket) moves)

  -- CHECK_GE (parent.maxReorgDepth, 0)
  abbrev depth_of : ℤ → Action (Run Json World Wire) ℕ
  depth_of (pos d) s = done d s
  depth_of (negsuc d) s = aborted

  abbrev prune_below : ℕ → ℤ → Action (Run Json World Wire) (Unit {0})
  prune_below max_reorg_depth (negsuc n) = pure tt
  prune_below max_reorg_depth (pos tip) =
      if ltb (max_reorg_depth + 1) tip
      then on_chain (prune (tip - max_reorg_depth - 1))
      else pure tt

  unfoldable pub tip_updated_from :
      Bool → ℤ → String → List (BlockData Json) → Action (Run Json World Wire) (Unit {0})
  unfolding push_zmq_blocks sanity_check prune
  tip_updated_from sanity_checks max_reorg_depth old_tip attaches = do
    last ← checked (last? attaches)
    ignoring (push_zmq_blocks codec base json socket old_tip "" attaches 0 "")
    on_pending (Pending.chainstate_tip_changed (send_pending_moves json socket) last.hash)
    s ← get
    if sanity_checks then checked (sanity_check codec s.chain.blocks) else pure tt
    depth ← depth_of max_reorg_depth
    prune_below depth (get_tip_height s.chain.blocks)
