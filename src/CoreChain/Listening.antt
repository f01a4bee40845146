-- ===== src/CoreChain/Listening.antt =====
-- The callbacks and ZMQ listeners of class CoreChain in xayacore/corechain.cpp.
use Prim.Native.String.{count}
use xayax.Prelude.{
  String, Bool, true, false, List, [], ◌∷◌, ◌++◌, Option, none, some, leb, ◌==◌, if◌then◌else◌,
}
use xayax.Prelude.Texts.{same, is_empty}
use xayax.Prelude.Maps.{lookup, insert, emplace}
use xayax.Prelude.Action.{Action, done, threw, aborted, ◌>>=◌, ◌>>◌, pure, abort, get, check}
use xayax.BaseChain.{Callbacks, tip_changed, pending_moves}
use xayax.Values.{Values, answer, rpc_error, called, field}
use xayax.CoreChain.Moves.{get_move_from_tx}
use xayax.CoreChain.Blocks.{CoreRpc}
use xayax.CoreChain.Calls.{get_notification_address}

-- The object: the node behind it, the callbacks with the state they run on, and for each address that a
-- listener is connected to the topics it has subscribed.
pub record CoreChain (Json World Env : Type 0) : Type 0 where
  pub node : World
  pub env : Env
  pub callbacks : Option (Callbacks Json Env)
  pub listeners : List (String × List String)

module _ {Json World Env : Type 0} where
  abbrev pub on_node : {A : Type 0} → Action World A → Action (CoreChain Json World Env) A
  on_node m c = elim (m c.node) [
    | done a w ↦ done a (record c { node = w })
    | threw w ↦ threw (record c { node = w })
    | aborted ↦ aborted
  ]

  abbrev pub on_env : {A : Type 0} → Action Env A → Action (CoreChain Json World Env) A
  on_env m c = elim (m c.env) [
    | done a e ↦ done a (record c { env = e })
    | threw e ↦ threw (record c { env = e })
    | aborted ↦ aborted
  ]

  -- GetListenerForAddress (addr).Subscribe (topic)
  unfoldable pub subscribe : String → String → Action (CoreChain Json World Env) (Unit {0})
  subscribe addr topic c = done tt (record c {
    listeners = elim (lookup addr c.listeners) [
      | some topics ↦ insert addr (topics ++ topic ∷ []) c.listeners
      | none ↦ emplace addr (topic ∷ []) c.listeners
    ];
  })

module _ {Json Double World Env : Type 0} (values : Values Json Double)
    (unhexlify : String → Option String) (hexlify : String → String)
    (rpc : CoreRpc Json World) where
  unfoldable pub handle_hash_block : String → Action (CoreChain Json World Env) (Unit {0})
  unfolding tip_changed
  handle_hash_block payload = do c ← get; on_env (tip_changed c.callbacks (hexlify payload))

  unfoldable pub handle_raw_tx : String → Action (CoreChain Json World Env) (Unit {0})
  unfolding get_move_from_tx pending_moves
  handle_raw_tx payload = do
    decoded ← on_node (rpc.decoderawtransaction (hexlify payload))
    elim decoded [
      | rpc_error code ↦ pure tt
      | answer tx ↦ do
        mv ← get_move_from_tx values unhexlify tx
        elim mv [
          | none ↦ pure tt
          | some m ↦ do c ← get; on_env (pending_moves c.callbacks (m ∷ []))
        ]
    ]

  -- A round of ReceiveLoop with the parts of a message, each character of which stands for a byte.
  unfoldable pub receive : List String → Action (CoreChain Json World Env) (Unit {0})
  unfolding handle_hash_block handle_raw_tx
  receive (topic ∷ payload ∷ sequence ∷ []) = do
    check (count sequence == 4)
    if same topic "hashblock"
        then handle_hash_block payload
        else if same topic "rawtx"
        then handle_raw_tx payload
        else abort
  receive _ = abort

  unfoldable pub start : Action (CoreChain Json World Env) (Unit {0})
  unfolding get_notification_address subscribe
  start = do
    info ← on_node (called rpc.getnetworkinfo)
    version ← field values values.as_uint64 "version" info
    check (leb 1060000 version)
    addr ← on_node (get_notification_address values rpc "pubhashblock")
    if is_empty addr then pure tt else subscribe addr "hashblock"

  unfoldable pub enable_pending : Action (CoreChain Json World Env) Bool
  unfolding get_notification_address subscribe
  enable_pending = do
    addr ← on_node (get_notification_address values rpc "pubrawtx")
    if is_empty addr then pure false else do subscribe addr "rawtx"; pure true
