-- ===== src/EthChain/Handlers.antt =====
-- The state of class EthChain in eth/ethchain.cpp: its methods that change it, and what it does with
-- the notifications of the WebSocket.
use xayax.Prelude.{String, Bool, true, List, [], ◌∷◌, Option, none, some, if◌then◌else◌, ℤ}
use xayax.Prelude.Texts.{is_empty}
use xayax.Prelude.Action.{Action, done, threw, aborted, ◌>>=◌, ◌>>◌, pure, abort, get, checked}
use xayax.BlockData.{MoveData}
use xayax.BaseChain.{Callbacks, tip_changed, pending_moves}
use xayax.Values.{Values, answer, rpc_error, called}
use xayax.EthChain.Logs.{EthUtils, convert_uint256}
use xayax.EthChain.Blocks.{EthRpc}
use xayax.EthChain.Mempool.{insert_txid}
use xayax.EthChain.Pendings.{
  Extractor, Contracts, pending_data_extractor, add_watched_contract, get_moves,
}
use xayax.EthChain.WebSocket.{Connection, new_connection, enable_pending}

-- `sub` is none without a WebSocket; within, the connection is none until Start.
pub record EthChain (Json World Env : Type 0) : Type 0 where
  pub node : World
  pub env : Env
  pub callbacks : Option (Callbacks Json Env)
  pub accounts_contract : String
  pub chain_id : ℤ
  pub pending : Option Extractor
  pub pool : List String
  pub sub : Option (Option (Connection Json))

module _ {Json Double Decoder World Env : Type 0} (values : Values Json Double)
    (eth : EthUtils Json Decoder) (rpc : EthRpc Json World) (contracts : Contracts) where
  abbrev on_node : {A : Type 0} → Action World A → Action (EthChain Json World Env) A
  on_node act c = elim (act c.node) [
    | done a w ↦ done a (record c { node = w })
    | threw w ↦ threw (record c { node = w })
    | aborted ↦ aborted
  ]

  abbrev on_env : {A : Type 0} → Action Env A → Action (EthChain Json World Env) A
  on_env act c = elim (act c.env) [
    | done a e ↦ done a (record c { env = e })
    | threw e ↦ threw (record c { env = e })
    | aborted ↦ aborted
  ]

  abbrev set_pending : Option Extractor → Action (EthChain Json World Env) (Unit {0})
  set_pending p c = done tt (record c { pending = p })

  abbrev set_connection : Option (Connection Json) → Action (EthChain Json World Env) (Unit {0})
  set_connection con c = done tt (record c { sub = some con })

  -- mempool.Add
  abbrev add_to_mempool : String → Action (EthChain Json World Env) (Unit {0})
  add_to_mempool txid c = done tt (record c { pool = insert_txid txid c.pool })

  -- The constructor, with the state of the node and of the callbacks' owner.
  unfoldable pub eth_chain : Env → String → String → Action World (EthChain Json World Env)
  eth_chain env ws_endpoint acc w = elim (eth.address acc) [
    | none ↦ aborted
    | some addr ↦
        (called rpc.eth_chain_id >>= λ hex. checked (eth.parse_int hex) >>= λ id. λ w'.
            done
              (record {
                node = w';
                env = env;
                callbacks = none;
                accounts_contract = addr.0;
                chain_id = id;
                pending = none;
                pool = [];
                sub = if is_empty ws_endpoint then none else some none;
              })
              w')
          w
  ]

  unfoldable pub new_tip : String → Action (EthChain Json World Env) (Unit {0})
  unfolding tip_changed convert_uint256
  new_tip tip = do
    hash ← checked (convert_uint256 values eth tip)
    c ← get
    on_env (tip_changed c.callbacks hash)

  -- What NewPendingTx does with the moves.
  unfoldable pub announce :
      String → List (MoveData Json) → Action (EthChain Json World Env) (Unit {0})
  unfolding pending_moves convert_uint256
  announce txid [] = pure tt
  announce txid (m ∷ ms) = do
    id ← checked (convert_uint256 values eth txid)
    add_to_mempool id
    c ← get
    on_env (pending_moves c.callbacks (m ∷ ms))

  unfoldable pub new_pending_tx : String → Action (EthChain Json World Env) (Unit {0})
  unfolding get_moves announce
  new_pending_tx txid = do
    c ← get
    e ← checked c.pending
    found ← on_node (get_moves values eth rpc contracts e txid)
    elim found [ rpc_error code ↦ pure tt | answer moves ↦ announce txid moves ]

  unfoldable pub start : Action (EthChain Json World Env) (Unit {0})
  start = do
    version ← on_node (called rpc.web3_client_version)
    c ← get
    elim c.sub [ none ↦ pure tt | some con ↦ set_connection (some new_connection) ]

  unfoldable pub eth_enable_pending : Action (EthChain Json World Env) Bool
  unfolding pending_data_extractor enable_pending
  eth_enable_pending = do
    c ← get
    elim c.pending [
      | some e ↦ abort
      | none ↦ do
        e ← on_node (pending_data_extractor values eth rpc contracts c.accounts_contract)
        set_pending (some e)
        elim c.sub [
          | none ↦ pure true
          | some con ↦ do
            con' ← checked (enable_pending values con)
            set_connection (some con')
            pure true
        ]
    ]

  unfoldable pub watch : String → Action (EthChain Json World Env) (Unit {0})
  unfolding add_watched_contract
  watch addr = do
    c ← get
    e ← checked c.pending
    e' ← checked (add_watched_contract values eth rpc contracts addr e)
    set_pending (some e')
