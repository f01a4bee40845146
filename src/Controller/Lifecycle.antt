-- ===== src/Controller/Lifecycle.antt =====
-- The constructor and destructor of Controller::RunData in src/controller.cpp, and DisableSync.
use xayax.Prelude.{ℕ, ℤ, String, Bool, true, false, not, List, [], ◌∷◌, some}
use xayax.Prelude.Action.{Action, done, threw, aborted, ◌>>=◌, ◌>>◌, get, pure, check}
use xayax.BlockData.{Codec}
use xayax.BaseChain.{BaseChain}
use xayax.Chainstate.Methods.{Chainstate}
use xayax.Pending.{init}
use xayax.Sync.{Sync}
use xayax.Sync.Step.{start}
use xayax.ZmqPub.{JsonLib, Socket, ZmqPub}
use xayax.ZmqPub.Games.{track_game}
use xayax.Controller.{Outlets, Run}
use xayax.Controller.Config.{Settings}
use xayax.Controller.Updates.{tip_updated_from}

-- The controller beside its run: its settings and the client.
pub record Host (World : Type 0) : Type 0 where
  pub client : World
  pub settings : Settings

-- A run: without the sync worker, only what it works on.
pub data RunData (Json World Wire : Type 0) : Type 0 where
  syncing : Sync World (Outlets Json Wire) → RunData Json World Wire
  disabled : Run Json World Wire → RunData Json World Wire

module _ {World : Type 0} where
  abbrev pub on_client : {A : Type 0} → Action World A → Action (Host World) A
  on_client m s = elim (m s.client) [
    | done a w ↦ done a (record s { client = w })
    | threw w ↦ threw (record s { client = w })
    | aborted ↦ aborted
  ]

  abbrev set_running : Bool → Action (Host World) (Unit {0})
  set_running b s = done tt (record s { settings = record s.settings { running = b } })

module _ {Wire : Type 0} where
  unfoldable pub track_all : List String → Action (ZmqPub Wire) (Unit {0})
  unfolding track_game
  track_all [] = pure tt
  track_all (g ∷ gs) = do track_game g; track_all gs

module _ {World Wire : Type 0} where
  -- The publisher with the games of the settings; the socket has been bound.
  unfoldable pub new_publisher : List String → Wire → Action (Host World) (ZmqPub Wire)
  unfolding track_all
  new_publisher games wire s =
      elim (track_all games (record { next_seq = []; games = []; wire = wire })) [
        | done _ z ↦ done z s
        | threw z ↦ threw s
        | aborted ↦ aborted
      ]

module _ {Json World Wire : Type 0} where
  -- DisableSync, behind the CHECK of DisableSyncForTesting that there is a run
  unfoldable pub disable_sync : RunData Json World Wire → RunData Json World Wire
  disable_sync (syncing s) = disabled s.core
  disable_sync (disabled r) = disabled r

  module _ (codec : Codec Json) (base : BaseChain Json World) (json : JsonLib Json)
      (socket : Socket Wire) (block_range : ℕ) where
    -- The sync worker's Start, on the client and the opened chainstate.
    unfoldable pub start_sync :
        ℕ → Chainstate → ZmqPub Wire → Action (Host World) (Sync World (Outlets Json Wire))
    unfolding start tip_updated_from
    start_sync pruning_depth chain zmq s =
        elim (start codec base
          (some (
            tip_updated_from codec base json socket s.settings.sanity_checks
              s.settings.max_reorg_depth))
          block_range pruning_depth
          (record {
            base = s.client;
            chain = chain;
            env = record { zmq = zmq; pendings = init };
          })) [
            | done y c ↦ done y (record s { client = c.base })
            | threw c ↦ threw (record s { client = c.base })
            | aborted ↦ aborted
          ]

    -- RunData::RunData. `serve` binds the RPC server to the port and starts to listen.
    unfoldable pub run_data :
        (ℤ → Bool → Action World (Unit {0}))
        → ℕ
        → Chainstate
        → Wire
        → Action (Host World) (RunData Json World Wire)
    unfolding new_publisher start_sync
    run_data serve pruning_depth chain wire = do
      s ← get
      check (not s.settings.running)
      set_running true
      zmq ← new_publisher s.settings.tracked_games wire
      on_client (serve s.settings.rpc_port s.settings.rpc_listen_locally)
      on_client (base.set_callbacks true)
      sync ← start_sync pruning_depth chain zmq
      pure (syncing sync)

module _ {Json World : Type 0} (base : BaseChain Json World) where
  -- RunData::~RunData. `unserve` stops the RPC server; the sync worker ends with the run.
  unfoldable pub end_run_data : Action World (Unit {0}) → Action (Host World) (Unit {0})
  end_run_data unserve = do
    s ← get
    check s.settings.running
    set_running false
    on_client unserve
    on_client (base.set_callbacks false)
