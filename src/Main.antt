-- ===== src/Main.antt =====
-- The programs eth/main.cpp and xayacore/main.cpp: from the flags of the command line to Controller::Run.
-- An exception ends main with EXIT_FAILURE. The server's loop itself is that of the controller.
pub mod Watching
pub mod Splitting
pub mod Configuring
pub mod Starting
use xayax.Prelude.{
  ℕ, ℤ, pos, negsuc, String, Bool, true, false, not, Option, none, some, if◌then◌else◌, ltb_ℤ,
}
use xayax.Prelude.Texts.{is_empty}
use xayax.Prelude.Action.{Action, done, threw, aborted, ◌>>=◌, ◌>>◌, get, pure, check}
use xayax.BaseChain.{BaseChain}
use xayax.Controller.Config.{
  Settings, set_zmq_endpoint, set_rpc_binding, enable_pending, enable_sanity_checks,
  set_max_reorg_depth, check_run, begin_run,
}
use xayax.Main.Watching.{add_watched_contracts}

-- The flags that both programs have.
pub record Flags : Type 0 where
  pub datadir : String
  pub port : ℤ
  pub listen_locally : Bool
  pub zmq_address : String
  pub max_reorg_depth : ℤ
  pub sanity_checks : Bool

-- The flags of eth/main.cpp.
pub record EthFlags : Type 0 where
  pub eth_rpc_url : String
  pub eth_ws_url : String
  pub accounts_contract : String
  pub watch_for_pending_moves : String
  pub blockcache_memory : Bool
  pub blockcache_mysql : String
  pub common : Flags

-- The flags of xayacore/main.cpp.
pub record CoreFlags : Type 0 where
  pub core_rpc_url : String
  pub pending_moves : Bool
  pub common : Flags

pub data CacheStore : Type 0 where
  no_cache : CacheStore
  memory : CacheStore
  mysql : CacheStore

-- The client, and the settings of the controller.
pub record Program (World : Type 0) : Type 0 where
  pub base : World
  pub settings : Settings

-- std::filesystem on the path dataDir / chain: fs::is_directory, and fs::create_directories, whose result
-- says whether it has created the directory.
pub record Files (World : Type 0) : Type 0 where
  pub is_directory : String → String → Action World Bool
  pub create_directories : String → String → Action World Bool

-- if (!b) throw std::runtime_error (...)
abbrev pub require : {S : Type 0} → Bool → Action S (Unit {0})
require true s = done tt s
require false s = threw s

abbrev pub is_set : ℤ → Bool
is_set (pos ℕ.zero) = false
is_set _ = true

-- The flag as an unsigned; it is not negative here.
abbrev pub as_unsigned : ℤ → ℕ
as_unsigned (pos n) = n
as_unsigned (negsuc n) = 0

module _ {World : Type 0} where
  abbrev pub on_base : {A : Type 0} → Action World A → Action (Program World) A
  on_base m s = elim (m s.base) [
    | done a w ↦ done a (record s { base = w })
    | threw w ↦ threw (record s { base = w })
    | aborted ↦ aborted
  ]

  abbrev pub on_settings : {A : Type 0} → Action Settings A → Action (Program World) A
  on_settings m s = elim (m s.settings) [
    | done a c ↦ done a (record s { settings = c })
    | threw c ↦ threw (record s { settings = c })
    | aborted ↦ aborted
  ]

  unfoldable pub check_flags : Flags → Action (Program World) (Unit {0})
  check_flags flags = do
    require (is_set flags.port)
    require (not (is_empty flags.zmq_address))
    require (not (is_empty flags.datadir))
    require (not (ltb_ℤ flags.max_reorg_depth (pos 0)))

  -- The setters of the controller that both programs call.
  unfoldable pub configure : Flags → Action (Program World) (Unit {0})
  unfolding set_max_reorg_depth set_zmq_endpoint set_rpc_binding
  configure flags = on_settings (do
    set_max_reorg_depth (as_unsigned flags.max_reorg_depth)
    set_zmq_endpoint flags.zmq_address
    set_rpc_binding flags.port flags.listen_locally)

  -- The data directory of Controller::Run, for the chain.
  unfoldable pub make_directory : Files World → String → String → Action World (Unit {0})
  make_directory files datadir chain = do
    there ← files.is_directory datadir chain
    if there then pure tt else (do created ← files.create_directories datadir chain; check created)

  -- Controller::Run up to the loop that waits; `get_chain` is the client's.
  unfoldable pub enter_run :
      Files World → Action World String → String → Action (Program World) (Unit {0})
  unfolding check_run begin_run make_directory
  enter_run files get_chain datadir = do
    on_settings check_run
    chain ← on_base get_chain
    on_base (make_directory files datadir chain)
    on_settings begin_run

  -- The last flag, and Controller::Run.
  unfoldable pub run_controller :
      Files World → Action World String → Flags → Action (Program World) (Unit {0})
  unfolding enable_sanity_checks enter_run
  run_controller files get_chain flags = do
    on_settings (if flags.sanity_checks then enable_sanity_checks else pure tt)
    enter_run files get_chain flags.datadir

  -- Controller::EnablePending, which asks the client
  unfoldable pub ask_pending : Action World Bool → Action (Program World) (Unit {0})
  unfolding enable_pending
  ask_pending ask = do
    s ← get
    check (not s.settings.running)
    if s.settings.pending
        then pure tt
        else (do supported ← on_base ask; on_settings (enable_pending supported))

  -- Which block cache is used; `connect` is MySqlBlockStorage::Connect.
  unfoldable pub choose_cache :
      (String → Action World Bool) → EthFlags → Action (Program World) CacheStore
  choose_cache connect flags =
      if is_empty flags.blockcache_mysql
      then pure (if flags.blockcache_memory then memory else no_cache)
      else do
        require (not flags.blockcache_memory)
        connected ← on_base (connect flags.blockcache_mysql)
        require connected
        pure mysql

  module _ {Json : Type 0} (base : BaseChain Json World) (files : Files World) where
    -- main of eth/main.cpp. `construct` is the constructor of EthChain, and `behind` the client with the block
    -- cache in front of it, which Controller is given.
    unfoldable pub eth_main :
        (String → String → String → Action World (Unit {0}))
        → (String → Action World Bool)
        → (String → Action World (Unit {0}))
        → (CacheStore → ℕ → BaseChain Json World)
        → EthFlags
        → Action (Program World) (Unit {0})
    unfolding check_flags configure run_controller choose_cache ask_pending add_watched_contracts
    eth_main construct connect add_watched_contract behind flags = do
      require (not (is_empty flags.eth_rpc_url))
      require (not (is_empty flags.accounts_contract))
      check_flags flags.common
      on_base (construct flags.eth_rpc_url flags.eth_ws_url flags.accounts_contract)
      on_base base.start
      store ← choose_cache connect flags
      let client = behind store (as_unsigned flags.common.max_reorg_depth)
      configure flags.common
      (if is_empty flags.watch_for_pending_moves then pure tt else do
        ask_pending client.enable_pending
        on_base (add_watched_contracts add_watched_contract flags.watch_for_pending_moves))
      run_controller files client.get_chain flags.common

    -- main of xayacore/main.cpp
    unfoldable pub core_main :
        (String → Action World (Unit {0})) → CoreFlags → Action (Program World) (Unit {0})
    unfolding check_flags configure run_controller ask_pending
    core_main construct flags = do
      require (not (is_empty flags.core_rpc_url))
      check_flags flags.common
      on_base (construct flags.core_rpc_url)
      on_base base.start
      configure flags.common
      (if flags.pending_moves then ask_pending base.enable_pending else pure tt)
      run_controller files base.get_chain flags.common
