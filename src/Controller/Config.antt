-- ===== src/Controller/Config.antt =====
-- The configuration of Controller in src/controller.cpp, and the start and end of Controller::Run.
-- `running` says whether `run` is not the null pointer.
use xayax.Prelude.{
  ℕ, ◌-◌, ◌^◌, String, Bool, true, false, not, List, [], ◌∷◌, ltb, if◌then◌else◌, ℤ, pos, negsuc,
  minus_one, ltb_ℤ, ◌||◌,
}
use xayax.Prelude.Texts.{same, is_empty}
use xayax.Prelude.Action.{Action, done, ◌>>=◌, ◌>>◌, get, put, check}

pub record Settings : Type 0 where
  pub pending : Bool
  pub tracked_games : List String
  pub sanity_checks : Bool
  pub max_reorg_depth : ℤ
  pub zmq_addr : String
  pub rpc_port : ℤ
  pub rpc_listen_locally : Bool
  pub running : Bool
  pub should_stop : Bool

-- The members' initialisers.
abbrev pub defaults : Settings
defaults = record {
  pending = false;
  tracked_games = [];
  sanity_checks = false;
  max_reorg_depth = minus_one;
  zmq_addr = "";
  rpc_port = minus_one;
  rpc_listen_locally = false;
  running = false;
  should_stop = false;
}

abbrev while_stopped : (Settings → Settings) → Action Settings (Unit {0})
while_stopped f = do c ← get; check (not c.running); put (f c)

unfoldable pub set_zmq_endpoint : String → Action Settings (Unit {0})
set_zmq_endpoint addr = while_stopped (λ c. record c { zmq_addr = addr })

unfoldable pub set_rpc_binding : ℤ → Bool → Action Settings (Unit {0})
set_rpc_binding port local =
    while_stopped (λ c. record c { rpc_port = port; rpc_listen_locally = local })

-- `supported` is the answer of base.EnablePending (), which is asked only once it has said yes.
unfoldable pub enable_pending : Bool → Action Settings (Unit {0})
enable_pending supported = while_stopped (λ c. record c { pending = c.pending || supported })

unfoldable pub enable_sanity_checks : Action Settings (Unit {0})
enable_sanity_checks = while_stopped (λ c. record c { sanity_checks = true })

-- An unsigned that is stored in an int.
unfoldable pub as_int : ℕ → ℤ
as_int n = if ltb n (2 ^ 31) then pos n else negsuc (2 ^ 32 - n - 1)

unfoldable pub set_max_reorg_depth : ℕ → Action Settings (Unit {0})
unfolding as_int
set_max_reorg_depth depth = while_stopped (λ c. record c { max_reorg_depth = as_int depth })

abbrev occurs : String → List String → Bool
occurs g [] = false
occurs g (h ∷ hs) = same g h || occurs g hs

unfoldable pub track_game : String → Action Settings (Unit {0})
track_game game_id = while_stopped (λ c. record c {
  tracked_games =
      if occurs game_id c.tracked_games then c.tracked_games else game_id ∷ c.tracked_games;
})

unfoldable pub stop : Action Settings (Unit {0})
stop c = done tt (record c { should_stop = true })

-- The CHECKs of Controller::Run
unfoldable pub check_run : Action Settings (Unit {0})
check_run = do
  c ← get
  check (not c.running)
  check (not (ltb_ℤ c.max_reorg_depth (pos 0)))
  check (not (is_empty c.zmq_addr))
  check (ltb_ℤ minus_one c.rpc_port)

-- `run` as the constructor of RunData sets it, and shouldStop.
unfoldable pub begin_run : Action Settings (Unit {0})
begin_run = do c ← get; put (record c { running = true; should_stop = false })

-- The end of the loop, and the destructor of RunData.
unfoldable pub end_run : Action Settings (Unit {0})
end_run = do
  c ← get
  check c.running
  if c.should_stop then put (record c { running = false }) else put c
