-- ===== src/Main/Configuring.antt =====
-- The steps of main in eth/main.cpp and xayacore/main.cpp up to Controller::Run.
use xayax.Prelude.{
  if◌then◌else◌, refl, ◌<◌, ◌^◌, ◌≡◌, ◌∙◌, ap, arith, pos, String, Bool, true, false, ltb_ℤ, List,
  [], ◌∷◌,
}
use xayax.Prelude.Texts.{is_empty}
use xayax.Prelude.Action.{
  Action, Outcome, done, threw, aborted, bind, Post, Post-bind, pure, ◌>>=◌, ◌>>◌,
}
use xayax.Controller.Config.{
  Settings, set_zmq_endpoint, set_rpc_binding, enable_pending, enable_sanity_checks,
  set_max_reorg_depth, as_int, check_run, begin_run,
}
use xayax.Main.{
  Flags, EthFlags, Program, Files, on_base, on_settings, enter_run, make_directory, require,
  check_flags, configure, run_controller, choose_cache, ask_pending, as_unsigned,
}
use xayax.Main.Watching.{add_watched_contracts}
use xayax.Main.Splitting.{split, add_each, add_watched_contracts-split}

-- The settings are those of the flags but for the sanity checks, and the controller is not running.
pub record Configured {World : Type 0} (flags : Flags) (s : Program World) : Type 0 where
  stopped : s.settings.running ≡ false
  unchecked : s.settings.sanity_checks ≡ false
  addr : s.settings.zmq_addr ≡ flags.zmq_address
  port_is : s.settings.rpc_port ≡ flags.port
  local : s.settings.rpc_listen_locally ≡ flags.listen_locally
  depth : s.settings.max_reorg_depth ≡ flags.max_reorg_depth

-- The controller runs with the settings of the flags, and the port is not negative.
pub record Started {World : Type 0} (flags : Flags) (s : Program World) : Type 0 where
  pub runs : s.settings.running ≡ true
  pub addr : s.settings.zmq_addr ≡ flags.zmq_address
  pub port_is : s.settings.rpc_port ≡ flags.port
  pub local : s.settings.rpc_listen_locally ≡ flags.listen_locally
  pub depth : s.settings.max_reorg_depth ≡ flags.max_reorg_depth
  pub checked : s.settings.sanity_checks ≡ flags.sanity_checks
  pub port_fits : ltb_ℤ flags.port (pos 0) ≡ false

-- What the checks of the flags establish.
pub record IsChecked (flags : Flags) : Type 0 where
  addressed : is_empty flags.zmq_address ≡ false
  not_negative : ltb_ℤ flags.max_reorg_depth (pos 0) ≡ false

abbrev pub IsNegative : Flags → Type 0
IsNegative flags = ltb_ℤ flags.port (pos 0) ≡ true

-- A call aborts the process in some state.
abbrev pub Aborts : {World A : Type 0} → Action World A → Type 0
Aborts {World = World} m = (w : World) × (m w ≡ aborted)

-- A call aborts the process only for this reason.
abbrev pub AbortsBy : {World A : Type 0} → Type 0 → Action World A → Type 0
AbortsBy {World = World} X m = (w : World) → Post (λ _ _. Unit {0}) (λ _. Unit {0}) X (m w)

aborts_by_outcome :
    {S A : Type 0} {X : Type 0} (o : Outcome S A)
    → (o ≡ aborted → X)
    → Post (λ _ _. Unit {0}) (λ _. Unit {0}) X o
aborts_by_outcome (done a s) h = tt
aborts_by_outcome (threw s) h = tt
aborts_by_outcome aborted h = h refl

pub aborts_by : {World A X : Type 0} (m : Action World A) → (Aborts m → X) → AbortsBy X m
aborts_by m h w = aborts_by_outcome (m w) (λ e. h (w, e))

-- `X` is a reason for which the process aborts.
module _ {World : Type 0} (flags : Flags) (fits : as_unsigned flags.max_reorg_depth < 2 ^ 31)
    (X : Type 0) (negative : IsNegative flags → X) where
  abbrev pub Any : Program World → Type 0
  Any _ = Unit {0}

  abbrev pub Kept : Program World → Program World → Type 0
  Kept s s' = s'.settings ≡ s.settings

  pub check_flags-IsChecked :
      (s : Program World) → Post (λ _ s'. IsChecked flags × Kept s s') Any X (check_flags flags s)
  unfolding check_flags
  check_flags-IsChecked s = ground arith

  pub configure-Configured :
      (s : Program World)
      → IsChecked flags
      → s.settings.running ≡ false
      → s.settings.sanity_checks ≡ false
      → Post (λ _ s'. Configured flags s') Any X (configure flags s)
  unfolding configure set_max_reorg_depth set_zmq_endpoint set_rpc_binding as_int
  configure-Configured s c r q = ground arith

  -- What Controller::Run finds, but for the sign of the port
  record Ready (s : Program World) : Type 0 where
    stopped : s.settings.running ≡ false
    addr : s.settings.zmq_addr ≡ flags.zmq_address
    port_is : s.settings.rpc_port ≡ flags.port
    local : s.settings.rpc_listen_locally ≡ flags.listen_locally
    depth : s.settings.max_reorg_depth ≡ flags.max_reorg_depth
    checked : s.settings.sanity_checks ≡ flags.sanity_checks

  Ready-kept : (s s' : Program World) → Ready s → s'.settings ≡ s.settings → Ready s'
  Ready-kept s s' r e = record {
    stopped = ap (λ (x : Settings). x.running) e ∙ r.stopped;
    addr = ap (λ (x : Settings). x.zmq_addr) e ∙ r.addr;
    port_is = ap (λ (x : Settings). x.rpc_port) e ∙ r.port_is;
    local = ap (λ (x : Settings). x.rpc_listen_locally) e ∙ r.local;
    depth = ap (λ (x : Settings). x.max_reorg_depth) e ∙ r.depth;
    checked = ap (λ (x : Settings). x.sanity_checks) e ∙ r.checked;
  }

  sanity_checks-Ready :
      (s : Program World)
      → Configured flags s
      → Post
          (λ _. Ready)
          Any
          X
          (on_settings (if flags.sanity_checks then enable_sanity_checks else pure tt) s)
  unfolding enable_sanity_checks
  sanity_checks-Ready s k = ground arith

  check_run-Ready :
      (s : Program World)
      → IsChecked flags
      → Ready s
      → Post (λ _ s'. Ready s' × (ltb_ℤ flags.port (pos 0) ≡ false)) Any X (on_settings check_run s)
  unfolding check_run
  check_run-Ready s c k = ground arith

  on_base-Kept :
      {A : Type 0} (m : Action World A) (s : Program World)
      → AbortsBy X m
      → Post (λ _ s'. Kept s s') Any X (on_base m s)
  on_base-Kept m s n = ground (arith, n s.base)

  -- What both programs end with.
  abbrev pub Good : Outcome (Program World) (Unit {0}) → Type 0
  Good = Post (λ _. Started flags) Any X

  pub next :
      {A : Type 0} (Q : A → Program World → Type 0) (o : Outcome (Program World) A)
      (k : A → Action (Program World) (Unit {0}))
      → Post Q Any X o
      → ((a : A) (s : Program World) → Q a s → Good (k a s))
      → Good (bind o k)
  next Q o k h f = Post-bind Q (λ _. Started flags) Any X o k h f

  pub next_require :
      (b : Bool) (k : Action (Program World) (Unit {0})) (s : Program World)
      → Good (k s)
      → Good ((require b >> k) s)
  next_require true k s f = f
  next_require false k s f = tt

  pub pending-Configured :
      (m : Action World Bool) (s : Program World)
      → AbortsBy X m
      → Configured flags s
      → Post (λ _. Configured flags) Any X (ask_pending m s)
  unfolding ask_pending enable_pending
  pending-Configured m s n c = ground (arith, n s.base)

  -- From the constructor of the client on; `choice` is what is done before the controller is set up.
  pub configured :
      {A : Type 0} (before start : Action World (Unit {0})) (choice : Action (Program World) A)
      (rest : A → Action (Program World) (Unit {0})) (s : Program World)
      → AbortsBy X before
      → AbortsBy X start
      → ((s' : Program World) → Post (λ _. Kept s') Any X (choice s'))
      → s.settings.running ≡ false
      → s.settings.sanity_checks ≡ false
      → IsChecked flags
      → ((a : A) (s' : Program World) → Configured flags s' → Good (rest a s'))
      → Good ((on_base before >> (on_base start >> (choice >>= λ a. configure flags >> rest a))) s)
  configured before start choice rest s n m h r q c k =
      next (λ _. Kept s) (on_base before s) _ (on_base-Kept before s n)
        λ _ s1 e1.
          next (λ _. Kept s1) (on_base start s1) _ (on_base-Kept start s1 m)
            λ _ s2 e2.
              next (λ _. Kept s2) (choice s2) _ (h s2)
                λ a s3 e3.
                  next (λ _. Configured flags) (configure flags s3) _
                    (configure-Configured s3 c (ap (λ (x : Settings). x.running) (e3 ∙ e2 ∙ e1) ∙ r)
                      (ap (λ (x : Settings). x.sanity_checks) (e3 ∙ e2 ∙ e1) ∙ q))
                    λ _ s4 d. k a s4 d

  pub choose_cache-Kept :
      (connect : String → Action World Bool) (eth : EthFlags) (s : Program World)
      → ((url : String) → AbortsBy X (connect url))
      → Post (λ _ s'. Kept s s') Any X (choose_cache connect eth s)
  unfolding choose_cache
  choose_cache-Kept connect eth s n = ground (arith, n eth.blockcache_mysql s.base)

  on_base-Configured :
      (m : Action World (Unit {0})) (s : Program World)
      → AbortsBy X m
      → Configured flags s
      → Post (λ _. Configured flags) Any X (on_base m s)
  on_base-Configured m s n c = ground (arith, n s.base)

  add_each-AbortsBy :
      (add : String → Action World (Unit {0})) (addrs : List String)
      → ((addr : String) → AbortsBy X (add addr))
      → AbortsBy X (add_each add addrs)
  add_each-AbortsBy add [] n w = tt
  add_each-AbortsBy add (a ∷ as') n w =
      Post-bind (λ _ _. Unit) (λ _ _. Unit) _ X (add a w) _ (n a w)
        (λ _ w' _. add_each-AbortsBy add as' n w')

  pub watching-Configured :
      (m : Action World Bool) (add : String → Action World (Unit {0})) (lst : String)
      (s : Program World)
      → AbortsBy X m
      → ((addr : String) → AbortsBy X (add addr))
      → is_empty lst ≡ false
      → Configured flags s
      → Post
          (λ _. Configured flags)
          Any
          X
          ((ask_pending m >> on_base (add_watched_contracts add lst)) s)
  watching-Configured m add lst s n a e c =
      Post-bind (λ _. Configured flags) (λ _. Configured flags) Any X _
        (λ _. on_base (add_watched_contracts add lst)) (pending-Configured m s n c)
        (λ _ s' d.
          on_base-Configured (add_watched_contracts add lst) s'
            (λ w.
              rw (add_watched_contracts-split add lst w e)
                (add_each-AbortsBy add (split b',' lst) a w))
            d)

  begin_run-Started :
      (s : Program World)
      → Ready s
      → ltb_ℤ flags.port (pos 0) ≡ false
      → Good (on_settings begin_run s)
  unfolding begin_run
  begin_run-Started s k p = ground arith

  -- From the last flag on
  pub run_controller-Started :
      (files : Files World) (get_chain : Action World String) (s : Program World)
      → AbortsBy X get_chain
      → ((chain : String) → AbortsBy X (make_directory files flags.datadir chain))
      → IsChecked flags
      → Configured flags s
      → Good (run_controller files get_chain flags s)
  unfolding run_controller enter_run
  run_controller-Started files get_chain s g d c k =
      next (λ _. Ready) _ _ (sanity_checks-Ready s k)
        λ _ s1 r1.
          next (λ _ s'. Ready s' × (ltb_ℤ flags.port (pos 0) ≡ false)) (on_settings check_run s1) _
            (check_run-Ready s1 c r1)
            λ _ s2 r2.
              next (λ _ s'. Kept s2 s') (on_base get_chain s2) _ (on_base-Kept get_chain s2 g)
                λ chain s3 e3.
                  next (λ _ s'. Kept s3 s') (on_base (make_directory files flags.datadir chain) s3)
                    _ (on_base-Kept (make_directory files flags.datadir chain) s3 (d chain))
                    λ _ s4 e4. begin_run-Started s4 (Ready-kept s2 s4 r2.0 (e4 ∙ e3)) r2.1
