-- ===== src/Main/Starting.antt =====
-- What main of eth/main.cpp and xayacore/main.cpp starts the controller with.
use xayax.Prelude.{◌<◌, ◌^◌, ◌≡◌, ◌⊎◌, inl, inr, refl, ap, String, not, if◌then◌else◌}
use xayax.Prelude.Texts.{is_empty}
use xayax.Prelude.Action.{Action, Post, Post-if, ◌>>◌, pure}
use xayax.BaseChain.{BaseChain}
use xayax.Controller.Config.{Settings, defaults}
use xayax.Main.{
  Flags, CoreFlags, Files, check_flags, run_controller, ask_pending, core_main, as_unsigned,
  make_directory,
}
use xayax.Main.Configuring.{
  Aborts, aborts_by, Started, IsNegative, Configured, IsChecked, check_flags-IsChecked,
  run_controller-Started, next, next_require, pending-Configured, configured,
}

-- Controller::Run or the client that it is given aborts the process in some state.
abbrev pub RunAborts : {World Json : Type 0} → BaseChain Json World → Files World → Flags → Type 0
RunAborts client files flags =
    Aborts client.enable_pending
    ⊎ Aborts client.get_chain
    ⊎ ((chain : String) × Aborts (make_directory files flags.datadir chain))

module _ {World Json : Type 0} (base : BaseChain Json World) (files : Files World) where
  -- If the depth fits an int32: main of the Xaya Core connector starts the controller with the settings of the
  -- flags and a port that is not negative, or throws, or aborts the process because the port is negative, or
  -- because the client, or the creation of the data directory, aborts.
  pub core_main-Started :
      (construct : String → Action World (Unit {0})) (core : CoreFlags)
      → as_unsigned core.common.max_reorg_depth < 2 ^ 31
      → (w : World)
      → Post
          (λ _. Started core.common)
          (λ _. Unit {0})
          (IsNegative core.common
            ⊎ Aborts (construct core.core_rpc_url)
            ⊎ Aborts base.start
            ⊎ RunAborts base files core.common)
          (core_main base files construct core (record { base = w; settings = defaults }))
  unfolding core_main
  core_main-Started construct core fits w =
      let X : Type 0 =
        IsNegative core.common
        ⊎ Aborts (construct core.core_rpc_url)
        ⊎ Aborts base.start
        ⊎ RunAborts base files core.common in
      next_require core.common fits X inl (not (is_empty core.core_rpc_url)) _ _ (
        next core.common fits X inl (λ _ s'. IsChecked core.common × (s'.settings ≡ defaults))
          (check_flags core.common _) _
          (check_flags-IsChecked core.common fits X inl (record { base = w; settings = defaults }))
          λ _ s1 c.
            configured core.common fits X inl (construct core.core_rpc_url) base.start (pure tt)
              (λ _.
                (if core.pending_moves then ask_pending base.enable_pending else pure tt)
                >> run_controller files base.get_chain core.common)
              s1 (aborts_by (construct core.core_rpc_url) (λ x. inr (inl x)))
              (aborts_by base.start (λ x. inr (inr (inl x)))) (λ _. refl)
              (ap (λ (x : Settings). x.running) c.1) (ap (λ (x : Settings). x.sanity_checks) c.1)
              c.0
              λ _ s2 d.
                next core.common fits X inl (λ _. Configured core.common) _ _
                  (Post-if (λ _. Configured core.common) _ _ core.pending_moves
                    (ask_pending base.enable_pending) (pure tt) s2
                    (λ _.
                      pending-Configured core.common fits X inl base.enable_pending s2
                        (aborts_by base.enable_pending (λ x. inr (inr (inr (inl x))))) d)
                    (λ _. d))
                  λ _ s3 e.
                    run_controller-Started core.common fits X inl files base.get_chain s3
                      (aborts_by base.get_chain (λ x. inr (inr (inr (inr (inl x))))))
                      (λ chain.
                        aborts_by (make_directory files core.common.datadir chain)
                          (λ x. inr (inr (inr (inr (inr (chain, x)))))))
                      c.0 e)
