-- ===== src/Sync.antt =====
-- src/sync.cpp and src/private/sync.hpp: the worker that brings the chainstate up to the base chain.
-- Its thread calls `update_step` under the mutexes, so that each call is one step; waiting and the
-- condition variable only decide when.
pub mod Step
pub mod Progress
pub mod Attaching
pub mod Searching
use xayax.Prelude.{ℕ, ℤ, minus_one}
use xayax.Prelude.Action.{Action, done, threw, aborted}
use xayax.Chainstate.Methods.{Chainstate}

-- What the worker shares with the controller: the base chain, the chainstate, and the rest of what the
-- callback TipUpdatedFrom works on.
pub record Core (World Env : Type 0) : Type 0 where
  pub base : World
  pub chain : Chainstate
  pub env : Env

pub record Sync (World Env : Type 0) : Type 0 where
  pub core : Core World Env
  pub open core use *
  pub num_blocks : ℕ
  pub next_start_height : ℤ

-- The constructor and the assignments in Sync::Start.
abbrev pub started : {World Env : Type 0} → Core World Env → Sync World Env
started c = record { core = c; num_blocks = 1; next_start_height = minus_one }

module _ {World Env : Type 0} where
  abbrev pub on_base : {A : Type 0} → Action World A → Action (Core World Env) A
  on_base m s = elim (m s.base) [
    | done a w ↦ done a (record s { base = w })
    | threw w ↦ threw (record s { base = w })
    | aborted ↦ aborted
  ]

  abbrev pub on_chain : {A : Type 0} → Action Chainstate A → Action (Core World Env) A
  on_chain m s = elim (m s.chain) [
    | done a w ↦ done a (record s { chain = w })
    | threw w ↦ threw (record s { chain = w })
    | aborted ↦ aborted
  ]

  abbrev pub on_core : {A : Type 0} → Action (Core World Env) A → Action (Sync World Env) A
  on_core m s = elim (m s.core) [
    | done a w ↦ done a (record s { core = w })
    | threw w ↦ threw (record s { core = w })
    | aborted ↦ aborted
  ]
