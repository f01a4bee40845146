-- ===== src/BaseChain.antt =====
-- src/basechain.hpp and src/basechain.cpp: what Xaya X asks of a blockchain client. `World` is the client and the chain
-- behind it: a call may find it changed, and may throw.
use xayax.Prelude.{ℕ, ℤ, String, Bool, List, Option, none, some}
use xayax.Prelude.Action.{Action, Post, pure}
use xayax.BlockData.{BlockData, MoveData, Linked}

pub record BaseChain (Json World : Type 0) : Type 0 where
  -- Whether the callbacks are set, or reset to the null pointer.
  pub set_callbacks : Bool → Action World (Unit {0})
  pub start : Action World (Unit {0})
  pub enable_pending : Action World Bool
  pub get_tip_height : Action World ℕ
  pub get_block_range : ℕ → ℕ → Action World (List (BlockData Json))
  -- -1 for a block that is not known or not on the main chain
  pub get_mainchain_height : String → Action World ℤ
  pub get_mempool : Action World (List String)
  -- The signer's address, or `none` for the result false.
  pub verify_message : String → String → Action World (Option String)
  pub get_chain : Action World String
  pub get_version : Action World ℕ

-- BaseChain::Callbacks, which run on the state Env of the one who set them.
pub record Callbacks (Json Env : Type 0) : Type 0 where
  pub tip_changed : String → Action Env (Unit {0})
  pub pending_moves : List (MoveData Json) → Action Env (Unit {0})

module _ {Json Env : Type 0} where
  -- BaseChain::TipChanged with the pointer `cb`
  unfoldable pub tip_changed : Option (Callbacks Json Env) → String → Action Env (Unit {0})
  tip_changed none tip = pure tt
  tip_changed (some cb) tip = cb.tip_changed tip

  -- BaseChain::PendingMoves
  unfoldable pub pending_moves :
      Option (Callbacks Json Env) → List (MoveData Json) → Action Env (Unit {0})
  pending_moves none moves = pure tt
  pending_moves (some cb) moves = cb.pending_moves moves

-- Each range that the chain returns is linked.
abbrev pub GivesLinked : {Json World : Type 0} → BaseChain Json World → Type 0
GivesLinked {World = World} base =
    (start count : ℕ) (w : World)
    → Post (λ bs _. Linked bs) (λ _. Unit {0}) (Unit {0}) (base.get_block_range start count w)
