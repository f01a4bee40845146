-- ===== src/Controller.antt =====
-- src/controller.cpp and src/controller.hpp: the controller, which connects the base chain, the sync
-- worker, the chainstate, the publisher and the pending moves, and answers RPC calls. The mutexes make
-- each handler one step on the shared state.
pub mod Steps
pub mod Push
pub mod Updates
pub mod Answers
pub mod Rpc
pub mod Config
pub mod Replies
pub mod Attaching
pub mod Lifecycle
pub mod Dispatch
pub mod Joining
use xayax.Prelude.{ℕ}
use xayax.Prelude.Action.{Action, done, threw, aborted}
use xayax.Sync.{Core}
use xayax.ZmqPub.{ZmqPub}
use xayax.Pending.{PendingManager}

-- What RunData holds beside the base chain and the chainstate.
pub record Outlets (Json Wire : Type 0) : Type 0 where
  pub zmq : ZmqPub Wire
  pub pendings : PendingManager Json

abbrev pub Run : Type 0 → Type 0 → Type 0 → Type 0
Run Json World Wire = Core World (Outlets Json Wire)

module _ {Json World Wire : Type 0} where
  abbrev pub on_zmq : {A : Type 0} → Action (ZmqPub Wire) A → Action (Run Json World Wire) A
  on_zmq m s = elim (m s.env.zmq) [
    | done a z ↦ done a (record s { env = record s.env { zmq = z } })
    | threw z ↦ threw (record s { env = record s.env { zmq = z } })
    | aborted ↦ aborted
  ]
