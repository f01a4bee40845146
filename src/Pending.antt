-- ===== src/Pending.antt =====
-- src/pending.cpp and src/private/pending.hpp: the queue of pending moves. A call takes the manager
-- together with the state of the ZMQ publisher, and `send` stands for ZmqPub::SendPendingMoves.
-- The mutex makes each call one step.
pub mod Order
pub mod Sending
use xayax.Prelude.{String, List, [], ◌∷◌, ◌++◌, Bool, true, false, not, if◌then◌else◌}
use xayax.Prelude.Texts.{same, is_empty}
use xayax.Prelude.Action.{Action, done, threw, aborted, ◌>>=◌, ◌>>◌, get, put, check}
use xayax.BlockData.{MoveData}

pub record PendingManager (Json : Type 0) : Type 0 where
  pub chainstate_tip : String
  pub notification_tip : String
  pub pendings_queue : List (List (MoveData Json))

-- The manager and the publisher that it refers to.
pub record Shared (Json Zmq : Type 0) : Type 0 where
  pub manager : PendingManager Json
  pub zmq : Zmq

abbrev pub init : {Json : Type 0} → PendingManager Json
init = record { chainstate_tip = ""; notification_tip = ""; pendings_queue = [] }

abbrev no_queue {ℓ} : {A : Type ℓ} → List A → Bool
no_queue [] = true
no_queue (x ∷ xs) = false

module _ {Json Zmq : Type 0} (send : List (MoveData Json) → Action Zmq (Unit {0})) where
  -- zmq.SendPendingMoves (moves)
  unfoldable pub send_moves : List (MoveData Json) → Action (Shared Json Zmq) (Unit {0})
  send_moves moves s = elim (send moves s.zmq) [
    | done _ z ↦ done tt (record s { zmq = z })
    | threw z ↦ threw (record s { zmq = z })
    | aborted ↦ aborted
  ]

  unfoldable pub send_all : List (List (MoveData Json)) → Action (Shared Json Zmq) (Unit {0})
  unfolding send_moves
  send_all [] s = done tt s
  send_all (mv ∷ queue) s = (send_moves mv >> send_all queue) s

abbrev pub modify :
    {Json Zmq : Type 0}
    → (PendingManager Json → PendingManager Json)
    → Action (Shared Json Zmq) (Unit {0})
modify f s = done tt (record s { manager = f s.manager })

module _ {Json Zmq : Type 0} (send : List (MoveData Json) → Action Zmq (Unit {0})) where
  unfoldable pub tip_changed : String → Action (Shared Json Zmq) (Unit {0})
  tip_changed tip = do
    modify (λ m. record m { pendings_queue = []; notification_tip = tip })
    check (not (is_empty tip))

  unfoldable pub pending_moves : List (MoveData Json) → Action (Shared Json Zmq) (Unit {0})
  pending_moves moves = do
    s ← get
    let m = s.manager
    if is_empty m.chainstate_tip
        then put s
        else if same m.chainstate_tip m.notification_tip
        then (check (no_queue m.pendings_queue) >> send_moves send moves)
        else modify (λ m'. record m' { pendings_queue = m'.pendings_queue ++ moves ∷ [] })

  unfoldable pub chainstate_tip_changed : String → Action (Shared Json Zmq) (Unit {0})
  chainstate_tip_changed new_tip = do
    modify (λ m. record m { chainstate_tip = new_tip })
    check (not (is_empty new_tip))
    s ← get
    if same s.manager.chainstate_tip s.manager.notification_tip
        then (send_all send s.manager.pendings_queue
            >> modify (λ m. record m { pendings_queue = [] }))
        else put s
