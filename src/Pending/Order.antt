-- ===== src/Pending/Order.antt =====
-- The invariant of the pending manager.
use xayax.Prelude.{String, List, [], ◌∷◌, ◌≡◌, ◌≢◌, refl, arith}
use xayax.Prelude.Action.{Action, done, ◌>>◌, After, After-bind}
use xayax.BlockData.{MoveData}
use xayax.Pending.{
  PendingManager, Shared, init, send_moves, tip_changed, pending_moves, chainstate_tip_changed,
}

-- Moves wait in the queue only before the chainstate has caught up, and never before its first tip.
pub record IsSettled (Json : Type 0) (m : PendingManager Json) : Type 0 where
  pub caught_up : m.chainstate_tip ≡ m.notification_tip → m.pendings_queue ≡ []
  pub before_first : m.chainstate_tip ≡ "" → m.pendings_queue ≡ []

module _ {Json Zmq : Type 0} (send : List (MoveData Json) → Action Zmq (Unit {0})) where
  tip_changed-IsSettled :
      (tip : String) (s : Shared Json Zmq)
      → After (λ s'. IsSettled Json s'.manager) (tip_changed send tip s)
  unfolding tip_changed
  tip_changed-IsSettled tip s = ground arith

  pending_moves-IsSettled :
      (moves : List (MoveData Json)) (s : Shared Json Zmq)
      → IsSettled Json s.manager
      → After (λ s'. IsSettled Json s'.manager) (pending_moves send moves s)
  unfolding pending_moves send_moves
  pending_moves-IsSettled moves s v = ground arith

  chainstate_tip_changed-IsSettled :
      (tip : String) (s : Shared Json Zmq)
      → IsSettled Json s.manager
      → After (λ s'. IsSettled Json s'.manager) (chainstate_tip_changed send tip s)
  unfolding chainstate_tip_changed
  chainstate_tip_changed-IsSettled tip s v = ground arith

-- One notification to the manager.
pub data Call (Json : Type 0) : Type 0 where
  tip : String → Call Json
  moves : List (MoveData Json) → Call Json
  chainstate : String → Call Json

-- The notifications carry a tip's hash, which is not empty.
abbrev pub HasTip : {Json : Type 0} → Call Json → Type 0
HasTip (tip t) = t ≢ ""
HasTip (moves ms) = Unit {0}
HasTip (chainstate t) = t ≢ ""

module _ {Json Zmq : Type 0} (send : List (MoveData Json) → Action Zmq (Unit {0})) where
  unfoldable pub step : Call Json → Action (Shared Json Zmq) (Unit {0})
  step (tip t) = tip_changed send t
  step (moves ms) = pending_moves send ms
  step (chainstate t) = chainstate_tip_changed send t

  unfoldable pub run : List (Call Json) → Action (Shared Json Zmq) (Unit {0})
  run [] s = done tt s
  run (c ∷ cs) s = (step c >> run cs) s

  step-IsSettled :
      (c : Call Json) (s : Shared Json Zmq)
      → IsSettled Json s.manager
      → After (λ s'. IsSettled Json s'.manager) (step c s)
  unfolding step
  step-IsSettled (tip t) s v = tip_changed-IsSettled send t s
  step-IsSettled (moves ms) s v = pending_moves-IsSettled send ms s v
  step-IsSettled (chainstate t) s v = chainstate_tip_changed-IsSettled send t s v

  run_from-IsSettled :
      (cs : List (Call Json)) (s : Shared Json Zmq)
      → IsSettled Json s.manager
      → After (λ s'. IsSettled Json s'.manager) (run cs s)
  unfolding run
  run_from-IsSettled [] s v = v
  run_from-IsSettled (c ∷ cs) s v =
      After-bind (λ s'. IsSettled Json s'.manager) (λ s'. IsSettled Json s'.manager) (step c s)
        (λ _. run cs) (step-IsSettled c s v) (λ _ s' w. run_from-IsSettled cs s' w)

  -- Whatever notifications arrive after the start, if all are handled and return, the queue is empty
  -- if the chainstate's tip is the one notified last, or if the chainstate has no tip yet.
  pub run-IsSettled :
      (cs : List (Call Json)) (z : Zmq)
      → After (λ s'. IsSettled Json s'.manager) (run cs (record { manager = init; zmq = z }))
  run-IsSettled cs z =
      run_from-IsSettled cs _ (record { caught_up = λ e. refl; before_first = λ e. refl })

-- Notifications of pending moves in a row.
abbrev pub queueing : {Json : Type 0} → List (List (MoveData Json)) → List (Call Json)
queueing [] = []
queueing (ms ∷ mss) = moves ms ∷ queueing mss
