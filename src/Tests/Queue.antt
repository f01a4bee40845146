-- ===== src/Tests/Queue.antt =====
-- Instances for the pending moves, with a publisher that keeps a log and one that throws.
use text.Mathlib.TextEquality.{eq_iff}
use xayax.Prelude.{◌≡◌, ◌≢◌, ◌⊎◌, refl, arith, String, List, [], ◌∷◌, ◌++◌}
use xayax.Prelude.Texts.{str_discrete}
use xayax.Prelude.Action.{Action, done, threw, aborted, After, NoAbort}
use xayax.BlockData.{MoveData}
use xayax.Pending.{Shared, init, send_all, chainstate_tip_changed}
use xayax.Pending.Order.{IsSettled, tip, moves, chainstate, queueing, step, run, run-IsSettled}
use xayax.Pending.Sending.{step-NoAbort, step_sends_in_sync, run_queued, flush_throws_aborts}
use xayax.Tests.Fixtures.{Js, a_move}

abbrev Log : Type 0
Log = List (List (MoveData Js))

abbrev logging : List (MoveData Js) → Action Log (Unit {0})
logging ms z = done tt (z ++ ms ∷ [])

abbrev throwing : List (MoveData Js) → Action Log (Unit {0})
throwing ms z = threw z

abbrev one_move : List (MoveData Js)
one_move = a_move ∷ []

-- The chainstate is at "old", and "new" has been notified.
abbrev catching_up : Shared Js Log
catching_up = record {
  manager = record {
    chainstate_tip = "old";
    notification_tip = "new";
    pendings_queue = one_move ∷ [];
  };
  zmq = [];
}

tips_differ :
    (◌≢◌ {A = String} "old" "new") × (◌≢◌ {A = String} "old" "") × (◌≢◌ {A = String} "new" "")
tips_differ = (
  ground (arith, eq_iff "old" "new"),
  ground (arith, eq_iff "old" ""),
  ground (arith, eq_iff "new" ""),
)

catching_up-IsSettled : IsSettled Js catching_up.manager
catching_up-IsSettled = record {
  caught_up = λ e. absurd (tips_differ.0 e);
  before_first = λ e. absurd (tips_differ.1 e);
}

run-IsSettled_example :
    After
      (λ s. IsSettled Js s.manager)
      (run logging
        (chainstate "old" ∷ tip "new" ∷ moves one_move ∷ [])
        (record { manager = init; zmq = [] }))
run-IsSettled_example =
    run-IsSettled logging (chainstate "old" ∷ tip "new" ∷ moves one_move ∷ []) []

step-NoAbort_example : NoAbort (step logging (chainstate "new") catching_up)
step-NoAbort_example =
    step-NoAbort logging (λ ms z. tt) (chainstate "new") catching_up tips_differ.2
      catching_up-IsSettled

step_sends_in_sync_example :
    After
      (λ s'. (s'.zmq ≡ []) ⊎ (s'.manager.chainstate_tip ≡ s'.manager.notification_tip))
      (step logging (chainstate "new") catching_up)
step_sends_in_sync_example = step_sends_in_sync logging (chainstate "new") catching_up

run_queued_example :
    run logging (queueing (one_move ∷ []) ++ chainstate "new" ∷ []) catching_up
    ≡ done tt (record {
      manager = record { chainstate_tip = "new"; notification_tip = "new"; pendings_queue = [] };
      zmq = one_move ∷ one_move ∷ [];
    })
run_queued_example =
    run_queued logging (one_move ∷ []) catching_up tips_differ.1 tips_differ.0 tips_differ.2

abbrev stuck_at_tip : Shared Js Log
stuck_at_tip = record {
  manager = record {
    chainstate_tip = "new";
    notification_tip = "new";
    pendings_queue = one_move ∷ [];
  };
  zmq = [];
}

flush_throws : step throwing (chainstate "new") catching_up ≡ threw stuck_at_tip
unfolding step str_discrete send_all chainstate_tip_changed
flush_throws = refl

flush_throws_aborts_example : step throwing (moves one_move) stuck_at_tip ≡ aborted
flush_throws_aborts_example =
    flush_throws_aborts throwing catching_up stuck_at_tip one_move tips_differ.2 (λ e. cc)
      flush_throws
