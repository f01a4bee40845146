-- ===== src/Tests/Joining.antt =====
-- An instance for the blocks that are asked of the Xaya Core client: `second` goes onto `genesis`.
use xayax.Prelude.{ℕ, List, [], ◌∷◌, none, some, length, ◌≡◌, refl}
use xayax.Prelude.Texts.{str_discrete}
use xayax.Prelude.Action.{Post, Outcome, done, threw, aborted}
use xayax.Chainstate.Methods.{Chainstate}
use xayax.Chainstate.Ops.{get_lowest_unpruned_height, get_height_for_hash, get_tip_height}
use xayax.Chainstate.Fork.{get_fork_branch}
use xayax.ZmqPub.Blocks.{send_block_attach}
use xayax.Pending.{init}
use xayax.ZmqPub.{Part}
use xayax.Controller.{Run}
use xayax.Controller.Push.{push_zmq_blocks}
use xayax.Controller.Steps.{Pushed}
use xayax.Controller.Joining.{detached_to, JoinsUp, push_zmq_blocks-JoinsUp}
use xayax.CoreChain.Client.{core_chain}
use xayax.CoreChain.Joining.{core_chain-GivesLinked}
use xayax.CoreChain.Listening.{CoreChain}
use xayax.BaseChain.{BaseChain}
use xayax.Tests.Fixtures.{Js, js, by_hash, open_socket}
use xayax.Tests.CoreNode.{values, rpc}
use xayax.Tests.Core.{asked, callbacks}

abbrev client : BaseChain Js (CoreChain Js (Unit {0}) (Unit {0}))
client = core_chain values some (λ t. t) (λ t. t) rpc callbacks 5

abbrev two_blocks : Chainstate
two_blocks = record {
  contents = record {
    blocks =
        record { hash = "genesis"; parent = "none"; height = 0; branch = 0; blob = "genesis" }
        ∷ record { hash = "second"; parent = "genesis"; height = 1; branch = 0; blob = "second" }
        ∷ [];
    chain = none;
  };
  savepoints = [];
}

abbrev started : Run Js (CoreChain Js (Unit {0}) (Unit {0})) (List Part)
started = record {
  base = record { node = tt; env = tt; callbacks = none; listeners = [] };
  chain = two_blocks;
  env = record { zmq = record { next_seq = []; games = []; wire = [] }; pendings = init };
}

push_zmq_blocks-JoinsUp_example :
    Post
      (λ p _. JoinsUp (detached_to "genesis" p.detach) p.queried_attach)
      (λ _. Unit {0})
      (Unit {0})
      (push_zmq_blocks by_hash client js open_socket "genesis" "" [] 5 "" started)
push_zmq_blocks-JoinsUp_example =
    push_zmq_blocks-JoinsUp by_hash client js open_socket "genesis" "" [] 5 "" started
      (core_chain-GivesLinked values some (λ t. t) (λ t. t) rpc callbacks 5 asked)

abbrev queried : Outcome (Run Js (CoreChain Js (Unit {0}) (Unit {0})) (List Part)) (Pushed Js) → ℕ
queried (done p s) = length p.queried_attach
queried (threw s) = 0
queried aborted = 0

one_queried :
    queried (push_zmq_blocks by_hash client js open_socket "genesis" "" [] 5 "" started) ≡ 1
unfolding push_zmq_blocks core_chain str_discrete get_lowest_unpruned_height get_fork_branch
    get_height_for_hash get_tip_height send_block_attach
one_queried = refl
