-- ===== src/Tests/Publishing.antt =====
-- Instances for the publisher and the RPC methods.
use xayax.Prelude.{
  All, true, inr, false, last?, ◌∷◌, inl, none, ◌+◌, ◌%◌, ◌^◌, ◌<◌, ◌≡◌, refl, arith, ite, String,
  List, [], some, minus_one, negsuc,
}
use xayax.Prelude.Texts.{str_discrete}
use xayax.Prelude.Maps.{lookup}
use xayax.Prelude.Action.{bind, done, aborted, Post}
use xayax.Chainstate.Methods.{empty}
use xayax.Pending.{init}
use xayax.ZmqPub.{ZmqPub, Part}
use xayax.ZmqPub.Games.{add, apply, IsCounted, depth, counted, apply-counted}
use xayax.ZmqPub.Messages.{send_message}
use xayax.ZmqPub.Sequence.{seq_of, send_message-seq_of}
use xayax.Controller.Answers.{Server, Verified, result}
use xayax.Controller.Rpc.{getblockhash, verifymessage}
use xayax.Controller.Replies.{Says, getblockhash_negative, verifymessage-verdict}
use xayax.BlockData.{BlockData}
use xayax.Controller.Push.{push_given}
use xayax.Controller.Steps.{ForkPoint, ends_at_parent, send_attaches}
use xayax.Controller.Attaching.{above, push_given-above}
use xayax.ZmqPub.Moves.{per_tx_data}
use xayax.ZmqPub.Blocks.{sort_moves}
use xayax.ZmqPub.Routing.{IsReadable, extended, moves_of, commands_of, sort_moves-extended}
use xayax.Tests.Fixtures.{
  a_command, js_member, js_number, js_text, js_object, genesis, fork, Js, js, js_null, open_socket,
  honest, by_hash,
}

abbrev publisher : ZmqPub (List Part)
publisher = record { next_seq = []; games = []; wire = [] }

publisher-IsCounted : IsCounted publisher
unfolding lookup
publisher-IsCounted g e = cc

publisher-depth : (g : String) → depth g publisher + 1 < 2 ^ 64
unfolding lookup
publisher-depth g = omega arith

apply-counted_example :
    (z' : ZmqPub (List Part)) × (apply (add "mv") publisher ≡ done tt z')
    × (z'.next_seq ≡ publisher.next_seq)
    × (z'.wire ≡ publisher.wire)
    × IsCounted z'
    × ((g : String) → depth g z' ≡ counted (add "mv") g (depth g publisher))
apply-counted_example = apply-counted (add "mv") publisher publisher-IsCounted publisher-depth

send_message-seq_of_example :
    Post
      (λ _ z'.
        (seq_of js open_socket "cmd" z'
          ≡ ite
              (str_discrete "cmd" "cmd")
              ((seq_of js open_socket "cmd" publisher + 1) % 2 ^ 32)
              (seq_of js open_socket "cmd" publisher))
        × (z'.games ≡ publisher.games))
      (λ z'.
        (seq_of js open_socket "cmd" z' ≡ seq_of js open_socket "cmd" publisher)
        × (z'.games ≡ publisher.games))
      (Unit {0})
      (send_message js open_socket "cmd" js_null publisher)
send_message-seq_of_example = send_message-seq_of js open_socket "cmd" "cmd" js_null publisher

abbrev server : Server Js (Unit {0}) (List Part)
server = record {
  run = record { base = tt; chain = empty; env = record { zmq = publisher; pendings = init } };
  requests = 0;
  cached_chain = "";
  cached_version = minus_one;
}

getblockhash_negative_example :
    getblockhash by_hash honest js open_socket (negsuc 0) server ≡ aborted
getblockhash_negative_example =
    getblockhash_negative by_hash honest js open_socket 0 server (omega arith)

verifymessage-verdict_example :
    (v : Verified) × (s' : Server Js (Unit {0}) (List Part)) × (verifymessage by_hash honest js
        open_socket some "addr" "msg" "raw" server
      ≡ done (result v) s')
    × Says "addr" (some "signer") v
verifymessage-verdict_example =
    verifymessage-verdict by_hash honest js open_socket some "addr" "msg" "raw" "raw"
      (some "signer") server tt refl refl

abbrev at_genesis : ForkPoint
at_genesis = record { height = 0; hash = "genesis" }

abbrev attached : List (BlockData Js)
attached = genesis ∷ fork ∷ []

nothing_detached : ends_at_parent by_hash honest js open_socket (last? attached) none ≡ false
unfolding ends_at_parent
nothing_detached = refl

push_given-above_example :
    push_given by_hash honest js open_socket "" at_genesis attached [] server.run
    ≡ bind
        (send_attaches by_hash honest js open_socket "" (above at_genesis attached) server.run)
        (λ _ s'. done (record { ok = true; detach = []; queried_attach = [] }) s')
push_given-above_example =
    push_given-above by_hash honest js open_socket "" at_genesis attached [] server.run
      nothing_detached ((λ h. absurd (omega arith)), ((λ h. refl), tt)) (inr (inl refl))

commands-IsReadable : All (IsReadable js open_socket) (a_command ∷ [])
unfolding per_tx_data str_discrete
commands-IsReadable = ((_, refl), tt)

sort_moves-extended_example :
    (moves' : List (String × List Js)) × (admin' : List (String × List Js)) × (sort_moves js
        open_socket
        (a_command ∷ [])
        (("domob", []) ∷ [])
        (("domob", []) ∷ [])
      ≡ some (moves', admin'))
    × ((g : String)
        → lookup g moves'
          ≡ extended (moves_of js open_socket g (a_command ∷ [])) (lookup g (("domob", []) ∷ [])))
    × ((g : String)
        → lookup g admin'
          ≡ extended
              (commands_of js open_socket g (a_command ∷ []))
              (lookup g (("domob", []) ∷ [])))
sort_moves-extended_example =
    sort_moves-extended js open_socket (a_command ∷ []) (("domob", []) ∷ []) (("domob", []) ∷ [])
      commands-IsReadable

command_of_domob :
    commands_of js open_socket "domob" (a_command ∷ [])
    ≡ js_member "burnt"
        (js_number 0)
        (js_member "cmd" (js_number 0) (js_member "txid" (js_text "txid") js_object))
      ∷ []
unfolding per_tx_data str_discrete lookup
command_of_domob = refl
