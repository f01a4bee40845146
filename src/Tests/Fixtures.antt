-- ===== src/Tests/Fixtures.antt =====
-- JSON values, a publisher that records what it is given, and a base chain, for the instances.
use xayax.Prelude.{
  ℕ, zero, suc, String, Bool, true, false, List, [], ◌∷◌, ◌++◌, Option, none, some, pos, ite,
}
use xayax.Prelude.Texts.{str_discrete}
use xayax.Prelude.Action.{done}
use xayax.BlockData.{BlockData, MoveData, Codec}
use xayax.BaseChain.{BaseChain}
use xayax.ZmqPub.{JsonLib, Part, Socket}

-- An object is a list of members, an array a list of elements.
pub data Js : Type 0 where
  js_null : Js
  js_text : String → Js
  js_number : ℕ → Js
  js_object : Js
  js_member : String → Js → Js → Js
  js_array : Js
  js_element : Js → Js → Js

abbrev is_object : Js → Bool
is_object js_object = true
is_object (js_member k v j) = true
is_object _ = false

abbrev is_null : Js → Bool
is_null js_null = true
is_null _ = false

abbrev member? : String → Js → Option Js
member? k (js_member j v rest) = ite (str_discrete j k) (some v) (member? k rest)
member? k _ = none

abbrev members : Js → List (String × Js)
members (js_member k v rest) = (k, v) ∷ members rest
members _ = []

abbrev array : List Js → Js
array [] = js_array
array (v ∷ vs) = js_element v (array vs)

-- Three texts parse.
abbrev parse_text : String → Option Js
parse_text t = ite (str_discrete t "{}") (some js_object) (
    ite (str_discrete t "{\"cmd\":0}") (some (js_member "cmd" (js_number 0) js_object)) (
      ite (str_discrete t "{\"g\":{\"mv\":5}}")
        (some (js_member "g" (js_member "mv" (js_number 5) js_object) js_object)) none))

abbrev pub js : JsonLib Js
js = record {
  empty_object = js_object;
  is_null = is_null;
  is_object = is_object;
  set = js_member;
  member? = member?;
  null = js_null;
  members = members;
  string = js_text;
  int = js_number;
  array = array;
  filter_object = some;
  parse = parse_text;
  write = λ j. "{}";
}

-- A socket that takes every part.
abbrev pub open_socket : Socket (List Part)
open_socket = record { send = λ part more wire. done true (wire ++ part ∷ []) }

-- The chain whose blocks have numbers for heights.
abbrev pub chain_block : ℕ → BlockData Js
chain_block h = record {
  hash = "block";
  parent = "parent";
  height = h;
  rngseed = "seed";
  metadata = js_null;
  moves = [];
}

abbrev pub blocks_from : ℕ → ℕ → List (BlockData Js)
blocks_from start zero = []
blocks_from start (suc n) = chain_block start ∷ blocks_from (suc start) n

-- A client that is always right, and has the tip at height 9.
abbrev pub honest : BaseChain Js (Unit {0})
honest = record {
  set_callbacks = λ c w. done tt w;
  start = λ w. done tt w;
  enable_pending = λ w. done true w;
  get_tip_height = λ w. done 9 w;
  get_block_range = λ start count w. done (blocks_from start count) w;
  get_mainchain_height = λ hash w. done (pos 0) w;
  get_mempool = λ w. done [] w;
  verify_message = λ msg signature w. done (some "signer") w;
  get_chain = λ w. done "regtest" w;
  get_version = λ w. done 1 w;
}

abbrev pub genesis : BlockData Js
genesis = record {
  hash = "genesis";
  parent = "nothing";
  height = 0;
  rngseed = "seed";
  metadata = js_null;
  moves = [];
}

abbrev pub fork : BlockData Js
fork = record genesis { hash = "fork"; parent = "genesis"; height = 1 }

-- A block is written as its hash, and looked up by it.
abbrev pub by_hash : Codec Js
by_hash = record {
  serialise = λ b. b.hash;
  deserialise = λ bytes.
      ite (str_discrete bytes "genesis") (some genesis)
        (ite (str_discrete bytes "fork") (some fork) none);
}

abbrev pub a_move : MoveData Js
a_move = record {
  txid = "txid";
  ns = "p";
  name = "domob";
  mv = "{}";
  burns = [];
  metadata = js_null;
}

abbrev pub a_game_move : MoveData Js
a_game_move = record a_move { mv = "{\"g\":{\"mv\":5}}" }

abbrev pub a_command : MoveData Js
a_command = record a_move { ns = "g"; mv = "{\"cmd\":0}" }
