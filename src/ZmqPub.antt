-- ===== src/ZmqPub.antt =====
-- src/zmqpub.cpp and src/private/zmqpub.hpp: the publisher. The sockets of ZMQ and the JSON values of
-- jsoncpp are not part of the repository, and enter as the records below.
pub mod Moves
pub mod Messages
pub mod Blocks
pub mod Games
pub mod Sequence
pub mod Routing
pub mod Announcing
use xayax.Prelude.{ℕ, String, Bool, List, Option}
use xayax.Prelude.Action.{Action}

-- What the code uses of Json::Value, and of UniValue when it parses a move.
pub record JsonLib (Json : Type 0) : Type 0 where
  pub empty_object : Json
  pub is_null : Json → Bool
  pub is_object : Json → Bool
  -- val["key"] = ..., and reading; a missing member reads as null
  pub set : String → Json → Json → Json
  pub member? : String → Json → Option Json
  pub null : Json
  -- the members of an object, in the order of their names
  pub members : Json → List (String × Json)
  pub string : String → Json
  pub int : ℕ → Json
  pub array : List Json → Json
  -- UniValue::read, isObject and write in a row
  pub filter_object : String → Option String
  -- Json::parseFromStream, which rejects comments, rests and duplicate keys
  pub parse : String → Option Json
  -- Json::writeString on one line
  pub write : Json → String

-- A part of a ZMQ message.
pub data Part : Type 0 where
  text : String → Part
  bytes : List ℕ → Part

-- zmq::socket_t::send of one part, with whether more follow: the result false is EAGAIN, and other
-- errors throw.
pub record Socket (Wire : Type 0) : Type 0 where
  pub send : Part → Bool → Action Wire Bool

pub record ZmqPub (Wire : Type 0) : Type 0 where
  pub next_seq : List (String × ℕ)
  pub games : List (String × ℕ)
  pub wire : Wire
