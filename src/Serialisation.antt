-- ===== src/Serialisation.antt =====
-- BlockData::Serialise and BlockData::Deserialise of src/blockdata.cpp over the messages of
-- src/proto/blockdata.proto, and the two functions of src/jsonutils.cpp. A std::map and the map of a
-- message are association lists in the order of their keys.
use xayax.Prelude.{
  ℕ, ◌≡◌, String, List, [], ◌∷◌, ◌++◌, Option, none, some, ◌==◌, length, u64_mod, ◌<◌,
}
use xayax.Prelude.Checked.{◌>>=◌, ◌>>◌, check}
use xayax.Prelude.Maps.{emplace}
use xayax.BlockData.{BlockData, MoveData, Codec}
pub mod RoundTrip

-- message Move
pub record MoveMessage : Type 0 where
  pub txid : String
  pub ns : String
  pub name : String
  pub mv : String
  pub burns : List (String × String)
  pub metadata : String

-- message Block
pub record BlockMessage : Type 0 where
  pub hash : String
  pub parent : String
  pub height : ℕ
  pub rngseed : String
  pub metadata : String
  pub moves : List MoveMessage

-- What is not part of the repository: Json::writeString with the settings of StoreJson,
-- Json::parseFromStream with those of LoadJson, and the code that protoc generates.
pub record Formats (Json : Type 0) : Type 0 where
  pub write_string : Json → String
  pub parse_from_stream : String → Option Json
  pub serialize_to_string : BlockMessage → String
  pub parse_from_string : String → Option BlockMessage

module _ {Json : Type 0} (formats : Formats Json) where
  unfoldable pub store_json : Json → String
  store_json val = formats.write_string val

  -- `none` is the failed CHECK.
  unfoldable pub load_json : String → Option Json
  load_json str = formats.parse_from_stream str

  unfoldable pub store_burns :
      List (String × Json) → List (String × String) → List (String × String)
  unfolding store_json emplace
  store_burns [] burns = burns
  store_burns ((k, v) ∷ m) burns = store_burns m (emplace k (store_json v) burns)

  unfoldable pub store_move : MoveData Json → Option MoveMessage
  unfolding store_burns store_json
  store_move mv = do
    let burns = store_burns mv.burns []
    check (length burns == length mv.burns)
    some (record {
      txid = mv.txid;
      ns = mv.ns;
      name = mv.name;
      mv = mv.mv;
      burns = burns;
      metadata = store_json mv.metadata;
    })

  unfoldable pub store_moves : List (MoveData Json) → Option (List MoveMessage)
  unfolding store_move
  store_moves [] = some []
  store_moves (mv ∷ mvs) = do m ← store_move mv; ms ← store_moves mvs; some (m ∷ ms)

  unfoldable pub serialise : BlockData Json → Option String
  unfolding store_moves store_json
  serialise b = do
    moves ← store_moves b.moves
    some (
        formats.serialize_to_string (record {
          hash = b.hash;
          parent = b.parent;
          height = b.height;
          rngseed = b.rngseed;
          metadata = store_json b.metadata;
          moves = moves;
        }))

  unfoldable pub load_burns :
      List (String × String) → List (String × Json) → Option (List (String × Json))
  unfolding load_json emplace
  load_burns [] burns = some burns
  load_burns ((k, s) ∷ m) burns = do v ← load_json s; load_burns m (emplace k v burns)

  unfoldable pub load_move : MoveMessage → Option (MoveData Json)
  unfolding load_burns load_json
  load_move m = do
    burns ← load_burns m.burns []
    check (length burns == length m.burns)
    metadata ← load_json m.metadata
    some (record {
      txid = m.txid;
      ns = m.ns;
      name = m.name;
      mv = m.mv;
      burns = burns;
      metadata = metadata;
    })

  unfoldable pub load_moves : List MoveMessage → Option (List (MoveData Json))
  unfolding load_move
  load_moves [] = some []
  load_moves (m ∷ ms) = do mv ← load_move m; mvs ← load_moves ms; some (mv ∷ mvs)

  unfoldable pub deserialise : String → Option (BlockData Json)
  unfolding load_moves load_json
  deserialise bytes = do
    blk ← formats.parse_from_string bytes
    metadata ← load_json blk.metadata
    moves ← load_moves blk.moves
    some (record {
      hash = blk.hash;
      parent = blk.parent;
      height = blk.height;
      rngseed = blk.rngseed;
      metadata = metadata;
      moves = moves;
    })

  abbrev pub written : Option String → String
  written none = ""
  written (some bytes) = bytes

  -- The codec that the chainstate uses.
  unfoldable pub block_codec : Codec Json
  unfolding serialise deserialise
  block_codec = record { serialise = λ b. written (serialise b); deserialise = deserialise }
