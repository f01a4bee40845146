-- ===== src/Tests/Utils.antt =====
-- Instances for the RPC utilities and the serialisation of blocks.
use xayax.Prelude.{◌≡◌, refl, String, [], ◌∷◌, none, some, ite}
use xayax.Prelude.Texts.{str_discrete}
use xayax.Prelude.Maps.{emplace}
use xayax.BlockData.{BlockData, MoveData, ReadsBack}
use xayax.Serialisation.{BlockMessage, Formats, serialise, deserialise, block_codec}
use xayax.Serialisation.RoundTrip.{ParsesBack, block_codec-ReadsBack}
use xayax.Tests.Fixtures.{Js, js, js_object, genesis, a_move}
use xayax.RpcUtils.{find, parse_from, parse_rpc_headers}
use xayax.RpcUtils.Reading.{segments, read_segments, parse_rpc_headers-read_segments}

-- The rest from the first segment without an equals sign is ignored.
parsed : parse_rpc_headers "foo=bar;abc=;wrong;x=y" ≡ some (("abc", "") ∷ ("foo", "bar") ∷ [])
unfolding parse_rpc_headers parse_from find str_discrete emplace
parsed = refl

parse_rpc_headers-read_segments_example :
    parse_rpc_headers "foo=bar;abc=" ≡ some (read_segments (segments "foo=bar;abc=") [])
parse_rpc_headers-read_segments_example = parse_rpc_headers-read_segments "foo=bar;abc="

-- A move that burns for two games.
abbrev burner : MoveData Js
burner = record a_move { burns = ("a", js_object) ∷ ("b", js_object) ∷ [] }

abbrev burn_block : BlockData Js
burn_block = record genesis {
  metadata = js_object;
  moves = record burner { metadata = js_object } ∷ [];
}

abbrev burn_message : BlockMessage
burn_message = record {
  hash = "genesis";
  parent = "nothing";
  height = 0;
  rngseed = "seed";
  metadata = "{}";
  moves =
      record {
        txid = "txid";
        ns = "p";
        name = "domob";
        mv = "{}";
        burns = ("a", "{}") ∷ ("b", "{}") ∷ [];
        metadata = "{}";
      }
      ∷ [];
}

abbrev formats : Formats Js
formats = record {
  write_string = js.write;
  parse_from_stream = js.parse;
  serialize_to_string = λ m. m.hash;
  parse_from_string = λ bytes. ite (str_discrete bytes "genesis") (some burn_message) none;
}

reads_object : js.parse "{}" ≡ some js_object
unfolding str_discrete
reads_object = refl

parses_back : ParsesBack formats burn_message
unfolding str_discrete
parses_back = refl

block_codec-ReadsBack_example :
    ((bytes : String) × (serialise formats burn_block ≡ some bytes)
      × (deserialise formats bytes ≡ some burn_block))
    × ReadsBack (block_codec formats) burn_block
block_codec-ReadsBack_example =
    block_codec-ReadsBack formats burn_block parses_back reads_object
      ((((refl, tt), (tt, tt)), (reads_object, (reads_object, tt)), reads_object), tt)
