-- ===== src/RpcUtils.antt =====
-- ParseRpcHeaders of src/rpcutils.cpp: the headers for a JSON-RPC client in a text such as
-- "key=value;key=value".
use Prim.Native.Char.{Char, code}
use Prim.Native.String.{count}
use xayax.Prelude.{ℕ, zero, suc, String, List, [], Option, none, some, ◌==◌, if◌then◌else◌}
use xayax.Prelude.Texts.{is_empty}
use xayax.Prelude.Maps.{emplace}
pub mod Segments
pub mod Reading

-- str.find (c, pos) in the text from pos on: std::string::npos, or the texts before and after the
-- character.
pub data Found : Type 0 where
  npos : Found
  found : String → String → Found

abbrev pub behind_char : Char → Found → Found
behind_char d npos = npos
behind_char d (found a b) = found (String.◌∷◌ d a) b

unfoldable pub find : ℕ → String → Found
find c String.[] = npos
find c (String.◌∷◌ d s) =
    let rest = find c s in if code d == c then found "" s else behind_char d rest

-- The loop on the text from pos on: `none` if the fuel does not suffice.
unfoldable pub parse_from : ℕ → String → List (String × String) → Option (List (String × String))
unfolding find emplace
parse_from zero s res = none
parse_from (suc fuel) s res = elim (find b'=' s) [
  | npos ↦ some res
  | found key after ↦ elim (find b';' key) [
    | found _ _ ↦ some res
    | npos ↦ elim (find b';' after) [
      | npos ↦ some (emplace key after res)
      | found value rest ↦ parse_from fuel rest (emplace key value res)
    ]
  ]
]

unfoldable pub parse_rpc_headers : String → Option (List (String × String))
unfolding parse_from
parse_rpc_headers str = if is_empty str then some [] else parse_from (suc (count str)) str []
