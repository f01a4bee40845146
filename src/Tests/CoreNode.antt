-- ===== src/Tests/CoreNode.antt =====
-- A node of Xaya Core with two blocks, for the instances.
use xayax.Prelude.{
  ℕ, zero, suc, ◌+◌, ◌≤◌, ◌≡◌, refl, arith, String, Bool, true, false, List, [], ◌∷◌, Option, none,
  some, ite, ℤ, pos, negsuc, minus_one,
}
use xayax.Prelude.Texts.{str_discrete}
use xayax.Prelude.Action.{done}
use xayax.BlockData.{BlockData}
use xayax.Values.{Values, answer, rpc_error}
use xayax.CoreChain.Blocks.{CoreRpc, construct_block_data}
use xayax.CoreChain.Ranges.{Serves}
use xayax.Tests.Fixtures.{
  Js, js, js_null, js_text, js_number, js_object, js_member, js_array, js_element,
}

abbrev pub elements : Js → List Js
elements (js_element v vs) = v ∷ elements vs
elements _ = []

abbrev as_text : Js → Option String
as_text (js_text t) = some t
as_text _ = none

abbrev as_number : Js → Option ℕ
as_number (js_number n) = some n
as_number _ = none

abbrev is_there : Option Js → Bool
is_there none = false
is_there (some v) = true

abbrev or_null : Option Js → Js
or_null none = js_null
or_null (some v) = v

abbrev to_integer : Option ℕ → Option ℤ
to_integer none = none
to_integer (some n) = some (pos n)

abbrev from_integer : ℤ → Js
from_integer (pos n) = js_number n
from_integer (negsuc n) = js_null

-- With natural numbers for doubles.
abbrev pub values : Values Js ℕ
values = record {
  null = js_null;
  is_null = js.is_null;
  is_object = js.is_object;
  is_array = λ v. true;
  is_string = λ v. true;
  is_int64 = λ v. true;
  at = λ k v. some (or_null (js.member? k v));
  is_member = λ k v. is_there (js.member? k v);
  elements = elements;
  as_string = as_text;
  as_uint64 = as_number;
  as_int64 = λ v. to_integer (as_number v);
  as_int = λ v. to_integer (as_number v);
  as_double = as_number;
  as_bool = λ v. some true;
  empty_object = js_object;
  set = js_member;
  array = js.array;
  string = js_text;
  integer = from_integer;
  boolean = λ b. js_null;
  double = js_number;
  zero_double = 0;
  plus = ◌+◌;
}

abbrev pub name_of : ℕ → String
name_of zero = "genesis"
name_of (suc h) = "second"

abbrev parent_of : ℕ → String
parent_of zero = "none"
parent_of (suc h) = "genesis"

abbrev body : ℕ → Js
body h = js_member "hash" (js_text (name_of h)) (
    js_member "previousblockhash" (js_text (parent_of h)) (
      js_member "height" (js_number h) (
        js_member "rngseed" (js_text "seed") (
          js_member "time" (js_number 1)
            (js_member "mediantime" (js_number 2) (js_member "tx" js_array js_object))))))

abbrev pub block : ℕ → BlockData Js
block h = record {
  hash = name_of h;
  parent = parent_of h;
  height = h;
  rngseed = "seed";
  metadata = js_member "mediantime" (js_number 2) (js_member "timestamp" (js_number 1) js_object);
  moves = [];
}

abbrev info : Js
info = js_member "blocks" (js_number 1) (js_member "bestblockhash" (js_text "second") js_object)

-- A node with two blocks.
abbrev pub rpc : CoreRpc Js (Unit {0})
rpc = record {
  getzmqnotifications = done (answer js_array);
  getnetworkinfo = done (answer js_object);
  getblockchaininfo = done (answer info);
  getblockhash = λ h. done (answer (name_of h));
  getblock = λ hash. done (
      ite (str_discrete hash "genesis") (answer (body 0))
        (ite (str_discrete hash "second") (answer (body 1)) (rpc_error minus_one)));
  getblockheader = λ hash. done (rpc_error minus_one);
  getrawmempool = done (answer js_array);
  verifymessage = λ m s. done (rpc_error minus_one);
  decoderawtransaction = λ t. done (rpc_error minus_one);
}

pub parsed : (h : ℕ) → h ≤ 1 → construct_block_data values some (body h) tt ≡ done (block h) tt
unfolding construct_block_data str_discrete
parsed zero i = refl
parsed (suc zero) i = refl
parsed (suc (suc h)) i = absurd (omega arith)

bodies : (h : ℕ) → h ≤ 1 → rpc.getblock (block h).hash tt ≡ done (answer (body h)) tt
unfolding str_discrete
bodies zero i = refl
bodies (suc zero) i = refl
bodies (suc (suc h)) i = absurd (omega arith)

linked : (h : ℕ) → suc h ≤ 1 → (block (suc h)).parent ≡ (block h).hash
linked zero i = refl
linked (suc h) i = absurd (omega arith)

pub node : Serves values some rpc tt block 1
unfolding str_discrete
node = record {
  info = info;
  gives_info = refl;
  blocks = refl;
  best = refl;
  hashes = λ h i. refl;
  json = body;
  bodies = bodies;
  parsed = parsed;
  heights = λ h i. refl;
  linked = linked;
}
