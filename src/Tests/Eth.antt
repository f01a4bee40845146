-- ===== src/Tests/Eth.antt =====
-- Instances for the Ethereum client.
use xayax.Prelude.{ℕ, zero, suc, ◌≡◌, refl, [], ◌∷◌, none, some, pos}
use xayax.Prelude.Texts.{str_discrete}
use xayax.Prelude.Action.{Post, done}
use xayax.BlockData.{IsRange}
use xayax.Values.{Answer, answer}
use xayax.EthChain.Mempool.{Mempool, settle_all, settle, erase_txid}
use xayax.EthChain.Pool.{Leaves, IsGone, settle_all-Leaves}
use xayax.EthChain.Logs.{EthUtils, extract_base_data, unprefixed, to_uint64, convert_uint256}
use xayax.EthChain.Blocks.{EthRpc, add_from, add_entry, process_logs, add_moves_one_by_one}
use xayax.EthChain.Ranges.{
  get_block_range, try_again, try_block_range, query_below, query_range, take_blocks, take_entry,
  joins_up, finish_range, add_moves,
}
use xayax.EthChain.Linking.{eth_range-IsRange}
use xayax.Tests.Fixtures.{Js, js_null, js_text, js_object, js_member}
use xayax.Tests.CoreNode.{values}

-- Every number is 1, and nothing is encoded.
abbrev eth : EthUtils Js (Unit {0})
eth = record {
  parse_int = λ t. some (pos 1);
  decoder = λ t. tt;
  read_string = λ d. some ("text", tt);
  read_uint = λ bits d. some ("1", tt);
  read_array = λ d. some (0, tt);
  read_dynamic = λ d. some (tt, tt);
  get_all_data_read = λ d. "0x";
  address = λ t. some (t, t);
  unhexlify = some;
  hexlify = λ t. t;
  keccak256 = λ t. t;
  with_decimals = λ n. js_null;
  verify_message = λ m s. none;
  hex_int = λ n. "1";
  decimal = λ n. "1";
}

abbrev eth_block : Js
eth_block = js_member "hash" (js_text "0xbb") (
    js_member "parentHash" (js_text "0xaa")
      (js_member "number" (js_text "0x1") (js_member "timestamp" (js_text "0x1") js_object)))

-- A node with a block of height 1, and without logs.
abbrev rpc : EthRpc Js (Unit {0})
rpc = record {
  web3_client_version = done (answer "node");
  eth_chain_id = done (answer "0x1");
  eth_block_number = done (answer "0x1");
  eth_get_block_by_hash = λ hash. done (answer eth_block);
  eth_get_block_by_number = λ number. done (answer eth_block);
  eth_get_transaction_by_hash = λ txid. done (answer js_null);
  eth_get_logs = λ options. done (answer js_null);
  eth_call = λ tx overlay. done (answer "0x");
  call_procedures = λ calls. done (answer (λ i. answer eth_block));
}

eth_range-IsRange_example :
    Post
      (λ r _. IsRange 1 r)
      (λ _. Unit {0})
      (Unit {0})
      (get_block_range values eth rpc "event" "contract" 10 3 1 5 tt)
eth_range-IsRange_example = eth_range-IsRange values eth rpc "event" "contract" 10 1 3 5 tt

one_block :
    get_block_range values eth rpc "event" "contract" 10 3 1 5 tt
    ≡ done
        (some (
          record {
            hash = "bb";
            parent = "aa";
            height = 1;
            rngseed = "bb";
            metadata = js_member "timestamp" (values.integer (pos 1)) js_object;
            moves = [];
          }
          ∷ []))
        tt
unfolding get_block_range try_again try_block_range query_below query_range take_blocks take_entry
    joins_up finish_range add_moves add_moves_one_by_one add_from add_entry process_logs
    extract_base_data unprefixed to_uint64 convert_uint256 str_discrete
one_block = refl

abbrev pool : Mempool (Unit {0})
pool = record { node = tt; pool = "a" ∷ "b" ∷ "c" ∷ [] }

abbrev answers_json : Js
answers_json = js_member "hash" (js_text "0xb") js_object

-- The node does not know the first transaction, and the second is pending.
abbrev answers : ℕ → Answer Js
answers zero = answer js_null
answers (suc i) = answer answers_json

settle_all-Leaves_example :
    Post
      (λ _ m'.
        Leaves values eth rpc (IsGone values eth rpc answers 0 ("a" ∷ "b" ∷ [])) pool.pool m'.pool)
      (λ _. Unit {0})
      (Unit {0})
      (settle_all values eth rpc answers 0 ("a" ∷ "b" ∷ []) pool)
settle_all-Leaves_example = settle_all-Leaves values eth rpc answers 0 ("a" ∷ "b" ∷ []) pool

still_pending :
    settle_all values eth rpc answers 0 ("a" ∷ "b" ∷ []) pool
    ≡ done (answers_json ∷ []) (record { node = tt; pool = "b" ∷ "c" ∷ [] })
unfolding settle_all settle erase_txid str_discrete
still_pending = refl
