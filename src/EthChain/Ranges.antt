-- ===== src/EthChain/Ranges.antt =====
-- EthChain::TryBlockRange and EthChain::GetBlockRange of eth/ethchain.cpp.
use xayax.Prelude.{
  ℕ, zero, suc, ◌+◌, ◌-◌, ◌%◌, String, Bool, List, [], ◌∷◌, ◌++◌, Option, none, some, ltb, leb,
  ◌==◌, if◌then◌else◌, ℤ, pos, negsuc, u64_mod, last?, min,
}
use xayax.Prelude.Texts.{same}
use xayax.Prelude.Action.{Action, ◌>>=◌, ◌>>◌, pure, abort, check, checked}
use xayax.BlockData.{BlockData}
use xayax.Values.{Values, Answer, answer, rpc_error, called}
use xayax.EthChain.Logs.{EthUtils, extract_base_data}
use xayax.EthChain.Blocks.{EthRpc, add_moves_one_by_one, add_moves_from_height_range}

module _ {A World : Type 0} where
  -- if (!result) return false;
  abbrev pub going_on : Option A → (A → Action World (Option A)) → Action World (Option A)
  going_on none k = pure none
  going_on (some a) k = k a

  -- if (result) return res;
  abbrev pub or_else : Option A → Action World (Option A) → Action World (Option A)
  or_else none k = k
  or_else (some a) k = pure (some a)

module _ {Json Double Decoder World : Type 0} (values : Values Json Double)
    (eth : EthUtils Json Decoder) (rpc : EthRpc Json World) (move_event accounts_contract : String)
    (fast_logs_depth : ℕ) where
  unfoldable pub encode_hex_int : ℕ → String
  encode_hex_int val = eth.hex_int val

  -- The calls of eth_getBlockByNumber, whose last parameter is the JSON value false.
  unfoldable pub block_requests : ℕ → ℕ → List (String × Json)
  unfolding encode_hex_int
  block_requests start zero = []
  block_requests start (suc n) =
      (
        "eth_getBlockByNumber",
        values.array (values.string (encode_hex_int start) ∷ values.boolean Bool.false ∷ []),
      )
      ∷ block_requests (suc start) n

  -- The checks of a block against those before it: false where it does not join up.
  unfoldable pub joins_up : ℕ → BlockData Json → Option (BlockData Json) → Action World Bool
  joins_up start blk none = check (blk.height == start) >> pure Bool.true
  joins_up start blk (some back) =
      check (blk.height == (back.height + 1) % u64_mod) >> pure (same blk.parent back.hash)

  -- A round of the loop over the responses: `none` is the result false.
  unfoldable pub take_entry :
      ℕ → Answer Json → List (BlockData Json) → Action World (Option (List (BlockData Json)))
  unfolding extract_base_data joins_up
  take_entry start (rpc_error c) res = abort
  take_entry start (answer val) res = if values.is_null val then pure none else do
    blk ← extract_base_data values eth val
    joins ← joins_up start blk (last? res)
    pure (if joins then some (res ++ blk ∷ []) else none)

  -- The loop from an index on.
  unfoldable pub take_blocks :
      ℕ
      → (ℕ → Answer Json)
      → ℕ
      → ℕ
      → List (BlockData Json)
      → Action World (Option (List (BlockData Json)))
  unfolding take_entry
  take_blocks start resp i zero res = pure (some res)
  take_blocks start resp i (suc n) res = do
    taken ← take_entry start (resp i) res
    going_on taken (take_blocks start resp (suc i) n)

  unfoldable pub add_moves :
      ℕ → ℕ → List (BlockData Json) → Action World (Option (List (BlockData Json)))
  unfolding add_moves_from_height_range add_moves_one_by_one
  add_moves end_height tip_height res =
      if ltb (end_height + fast_logs_depth) tip_height
      then (do
        res' ← add_moves_from_height_range values eth rpc move_event accounts_contract res
        pure (some res'))
      else add_moves_one_by_one values eth rpc move_event accounts_contract res

  -- The blocks with their moves, after those without.
  unfoldable pub finish_range :
      ℕ → ℕ → Option (List (BlockData Json)) → Action World (Option (List (BlockData Json)))
  unfolding add_moves
  finish_range end_height tip_height none = pure none
  finish_range end_height tip_height (some res) = do
    back ← checked (last? res)
    check (back.height == end_height)
    add_moves end_height tip_height res

  -- With the end height that is not above the tip.
  unfoldable pub query_range : ℕ → ℕ → ℕ → Action World (Option (List (BlockData Json)))
  unfolding take_blocks block_requests finish_range
  query_range start end_height tip_height = if ltb end_height start then pure (some []) else do
    resp ← called (rpc.call_procedures (block_requests start (end_height + 1 - start)))
    taken ← take_blocks start resp 0 (end_height + 1 - start) []
    finish_range end_height tip_height taken

  -- With the height of the tip as int64_t.
  unfoldable pub query_below : ℕ → ℕ → ℤ → Action World (Option (List (BlockData Json)))
  unfolding query_range
  query_below start end_height (negsuc n) = pure (some [])
  query_below start end_height (pos tip) = query_range start (min end_height tip) tip

  unfoldable pub try_block_range : ℕ → ℕ → Action World (Option (List (BlockData Json)))
  unfolding query_below
  try_block_range start end_height = do
    block_number ← called rpc.eth_block_number
    tip_height ← checked (eth.parse_int block_number)
    query_below start end_height tip_height

  -- Tries again until the data is consistent: `none` if the fuel does not suffice.
  unfoldable pub try_again : ℕ → ℕ → ℕ → Action World (Option (List (BlockData Json)))
  unfolding try_block_range
  try_again zero start end_height = pure none
  try_again (suc fuel) start end_height =
      let again = try_again fuel start end_height in
      do res ← try_block_range start end_height; or_else res again

  unfoldable pub get_block_range : ℕ → ℕ → ℕ → Action World (Option (List (BlockData Json)))
  unfolding try_again
  get_block_range fuel start count = if count == 0 then pure (some []) else do
    check (leb start ((start + count - 1) % u64_mod))
    try_again fuel start ((start + count - 1) % u64_mod)
