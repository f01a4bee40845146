-- ===== src/EthChain/Blocks.antt =====
-- TryBlockRange, the extraction of moves from logs and GetBlockRange of eth/ethchain.cpp. Heights are
-- below 2^63, so that their conversions between uint64_t and int64_t keep them.
use xayax.Prelude.{
  ℕ, suc, ◌+◌, ◌%◌, String, Bool, true, false, List, [], ◌∷◌, ◌++◌, Option, none, some, ◌==◌,
  if◌then◌else◌, ℤ, minus_one, u64_mod, last?, head?,
}
use xayax.Prelude.Texts.{same, concat}
use xayax.Prelude.Action.{Action, ◌>>=◌, ◌>>◌, pure, abort, check, checked}
use xayax.BlockData.{BlockData, MoveData}
use xayax.Values.{Values, Answer, answer, rpc_error, Call, called, reading, field}
use xayax.EthChain.Logs.{EthUtils, convert_uint256, is_later, hash_field, int_field, extract_move}

-- The methods of EthRpcClient that the client calls: stubs that the build generates. A batch call takes
-- the method and the parameters of each call, and gives the answer of the call at each index.
pub record EthRpc (Json World : Type 0) : Type 0 where
  pub web3_client_version : Call World String
  pub eth_chain_id : Call World String
  pub eth_block_number : Call World String
  pub eth_get_block_by_hash : String → Call World Json
  pub eth_get_block_by_number : String → Call World Json
  pub eth_get_transaction_by_hash : String → Call World Json
  pub eth_get_logs : Json → Call World Json
  -- at the block "latest", with an overlay
  pub eth_call : Json → Json → Call World String
  pub call_procedures : List (String × Json) → Call World (ℕ → Answer Json)

-- BlockMoveExtractor: the block and the indices extracted last
abbrev pub Extractor : Type 0 → Type 0
Extractor Json = BlockData Json × (ℤ × ℤ)

module _ {Json : Type 0} where
  abbrev pub extractor : BlockData Json → Extractor Json
  extractor blk = (blk, (minus_one, minus_one))

  abbrev pub extractors : List (BlockData Json) → List (Extractor Json)
  extractors [] = []
  extractors (blk ∷ blks) = extractor blk ∷ extractors blks

  abbrev pub blocks_of : List (Extractor Json) → List (BlockData Json)
  blocks_of [] = []
  blocks_of ((blk, last) ∷ es) = blk ∷ blocks_of es

  -- The block in front of the others, if the rest succeeds.
  abbrev pub put_first :
      BlockData Json → Option (List (BlockData Json)) → Option (List (BlockData Json))
  put_first blk none = none
  put_first blk (some blks) = some (blk ∷ blks)

module _ {Json Double Decoder World : Type 0} (values : Values Json Double)
    (eth : EthUtils Json Decoder) (rpc : EthRpc Json World)
    (move_event accounts_contract : String) where
  unfoldable pub get_logs_options : Json
  get_logs_options =
      values.set "topics" (values.array (values.string move_event ∷ []))
        (values.set "address" (values.string accounts_contract) values.empty_object)

  -- log["topics"][0]
  abbrev pub first_topic : Json → Action World String
  first_topic log = do
    topics ← reading (values.at "topics" log)
    topic ← checked (head? (values.elements topics))
    reading (values.as_string topic)

  -- The move of a log entry with its indices, after the checks.
  unfoldable pub checked_move :
      Json → BlockData Json → ℤ × ℤ → Action World (MoveData Json × (ℤ × ℤ))
  unfolding is_later extract_move convert_uint256
  checked_move log blk last_indices = do
    check (values.is_object log)
    addr ← field values values.as_string "address" log
    (lower, checksummed) ← checked (eth.address addr)
    check (same lower accounts_contract)
    topic ← first_topic log
    check (same topic move_event)
    hash ← hash_field values eth "blockHash" log
    check (same hash blk.hash)
    tx_index ← int_field values eth "transactionIndex" log
    log_index ← int_field values eth "logIndex" log
    check (is_later (tx_index, log_index) last_indices)
    mv ← extract_move values eth log
    pure (mv, (tx_index, log_index))

  unfoldable pub process_log_entry : Json → Extractor Json → Action World (Extractor Json)
  unfolding checked_move
  process_log_entry log (blk, last_indices) = do
    (mv, cur_indices) ← checked_move log blk last_indices
    pure (record blk { moves = blk.moves ++ mv ∷ [] }, cur_indices)

  unfoldable pub process_logs : List Json → Extractor Json → Action World (Extractor Json)
  unfolding process_log_entry
  process_logs [] e = pure e
  process_logs (log ∷ logs) e = do e' ← process_log_entry log e; process_logs logs e'

  -- The parameters of eth_getLogs for a block.
  unfoldable pub logs_request : BlockData Json → String × Json
  unfolding get_logs_options
  logs_request blk = (
    "eth_getLogs",
    values.array
        (values.set "blockHash" (values.string (concat "0x" blk.hash)) get_logs_options ∷ []),
  )

  unfoldable pub logs_requests : List (BlockData Json) → List (String × Json)
  unfolding logs_request
  logs_requests [] = []
  logs_requests (blk ∷ blks) = logs_request blk ∷ logs_requests blks

  -- A round of the loop over the responses, before the rest: `none` is the result false.
  unfoldable pub add_entry :
      Answer Json
      → BlockData Json
      → Action World (Option (List (BlockData Json)))
      → Action World (Option (List (BlockData Json)))
  unfolding process_logs
  add_entry (rpc_error c) blk rest = pure none
  add_entry (answer logs) blk rest = do
    check (values.is_array logs)
    e ← process_logs (values.elements logs) (extractor blk)
    blks ← rest
    pure (put_first e.0 blks)

  unfoldable pub add_from :
      (ℕ → Answer Json) → ℕ → List (BlockData Json) → Action World (Option (List (BlockData Json)))
  unfolding add_entry
  add_from resp i [] = pure (some [])
  add_from resp i (blk ∷ blks) = add_entry (resp i) blk (add_from resp (suc i) blks)

  unfoldable pub add_moves_one_by_one :
      List (BlockData Json) → Action World (Option (List (BlockData Json)))
  unfolding add_from logs_requests
  add_moves_one_by_one blocks = do
    resp ← called (rpc.call_procedures (logs_requests blocks))
    add_from resp 0 blocks

  -- extForHash.find (hash)->second->ProcessLogEntry (l)
  unfoldable pub process_for_hash :
      String → Json → List (Extractor Json) → Action World (List (Extractor Json))
  unfolding process_log_entry
  process_for_hash hash log [] = abort
  process_for_hash hash log ((blk, last) ∷ es) =
      let others = process_for_hash hash log es in
      if same blk.hash hash
      then (do e ← process_log_entry log (blk, last); pure (e ∷ es))
      else do es' ← others; pure ((blk, last) ∷ es')

  unfoldable pub distribute_logs :
      List Json → List (Extractor Json) → Action World (List (Extractor Json))
  unfolding process_for_hash convert_uint256
  distribute_logs [] es = pure es
  distribute_logs (log ∷ logs) es = do
    hash ← hash_field values eth "blockHash" log
    es' ← process_for_hash hash log es
    distribute_logs logs es'

  -- The heights follow one another, as the CHECK in the loop over the blocks says.
  unfoldable pub are_consecutive : List (BlockData Json) → Bool
  are_consecutive [] = true
  are_consecutive (a ∷ []) = true
  are_consecutive (a ∷ b ∷ bs) =
      let rest = are_consecutive (b ∷ bs) in
      if b.height == (a.height + 1) % u64_mod then rest else false

  unfoldable pub add_moves_from_height_range :
      List (BlockData Json) → Action World (List (BlockData Json))
  unfolding distribute_logs get_logs_options are_consecutive
  add_moves_from_height_range blocks = do
    check (are_consecutive blocks)
    front ← checked (head? blocks)
    back ← checked (last? blocks)
    logs ← called (
        rpc.eth_get_logs (
          values.set "toBlock" (values.string (eth.hex_int back.height))
            (values.set "fromBlock" (values.string (eth.hex_int front.height)) get_logs_options)))
    check (values.is_array logs)
    es ← distribute_logs (values.elements logs) (extractors blocks)
    pure (blocks_of es)
