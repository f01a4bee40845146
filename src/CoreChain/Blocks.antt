-- ===== src/CoreChain/Blocks.antt =====
-- ConstructBlockData and CoreChain::GetBlockRange of xayacore/corechain.cpp.
use xayax.Prelude.{
  ℕ, zero, suc, ◌+◌, ◌-◌, ◌%◌, String, Bool, List, [], ◌∷◌, Option, none, some, ltb, leb, ◌==◌,
  if◌then◌else◌, ℤ, pos, negsuc, u64_mod,
}
use xayax.Prelude.Action.{Action, ◌>>=◌, ◌>>◌, pure, throw, check}
use xayax.BlockData.{BlockData, MoveData}
use xayax.Values.{Values, answer, rpc_error, Call, called, reading, field}
use xayax.CoreChain.Moves.{get_move_from_tx}

-- The methods of CoreRpcClient that the client calls: stubs that the build generates. The calls run on
-- the state of the node.
pub record CoreRpc (Json World : Type 0) : Type 0 where
  pub getzmqnotifications : Call World Json
  pub getnetworkinfo : Call World Json
  pub getblockchaininfo : Call World Json
  pub getblockhash : ℕ → Call World String
  -- with verbosity 2
  pub getblock : String → Call World Json
  pub getblockheader : String → Call World Json
  pub getrawmempool : Call World Json
  -- of a message and the signature in base 64
  pub verifymessage : String → String → Call World Json
  -- of the transaction's bytes in hexadecimal
  pub decoderawtransaction : String → Call World Json

-- exc.GetCode () of -8: there is no block at the height.
unfoldable pub is_out_of_range : ℤ → Bool
is_out_of_range (pos n) = Bool.false
is_out_of_range (negsuc n) = n == 7

module _ {Json Double World : Type 0} (values : Values Json Double)
    (unhexlify : String → Option String) where
  unfoldable pub add_moves : List Json → Action World (List (MoveData Json))
  unfolding get_move_from_tx
  add_moves [] = pure []
  add_moves (tx ∷ txs) = do
    mv ← get_move_from_tx values unhexlify tx
    rest ← add_moves txs
    elim mv [ none ↦ pure rest | some m ↦ pure (m ∷ rest) ]

  unfoldable pub parent_of : Json → Action World String
  parent_of val =
      if values.is_member "previousblockhash" val
      then field values values.as_string "previousblockhash" val
      else pure ""

  unfoldable pub construct_block_data : Json → Action World (BlockData Json)
  unfolding add_moves parent_of
  construct_block_data val = do
    check (values.is_object val)
    hash ← field values values.as_string "hash" val
    height ← field values values.as_uint64 "height" val
    parent ← parent_of val
    rngseed ← field values values.as_string "rngseed" val
    timestamp ← field values values.as_int64 "time" val
    mediantime ← field values values.as_int64 "mediantime" val
    txs ← reading (values.at "tx" val)
    moves ← add_moves (values.elements txs)
    pure (record {
      hash = hash;
      parent = parent;
      height = height;
      rngseed = rngseed;
      metadata =
          values.set "mediantime" (values.integer mediantime)
            (values.set "timestamp" (values.integer timestamp) values.empty_object);
      moves = moves;
    })

  module _ (rpc : CoreRpc Json World) where
    -- The first loop, which determines endHash: `none` if the fuel does not suffice, `some none` where
    -- there is no block at the start height.
    unfoldable pub find_end : ℕ → ℕ → ℕ → Action World (Option (Option String))
    unfolding is_out_of_range
    find_end zero start end_height = pure none
    find_end (suc fuel) start end_height =
        let again = find_end fuel start end_height in
        do
          blockchain ← called rpc.getblockchaininfo
          blocks ← field values values.as_uint64 "blocks" blockchain
          if ltb blocks start
              then pure (some none)
              else if leb blocks end_height
              then (do
                best ← field values values.as_string "bestblockhash" blockchain
                pure (some (some best)))
              else do
                found ← rpc.getblockhash end_height
                elim found [
                  | answer hash ↦ pure (some (some hash))
                  | rpc_error c ↦ if is_out_of_range c then again else throw
                ]

    unfoldable pub fetch_block : String → Action World (BlockData Json)
    unfolding construct_block_data
    fetch_block hash = do val ← called (rpc.getblock hash); construct_block_data val

    -- The second loop, which goes back by the parents. The blocks are collected in the order in which
    -- std::reverse leaves them.
    unfoldable pub walk_back :
        ℕ → ℕ → String → List (BlockData Json) → Action World (Option (List (BlockData Json)))
    unfolding fetch_block
    walk_back zero start end_hash res = pure none
    walk_back (suc fuel) start end_hash res = do
      cur ← fetch_block end_hash
      check (leb start cur.height)
      let more = walk_back fuel start cur.parent (cur ∷ res)
      if ltb start cur.height then more else pure (some (cur ∷ res))

    abbrev pub walk_from :
        ℕ → ℕ → Option (Option String) → Action World (Option (List (BlockData Json)))
    walk_from fuel start none = pure none
    walk_from fuel start (some none) = pure (some [])
    walk_from fuel start (some (some hash)) = walk_back fuel start hash []

    -- With fuel for each of the loops.
    unfoldable pub get_block_range : ℕ → ℕ → ℕ → Action World (Option (List (BlockData Json)))
    unfolding find_end walk_back
    get_block_range fuel start count = if count == 0 then pure (some []) else do
      check (leb start ((start + count - 1) % u64_mod))
      found ← find_end fuel start ((start + count - 1) % u64_mod)
      walk_from fuel start found
