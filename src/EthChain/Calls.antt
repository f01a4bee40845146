-- ===== src/EthChain/Calls.antt =====
-- The methods of class EthChain in eth/ethchain.cpp that ask the node, but for GetBlockRange.
use xayax.Prelude.{
  ℕ, String, Bool, List, [], ◌∷◌, Option, none, some, if◌then◌else◌, ℤ, pos, minus_one,
}
use xayax.Prelude.Texts.{concat}
use xayax.Prelude.Action.{Action, ◌>>=◌, ◌>>◌, pure, check, checked}
use xayax.Values.{Values, answer, rpc_error, called, reading, field}
use xayax.EthChain.Logs.{EthUtils, to_uint64, equal_ℤ}
use xayax.EthChain.Blocks.{EthRpc}

-- CHAIN_IDS
abbrev pub chain_ids : List (ℤ × String)
chain_ids =
    (pos 137, "polygon")
    ∷ (pos 1337, "ganache")
    ∷ (pos 31337, "ganache")
    ∷ (pos 80001, "mumbai")
    ∷ []

-- CHAIN_IDS.find (chainId)
unfoldable pub find_chain : ℤ → List (ℤ × String) → Option String
unfolding equal_ℤ
find_chain id [] = none
find_chain id ((k, name) ∷ m) =
    let rest = find_chain id m in if equal_ℤ k id then some name else rest

-- The text whose signature is verified.
unfoldable pub full_message : (ℤ → String) → ℤ → String → String
full_message decimal chain_id msg =
    concat "Xaya signature for chain " (concat (decimal chain_id) (concat ":\n\n" msg))

abbrev pub get_version : ℕ
get_version = 1000000

unfoldable pub get_chain : ℤ → Option String
unfolding find_chain
get_chain chain_id = find_chain chain_id chain_ids

module _ {Json Double Decoder World : Type 0} (values : Values Json Double)
    (eth : EthUtils Json Decoder) (rpc : EthRpc Json World) where
  unfoldable pub get_tip_height : Action World ℕ
  unfolding to_uint64
  get_tip_height = do
    block_number ← called rpc.eth_block_number
    height ← checked (eth.parse_int block_number)
    pure (to_uint64 height)

  -- The second half, with the height of the block: mainchain["hash"] is compared as a JSON value.
  unfoldable pub height_on_main : (Json → String → Bool) → String → String → Action World ℤ
  height_on_main equals prefix_hash height_hex = do
    mainchain ← called (rpc.eth_get_block_by_number height_hex)
    if values.is_null mainchain then pure minus_one else do
      check (values.is_object mainchain)
      hash ← reading (values.at "hash" mainchain)
      if equals hash prefix_hash then checked (eth.parse_int height_hex) else pure minus_one

  unfoldable pub get_mainchain_height : (Json → String → Bool) → String → Action World ℤ
  unfolding height_on_main
  get_mainchain_height equals hash = do
    found ← rpc.eth_get_block_by_hash (concat "0x" hash)
    elim found [
      | rpc_error code ↦ pure minus_one
      | answer val ↦ if values.is_null val then pure minus_one else do
        check (values.is_object val)
        height_hex ← field values values.as_string "number" val
        height_on_main equals (concat "0x" hash) height_hex
    ]

  -- `none` is the result false.
  unfoldable pub verify_message : ℤ → String → String → Option String
  unfolding full_message
  verify_message chain_id msg signature =
      eth.verify_message (full_message eth.decimal chain_id msg)
        (concat "0x" (eth.hexlify signature))
