-- ===== src/EthChain/Pendings.antt =====
-- class PendingDataExtractor of eth/pending.cpp, and the methods of class EthChain in eth/ethchain.cpp
-- that change its state.
use xayax.Prelude.{
  ℕ, zero, suc, String, Bool, false, ◌||◌, not, List, [], ◌∷◌, Option, none, some, if◌then◌else◌,
}
use xayax.Prelude.Texts.{same}
use xayax.Prelude.Action.{Action, ◌>>=◌, ◌>>◌, pure, check, checked}
use xayax.BlockData.{MoveData}
use xayax.Values.{Values, Answer, answer, rpc_error, called, reading, field}
use xayax.EthChain.Logs.{EthUtils, convert_uint256, get_move_data_from_logs}
use xayax.EthChain.Blocks.{EthRpc}
use xayax.EthChain.Mempool.{insert_txid}

pub record Extractor : Type 0 where
  pub accounts_contract : String
  pub fwd_code : String
  pub accounts_overlay_code : String
  pub watched_contracts : List String

-- The constants of the contracts, which the build generates, and the encoding of arguments by eth-utils.
pub record Contracts : Type 0 where
  pub call_forwarder_code : String
  pub tracking_accounts_code : String
  pub account_wchi_fcn : String
  pub forwarder_execute_fcn : String
  -- AbiEncoder with one word, and with a word and bytes
  pub encode_word : String → String
  pub encode_call : String → String → String
  pub concat_hex : String → String → String

unfoldable pub occurs : String → List String → Bool
occurs s [] = false
occurs s (t ∷ ts) = same t s || occurs s ts

module _ {Json Double Decoder World : Type 0} (values : Values Json Double)
    (eth : EthUtils Json Decoder) (rpc : EthRpc Json World) (contracts : Contracts) where
  abbrev pub dummy_address : String
  dummy_address = "0x4242424242424242424242424242424242424242"

  unfoldable pub fake_deploy : String → String → Action World String
  fake_deploy contract_code args = called (
      rpc.eth_call (values.set "to" (values.string dummy_address) values.empty_object) (
        values.set dummy_address
          (values.set "code" (values.string (contracts.concat_hex contract_code args))
            values.empty_object)
          values.empty_object))

  unfoldable pub pending_data_extractor : String → Action World Extractor
  unfolding fake_deploy
  pending_data_extractor acc = do
    (lower, accounts) ← checked (eth.address acc)
    fwd ← fake_deploy contracts.call_forwarder_code (contracts.encode_word accounts)
    wchi ← called (
        rpc.eth_call
          (values.set "data" (values.string contracts.account_wchi_fcn)
            (values.set "to" (values.string accounts) values.empty_object))
          values.empty_object)
    (word, rest) ← checked (eth.read_uint 160 (eth.decoder wchi))
    (wchi_lower, wchi_addr) ← checked (eth.address word)
    overlay ← fake_deploy contracts.tracking_accounts_code (contracts.encode_word wchi_addr)
    pure (record {
      accounts_contract = accounts;
      fwd_code = fwd;
      accounts_overlay_code = overlay;
      watched_contracts = [];
    })

  -- `none` is the failed CHECK.
  unfoldable pub add_watched_contract : String → Extractor → Option Extractor
  unfolding insert_txid
  add_watched_contract addr e = elim (eth.address addr) [
    | none ↦ none
    | some parsed ↦ some (record e { watched_contracts = insert_txid parsed.1 e.watched_contracts })
  ]

  unfoldable pub decode_entries : String → ℕ → Decoder → Action World (List (MoveData Json))
  unfolding get_move_data_from_logs convert_uint256
  decode_entries txid zero array = pure []
  decode_entries txid (suc n) array = do
    (dec, array') ← checked (eth.read_dynamic array)
    cur ← get_move_data_from_logs values eth dec
    id ← checked (convert_uint256 values eth txid)
    rest ← decode_entries txid n array'
    pure (cur id ∷ rest)

  unfoldable pub decode_move_logs : String → String → Action World (List (MoveData Json))
  unfolding decode_entries
  decode_move_logs txid hex_str = do
    (len, array) ← checked (eth.read_array (eth.decoder hex_str))
    decode_entries txid len array

  abbrev pub code_state : String → Json
  code_state c = values.set "code" (values.string c) values.empty_object

  -- The simulated call of a transaction from an address to a watched contract.
  unfoldable pub simulate :
      Extractor → String → Json → String → String → Action World (List (MoveData Json))
  unfolding decode_move_logs
  simulate e txid val from to = do
    call_data ← field values values.as_string "input" val
    value ← reading (values.at "value" val)
    res ←
        rpc.eth_call
          (values.set "data"
            (values.string (
              contracts.concat_hex contracts.forwarder_execute_fcn
                (contracts.encode_call to call_data)))
            (values.set "value" value (
              values.set "from" (values.string from)
                (values.set "to" (values.string from) values.empty_object))))
          (values.set e.accounts_contract (code_state e.accounts_overlay_code)
            (values.set from (code_state e.fwd_code) values.empty_object))
    elim res [ rpc_error c ↦ pure [] | answer hex ↦ decode_move_logs txid hex ]

  -- The moves of the transaction that the node returned.
  unfoldable pub moves_of : Extractor → String → Json → Action World (List (MoveData Json))
  unfolding simulate occurs
  moves_of e txid val = do
    check (values.is_object val)
    block_hash ← reading (values.at "blockHash" val)
    target ← reading (values.at "to" val)
    if not (values.is_null block_hash) || values.is_null target then pure [] else do
      from_text ← field values values.as_string "from" val
      to_text ← reading (values.as_string target)
      (from_lower, from) ← checked (eth.address from_text)
      (to_lower, to) ← checked (eth.address to_text)
      if occurs to e.watched_contracts then simulate e txid val from to else pure []

  -- GetMoves: the answer that is an RPC error is the exception of the first call.
  unfoldable pub get_moves : Extractor → String → Action World (Answer (List (MoveData Json)))
  unfolding moves_of
  get_moves e txid = do
    found ← rpc.eth_get_transaction_by_hash txid
    elim found [
      | rpc_error c ↦ pure (rpc_error c)
      | answer val ↦ do moves ← moves_of e txid val; pure (answer moves)
    ]
