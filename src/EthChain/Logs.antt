-- ===== src/EthChain/Logs.antt =====
-- The data of blocks and moves in the JSON of an Ethereum node: eth/hexutils.cpp and the helpers of
-- eth/ethchain.cpp.
use Prim.Native.Char.{code}
use xayax.Prelude.{
  ℕ, ◌+◌, ◌-◌, String, Bool, false, ◌&&◌, ◌||◌, [], Option, none, some, ◌==◌, if◌then◌else◌, ℤ, pos,
  negsuc, ltb_ℤ, u64_mod,
}
use xayax.Prelude.Action.{Action, ◌>>=◌, ◌>>◌, pure, check, checked}
use xayax.BlockData.{BlockData, MoveData}
use xayax.Values.{Values, field}

-- What the client uses of the eth-utils library; `none` is a failed CHECK in it.
pub record EthUtils (Json Decoder : Type 0) : Type 0 where
  -- AbiDecoder::ParseInt
  pub parse_int : String → Option ℤ
  -- AbiDecoder
  pub decoder : String → Decoder
  pub read_string : Decoder → Option (String × Decoder)
  pub read_uint : ℕ → Decoder → Option (String × Decoder)
  pub read_array : Decoder → Option (ℕ × Decoder)
  pub read_dynamic : Decoder → Option (Decoder × Decoder)
  pub get_all_data_read : Decoder → String
  -- Address: GetLowerCase () and GetChecksummed (), if it is valid
  pub address : String → Option (String × String)
  pub unhexlify : String → Option String
  pub hexlify : String → String
  pub keccak256 : String → String
  -- the value of an amount with eight decimals, as a double
  pub with_decimals : ℤ → Json
  -- ECDSA::VerifyMessage, with the signer's GetChecksummed ()
  pub verify_message : String → String → Option String
  -- std::hex
  pub hex_int : ℕ → String
  pub decimal : ℤ → String

-- A text without the prefix "0x".
unfoldable pub unprefixed : String → Option String
unprefixed String.[] = none
unprefixed (String.◌∷◌ c String.[]) = none
unprefixed (String.◌∷◌ c (String.◌∷◌ d s)) =
    if code c == b'0' && code d == b'x' then some s else none

-- The conversion of int64_t to uint64_t.
unfoldable pub to_uint64 : ℤ → ℕ
to_uint64 (pos n) = n
to_uint64 (negsuc n) = u64_mod - (n + 1)

unfoldable pub equal_ℤ : ℤ → ℤ → Bool
equal_ℤ (pos a) (pos b) = a == b
equal_ℤ (pos a) (negsuc b) = false
equal_ℤ (negsuc a) (pos b) = false
equal_ℤ (negsuc a) (negsuc b) = a == b

-- curIndices > lastIndices
unfoldable pub is_later : ℤ × ℤ → ℤ × ℤ → Bool
unfolding equal_ℤ
is_later (a, b) (c, d) = ltb_ℤ c a || equal_ℤ c a && ltb_ℤ d b

module _ {Json Double Decoder : Type 0} (values : Values Json Double)
    (eth : EthUtils Json Decoder) where
  unfoldable pub convert_uint256 : String → Option String
  unfolding unprefixed
  convert_uint256 hex_with_prefix = unprefixed hex_with_prefix

  module _ {World : Type 0} where
    -- ConvertUint256 and ParseInt of a member of the value.
    abbrev pub hash_field : String → Json → Action World String
    hash_field key val = field values values.as_string key val >>= λ t. checked (convert_uint256 t)

    abbrev pub int_field : String → Json → Action World ℤ
    int_field key val = field values values.as_string key val >>= λ t. checked (eth.parse_int t)

    unfoldable pub extract_base_data : Json → Action World (BlockData Json)
    unfolding convert_uint256 to_uint64
    extract_base_data val = do
      check (values.is_object val)
      hash ← hash_field "hash" val
      parent ← hash_field "parentHash" val
      height ← int_field "number" val
      timestamp ← int_field "timestamp" val
      pure (record {
        hash = hash;
        parent = parent;
        height = to_uint64 height;
        rngseed = hash;
        metadata = values.set "timestamp" (values.integer timestamp) values.empty_object;
        moves = [];
      })

    -- res.metadata["out"]
    unfoldable pub coin_output : ℤ → String → Action World Json
    coin_output (negsuc n) receiver = checked none
    coin_output (pos n) receiver =
        if n == 0
        then pure values.empty_object
        else pure (values.set receiver (eth.with_decimals (pos n)) values.empty_object)

    -- The keccak hash of the data in hexadecimal.
    unfoldable pub move_id : String → Action World String
    unfolding unprefixed
    move_id data_hex = do
      hex ← checked (unprefixed data_hex)
      data_bin ← checked (eth.unhexlify hex)
      pure (eth.hexlify (eth.keccak256 data_bin))

    -- The move without its txid, which the callers set.
    unfoldable pub get_move_data_from_logs : Decoder → Action World (String → MoveData Json)
    unfolding coin_output move_id
    get_move_data_from_logs dec = do
      (ns, dec1) ← checked (eth.read_string dec)
      (name, dec2) ← checked (eth.read_string dec1)
      (mv, dec3) ← checked (eth.read_string dec2)
      (nonce, dec4) ← checked (eth.read_uint 256 dec3)
      (mover, dec5) ← checked (eth.read_uint 160 dec4)
      (amount_hex, dec6) ← checked (eth.read_uint 256 dec5)
      amount ← checked (eth.parse_int amount_hex)
      (receiver_hex, dec7) ← checked (eth.read_uint 160 dec6)
      (lower, receiver) ← checked (eth.address receiver_hex)
      out ← coin_output amount receiver
      mvid ← move_id (eth.get_all_data_read dec7)
      pure (λ txid. record {
        txid = txid;
        ns = ns;
        name = name;
        mv = mv;
        burns = [];
        metadata =
            values.set "mvid" (values.string mvid) (values.set "out" out values.empty_object);
      })

    unfoldable pub extract_move : Json → Action World (MoveData Json)
    unfolding get_move_data_from_logs convert_uint256
    extract_move val = do
      hex ← field values values.as_string "data" val
      res ← get_move_data_from_logs (eth.decoder hex)
      txid ← hash_field "transactionHash" val
      pure (res txid)
